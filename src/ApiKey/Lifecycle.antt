-- ===== src/ApiKey/Lifecycle.antt =====
-- A key is accepted from its creation to its expiry, and never again after it is revoked.
use blockchain_transaction_s.Prelude.{
  ℕ, ◌+◌, ◌≤◌, ◌≡◌, refl, ◌∙◌, ◌<◌, String, Bool, true, ◌&&◌, not, List, ◌∷◌, Option, none, some,
  str_eq, eq_iff, eq_refl, ltb, inl, inr, count_where, arith, Option-cases,
}
use blockchain_transaction_s.Bytes.{bytes_eq_refl}
use blockchain_transaction_s.Effects.{ok, catch_error, ◌>>=◌}
use blockchain_transaction_s.Prisma.Tables.{count_mono}
use blockchain_transaction_s.ApiKey.{
  ApiKey, AuditLog, KeyStore, Runtime, CreateApiKeyInput, CreatedKey, VerifiedKey, prefix_of,
  has_key_id, is_usable, is_hash_of, is_unexpired, generate_raw_key, new_api_key, create,
  create_log, record_audit, create_with, create_key, verify_key,
}
use blockchain_transaction_s.ApiKey.Verify.{quiet, IsRuntime, verify_key-accepts}

-- The time has not come.
abbrev pub Unexpired : Option ℕ → ℕ → Type 0
Unexpired none now = Unit
Unexpired (some at) now = now < at

module _ (runtime : Runtime) (laws : IsRuntime runtime) where
  -- A key has its own hash.
  is_hash_of-new_api_key :
      (tenant_id : String) (input : CreateApiKeyInput) (raw_key : String) (w : KeyStore)
      → is_hash_of runtime raw_key (new_api_key runtime tenant_id input raw_key w) ≡ true
  is_hash_of-new_api_key tenant_id input raw_key w =
      ground (arith, bytes_eq_refl (runtime.decode_hex (runtime.hash_token raw_key)))

  -- The audit record may be lost, but nothing else happens.
  pub record_audit-quiet :
      (entry : AuditLog) (w : KeyStore)
      → (logs : List AuditLog) × (record_audit runtime entry (quiet w)
          ≡ (ok tt, quiet (record w { audit_logs = logs })))
  unfolding record_audit create_log catch_error
  record_audit-quiet entry w = elim (Option-cases (runtime.audit_log.create entry w.audit_logs)) [
    | inl refused ↦ (w.audit_logs, rw (refused, create_log, catch_error) refl)
    | inr (logs, added) ↦ (logs, rw (added, create_log, catch_error) refl)
  ]

  create-done :
      (tenant_id : String) (input : CreateApiKeyInput) (raw_key : String) (w : KeyStore)
      (keys : List ApiKey)
      → runtime.api_key.create (new_api_key runtime tenant_id input raw_key w) w.api_keys
        ≡ some keys
      → create runtime tenant_id input raw_key w
        ≡ (ok (new_api_key runtime tenant_id input raw_key w), record w { api_keys = keys })
  unfolding create
  create-done tenant_id input raw_key w keys done = rw (done, create) refl

  -- A key that is created, among nobody else, is in the table.
  pub create_key-quiet :
      (tenant_id : String) (input : CreateApiKeyInput) (w : KeyStore)
      → (c : CreatedKey) × (w' : KeyStore) × (create_key runtime tenant_id input (quiet w)
          ≡ (ok c, quiet w'))
        × (c.api_key ≡ generate_raw_key runtime w)
        × (c.id ≡ runtime.uuid w)
        × (w'.clock ≡ w.clock)
        × ((p : ApiKey → Bool)
            → count_where p w'.api_keys
              ≡ count_where p
                  (new_api_key runtime tenant_id input (generate_raw_key runtime w) w ∷ w.api_keys))
  unfolding create_key create_with ◌>>=◌
  create_key-quiet tenant_id input w =
      let raw_key = generate_raw_key runtime w in
      let row = new_api_key runtime tenant_id input raw_key w in
      let (keys, done) = laws.create_free tenant_id input raw_key w (laws.random_new w) in
      let (logs, logged) =
        record_audit-quiet
          (record {
            tenant_id = tenant_id;
            action = "api_key.created";
            resource = "ApiKey";
            resource_id = runtime.uuid w;
          })
          (record w { api_keys = keys }) in
      (
        record {
          id = row.id;
          api_key = raw_key;
          key_prefix = row.key_prefix;
          name = row.name;
          scopes = row.scopes;
          expires_at = row.expires_at;
          created_at = row.created_at;
        },
        record w { api_keys = keys; audit_logs = logs },
        rw (create-done tenant_id input raw_key w keys done, ◌>>=◌) (rw (logged, ◌>>=◌) refl),
        refl,
        refl,
        refl,
        laws.api_key_lem.create_lem row w.api_keys keys done,
      )

  unexpired : (k : ApiKey) (now : ℕ) → Unexpired k.expires_at now → is_unexpired now k ≡ true
  unexpired k now h = go k.expires_at h
    where
      go : (e : Option ℕ) → Unexpired e now → elim e [ none ↦ true | some at ↦ ltb now at ] ≡ true
      go none h = refl
      go (some at) h = ground arith

  module _ (tenant_id : String) (input : CreateApiKeyInput) (w v : KeyStore)
      (counts : (p : ApiKey → Bool)
        → count_where p v.api_keys
          ≡ count_where p (
              new_api_key runtime tenant_id input (generate_raw_key runtime w) w
              ∷ w.api_keys)) where
    abbrev raw : String
    raw = generate_raw_key runtime w

    abbrev row : ApiKey
    row = new_api_key runtime tenant_id input raw w

    abbrev is_row : ApiKey → Bool
    is_row k = has_key_id (runtime.uuid w) k && str_eq k.tenant_id tenant_id

    row-is_row : is_row row ≡ true
    row-is_row = rw (eq_refl (runtime.uuid w)) (eq_refl tenant_id)

    -- No key but the new one has its hash.
    only_row : count_where (λ k. is_hash_of runtime raw k && not (is_row k)) v.api_keys ≡ 0
    only_row =
        let le =
          count_mono (λ k. is_hash_of runtime raw k && not (is_row k)) (is_hash_of runtime raw)
            w.api_keys (λ k h. ground arith) in
        counts (λ k. is_hash_of runtime raw k && not (is_row k))
        ∙ rw (is_hash_of-new_api_key tenant_id input raw w)
            (rw row-is_row (omega (arith, le, laws.random_new w)))

    row_usable : Unexpired input.expires_at v.clock → is_usable (prefix_of raw) v.clock row ≡ true
    row_usable alive = rw (eq_refl (prefix_of raw)) (unexpired row v.clock alive)

    pub accepted :
        Unexpired input.expires_at v.clock
        → (k : VerifiedKey) × ((verify_key runtime raw (quiet v)).0 ≡ ok k)
          × (k.api_key.id ≡ runtime.uuid w)
          × (k.api_key.tenant_id ≡ tenant_id)
          × (k.tenant ≡ runtime.tenant_of k.api_key)
    accepted alive =
        let somebody : 1
            ≤ count_where (λ k. is_usable (prefix_of raw) v.clock k && is_hash_of runtime raw k)
                v.api_keys =
          rw (counts (λ k. is_usable (prefix_of raw) v.clock k && is_hash_of runtime raw k)) (
            rw (row_usable alive)
              (rw (is_hash_of-new_api_key tenant_id input raw w) (omega arith))) in
        let (k, ran, passes, tenant) =
          verify_key-accepts runtime laws raw v (ground (arith, laws.random_long w)) is_row somebody
            only_row in
        (
          k,
          ran,
          ground (arith, eq_iff k.api_key.id (runtime.uuid w)),
          ground (arith, eq_iff k.api_key.tenant_id tenant_id),
          tenant,
        )

-- The runtime behaves, and generates keys that are new: then a key of a tenant is created, and until
-- it expires, verifying the text that `createKey` returned gives the key with the identifier that it
-- returned, and the tenant of it (with nobody else between, and no call lost).
pub verify_key-create_key :
    (runtime : Runtime)
    → IsRuntime runtime
    → (tenant_id : String) (input : CreateApiKeyInput) (w : KeyStore)
    → (c : CreatedKey) × (w' : KeyStore) × (create_key runtime tenant_id input (quiet w)
        ≡ (ok c, quiet w'))
      × ((ms : ℕ)
          → Unexpired input.expires_at (w'.clock + ms)
          → (v : VerifiedKey) × ((verify_key runtime c.api_key
                (quiet (record w' { clock = w'.clock + ms }))).0
              ≡ ok v)
            × (v.api_key.id ≡ c.id)
            × (v.api_key.tenant_id ≡ tenant_id)
            × (v.tenant ≡ runtime.tenant_of v.api_key))
verify_key-create_key runtime laws tenant_id input w =
    let (c, w', created, text, id, clock, counts) =
      create_key-quiet runtime laws tenant_id input w in
    (
      c,
      w',
      created,
      λ ms alive. rw text (
          rw id (
            accepted runtime laws tenant_id input w (record w' { clock = w'.clock + ms }) counts
              alive)),
    )
