-- ===== src/ApiKey/Revocation.antt =====
-- A key that was revoked is never accepted again.
use blockchain_transaction_s.Prelude.{
  ℕ, ◌+◌, ◌≤◌, ◌≡◌, refl, ◌⊎◌, String, false, ◌&&◌, not, List, [], ◌∷◌, some, str_eq, ◌==◌, inl,
  inr, count_where, find, arith, Bool-cases, Option-cases, update_where,
}
use blockchain_transaction_s.Bytes.{bytes_eq→≡}
use blockchain_transaction_s.Effects.{Result, ok, Process, ◌>>=◌}
use blockchain_transaction_s.Prisma.Tables.{count_mono, count-update_where, count-update_where_out}
use blockchain_transaction_s.ApiKey.{
  ApiKey, AuditLog, KeyStore, Runtime, CreateApiKeyInput, has_key_id, is_unrevoked, is_revocable,
  is_hash_of, generate_raw_key, new_api_key, create_key, verify_key, find_by_id_for_tenant, revoke,
  on_revoked, revoke_key,
}
use blockchain_transaction_s.ApiKey.Verify.{quiet, IsRuntime}
use blockchain_transaction_s.ApiKey.Lifecycle.{record_audit-quiet}

-- What happens to the keys afterwards: time passes, or one of the methods is called.
pub data Event : Type 0 where
  tick : ℕ → Event
  creating : String → CreateApiKeyInput → Event
  revoking : String → String → Event
  verifying : String → Event

module _ (runtime : Runtime) where
  abbrev pub happen : Event → KeyStore → KeyStore
  happen (tick ms) w = record w { clock = w.clock + ms }
  happen (creating tenant_id input) w = (create_key runtime tenant_id input (quiet w)).1.world
  happen (revoking tenant_id id) w = (revoke_key runtime tenant_id id (quiet w)).1.world
  happen (verifying raw_key) w = (verify_key runtime raw_key (quiet w)).1.world

  abbrev pub history : List Event → KeyStore → KeyStore
  history [] w = w
  history (e ∷ es) w = history es (happen e w)

  -- Some key has the hash of the text, and all such keys are the one of a tenant.
  pub record IsKeyOf (raw_key tenant_id id : String) (w : KeyStore) : Type 0 where
    pub stored : 1 ≤ count_where (is_hash_of runtime raw_key) w.api_keys
    pub only :
        count_where
          (λ k.
            is_hash_of runtime raw_key k && not (has_key_id id k && str_eq k.tenant_id tenant_id))
          w.api_keys
        ≡ 0

  -- Some key has the hash of the text, and all such keys are revoked.
  pub record IsRevoked (raw_key : String) (w : KeyStore) : Type 0 where
    pub stored : 1 ≤ count_where (is_hash_of runtime raw_key) w.api_keys
    pub none_left : count_where (λ k. is_hash_of runtime raw_key k && is_unrevoked k) w.api_keys ≡ 0

  module _ (laws : IsRuntime runtime) where
    abbrev pub revoked_at_now : KeyStore → ApiKey → ApiKey
    revoked_at_now w k = record k { active = false; revoked_at = some w.clock }

    abbrev pub revoked_world : String → String → List AuditLog → KeyStore → KeyStore
    revoked_world tenant_id id logs w = record w {
      api_keys = update_where (is_revocable tenant_id id) (revoked_at_now w) w.api_keys;
      audit_logs = logs;
    }

    abbrev pub HasRevoked : String → String → KeyStore → Result String × Process KeyStore → Type 0
    HasRevoked tenant_id id w o =
        ((o.1 ≡ quiet w) × ((x : String) → o.0 ≡ ok x → ⊥))
        ⊎ ((logs : List AuditLog) × (o.1 ≡ quiet (revoked_world tenant_id id logs w)))

    revoke-quiet :
        (tenant_id id : String) (w : KeyStore)
        → revoke runtime tenant_id id w ≡ (
          ok (count_where (is_revocable tenant_id id) w.api_keys == 1),
          revoked_world tenant_id id w.audit_logs w,
        )
    unfolding revoke
    revoke-quiet tenant_id id w =
        rw
          (
            laws.api_key_lem.update_many_lem (is_revocable tenant_id id) (revoked_at_now w)
                w.api_keys,
            revoke,
          )
          refl

    -- `revokeKey` throws and changes nothing, or it has revoked the key of the tenant.
    pub revoke_key-HasRevoked :
        (tenant_id id : String) (w : KeyStore)
        → HasRevoked tenant_id id w (revoke_key runtime tenant_id id (quiet w))
    unfolding revoke_key find_by_id_for_tenant on_revoked ◌>>=◌
    revoke_key-HasRevoked tenant_id id w =
        elim (Option-cases
          (find (λ k. has_key_id id k && str_eq k.tenant_id tenant_id) w.api_keys)) [
            | inl missing ↦
                rw (laws.api_key_lem.find_first_lem _ w.api_keys)
                  (rw missing (inl (refl, λ x e. cc)))
            | inr (k, found) ↦ rw (laws.api_key_lem.find_first_lem _ w.api_keys) (
                rw found (
                  rw (revoke-quiet tenant_id id w, ◌>>=◌)
                    (elim (Bool-cases (count_where (is_revocable tenant_id id) w.api_keys == 1)) [
                      | inr late ↦ rw late (inr (w.audit_logs, refl))
                      | inl done ↦
                          let (logs, logged) =
                            record_audit-quiet runtime laws
                              (record {
                                tenant_id = tenant_id;
                                action = "api_key.revoked";
                                resource = "ApiKey";
                                resource_id = id;
                              })
                              (revoked_world tenant_id id w.audit_logs w) in
                          rw done (rw (logged, ◌>>=◌) (inr (logs, refl)))
                    ])))
          ]

    module _ (raw_key : String) where
      -- A revocation changes no hash, and leaves no more keys unrevoked.
      revoked_world-stored :
          (tenant_id id : String) (logs : List AuditLog) (w : KeyStore)
          → count_where (is_hash_of runtime raw_key) (revoked_world tenant_id id logs w).api_keys
            ≡ count_where (is_hash_of runtime raw_key) w.api_keys
      revoked_world-stored tenant_id id logs w =
          count-update_where (is_hash_of runtime raw_key) (is_revocable tenant_id id)
            (revoked_at_now w) w.api_keys (λ k h. refl)

      revoked_world-unrevoked :
          (tenant_id id : String) (logs : List AuditLog) (w : KeyStore)
          → count_where
              (λ k. is_hash_of runtime raw_key k && is_unrevoked k)
              (revoked_world tenant_id id logs w).api_keys
            ≡ count_where
                (λ k.
                  (is_hash_of runtime raw_key k && is_unrevoked k)
                  && not (is_revocable tenant_id id k))
                w.api_keys
      revoked_world-unrevoked tenant_id id logs w =
          count-update_where_out (λ k. is_hash_of runtime raw_key k && is_unrevoked k)
            (is_revocable tenant_id id) (revoked_at_now w) w.api_keys (λ k h. ground arith)

      pub revoked_world-keeps :
          (tenant_id id : String) (logs : List AuditLog) (w : KeyStore)
          → IsRevoked raw_key w
          → IsRevoked raw_key (revoked_world tenant_id id logs w)
      revoked_world-keeps tenant_id id logs w r = record {
        stored = omega (arith, r.stored, revoked_world-stored tenant_id id logs w);
        none_left = omega (
          arith,
          r.none_left,
          revoked_world-unrevoked tenant_id id logs w,
          count_mono
              (λ k.
                (is_hash_of runtime raw_key k && is_unrevoked k)
                && not (is_revocable tenant_id id k))
              (λ k. is_hash_of runtime raw_key k && is_unrevoked k) w.api_keys
              (λ k h. ground arith),
        );
      }

      -- The revocation of the only key with the hash leaves none.
      revoked_world-IsRevoked :
          (tenant_id id : String) (logs : List AuditLog) (w : KeyStore)
          → IsKeyOf raw_key tenant_id id w
          → IsRevoked raw_key (revoked_world tenant_id id logs w)
      revoked_world-IsRevoked tenant_id id logs w key = record {
        stored = omega (arith, key.stored, revoked_world-stored tenant_id id logs w);
        none_left = omega (
          arith,
          key.only,
          revoked_world-unrevoked tenant_id id logs w,
          count_mono
              (λ k.
                (is_hash_of runtime raw_key k && is_unrevoked k)
                && not (is_revocable tenant_id id k))
              (λ k.
                is_hash_of runtime raw_key k
                && not (has_key_id id k && str_eq k.tenant_id tenant_id))
              w.api_keys (λ k h. ground arith),
        );
      }

      pub revoke_key-IsRevoked :
          (tenant_id id x : String) (w : KeyStore)
          → (revoke_key runtime tenant_id id (quiet w)).0 ≡ ok x
          → IsKeyOf raw_key tenant_id id w
          → IsRevoked raw_key (revoke_key runtime tenant_id id (quiet w)).1.world
      revoke_key-IsRevoked tenant_id id x w done key = elim (revoke_key-HasRevoked tenant_id id w) [
        | inl (same, refused) ↦ absurd (refused x done)
        | inr (logs, ran) ↦ rw ran (revoked_world-IsRevoked tenant_id id logs w key)
      ]

      -- A new key has another hash.
      pub new_api_key-other :
          (tenant_id : String) (input : CreateApiKeyInput) (w : KeyStore)
          → IsRevoked raw_key w
          → is_hash_of runtime raw_key
              (new_api_key runtime tenant_id input (generate_raw_key runtime w) w)
            ≡ false
      new_api_key-other tenant_id input w r =
          elim (Bool-cases (
            is_hash_of runtime raw_key
              (new_api_key runtime tenant_id input (generate_raw_key runtime w) w))) [
                | inr other ↦ other
                | inl same ↦
                    let e =
                      bytes_eq→≡
                        (runtime.decode_hex (runtime.hash_token (generate_raw_key runtime w)))
                        (runtime.decode_hex (runtime.hash_token raw_key)) (ground arith) in
                    let le =
                      count_mono (is_hash_of runtime raw_key)
                        (is_hash_of runtime (generate_raw_key runtime w)) w.api_keys
                        (λ k h. rw e h) in
                    absurd (omega (arith, le, laws.random_new w, r.stored))
              ]
