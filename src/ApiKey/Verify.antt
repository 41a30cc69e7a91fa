-- ===== src/ApiKey/Verify.antt =====
-- When a key that is presented is accepted.
use blockchain_transaction_s.Prelude.{
  ◌≤◌, ◌≡◌, refl, String, Bool, true, false, ◌&&◌, not, List, [], some, eq_refl, ◌==◌, ltb, inl,
  inr, count_where, find, arith, Bool-cases, Option-cases, update_where,
}
use Prim.Native.String.{count}
use blockchain_transaction_s.Effects.{ok, err, Process, ◌>>=◌}
use blockchain_transaction_s.Prisma.{IsModel}
use blockchain_transaction_s.Prisma.Tables.{count-find, find-count, find_passes, count_mono}
use blockchain_transaction_s.ApiKey.{
  ApiKey, KeyStore, Runtime, CreateApiKeyInput, VerifiedKey, key_prefix_length, prefix_of,
  invalid_tenant_key, has_key_id, is_usable, is_hash_of, generate_raw_key, new_api_key,
  find_active_by_prefix, touch, on_match, verify_key,
}

abbrev pub quiet : KeyStore → Process KeyStore
quiet w = record { world = w; turns = [] }

-- The table of the keys, and what the runtime generates: a key that is generated has the hash of no
-- stored key, and its row is then added.
pub record IsRuntime (runtime : Runtime) : Type 0 where
  pub api_key_lem : IsModel runtime.api_key
  pub find_all_lem :
      (p q : ApiKey → Bool) (t : List ApiKey)
      → count_where q (runtime.find_all p t) ≡ count_where (λ k. p k && q k) t
  pub random_long : (w : KeyStore) → key_prefix_length ≤ count (generate_raw_key runtime w)
  pub random_new :
      (w : KeyStore) → count_where (is_hash_of runtime (generate_raw_key runtime w)) w.api_keys ≡ 0
  pub create_free :
      (tenant_id : String) (input : CreateApiKeyInput) (raw_key : String) (w : KeyStore)
      → count_where (is_hash_of runtime raw_key) w.api_keys ≡ 0
      → (keys : List ApiKey) × (runtime.api_key.create
            (new_api_key runtime tenant_id input raw_key w)
            w.api_keys
          ≡ some keys)

module _ (runtime : Runtime) (laws : IsRuntime runtime) (raw_key : String) where
  -- A candidate that was found is usable and has the hash.
  candidate :
      (p : ApiKey → Bool) (t : List ApiKey) (k : ApiKey)
      → find (is_hash_of runtime raw_key) (runtime.find_all p t) ≡ some k
      → (q : ApiKey → Bool) → q k ≡ true
      → 1 ≤ count_where (λ x. p x && q x) t
  candidate p t k found q passes = omega (
    arith,
    find-count (is_hash_of runtime raw_key) q (runtime.find_all p t) k found passes,
    laws.find_all_lem p q t,
  )

  module _ (w : KeyStore) (long : ltb (count raw_key) key_prefix_length ≡ false) where
    abbrev usable : ApiKey → Bool
    usable = is_usable (prefix_of raw_key) w.clock

    abbrev candidates : List ApiKey
    candidates = runtime.find_all usable w.api_keys

    verify_key-long :
        verify_key runtime raw_key (quiet w)
        ≡ on_match runtime (find (is_hash_of runtime raw_key) candidates) (quiet w)
    unfolding verify_key find_active_by_prefix ◌>>=◌
    verify_key-long = rw long refl

    -- A stored key is found when its last use is written.
    touch-quiet :
        (k : ApiKey)
        → 1 ≤ count_where (has_key_id k.id) w.api_keys
        → (v : KeyStore) × (touch runtime k.id w ≡ (ok tt, v))
    unfolding touch
    touch-quiet k stored =
        let positive : (count_where (has_key_id k.id) w.api_keys == 0) ≡ false = ground arith in
        (
          record w {
            api_keys =
                update_where (has_key_id k.id) (λ x. record x { last_used_at = some w.clock })
                  w.api_keys;
          },
          rw
              (
                laws.api_key_lem.update_many_lem (has_key_id k.id)
                    (λ x. record x { last_used_at = some w.clock }) w.api_keys,
                touch,
              )
              (rw positive refl),
        )

    -- If some usable key has the hash, and every key with the hash passes a test, then a key that
    -- passes it is accepted.
    pub verify_key-accepts :
        (q : ApiKey → Bool)
        → 1 ≤ count_where (λ k. usable k && is_hash_of runtime raw_key k) w.api_keys
        → count_where (λ k. is_hash_of runtime raw_key k && not (q k)) w.api_keys ≡ 0
        → (v : VerifiedKey) × ((verify_key runtime raw_key (quiet w)).0 ≡ ok v)
          × (q v.api_key ≡ true)
          × (v.tenant ≡ runtime.tenant_of v.api_key)
    unfolding on_match ◌>>=◌
    verify_key-accepts q somebody only =
        let (k, found) = count-find (is_hash_of runtime raw_key) candidates (
          omega
            (arith, somebody, laws.find_all_lem usable (is_hash_of runtime raw_key) w.api_keys)) in
        let here = candidate usable w.api_keys k found in
        let stored =
          count_mono (λ x. usable x && has_key_id k.id x) (has_key_id k.id) w.api_keys
            (λ x h. ground arith) in
        let (v, touched) =
          touch-quiet k (omega (arith, here (has_key_id k.id) (eq_refl k.id), stored)) in
        (
          record { tenant = runtime.tenant_of k; api_key = k },
          rw verify_key-long (rw found (rw (touched, ◌>>=◌) refl)),
          passing k found,
          refl,
        )
      where
        passing : (k : ApiKey) → find (is_hash_of runtime raw_key) candidates ≡ some k → q k ≡ true
        passing k found = elim (Bool-cases (q k)) [
          | inl good ↦ good
          | inr bad ↦
              let hashed = find_passes (is_hash_of runtime raw_key) candidates k found in
              let there =
                candidate usable w.api_keys k found (λ x. is_hash_of runtime raw_key x && not (q x))
                  (rw hashed (rw bad refl)) in
              let le =
                count_mono (λ x. usable x && (is_hash_of runtime raw_key x && not (q x)))
                  (λ x. is_hash_of runtime raw_key x && not (q x)) w.api_keys
                  (λ x h. ground arith) in
              absurd (omega (arith, there, le, only))
        ]

  -- If no usable key has the hash, then the key is refused, and nothing is written.
  pub verify_key-refuses :
      (w : KeyStore)
      → count_where
          (λ k. is_usable (prefix_of raw_key) w.clock k && is_hash_of runtime raw_key k)
          w.api_keys
        ≡ 0
      → verify_key runtime raw_key (quiet w) ≡ (err invalid_tenant_key, quiet w)
  unfolding verify_key on_match
  verify_key-refuses w nobody = elim (Bool-cases (ltb (count raw_key) key_prefix_length)) [
    | inl short ↦ rw short refl
    | inr long ↦
        rw (verify_key-long w long)
          (elim (Option-cases (find (is_hash_of runtime raw_key) (candidates w long))) [
            | inl missing ↦ rw missing refl
            | inr (k, found) ↦
                let there =
                  candidate (usable w long) w.api_keys k found (is_hash_of runtime raw_key)
                    (find_passes (is_hash_of runtime raw_key) (candidates w long) k found) in
                absurd (omega (arith, there, nobody))
          ])
  ]
