-- ===== src/ApiKey/Finality.antt =====
-- Whatever happens after the revocation of a key, it is refused.
use blockchain_transaction_s.Prelude.{
  ◌≡◌, refl, sym, ◌∙◌, ◌⊎◌, String, ◌&&◌, List, [], ◌∷◌, some, ◌==◌, ltb, inl, inr, count_where,
  find, arith, Bool-cases, Option-cases, update_where, subst,
}
use Prim.Native.String.{count}
use blockchain_transaction_s.Effects.{Result, ok, err, pure, continue, ◌>>=◌}
use blockchain_transaction_s.Prisma.Tables.{count_mono, count-update_where}
use blockchain_transaction_s.ApiKey.{
  KeyStore, Runtime, CreateApiKeyInput, VerifiedKey, key_prefix_length, prefix_of,
  invalid_tenant_key, has_key_id, is_usable, is_unrevoked, is_hash_of, create_key, verify_key,
  find_active_by_prefix, touch, on_match, revoke_key,
}
use blockchain_transaction_s.ApiKey.Verify.{quiet, IsRuntime, verify_key-refuses}
use blockchain_transaction_s.ApiKey.Lifecycle.{create_key-quiet}
use blockchain_transaction_s.ApiKey.Revocation.{
  Event, tick, creating, revoking, verifying, happen, history, IsKeyOf, IsRevoked,
  revoke_key-HasRevoked, revoke_key-IsRevoked, new_api_key-other, revoked_world-keeps,
}

module _ (runtime : Runtime) (laws : IsRuntime runtime) where
  abbrev touched : String → KeyStore → KeyStore
  touched id w = record w {
    api_keys =
        update_where (has_key_id id) (λ k. record k { last_used_at = some w.clock }) w.api_keys;
  }

  abbrev IsTouched : KeyStore → KeyStore → Type 0
  IsTouched w v = (v ≡ w) ⊎ ((id : String) × (v ≡ touched id w))

  touch-IsTouched : (id : String) (w : KeyStore) → IsTouched w (touch runtime id w).1
  unfolding touch
  touch-IsTouched id w =
      rw
        (
          laws.api_key_lem.update_many_lem (has_key_id id)
              (λ k. record k { last_used_at = some w.clock }) w.api_keys,
          touch,
        )
        (elim (Bool-cases (count_where (has_key_id id) w.api_keys == 0)) [
          | inl missing ↦ rw missing (inl refl)
          | inr here ↦ rw here (inr (id, refl))
        ])

  continue-world :
      (r : Result (Unit {0})) (w : KeyStore) (v : VerifiedKey)
      → (continue r (λ u. pure v) (quiet w)).1.world ≡ w
  continue-world (ok u) w v = refl
  continue-world (err e) w v = refl

  -- A verification writes the last use of a key, or nothing.
  verify_key-IsTouched :
      (raw_key : String) (w : KeyStore) → IsTouched w (verify_key runtime raw_key (quiet w)).1.world
  unfolding verify_key find_active_by_prefix on_match ◌>>=◌
  verify_key-IsTouched raw_key w = elim (Bool-cases (ltb (count raw_key) key_prefix_length)) [
    | inl short ↦ rw short (inl refl)
    | inr long ↦
        rw long
          (elim (Option-cases (
            find (is_hash_of runtime raw_key)
              (runtime.find_all (is_usable (prefix_of raw_key) w.clock) w.api_keys))) [
                | inl missing ↦ rw missing (inl refl)
                | inr (k, found) ↦ rw found (
                    rw
                      (continue-world (touch runtime k.id w).0 (touch runtime k.id w).1
                        (record { tenant = runtime.tenant_of k; api_key = k }))
                      (touch-IsTouched k.id w))
              ])
  ]

  module _ (raw_key : String) where
    touched-IsRevoked :
        (id : String) (w : KeyStore)
        → IsRevoked runtime raw_key w
        → IsRevoked runtime raw_key (touched id w)
    touched-IsRevoked id w r = record {
      stored = omega (
        arith,
        r.stored,
        count-update_where (is_hash_of runtime raw_key) (has_key_id id)
            (λ k. record k { last_used_at = some w.clock }) w.api_keys (λ k h. refl),
      );
      none_left =
          count-update_where (λ k. is_hash_of runtime raw_key k && is_unrevoked k) (has_key_id id)
            (λ k. record k { last_used_at = some w.clock }) w.api_keys (λ k h. refl)
          ∙ r.none_left;
    }

    created-IsRevoked :
        (tenant_id : String) (input : CreateApiKeyInput) (w : KeyStore)
        → IsRevoked runtime raw_key w
        → IsRevoked runtime raw_key (create_key runtime tenant_id input (quiet w)).1.world
    created-IsRevoked tenant_id input w r =
        let (c, w', created, text, id, clock, counts) =
          create_key-quiet runtime laws tenant_id input w in
        let other = new_api_key-other runtime laws raw_key tenant_id input w r in
        rw created (record {
          stored = rw (counts (is_hash_of runtime raw_key)) (omega (arith, r.stored));
          none_left =
              rw (counts (λ k. is_hash_of runtime raw_key k && is_unrevoked k))
                (rw other (omega (arith, r.none_left)));
        })

    happen-IsRevoked :
        (e : Event) (w : KeyStore)
        → IsRevoked runtime raw_key w
        → IsRevoked runtime raw_key (happen runtime e w)
    happen-IsRevoked (tick ms) w r = record { stored = r.stored; none_left = r.none_left }
    happen-IsRevoked (creating tenant_id input) w r = created-IsRevoked tenant_id input w r
    happen-IsRevoked (revoking tenant_id id) w r =
        elim (revoke_key-HasRevoked runtime laws tenant_id id w) [
          | inl (same, refused) ↦ subst (λ p. IsRevoked runtime raw_key p.world) (sym same) r
          | inr (logs, ran) ↦
              subst (λ p. IsRevoked runtime raw_key p.world) (sym ran)
                (revoked_world-keeps runtime laws raw_key tenant_id id logs w r)
        ]
    happen-IsRevoked (verifying presented) w r = elim (verify_key-IsTouched presented w) [
      | inl same ↦ subst (IsRevoked runtime raw_key) (sym same) r
      | inr (id, ran) ↦ subst (IsRevoked runtime raw_key) (sym ran) (touched-IsRevoked id w r)
    ]

    history-IsRevoked :
        (es : List Event) (w : KeyStore)
        → IsRevoked runtime raw_key w
        → IsRevoked runtime raw_key (history runtime es w)
    history-IsRevoked [] w r = r
    history-IsRevoked (e ∷ es) w r =
        history-IsRevoked es (happen runtime e w) (happen-IsRevoked e w r)

-- The runtime behaves, and generates keys that are new. If a key of a tenant is the only one with the
-- hash of a text, and `revokeKey` returns for it, then after any history in which time passes and keys
-- are created, revoked and verified, one call after the other, verifying that text throws that the key
-- is invalid, and writes nothing.
pub verify_key-revoke_key :
    (runtime : Runtime)
    → IsRuntime runtime
    → (raw_key tenant_id id x : String) (w : KeyStore) (es : List Event)
    → IsKeyOf runtime raw_key tenant_id id w
    → (revoke_key runtime tenant_id id (quiet w)).0 ≡ ok x
    → let w' = history runtime es (happen runtime (revoking tenant_id id) w) in
      verify_key runtime raw_key (quiet w') ≡ (err invalid_tenant_key, quiet w')
verify_key-revoke_key runtime laws raw_key tenant_id id x w es key done =
    let w' = history runtime es (happen runtime (revoking tenant_id id) w) in
    let r =
      history-IsRevoked runtime laws raw_key es (happen runtime (revoking tenant_id id) w)
        (revoke_key-IsRevoked runtime laws raw_key tenant_id id x w done key) in
    let le =
      count_mono (λ k. is_usable (prefix_of raw_key) w'.clock k && is_hash_of runtime raw_key k)
        (λ k. is_hash_of runtime raw_key k && is_unrevoked k) w'.api_keys (λ k h. ground arith) in
    verify_key-refuses runtime laws raw_key w' (omega (arith, r.none_left, le))
