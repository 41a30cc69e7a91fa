-- ===== src/Examples/Keys.antt =====
-- Keys of a tenant: created, verified and revoked.
use blockchain_transaction_s.Prelude.{
  ℕ, zero, suc, ◌+◌, ◌<◌, ◌≡◌, refl, String, Bool, true, List, [], ◌∷◌, none, some, count_where,
  arith, ◌&&◌, ◌∙◌, filter_where, Bool-cases, inl, inr,
}
use Prim.Native.String.{count, ◌++◌}
use text.Mathlib.TextLemmas.{length-append}
use blockchain_transaction_s.Effects.{ok, err, ◌>>=◌, catch_error}
use blockchain_transaction_s.ApiKey.{
  ApiKey, KeyStore, Runtime, CreateApiKeyInput, CreatedKey, VerifiedKey, create_key, verify_key,
  revoke_key, is_hash_of, generate_raw_key, invalid_tenant_key, find_active_by_prefix, on_match,
  touch, find_by_id_for_tenant, revoke, on_revoked, record_audit, create_log,
}
use blockchain_transaction_s.ApiKey.Verify.{quiet, IsRuntime}
use blockchain_transaction_s.ApiKey.Lifecycle.{Unexpired, verify_key-create_key}
use blockchain_transaction_s.ApiKey.Revocation.{
  Event, tick, creating, revoking, verifying, happen, history,
}
use blockchain_transaction_s.ApiKey.Finality.{verify_key-revoke_key}
use blockchain_transaction_s.Examples.InMemory.{in_memory, in_memory-IsModel}

abbrev zeros : ℕ → String
zeros zero = ""
zeros (suc n) = "0" ++ zeros n

count-zeros : (n : ℕ) → count (zeros n) ≡ n
count-zeros zero = refl
count-zeros (suc n) = length-append "0" (zeros n) ∙ omega (arith, count-zeros n)

-- Longer than all stored hashes together.
abbrev total : List ApiKey → ℕ
total [] = 0
total (k ∷ t) = count k.key_hash + total t

-- A runtime whose hash keeps the length of a key, and which generates longer and longer keys.
abbrev runtime : Runtime
runtime = record {
  api_key = in_memory;
  find_all = filter_where;
  audit_log = in_memory;
  tenant_of = λ k. record { id = k.tenant_id; name = "Tenant" };
  uuid = λ w. "key-1";
  random_hex = λ w. zeros (1 + total w.api_keys);
  hash_token = λ text. text;
  decode_hex = λ text. count text ∷ [];
  unique_violated = "Unique constraint failed";
  record_not_found = "No record was found";
}

find_all-counts :
    (p q : ApiKey → Bool) (t : List ApiKey)
    → count_where q (filter_where p t) ≡ count_where (λ k. p k && q k) t
find_all-counts p q [] = refl
find_all-counts p q (k ∷ t) = elim (Bool-cases (p k)) [
  | inl here ↦ rw here (rw (find_all-counts p q t) refl)
  | inr there ↦ rw there (find_all-counts p q t ∙ omega arith)
]

raw_length : (w : KeyStore) → count (generate_raw_key runtime w) ≡ 8 + total w.api_keys
raw_length w =
    length-append "tenant_" (zeros (1 + total w.api_keys))
    ∙ omega (arith, count-zeros (1 + total w.api_keys))

longer_hash :
    (raw_key : String) (t : List ApiKey)
    → total t < count raw_key
    → count_where (is_hash_of runtime raw_key) t ≡ 0
longer_hash raw_key [] h = refl
longer_hash raw_key (k ∷ t) h = ground (arith, longer_hash raw_key t (omega (arith, h)))

runtime-IsRuntime : IsRuntime runtime
runtime-IsRuntime = record {
  api_key_lem = in_memory-IsModel;
  find_all_lem = find_all-counts;
  random_long = λ w. omega (arith, raw_length w);
  random_new =
      λ w. longer_hash (generate_raw_key runtime w) w.api_keys (omega (arith, raw_length w));
  create_free = λ tenant_id input raw_key w free. (_, refl);
}

abbrev input : CreateApiKeyInput
input = record { name = "ci"; scopes = none; expires_at = some 90000 }

abbrev empty : KeyStore
empty = record { api_keys = []; audit_logs = []; clock = 5000 }

verify_key-create_key_example :
    (c : CreatedKey) × (w' : KeyStore) × (create_key runtime "tenant-1" input (quiet empty)
      ≡ (ok c, quiet w'))
    × ((ms : ℕ)
        → Unexpired (some 90000) (w'.clock + ms)
        → (v : VerifiedKey) × ((verify_key runtime c.api_key
              (quiet (record w' { clock = w'.clock + ms }))).0
            ≡ ok v)
          × (v.api_key.id ≡ c.id)
          × (v.api_key.tenant_id ≡ "tenant-1")
          × (v.tenant ≡ runtime.tenant_of v.api_key))
verify_key-create_key_example =
    verify_key-create_key runtime runtime-IsRuntime "tenant-1" input empty

abbrev stored_key : ApiKey
stored_key = record {
  id = "key-1";
  tenant_id = "tenant-1";
  key_hash = "tenant_0a1b";
  key_prefix = "tenant_0";
  name = "ci";
  active = true;
  scopes = "*" ∷ [];
  last_used_at = none;
  expires_at = none;
  created_at = 1000;
  revoked_at = none;
}

abbrev holding : KeyStore
holding = record { api_keys = stored_key ∷ []; audit_logs = []; clock = 5000 }

abbrev events : List Event
events =
    tick 1000
    ∷ verifying "tenant_0a1b"
    ∷ creating "tenant-2" input
    ∷ revoking "tenant-1" "key-1"
    ∷ []

-- Before it is revoked, the key is accepted.
accepted_before :
    (verify_key runtime "tenant_0a1b" (quiet holding)).0
    ≡ ok (record { tenant = record { id = "tenant-1"; name = "Tenant" }; api_key = stored_key })
unfolding verify_key find_active_by_prefix on_match touch ◌>>=◌
accepted_before = refl

revoked_once : (revoke_key runtime "tenant-1" "key-1" (quiet holding)).0 ≡ ok "key-1"
unfolding revoke_key find_by_id_for_tenant revoke on_revoked record_audit create_log ◌>>=◌
    catch_error
revoked_once = refl

verify_key-revoke_key_example :
    let w' = history runtime events (happen runtime (revoking "tenant-1" "key-1") holding) in
    verify_key runtime "tenant_0a1b" (quiet w') ≡ (err invalid_tenant_key, quiet w')
verify_key-revoke_key_example =
    verify_key-revoke_key runtime runtime-IsRuntime "tenant_0a1b" "tenant-1" "key-1" "key-1" holding
      events (record { stored = omega arith; only = refl }) revoked_once
