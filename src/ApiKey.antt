-- ===== src/ApiKey.antt =====
-- src/auth/api-key.service.ts and src/repositories/api-key.repository.ts: the keys of the tenants. The
-- hash, the random bytes and the hexadecimal decoding of the runtime are parameters.
pub mod Verify
pub mod Lifecycle
pub mod Revocation
pub mod Finality
use blockchain_transaction_s.Prelude.{
  ℕ, zero, suc, ◌+◌, ◌≡◌, ◌≤◌, String, Bool, true, false, ◌&&◌, ◌||◌, not, List, [], ◌∷◌, Option,
  none, some, str_eq, ◌==◌, ltb, find, count_where, length, All, if◌then◌else◌,
}
use Prim.Native.String.{◌++◌, count, slice}
use blockchain_transaction_s.Bytes.{bytes_eq}
use blockchain_transaction_s.Effects.{
  Error, Result, ok, err, Action, pure, raise, call, or_raise, ◌>>=◌, ◌>>◌, catch_error, app_error,
  known_request,
}
use blockchain_transaction_s.Prisma.{Model, IsModel}

pub record Tenant : Type 0 where
  pub id : String
  pub name : String

pub record ApiKey : Type 0 where
  pub id : String
  pub tenant_id : String
  pub key_hash : String
  pub key_prefix : String
  pub name : String
  pub active : Bool
  pub scopes : List String
  pub last_used_at : Option ℕ
  pub expires_at : Option ℕ
  pub created_at : ℕ
  pub revoked_at : Option ℕ

pub record AuditLog : Type 0 where
  pub tenant_id : String
  pub action : String
  pub resource : String
  pub resource_id : String

pub record KeyStore : Type 0 where
  pub api_keys : List ApiKey
  pub audit_logs : List AuditLog
  pub clock : ℕ

pub record Runtime : Type 0 where
  pub api_key : Model ApiKey
  -- `findMany` without `take`
  pub find_all : (ApiKey → Bool) → List ApiKey → List ApiKey
  pub audit_log : Model AuditLog
  pub tenant_of : ApiKey → Tenant
  pub uuid : KeyStore → String
  -- `randomBytes(32).toString('hex')`
  pub random_hex : KeyStore → String
  -- `hashToken` and `Buffer.from(text, 'hex')`
  pub hash_token : String → String
  pub decode_hex : String → List ℕ
  pub unique_violated : String
  pub record_not_found : String

pub record CreateApiKeyInput : Type 0 where
  pub name : String
  pub scopes : Option (List String)
  pub expires_at : Option ℕ

pub record CreatedKey : Type 0 where
  pub id : String
  pub api_key : String
  pub key_prefix : String
  pub name : String
  pub scopes : List String
  pub expires_at : Option ℕ
  pub created_at : ℕ

pub record VerifiedKey : Type 0 where
  pub tenant : Tenant
  pub api_key : ApiKey

abbrev pub key_prefix_length : ℕ
key_prefix_length = 8

-- `rawKey.substring(0, KEY_PREFIX_LENGTH)`, of a text of one byte for each character
abbrev pub prefix_of : String → String
prefix_of raw_key = slice raw_key 0 key_prefix_length

abbrev pub invalid_tenant_key : Error
invalid_tenant_key = app_error 401 "INVALID_TENANT_KEY" "Invalid tenant API key"

abbrev pub scopes_or_all : Option (List String) → List String
scopes_or_all none = "*" ∷ []
scopes_or_all (some []) = "*" ∷ []
scopes_or_all (some (scope ∷ scopes)) = scope ∷ scopes

abbrev pub has_key_id : String → ApiKey → Bool
has_key_id id k = str_eq k.id id

abbrev pub is_unrevoked : ApiKey → Bool
is_unrevoked k = elim k.revoked_at [ none ↦ true | some at ↦ false ]

abbrev pub is_unexpired : ℕ → ApiKey → Bool
is_unexpired now k = elim k.expires_at [ none ↦ true | some at ↦ ltb now at ]

-- the `where` of `findActiveByPrefix`
abbrev pub is_usable : String → ℕ → ApiKey → Bool
is_usable key_prefix now k =
    str_eq k.key_prefix key_prefix && (k.active && (is_unrevoked k && is_unexpired now k))

-- the `where` of `revoke`
abbrev pub is_revocable : String → String → ApiKey → Bool
is_revocable tenant_id id k = has_key_id id k && (str_eq k.tenant_id tenant_id && is_unrevoked k)

module _ (runtime : Runtime) where
  -- the test of the candidates
  abbrev pub is_hash_of : String → ApiKey → Bool
  is_hash_of raw_key k =
      let stored = runtime.decode_hex k.key_hash in
      let presented = runtime.decode_hex (runtime.hash_token raw_key) in
      length stored == length presented && bytes_eq stored presented

  abbrev pub generate_raw_key : KeyStore → String
  generate_raw_key w = "tenant_" ++ runtime.random_hex w

  abbrev pub new_api_key : String → CreateApiKeyInput → String → KeyStore → ApiKey
  new_api_key tenant_id input raw_key w = record {
    id = runtime.uuid w;
    tenant_id = tenant_id;
    key_hash = runtime.hash_token raw_key;
    key_prefix = prefix_of raw_key;
    name = input.name;
    active = true;
    scopes = scopes_or_all input.scopes;
    last_used_at = none;
    expires_at = input.expires_at;
    created_at = w.clock;
    revoked_at = none;
  }

  unfoldable pub create : String → CreateApiKeyInput → String → KeyStore → Result ApiKey × KeyStore
  create tenant_id input raw_key w =
      elim (runtime.api_key.create (new_api_key tenant_id input raw_key w) w.api_keys) [
        | none ↦ (err (known_request "P2002" runtime.unique_violated), w)
        | some keys ↦ (ok (new_api_key tenant_id input raw_key w), record w { api_keys = keys })
      ]

  unfoldable pub create_log : AuditLog → KeyStore → Result (Unit {0}) × KeyStore
  create_log entry w = elim (runtime.audit_log.create entry w.audit_logs) [
    | none ↦ (err (known_request "P2002" runtime.unique_violated), w)
    | some logs ↦ (ok tt, record w { audit_logs = logs })
  ]

  -- AuditLogService.record: an error is only logged.
  unfoldable pub record_audit : AuditLog → Action KeyStore (Unit {0})
  record_audit entry = catch_error (call (create_log entry)) λ error. pure tt

  unfoldable pub create_with : String → CreateApiKeyInput → String → Action KeyStore CreatedKey
  create_with tenant_id input raw_key = do
    row ← call (create tenant_id input raw_key)
    record_audit (record {
      tenant_id = tenant_id;
      action = "api_key.created";
      resource = "ApiKey";
      resource_id = row.id;
    })
    pure (record {
      id = row.id;
      api_key = raw_key;
      key_prefix = row.key_prefix;
      name = row.name;
      scopes = row.scopes;
      expires_at = row.expires_at;
      created_at = row.created_at;
    })

  unfoldable pub create_key : String → CreateApiKeyInput → Action KeyStore CreatedKey
  create_key tenant_id input p = create_with tenant_id input (generate_raw_key p.world) p

  unfoldable pub find_active_by_prefix : String → Action KeyStore (List ApiKey)
  find_active_by_prefix key_prefix =
      call λ w. (ok (runtime.find_all (is_usable key_prefix w.clock) w.api_keys), w)

  unfoldable pub touch : String → KeyStore → Result (Unit {0}) × KeyStore
  touch id w =
      let (n, keys) =
        runtime.api_key.update_many (has_key_id id) (λ k. record k { last_used_at = some w.clock })
          w.api_keys in
      if n == 0
      then (err (known_request "P2025" runtime.record_not_found), w)
      else (ok tt, record w { api_keys = keys })

  unfoldable pub on_match : Option ApiKey → Action KeyStore VerifiedKey
  on_match none = raise invalid_tenant_key
  on_match (some k) =
      call (touch k.id) >> pure (record { tenant = runtime.tenant_of k; api_key = k })

  unfoldable pub verify_key : String → Action KeyStore VerifiedKey
  verify_key raw_key =
      if ltb (count raw_key) key_prefix_length then raise invalid_tenant_key else (do
        candidates ← find_active_by_prefix (prefix_of raw_key)
        on_match (find (is_hash_of raw_key) candidates))

  unfoldable pub find_by_id_for_tenant : String → String → Action KeyStore (Option ApiKey)
  find_by_id_for_tenant tenant_id id = call λ w. (
    ok (
        runtime.api_key.find_first (λ k. has_key_id id k && str_eq k.tenant_id tenant_id)
          w.api_keys),
    w,
  )

  unfoldable pub revoke : String → String → KeyStore → Result Bool × KeyStore
  revoke tenant_id id w =
      let (n, keys) =
        runtime.api_key.update_many (is_revocable tenant_id id)
          (λ k. record k { active = false; revoked_at = some w.clock }) w.api_keys in
      (ok (n == 1), record w { api_keys = keys })

  unfoldable pub on_revoked : String → String → Bool → Action KeyStore String
  on_revoked tenant_id key_id false =
      raise (app_error 409 "API_KEY_ALREADY_REVOKED" "API key already revoked")
  on_revoked tenant_id key_id true =
      record_audit (record {
        tenant_id = tenant_id;
        action = "api_key.revoked";
        resource = "ApiKey";
        resource_id = key_id;
      })
      >> pure key_id

  -- The identifier that is returned stands for `{ id, revoked: true }`.
  unfoldable pub revoke_key : String → String → Action KeyStore String
  revoke_key tenant_id key_id = do
    existing ← find_by_id_for_tenant tenant_id key_id
    or_raise existing (app_error 404 "API_KEY_NOT_FOUND" "API key not found")
    revoked ← call (revoke tenant_id key_id)
    on_revoked tenant_id key_id revoked
