-- ===== src/Idempotency.antt =====
-- src/api/middleware/idempotency.guard.ts, src/services/idempotency.service.ts and
-- src/repositories/idempotency-key.repository.ts. The handler is any method; a response is JSON, of
-- which only the response to an error is made here.
pub mod Once
pub mod Replay
use blockchain_transaction_s.Prelude.{
  ℕ, ◌+◌, ◌*◌, ◌≡◌, ◌≤◌, String, Bool, true, false, ◌&&◌, not, List, [], ◌∷◌, Option, none, some,
  str_eq, ◌==◌, count_where, if◌then◌else◌,
}
use blockchain_transaction_s.Effects.{
  Error, Result, ok, err, Action, pure, raise, call, ◌>>=◌, ◌>>◌, catch_error, app_error,
  known_request, message,
}
use blockchain_transaction_s.Prisma.{Model, IsModel}

pub record IdempotencyKey (R : Type 0) : Type 0 where
  pub id : String
  pub tenant_id : String
  pub key : String
  pub request_hash : String
  pub transaction_id : Option String
  pub response : Option R
  pub status : String
  pub created_at : ℕ
  pub expires_at : ℕ

-- What a request sees: the keys, the clock, and whatever its handler works on.
pub record Requests (R W : Type 0) : Type 0 where
  pub keys : List (IdempotencyKey R)
  pub clock : ℕ
  pub world : W

-- The unique key `tenantId_key`.
abbrev pub has_key : {R : Type 0} → String → String → IdempotencyKey R → Bool
has_key tenant_id key k = str_eq k.tenant_id tenant_id && str_eq k.key key

abbrev pub key_id : {R : Type 0} → String → IdempotencyKey R → Bool
key_id id k = str_eq k.id id

-- The table of the keys, and what makes identifiers and the response to an error.
pub record KeyTable (R W : Type 0) : Type 0 where
  pub model : Model (IdempotencyKey R)
  pub uuid : Requests R W → String
  pub error_response : String → R
  pub unique_violated : String
  pub record_not_found : String

-- The table behaves as a table, and refuses a second row of a tenant's key.
pub record IsKeyTable {R W : Type 0} (table : KeyTable R W) : Type 0 where
  pub model_lem : IsModel table.model
  pub create_unique :
      (row : IdempotencyKey R) (t : List (IdempotencyKey R))
      → 1 ≤ count_where (has_key row.tenant_id row.key) t
      → table.model.create row t ≡ none

pub record Params : Type 0 where
  pub tenant_id : String
  pub idempotency_key : Option String
  pub request_hash : String
  pub ttl_ms : Option ℕ

pub record HandlerResult (R : Type 0) : Type 0 where
  pub transaction_id : String
  pub response : R

-- `response` is null only if the row that is replayed has none.
pub record Replied (R : Type 0) : Type 0 where
  pub response : Option R
  pub replayed : Bool

abbrev pub default_ttl_ms : ℕ
default_ttl_ms = 24 * 60 * 60 * 1000

abbrev pub ttl : Option ℕ → ℕ
ttl none = default_ttl_ms
ttl (some ms) = ms

-- The header's value, unless it is missing or empty.
abbrev pub present : Option String → Option String
present none = none
present (some key) = if str_eq key "" then none else some key

module _ {R W : Type 0} (table : KeyTable R W) where
  unfoldable pub find_by_key : String → String → Action (Requests R W) (Option (IdempotencyKey R))
  find_by_key tenant_id key =
      call λ w. (ok (table.model.find_first (has_key tenant_id key) w.keys), w)

  abbrev pub new_key : String → String → String → ℕ → Requests R W → IdempotencyKey R
  new_key tenant_id key request_hash ttl_ms w = record {
    id = table.uuid w;
    tenant_id = tenant_id;
    key = key;
    request_hash = request_hash;
    transaction_id = none;
    response = none;
    status = "PROCESSING";
    created_at = w.clock;
    expires_at = w.clock + ttl_ms;
  }

  -- `create`; a key that the tenant has used already is Prisma's P2002.
  unfoldable pub create : IdempotencyKey R → Requests R W → Result (IdempotencyKey R) × Requests R W
  create row w = elim (table.model.create row w.keys) [
    | none ↦ (err (known_request "P2002" table.unique_violated), w)
    | some t ↦ (ok row, record w { keys = t })
  ]

  unfoldable pub acquire : String → String → String → ℕ → Action (Requests R W) (IdempotencyKey R)
  acquire tenant_id key request_hash ttl_ms =
      call (λ w. create (new_key tenant_id key request_hash ttl_ms w) w)

  -- `update`, which throws if there is no such row
  unfoldable pub update :
      String
      → (IdempotencyKey R → IdempotencyKey R)
      → Requests R W
      → Result (Unit {0}) × Requests R W
  update id f w =
      let (n, t) = table.model.update_many (key_id id) f w.keys in
      if n == 0
      then (err (known_request "P2025" table.record_not_found), w)
      else (ok tt, record w { keys = t })

  unfoldable pub mark_completed : String → String → R → Action (Requests R W) (Unit {0})
  mark_completed id transaction_id response = call (
      update id λ k. record k {
        transaction_id = some transaction_id;
        response = some response;
        status = "COMPLETED";
      })

  unfoldable pub mark_failed : String → R → Action (Requests R W) (Unit {0})
  mark_failed id response =
      call (update id λ k. record k { response = some response; status = "FAILED" })

  -- What is answered from a row that is there already.
  unfoldable pub on_existing : String → IdempotencyKey R → Action (Requests R W) (Replied R)
  on_existing request_hash existing =
      if not (str_eq existing.request_hash request_hash)
      then raise (
          app_error 409 "IDEMPOTENCY_KEY_REUSED"
            "This idempotency key was already used with a different request payload")
      else if str_eq existing.status "COMPLETED"
      then pure (record { response = existing.response; replayed = true })
      else if str_eq existing.status "PROCESSING"
      then raise (
          app_error 409 "IDEMPOTENCY_KEY_IN_PROGRESS"
            "A request with this idempotency key is already being processed")
      else raise (
          app_error 409 "IDEMPOTENCY_KEY_FAILED"
            "A previous request with this idempotency key failed; use a new key to retry")

  module _ (handler : Action (Requests R W) (HandlerResult R)) where
    unfoldable pub handle_acquired : String → Action (Requests R W) (Replied R)
    handle_acquired id =
        catch_error
          (do
            done ← handler
            mark_completed id done.transaction_id done.response
            pure (record { response = some done.response; replayed = false }))
          λ error. mark_failed id (table.error_response (message error)) >> raise error

    unfoldable pub on_found :
        Params → String → Option (IdempotencyKey R) → Action (Requests R W) (Replied R)
    on_found params key (some existing) = on_existing params.request_hash existing
    on_found params key none = do
      acquired ← acquire params.tenant_id key params.request_hash (ttl params.ttl_ms)
      handle_acquired acquired.id

    unfoldable pub on_key : Params → Option String → Action (Requests R W) (Replied R)
    on_key params none = do
      done ← handler
      pure (record { response = some done.response; replayed = false })
    on_key params (some key) = do
      existing ← find_by_key params.tenant_id key
      on_found params key existing

    unfoldable pub with_idempotency : Params → Action (Requests R W) (Replied R)
    with_idempotency params = on_key params (present params.idempotency_key)
