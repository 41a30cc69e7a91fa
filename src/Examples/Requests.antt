-- ===== src/Examples/Requests.antt =====
-- Two requests with one idempotency key.
use blockchain_transaction_s.Prelude.{
  ◌≡◌, ◌≢◌, refl, String, Bool, true, [], ◌∷◌, List, none, some, arith, count_where, eq_iff,
  if◌then◌else◌, ◌==◌, Bool-cases, inl, inr, Option,
}
use blockchain_transaction_s.Effects.{ok, err, Action, Process, app_error, catch_error, ◌>>=◌}
use blockchain_transaction_s.Prisma.{Model}
use blockchain_transaction_s.Idempotency.{
  IdempotencyKey, Requests, KeyTable, IsKeyTable, Params, HandlerResult, has_key, with_idempotency,
  on_key, find_by_key, on_found, acquire, handle_acquired, mark_completed, update, new_key,
}
use blockchain_transaction_s.Idempotency.{create as create_row}
use blockchain_transaction_s.Idempotency.Once.{with_idempotency-once}
use blockchain_transaction_s.Idempotency.Replay.{fresh, Quiet, with_idempotency-replay}
use blockchain_transaction_s.Examples.InMemory.{in_memory, in_memory-IsModel, create_counts}

abbrev Key : Type 0
Key = IdempotencyKey String

-- The table refuses a second row of a key.
abbrev create : Key → List Key → Option (List Key)
create row t = if count_where (has_key row.tenant_id row.key) t == 0 then some (row ∷ t) else none

abbrev model : Model Key
model = record {
  find_first = in_memory.find_first;
  find_many = in_memory.find_many;
  update_many = in_memory.update_many;
  create = create;
}

create_lem :
    (r : Key) (t t' : List Key)
    → create r t ≡ some t'
    → (p : Key → Bool) → count_where p t' ≡ count_where p (r ∷ t)
create_lem r t t' = elim (Bool-cases (count_where (has_key r.tenant_id r.key) t == 0)) [
  | inl absent ↦ rw absent (λ e. create_counts r t t' e)
  | inr there ↦ rw there (λ e. absurd cc)
]

abbrev table : KeyTable String (Unit {0})
table = record {
  model = model;
  uuid = λ w. "key-1";
  error_response = λ text. text;
  unique_violated = "Unique constraint failed";
  record_not_found = "No record was found";
}

table-IsKeyTable : IsKeyTable table
table-IsKeyTable = record {
  model_lem = record {
    find_first_lem = in_memory-IsModel.find_first_lem;
    update_many_lem = in_memory-IsModel.update_many_lem;
    find_many_where = in_memory-IsModel.find_many_where;
    find_many_take = in_memory-IsModel.find_many_take;
    create_lem = create_lem;
  };
  create_unique = λ row t there. ground arith;
}

abbrev params : Params
params = record {
  tenant_id = "tenant-1";
  idempotency_key = some "k";
  request_hash = "hash-1";
  ttl_ms = none;
}

abbrev handler : String → Action (Requests String (Unit {0})) (HandlerResult String)
handler id p = (ok (record { transaction_id = id; response = id }), p)

abbrev empty : Requests String (Unit {0})
empty = record { keys = []; clock = 1000; world = tt }

handler-Quiet : Quiet (handler "tx-1")
handler-Quiet w = (_, w, refl, refl)

other_hash : ◌≢◌ {A = String} "hash-2" "hash-1"
other_hash e = let same = (eq_iff "hash-2" "hash-1").1 e in cc

first_time :
    (with_idempotency table (handler "tx-1") params (record { world = empty; turns = [] })).0
    ≡ ok (fresh "tx-1")
unfolding with_idempotency on_key find_by_key on_found acquire create_row handle_acquired
    mark_completed update catch_error ◌>>=◌
first_time = refl

with_idempotency-replay_example :
    let w' =
      (with_idempotency table
        (handler "tx-1")
        params
        (record { world = empty; turns = [] })).1.world in
    (with_idempotency table (handler "tx-2") params (record { world = w'; turns = [] }) ≡ (
      ok (record { response = some "tx-1"; replayed = true }),
      record { world = w'; turns = [] },
    ))
    × (with_idempotency table
          (handler "tx-2")
          (record params { request_hash = "hash-2" })
          (record { world = w'; turns = [] })
        ≡ (
          err (
              app_error 409 "IDEMPOTENCY_KEY_REUSED"
                "This idempotency key was already used with a different request payload"),
          record { world = w'; turns = [] },
        ))
with_idempotency-replay_example =
    with_idempotency-replay table table-IsKeyTable (handler "tx-1") (handler "tx-2") params "k"
      "hash-2" empty "tx-1" refl handler-Quiet other_hash first_time

-- Another request puts its row in between the lookup and the insertion.
abbrev racing : Process (Requests String (Unit {0}))
racing = record {
  world = empty;
  turns =
      record { step = λ w. w; fault = none }
      ∷ record {
        step = λ w. record w { keys = new_key table "tenant-1" "k" "hash-1" 60000 w ∷ w.keys };
        fault = none;
      }
      ∷ [];
}

with_idempotency-once_example :
    with_idempotency table (handler "tx-1") params racing
    ≡ with_idempotency table (handler "tx-2") params racing
with_idempotency-once_example =
    with_idempotency-once table table-IsKeyTable (handler "tx-1") (handler "tx-2") params "k" refl
      racing (omega arith)
