-- ===== src/Idempotency/Once.antt =====
-- The handler runs at most once for a key.
use blockchain_transaction_s.Prelude.{◌≡◌, ◌≤◌, refl, String, Option, none, some, count_where}
use blockchain_transaction_s.Effects.{
  Process, err, Action, interleave, rest, fault_of, ◌>>=◌, known_request,
}
use blockchain_transaction_s.Idempotency.{
  Requests, KeyTable, IsKeyTable, Params, HandlerResult, has_key, present, find_by_key, acquire,
  on_found, on_key, with_idempotency, IdempotencyKey, new_key, ttl, create,
}

-- The world when the second awaited call of a request takes effect: others may have acted twice.
abbrev pub at_acquire : {W : Type 0} → Process W → W
at_acquire p = interleave (rest p.turns) (interleave p.turns p.world)

module _ {R W : Type 0} (table : KeyTable R W) (lawful : IsKeyTable table)
    (h h' : Action (Requests R W) (HandlerResult R)) (params : Params) (key : String) where
  create-taken :
      (row : IdempotencyKey R) (w : Requests R W)
      → 1 ≤ count_where (has_key row.tenant_id row.key) w.keys
      → create table row w ≡ (err (known_request "P2002" table.unique_violated), w)
  unfolding create
  create-taken row w taken = rw (create, lawful.create_unique row w.keys taken) refl

  -- From a table that has the key, `acquire` throws, and the handler is not reached.
  on_found-taken :
      (found : Option (IdempotencyKey R)) (p : Process (Requests R W))
      → 1 ≤ count_where (has_key params.tenant_id key) (interleave p.turns p.world).keys
      → on_found table h params key found p ≡ on_found table h' params key found p
  unfolding on_found acquire ◌>>=◌
  on_found-taken (some existing) p taken = refl
  on_found-taken none p taken = go (fault_of p.turns) refl
    where
      w : Requests R W
      w = interleave p.turns p.world

      go :
          (f : Option String)
          → fault_of p.turns ≡ f
          → on_found table h params key none p ≡ on_found table h' params key none p
      go none e =
          rw
            (
              e,
              create-taken
                  (new_key table params.tenant_id key params.request_hash (ttl params.ttl_ms) w) w
                  taken,
            )
            refl
      go (some lost) e = rw e refl

-- If a request has a key that is not empty, and the key is in the table when its `acquire` takes
-- effect, whether it was there before or another request has put it there since the key was looked
-- up, and whichever awaited calls are lost, then the handler is not called: the request answers,
-- and changes the world, the same whatever its handler is. The table refuses a second row of a key.
pub with_idempotency-once :
    {R W : Type 0} (table : KeyTable R W)
    → IsKeyTable table
    → (h h' : Action (Requests R W) (HandlerResult R)) (params : Params) (key : String)
    → present params.idempotency_key ≡ some key
    → (p : Process (Requests R W))
    → 1 ≤ count_where (has_key params.tenant_id key) (at_acquire p).keys
    → with_idempotency table h params p ≡ with_idempotency table h' params p
unfolding with_idempotency on_key find_by_key ◌>>=◌
with_idempotency-once table lawful h h' params key named p taken = go (fault_of p.turns) refl
  where
    go :
        (f : Option String)
        → fault_of p.turns ≡ f
        → with_idempotency table h params p ≡ with_idempotency table h' params p
    go none e = rw (named, e) (on_found-taken table lawful h h' params key _ _ taken)
    go (some lost) e = rw (named, e) refl
