-- ===== src/Idempotency/Replay.antt =====
-- A request that is sent again gets the answer of the first one.
use blockchain_transaction_s.Prelude.{
  ◌≡◌, ◌≢◌, refl, sym, String, Bool, true, false, ◌&&◌, List, [], ◌∷◌, Option, none, some,
  count_where, update_where, find, Option-cases, Bool-cases, inl, inr, ◌⊎◌, str_eq, eq_refl, eq_iff,
  ◌==◌, arith, subst,
}
use blockchain_transaction_s.Effects.{
  Process, Result, ok, err, Action, Error, app_error, known_request, ◌>>=◌, ◌>>◌, catch_error,
  continue, raise, message,
}
use blockchain_transaction_s.Prisma.Tables.{find-update_where}
use blockchain_transaction_s.TransactionRepository.Tracking.{find_of_count_where}
use blockchain_transaction_s.Idempotency.{
  Requests, KeyTable, IsKeyTable, Params, HandlerResult, Replied, has_key, key_id, present,
  find_by_key, acquire, create, update, mark_completed, mark_failed, on_existing, on_found, on_key,
  handle_acquired, with_idempotency, IdempotencyKey, new_key, ttl,
}

abbrev alone : {R W : Type 0} → Requests R W → Process (Requests R W)
alone w = record { world = w; turns = [] }

-- The reply of a request whose handler ran.
abbrev pub fresh : {R : Type 0} → R → Replied R
fresh r = record { response = some r; replayed = false }

str_eq-false : (a b : String) → b ≢ a → str_eq a b ≡ false
str_eq-false a b other = elim (Bool-cases (str_eq a b)) [
  | inl same ↦ absurd (other (sym ((eq_iff a b).0 same)))
  | inr differs ↦ differs
]

-- No row passes a test if none is found.
count-find-none : {A : Type 0} (q : A → Bool) (t : List A) → find q t ≡ none → count_where q t ≡ 0
count-find-none q [] h = refl
count-find-none q (x ∷ t) h = ground (arith, count-find-none q t)

-- The row of a key, once its request has completed.
abbrev pub Completed : {R W : Type 0} → Params → String → R → Requests R W → Type 0
Completed {R} params key response w =
    (k : IdempotencyKey R) × (find (has_key params.tenant_id key) w.keys ≡ some k)
    × (k.request_hash ≡ params.request_hash)
    × (k.status ≡ "COMPLETED")
    × (k.response ≡ some response)

-- The handler, run alone, leaves the keys alone.
abbrev pub Quiet : {R W : Type 0} → Action (Requests R W) (HandlerResult R) → Type 0
Quiet {R} {W} handler =
    (w : Requests R W)
    → (answer : Result (HandlerResult R)) × (v : Requests R W) × (handler (alone w)
        ≡ (answer, alone v))
      × (v.keys ≡ w.keys)

module _ {R W : Type 0} (table : KeyTable R W) (lawful : IsKeyTable table) (params : Params)
    (key : String) where
  abbrev acquired_row : String → IdempotencyKey R → Bool
  acquired_row id k =
      has_key params.tenant_id key k && (key_id id k && str_eq k.request_hash params.request_hash)

  -- What `create` adds is the row that the key finds, if there was none.
  created :
      (row : IdempotencyKey R) (t t' : List (IdempotencyKey R))
      → acquired_row row.id row ≡ true
      → count_where (has_key params.tenant_id key) t ≡ 0
      → table.model.create row t ≡ some t'
      → (k : IdempotencyKey R) × (find (has_key params.tenant_id key) t' ≡ some k)
        × (acquired_row row.id k ≡ true)
  created row t t' this absent e =
      let counts = lawful.model_lem.create_lem row t t' e in
      find_of_count_where (has_key params.tenant_id key) (acquired_row row.id) t'
        (λ r h. ground arith)
        (rw (counts (has_key params.tenant_id key)) (rw absent (ground arith)))
        (rw (counts (acquired_row row.id)) (rw this (omega arith)))

  -- The update of the completed row, and that of the failed one.
  abbrev complete : HandlerResult R → IdempotencyKey R → IdempotencyKey R
  complete done k = record k {
    transaction_id = some done.transaction_id;
    response = some done.response;
    status = "COMPLETED";
  }

  -- If the update returns, the row that the key finds is completed.
  update-Completed :
      (id : String) (k : IdempotencyKey R) (done : HandlerResult R) (w : Requests R W)
      → find (has_key params.tenant_id key) w.keys ≡ some k
      → acquired_row id k ≡ true
      → Completed params key done.response
          (record w { keys = update_where (key_id id) (complete done) w.keys })
  update-Completed id k done w found mine = (
    complete done k,
    rw
        (find-update_where (has_key params.tenant_id key) (key_id id) (complete done) w.keys
          (λ r. refl))
        (rw found (ground arith)),
    (eq_iff k.request_hash params.request_hash).0 (ground arith),
    refl,
    refl,
  )

  mark_completed-alone :
      (id : String) (done : HandlerResult R) (w : Requests R W)
      → ((e : Error) × (mark_completed table id done.transaction_id done.response (alone w)
            ≡ (err e, alone w)))
        ⊎ (mark_completed table id done.transaction_id done.response (alone w)
            ≡ (ok tt, alone (record w { keys = update_where (key_id id) (complete done) w.keys })))
  unfolding mark_completed update
  mark_completed-alone id done w =
      rw (lawful.model_lem.update_many_lem (key_id id) (complete done) w.keys)
        (elim (Bool-cases (count_where (key_id id) w.keys == 0)) [
          | inl gone ↦ rw gone (inl (_, refl))
          | inr there ↦ rw there (inr refl)
        ])

  -- A result that comes from an error is no reply.
  mark_failed_throws :
      (id : String) (e : Error) (p : Process (Requests R W)) (reply : Replied R)
      → ((mark_failed table id (table.error_response (message e)) >> raise e) p).0 ≡ ok reply
      → ⊥
  unfolding ◌>>=◌
  mark_failed_throws id e p reply h =
      go (mark_failed table id (table.error_response (message e)) p) h
    where
      go :
          (o : Result (Unit {0}) × Process (Requests R W))
          → (continue o.0 (λ u. raise {A = Replied R} e) o.1).0 ≡ ok reply
          → ⊥
      go (ok u, q) h = cc
      go (err d, q) h = cc

  module _ (handler : Action (Requests R W) (HandlerResult R)) where
    -- The end of a request whose handler has given an answer and left the keys alone.
    handle_acquired-Completed :
        (id : String) (k : IdempotencyKey R) (w v : Requests R W) (r : R)
        (answer : Result (HandlerResult R))
        → find (has_key params.tenant_id key) v.keys ≡ some k
        → acquired_row id k ≡ true
        → handler (alone w) ≡ (answer, alone v)
        → (handle_acquired table handler id (alone w)).0 ≡ ok (fresh r)
        → Completed params key r (handle_acquired table handler id (alone w)).1.world
    unfolding handle_acquired catch_error ◌>>=◌
    handle_acquired-Completed id k w v r (err e) found mine e' =
        rw e' (λ h. absurd (mark_failed_throws id e (alone v) _ h))
    handle_acquired-Completed id k w v r (ok done) found mine e' =
        rw e' (elim (mark_completed-alone id done v) [
          | inl (e, lost) ↦ rw lost (λ h. absurd (mark_failed_throws id e (alone v) _ h))
          | inr kept ↦ rw kept (λ h.
              subst
                (λ (x : R).
                  Completed params key x
                    (record v { keys = update_where (key_id id) (complete done) v.keys }))
                (response_eq done.response r h) (update-Completed id k done v found mine))
        ])
      where
        response_eq : (x y : R) → ok (fresh x) ≡ ok (fresh y) → x ≡ y
        response_eq x y h = cc

  -- What is answered from a row is not a fresh reply.
  on_existing_not_fresh :
      (k : IdempotencyKey R) (p : Process (Requests R W)) (r : R)
      → (on_existing table params.request_hash k p).0 ≡ ok (fresh r)
      → ⊥
  unfolding on_existing
  on_existing_not_fresh k p r = elim (Bool-cases (str_eq k.request_hash params.request_hash)) [
    | inr other ↦ rw other (λ h. cc)
    | inl same ↦ rw same (elim (Bool-cases (str_eq k.status "COMPLETED")) [
      | inl complete ↦ rw complete (λ h. cc)
      | inr incomplete ↦ rw incomplete (elim (Bool-cases (str_eq k.status "PROCESSING")) [
        | inl running ↦ rw running (λ h. cc)
        | inr stopped ↦ rw stopped (λ h. cc)
      ])
    ])
  ]

  create_alone :
      (row : IdempotencyKey R) (w : Requests R W)
      → (create table row w ≡ (err (known_request "P2002" table.unique_violated), w))
        ⊎ ((t : List (IdempotencyKey R)) × (table.model.create row w.keys ≡ some t)
            × (create table row w ≡ (ok row, record w { keys = t })))
  unfolding create
  create_alone row w = elim (Option-cases (table.model.create row w.keys)) [
    | inl refused ↦ inl (rw (create, refused) refl)
    | inr (t, e) ↦ inr (t, e, rw (create, e) refl)
  ]

  module _ (handler : Action (Requests R W) (HandlerResult R)) where
    -- The request that acquires the key.
    on_found-Completed :
        (found : Option (IdempotencyKey R)) (w : Requests R W) (r : R)
        → Quiet handler
        → find (has_key params.tenant_id key) w.keys ≡ found
        → (on_found table handler params key found (alone w)).0 ≡ ok (fresh r)
        → Completed params key r (on_found table handler params key found (alone w)).1.world
    unfolding on_found acquire ◌>>=◌
    on_found-Completed (some k) w r quiet here = λ h. absurd (on_existing_not_fresh k (alone w) r h)
    on_found-Completed none w r quiet here =
        let row = new_key table params.tenant_id key params.request_hash (ttl params.ttl_ms) w in
        elim (create_alone row w) [
          | inl refused ↦ rw refused (λ h. absurd cc)
          | inr (t, added, e) ↦
              let (k, found, mine) =
                created row w.keys t
                  (ground (
                    arith,
                    eq_refl params.tenant_id,
                    eq_refl key,
                    eq_refl params.request_hash,
                    eq_refl row.id,
                  ))
                  (count-find-none _ w.keys here) added in
              let (answer, v, ran, same) = quiet (record w { keys = t }) in
              rw e (
                handle_acquired-Completed handler row.id k (record w { keys = t }) v r answer
                  (rw same found) mine ran)
        ]

  -- A request with a key looks the key up first.
  looked_up :
      (handler : Action (Requests R W) (HandlerResult R)) (w : Requests R W)
      → present params.idempotency_key ≡ some key
      → with_idempotency table handler params (alone w)
        ≡ on_found table handler params key (find (has_key params.tenant_id key) w.keys) (alone w)
  unfolding with_idempotency on_key find_by_key ◌>>=◌
  looked_up handler w named =
      rw (named, lawful.model_lem.find_first_lem (has_key params.tenant_id key) w.keys) refl

-- If a request with a key that is not empty, run alone with a handler that leaves the keys alone,
-- gets a fresh reply, then the same request sent again alone, with whatever handler, changes
-- nothing and gets the same response, marked as replayed; and a request that uses the key with
-- another hash changes nothing and is refused with the code IDEMPOTENCY_KEY_REUSED.
pub with_idempotency-replay :
    {R W : Type 0} (table : KeyTable R W)
    → IsKeyTable table
    → (handler again : Action (Requests R W) (HandlerResult R)) (params : Params)
      (key hash : String) (w : Requests R W) (r : R)
    → present params.idempotency_key ≡ some key
    → Quiet handler
    → hash ≢ params.request_hash
    → (with_idempotency table handler params (alone w)).0 ≡ ok (fresh r)
    → let w' = (with_idempotency table handler params (alone w)).1.world in
      (with_idempotency table again params (alone w')
        ≡ (ok (record { response = some r; replayed = true }), alone w'))
      × (with_idempotency table again (record params { request_hash = hash }) (alone w') ≡ (
        err (
            app_error 409 "IDEMPOTENCY_KEY_REUSED"
              "This idempotency key was already used with a different request payload"),
        alone w',
      ))
unfolding on_found on_existing
with_idempotency-replay table lawful handler again params key hash w r named quiet other =
    rw (looked_up table lawful params key handler w named) λ h.
      let start = find (has_key params.tenant_id key) w.keys in
      let (k, found, hash_eq, status_eq, response_eq) =
        on_found-Completed table lawful params key handler start w r quiet refl h in
      let w' = (on_found table handler params key start (alone w)).1.world in
      (
        rw (looked_up table lawful params key again w' named) (
            rw found
              (rw (hash_eq, status_eq, response_eq) (rw (eq_refl params.request_hash) refl))),
        rw (looked_up table lawful (record params { request_hash = hash }) key again w' named)
            (rw found (rw hash_eq (rw (str_eq-false params.request_hash hash other) refl))),
      )
