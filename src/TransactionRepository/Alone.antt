-- ===== src/TransactionRepository/Alone.antt =====
-- Updates of one row that run alone and meet the status that they ask for.
use blockchain_transaction_s.Prelude.{
  ◌≡◌, refl, String, Bool, true, false, ◌&&◌, List, [], some, count_where, update_where, arith,
}
use blockchain_transaction_s.Effects.{ok, err, known_request, ◌>>=◌}
use blockchain_transaction_s.Transaction.{Transaction}
use blockchain_transaction_s.Transaction.StateMachine.{
  TransactionStatus, status_eq, includes, can_transition,
}
use blockchain_transaction_s.Schema.{World}
use blockchain_transaction_s.Prisma.{Prisma, IsPrisma}
use blockchain_transaction_s.Prisma.Tables.{find-update_where, find-count, find_passes}
use blockchain_transaction_s.TransactionRepository.{
  has_id, assert_transition, assert_transitions, update_many, find_unique, find_unique_or_throw,
  updated_row, updated_row_any, transition, transition_from_any,
}
use blockchain_transaction_s.TransactionRepository.Evolution.{row_of}
use blockchain_transaction_s.TransactionRepository.Tracking.{IsTracked, count_where-le}

-- The table after the row of an identifier was updated, if it passes a test.
abbrev pub with_row : String → (Transaction → Bool) → (Transaction → Transaction) → World → World
with_row id p f w = record w {
  transactions = update_where (λ r. has_id id r && p r) f w.transactions;
}

module _ (prisma : Prisma) (lawful : IsPrisma prisma) (id : String) (w : World) (r : Transaction)
    (t : IsTracked w) (here : row_of id w ≡ some r) where
  pub one_row :
      (p : Transaction → Bool)
      → p r ≡ true
      → count_where (λ x. has_id id x && p x) w.transactions ≡ 1
  one_row p passes = omega (
    arith,
    t.unique id,
    count_where-le (has_id id) (λ x. has_id id x && p x) w.transactions (λ x h. ground arith),
    find-count (has_id id) (λ x. has_id id x && p x) w.transactions r here
        (rw (find_passes (has_id id) w.transactions r here) passes),
  )

  row_after :
      (p : Transaction → Bool) (f : Transaction → Transaction)
      → p r ≡ true
      → ((x : Transaction) → (f x).id ≡ x.id)
      → row_of id (with_row id p f w) ≡ some (f r)
  row_after p f passes same =
      rw
        (find-update_where (has_id id) (λ x. has_id id x && p x) f w.transactions
          (λ x. rw (same x) refl))
        (rw here (rw (find_passes (has_id id) w.transactions r here) (rw passes refl)))

  pub transition_ok :
      (from to : TransactionStatus) (f : Transaction → Transaction)
      → status_eq r.status from ≡ true
      → can_transition from to ≡ true
      → ((x : Transaction) → (f x).id ≡ x.id)
      → let g : Transaction → Transaction = λ x. f (record x { status = to }) in
        (prisma.update_clash (λ x. has_id id x && status_eq x.status from) g w.transactions ≡ false)
        → transition prisma id from to f (record { world = w; turns = [] }) ≡ (
          ok (g r),
          record { world = with_row id (λ x. status_eq x.status from) g w; turns = [] },
        )
  unfolding transition assert_transition update_many updated_row find_unique find_unique_or_throw
      ◌>>=◌
  transition_ok from to f at allowed same free =
      let p : Transaction → Bool = λ x. status_eq x.status from in
      let g : Transaction → Transaction = λ x. f (record x { status = to }) in
      rw
        (
          allowed,
          free,
          lawful.transaction_lem.update_many_lem (λ x. has_id id x && p x) g w.transactions,
        )
        (rw (one_row p at) (
          rw (lawful.transaction_lem.find_first_lem (has_id id) (with_row id p g w).transactions)
            (rw (row_after p g at (λ x. same (record x { status = to }))) refl)))

  -- A transition that would give two rows one hash changes nothing.
  pub transition_clash :
      (from to : TransactionStatus) (f : Transaction → Transaction)
      → can_transition from to ≡ true
      → let g : Transaction → Transaction = λ x. f (record x { status = to }) in
        (prisma.update_clash (λ x. has_id id x && status_eq x.status from) g w.transactions ≡ true)
        → transition prisma id from to f (record { world = w; turns = [] })
          ≡ (err (known_request "P2002" prisma.unique_violated), record { world = w; turns = [] })
  unfolding transition assert_transition update_many ◌>>=◌
  transition_clash from to f allowed clash = rw (allowed, clash) refl

  pub transition_from_any_ok :
      (from : List TransactionStatus) (to : TransactionStatus) (f : Transaction → Transaction)
      → includes from r.status ≡ true
      → assert_transitions from to (record { world = w; turns = [] })
        ≡ (ok tt, record { world = w; turns = [] })
      → ((x : Transaction) → (f x).id ≡ x.id)
      → ((x : Transaction) → (f x).tx_hash ≡ x.tx_hash)
      → let g : Transaction → Transaction = λ x. f (record x { status = to }) in
        transition_from_any prisma id from to f (record { world = w; turns = [] })
        ≡ (ok (g r), record { world = with_row id (λ x. includes from x.status) g w; turns = [] })
  unfolding transition_from_any update_many updated_row_any find_unique find_unique_or_throw ◌>>=◌
  transition_from_any_ok from to f at allowed same kept =
      let p : Transaction → Bool = λ x. includes from x.status in
      let g : Transaction → Transaction = λ x. f (record x { status = to }) in
      rw
        (
          allowed,
          lawful.keeps_hash (λ x. has_id id x && p x) g w.transactions
              (λ x. same (record x { status = to })) (λ x. kept (record x { status = to })),
          lawful.transaction_lem.update_many_lem (λ x. has_id id x && p x) g w.transactions,
        )
        (rw (one_row p at) (
          rw (lawful.transaction_lem.find_first_lem (has_id id) (with_row id p g w).transactions)
            (rw (row_after p g at (λ x. same (record x { status = to }))) refl)))
