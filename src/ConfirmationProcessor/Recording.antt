-- ===== src/ConfirmationProcessor/Recording.antt =====
-- Confirming a row and recording its event keep the outbox tracked, all or nothing.
use blockchain_transaction_s.Prelude.{
  ◌+◌, ◌≤◌, ◌≡◌, refl, sym, ◌∙◌, inl, inr, String, Bool, true, false, List, [], ◌∷◌, Option, none,
  some, str_eq, find, count_where, Bool-cases, Option-cases, if◌then◌else◌, arith, eq_iff, eq_refl,
  subst,
}
use blockchain_transaction_s.Transaction.{Transaction}
use blockchain_transaction_s.Transaction.StateMachine.{confirming, confirmed, can_transition}
use blockchain_transaction_s.Transaction.StateMachine.Paths.{status_eq→eq}
use blockchain_transaction_s.Schema.{World, OutboxEvent}
use blockchain_transaction_s.Prisma.{Prisma, IsPrisma}
use blockchain_transaction_s.Prisma.Tables.{map_option, find-update_where, find_passes, find-count}
use blockchain_transaction_s.TransactionRepository.{has_id}
use blockchain_transaction_s.Prisma.{has_hash}
use blockchain_transaction_s.TransactionRepository.Evolution.{
  row_of, status_of_row, status_of, Evolves-update,
}
use blockchain_transaction_s.TransactionRepository.Tracking.{
  IsTracked, Tracks, is_confirmation_of, expected_of_row, count_where-update_where,
  find_of_count_where,
}
use blockchain_transaction_s.ConfirmationProcessor.Persist.{at_status, moved, after_update}

-- What one confirmation changes, for the row of one identifier.
module _ (id : String) (f : Transaction → Transaction)
    (same_status : (r : Transaction) → (f r).status ≡ r.status)
    (same_id : (r : Transaction) → (f r).id ≡ r.id) where
  moved_status : (r : Transaction) → (moved confirmed f r).status ≡ confirmed
  moved_status r = same_status (record r { status = confirmed })

  moved_id : (r : Transaction) → (moved confirmed f r).id ≡ r.id
  moved_id r = same_id (record r { status = confirmed })

  abbrev updated : Transaction → Transaction
  updated r = if at_status id confirming r then moved confirmed f r else r

  -- A row of another identifier is not touched; the row itself is counted once more.
  expected-confirm_other :
      (i : String) (o : Option Transaction)
      → ((r : Transaction) → o ≡ some r → has_id i r ≡ true)
      → str_eq id i ≡ false
      → expected_of_row (status_of_row (map_option updated o)) ≡ expected_of_row (status_of_row o)
  expected-confirm_other i none named other = refl
  expected-confirm_other i (some r) named other =
      ground (arith, named r refl, eq_iff r.id i, eq_iff id i, eq_iff r.id id)

  expected-confirm_self :
      (r : Transaction)
      → at_status id confirming r ≡ true
      → (expected_of_row (some (updated r).status) ≡ 1) × (expected_of_row (some r.status) ≡ 0)
  expected-confirm_self r h = ground (arith, moved_status r, status_eq→eq r.status confirming)

  pub expected-confirm :
      (w : World) (i : String)
      → IsTracked w
      → count_where (at_status id confirming) w.transactions ≡ 1
      → expected_of_row (status_of i (after_update id confirming confirmed f w))
        ≡ (if str_eq id i then 1 else 0) + expected_of_row (status_of i w)
  expected-confirm w i t one =
      rw
        (find-update_where (has_id i) (at_status id confirming) (moved confirmed f) w.transactions
          (λ r. rw (moved_id r)))
        (elim (Bool-cases (str_eq id i)) [
          | inl same ↦
              let (r, found, passes) =
                find_of_count_where (has_id i) (at_status id confirming) w.transactions
                  (λ r h. ground (arith, eq_iff r.id i, eq_iff id i, eq_iff r.id id)) (t.unique i)
                  (omega (arith, one)) in
              rw (same, found) (ground (arith, expected-confirm_self r passes))
          | inr other ↦ rw other (
              ground (
                arith,
                expected-confirm_other i (row_of i w)
                    (λ r h. find_passes (has_id i) w.transactions r h) other,
              ))
        ])

confirming_allowed :
    (id : String) (r : Transaction)
    → at_status id confirming r ≡ true
    → can_transition r.status confirmed ≡ true
unfolding can_transition
confirming_allowed id r h = ground (arith, status_eq→eq r.status confirming)

-- The row that a confirmed hash leads to, frozen as it is.
abbrev pub HasConfirmed : String → World → Type 0
HasConfirmed tx_hash w =
    (r : Transaction) × (row_of r.id w ≡ some r)
    × (r.status ≡ confirmed)
    × (r.tx_hash ≡ some tx_hash)

-- The one row of an identifier, found by another test.
pub find_of_find :
    (q : Transaction → Bool) (t : List Transaction) (r : Transaction)
    → find q t ≡ some r
    → count_where (has_id r.id) t ≤ 1
    → find (has_id r.id) t ≡ some r
find_of_find q [] r h u = cc
find_of_find q (x ∷ t) r h u = elim (Bool-cases (q x)) [
  | inl passes ↦ ground (arith, eq_refl x.id)
  | inr fails ↦ elim (Bool-cases (has_id r.id x)) [
    | inl same ↦ absurd (ground (arith, find-count q (has_id r.id) t r, eq_refl r.id))
    | inr other ↦ ground (arith, find_of_find q t r)
  ]
]

hash_of_has_hash :
    (tx_hash : String) (r : Transaction) → has_hash tx_hash r ≡ true → r.tx_hash ≡ some tx_hash
hash_of_has_hash tx_hash r h = elim (Option-cases r.tx_hash) [
  | inl missing ↦ ground arith
  | inr (hash, e) ↦ ground (arith, eq_iff hash tx_hash)
]

module _ (prisma : Prisma) (lawful : IsPrisma prisma) (id : String) (f : Transaction → Transaction)
    (same_status : (r : Transaction) → (f r).status ≡ r.status)
    (same_id : (r : Transaction) → (f r).id ≡ r.id) (w : World) (tracked : IsTracked w)
    (one : count_where (at_status id confirming) w.transactions ≡ 1) (event : OutboxEvent)
    (of_row : event.aggregate_id ≡ id) (of_type : event.type ≡ "transaction.confirmed")
    (events : List OutboxEvent)
    (created : prisma.outbox_event.create event w.outbox_events ≡ some events) where
  abbrev recorded_world : World
  recorded_world = record (after_update id confirming confirmed f w) { outbox_events = events }

  pub Tracks-recorded : Tracks w recorded_world
  Tracks-recorded = record {
    evolves = record {
      rows =
          (Evolves-update (at_status id confirming) (moved confirmed f) confirmed
            (confirming_allowed id) (λ r. same_status (record r { status = confirmed }))
            (λ r. same_id (record r { status = confirmed })) w).rows;
    };
    kept = λ t. record {
      unique = λ i.
          rw
            (count_where-update_where (has_id i) (at_status id confirming) (moved confirmed f)
              w.transactions (λ r. rw (same_id (record r { status = confirmed }))))
            (t.unique i);
      recorded = λ i.
          lawful.outbox_event_lem.create_lem event w.outbox_events events created
            (is_confirmation_of i)
          ∙ (rw (of_row, of_type, eq_refl "transaction.confirmed")
              (ground (arith, t.recorded i, expected-confirm id f same_status same_id w i t one)));
    };
  }

  -- The row is confirmed, and keeps the hash that led to it.
  pub HasConfirmed-recorded :
      (tx_hash : String) (found : Transaction)
      → found.id ≡ id
      → find (has_hash tx_hash) w.transactions ≡ some found
      → ((r : Transaction) → (f r).tx_hash ≡ r.tx_hash)
      → HasConfirmed tx_hash recorded_world
  HasConfirmed-recorded tx_hash found named by_hash same_hash =
      let stored : find (has_id id) w.transactions ≡ some found =
        subst (λ (i : String). find (has_id i) w.transactions ≡ some found) named
          (find_of_find (has_hash tx_hash) w.transactions found by_hash
            (tracked.unique found.id)) in
      let (r, same, passes) =
        find_of_count_where (has_id id) (at_status id confirming) w.transactions
          (λ r h. ground arith) (tracked.unique id) (omega (arith, one)) in
      let confirming_row : at_status id confirming found ≡ true = ground arith in
      let after : Transaction = moved confirmed f found in
      let row : row_of id recorded_world ≡ some after =
        find-update_where (has_id id) (at_status id confirming) (moved confirmed f) w.transactions
          (λ r. rw (same_id (record r { status = confirmed })))
        ∙ rw stored (rw confirming_row) in
      let here : after.id ≡ id = same_id (record found { status = confirmed }) ∙ named in
      (
        after,
        subst (λ (i : String). row_of i recorded_world ≡ some after) (sym here) row,
        same_status (record found { status = confirmed }),
        same_hash (record found { status = confirmed })
            ∙ hash_of_has_hash tx_hash found
                (find_passes (has_hash tx_hash) w.transactions found by_hash),
      )
