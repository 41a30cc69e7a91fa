-- ===== src/ConfirmationProcessor/Persist.antt =====
-- The transaction that confirms a row and records its event, run alone.
use blockchain_transaction_s.Prelude.{
  ◌≡◌, refl, inl, inr, ◌⊎◌, String, Bool, true, ◌&&◌, [], some, find, count_where, update_where,
  Bool-cases, Option-cases, arith, ◌==◌,
}
use blockchain_transaction_s.Effects.{Error, ok, err, Process, ◌>>=◌}
use blockchain_transaction_s.Transaction.{Transaction}
use blockchain_transaction_s.Transaction.StateMachine.{TransactionStatus, status_eq, can_transition}
use blockchain_transaction_s.Schema.{World}
use blockchain_transaction_s.Prisma.{Prisma, IsPrisma}
use blockchain_transaction_s.TransactionRepository.{
  has_id, assert_transition, update_many, find_unique, find_unique_or_throw, updated_row,
  transition,
}

abbrev pub alone : World → Process World
alone w = record { world = w; turns = [] }

-- The test and the update of a `transition`.
abbrev pub at_status : String → TransactionStatus → Transaction → Bool
at_status id from r = has_id id r && status_eq r.status from

abbrev pub moved : TransactionStatus → (Transaction → Transaction) → Transaction → Transaction
moved to f r = f (record r { status = to })

abbrev pub after_update :
    String → TransactionStatus → TransactionStatus → (Transaction → Transaction) → World → World
after_update id from to f w = record w {
  transactions = update_where (at_status id from) (moved to f) w.transactions;
}

-- A transition that runs alone changes one row and returns it as it is read back, or it throws.
pub transition-alone :
    (prisma : Prisma)
    → IsPrisma prisma
    → (id : String) (from to : TransactionStatus) (f : Transaction → Transaction) (w : World)
    → can_transition from to ≡ true
    → (count_where (at_status id from) w.transactions ≡ 1)
        × ((r : Transaction) × (find (has_id id) (after_update id from to f w).transactions
              ≡ some r)
            × (transition prisma id from to f (alone w)
                ≡ (ok r, alone (after_update id from to f w))))
      ⊎ ((e : Error) × (w' : World) × (transition prisma id from to f (alone w)
            ≡ (err e, alone w')))
unfolding transition assert_transition update_many updated_row find_unique find_unique_or_throw
    ◌>>=◌
transition-alone prisma lawful id from to f w allowed =
    let t = w.transactions in
    let p = at_status id from in
    let g = moved to f in
    let law = lawful.transaction_lem.find_first_lem (has_id id) (update_where p g t) in
    elim (Bool-cases (prisma.update_clash p g t)) [
      | inl clash ↦ rw (allowed, clash) (inr (_, _, refl))
      | inr free ↦
          rw (allowed, free, lawful.transaction_lem.update_many_lem p g t)
            (elim (Bool-cases (count_where p t == 1)) [
              | inl one ↦ elim (Option-cases (find (has_id id) (update_where p g t))) [
                | inl gone ↦ rw one (rw law (rw gone (inr (_, _, refl))))
                | inr (r, found) ↦ rw one (rw law (rw found (inl (ground arith, (r, refl, refl)))))
              ]
              | inr many ↦ elim (Option-cases (find (has_id id) (update_where p g t))) [
                | inl gone ↦ rw many (rw law (rw gone (inr (_, _, refl))))
                | inr (r, found) ↦ rw many (rw law (rw found (inr (_, _, refl))))
              ]
            ])
    ]
