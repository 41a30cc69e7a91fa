-- ===== src/ConfirmationProcessor/Reverted.antt =====
-- A revert of a transaction that has not been claimed for confirmation.
use blockchain_transaction_s.Prelude.{
  ℕ, zero, suc, ◌≡◌, refl, String, Bool, false, ◌&&◌, List, [], ◌∷◌, some, str_eq, count_where,
  arith, eq_iff,
}
use blockchain_transaction_s.Effects.{err, state_conflict, ◌>>=◌, catch_error}
use blockchain_transaction_s.Transaction.{Transaction}
use blockchain_transaction_s.Transaction.StateMachine.{
  TransactionStatus, pending, submitted, confirming, failed, includes, can_transition,
}
use blockchain_transaction_s.Schema.{World}
use blockchain_transaction_s.Prisma.{Prisma, IsPrisma}
use blockchain_transaction_s.Prisma.Tables.{find_and, update_where-none}
use blockchain_transaction_s.TransactionRepository.{
  TransactionWithToken, has_id, assert_transitions, update_many, find_unique, updated_row_any,
  transition_from_any, mark_failed, find_by_id,
}
use blockchain_transaction_s.TransactionRepository.Evolution.{row_of}
use blockchain_transaction_s.TransactionRepository.Tracking.{IsTracked, find_of_count_where}
use blockchain_transaction_s.ConfirmationProcessor.{
  read_current, stop_if_terminal, mark_transaction_failed, handle_reverted_transaction,
}
use blockchain_transaction_s.ConfirmationProcessor.Persist.{alone}

abbrev among : String → List TransactionStatus → Transaction → Bool
among id from r = has_id id r && includes from r.status

-- No row is updated if the row of the identifier has another status.
none_updated :
    (id : String) (from : List TransactionStatus) (w : World) (r : Transaction)
    → IsTracked w
    → row_of id w ≡ some r
    → includes from r.status ≡ false
    → count_where (among id from) w.transactions ≡ 0
none_updated id from w r t here other = go (count_where (among id from) w.transactions) refl
  where
    go :
        (n : ℕ)
        → count_where (among id from) w.transactions ≡ n
        → count_where (among id from) w.transactions ≡ 0
    go zero e = e
    go (suc n) e =
        let (r', found, passes) =
          find_of_count_where (has_id id) (among id from) w.transactions (λ r h. ground arith)
            (t.unique id) (omega (arith, e)) in
        absurd (ground arith)

-- The whole call: no row changes, and the status that the row has is reported as the conflict.
mark_failed_conflict :
    (prisma : Prisma)
    → IsPrisma prisma
    → (id reason : String) (w : World) (r : Transaction) → IsTracked w
    → row_of id w ≡ some r
    → includes (pending ∷ confirming ∷ []) r.status ≡ false
    → mark_failed prisma id reason (alone w) ≡ (err (state_conflict id r.status), alone w)
unfolding mark_failed transition_from_any assert_transitions can_transition update_many
    updated_row_any find_unique ◌>>=◌
mark_failed_conflict prisma lawful id reason w r t here other =
    let p = among id (pending ∷ confirming ∷ []) in
    let g : Transaction → Transaction =
      λ x. record x { status = failed; failure_reason = some reason; failed_at = some w.clock } in
    let none = none_updated id (pending ∷ confirming ∷ []) w r t here other in
    rw
      (
        lawful.keeps_hash p g w.transactions (λ x. refl) (λ x. refl),
        lawful.transaction_lem.update_many_lem p g w.transactions,
      )
      (rw (none, update_where-none p g w.transactions none)
        (rw (lawful.transaction_lem.find_first_lem (has_id id) w.transactions) (rw here)))

-- If the chain reports a revert of a transaction that is still SUBMITTED, in a world where
-- identifiers are unique and where nobody else acts, handling it throws a conflict, the row is not
-- marked FAILED, and nothing at all has changed.
pub reverted_submitted_unchanged :
    (prisma : Prisma)
    → IsPrisma prisma
    → (tx : TransactionWithToken) (w : World) (r : Transaction) → IsTracked w
    → row_of tx.id w ≡ some r
    → r.tenant_id ≡ tx.tenant_id
    → r.status ≡ submitted
    → handle_reverted_transaction prisma tx (alone w)
      ≡ (err (state_conflict tx.id submitted), alone w)
unfolding handle_reverted_transaction mark_transaction_failed stop_if_terminal read_current
    find_by_id find_unique catch_error ◌>>=◌
reverted_submitted_unchanged prisma lawful tx w r t here tenant still =
    let of_tenant : Transaction → Bool = λ x. str_eq x.tenant_id tx.tenant_id in
    let found =
      find_and (has_id tx.id) of_tenant w.transactions r here
        (ground (arith, eq_iff r.tenant_id tx.tenant_id)) in
    rw (mark_failed_conflict prisma lawful tx.id "FAILED" w r t here (rw still refl)) (
      rw (lawful.transaction_lem.find_first_lem (λ x. has_id tx.id x && of_tenant x) w.transactions)
        (rw found (rw still)))
