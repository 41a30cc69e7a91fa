-- ===== src/PendingRecoveryProcessor/Verdict.antt =====
-- The recovery of one orphaned transaction, against a table of what is to be done with it.
use blockchain_transaction_s.Prelude.{
  ◌+◌, ◌≡◌, refl, String, Bool, true, false, [], ◌∷◌, Option, none, some, ltb, Bool-cases,
  Option-cases, inl, inr,
}
use blockchain_transaction_s.Effects.{ok, ◌>>=◌, catch_error}
use blockchain_transaction_s.Transaction.StateMachine.{
  pending, submitted, confirming, failed, status_eq, includes, can_transition,
}
use blockchain_transaction_s.Schema.{World}
use blockchain_transaction_s.Prisma.{Prisma, IsPrisma}
use blockchain_transaction_s.Prisma.Tables.{map_option}
use blockchain_transaction_s.TransactionRepository.{
  TransactionWithWallets, mark_submitted, mark_failed, assert_transition, assert_transitions,
}
use blockchain_transaction_s.TransactionRepository.Evolution.{row_of}
use blockchain_transaction_s.TransactionRepository.Tracking.{IsTracked}
use blockchain_transaction_s.TransactionRepository.Alone.{
  with_row, transition_ok, transition_clash, transition_from_any_ok,
}
use blockchain_transaction_s.TransferRepository.{matching_transfer, find_matching_transfer}
use blockchain_transaction_s.TokenEventCursorRepository.{cursor, find_by_token_id}
use blockchain_transaction_s.ConfirmationQueue.{enqueue}
use Prim.Native.String.{◌++◌}
use blockchain_transaction_s.PendingRecoveryProcessor.Taken.{is_taken, update_clash_lem}
use blockchain_transaction_s.Transaction.{Transaction}
use blockchain_transaction_s.PendingRecoveryProcessor.{
  Periods, is_healthy, no_evidence, transfer_of, is_event_listener_healthy, adopt, fail, unmatched,
  on_match, recover_one,
}

-- What is to be done with an orphaned transaction.
pub data Verdict : Type 0 where
  -- a transfer on the chain is evidence that it was submitted, under this hash
  adopted : String → Verdict
  -- a transfer was found, but another transaction already has its hash
  taken : Verdict
  -- it is too young to conclude anything
  waits : Verdict
  -- it is old enough, but the event listener may be behind
  deferred : Verdict
  -- it is old enough, and a listener that is up to date saw no transfer
  given_up : Verdict

abbrev pub verdict_on : Bool → Bool → Option (String × Bool) → Verdict
verdict_on young healthy (some (tx_hash, true)) = taken
verdict_on young healthy (some (tx_hash, false)) = adopted tx_hash
verdict_on true healthy none = waits
verdict_on false true none = given_up
verdict_on false false none = deferred

module _ (prisma : Prisma) (periods : Periods) where
  abbrev pub verdict : TransactionWithWallets → World → Verdict
  verdict tx w =
      verdict_on (ltb w.clock (tx.created_at + periods.fail_after_ms))
        (is_healthy w.clock periods.listener_staleness_ms (cursor prisma tx.token_id w))
        (map_option (λ t. (t.transaction_hash, is_taken tx.id t.transaction_hash w))
          (matching_transfer prisma (transfer_of tx) w))

  -- The world after the verdict was carried out on the row of the transaction.
  abbrev pub carried_out : Verdict → TransactionWithWallets → World → World
  carried_out (adopted tx_hash) tx w =
      let w' =
        with_row tx.id (λ r. status_eq r.status pending)
          (λ r. record r {
            status = submitted;
            tx_hash = some tx_hash;
            submitted_at = some w.clock;
          })
          w in
      record w' {
        confirmation_jobs =
            prisma.add
              (record {
                job_id = some ("confirm-" ++ tx.id);
                transaction_id = tx.id;
                tenant_id = tx.tenant_id;
              })
              w.confirmation_jobs;
      }
  carried_out taken tx w = w
  carried_out waits tx w = w
  carried_out deferred tx w = w
  carried_out given_up tx w =
      with_row tx.id (λ r. includes (pending ∷ confirming ∷ []) r.status)
        (λ r. record r {
          status = failed;
          failure_reason = some no_evidence;
          failed_at = some w.clock;
        })
        w

-- The recovery of a transaction that is PENDING, in a world where identifiers are unique and when
-- nobody else acts, returns and does what the verdict on it says: with a transfer on the chain it
-- is submitted under that hash and enqueued, unless another transaction has the hash, and then it is
-- untouched; with none it is failed only if it is old enough and the event listener is healthy, and
-- else untouched.
pub recover_one-verdict :
    (prisma : Prisma)
    → IsPrisma prisma
    → (periods : Periods) (tx : TransactionWithWallets) (w : World) → IsTracked w
    → row_of tx.id w ≡ some tx.row
    → tx.status ≡ pending
    → recover_one prisma periods tx (record { world = w; turns = [] }) ≡ (
      ok tt,
      record { world = carried_out prisma periods (verdict prisma periods tx w) tx w; turns = [] },
    )
unfolding recover_one on_match unmatched adopt fail is_event_listener_healthy mark_submitted
    mark_failed enqueue find_matching_transfer find_by_token_id catch_error ◌>>=◌ can_transition
    assert_transition assert_transitions
recover_one-verdict prisma lawful periods tx w t here at =
    elim (Option-cases (matching_transfer prisma (transfer_of tx) w)) [
      | inl absent ↦
          rw absent (elim (Bool-cases (ltb w.clock (tx.created_at + periods.fail_after_ms))) [
            | inl young ↦ rw young refl
            | inr old ↦
                rw old
                  (elim (Bool-cases (
                    is_healthy w.clock periods.listener_staleness_ms
                      (cursor prisma tx.token_id w))) [
                        | inl up ↦ rw up (
                            rw
                              (transition_from_any_ok prisma lawful tx.id w tx.row t here
                                (pending ∷ confirming ∷ []) failed
                                (λ r. record r {
                                  failure_reason = some no_evidence;
                                  failed_at = some w.clock;
                                })
                                (rw at refl) refl (λ x. refl) (λ x. refl))
                              refl)
                        | inr down ↦ rw down refl
                      ])
          ])
      | inr (found, e) ↦
          let g : Transaction → Transaction = λ x. record x {
            status = submitted;
            tx_hash = some found.transaction_hash;
            submitted_at = some w.clock;
          } in
          let clash =
            update_clash_lem prisma lawful tx.id w tx.row t here (rw at refl) found.transaction_hash
              g (λ x. refl) (λ x. refl) in
          elim (Bool-cases (is_taken tx.id found.transaction_hash w)) [
            | inl lost ↦
                rw (e, lost)
                  (rw
                    (transition_clash prisma lawful tx.id w tx.row t here pending submitted
                      (λ r. record r {
                        tx_hash = some found.transaction_hash;
                        submitted_at = some w.clock;
                      })
                      refl (rw clash lost))
                    refl)
            | inr free ↦
                rw (e, free)
                  (rw
                    (transition_ok prisma lawful tx.id w tx.row t here pending submitted
                      (λ r. record r {
                        tx_hash = some found.transaction_hash;
                        submitted_at = some w.clock;
                      })
                      (rw at refl) refl (λ x. refl) (rw clash free))
                    refl)
          ]
    ]
