-- ===== src/PendingRecoveryProcessor/Safety.antt =====
-- The recovery of orphaned transactions among other processes.
use blockchain_transaction_s.Prelude.{◌+◌, refl, String, List, [], ◌∷◌, Option, none, some, ltb}
use blockchain_transaction_s.Effects.{Result, ok, err, call}
use blockchain_transaction_s.Effects.Rely.{
  Spec, Spec-pure, Spec-call, Spec-if, Spec-bind, Spec-catch, Spec-gets, Spec-weaken,
}
use blockchain_transaction_s.Transaction.StateMachine.{TransactionStatus}
use blockchain_transaction_s.Schema.{World, TokenTransfer, ConfirmationJob}
use blockchain_transaction_s.Prisma.{Prisma, IsPrisma}
use blockchain_transaction_s.TransactionRepository.{
  TransactionWithWallets, find_orphaned_pending_candidates,
}
use blockchain_transaction_s.TransactionRepository.Tracking.{
  IsTracked, Tracks, Tracks-rely, Tracks-of_same,
}
use blockchain_transaction_s.TransactionRepository.Transitions.{
  IsTracked-stable, Ends, Spec-mark_submitted, Spec-mark_failed,
}
use blockchain_transaction_s.TransferRepository.{find_matching_transfer}
use blockchain_transaction_s.TokenEventCursorRepository.{find_by_token_id}
use blockchain_transaction_s.ConfirmationQueue.{enqueue}
use blockchain_transaction_s.PendingRecoveryProcessor.{
  Periods, is_event_listener_healthy, adopt, fail, unmatched, on_match, recover_one, recover_all,
  process_orphaned_pending,
}

-- Whatever the result, the outbox is tracked.
abbrev pub Kept : {A : Type 0} → Result A → World → Type 0
Kept r w = IsTracked w

-- What ends a transition, with less said.
pub Ends-Kept :
    {A : Type 0} (id : String) (s : TransactionStatus) (r : Result A) (w : World)
    → Ends id s r w
    → Kept r w
Ends-Kept id s (ok a) w h = h.0
Ends-Kept id s (err e) w h = h

-- A call that only reads.
pub Spec-read :
    {A : Type 0} (f : World → A) → Spec Tracks IsTracked (call (λ w. (ok (f w), w))) Kept
Spec-read f =
    Spec-call Tracks Tracks-rely _ IsTracked-stable (λ w h. (Tracks-rely.same w, h))
      (λ message w h. h)

module _ (prisma : Prisma) (lawful : IsPrisma prisma) where
  pub Spec-enqueue : (job : ConfirmationJob) → Spec Tracks IsTracked (enqueue prisma job) Kept
  unfolding enqueue
  Spec-enqueue job =
      Spec-call Tracks Tracks-rely _ IsTracked-stable
        (λ w h. (Tracks-of_same w _ refl refl, (Tracks-of_same w _ refl refl).kept h))
        (λ message w h. h)

  module _ (periods : Periods) where
    Spec-adopt :
        (tx : TransactionWithWallets) (tx_hash : String)
        → Spec Tracks IsTracked (adopt prisma periods tx tx_hash) Kept
    unfolding adopt
    Spec-adopt tx tx_hash =
        Spec-bind Tracks Tracks-rely {M = Kept} _ _
          (Spec-weaken Tracks Tracks-rely _ (Spec-mark_submitted prisma lawful tx.id tx_hash)
            (λ w h. h) (Ends-Kept tx.id _))
          (λ r. Spec-enqueue _) (λ e w h. h)

    Spec-fail : (tx : TransactionWithWallets) → Spec Tracks IsTracked (fail prisma periods tx) Kept
    unfolding fail
    Spec-fail tx =
        Spec-bind Tracks Tracks-rely {M = Kept} _ _
          (Spec-weaken Tracks Tracks-rely _ (Spec-mark_failed prisma lawful tx.id _) (λ w h. h)
            (Ends-Kept tx.id _))
          (λ r. Spec-pure Tracks Tracks-rely _ (λ w h. h)) (λ e w h. h)

    Spec-is_event_listener_healthy :
        (token_id : String)
        → Spec Tracks IsTracked (is_event_listener_healthy prisma periods token_id) Kept
    unfolding is_event_listener_healthy find_by_token_id
    Spec-is_event_listener_healthy token_id =
        Spec-bind Tracks Tracks-rely {M = Kept} _ _ (Spec-read _)
          (λ cursor.
            Spec-bind Tracks Tracks-rely {M = Kept} _ _ (Spec-gets Tracks Tracks-rely _ (λ w h. h))
              (λ now. Spec-pure Tracks Tracks-rely _ (λ w h. h)) (λ e w h. h))
          (λ e w h. h)

    Spec-unmatched :
        (tx : TransactionWithWallets) → Spec Tracks IsTracked (unmatched prisma periods tx) Kept
    unfolding unmatched
    Spec-unmatched tx =
        Spec-bind Tracks Tracks-rely {M = Kept} _ _ (Spec-gets Tracks Tracks-rely _ (λ w h. h))
          (λ now.
            Spec-if Tracks Tracks-rely (ltb now (tx.created_at + periods.fail_after_ms)) _ _
              (λ young. Spec-pure Tracks Tracks-rely _ (λ w h. h))
              (λ old.
                Spec-bind Tracks Tracks-rely {M = Kept} _ _
                  (Spec-is_event_listener_healthy tx.token_id)
                  (λ healthy.
                    Spec-if Tracks Tracks-rely healthy _ _ (λ up. Spec-fail tx)
                      (λ down. Spec-pure Tracks Tracks-rely _ (λ w h. h)))
                  (λ e w h. h)))
          (λ e w h. h)

    Spec-on_match :
        (tx : TransactionWithWallets) (found : Option TokenTransfer)
        → Spec Tracks IsTracked (on_match prisma periods tx found) Kept
    unfolding on_match
    Spec-on_match tx none = Spec-unmatched tx
    Spec-on_match tx (some found) = Spec-adopt tx found.transaction_hash

    Spec-recover_one :
        (tx : TransactionWithWallets) → Spec Tracks IsTracked (recover_one prisma periods tx) Kept
    unfolding recover_one find_matching_transfer
    Spec-recover_one tx =
        Spec-catch Tracks Tracks-rely {M = Kept} _ _
          (Spec-bind Tracks Tracks-rely {M = Kept} _ _ (Spec-read _) (Spec-on_match tx)
            (λ e w h. h))
          (λ a w h. h) (λ e. Spec-pure Tracks Tracks-rely _ (λ w h. h))

    Spec-recover_all :
        (txs : List TransactionWithWallets)
        → Spec Tracks IsTracked (recover_all prisma periods txs) Kept
    unfolding recover_all
    Spec-recover_all [] = Spec-pure Tracks Tracks-rely _ (λ w h. h)
    Spec-recover_all (tx ∷ txs) =
        Spec-bind Tracks Tracks-rely {M = Kept} _ _ (Spec-recover_one tx)
          (λ u. Spec-recover_all txs) (λ e w h. h)

    pub Spec-process_orphaned_pending :
        Spec Tracks IsTracked (process_orphaned_pending prisma periods) Kept
    unfolding process_orphaned_pending find_orphaned_pending_candidates
    Spec-process_orphaned_pending =
        Spec-bind Tracks Tracks-rely {M = Kept} _ _ (Spec-gets Tracks Tracks-rely _ (λ w h. h))
          (λ now.
            Spec-bind Tracks Tracks-rely {M = Kept} _ _
              (Spec-bind Tracks Tracks-rely {M = Kept} _ _ (Spec-read _)
                (λ rows. Spec-pure Tracks Tracks-rely _ (λ w h. h)) (λ e w h. h))
              Spec-recover_all (λ e w h. h))
          (λ e w h. h)
