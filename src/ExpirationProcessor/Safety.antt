-- ===== src/ExpirationProcessor/Safety.antt =====
-- The expiration of transactions among other processes.
use blockchain_transaction_s.Prelude.{ℕ, List, [], ◌∷◌}
use blockchain_transaction_s.Effects.Rely.{
  Spec, Spec-pure, Spec-raise, Spec-if, Spec-bind, Spec-catch, Spec-weaken,
}
use blockchain_transaction_s.Transaction.{Transaction}
use blockchain_transaction_s.Prisma.{Prisma, IsPrisma}
use blockchain_transaction_s.TransactionRepository.{find_expired_candidates}
use blockchain_transaction_s.TransactionRepository.Tracking.{IsTracked, Tracks, Tracks-rely}
use blockchain_transaction_s.TransactionRepository.Transitions.{Spec-expire}
use blockchain_transaction_s.ConfirmationProcessor.{is_conflict}
use blockchain_transaction_s.PendingRecoveryProcessor.Safety.{Kept, Ends-Kept, Spec-read}
use blockchain_transaction_s.ExpirationProcessor.{expire, expire_all, process_expired_transactions}

module _ (prisma : Prisma) (lawful : IsPrisma prisma) where
  Spec-expire_one : (tx : Transaction) → Spec Tracks IsTracked (expire prisma tx) Kept
  unfolding expire
  Spec-expire_one tx =
      Spec-catch Tracks Tracks-rely {M = Kept} _ _
        (Spec-bind Tracks Tracks-rely {M = Kept} _ _
          (Spec-weaken Tracks Tracks-rely _ (Spec-expire prisma lawful tx.id _) (λ w h. h)
            (Ends-Kept tx.id _))
          (λ r. Spec-pure Tracks Tracks-rely _ (λ w h. h)) (λ e w h. h))
        (λ a w h. h)
        (λ e.
          Spec-if Tracks Tracks-rely (is_conflict e) _ _
            (λ stale. Spec-pure Tracks Tracks-rely _ (λ w h. h))
            (λ other. Spec-raise Tracks Tracks-rely e (λ w h. h)))

  Spec-expire_all : (txs : List Transaction) → Spec Tracks IsTracked (expire_all prisma txs) Kept
  unfolding expire_all
  Spec-expire_all [] = Spec-pure Tracks Tracks-rely _ (λ w h. h)
  Spec-expire_all (tx ∷ txs) =
      Spec-bind Tracks Tracks-rely {M = Kept} _ _ (Spec-expire_one tx) (λ u. Spec-expire_all txs)
        (λ e w h. h)

  pub Spec-process_expired_transactions :
      (expiration_before : ℕ)
      → Spec Tracks IsTracked (process_expired_transactions prisma expiration_before) Kept
  unfolding process_expired_transactions find_expired_candidates
  Spec-process_expired_transactions expiration_before =
      Spec-bind Tracks Tracks-rely {M = Kept} _ _ (Spec-read _)
        (λ txs.
          Spec-bind Tracks Tracks-rely {M = Kept} _ _ (Spec-expire_all txs)
            (λ u. Spec-pure Tracks Tracks-rely _ (λ w h. h)) (λ e w h. h))
        (λ e w h. h)
