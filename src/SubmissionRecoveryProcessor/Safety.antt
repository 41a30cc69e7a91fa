-- ===== src/SubmissionRecoveryProcessor/Safety.antt =====
-- The recovery of submitted transactions among other processes.
use blockchain_transaction_s.Prelude.{List, [], ◌∷◌}
use blockchain_transaction_s.Effects.Rely.{Spec, Spec-pure, Spec-bind, Spec-catch}
use blockchain_transaction_s.Transaction.{Transaction}
use blockchain_transaction_s.Prisma.{Prisma, IsPrisma}
use blockchain_transaction_s.TransactionRepository.{find_submitted_candidates}
use blockchain_transaction_s.TransactionRepository.Tracking.{IsTracked, Tracks, Tracks-rely}
use blockchain_transaction_s.PendingRecoveryProcessor.Safety.{Kept, Spec-read, Spec-enqueue}
use blockchain_transaction_s.SubmissionRecoveryProcessor.{
  recover, recover_all, process_submitted_transactions,
}

module _ (prisma : Prisma) (lawful : IsPrisma prisma) where
  Spec-recover_all : (txs : List Transaction) → Spec Tracks IsTracked (recover_all prisma txs) Kept
  unfolding recover_all recover
  Spec-recover_all [] = Spec-pure Tracks Tracks-rely _ (λ w h. h)
  Spec-recover_all (tx ∷ txs) =
      Spec-bind Tracks Tracks-rely {M = Kept} _ _
        (Spec-catch Tracks Tracks-rely {M = Kept} _ _ (Spec-enqueue prisma lawful _) (λ a w h. h)
          (λ e. Spec-pure Tracks Tracks-rely _ (λ w h. h)))
        (λ u. Spec-recover_all txs) (λ e w h. h)

  pub Spec-process_submitted_transactions :
      Spec Tracks IsTracked (process_submitted_transactions prisma) Kept
  unfolding process_submitted_transactions find_submitted_candidates
  Spec-process_submitted_transactions =
      Spec-bind Tracks Tracks-rely {M = Kept} _ _ (Spec-read _) Spec-recover_all (λ e w h. h)
