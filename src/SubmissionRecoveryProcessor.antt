-- ===== src/SubmissionRecoveryProcessor.antt =====
-- src/workers/submission-recovery.processor.ts
pub mod Safety
pub mod Enqueued
use blockchain_transaction_s.Prelude.{
  ℕ, ◌+◌, ◌-◌, String, Bool, true, false, List, [], ◌∷◌, Option, none, some, length, ltb, leb,
  if◌then◌else◌,
}
use blockchain_transaction_s.Effects.{
  Result, ok, Action, pure, raise, gets, call, ◌>>=◌, ◌>>◌, catch_error,
}
use blockchain_transaction_s.Transaction.{Transaction}
use blockchain_transaction_s.Schema.{World}
use blockchain_transaction_s.Prisma.{Prisma}
use blockchain_transaction_s.TransactionRepository.{find_submitted_candidates}
use blockchain_transaction_s.ConfirmationQueue.{confirm_job, enqueue}

module _ (prisma : Prisma) where
  -- An error of the queue is logged, and the loop goes on.
  unfoldable pub recover : Transaction → Action World (Unit {0})
  recover transaction =
      catch_error (enqueue prisma (confirm_job transaction.id transaction.tenant_id))
        λ error. pure tt

  unfoldable pub recover_all : List Transaction → Action World (Unit {0})
  recover_all [] = pure tt
  recover_all (transaction ∷ transactions) = recover transaction >> recover_all transactions

  unfoldable pub process_submitted_transactions : Action World (Unit {0})
  process_submitted_transactions = do recover_all (← find_submitted_candidates prisma 100)
