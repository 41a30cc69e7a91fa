-- ===== src/Workers.antt =====
-- The jobs of all the workers: src/workers/confirmation.queue.worker.ts and the cycles of the
-- schedulers, one after the other, each among any other processes.
use blockchain_transaction_s.Prelude.{◌-◌, String, List, [], ◌∷◌}
use blockchain_transaction_s.Effects.{Process, Action, pure, gets, ◌>>=◌, ◌>>◌, catch_error}
use blockchain_transaction_s.Effects.Rely.{
  Spec, Benign, Spec-pure, Spec-bind, Spec-catch, Spec-gets,
}
use blockchain_transaction_s.Transaction.Expiration.{confirmation_timeout_ms}
use blockchain_transaction_s.Schema.{World}
use blockchain_transaction_s.Prisma.{Prisma, IsPrisma}
use blockchain_transaction_s.TransactionRepository.Tracking.{IsTracked, Tracks, Tracks-rely}
use blockchain_transaction_s.Blockchain.{BlockchainAdapter}
use blockchain_transaction_s.ConfirmationProcessor.{process_transaction}
use blockchain_transaction_s.ConfirmationProcessor.Outcome.{Spec-process_transaction}
use blockchain_transaction_s.ExpirationProcessor.{process_expired_transactions}
use blockchain_transaction_s.ExpirationProcessor.Safety.{Spec-process_expired_transactions}
use blockchain_transaction_s.SubmissionRecoveryProcessor.{process_submitted_transactions}
use blockchain_transaction_s.SubmissionRecoveryProcessor.Safety.{
  Spec-process_submitted_transactions,
}
use blockchain_transaction_s.PendingRecoveryProcessor.{Periods, process_orphaned_pending}
use blockchain_transaction_s.PendingRecoveryProcessor.Safety.{Kept, Spec-process_orphaned_pending}

-- What a worker is asked to do.
pub data Job : Type 0 where
  confirmation : String → String → Job
  expiration : Job
  submission_recovery : Job
  pending_recovery : Periods → Job

module _ (prisma : Prisma) (adapters : List BlockchainAdapter) where
  -- The cycle of the ExpirationScheduler, whose clock counts from 1970.
  unfoldable pub expiration_cycle : Action World (Unit {0})
  expiration_cycle = do
    now ← gets (λ w. w.clock)
    process_expired_transactions prisma (now - confirmation_timeout_ms)
    pure tt

  unfoldable pub work : Job → Action World (Unit {0})
  work (confirmation id tenant_id) = process_transaction prisma adapters id tenant_id
  work expiration = expiration_cycle
  work submission_recovery = process_submitted_transactions prisma
  work (pending_recovery periods) = process_orphaned_pending prisma periods

  -- The queue and the schedulers catch what a job throws.
  unfoldable pub work_all : List Job → Action World (Unit {0})
  work_all [] = pure tt
  work_all (job ∷ jobs) = catch_error (work job) (λ error. pure tt) >> work_all jobs

module _ (prisma : Prisma) (lawful : IsPrisma prisma) (adapters : List BlockchainAdapter) where
  Spec-work : (job : Job) → Spec Tracks IsTracked (work prisma adapters job) Kept
  unfolding work expiration_cycle
  Spec-work (confirmation id tenant_id) =
      Spec-process_transaction prisma lawful adapters id tenant_id
  Spec-work expiration =
      Spec-bind Tracks Tracks-rely {M = Kept} _ _ (Spec-gets Tracks Tracks-rely _ (λ w h. h))
        (λ now.
          Spec-bind Tracks Tracks-rely {M = Kept} _ _
            (Spec-process_expired_transactions prisma lawful _)
            (λ n. Spec-pure Tracks Tracks-rely _ (λ w h. h)) (λ e w h. h))
        (λ e w h. h)
  Spec-work submission_recovery = Spec-process_submitted_transactions prisma lawful
  Spec-work (pending_recovery periods) = Spec-process_orphaned_pending prisma lawful periods

  Spec-work_all : (jobs : List Job) → Spec Tracks IsTracked (work_all prisma adapters jobs) Kept
  unfolding work_all
  Spec-work_all [] = Spec-pure Tracks Tracks-rely _ (λ w h. h)
  Spec-work_all (job ∷ jobs) =
      Spec-bind Tracks Tracks-rely {M = Kept} _ _
        (Spec-catch Tracks Tracks-rely {M = Kept} _ _ (Spec-work job) (λ a w h. h)
          (λ e. Spec-pure Tracks Tracks-rely _ (λ w h. h)))
        (λ u. Spec-work_all jobs) (λ e w h. h)

-- Begun where the identifiers of transactions are unique, each confirmed transaction has one
-- `transaction.confirmed` event and each other one none, the workers keep to this, over any
-- database client that has its laws: whatever jobs they do, confirmations, expirations and both
-- recoveries, in any order, among any processes that keep to it themselves, and whichever awaited
-- calls are lost. No row disappears, every status moves along allowed transitions only, and a row
-- with a terminal status does not change.
pub work_all-Tracks :
    (prisma : Prisma)
    → IsPrisma prisma
    → (adapters : List BlockchainAdapter) (jobs : List Job) → (p : Process World)
    → Benign Tracks p.turns
    → IsTracked p.world
    → Tracks p.world (work_all prisma adapters jobs p).1.world
work_all-Tracks prisma lawful adapters jobs p calm tracked =
    ((Spec-work_all prisma lawful adapters jobs).run p calm tracked).0
