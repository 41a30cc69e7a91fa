-- ===== src/ConfirmationQueue.antt =====
-- src/queues/transaction.queue.ts, as the recovery processors use it.
use blockchain_transaction_s.Prelude.{String, some}
use Prim.Native.String.{◌++◌}
use blockchain_transaction_s.Effects.{ok, Action, call}
use blockchain_transaction_s.Schema.{World, ConfirmationJob}
use blockchain_transaction_s.Prisma.{Prisma}

abbrev pub job_id : String → String
job_id id = "confirm-" ++ id

-- The job that asks for a confirmation; its identifier makes the queue take it once.
abbrev pub confirm_job : String → String → ConfirmationJob
confirm_job id tenant_id = record {
  job_id = some (job_id id);
  transaction_id = id;
  tenant_id = tenant_id;
}

-- `transactionConfirmationQueue.add`
unfoldable pub enqueue : Prisma → ConfirmationJob → Action World (Unit {0})
enqueue prisma job =
    call λ w. (ok tt, record w { confirmation_jobs = prisma.add job w.confirmation_jobs })
