-- ===== src/Examples/Workers.antt =====
-- Recoveries, and all the workers, on the same table.
use blockchain_transaction_s.Prelude.{◌≡◌, refl, List, [], ◌∷◌, arith}
use blockchain_transaction_s.Effects.{ok}
use blockchain_transaction_s.Schema.{World, TokenTransfer}
use blockchain_transaction_s.TransactionRepository.{TransactionWithWallets}
use blockchain_transaction_s.TransactionRepository.Tracking.{IsTracked, Tracks, Tracks-of_same}
use blockchain_transaction_s.Blockchain.{ConfirmationStatus}
use blockchain_transaction_s.SubmissionRecoveryProcessor.{process_submitted_transactions}
use blockchain_transaction_s.SubmissionRecoveryProcessor.Enqueued.{
  Enqueued, process_submitted_transactions-Enqueued,
}
use blockchain_transaction_s.PendingRecoveryProcessor.{Periods, recover_one}
use blockchain_transaction_s.PendingRecoveryProcessor.Verdict.{
  verdict, adopted, taken, carried_out, recover_one-verdict,
}
use blockchain_transaction_s.Workers.{
  Job, confirmation, expiration, submission_recovery, pending_recovery, work_all, work_all-Tracks,
}
use blockchain_transaction_s.Examples.InMemory.{prisma, prisma-IsPrisma, wallet}
use blockchain_transaction_s.Examples.Confirmation.{
  adapter, orphan, start, start-IsTracked, process, others-Benign,
}

abbrev periods : Periods
periods = record { grace_ms = 1000; fail_after_ms = 3000; listener_staleness_ms = 500 }

abbrev jobs : List Job
jobs =
    pending_recovery periods
    ∷ submission_recovery
    ∷ confirmation "tx-1" "tenant-1"
    ∷ expiration
    ∷ []

work_all-Tracks_example :
    Tracks start (work_all prisma (adapter ConfirmationStatus.confirmed ∷ []) jobs process).1.world
work_all-Tracks_example =
    work_all-Tracks prisma prisma-IsPrisma (adapter ConfirmationStatus.confirmed ∷ []) jobs process
      others-Benign start-IsTracked

process_submitted_transactions-Enqueued_example :
    Enqueued prisma
      (λ id. "tenant-1")
      start
      (process_submitted_transactions prisma (record { world = start; turns = [] }))
process_submitted_transactions-Enqueued_example =
    process_submitted_transactions-Enqueued prisma prisma-IsPrisma start (λ id. "tenant-1")
      (refl, tt) (λ id. omega arith) (λ id. refl)

abbrev orphaned : TransactionWithWallets
orphaned = record { row = orphan; from_wallet = wallet "wallet-1"; to_wallet = wallet "wallet-2" }

-- The transfer of the orphaned transaction, as it was seen on the chain.
abbrev transfer : TokenTransfer
transfer = record {
  id = "transfer-1";
  token_id = "token-1";
  from = "wallet-1";
  to = "wallet-2";
  amount = 100;
  transaction_hash = "0x7";
  log_index = 0;
  block_number = 41;
  created_at = 2000;
}

abbrev seen : World
seen = record start { token_transfers = transfer ∷ [] }

seen-IsTracked : IsTracked seen
seen-IsTracked = (Tracks-of_same start seen refl refl).kept start-IsTracked

seen-verdict : verdict prisma periods orphaned seen ≡ adopted "0x7"
seen-verdict = refl

-- The transfer was already adopted by the other transaction.
abbrev contested : World
contested = record start { token_transfers = record transfer { transaction_hash = "0x1" } ∷ [] }

contested-verdict : verdict prisma periods orphaned contested ≡ taken
contested-verdict = refl

recover_one-verdict_example :
    recover_one prisma periods orphaned (record { world = seen; turns = [] }) ≡ (
      ok tt,
      record {
        world = carried_out prisma periods (verdict prisma periods orphaned seen) orphaned seen;
        turns = [];
      },
    )
recover_one-verdict_example =
    recover_one-verdict prisma prisma-IsPrisma periods orphaned seen seen-IsTracked refl refl
