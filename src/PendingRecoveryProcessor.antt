-- ===== src/PendingRecoveryProcessor.antt =====
-- src/workers/pending-recovery.processor.ts
pub mod Taken
pub mod Verdict
pub mod Safety
use blockchain_transaction_s.Prelude.{
  ℕ, ◌+◌, ◌-◌, String, Bool, true, false, List, [], ◌∷◌, Option, none, some, length, ltb, leb,
  if◌then◌else◌,
}
use blockchain_transaction_s.Effects.{
  Result, ok, Action, pure, raise, gets, call, ◌>>=◌, ◌>>◌, catch_error,
}
use blockchain_transaction_s.Transaction.{Transaction}
use blockchain_transaction_s.Schema.{World}
use blockchain_transaction_s.Prisma.{Prisma}
use blockchain_transaction_s.Schema.{TokenEventCursor, TokenTransfer}
use blockchain_transaction_s.TransactionRepository.{
  TransactionWithWallets, mark_submitted, mark_failed, find_orphaned_pending_candidates,
}
use blockchain_transaction_s.TransferRepository.{MatchingTransferParams, find_matching_transfer}
use blockchain_transaction_s.TokenEventCursorRepository.{find_by_token_id}
use blockchain_transaction_s.ConfirmationQueue.{confirm_job, enqueue}

-- The periods of a PendingRecoveryProcessor, in milliseconds.
pub record Periods : Type 0 where
  pub grace_ms : ℕ
  pub fail_after_ms : ℕ
  pub listener_staleness_ms : ℕ

-- `lastSuccessfulSync` is set, and `now - lastSuccessfulSync <= listenerStalenessMs`
abbrev pub is_healthy : ℕ → ℕ → Option TokenEventCursor → Bool
is_healthy now staleness none = false
is_healthy now staleness (some c) = elim c.last_successful_sync [
  | none ↦ false
  | some synced ↦ leb now (synced + staleness)
]

abbrev pub no_evidence : String
no_evidence =
    "Orphaned in PENDING: no matching on-chain transfer found after the recovery window. Likely a process crash before submission completed."

abbrev pub transfer_of : TransactionWithWallets → MatchingTransferParams
transfer_of tx = record {
  token_id = tx.token_id;
  from = tx.from_wallet.address;
  to = tx.to_wallet.address;
  amount = tx.amount;
  not_before = tx.created_at;
}

module _ (prisma : Prisma) (periods : Periods) where
  unfoldable pub is_event_listener_healthy : String → Action World Bool
  is_event_listener_healthy token_id = do
    cursor ← find_by_token_id prisma token_id
    now ← gets (λ w. w.clock)
    pure (is_healthy now periods.listener_staleness_ms cursor)

  unfoldable pub adopt : TransactionWithWallets → String → Action World (Unit {0})
  adopt transaction tx_hash = do
    mark_submitted prisma transaction.id tx_hash
    enqueue prisma (confirm_job transaction.id transaction.tenant_id)

  unfoldable pub fail : TransactionWithWallets → Action World (Unit {0})
  fail transaction = mark_failed prisma transaction.id no_evidence >> pure tt

  -- What is done when no transfer was found: wait, defer or give up.
  unfoldable pub unmatched : TransactionWithWallets → Action World (Unit {0})
  unmatched transaction = do
    now ← gets (λ w. w.clock)
    if ltb now (transaction.created_at + periods.fail_after_ms) then pure tt else (do
      healthy ← is_event_listener_healthy transaction.token_id
      if healthy then fail transaction else pure tt)

  unfoldable pub on_match : TransactionWithWallets → Option TokenTransfer → Action World (Unit {0})
  on_match transaction none = unmatched transaction
  on_match transaction (some found) = adopt transaction found.transaction_hash

  unfoldable pub recover_one : TransactionWithWallets → Action World (Unit {0})
  recover_one transaction =
      catch_error
        (do
          found ← find_matching_transfer prisma (transfer_of transaction)
          on_match transaction found)
        λ error. pure tt

  unfoldable pub recover_all : List TransactionWithWallets → Action World (Unit {0})
  recover_all [] = pure tt
  recover_all (transaction ∷ transactions) = recover_one transaction >> recover_all transactions

  -- The clock counts from 1970, so it is past the grace period.
  unfoldable pub process_orphaned_pending : Action World (Unit {0})
  process_orphaned_pending = do
    now ← gets (λ w. w.clock)
    candidates ← find_orphaned_pending_candidates prisma (now - periods.grace_ms) 100
    recover_all candidates
