-- ===== src/Schema.antt =====
-- The rows of prisma/schema.prisma that the transaction pipeline reads and writes, besides the
-- transactions themselves. A `DateTime` is its number of milliseconds, a `BigInt` a natural number.
use blockchain_transaction_s.Prelude.{
  ℕ, String, Bool, true, false, Option, none, some, List, str_eq,
}
use blockchain_transaction_s.Transaction.{Transaction}

pub data Blockchain : Type 0 where
  evm bitcoin solana : Blockchain

abbrev pub blockchain_eq : Blockchain → Blockchain → Bool
blockchain_eq evm evm = true
blockchain_eq bitcoin bitcoin = true
blockchain_eq solana solana = true
blockchain_eq _ _ = false

pub record Token : Type 0 where
  pub id : String
  pub symbol : String
  pub contract_address : Option String
  pub blockchain : Blockchain

pub record Wallet : Type 0 where
  pub id : String
  pub tenant_id : String
  pub owner_id : String
  pub chain_id : ℕ
  pub address : String

-- The JSON payload of a `transaction.confirmed` event, before its numbers and dates are printed.
pub record ConfirmedPayload : Type 0 where
  pub transaction_id : String
  pub tenant_id : String
  pub token_id : String
  pub tx_hash : Option String
  pub block_number : Option ℕ
  pub amount : ℕ
  pub confirmed_at : Option ℕ

pub record OutboxEvent : Type 0 where
  pub id : String
  pub aggregate_id : String
  pub type : String
  pub payload : ConfirmedPayload
  pub published : Bool
  pub published_at : Option ℕ
  pub created_at : ℕ

pub record TokenTransfer : Type 0 where
  pub id : String
  pub token_id : String
  pub from : String
  pub to : String
  pub amount : ℕ
  pub transaction_hash : String
  pub log_index : ℕ
  pub block_number : ℕ
  pub created_at : ℕ

pub record TokenEventCursor : Type 0 where
  pub token_id : String
  pub last_processed_block : ℕ
  pub last_processed_log_index : ℕ
  pub last_successful_sync : Option ℕ
  pub last_failed_sync : Option ℕ
  pub failure_count : ℕ

pub record BalanceSnapshot : Type 0 where
  pub id : String
  pub wallet_id : String
  pub token_id : String
  pub balance : ℕ
  pub block_number : ℕ
  pub updated_at : ℕ

-- BALANCE_CHECK_RESULTS of src/observability/reconciliation.metrics.ts
pub data BalanceCheckResult : Type 0 where
  match drift stale_observation unverified : BalanceCheckResult

-- A job of the confirmation queue; `none` stands for an identifier that the queue makes up.
pub record ConfirmationJob : Type 0 where
  pub job_id : Option String
  pub transaction_id : String
  pub tenant_id : String

abbrev pub job_named : String → ConfirmationJob → Bool
job_named id job = elim job.job_id [ none ↦ false | some name ↦ str_eq name id ]

-- A job of the outbox relay queue.
pub record RelayJob : Type 0 where
  pub name : String
  pub outbox_event_id : String
  pub aggregate_id : String
  pub payload : ConfirmedPayload
  pub job_id : String

abbrev pub relay_job_named : String → RelayJob → Bool
relay_job_named id job = str_eq job.job_id id

-- What the API and the workers share: the tables, the queues, the clock and the counters.
pub record World : Type 0 where
  pub tokens : List Token
  pub wallets : List Wallet
  pub transactions : List Transaction
  pub outbox_events : List OutboxEvent
  pub token_transfers : List TokenTransfer
  pub token_event_cursors : List TokenEventCursor
  pub confirmation_jobs : List ConfirmationJob
  pub relay_jobs : List RelayJob
  pub clock : ℕ
  pub transactions_confirmed_total : ℕ
  pub transactions_reverted_total : ℕ
  pub transactions_failed_total : ℕ
  pub balance_snapshots : List BalanceSnapshot
  -- the gauges of src/observability/reconciliation.metrics.ts; the time is in milliseconds
  pub balance_reconciliation_snapshots : Blockchain → BalanceCheckResult → ℕ
  pub balance_reconciliation_last_sweep : Option ℕ
