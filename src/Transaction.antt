-- ===== src/Transaction.antt =====
-- The row of prisma/schema.prisma `model Transaction`, and its status machine.
pub mod StateMachine
pub mod Expiration
use blockchain_transaction_s.Prelude.{ℕ, String, Option}
use StateMachine.{TransactionStatus}

pub record Transaction : Type 0 where
  pub id : String
  pub tenant_id : String
  pub token_id : String
  pub from_wallet_id : String
  pub to_wallet_id : String
  pub tx_hash : Option String
  pub amount : ℕ
  pub gas_used : Option ℕ
  pub block_number : Option ℕ
  pub status : TransactionStatus
  pub created_at : ℕ
  pub submitted_at : Option ℕ
  pub confirmation_started_at : Option ℕ
  pub confirmed_at : Option ℕ
  pub failure_reason : Option String
  pub failed_at : Option ℕ
