-- ===== src/BalanceReconciliation.antt =====
-- src/services/balance-reconciliation.service.ts: a snapshot is compared with the chain.
use blockchain_transaction_s.Prelude.{
  ℕ, String, Bool, false, not, List, Option, none, some, ◌==◌, ltb, if◌then◌else◌,
}
use blockchain_transaction_s.Effects.{Action, pure, raise, call, or_raise, ◌>>=◌}
use blockchain_transaction_s.Errors.{wallet_token_chain_mismatch, unsupported_chain_capability}
use blockchain_transaction_s.Schema.{World, Blockchain, BalanceSnapshot, blockchain_eq}
use blockchain_transaction_s.Prisma.{Prisma}
use blockchain_transaction_s.Blockchain.{BlockchainAdapter, TokenBalance, get, chain_text}
use blockchain_transaction_s.WalletAddress.{blockchain_for_chain_id}
use blockchain_transaction_s.BalanceRepository.{find}

pub data BalanceReconciliationStatus : Type 0 where
  match mismatch stale_observation : BalanceReconciliationStatus

pub record BalanceReconciliationRequest : Type 0 where
  pub wallet_id : String
  pub wallet_address : String
  pub wallet_chain_id : ℕ
  pub token_id : String
  pub blockchain : Blockchain
  pub asset_identifier : Option String
  pub block_number : Option ℕ

pub record BalanceReconciliationResult : Type 0 where
  pub status : BalanceReconciliationStatus
  pub blockchain : Blockchain
  pub wallet_id : String
  pub token_id : String
  pub persisted : Option TokenBalance
  pub chain : TokenBalance

-- `blockchainForChainId(chainId) === blockchain`
abbrev pub is_on : Option Blockchain → Blockchain → Bool
is_on none blockchain = false
is_on (some chain) blockchain = blockchain_eq chain blockchain

abbrev pub persisted_view : BalanceSnapshot → TokenBalance
persisted_view s = record { balance = s.balance; block_number = s.block_number }

-- What is returned for the snapshot, if there is one, and the balance on the chain.
unfoldable pub compared :
    BalanceReconciliationRequest
    → TokenBalance
    → Option BalanceSnapshot
    → BalanceReconciliationResult
compared request chain none = record {
  status = mismatch;
  blockchain = request.blockchain;
  wallet_id = request.wallet_id;
  token_id = request.token_id;
  persisted = none;
  chain = chain;
}
compared request chain (some s) = record {
  status =
      if ltb chain.block_number s.block_number
      then stale_observation
      else if s.balance == chain.balance
      then match
      else mismatch;
  blockchain = request.blockchain;
  wallet_id = request.wallet_id;
  token_id = request.token_id;
  persisted = some (persisted_view s);
  chain = chain;
}

module _ (prisma : Prisma) (adapters : List BlockchainAdapter) (evm_chain_id : ℕ) where
  unfoldable pub reconcile : BalanceReconciliationRequest → Action World BalanceReconciliationResult
  reconcile request =
      if not
        (is_on (blockchain_for_chain_id evm_chain_id request.wallet_chain_id) request.blockchain)
      then raise
          (wallet_token_chain_mismatch request.wallet_chain_id (chain_text request.blockchain))
      else (do
        adapter ← get adapters request.blockchain
        get_token_balance ←
            or_raise adapter.get_token_balance (
              unsupported_chain_capability "balance reconciliation" (chain_text request.blockchain))
        persisted ← find prisma request.wallet_id request.token_id
        chain ← call λ w. (
          get_token_balance
              (record {
                wallet_address = request.wallet_address;
                asset_identifier = request.asset_identifier;
                block_number = request.block_number;
              })
              w,
          w,
        )
        pure (compared request chain persisted))
