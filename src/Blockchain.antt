-- ===== src/Blockchain.antt =====
-- src/blockchain/blockchain-adapter.ts and blockchain-adapter.registry.ts: what the services see of a
-- chain. The nodes behind the adapters are outside the program, so each call gives what they answer
-- in the world it is made in.
use blockchain_transaction_s.Prelude.{ℕ, String, Bool, List, Option, find}
use Prim.Native.String.{◌++◌}
use blockchain_transaction_s.Effects.{Result, Action, plain, or_raise}
use blockchain_transaction_s.Schema.{Blockchain, evm, bitcoin, solana, blockchain_eq, World}

pub data ConfirmationStatus : Type 0 where
  pending confirmed failed : ConfirmationStatus

pub record BlockchainTransaction : Type 0 where
  pub tx_hash : String
  pub block_number : Option ℕ
  pub confirmations : ℕ
  pub status : ConfirmationStatus
  pub gas_used : Option ℕ

pub data CustodyType : Type 0 where
  custodial external local kms : CustodyType

pub record WalletCustodyStatus : Type 0 where
  pub custody_type : CustodyType
  pub has_custody_key : Bool

pub record TransferRequest : Type 0 where
  pub tenant_id : String
  pub wallet_id : String
  pub to_address : String
  pub amount : ℕ
  pub asset_identifier : Option String

pub record TokenBalanceRequest : Type 0 where
  pub wallet_address : String
  pub asset_identifier : Option String
  pub block_number : Option ℕ

pub record TokenBalance : Type 0 where
  pub balance : ℕ
  pub block_number : ℕ

pub record OwnershipVerificationRequest : Type 0 where
  pub address : String
  pub message : String
  pub signature : String

-- An optional method is `none` on a chain that has no such capability.
pub record BlockchainAdapter : Type 0 where
  pub chain : Blockchain
  pub can_sign : WalletCustodyStatus → Bool
  pub submit_transfer : TransferRequest → World → Result String
  pub get_transaction : String → World → Result BlockchainTransaction
  pub get_token_balance : Option (TokenBalanceRequest → World → Result TokenBalance)
  pub verify_ownership : Option (OwnershipVerificationRequest → World → Result Bool)

abbrev pub chain_text : Blockchain → String
chain_text evm = "EVM"
chain_text bitcoin = "BITCOIN"
chain_text solana = "SOLANA"

-- BlockchainAdapterRegistry.get; the names of the enumeration are in upper case already.
unfoldable pub get : List BlockchainAdapter → Blockchain → Action World BlockchainAdapter
get adapters chain =
    or_raise (find (λ candidate. blockchain_eq candidate.chain chain) adapters)
      (plain ("No blockchain adapter registered for chain: " ++ chain_text chain))
