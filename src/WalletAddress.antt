-- ===== src/WalletAddress.antt =====
-- src/blockchain/wallet-address.ts and src/blockchain/chain-ids.ts: which chain a wallet is on.
use blockchain_transaction_s.Prelude.{
  ℕ, String, Bool, true, false, Option, none, some, ◌==◌, if◌then◌else◌,
}
use blockchain_transaction_s.Schema.{Blockchain, evm, bitcoin, solana}

abbrev pub bitcoin_regtest_chain_id : ℕ
bitcoin_regtest_chain_id = 18444

abbrev pub solana_localnet_chain_id : ℕ
solana_localnet_chain_id = 900

-- `isEvmChainId` compares with the chain that EVM_CHAIN_ID configures.
unfoldable pub blockchain_for_chain_id : ℕ → ℕ → Option Blockchain
blockchain_for_chain_id evm_chain_id chain_id =
    if chain_id == evm_chain_id
    then some evm
    else if chain_id == bitcoin_regtest_chain_id
    then some bitcoin
    else if chain_id == solana_localnet_chain_id
    then some solana
    else none

-- `toLowerCase` and the pattern of the bech32 addresses are parameters.
module _ (lower_case : String → String) (is_bech32 : String → Bool) (evm_chain_id : ℕ) where
  unfoldable pub is_case_insensitive_wallet_address : ℕ → String → Bool
  is_case_insensitive_wallet_address chain_id address =
      if chain_id == evm_chain_id
      then true
      else if chain_id == bitcoin_regtest_chain_id
      then is_bech32 address
      else false

  unfoldable pub normalize_wallet_address : ℕ → String → String
  normalize_wallet_address chain_id address =
      if is_case_insensitive_wallet_address chain_id address then lower_case address else address
