-- ===== src/DeploySafety.antt =====
-- src/blockchain/evm/deploy-safety.ts: whether a contract may be deployed now. The addresses that
-- are derived from the public mnemonic and `toLowerCase` are parameters.
pub mod Verdict
use blockchain_transaction_s.Prelude.{
  ℕ, String, Bool, true, false, ◌&&◌, ◌||◌, not, List, [], ◌∷◌, Option, none, some, ◌==◌, ltb,
  str_eq, if◌then◌else◌,
}
use Prim.Native.String.{◌++◌}
use blockchain_transaction_s.Errors.{number_text}

abbrev pub anvil_chain_id : ℕ
anvil_chain_id = 31337

pub record DeployCheckInput : Type 0 where
  pub configured_chain_id : ℕ
  pub rpc_chain_id : ℕ
  pub deployer_address : String
  pub balance : ℕ
  pub estimated_cost : ℕ

unfoldable pub is_local_chain : ℕ → Bool
is_local_chain chain_id = chain_id == anvil_chain_id

-- `has` of a set
unfoldable pub has : List String → String → Bool
has [] text = false
has (x ∷ xs) text = str_eq text x || has xs text

-- The messages of the errors.
abbrev pub wrong_chain : DeployCheckInput → String
wrong_chain input =
    "RPC_URL serves chain "
    ++ (number_text input.rpc_chain_id
        ++ (" but EVM_CHAIN_ID is "
            ++ (number_text input.configured_chain_id
                ++ (". Refusing to deploy to a network you did not configure. Set EVM_CHAIN_ID to the "
                    ++ "chain you mean to deploy to, and check RPC_URL points at it."))))

abbrev pub public_key : DeployCheckInput → String
public_key input =
    input.deployer_address
    ++ (" is a well-known development account (Anvil/Hardhat default). "
        ++ ("Its private key is public, so anyone could mint or pause a token it owns. Generate a "
            ++ "fresh key for this network."))

abbrev pub no_funds : DeployCheckInput → String
no_funds input =
    input.deployer_address
    ++ (" has no funds on chain "
        ++ (number_text input.configured_chain_id
            ++ (". " ++ "Send it enough native token to pay for deployment gas, then re-run.")))

abbrev pub too_little : DeployCheckInput → String
too_little input =
    input.deployer_address
    ++ (" holds "
        ++ (number_text input.balance
            ++ (" wei but deployment is estimated to cost about "
                ++ (number_text input.estimated_cost ++ " wei. Add funds and re-run."))))

module _ (lower_case : String → String) (well_known_dev_addresses : List String) where
  unfoldable pub is_well_known_dev_account : String → Bool
  is_well_known_dev_account address = has well_known_dev_addresses (lower_case address)

  -- The message of the `DeploySafetyError` that is thrown, if one is.
  unfoldable pub assert_deploy_allowed : DeployCheckInput → Option String
  assert_deploy_allowed input =
      if not (input.rpc_chain_id == input.configured_chain_id)
      then some (wrong_chain input)
      else if not (is_local_chain input.configured_chain_id)
          && is_well_known_dev_account input.deployer_address
      then some (public_key input)
      else if input.balance == 0
      then some (no_funds input)
      else if ltb input.balance input.estimated_cost
      then some (too_little input)
      else none
