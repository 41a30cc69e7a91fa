-- ===== src/Examples/Deploying.antt =====
-- A deployment to a live chain that has the funds, and one from a public account.
use blockchain_transaction_s.Prelude.{◌≡◌, ◌↔◌, refl, String, List, [], ◌∷◌, none, some}
use blockchain_transaction_s.DeploySafety.{
  DeployCheckInput, is_local_chain, has, public_key, is_well_known_dev_account,
  assert_deploy_allowed,
}
use blockchain_transaction_s.DeploySafety.Verdict.{CanDeploy, assert_deploy_allowed_iff}

abbrev dev_addresses : List String
dev_addresses = "0xf39f" ∷ "0x7099" ∷ []

abbrev as_it_is : String → String
as_it_is text = text

abbrev live : DeployCheckInput
live = record {
  configured_chain_id = 11155111;
  rpc_chain_id = 11155111;
  deployer_address = "0xabcd";
  balance = 900;
  estimated_cost = 700;
}

abbrev public_deployer : DeployCheckInput
public_deployer = record live { deployer_address = "0x7099" }

may_deploy : assert_deploy_allowed as_it_is dev_addresses live ≡ none
unfolding assert_deploy_allowed is_local_chain is_well_known_dev_account has
may_deploy = refl

refused :
    assert_deploy_allowed as_it_is dev_addresses public_deployer ≡ some (public_key public_deployer)
unfolding assert_deploy_allowed is_local_chain is_well_known_dev_account has
refused = refl

assert_deploy_allowed_iff_example :
    (assert_deploy_allowed as_it_is dev_addresses live ≡ none)
    ↔ CanDeploy as_it_is dev_addresses live
assert_deploy_allowed_iff_example = assert_deploy_allowed_iff as_it_is dev_addresses live
