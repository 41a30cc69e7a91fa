-- ===== src/DeploySafety/Verdict.antt =====
-- Which deployments the check allows.
use blockchain_transaction_s.Prelude.{
  ◌≤◌, ◌<◌, ◌≡◌, ◌≢◌, ◌↔◌, ◌⊎◌, inl, inr, refl, String, false, List, [], ◌∷◌, none, ◌==◌, str_eq,
  eq_iff, Bool-cases, arith,
}
use blockchain_transaction_s.DeploySafety.{
  anvil_chain_id, DeployCheckInput, is_local_chain, has, is_well_known_dev_account,
  assert_deploy_allowed,
}

-- The text differs from all of these.
abbrev pub IsNoneOf : List String → String → Type 0
IsNoneOf [] text = Unit
IsNoneOf (x ∷ xs) text = (text ≢ x) × IsNoneOf xs text

has-IsNoneOf : (xs : List String) (text : String) → has xs text ≡ false → IsNoneOf xs text
unfolding has
has-IsNoneOf [] text h = tt
has-IsNoneOf (x ∷ xs) text h = elim (Bool-cases (str_eq text x)) [
  | inl same ↦ absurd (ground arith)
  | inr other ↦ (λ e. let same = (eq_iff text x).1 e in cc, has-IsNoneOf xs text (ground arith))
]

IsNoneOf-has : (xs : List String) (text : String) → IsNoneOf xs text → has xs text ≡ false
unfolding has
IsNoneOf-has [] text h = refl
IsNoneOf-has (x ∷ xs) text (differs, more) = elim (Bool-cases (str_eq text x)) [
  | inl same ↦ absurd (differs ((eq_iff text x).0 same))
  | inr other ↦ rw other (IsNoneOf-has xs text more)
]

module _ (lower_case : String → String) (well_known_dev_addresses : List String)
    (input : DeployCheckInput) where
  abbrev pub CanDeploy : Type 0
  CanDeploy =
      (input.rpc_chain_id ≡ input.configured_chain_id)
      × (((input.configured_chain_id ≡ anvil_chain_id)
            ⊎ IsNoneOf well_known_dev_addresses (lower_case input.deployer_address))
          × ((0 < input.balance) × (input.estimated_cost ≤ input.balance)))

  allowed : assert_deploy_allowed lower_case well_known_dev_addresses input ≡ none → CanDeploy
  unfolding assert_deploy_allowed is_local_chain is_well_known_dev_account
  allowed h = (ground arith, (safe, (ground arith, ground arith)))
    where
      safe :
          (input.configured_chain_id ≡ anvil_chain_id)
          ⊎ IsNoneOf well_known_dev_addresses (lower_case input.deployer_address)
      safe = elim (Bool-cases (input.configured_chain_id == anvil_chain_id)) [
        | inl here ↦ inl (ground arith)
        | inr live ↦ inr (
            has-IsNoneOf well_known_dev_addresses (lower_case input.deployer_address)
              (ground arith))
      ]

  accepted : CanDeploy → assert_deploy_allowed lower_case well_known_dev_addresses input ≡ none
  unfolding assert_deploy_allowed is_local_chain is_well_known_dev_account
  accepted (chain, (inl here, (funds, enough))) = ground arith
  accepted (chain, (inr safe, (funds, enough))) =
      let unknown =
        IsNoneOf-has well_known_dev_addresses (lower_case input.deployer_address) safe in
      ground arith

-- A deployment is allowed exactly when the node serves the chain that is configured, the deployer is
-- no well-known development account unless that chain is the local one, and its balance is not zero
-- and covers the estimated cost.
pub assert_deploy_allowed_iff :
    (lower_case : String → String) (well_known_dev_addresses : List String)
    (input : DeployCheckInput)
    → (assert_deploy_allowed lower_case well_known_dev_addresses input ≡ none)
      ↔ CanDeploy lower_case well_known_dev_addresses input
assert_deploy_allowed_iff lower_case well_known_dev_addresses input = (
  allowed lower_case well_known_dev_addresses input,
  accepted lower_case well_known_dev_addresses input,
)
