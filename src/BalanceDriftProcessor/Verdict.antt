-- ===== src/BalanceDriftProcessor/Verdict.antt =====
-- What a check of one snapshot says, as a function of the tables and the chain.
use blockchain_transaction_s.Prelude.{
  ℕ, ◌≡◌, refl, Bool, true, false, List, Option, none, some, ◌==◌, ltb, if◌then◌else◌, inl, inr,
  Bool-cases, Option-cases, find,
}
use blockchain_transaction_s.Effects.{Error, Result, ok, err, Action, ◌>>=◌, catch_error, plain}
use blockchain_transaction_s.Schema.{World, BalanceSnapshot, BalanceCheckResult, blockchain_eq}
use blockchain_transaction_s.Prisma.{Prisma, IsPrisma}
use Prim.Native.String.{◌++◌}
use blockchain_transaction_s.Errors.{wallet_token_chain_mismatch, unsupported_chain_capability}
use blockchain_transaction_s.Blockchain.{
  chain_text, BlockchainAdapter, TokenBalance, TokenBalanceRequest, get,
}
use blockchain_transaction_s.WalletAddress.{blockchain_for_chain_id}
use blockchain_transaction_s.BalanceRepository.{
  SnapshotForReconciliation, of_wallet_token, find as find_snapshot,
}
use blockchain_transaction_s.BalanceRepository.Latest.{quiet}
use blockchain_transaction_s.TokenEventCursorRepository.{cursor}
use blockchain_transaction_s.BalanceReconciliation.{
  BalanceReconciliationResult, is_on, compared, reconcile,
}
use blockchain_transaction_s.BalanceDriftProcessor.{
  frontier_at, check_one, check_result, request_of,
}

abbrev pub value : {A : Type 0} → Result A → Option A
value (ok a) = some a
value (err e) = none

module _ (prisma : Prisma) (adapters : List BlockchainAdapter) (evm_chain_id : ℕ) where
  -- The adapter of a chain, if there is one and it can read balances.
  abbrev pub reader :
      SnapshotForReconciliation → Option (TokenBalanceRequest → World → Result TokenBalance)
  reader row = elim (find (λ a. blockchain_eq a.chain row.token.blockchain) adapters) [
    | none ↦ none
    | some adapter ↦ adapter.get_token_balance
  ]

  -- What the chain says at a position, if the wallet is on the token's chain and it can be read.
  abbrev pub chain_balance : World → SnapshotForReconciliation → ℕ → Option TokenBalance
  chain_balance w row position =
      if is_on (blockchain_for_chain_id evm_chain_id row.wallet.chain_id) row.token.blockchain
      then elim (reader row) [
        | none ↦ none
        | some read ↦ value (
            read
              (record {
                wallet_address = row.wallet.address;
                asset_identifier = row.token.contract_address;
                block_number = some position;
              })
              w)
      ]
      else none

  abbrev pub judged : Option BalanceSnapshot → Option TokenBalance → BalanceCheckResult
  judged s none = BalanceCheckResult.unverified
  judged none (some chain) = BalanceCheckResult.drift
  judged (some s) (some chain) =
      if ltb chain.block_number s.block_number
      then BalanceCheckResult.stale_observation
      else if s.balance == chain.balance
      then BalanceCheckResult.match
      else BalanceCheckResult.drift

  abbrev pub verdict_at : World → SnapshotForReconciliation → Option ℕ → BalanceCheckResult
  verdict_at w row none = BalanceCheckResult.unverified
  verdict_at w row (some position) =
      judged (find (of_wallet_token row.wallet_id row.token_id) w.balance_snapshots)
        (chain_balance w row position)

  -- The verdict on a snapshot: the position is the one that the indexer has processed.
  abbrev pub verdict : World → SnapshotForReconciliation → BalanceCheckResult
  verdict w row = verdict_at w row (frontier_at (cursor prisma row.token_id w))

  module _ (laws : IsPrisma prisma) (w : World) (row : SnapshotForReconciliation) where
    judged-compared :
        (s : Option BalanceSnapshot) (chain : TokenBalance) (position : ℕ)
        → check_result
            (compared (request_of prisma adapters evm_chain_id row position) chain s).status
          ≡ judged s (some chain)
    unfolding compared
    judged-compared none chain position = refl
    judged-compared (some s) chain position =
        elim (Bool-cases (ltb chain.block_number s.block_number)) [
          | inl stale ↦ rw stale refl
          | inr fresh ↦ rw fresh (elim (Bool-cases (s.balance == chain.balance)) [
            | inl same ↦ rw same refl
            | inr other ↦ rw other refl
          ])
        ]

    module _ (position : ℕ) where
      abbrev here : Option BalanceSnapshot
      here = find (of_wallet_token row.wallet_id row.token_id) w.balance_snapshots

      abbrev reconciled : Action World BalanceReconciliationResult
      reconciled =
          reconcile prisma adapters evm_chain_id
            (request_of prisma adapters evm_chain_id row position)

      abbrev is_on_chain : Bool
      is_on_chain =
          is_on (blockchain_for_chain_id evm_chain_id row.wallet.chain_id) row.token.blockchain

      abbrev adapter_of : Option BlockchainAdapter
      adapter_of = find (λ a. blockchain_eq a.chain row.token.blockchain) adapters

      abbrev balance_request : TokenBalanceRequest
      balance_request = record {
        wallet_address = row.wallet.address;
        asset_identifier = row.token.contract_address;
        block_number = some position;
      }

      abbrev outcome : Result BalanceReconciliationResult → BalanceCheckResult
      outcome (ok r) = check_result r.status
      outcome (err e) = BalanceCheckResult.unverified

      check_one-outcome :
          (r : Result BalanceReconciliationResult)
          → reconciled (quiet w) ≡ (r, quiet w)
          → check_one prisma adapters evm_chain_id row (some position) (quiet w)
            ≡ (ok (outcome r), quiet w)
      unfolding check_one catch_error ◌>>=◌
      check_one-outcome (ok r) e = rw (e, catch_error, ◌>>=◌) refl
      check_one-outcome (err x) e = rw (e, catch_error, ◌>>=◌) refl

      abbrev Checked : Type 0
      Checked =
          check_one prisma adapters evm_chain_id row (some position) (quiet w)
          ≡ (ok (verdict_at w row (some position)), quiet w)

      off_chain : is_on_chain ≡ false → Checked
      unfolding reconcile
      off_chain off = rw off (
          check_one-outcome
            (err
              (wallet_token_chain_mismatch row.wallet.chain_id (chain_text row.token.blockchain)))
            (rw (off, reconcile) refl))

      no_adapter : is_on_chain ≡ true → adapter_of ≡ none → Checked
      unfolding reconcile get ◌>>=◌
      no_adapter on nobody = rw on (
          rw nobody (
            check_one-outcome
              (err (
                plain (
                  "No blockchain adapter registered for chain: "
                  ++ chain_text row.token.blockchain)))
              (rw (on, reconcile) (rw (nobody, ◌>>=◌, get) refl))))

      no_reader :
          (adapter : BlockchainAdapter)
          → is_on_chain ≡ true
          → adapter_of ≡ some adapter
          → adapter.get_token_balance ≡ none
          → Checked
      unfolding reconcile get ◌>>=◌
      no_reader adapter on found cannot = rw on (
          rw found (
            rw cannot (
              check_one-outcome
                (err (
                  unsupported_chain_capability "balance reconciliation"
                    (chain_text row.token.blockchain)))
                (rw (on, reconcile) (rw (found, ◌>>=◌, get) (rw (cannot, ◌>>=◌) refl))))))

      module _ (adapter : BlockchainAdapter)
          (read : TokenBalanceRequest → World → Result TokenBalance) (on : is_on_chain ≡ true)
          (found : adapter_of ≡ some adapter) (can : adapter.get_token_balance ≡ some read) where
        unreadable : (e : Error) → read balance_request w ≡ err e → Checked
        unfolding reconcile get ◌>>=◌ find_snapshot
        unreadable e failed = rw on (
            rw found (
              rw can (
                rw failed (
                  check_one-outcome (err e) (
                    rw (on, reconcile)
                      (rw (found, ◌>>=◌, get) (rw (can, ◌>>=◌) (rw (failed, ◌>>=◌) refl))))))))

        readable : (chain : TokenBalance) → read balance_request w ≡ ok chain → Checked
        unfolding reconcile get ◌>>=◌ find_snapshot
        readable chain answered = rw on (
            rw found (
              rw can (
                rw answered (
                  rw (← judged-compared here chain position) (
                    check_one-outcome
                      (ok (
                        compared (request_of prisma adapters evm_chain_id row position) chain here))
                      (rw (on, reconcile)
                        (rw (found, ◌>>=◌, get)
                          (rw (can, ◌>>=◌)
                            (rw (answered, ◌>>=◌)
                              (rw
                                (laws.balance_snapshot_lem.find_first_lem
                                  (of_wallet_token row.wallet_id row.token_id) w.balance_snapshots)
                                refl))))))))))

        by_answer : (r : Result TokenBalance) → read balance_request w ≡ r → Checked
        by_answer (ok chain) e = readable chain e
        by_answer (err x) e = unreadable x e

      checked : Checked
      checked = elim (Bool-cases is_on_chain) [
        | inr off ↦ off_chain off
        | inl on ↦ elim (Option-cases adapter_of) [
          | inl nobody ↦ no_adapter on nobody
          | inr (adapter, found) ↦ elim (Option-cases adapter.get_token_balance) [
            | inl cannot ↦ no_reader adapter on found cannot
            | inr (read, can) ↦ by_answer adapter read on found can (read balance_request w) refl
          ]
        ]
      ]

    -- A check among nobody else gives the verdict, and changes nothing.
    pub check_one-verdict_at :
        (position : Option ℕ)
        → check_one prisma adapters evm_chain_id row position (quiet w)
          ≡ (ok (verdict_at w row position), quiet w)
    unfolding check_one
    check_one-verdict_at none = refl
    check_one-verdict_at (some position) = checked position
