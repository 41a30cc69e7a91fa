-- ===== src/BalanceDriftProcessor.antt =====
-- src/workers/balance-drift.processor.ts: every snapshot is compared with the chain at the position
-- that the indexer has processed. The checks of a batch run one after the other.
pub mod Verdict
pub mod Batches
pub mod Pages
pub mod Sweep
use blockchain_transaction_s.Prelude.{
  ℕ, zero, suc, ◌+◌, String, Bool, true, false, List, [], ◌∷◌, map, Option, none, some, str_eq,
  ◌==◌, ltb, length, take, drop, if◌then◌else◌,
}
use blockchain_transaction_s.Effects.{Action, Error, pure, modify, ◌>>=◌, ◌>>◌, catch_error}
use blockchain_transaction_s.Schema.{
  World, Blockchain, blockchain_eq, TokenEventCursor, BalanceCheckResult,
}
use blockchain_transaction_s.Prisma.{Prisma}
use blockchain_transaction_s.Blockchain.{BlockchainAdapter}
use blockchain_transaction_s.BalanceRepository.{
  SnapshotForReconciliation, find_page_for_reconciliation,
}
use blockchain_transaction_s.TokenEventCursorRepository.{find_by_token_id}
use blockchain_transaction_s.BalanceReconciliation.{
  BalanceReconciliationStatus, BalanceReconciliationRequest, BalanceReconciliationResult, reconcile,
}

abbrev pub result_eq : BalanceCheckResult → BalanceCheckResult → Bool
result_eq BalanceCheckResult.match BalanceCheckResult.match = true
result_eq BalanceCheckResult.drift BalanceCheckResult.drift = true
result_eq BalanceCheckResult.stale_observation BalanceCheckResult.stale_observation = true
result_eq BalanceCheckResult.unverified BalanceCheckResult.unverified = true
result_eq _ _ = false

abbrev pub ResultCounts : Type 0
ResultCounts = BalanceCheckResult → ℕ

pub record BalanceDriftSweepSummary : Type 0 where
  pub checked : ℕ
  -- `none` for a chain that has no key yet
  pub by_blockchain : Blockchain → Option ResultCounts

-- The cache of the sweep, from tokens to frontiers; the latest entry first.
abbrev pub Frontier : Type 0
Frontier = List (String × Option ℕ)

abbrev pub lookup : String → Frontier → Option (Option ℕ)
lookup token_id [] = none
lookup token_id ((id, frontier) ∷ cache) =
    if str_eq id token_id then some frontier else lookup token_id cache

abbrev pub empty_counts : ResultCounts
empty_counts result = 0

abbrev pub counts_or_empty : Option ResultCounts → ResultCounts
counts_or_empty none = empty_counts
counts_or_empty (some counts) = counts

abbrev pub increment : BalanceCheckResult → ResultCounts → ResultCounts
increment result counts r = if result_eq r result then counts r + 1 else counts r

unfoldable pub tally :
    BalanceDriftSweepSummary → Blockchain → BalanceCheckResult → BalanceDriftSweepSummary
tally summary blockchain result = record {
  checked = summary.checked + 1;
  by_blockchain = λ chain.
      if blockchain_eq chain blockchain
      then some (increment result (counts_or_empty (summary.by_blockchain chain)))
      else summary.by_blockchain chain;
}

-- A cursor at 0 has no frontier.
abbrev pub frontier_at : Option TokenEventCursor → Option ℕ
frontier_at none = none
frontier_at (some c) = if ltb 0 c.last_processed_block then some c.last_processed_block else none

abbrev pub check_result : BalanceReconciliationStatus → BalanceCheckResult
check_result BalanceReconciliationStatus.match = BalanceCheckResult.match
check_result BalanceReconciliationStatus.stale_observation = BalanceCheckResult.stale_observation
check_result BalanceReconciliationStatus.mismatch = BalanceCheckResult.drift

abbrev pub or_null : Option (Option ℕ) → Option ℕ
or_null none = none
or_null (some frontier) = frontier

-- `[...new Set(ids)]`
abbrev pub included : String → List String → Bool
included id [] = false
included id (x ∷ xs) = if str_eq x id then true else included id xs

abbrev pub distinct_from : List String → List String → List String
distinct_from seen [] = []
distinct_from seen (id ∷ ids) =
    let rest = distinct_from (id ∷ seen) ids in
    if included id seen then distinct_from seen ids else id ∷ rest

abbrev pub last_id : SnapshotForReconciliation → List SnapshotForReconciliation → String
last_id row [] = row.id
last_id row (next ∷ rows) = last_id next rows

module _ (prisma : Prisma) (adapters : List BlockchainAdapter) (evm_chain_id : ℕ) where
  unfoldable pub resolve_frontier : String → Frontier → Action World Frontier
  resolve_frontier token_id cache = elim (lookup token_id cache) [
    | some frontier ↦ pure cache
    | none ↦ (do
      cursor ← find_by_token_id prisma token_id
      pure ((token_id, frontier_at cursor) ∷ cache))
  ]

  unfoldable pub resolve_all : List String → Frontier → Action World Frontier
  resolve_all [] cache = pure cache
  resolve_all (id ∷ ids) cache = resolve_frontier id cache >>= resolve_all ids

  abbrev pub request_of : SnapshotForReconciliation → ℕ → BalanceReconciliationRequest
  request_of row frontier = record {
    wallet_id = row.wallet_id;
    wallet_address = row.wallet.address;
    wallet_chain_id = row.wallet.chain_id;
    token_id = row.token_id;
    blockchain = row.token.blockchain;
    asset_identifier = row.token.contract_address;
    block_number = some frontier;
  }

  unfoldable pub check_one : SnapshotForReconciliation → Option ℕ → Action World BalanceCheckResult
  check_one row none = pure BalanceCheckResult.unverified
  check_one row (some frontier) =
      catch_error
        (do
          result ← reconcile prisma adapters evm_chain_id (request_of row frontier)
          pure (check_result result.status))
        λ error. pure BalanceCheckResult.unverified

  unfoldable pub check_rows :
      Frontier
      → List SnapshotForReconciliation
      → BalanceDriftSweepSummary
      → Action World BalanceDriftSweepSummary
  check_rows frontier [] summary = pure summary
  check_rows frontier (row ∷ rows) summary = do
    result ← check_one row (or_null (lookup row.token_id frontier))
    check_rows frontier rows (tally summary row.token.blockchain result)

  -- One round of the loop over the batches of a page.
  unfoldable pub check_batch :
      List SnapshotForReconciliation
      → Frontier × BalanceDriftSweepSummary
      → Action World (Frontier × BalanceDriftSweepSummary)
  check_batch batch (cache, summary) = do
    frontier ←
        resolve_all (distinct_from [] (map (λ (r : SnapshotForReconciliation). r.token_id) batch))
          cache
    counted ← check_rows frontier batch summary
    pure (frontier, counted)

  module _ (page_size concurrency : ℕ) where
    -- The loop over the batches; `none` if the fuel is used up.
    unfoldable pub check_page :
        ℕ
        → List SnapshotForReconciliation
        → Frontier × BalanceDriftSweepSummary
        → Action World (Option (Frontier × BalanceDriftSweepSummary))
    check_page fuel [] so_far = pure (some so_far)
    check_page zero (row ∷ rows) so_far = pure none
    check_page (suc fuel) (row ∷ rows) so_far =
        check_batch (take concurrency (row ∷ rows)) so_far
        >>= check_page fuel (drop concurrency (row ∷ rows))

    -- The gauges of every chain and result are written.
    unfoldable pub publish : BalanceDriftSweepSummary → Action World (Unit {0})
    publish summary =
        modify
          (λ w. record w {
            balance_reconciliation_snapshots =
                λ chain. counts_or_empty (summary.by_blockchain chain);
            balance_reconciliation_last_sweep = some w.clock;
          })
          tt

    abbrev pub finish : BalanceDriftSweepSummary → Action World (Option BalanceDriftSweepSummary)
    finish summary = publish summary >> pure (some summary)

    -- One round of the loop over the pages, up to where it goes on or stops.
    unfoldable pub on_page :
        (Option String
          → Frontier × BalanceDriftSweepSummary
          → Action World (Option BalanceDriftSweepSummary))
        → Frontier × BalanceDriftSweepSummary
        → List SnapshotForReconciliation
        → Action World (Option BalanceDriftSweepSummary)
    on_page go_on so_far [] = finish so_far.1
    on_page go_on so_far (row ∷ rows) =
        check_page (length (row ∷ rows)) (row ∷ rows) so_far >>= λ checked. elim checked [
          | none ↦ pure none
          | some so_far' ↦
              if ltb (length (row ∷ rows)) page_size
              then finish so_far'.1
              else go_on (some (last_id row rows)) so_far'
        ]

    -- The loop over the pages; `none` if the fuel is used up.
    unfoldable pub sweep_from :
        ℕ
        → Option String
        → Frontier × BalanceDriftSweepSummary
        → Action World (Option BalanceDriftSweepSummary)
    sweep_from zero after_id so_far = pure none
    sweep_from (suc fuel) after_id so_far =
        find_page_for_reconciliation prisma after_id page_size >>= on_page (sweep_from fuel) so_far

    unfoldable pub sweep : ℕ → Action World (Option BalanceDriftSweepSummary)
    sweep fuel = sweep_from fuel none ([], record { checked = 0; by_blockchain = λ chain. none })
