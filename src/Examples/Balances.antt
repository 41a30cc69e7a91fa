-- ===== src/Examples/Balances.antt =====
-- Two snapshots that are observed and then compared with the chain.
use blockchain_transaction_s.Prelude.{
  ℕ, ◌<◌, ◌≡◌, ◌⊎◌, refl, String, ◌&&◌, List, [], ◌∷◌, none, some, count_where, find, arith, eq_iff,
  str_eq, inl, inr, Bool-cases,
}
use blockchain_transaction_s.Effects.{ok, Process, ◌>>=◌, catch_error}
use blockchain_transaction_s.Schema.{
  World, BalanceSnapshot, Blockchain, BalanceCheckResult, blockchain_eq,
}
use blockchain_transaction_s.Blockchain.{confirmed, get}
use blockchain_transaction_s.BalanceRepository.{
  BalanceData, of_wallet_token, selected, upsert, update_older, after_update, create_snapshot,
  on_create_error, find_unique_or_throw, find as find_snapshot, find_page_for_reconciliation,
}
use blockchain_transaction_s.TokenEventCursorRepository.{find_by_token_id}
use blockchain_transaction_s.BalanceReconciliation.{reconcile, compared}
use blockchain_transaction_s.WalletAddress.{blockchain_for_chain_id}
use blockchain_transaction_s.BalanceRepository.Latest.{
  View, Represents, observe_all, quiet, Upserted,
}
use blockchain_transaction_s.BalanceRepository.Refinement.{
  upsert_all, upsert_all-Represents, upsert-later,
}
use blockchain_transaction_s.BalanceRepository.Newer.{upsert-NeverOlder}
use blockchain_transaction_s.BalanceDriftProcessor.{
  BalanceDriftSweepSummary, sweep, result_eq, sweep_from, on_page, publish, check_page, check_batch,
  resolve_all, resolve_frontier, check_rows, check_one, tally,
}
use blockchain_transaction_s.BalanceDriftProcessor.Pages.{Unique}
use blockchain_transaction_s.BalanceDriftProcessor.Verdict.{verdict}
use blockchain_transaction_s.BalanceDriftProcessor.Sweep.{sweep-counts}
use blockchain_transaction_s.Examples.InMemory.{
  prisma, prisma-IsPrisma, prisma-IsSnapshotTable, prisma-IsPaged, world,
}
use blockchain_transaction_s.Examples.Confirmation.{adapter}

abbrev observation : String → ℕ → ℕ → BalanceData
observation wallet_id balance block_number = record {
  wallet_id = wallet_id;
  token_id = "token-1";
  balance = balance;
  block_number = block_number;
}

-- The latest observation of the first wallet comes before a replayed one.
abbrev observations : List BalanceData
observations = observation "w1" 70 41 ∷ observation "w1" 100 42 ∷ observation "w1" 70 41 ∷ []

abbrev nothing : View
nothing wallet_id token_id = none

upsert_all-Represents_example :
    (v : World) × (upsert_all prisma observations (quiet (world [])) ≡ (ok tt, quiet v))
    × Represents v (observe_all observations nothing)
upsert_all-Represents_example =
    upsert_all-Represents prisma prisma-IsPrisma prisma-IsSnapshotTable observations (world [])
      nothing (λ a b. refl)

upsert-later_example :
    Upserted
      (observation "w1" 70 41)
      nothing
      (upsert prisma (observation "w1" 70 41) (quiet (world [])))
upsert-later_example =
    upsert-later prisma prisma-IsPrisma prisma-IsSnapshotTable (observation "w1" 70 41) (world [])
      nothing (λ a b. refl)

abbrev snapshot : String → String → ℕ → ℕ → BalanceSnapshot
snapshot id wallet_id balance block_number = record {
  id = id;
  wallet_id = wallet_id;
  token_id = "token-1";
  balance = balance;
  block_number = block_number;
  updated_at = 4000;
}

abbrev observed : World
observed = record (world []) {
  balance_snapshots = snapshot "s1" "w1" 100 42 ∷ snapshot "s2" "w2" 70 41 ∷ [];
  token_event_cursors =
      record {
        token_id = "token-1";
        last_processed_block = 42;
        last_processed_log_index = 0;
        last_successful_sync = none;
        last_failed_sync = none;
        failure_count = 0;
      }
      ∷ [];
}

upsert-NeverOlder_example :
    (s' : BalanceSnapshot) × (find
        (of_wallet_token "w1" "token-1")
        (upsert prisma (observation "w1" 70 41) (quiet observed)).1.world.balance_snapshots
      ≡ some s')
    × ((42 < s'.block_number) ⊎ ((s'.block_number ≡ 42) × (s'.balance ≡ 100)))
upsert-NeverOlder_example =
    upsert-NeverOlder prisma prisma-IsPrisma prisma-IsSnapshotTable (observation "w1" 70 41)
      (quiet observed) tt "w1" "token-1" (snapshot "s1" "w1" 100 42) (omega arith) refl

observed-Unique : Unique observed.balance_snapshots
observed-Unique id = elim (Bool-cases (str_eq "s1" id)) [
  | inl same ↦ let e = (eq_iff "s1" id).0 same in rw (← e) (omega arith)
  | inr other ↦ rw other (elim (Bool-cases (str_eq "s2" id)) [
    | inl here ↦ rw here (omega arith)
    | inr there ↦ rw there (omega arith)
  ])
]

-- The first snapshot matches the chain, and the second has drifted.
counted :
    (sweep prisma (adapter confirmed ∷ []) 31337 1 5 3 (quiet observed)
        ).1.world.balance_reconciliation_snapshots
      Blockchain.evm BalanceCheckResult.drift
    ≡ 1
unfolding sweep sweep_from on_page publish check_page check_batch resolve_all resolve_frontier
    find_by_token_id check_rows check_one reconcile compared get find_page_for_reconciliation
    find_snapshot tally blockchain_for_chain_id ◌>>=◌ catch_error
counted = refl

-- Another worker records block 5 between the two statements of an `upsert` of block 10.
abbrev raced : Process World
raced = record {
  world = world [];
  turns =
      record { step = λ w. w; fault = none }
      ∷ record {
        step = λ w. record w { balance_snapshots = snapshot "s1" "w1" 50 5 ∷ [] };
        fault = none;
      }
      ∷ [];
}

-- The observation of block 10 is then lost.
raced_older :
    (upsert prisma (observation "w1" 100 10) raced).1.world.balance_snapshots
    ≡ snapshot "s1" "w1" 50 5 ∷ []
unfolding upsert update_older after_update create_snapshot on_create_error find_unique_or_throw
    find_snapshot ◌>>=◌ catch_error
raced_older = refl

sweep-counts_example :
    let o = sweep prisma (adapter confirmed ∷ []) 31337 1 5 3 (quiet observed) in
    (summary : BalanceDriftSweepSummary) × (o.0 ≡ ok (some summary))
    × (summary.checked ≡ 2)
    × ((chain : Blockchain) (result : BalanceCheckResult)
        → o.1.world.balance_reconciliation_snapshots chain result
          ≡ count_where
              (λ s.
                blockchain_eq chain (selected prisma s).token.blockchain
                && result_eq result
                    (verdict prisma (adapter confirmed ∷ []) 31337 observed (selected prisma s)))
              observed.balance_snapshots)
sweep-counts_example =
    sweep-counts prisma prisma-IsPrisma (adapter confirmed ∷ []) 31337 observed prisma-IsPaged 0 4 3
      observed-Unique (omega arith)
