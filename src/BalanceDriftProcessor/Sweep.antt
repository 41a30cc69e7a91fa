-- ===== src/BalanceDriftProcessor/Sweep.antt =====
-- A sweep checks every snapshot once, and its gauges count the verdicts.
use blockchain_transaction_s.Prelude.{
  ℕ, zero, suc, ◌+◌, ◌≤◌, ◌<◌, ◌≡◌, refl, sym, ◌∙◌, String, Bool, true, ◌&&◌, List, [], ◌∷◌, ◌++◌,
  map, Option, none, some, if◌then◌else◌, inl, inr, Bool-cases, length, take, drop, arith,
  count_where, ltb,
}
use blockchain_transaction_s.Effects.{ok, ◌>>=◌}
use blockchain_transaction_s.Schema.{
  World, BalanceSnapshot, Blockchain, blockchain_eq, BalanceCheckResult,
}
use blockchain_transaction_s.Prisma.{Prisma, IsPrisma}
use blockchain_transaction_s.Blockchain.{BlockchainAdapter}
use blockchain_transaction_s.BalanceRepository.{
  SnapshotForReconciliation, selected, has_snapshot_id, find_page_for_reconciliation,
}
use blockchain_transaction_s.BalanceRepository.Latest.{quiet}
use blockchain_transaction_s.BalanceDriftProcessor.{
  BalanceDriftSweepSummary, counts_or_empty, result_eq, Frontier, tally, publish, on_page,
  sweep_from, sweep,
}
use blockchain_transaction_s.BalanceDriftProcessor.Pages.{
  IsPaged, Unique, following, last_of, last_id-map, after_page, take-short, length-drop, length-map,
}
use blockchain_transaction_s.BalanceDriftProcessor.Verdict.{verdict}
use blockchain_transaction_s.BalanceDriftProcessor.Batches.{Sound, tally_all, check_page-Counted}

tally-count :
    (summary : BalanceDriftSweepSummary) (blockchain : Blockchain) (found : BalanceCheckResult)
    (chain : Blockchain) (result : BalanceCheckResult)
    → counts_or_empty ((tally summary blockchain found).by_blockchain chain) result
      ≡ counts_or_empty (summary.by_blockchain chain) result
        + (if blockchain_eq chain blockchain && result_eq result found then 1 else 0)
unfolding tally
tally-count summary blockchain found chain result =
    elim (Bool-cases (blockchain_eq chain blockchain)) [
      | inl same ↦ rw same (elim (Bool-cases (result_eq result found)) [
        | inl hit ↦ rw hit refl
        | inr miss ↦ rw miss (omega arith)
      ])
      | inr other ↦ rw other (omega arith)
    ]

abbrev empty_summary : BalanceDriftSweepSummary
empty_summary = record { checked = 0; by_blockchain = λ chain. none }

module _ (prisma : Prisma) (laws : IsPrisma prisma) (adapters : List BlockchainAdapter)
    (evm_chain_id : ℕ) (w : World) (paged : IsPaged prisma) (more_rows concurrency : ℕ)
    (some_checks : 1 ≤ concurrency) (unique : Unique (paged.by_id w.balance_snapshots)) where
  abbrev page_size : ℕ
  page_size = suc more_rows

  abbrev all : List BalanceSnapshot
  all = paged.by_id w.balance_snapshots

  abbrev rows_of : List BalanceSnapshot → List SnapshotForReconciliation
  rows_of = map (selected prisma)

  abbrev tallied : BalanceDriftSweepSummary → List BalanceSnapshot → BalanceDriftSweepSummary
  tallied summary t = tally_all prisma laws adapters evm_chain_id w summary (rows_of t)

  abbrev published : BalanceDriftSweepSummary → World
  published summary = record w {
    balance_reconciliation_snapshots = λ chain. counts_or_empty (summary.by_blockchain chain);
    balance_reconciliation_last_sweep = some w.clock;
  }

  tallied-take :
      (n : ℕ) (t : List BalanceSnapshot) (summary : BalanceDriftSweepSummary)
      → tallied (tallied summary (take n t)) (drop n t) ≡ tallied summary t
  tallied-take zero t summary = refl
  tallied-take (suc n) [] summary = refl
  tallied-take (suc n) (s ∷ t) summary = tallied-take n t (tallied summary (s ∷ []))

  page-quiet :
      (after : Option String) (rest : List BalanceSnapshot)
      → following after all ≡ rest
      → find_page_for_reconciliation prisma after page_size (quiet w)
        ≡ (ok (rows_of (take page_size rest)), quiet w)
  unfolding find_page_for_reconciliation
  page-quiet after rest e =
      rw (paged.find_after_lem after page_size w.balance_snapshots) (rw e refl)

  Swept : Option String → ℕ → Frontier → BalanceDriftSweepSummary → List BalanceSnapshot → Type 0
  Swept after fuel cache summary rest =
      sweep_from prisma adapters evm_chain_id page_size concurrency fuel after (cache, summary)
        (quiet w)
      ≡ (ok (some (tallied summary rest)), quiet (published (tallied summary rest)))

  sweep_from-Swept :
      (fuel : ℕ) (after : Option String) (front rest : List BalanceSnapshot) (cache : Frontier)
      (summary : BalanceDriftSweepSummary)
      → all ≡ front ++ rest
      → following after all ≡ rest
      → Sound prisma laws adapters evm_chain_id w cache
      → length rest < fuel
      → Swept after fuel cache summary rest
  unfolding Swept sweep_from on_page publish ◌>>=◌
  sweep_from-Swept zero after front rest cache summary e f sound enough = absurd (omega arith)
  sweep_from-Swept (suc fuel) after front [] cache summary e f sound enough =
      rw (page-quiet after [] f, ◌>>=◌) refl
  sweep_from-Swept (suc fuel) after front (s ∷ t) cache summary e f sound enough =
      let page = rows_of (s ∷ take more_rows t) in
      let (cache', ran, sound') =
        check_page-Counted prisma laws adapters evm_chain_id w page_size concurrency some_checks
          (length page) page cache summary sound (omega arith) in
      rw (page-quiet after (s ∷ t) f, ◌>>=◌)
        (rw (ran, ◌>>=◌)
          (elim (Bool-cases (ltb (length page) page_size)) [
            | inl short ↦ rw short (
                let whole =
                  take-short more_rows t
                    (ground (arith, length-map (selected prisma) (take more_rows t))) in
                rw whole refl)
            | inr full ↦ rw full (
                let (next, split) = after_page all front s t more_rows unique e in
                rw (last_id-map (selected prisma) (λ x. refl) s (take more_rows t)) (
                  sweep_from-Swept fuel (some (last_of s (take more_rows t)))
                    (front ++ (s ∷ take more_rows t)) (drop more_rows t) cache'
                    (tallied summary (s ∷ take more_rows t)) split next sound'
                    (omega (arith, enough, length-drop more_rows t))
                  ∙ rw (tallied-take more_rows t (tallied summary (s ∷ []))) refl))
          ]))

  -- What the counts of a chain and a result are raised by.
  abbrev is_counted : Blockchain → BalanceCheckResult → SnapshotForReconciliation → Bool
  is_counted chain result row =
      blockchain_eq chain row.token.blockchain
      && result_eq result (verdict prisma adapters evm_chain_id w row)

  counts-tally_all :
      (chain : Blockchain) (result : BalanceCheckResult) (rows : List SnapshotForReconciliation)
      (summary : BalanceDriftSweepSummary)
      → counts_or_empty
          ((tally_all prisma laws adapters evm_chain_id w summary rows).by_blockchain chain)
          result
        ≡ counts_or_empty (summary.by_blockchain chain) result
          + count_where (is_counted chain result) rows
  counts-tally_all chain result [] summary = omega arith
  counts-tally_all chain result (row ∷ rows) summary =
      let v = verdict prisma adapters evm_chain_id w row in
      omega (
        arith,
        counts-tally_all chain result rows (tally summary row.token.blockchain v),
        tally-count summary row.token.blockchain v chain result,
      )

  checked-tally_all :
      (rows : List SnapshotForReconciliation) (summary : BalanceDriftSweepSummary)
      → (tally_all prisma laws adapters evm_chain_id w summary rows).checked
        ≡ summary.checked + length rows
  unfolding tally
  checked-tally_all [] summary = omega arith
  checked-tally_all (row ∷ rows) summary =
      let v = verdict prisma adapters evm_chain_id w row in
      omega (arith, checked-tally_all rows (tally summary row.token.blockchain v))

count_where-map :
    (p : SnapshotForReconciliation → Bool) (f : BalanceSnapshot → SnapshotForReconciliation)
    (t : List BalanceSnapshot)
    → count_where p (map f t) ≡ count_where (λ s. p (f s)) t
count_where-map p f [] = refl
count_where-map p f (s ∷ t) = omega (arith, count_where-map p f t)

count_where-all : (t : List BalanceSnapshot) → count_where (λ s. true) t ≡ length t
count_where-all [] = refl
count_where-all (s ∷ t) = omega (arith, count_where-all t)

-- If the pages of the table are cut from an order that has each row once, identifiers are unique, a
-- page and a batch hold at least one row, and the fuel is greater than the number of snapshots, then
-- a sweep among nobody else, of which no call is lost, returns a summary that has checked as many
-- rows as there are snapshots, and for every chain and every result the published gauge is the number
-- of the snapshots of the chain with that verdict: unverified if the token has no frontier or the
-- chain at the frontier cannot be read; drift if the balance differs and the snapshot is not of a later
-- block.
pub sweep-counts :
    (prisma : Prisma) (laws : IsPrisma prisma) (adapters : List BlockchainAdapter)
    (evm_chain_id : ℕ) (w : World) (paged : IsPaged prisma) (more_rows more_checks fuel : ℕ)
    → Unique w.balance_snapshots
    → length w.balance_snapshots < fuel
    → let o = sweep prisma adapters evm_chain_id (suc more_rows) (suc more_checks) fuel (quiet w) in
      (summary : BalanceDriftSweepSummary) × (o.0 ≡ ok (some summary))
      × (summary.checked ≡ length w.balance_snapshots)
      × ((chain : Blockchain) (result : BalanceCheckResult)
          → o.1.world.balance_reconciliation_snapshots chain result
            ≡ count_where
                (λ s.
                  blockchain_eq chain (selected prisma s).token.blockchain
                  && result_eq result (verdict prisma adapters evm_chain_id w (selected prisma s)))
                w.balance_snapshots)
unfolding sweep Swept
sweep-counts prisma laws adapters evm_chain_id w paged more_rows more_checks fuel unique enough =
    let t = w.balance_snapshots in
    let same = paged.by_id_lem (λ s. true) t in
    let sized : length (paged.by_id t) ≡ length t =
      sym (count_where-all (paged.by_id t)) ∙ same ∙ count_where-all t in
    let once : Unique (paged.by_id t) =
      λ id. omega (arith, unique id, paged.by_id_lem (has_snapshot_id id) t) in
    let swept =
      sweep_from-Swept prisma laws adapters evm_chain_id w paged more_rows (suc more_checks)
        (omega arith) once fuel none [] (paged.by_id t) [] empty_summary refl refl
        (λ id f e. absurd cc) (omega (arith, sized, enough)) in
    let rows = map (selected prisma) (paged.by_id t) in
    let S = tally_all prisma laws adapters evm_chain_id w empty_summary rows in
    rw swept (
      S,
      refl,
      omega (
        arith,
        checked-tally_all prisma laws adapters evm_chain_id w paged more_rows (suc more_checks)
            (omega arith) once rows empty_summary,
        length-map (selected prisma) (paged.by_id t),
        sized,
      ),
      λ chain result. omega (
        arith,
        counts-tally_all prisma laws adapters evm_chain_id w paged more_rows (suc more_checks)
            (omega arith) once chain result rows empty_summary,
        count_where-map
            (is_counted prisma laws adapters evm_chain_id w paged more_rows (suc more_checks)
              (omega arith) once chain result)
            (selected prisma) (paged.by_id t),
        paged.by_id_lem
            (λ s.
              blockchain_eq chain (selected prisma s).token.blockchain
              && result_eq result (verdict prisma adapters evm_chain_id w (selected prisma s)))
            t,
      ),
    )
