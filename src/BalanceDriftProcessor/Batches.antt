-- ===== src/BalanceDriftProcessor/Batches.antt =====
-- The batches of a page check every row once, at the frontier of its token.
use blockchain_transaction_s.Prelude.{
  ℕ, zero, suc, ◌≤◌, ◌≡◌, refl, ap, ◌∙◌, String, true, false, List, [], ◌∷◌, map, Option, some,
  if◌then◌else◌, inl, inr, Bool-cases, Option-cases, All, length, take, drop, arith, str_eq, ◌⊎◌,
  eq_iff, eq_refl, subst,
}
use blockchain_transaction_s.Effects.{Result, ok, Process, ◌>>=◌}
use blockchain_transaction_s.Schema.{World}
use blockchain_transaction_s.Prisma.{Prisma, IsPrisma}
use blockchain_transaction_s.Blockchain.{BlockchainAdapter}
use blockchain_transaction_s.BalanceRepository.{SnapshotForReconciliation}
use blockchain_transaction_s.BalanceRepository.Latest.{quiet}
use blockchain_transaction_s.TokenEventCursorRepository.{cursor, find_by_token_id}
use blockchain_transaction_s.BalanceDriftProcessor.{
  BalanceDriftSweepSummary, Frontier, lookup, tally, frontier_at, included, distinct_from,
  resolve_frontier, resolve_all, check_rows, check_batch, check_page,
}
use blockchain_transaction_s.BalanceDriftProcessor.Verdict.{verdict, check_one-verdict_at}

further :
    (P : String → Type 0) (seen : List String) (id : String)
    → ((x : String) → included x seen ≡ true → P x)
    → P id
    → (x : String) → included x (id ∷ seen) ≡ true
    → P x
further P seen id known here x h = elim (Bool-cases (str_eq id x)) [
  | inl same ↦ subst P ((eq_iff id x).0 same) here
  | inr other ↦ known x (ground arith)
]

distinct-All :
    (P : String → Type 0) (seen ids : List String)
    → All P (distinct_from seen ids)
    → ((id : String) → included id seen ≡ true → P id)
    → All P ids
distinct-All P seen [] all known = tt
distinct-All P seen (id ∷ ids) all known = elim (Bool-cases (included id seen)) [
  | inl e ↦ let h = rw e at all in (known id e, distinct-All P seen ids h known)
  | inr e ↦
      let h = rw e at all in
      (h.0, distinct-All P (id ∷ seen) ids h.1 (λ x. further P seen id known h.0 x))
]

module _ (prisma : Prisma) (laws : IsPrisma prisma) (adapters : List BlockchainAdapter)
    (evm_chain_id : ℕ) (w : World) where
  abbrev frontier_of : String → Option ℕ
  frontier_of id = frontier_at (cursor prisma id w)

  -- Every entry of the cache is the frontier of its token.
  abbrev pub Sound : Frontier → Type 0
  Sound cache = (id : String) (f : Option ℕ) → lookup id cache ≡ some f → f ≡ frontier_of id

  abbrev Known : Frontier → String → Type 0
  Known cache id = lookup id cache ≡ some (frontier_of id)

  abbrev Resolved : List String → Frontier → Result Frontier × Process World → Type 0
  Resolved ids cache o =
      (cache' : Frontier) × (o ≡ (ok cache', quiet w))
      × Sound cache'
      × All (Known cache') ids
      × ((id : String) → Known cache id → Known cache' id)

  resolve_frontier-Resolved :
      (id : String) (cache : Frontier)
      → Sound cache
      → Resolved (id ∷ []) cache (resolve_frontier prisma adapters evm_chain_id id cache (quiet w))
  unfolding resolve_frontier find_by_token_id ◌>>=◌
  resolve_frontier-Resolved id cache sound = elim (Option-cases (lookup id cache)) [
    | inr (f, hit) ↦
        rw (hit, resolve_frontier)
          (cache, refl, sound, (hit ∙ ap some (sound id f hit), tt), λ x h. h)
    | inl miss ↦
        rw (miss, resolve_frontier)
          (
            (id, frontier_of id) ∷ cache,
            refl,
            λ x f. fresh x f (Bool-cases (str_eq id x)),
            (rw (eq_refl id) refl, tt),
            λ x h. kept x h (Bool-cases (str_eq id x)),
          )
  ]
    where
      fresh :
          (x : String) (f : Option ℕ)
          → (str_eq id x ≡ true) ⊎ (str_eq id x ≡ false)
          → (if str_eq id x then some (frontier_of id) else lookup x cache) ≡ some f
          → f ≡ frontier_of x
      fresh x f (inl same) =
          rw same (λ e. subst (λ (y : String). f ≡ frontier_of y) ((eq_iff id x).0 same) cc)
      fresh x f (inr other) = rw other (sound x f)

      kept :
          (x : String)
          → Known cache x
          → (str_eq id x ≡ true) ⊎ (str_eq id x ≡ false)
          → Known ((id, frontier_of id) ∷ cache) x
      kept x h (inl same) = rw same (
          subst (λ (y : String). some (frontier_of id) ≡ some (frontier_of y))
            ((eq_iff id x).0 same) refl)
      kept x h (inr other) = rw other h

  resolve_all-Resolved :
      (ids : List String) (cache : Frontier)
      → Sound cache
      → Resolved ids cache (resolve_all prisma adapters evm_chain_id ids cache (quiet w))
  unfolding resolve_all ◌>>=◌
  resolve_all-Resolved [] cache sound = (cache, refl, sound, tt, λ x h. h)
  resolve_all-Resolved (id ∷ ids) cache sound =
      let (first, ran, sound', here, more) = resolve_frontier-Resolved id cache sound in
      let (all, ran', sound'', there, more') = resolve_all-Resolved ids first sound' in
      (all, rw (ran, ◌>>=◌) ran', sound'', (more' id here.0, there), λ x h. more' x (more x h))

  abbrev pub tally_all :
      BalanceDriftSweepSummary → List SnapshotForReconciliation → BalanceDriftSweepSummary
  tally_all summary [] = summary
  tally_all summary (row ∷ rows) =
      tally_all (tally summary row.token.blockchain (verdict prisma adapters evm_chain_id w row))
        rows

  check_rows-tally_all :
      (cache : Frontier) (rows : List SnapshotForReconciliation)
      (summary : BalanceDriftSweepSummary)
      → All (Known cache) (map (λ (r : SnapshotForReconciliation). r.token_id) rows)
      → check_rows prisma adapters evm_chain_id cache rows summary (quiet w)
        ≡ (ok (tally_all summary rows), quiet w)
  unfolding check_rows ◌>>=◌
  check_rows-tally_all cache [] summary known = refl
  check_rows-tally_all cache (row ∷ rows) summary known = rw (known.0) (
      rw
        (
          check_one-verdict_at prisma adapters evm_chain_id laws w row (frontier_of row.token_id),
          ◌>>=◌,
        )
        (check_rows-tally_all cache rows _ known.1))

  abbrev Counted :
      List SnapshotForReconciliation
      → BalanceDriftSweepSummary
      → Result (Frontier × BalanceDriftSweepSummary) × Process World
      → Type 0
  Counted rows summary o =
      (cache' : Frontier) × (o ≡ (ok (cache', tally_all summary rows), quiet w)) × Sound cache'

  check_batch-Counted :
      (rows : List SnapshotForReconciliation) (cache : Frontier)
      (summary : BalanceDriftSweepSummary)
      → Sound cache
      → Counted rows summary
          (check_batch prisma adapters evm_chain_id rows (cache, summary) (quiet w))
  unfolding check_batch ◌>>=◌
  check_batch-Counted rows cache summary sound =
      let ids = map (λ (r : SnapshotForReconciliation). r.token_id) rows in
      let (cache', ran, sound', known, more) =
        resolve_all-Resolved (distinct_from [] ids) cache sound in
      let all = distinct-All (Known cache') [] ids known (λ x h. absurd cc) in
      (
        cache',
        rw (ran, ◌>>=◌) (rw (check_rows-tally_all cache' rows summary all, ◌>>=◌) refl),
        sound',
      )

  tally_all-take :
      (n : ℕ) (rows : List SnapshotForReconciliation) (summary : BalanceDriftSweepSummary)
      → tally_all (tally_all summary (take n rows)) (drop n rows) ≡ tally_all summary rows
  tally_all-take zero rows summary = refl
  tally_all-take (suc n) [] summary = refl
  tally_all-take (suc n) (row ∷ rows) summary = tally_all-take n rows _

  module _ (page_size concurrency : ℕ) (some_rows : 1 ≤ concurrency) where
    length-drop :
        (n : ℕ) (rows : List SnapshotForReconciliation) → length (drop n rows) ≤ length rows
    length-drop zero rows = omega arith
    length-drop (suc n) [] = omega arith
    length-drop (suc n) (row ∷ rows) = omega (arith, length-drop n rows)

    length-drop_less :
        (n : ℕ) (row : SnapshotForReconciliation) (rows : List SnapshotForReconciliation)
        → 1 ≤ n
        → length (drop n (row ∷ rows)) ≤ length rows
    length-drop_less zero row rows h = absurd (omega arith)
    length-drop_less (suc n) row rows h = length-drop n rows

    -- The loop over the batches of a page counts every row once.
    pub check_page-Counted :
        (fuel : ℕ) (rows : List SnapshotForReconciliation) (cache : Frontier)
        (summary : BalanceDriftSweepSummary)
        → Sound cache
        → length rows ≤ fuel
        → (cache' : Frontier) × (check_page prisma adapters evm_chain_id page_size concurrency fuel
              rows
              (cache, summary)
              (quiet w)
            ≡ (ok (some (cache', tally_all summary rows)), quiet w))
          × Sound cache'
    unfolding check_page ◌>>=◌
    check_page-Counted zero [] cache summary sound enough = (cache, refl, sound)
    check_page-Counted (suc fuel) [] cache summary sound enough = (cache, refl, sound)
    check_page-Counted zero (row ∷ rows) cache summary sound enough = absurd (omega arith)
    check_page-Counted (suc fuel) (row ∷ rows) cache summary sound enough =
        let (first, ran, sound') =
          check_batch-Counted (take concurrency (row ∷ rows)) cache summary sound in
        let (last, ran', sound'') =
          check_page-Counted fuel (drop concurrency (row ∷ rows)) first
            (tally_all summary (take concurrency (row ∷ rows))) sound'
            (omega (arith, enough, length-drop_less concurrency row rows some_rows)) in
        (
          last,
          rw (ran, ◌>>=◌) (ran' ∙ rw (tally_all-take concurrency (row ∷ rows) summary) refl),
          sound'',
        )
