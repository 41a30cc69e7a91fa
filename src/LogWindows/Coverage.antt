-- ===== src/LogWindows/Coverage.antt =====
-- The windows that a scan hands on tile the range without gap or overlap.
use blockchain_transaction_s.Prelude.{
  ℕ, zero, suc, ◌+◌, ◌≤◌, ◌<◌, ◌≡◌, true, false, ◌⊎◌, inl, inr, List, [], ◌∷◌, Option, none, some,
  length, arith, Bool-cases, leb, ltb, ◌&&◌,
}
use blockchain_transaction_s.Effects.{Error}
use blockchain_transaction_s.LogWindows.{
  Progress, Outcome, returned, thrown, out_of_fuel, Round, stop, again, ScanLogWindowsParams,
  window_end, finish_window, after_fetch, round, after_round, scan_from, start, fuel,
  scan_log_windows, result,
}

-- The ranges, the latest first, follow one another from the first block up to the next one, and each
-- is within the limit and the maximal size.
abbrev pub Tiles : ℕ → ℕ → ℕ → List (ℕ × ℕ) → ℕ → Type 0
Tiles first to max_range [] next = next ≡ first
Tiles first to max_range ((a, b) ∷ ranges) next =
    (next ≡ b + 1) × (a ≤ b) × (b ≤ to) × (b < a + max_range) × Tiles first to max_range ranges a

abbrev pub last_of : List (ℕ × ℕ) → Option ℕ
last_of [] = none
last_of ((a, b) ∷ ranges) = some b

module _ {S Log : Type 0} (params : ScanLogWindowsParams S Log) where
  pub record IsScanned (p : Progress S) : Type 0 where
    pub tiles : Tiles params.from params.to params.max_range p.handled p.from
    pub last : p.last_processed ≡ last_of p.handled
    pub counted : p.windows ≡ length p.handled
    pub bounded : p.windows ≤ params.max_windows
    pub positive : 1 ≤ p.size
    pub shrunk : p.size ≤ params.max_range

  start-IsScanned : (s : S) → 1 ≤ params.max_range → IsScanned (start params s)
  start-IsScanned s h = ground arith

  -- What a round leaves behind, whether the loop goes on or ends.
  abbrev Leaves : (Progress S → Type 0) → Round S → Type 0
  Leaves P (stop o q) = P q
  Leaves P (again q) = P q

  finish_window-IsScanned :
      (p : Progress S) (r : Option Error × S)
      → IsScanned p
      → p.from ≤ params.to
      → p.windows < params.max_windows
      → Leaves IsScanned (finish_window params p r)
  finish_window-IsScanned p (none, s) i h k = ground arith
  finish_window-IsScanned p (some e, s) i h k = ground arith

  after_fetch-IsScanned :
      (p : Progress S) (r : (List Log ⊎ Error) × S)
      → IsScanned p
      → p.from ≤ params.to
      → p.windows < params.max_windows
      → Leaves IsScanned (after_fetch params p r)
  after_fetch-IsScanned p (inl logs, s) i h k =
      finish_window-IsScanned p (params.on_window logs p.from (window_end params p) s) i h k
  after_fetch-IsScanned p (inr error, s) i h k = ground arith

  round-IsScanned : (p : Progress S) → IsScanned p → Leaves IsScanned (round params p)
  unfolding round
  round-IsScanned p i =
      elim (Bool-cases (leb p.from params.to && ltb p.windows params.max_windows)) [
        | inl more ↦ rw more (
            after_fetch-IsScanned p (params.fetch p.from (window_end params p) p.state) i
              (ground arith) (ground arith))
        | inr done ↦ rw done i
      ]

  after_round-IsScanned :
      (f : Progress S → Outcome × Progress S)
      → ((q : Progress S) → IsScanned q → IsScanned (f q).1)
      → (r : Round S) → Leaves IsScanned r
      → IsScanned (after_round f r).1
  after_round-IsScanned f keep (stop o q) l = l
  after_round-IsScanned f keep (again q) l = keep q l

  scan_from-IsScanned : (n : ℕ) (p : Progress S) → IsScanned p → IsScanned (scan_from params n p).1
  unfolding scan_from
  scan_from-IsScanned zero p i = i
  scan_from-IsScanned (suc n) p i =
      after_round-IsScanned (scan_from params n) (scan_from-IsScanned n) (round params p)
        (round-IsScanned p i)

  -- Why a loop that returns has stopped.
  abbrev IsFinished : Outcome × Progress S → Type 0
  IsFinished (returned, p) = (params.to < p.from) ⊎ (params.max_windows ≤ p.windows)
  IsFinished (thrown e, p) = Unit
  IsFinished (out_of_fuel, p) = Unit

  abbrev StopsFinished : Round S → Type 0
  StopsFinished (stop o q) = IsFinished (o, q)
  StopsFinished (again q) = Unit

  finish_window-StopsFinished :
      (p : Progress S) (r : Option Error × S) → StopsFinished (finish_window params p r)
  finish_window-StopsFinished p (none, s) = tt
  finish_window-StopsFinished p (some e, s) = tt

  after_fetch-StopsFinished :
      (p : Progress S) (r : (List Log ⊎ Error) × S) → StopsFinished (after_fetch params p r)
  after_fetch-StopsFinished p (inl logs, s) =
      finish_window-StopsFinished p (params.on_window logs p.from (window_end params p) s)
  after_fetch-StopsFinished p (inr e, s) =
      elim (Bool-cases (ltb 1 p.size && params.is_range_limit e)) [
        | inl halve ↦ rw halve tt
        | inr give_up ↦ rw give_up tt
      ]

  round-StopsFinished : (p : Progress S) → StopsFinished (round params p)
  unfolding round
  round-StopsFinished p =
      elim (Bool-cases (leb p.from params.to && ltb p.windows params.max_windows)) [
        | inl more ↦
            rw more
              (after_fetch-StopsFinished p (params.fetch p.from (window_end params p) p.state))
        | inr done ↦ rw done (ground arith)
      ]

  after_round-IsFinished :
      (f : Progress S → Outcome × Progress S)
      → ((q : Progress S) → IsFinished (f q))
      → (r : Round S) → StopsFinished r
      → IsFinished (after_round f r)
  after_round-IsFinished f keep (stop o q) l = l
  after_round-IsFinished f keep (again q) l = keep q

  scan_from-IsFinished : (n : ℕ) (p : Progress S) → IsFinished (scan_from params n p)
  unfolding scan_from
  scan_from-IsFinished zero p = tt
  scan_from-IsFinished (suc n) p =
      after_round-IsFinished (scan_from params n) (scan_from-IsFinished n) (round params p)
        (round-StopsFinished p)

  complete_lem :
      (o : Outcome) (p : Progress S)
      → IsScanned p
      → IsFinished (o, p)
      → o ≡ returned
      → params.from ≤ params.to
      → ((result params p).complete ≡ true → p.last_processed ≡ some params.to)
        × ((result params p).complete ≡ false → p.windows ≡ params.max_windows)
  complete_lem returned p i f e h = go p.handled i.tiles i.last
    where
      go :
          (ranges : List (ℕ × ℕ))
          → Tiles params.from params.to params.max_range ranges p.from
          → p.last_processed ≡ last_of ranges
          → ((result params p).complete ≡ true → p.last_processed ≡ some params.to)
            × ((result params p).complete ≡ false → p.windows ≡ params.max_windows)
      go [] t l = ground (arith, i.bounded)
      go ((a, b) ∷ ranges) t l = ground (arith, i.bounded)
  complete_lem (thrown x) p i f e h = cc
  complete_lem out_of_fuel p i f e h = cc

-- If the maximal range is positive, then whether the scan returns or throws, the ranges that were
-- handed on and accepted tile the blocks from the first one, none above the last one and none
-- longer than the maximal range; the last processed block is the end of the latest range, the
-- windows are counted and within their limit, and the size that is reported is positive and within
-- the maximal range.
pub scan_log_windows-IsScanned :
    {S Log : Type 0} (params : ScanLogWindowsParams S Log) (s : S)
    → 1 ≤ params.max_range
    → IsScanned params (scan_log_windows params s).1
unfolding scan_log_windows
scan_log_windows-IsScanned params s h =
    scan_from-IsScanned params (fuel params) (start params s) (start-IsScanned params s h)

-- A scan with a positive maximal range, of a range that is not empty, that returns, reports that it
-- is complete only if the last block of the range was processed, and that it is not complete only
-- if it has used all its windows.
pub scan_log_windows_complete :
    {S Log : Type 0} (params : ScanLogWindowsParams S Log) (s : S)
    → 1 ≤ params.max_range
    → params.from ≤ params.to
    → (scan_log_windows params s).0 ≡ returned
    → let p = (scan_log_windows params s).1 in
      ((result params p).complete ≡ true → p.last_processed ≡ some params.to)
      × ((result params p).complete ≡ false → p.windows ≡ params.max_windows)
unfolding scan_log_windows
scan_log_windows_complete params s h k e =
    complete_lem params _ _ (scan_log_windows-IsScanned params s h)
      (scan_from-IsFinished params (fuel params) (start params s)) e k
