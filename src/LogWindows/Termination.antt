-- ===== src/LogWindows/Termination.antt =====
-- The fuel of a scan is enough.
use blockchain_transaction_s.Prelude.{
  ℕ, zero, suc, ◌+◌, ◌-◌, ◌<◌, ◌≢◌, ◌⊎◌, ◌&&◌, inl, inr, List, Option, none, some, arith,
  Bool-cases, leb, ltb,
}
use blockchain_transaction_s.Effects.{Error}
use blockchain_transaction_s.LogWindows.{
  Progress, Outcome, out_of_fuel, Round, stop, again, ScanLogWindowsParams, window_end,
  finish_window, after_fetch, round, after_round, scan_from, start, fuel, scan_log_windows,
}

module _ {S Log : Type 0} (params : ScanLogWindowsParams S Log) where
  -- The windows left, and how often the size can still be halved at most.
  abbrev measure : Progress S → ℕ
  measure p = (params.max_windows - p.windows) + p.size

  -- A round that goes on has made progress, and none runs out of fuel by itself.
  abbrev Advances : Progress S → Round S → Type 0
  Advances p (stop o q) = o ≢ out_of_fuel
  Advances p (again q) = measure q < measure p

  finish_window-Advances :
      (p : Progress S) (r : Option Error × S)
      → p.windows < params.max_windows
      → Advances p (finish_window params p r)
  finish_window-Advances p (none, s) k = omega arith
  finish_window-Advances p (some e, s) k = λ e. cc

  after_fetch-Advances :
      (p : Progress S) (r : (List Log ⊎ Error) × S)
      → p.windows < params.max_windows
      → Advances p (after_fetch params p r)
  after_fetch-Advances p (inl logs, s) k =
      finish_window-Advances p (params.on_window logs p.from (window_end params p) s) k
  after_fetch-Advances p (inr e, s) k =
      elim (Bool-cases (ltb 1 p.size && params.is_range_limit e)) [
        | inl halve ↦ rw halve (ground arith)
        | inr give_up ↦ rw give_up (λ e. cc)
      ]

  round-Advances : (p : Progress S) → Advances p (round params p)
  unfolding round
  round-Advances p = elim (Bool-cases (leb p.from params.to && ltb p.windows params.max_windows)) [
    | inl more ↦
        rw more (
          after_fetch-Advances p (params.fetch p.from (window_end params p) p.state) (ground arith))
    | inr done ↦ rw done (λ e. cc)
  ]

  after_round_total :
      (n : ℕ) (p : Progress S) (f : Progress S → Outcome × Progress S)
      → ((q : Progress S) → measure q < n → (f q).0 ≢ out_of_fuel)
      → measure p < suc n
      → (r : Round S) → Advances p r
      → (after_round f r).0 ≢ out_of_fuel
  after_round_total n p f keep m (stop o q) a = a
  after_round_total n p f keep m (again q) a = keep q (omega arith)

  scan_from_total :
      (n : ℕ) (p : Progress S) → measure p < n → (scan_from params n p).0 ≢ out_of_fuel
  unfolding scan_from
  scan_from_total zero p m = absurd (omega arith)
  scan_from_total (suc n) p m =
      after_round_total n p (scan_from params n) (scan_from_total n) m (round params p)
        (round-Advances p)

-- Every scan comes to an end within its fuel: it returns or it throws.
pub scan_log_windows_total :
    {S Log : Type 0} (params : ScanLogWindowsParams S Log) (s : S)
    → (scan_log_windows params s).0 ≢ out_of_fuel
unfolding scan_log_windows
scan_log_windows_total params s =
    scan_from_total params (fuel params) (start params s) (omega arith)
