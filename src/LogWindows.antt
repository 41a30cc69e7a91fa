-- ===== src/LogWindows.antt =====
-- src/blockchain/evm/log-windows.ts: scanning a range of blocks in windows that shrink when the
-- provider refuses their size. Block numbers are natural numbers. The two regular expressions are
-- parameters: they only decide which errors ask for a smaller window.
pub mod Coverage
pub mod Termination
use blockchain_transaction_s.Prelude.{
  ℕ, zero, suc, ◌+◌, ◌-◌, ◌/◌, String, Bool, true, false, ◌&&◌, ◌⊎◌, inl, inr, List, [], ◌∷◌,
  Option, none, some, ltb, leb, if◌then◌else◌,
}
use blockchain_transaction_s.Effects.{Error}

-- `isRateLimitError` and `isBlockRangeLimitError`, on the text of an error's chain of causes.
module _ (rate_limit_pattern range_limit_pattern : String → Bool)
    (error_text : Error → String) where
  unfoldable pub is_rate_limit_error : Error → Bool
  is_rate_limit_error error = rate_limit_pattern (error_text error)

  unfoldable pub is_block_range_limit_error : Error → Bool
  is_block_range_limit_error error =
      if rate_limit_pattern (error_text error)
      then false
      else range_limit_pattern (error_text error)

-- The local variables of the loop, the caller's state, and the ranges that were handed to `onWindow`
-- and accepted, the latest first.
pub record Progress (S : Type 0) : Type 0 where
  pub from : ℕ
  pub size : ℕ
  pub windows : ℕ
  pub last_processed : Option ℕ
  pub handled : List (ℕ × ℕ)
  pub state : S

pub data Outcome : Type 0 where
  returned : Outcome
  thrown : Error → Outcome
  out_of_fuel : Outcome

-- One round of the loop ends it or goes on.
pub data Round (S : Type 0) : Type 0 where
  stop : Outcome → Progress S → Round S
  again : Progress S → Round S

pub record ScanLogWindowsParams (S Log : Type 0) : Type 0 where
  pub from : ℕ
  pub to : ℕ
  pub max_range : ℕ
  pub max_windows : ℕ
  -- the logs of a range, or an error
  pub fetch : ℕ → ℕ → S → (List Log ⊎ Error) × S
  -- persist a window's results; an error aborts the scan
  pub on_window : List Log → ℕ → ℕ → S → Option Error × S
  pub on_shrink : ℕ → Error → S → S
  -- `isBlockRangeLimitError`, which the source calls itself
  pub is_range_limit : Error → Bool

pub record ScanLogWindowsResult : Type 0 where
  pub last_processed : Option ℕ
  pub complete : Bool
  pub windows : ℕ
  pub max_range : ℕ

abbrev pub after_round :
    {S : Type 0} → (Progress S → Outcome × Progress S) → Round S → Outcome × Progress S
after_round go_on (stop o q) = (o, q)
after_round go_on (again q) = go_on q

module _ {S Log : Type 0} (params : ScanLogWindowsParams S Log) where
  -- A range of 0 from block 0 ends at 0 here, and before it in the source; a range is at least 1.
  abbrev pub window_end : Progress S → ℕ
  window_end p = if ltb (p.from + p.size - 1) params.to then p.from + p.size - 1 else params.to

  -- After `onWindow`: the window counts only if it did not throw.
  abbrev pub finish_window : Progress S → Option Error × S → Round S
  finish_window p (none, s) = again (record p {
    from = window_end p + 1;
    windows = p.windows + 1;
    last_processed = some (window_end p);
    handled = (p.from, window_end p) ∷ p.handled;
    state = s;
  })
  finish_window p (some error, s) = stop (thrown error) (record p { state = s })

  -- After `fetch`: the logs are handed on, or the window is halved, or the error is thrown.
  abbrev pub after_fetch : Progress S → (List Log ⊎ Error) × S → Round S
  after_fetch p (inl logs, s) = finish_window p (params.on_window logs p.from (window_end p) s)
  after_fetch p (inr error, s) =
      if ltb 1 p.size && params.is_range_limit error
      then again (record p { size = p.size / 2; state = params.on_shrink (p.size / 2) error s })
      else stop (thrown error) (record p { state = s })

  unfoldable pub round : Progress S → Round S
  round p =
      if leb p.from params.to && ltb p.windows params.max_windows
      then after_fetch p (params.fetch p.from (window_end p) p.state)
      else stop returned p

  unfoldable pub scan_from : ℕ → Progress S → Outcome × Progress S
  scan_from zero p = (out_of_fuel, p)
  scan_from (suc fuel) p = after_round (scan_from fuel) (round p)

  abbrev pub start : S → Progress S
  start s = record {
    from = params.from;
    size = params.max_range;
    windows = 0;
    last_processed = none;
    handled = [];
    state = s;
  }

  -- A round either handles a window or halves its size.
  abbrev pub fuel : ℕ
  fuel = suc (params.max_windows + params.max_range)

  unfoldable pub scan_log_windows : S → Outcome × Progress S
  unfolding scan_from round
  scan_log_windows s = scan_from fuel (start s)

  -- What is returned, from the variables at the end of the loop.
  abbrev pub result : Progress S → ScanLogWindowsResult
  result p = record {
    last_processed = p.last_processed;
    complete = ltb params.to p.from;
    windows = p.windows;
    max_range = p.size;
  }
