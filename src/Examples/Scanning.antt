-- ===== src/Examples/Scanning.antt =====
-- Scans of the blocks 10 to 30, in windows of 8 blocks that the provider cuts down to 4.
use blockchain_transaction_s.Prelude.{
  ℕ, suc, ◌-◌, ◌≡◌, ◌≢◌, refl, true, false, inl, inr, [], ◌∷◌, none, some, ltb, arith,
  if◌then◌else◌,
}
use blockchain_transaction_s.Effects.{plain}
use blockchain_transaction_s.LogWindows.{
  ScanLogWindowsParams, returned, out_of_fuel, scan_log_windows, result,
}
use blockchain_transaction_s.LogWindows.Coverage.{
  IsScanned, scan_log_windows-IsScanned, scan_log_windows_complete,
}
use blockchain_transaction_s.LogWindows.Termination.{scan_log_windows_total}

-- A provider that takes at most five blocks; the state counts the shrinks.
abbrev params : ScanLogWindowsParams ℕ ℕ
params = record {
  from = 10;
  to = 30;
  max_range = 8;
  max_windows = 25;
  fetch = λ from to s. (if ltb 4 (to - from) then inr (plain "range is too large") else inl [], s);
  on_window = λ logs from to s. (none, s);
  on_shrink = λ size e s. suc s;
  is_range_limit = λ e. true;
}

scanned :
    (scan_log_windows params 0).1.handled
    ≡ (30, 30) ∷ (26, 29) ∷ (22, 25) ∷ (18, 21) ∷ (14, 17) ∷ (10, 13) ∷ []
unfolding scan_log_windows
scanned = refl

scan_log_windows-IsScanned_example : IsScanned params (scan_log_windows params 0).1
scan_log_windows-IsScanned_example = scan_log_windows-IsScanned params 0 (omega arith)

ends : (scan_log_windows params 0).0 ≡ returned
unfolding scan_log_windows
ends = refl

scan_log_windows_complete_example :
    let p = (scan_log_windows params 0).1 in
    ((result params p).complete ≡ true → p.last_processed ≡ some 30)
    × ((result params p).complete ≡ false → p.windows ≡ 25)
scan_log_windows_complete_example =
    scan_log_windows_complete params 0 (omega arith) (omega arith) ends

scan_log_windows_total_example : (scan_log_windows params 0).0 ≢ out_of_fuel
scan_log_windows_total_example = scan_log_windows_total params 0
