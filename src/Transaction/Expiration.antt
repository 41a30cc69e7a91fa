-- ===== src/Transaction/Expiration.antt =====
-- src/domain/transaction/transaction-expiration.ts. A `Date` is its number of milliseconds.
use blockchain_transaction_s.Prelude.{ℕ, ◌+◌, ◌*◌, ◌≤◌, ◌≡◌, ◌↔◌, Bool, true, arith, leb}

abbrev pub confirmation_timeout_ms : ℕ
confirmation_timeout_ms = 5 * 60 * 1000

-- `now - submittedAt >= timeoutMs`; the difference may be negative, so the subtraction is moved
-- to the other side.
pub is_transaction_expired : ℕ → ℕ → ℕ → Bool
is_transaction_expired submitted_at now timeout_ms = leb (submitted_at + timeout_ms) now

pub get_transaction_expiration_time : ℕ → ℕ → ℕ
get_transaction_expiration_time submitted_at timeout_ms = submitted_at + timeout_ms

-- A transaction counts as expired exactly from its expiration time on.
pub expired_from_expiration_time :
    (submitted_at now timeout_ms : ℕ)
    → (is_transaction_expired submitted_at now timeout_ms ≡ true)
      ↔ (get_transaction_expiration_time submitted_at timeout_ms ≤ now)
unfolding is_transaction_expired get_transaction_expiration_time
expired_from_expiration_time submitted_at now timeout_ms = ground arith
