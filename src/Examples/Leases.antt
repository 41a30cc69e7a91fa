-- ===== src/Examples/Leases.antt =====
-- Two schedulers that compete for one lease, and a call that is retried.
use blockchain_transaction_s.Prelude.{
  ℕ, ◌≡◌, ◌≢◌, ◌≤◌, ◌⊎◌, inl, inr, refl, String, true, false, [], ◌∷◌, List, none, arith, eq_iff,
  ltb, if◌then◌else◌, suc,
}
use blockchain_transaction_s.Effects.{ok, Error, plain}
use blockchain_transaction_s.SchedulerLease.{Lease, acquire}
use blockchain_transaction_s.SchedulerLease.Exclusive.{
  Event, tick, acquiring, renewing, releasing, Store, happen, history, acquire-IsExclusive,
}
use blockchain_transaction_s.SchedulerLease.Decided.{Decided, acquire-Decided}
use blockchain_transaction_s.Retry.{RetryOptions, returned, out_of_fuel, attempts, retry}
use blockchain_transaction_s.Retry.Backoff.{Calls, backoff, retry-Calls}

abbrev store : Store
store = record { leases = []; now = 1000 }

abbrev events : List Event
events =
    tick 20000
    ∷ acquiring "b" "expiration" 60000
    ∷ releasing "b" "expiration"
    ∷ renewing "b" "expiration" 60000
    ∷ tick 30000
    ∷ []

b_not_a : ◌≢◌ {A = String} "b" "a"
b_not_a e = let same = (eq_iff "b" "a").1 e in cc

granted : (acquire "a" "expiration" 60000 1000 []).0 ≡ ok true
unfolding acquire
granted = refl

acquire-IsExclusive_example :
    let s' = history events (happen (acquiring "a" "expiration" 60000) store) in
    acquire "b" "expiration" 60000 s'.now s'.leases ≡ (ok false, s'.leases)
acquire-IsExclusive_example =
    acquire-IsExclusive "a" "b" "expiration" 60000 60000 store events granted
      (tt, (b_not_a, (b_not_a, (b_not_a, (tt, tt))))) (omega arith) b_not_a (omega arith)

abbrev stale : Lease
stale = record { name = "expiration"; owner_id = "a"; expires_at = 900; updated_at = 300 }

acquire-Decided_example :
    Decided "b" "expiration" 60000 1000
      (stale ∷ [])
      (acquire "b" "expiration" 60000 1000 (stale ∷ []))
acquire-Decided_example = acquire-Decided "b" "expiration" 60000 1000 (stale ∷ []) (omega arith)

abbrev options : RetryOptions
options = record { retries = 3; delay = 500; factor = none }

-- A call that fails twice; the state counts the calls.
abbrev flaky : ℕ → (Error ⊎ String) × ℕ
flaky n = (if ltb n 2 then inl (plain "timeout") else inr "block", suc n)

succeeds : (retry flaky (λ e. true) options 0).0 ≡ returned "block"
unfolding retry attempts
succeeds = refl

retry-Calls_example :
    let (o, p) = retry flaky (λ e. true) options 0 in
    Calls flaky (λ e. true) 3 0 0 o p.attempt p.state
    × ((o ≢ out_of_fuel) × ((p.attempt ≤ 3) × (p.slept ≡ backoff 500 2 p.attempt)))
retry-Calls_example = retry-Calls flaky (λ e. true) options 0
