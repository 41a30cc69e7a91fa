-- ===== src/Rpc/Executor.antt =====
-- executeRpc against a description of its own: which requests follow one another, what they end in,
-- and what is counted.
use blockchain_transaction_s.Prelude.{
  ℕ, zero, suc, ◌+◌, ◌≤◌, ◌≡◌, refl, ap, subst, String, true, false, ◌⊎◌, inl, inr, List, ◌∷◌, none,
  some, length, arith,
}
use blockchain_transaction_s.Retry.{Outcome, returned, threw}
use blockchain_transaction_s.Retry.Backoff.{Calls, returns, throws, again, retry-Calls}
use blockchain_transaction_s.Rpc.{
  RpcError, rpc_timeout, retryable, reason, Thrown, rpc, should_retry, RpcMetrics,
  record_rpc_failure, record_rpc_retry, record_retries, on_failure, Settled, with_timeout,
  RpcConfig, retry_options, classify_rpc_error, classified, request, requests, execute_rpc,
}

-- What a call ends in: the error that it throws, or the value that it returns.
abbrev pub outcome_of : {T : Type 0} → RpcError ⊎ T → Outcome T Thrown
outcome_of (inl e) = threw (rpc e)
outcome_of (inr value) = returned value

-- The failures that are counted then.
abbrev pub failures_of :
    {T : Type 0} → String → RpcError ⊎ T → List (String × String) → List (String × String)
failures_of method (inl e) before = (method, reason e) ∷ before
failures_of method (inr value) before = before

-- A request that fails: it is too late, or it throws.
pub data Fails {S T : Type 0} (lower_case : String → String) (fn : S → Settled T × S)
    : S → RpcError → S → Type 0 where
  late :
      {s s' : S}
      → fn s ≡ (none, s')
      → Fails lower_case fn s (rpc_timeout "RPC request timed out") s'
  broken :
      {s s' : S} {t : Thrown}
      → fn s ≡ (some (inl t), s')
      → Fails lower_case fn s (classify_rpc_error lower_case t) s'

-- The requests as they follow one another after `n` retries.
pub data Requests {S T : Type 0} (lower_case : String → String) (max_retries : ℕ)
    (fn : S → Settled T × S) : ℕ → S → RpcError ⊎ T → ℕ → S → Type 0 where
  answered :
      {n : ℕ} {s s' : S} {value : T}
      → fn s ≡ (some (inr value), s')
      → Requests lower_case max_retries fn n s (inr value) n s'
  given_up :
      {n : ℕ} {s s' : S} {e : RpcError}
      → Fails lower_case fn s e s'
      → (retryable e ≡ false) ⊎ (n ≡ max_retries)
      → Requests lower_case max_retries fn n s (inl e) n s'
  retried :
      {n m : ℕ} {s s' s'' : S} {e : RpcError} {r : RpcError ⊎ T}
      → Fails lower_case fn s e s'
      → retryable e ≡ true
      → Requests lower_case max_retries fn (suc n) s' r m s''
      → Requests lower_case max_retries fn n s r m s''

record_retries-length :
    (method : String) (n : ℕ) (metrics : RpcMetrics)
    → (length (record_retries method n metrics).retries ≡ n + length metrics.retries)
      × ((record_retries method n metrics).failures ≡ metrics.failures)
unfolding record_retries record_rpc_retry
record_retries-length method zero metrics = (omega arith, refl)
record_retries-length method (suc n) metrics =
    let (many, same) = record_retries-length method n metrics in (omega (arith, many), same)

module _ {S T : Type 0} (lower_case : String → String) (config : RpcConfig) (method : String)
    (fn : S → Settled T × S) where
  abbrev Result : S → (Thrown ⊎ T) × S → Type 0
  Result s (inr value, s') = fn s ≡ (some (inr value), s')
  Result s (inl t, s') = (e : RpcError) × ((t ≡ rpc e) × Fails lower_case fn s e s')

  request-Result : (s : S) → Result s (request lower_case config method fn s)
  unfolding request classified with_timeout classify_rpc_error
  request-Result s = go (fn s).0 (fn s).1 refl
    where
      go :
          (x : Settled T) (s' : S)
          → fn s ≡ (x, s')
          → Result s (classified lower_case (with_timeout x), s')
      go none s' e = (rpc_timeout "RPC request timed out", (refl, late e))
      go (some (inl t)) s' e = (classify_rpc_error lower_case t, (refl, broken e))
      go (some (inr value)) s' e = e

  abbrev Described : ℕ → S → Outcome T Thrown → ℕ → S → Type 0
  Described n s o m s' =
      (r : RpcError ⊎ T) × ((o ≡ outcome_of r)
        × Requests lower_case config.rpc_max_retries fn n s r m s')

  Calls-Described :
      {n m : ℕ} {s s' : S} {o : Outcome T Thrown}
      → Calls (request lower_case config method fn) should_retry config.rpc_max_retries n s o m s'
      → Described n s o m s'
  unfolding should_retry
  Calls-Described (returns {n} {s} {s'} {value} e) =
      (inr value, (refl, answered (subst (Result s) e (request-Result s))))
  Calls-Described (throws {n} {s} {s'} {error = t} e h) =
      let (x, (is_rpc, fails)) = subst (Result s) e (request-Result s) in
      (
        inl x,
        (
          ap threw is_rpc,
          given_up fails
              (subst (λ t. (should_retry t ≡ false) ⊎ (n ≡ config.rpc_max_retries)) is_rpc h),
        ),
      )
  Calls-Described (again {n} {m} {s} {s'} {s''} {error = t} e h c) =
      let (x, (is_rpc, fails)) = subst (Result s) e (request-Result s) in
      let (r, (same, requests)) = Calls-Described c in
      (r, (same, retried fails (subst (λ t. should_retry t ≡ true) is_rpc h) requests))

  on_failure-failures :
      (r : RpcError ⊎ T) (o : Outcome T Thrown) (metrics : RpcMetrics)
      → o ≡ outcome_of r
      → ((on_failure method o metrics).failures ≡ failures_of method r metrics.failures)
        × ((on_failure method o metrics).retries ≡ metrics.retries)
  unfolding on_failure record_rpc_failure
  on_failure-failures (inl e) o metrics h = rw h (refl, refl)
  on_failure-failures (inr value) o metrics h = rw h (refl, refl)

-- executeRpc ends, with at most as many retries as RPC_MAX_RETRIES says. It returns the answer of
-- the last request or throws an RpcError. Every request before the last one fails with an error that
-- may be retried: the timeout, or the class of what was thrown. When it throws, the error of the
-- last request may not be retried or the retries are used up. Each retry is counted once, and the
-- failure is counted once, by its reason, when it throws and not when it returns.
pub execute_rpc-Requests :
    {S T : Type 0} (lower_case : String → String) (config : RpcConfig) (method : String)
    (fn : S → Settled T × S) (s : S) (metrics : RpcMetrics)
    → let (o, (s', metrics')) = execute_rpc lower_case config method fn s metrics in
      (r : RpcError ⊎ T) × (n : ℕ) × ((o ≡ outcome_of r)
        × ((n ≤ config.rpc_max_retries)
            × (Requests lower_case config.rpc_max_retries fn 0 s r n s'
                × ((length metrics'.retries ≡ n + length metrics.retries)
                    × (metrics'.failures ≡ failures_of method r metrics.failures)))))
unfolding execute_rpc
execute_rpc-Requests lower_case config method fn s metrics =
    let (o, p) = requests lower_case config method fn s in
    let (calls, (ends, (few, slept))) =
      retry-Calls (request lower_case config method fn) should_retry (retry_options config) s in
    let (r, (same, described)) = Calls-Described lower_case config method fn calls in
    let (many, kept) = record_retries-length method p.attempt metrics in
    let (failed, unchanged) =
      on_failure-failures lower_case config method fn r o (record_retries method p.attempt metrics)
        same in
    (r, p.attempt, (same, (few, (described, (rw unchanged many, rw (failed, kept) refl)))))
