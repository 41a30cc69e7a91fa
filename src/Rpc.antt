-- ===== src/Rpc.antt =====
-- src/blockchain/rpc.errors.ts, rpc.classifier.ts and rpc.executor.ts: how a request to a node is
-- retried, and which errors are. RPC_MAX_RETRIES and RPC_RETRY_DELAY_MS of the environment are a
-- record. instrumentRpc, which catches whatever its counters throw, is left out.
pub mod Executor
pub mod Transient
use blockchain_transaction_s.Prelude.{
  ℕ, zero, suc, String, Bool, true, false, List, [], ◌∷◌, ◌⊎◌, inl, inr, Option, none, some,
  if◌then◌else◌,
}
use text.Mathlib.Text.{find?}
use blockchain_transaction_s.Retry.{
  RetryOptions, Outcome, returned, threw, out_of_fuel, Loop, retry,
}

-- The subclasses of `RpcError`, each with its message.
pub data RpcError : Type 0 where
  rpc_timeout : String → RpcError
  rpc_network : String → RpcError
  rpc_rate_limit : String → RpcError
  rpc_unavailable : String → RpcError
  rpc_reverted : String → RpcError
  rpc_invalid_request : String → RpcError
  rpc_unknown : String → RpcError

unfoldable pub retryable : RpcError → Bool
retryable (rpc_timeout m) = true
retryable (rpc_network m) = true
retryable (rpc_rate_limit m) = true
retryable (rpc_unavailable m) = true
retryable (rpc_reverted m) = false
retryable (rpc_invalid_request m) = false
retryable (rpc_unknown m) = false

unfoldable pub reason : RpcError → String
reason (rpc_timeout m) = "timeout"
reason (rpc_network m) = "network"
reason (rpc_rate_limit m) = "rate_limit"
reason (rpc_unavailable m) = "unavailable"
reason (rpc_reverted m) = "reverted"
reason (rpc_invalid_request m) = "invalid_request"
reason (rpc_unknown m) = "unknown"

-- A value that is thrown: an `RpcError`, another `Error` by its message, or any other value by its
-- text.
pub data Thrown : Type 0 where
  rpc : RpcError → Thrown
  error : String → Thrown
  other : String → Thrown

-- `text.includes(part)`
abbrev pub includes : String → String → Bool
includes text part = elim (find? text part) [ none ↦ false | some i ↦ true ]

-- The tests of the classifier, which are joined by `||`.
unfoldable pub includes_any : List String → String → Bool
includes_any [] text = false
includes_any (part ∷ parts) text = if includes text part then true else includes_any parts text

abbrev pub timeout_parts : List String
timeout_parts = "timeout" ∷ "timed out" ∷ "abort" ∷ []

abbrev pub network_parts : List String
network_parts =
    "network" ∷ "socket" ∷ "fetch failed" ∷ "failed to fetch" ∷ "econnreset" ∷ "econnrefused"
    ∷ "enetunreach" ∷ "ehostunreach" ∷ []

abbrev pub rate_limit_parts : List String
rate_limit_parts = "429" ∷ "rate limit" ∷ "too many requests" ∷ []

abbrev pub unavailable_parts : List String
unavailable_parts = "503" ∷ "502" ∷ "504" ∷ "service unavailable" ∷ "temporarily unavailable" ∷ []

abbrev pub reverted_parts : List String
reverted_parts = "execution reverted" ∷ "reverted" ∷ "revert" ∷ []

abbrev pub invalid_parts : List String
invalid_parts =
    "invalid params" ∷ "invalid argument" ∷ "invalid request" ∷ "parse error" ∷ "method not found"
    ∷ []

-- What `error` with this message, whose lower case is `text`, is.
unfoldable pub classify_text : String → String → RpcError
classify_text text message =
    if includes_any timeout_parts text
    then rpc_timeout message
    else if includes_any network_parts text
    then rpc_network message
    else if includes_any rate_limit_parts text
    then rpc_rate_limit message
    else if includes_any unavailable_parts text
    then rpc_unavailable message
    else if includes_any reverted_parts text
    then rpc_reverted message
    else if includes_any invalid_parts text
    then rpc_invalid_request message
    else rpc_unknown message

unfoldable pub should_retry : Thrown → Bool
should_retry (rpc e) = retryable e
should_retry (error m) = false
should_retry (other m) = false

-- The labels of the retries and of the failures that were counted, the latest first.
pub record RpcMetrics : Type 0 where
  pub failures : List (String × String)
  pub retries : List String

unfoldable pub record_rpc_failure : String → String → RpcMetrics → RpcMetrics
record_rpc_failure method label metrics = record metrics {
  failures = (method, label) ∷ metrics.failures;
}

unfoldable pub record_rpc_retry : String → RpcMetrics → RpcMetrics
record_rpc_retry method metrics = record metrics { retries = method ∷ metrics.retries }

-- `onRetry`, once for each retry.
unfoldable pub record_retries : String → ℕ → RpcMetrics → RpcMetrics
record_retries method zero metrics = metrics
record_retries method (suc n) metrics = record_rpc_retry method (record_retries method n metrics)

-- The `catch` of the executor.
unfoldable pub on_failure : {T : Type 0} → String → Outcome T Thrown → RpcMetrics → RpcMetrics
on_failure method (threw (rpc e)) metrics = record_rpc_failure method (reason e) metrics
on_failure method (threw (error m)) metrics = metrics
on_failure method (threw (other m)) metrics = metrics
on_failure method (returned value) metrics = metrics
on_failure method out_of_fuel metrics = metrics

-- What a promise settles with before the timer of `withTimeout` fires, if it does by then.
abbrev pub Settled : Type 0 → Type 0
Settled T = Option (Thrown ⊎ T)

-- `Promise.race` of the promise and the timer.
unfoldable pub with_timeout : {T : Type 0} → Settled T → Thrown ⊎ T
with_timeout none = inl (rpc (rpc_timeout "RPC request timed out"))
with_timeout (some result) = result

-- The variables of the environment that the loop reads.
pub record RpcConfig : Type 0 where
  pub rpc_max_retries : ℕ
  pub rpc_retry_delay_ms : ℕ

abbrev pub retry_options : RpcConfig → RetryOptions
retry_options config = record {
  retries = config.rpc_max_retries;
  delay = config.rpc_retry_delay_ms;
  factor = some 2;
}

-- `toLowerCase` of the runtime is a parameter.
module _ (lower_case : String → String) where
  unfoldable pub classify_rpc_error : Thrown → RpcError
  classify_rpc_error (rpc e) = e
  classify_rpc_error (error message) = classify_text (lower_case message) message
  classify_rpc_error (other text) = rpc_unknown text

  unfoldable pub classified : {T : Type 0} → Thrown ⊎ T → Thrown ⊎ T
  classified (inl e) = inl (rpc (classify_rpc_error e))
  classified (inr value) = inr value

  module _ {S T : Type 0} (config : RpcConfig) (method : String) (fn : S → Settled T × S) where
    -- One request, with its timeout and the classification of what it throws.
    unfoldable pub request : S → (Thrown ⊎ T) × S
    request s = let (settled, s') = fn s in (classified (with_timeout settled), s')

    abbrev pub requests : S → Outcome T Thrown × Loop S
    requests = retry request should_retry (retry_options config)

    unfoldable pub execute_rpc : S → RpcMetrics → Outcome T Thrown × (S × RpcMetrics)
    execute_rpc s metrics =
        let (outcome, p) = requests s in
        (outcome, (p.state, on_failure method outcome (record_retries method p.attempt metrics)))
