-- ===== src/Examples/Rpcs.antt =====
-- A request that fails twice before it is answered, and one that a contract refuses.
use blockchain_transaction_s.Prelude.{
  ℕ, suc, ◌+◌, ◌≤◌, ◌≡◌, refl, String, ◌⊎◌, inl, inr, [], ◌∷◌, none, some, length, ltb,
  if◌then◌else◌,
}
use blockchain_transaction_s.Retry.{returned, threw, retry, attempts}
use blockchain_transaction_s.Rpc.{
  RpcError, rpc_reverted, retryable, rpc, error, RpcMetrics, includes_any, Settled, RpcConfig,
  with_timeout, classify_text, classify_rpc_error, classified, should_retry, request, on_failure,
  record_retries, record_rpc_failure, reason, execute_rpc,
}
use blockchain_transaction_s.Rpc.Executor.{Requests, outcome_of, failures_of, execute_rpc-Requests}
use blockchain_transaction_s.Rpc.Transient.{transient_parts, retryable-classify_rpc_error}

abbrev lower_case : String → String
lower_case text = text

abbrev config : RpcConfig
config = record { rpc_max_retries = 3; rpc_retry_delay_ms = 500 }

abbrev no_metrics : RpcMetrics
no_metrics = record { failures = []; retries = [] }

-- The state counts the requests: one is too late, one loses its connection, one is answered.
abbrev slow_node : ℕ → Settled String × ℕ
slow_node n = (
  if ltb n 1
      then none
      else if ltb n 2
      then some (inl (error "fetch failed"))
      else some (inr "0x10"),
  suc n,
)

abbrev refusing_node : ℕ → Settled String × ℕ
refusing_node n = (some (inl (error "execution reverted: paused")), suc n)

answered_at_last :
    (execute_rpc lower_case config "eth_blockNumber" slow_node 0 no_metrics).0 ≡ returned "0x10"
unfolding execute_rpc retry attempts request classified with_timeout classify_rpc_error
    classify_text includes_any should_retry retryable
answered_at_last = refl

refused_at_once :
    let (o, (calls, metrics)) =
      execute_rpc lower_case config "eth_call" refusing_node 0 no_metrics in
    (o ≡ threw (rpc (rpc_reverted "execution reverted: paused")))
    × ((calls ≡ 1) × (metrics.failures ≡ ("eth_call", "reverted") ∷ []))
unfolding execute_rpc retry attempts request classified with_timeout classify_rpc_error
    classify_text includes_any should_retry retryable on_failure record_retries record_rpc_failure
    reason
refused_at_once = (refl, (refl, refl))

execute_rpc-Requests_example :
    let (o, (s', metrics')) =
      execute_rpc lower_case config "eth_blockNumber" slow_node 0 no_metrics in
    (r : RpcError ⊎ String) × (n : ℕ) × ((o ≡ outcome_of r)
      × ((n ≤ 3)
          × (Requests lower_case 3 slow_node 0 0 r n s'
              × ((length metrics'.retries ≡ n + 0)
                  × (metrics'.failures ≡ failures_of "eth_blockNumber" r [])))))
execute_rpc-Requests_example =
    execute_rpc-Requests lower_case config "eth_blockNumber" slow_node 0 no_metrics

retryable-classify_rpc_error_example :
    retryable (classify_rpc_error lower_case (error "429 too many requests"))
    ≡ includes_any transient_parts "429 too many requests"
retryable-classify_rpc_error_example =
    retryable-classify_rpc_error lower_case "429 too many requests"
