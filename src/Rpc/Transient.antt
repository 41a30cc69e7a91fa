-- ===== src/Rpc/Transient.antt =====
-- Which errors the classifier makes retryable.
use blockchain_transaction_s.Prelude.{
  ◌≡◌, refl, String, Bool, true, false, List, [], ◌∷◌, ◌++◌, Bool-cases, if◌then◌else◌, inl, inr,
}
use blockchain_transaction_s.Rpc.{
  retryable, error, includes, includes_any, timeout_parts, network_parts, rate_limit_parts,
  unavailable_parts, reverted_parts, invalid_parts, classify_text, classify_rpc_error,
}

-- The phrases of the errors that pass.
abbrev pub transient_parts : List String
transient_parts = timeout_parts ++ (network_parts ++ (rate_limit_parts ++ unavailable_parts))

includes_any-append :
    (xs ys : List String) (text : String)
    → includes_any (xs ++ ys) text ≡ (if includes_any xs text then true else includes_any ys text)
unfolding includes_any
includes_any-append [] ys text = refl
includes_any-append (x ∷ xs) ys text = elim (Bool-cases (includes text x)) [
  | inl h ↦ rw h refl
  | inr h ↦ rw h (includes_any-append xs ys text)
]

chain :
    (a b c d e f : Bool) (text message : String)
    → (includes_any timeout_parts text ≡ a)
    → (includes_any network_parts text ≡ b)
    → (includes_any rate_limit_parts text ≡ c)
    → (includes_any unavailable_parts text ≡ d)
    → (includes_any reverted_parts text ≡ e)
    → (includes_any invalid_parts text ≡ f)
    → retryable (classify_text text message)
      ≡ (if a then true else if b then true else if c then true else d)
unfolding classify_text retryable
chain true b c d e f text message ha hb hc hd he hf = rw ha refl
chain false true c d e f text message ha hb hc hd he hf = rw (ha, hb) refl
chain false false true d e f text message ha hb hc hd he hf = rw (ha, hb, hc) refl
chain false false false true e f text message ha hb hc hd he hf = rw (ha, hb, hc, hd) refl
chain false false false false true f text message ha hb hc hd he hf = rw (ha, hb, hc, hd, he) refl
chain false false false false false true text message ha hb hc hd he hf =
    rw (ha, hb, hc, hd, he, hf) refl
chain false false false false false false text message ha hb hc hd he hf =
    rw (ha, hb, hc, hd, he, hf) refl

-- An error that is no RpcError may be retried after its classification exactly when its message, in
-- lower case, includes a phrase of the timeouts, the connection problems, the rate limits or the
-- unavailable services, whatever else it includes.
pub retryable-classify_rpc_error :
    (lower_case : String → String) (message : String)
    → retryable (classify_rpc_error lower_case (error message))
      ≡ includes_any transient_parts (lower_case message)
unfolding classify_rpc_error
retryable-classify_rpc_error lower_case message =
    let text = lower_case message in
    rw
      (
        includes_any-append timeout_parts (network_parts ++ (rate_limit_parts ++ unavailable_parts))
            text,
        includes_any-append network_parts (rate_limit_parts ++ unavailable_parts) text,
        includes_any-append rate_limit_parts unavailable_parts text,
      )
      (chain (includes_any timeout_parts text) (includes_any network_parts text)
        (includes_any rate_limit_parts text) (includes_any unavailable_parts text)
        (includes_any reverted_parts text) (includes_any invalid_parts text) text message refl refl
        refl refl refl refl)
