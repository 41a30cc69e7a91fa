-- ===== src/Retry/Backoff.antt =====
-- How often a retried call is made, how long is waited in between, and how it ends.
use blockchain_transaction_s.Prelude.{
  ℕ, zero, suc, ◌+◌, ◌*◌, ◌^◌, ◌≤◌, ◌≡◌, ◌≢◌, refl, ap, ◌⊎◌, inl, inr, Bool, true, false, List, [],
  ◌∷◌, leb, arith, Bool-cases, if◌then◌else◌,
}
use native.Mathlib.Omega.{pow_step}
use native.Mathlib.Numerals.{unary_clauses}
use native.Mathlib.Nat.{mul_assoc, mul_comm}
use blockchain_transaction_s.Retry.{
  RetryOptions, factor_of, Outcome, returned, threw, out_of_fuel, Loop, gives_up, after_error,
  attempts, begin, retry,
}

-- The delays of `n` retries, the latest first.
abbrev pub backoff : ℕ → ℕ → ℕ → List ℕ
backoff delay factor zero = []
backoff delay factor (suc n) = delay * factor ^ n ∷ backoff delay factor n

-- The calls as they follow one another from an attempt on.
pub data Calls {S T E : Type 0} (fn : S → (E ⊎ T) × S) (should_retry : E → Bool) (retries : ℕ)
    : ℕ → S → Outcome T E → ℕ → S → Type 0 where
  returns :
      {n : ℕ} {s s' : S} {value : T}
      → fn s ≡ (inr value, s')
      → Calls fn should_retry retries n s (returned value) n s'
  throws :
      {n : ℕ} {s s' : S} {error : E}
      → fn s ≡ (inl error, s')
      → (should_retry error ≡ false) ⊎ (n ≡ retries)
      → Calls fn should_retry retries n s (threw error) n s'
  again :
      {n m : ℕ} {s s' s'' : S} {error : E} {o : Outcome T E}
      → fn s ≡ (inl error, s')
      → should_retry error ≡ true
      → Calls fn should_retry retries (suc n) s' o m s''
      → Calls fn should_retry retries n s o m s''

next_delay : (delay factor n d : ℕ) → d ≡ delay * factor ^ n → d * factor ≡ delay * factor ^ suc n
next_delay delay factor n d e =
    rw (e, pow_step factor n, mul_assoc delay (factor ^ n) factor)
      (ap (λ x. delay * x) (mul_comm (factor ^ n) factor))

module _ {S T E : Type 0} (fn : S → (E ⊎ T) × S) (should_retry : E → Bool)
    (options : RetryOptions) where
  -- The loop's variables are what the number of attempts says.
  abbrev InStep : Loop S → Type 0
  InStep p =
      (p.attempt ≤ options.retries)
      × ((p.delay ≡ options.delay * factor_of options ^ p.attempt)
          × (p.slept ≡ backoff options.delay (factor_of options) p.attempt))

  abbrev Ended : Loop S → Outcome T E × Loop S → Type 0
  Ended p (o, q) =
      Calls fn should_retry options.retries p.attempt p.state o q.attempt q.state × InStep q

  attempts-Ended :
      (fuel : ℕ) (p : Loop S)
      → InStep p
      → fuel + p.attempt ≡ suc options.retries
      → Ended p (attempts fn should_retry options fuel p)
  unfolding attempts
  attempts-Ended zero p i enough = absurd (omega (arith, i.0, enough))
  attempts-Ended (suc fuel) p i enough = go (attempts-Ended fuel) (fn p.state).0 (fn p.state).1 refl
    where
      next :
          (s : S)
          → leb options.retries p.attempt ≡ false
          → InStep (after_error fn should_retry options p s)
      next s more = (
        ground arith,
        (
          next_delay options.delay (factor_of options) p.attempt p.delay i.1.0,
          rw (i.1.0, i.1.1) refl,
        ),
      )

      -- What the call gives, and then whether the loop goes on.
      go :
          ((q : Loop S)
            → InStep q
            → fuel + q.attempt ≡ suc options.retries
            → Ended q (attempts fn should_retry options fuel q))
          → (r : E ⊎ T) (s : S) → fn p.state ≡ (r, s)
          → Ended p (elim r [
            | inr value ↦ (returned value, record p { state = s })
            | inl error ↦
                if gives_up fn should_retry options error p
                then (threw error, record p { state = s })
                else attempts fn should_retry options fuel (after_error fn should_retry options p s)
          ])
      go rest (inr value) s e = (returns e, i)
      go rest (inl error) s e = elim (Bool-cases (should_retry error)) [
        | inr hopeless ↦ rw hopeless (throws e (inl hopeless), i)
        | inl hopeful ↦ rw hopeful (elim (Bool-cases (leb options.retries p.attempt)) [
          | inl spent ↦ rw spent (throws e (inr (ground (arith, i.0))), i)
          | inr more ↦ rw more (
              let (calls, still) =
                rest (after_error fn should_retry options p s) (next s more)
                  (omega (arith, enough)) in
              (again e hopeful calls, still))
        ])
      ]

ended :
    {S T E : Type 0} {fn : S → (E ⊎ T) × S} {should_retry : E → Bool} {retries n m : ℕ} {s s' : S}
    {o : Outcome T E}
    → Calls fn should_retry retries n s o m s'
    → o ≢ out_of_fuel
ended (returns e) h = cc
ended (throws e f) h = cc
ended (again e f c) h = ended c h

-- The loop ends within its fuel of one call more than the retries. The calls follow one another, each
-- but the last one throws an error that may be retried; the last one returns what the loop returns,
-- or throws what the loop throws, and then that error may not be retried or the retries are used up.
-- There are at most as many retries as the options say, and before the k-th of them the loop slept
-- for the delay times the factor to the power k - 1.
pub retry-Calls :
    {S T E : Type 0} (fn : S → (E ⊎ T) × S) (should_retry : E → Bool) (options : RetryOptions)
    (s : S)
    → let (o, p) = retry fn should_retry options s in
      Calls fn should_retry options.retries 0 s o p.attempt p.state
      × ((o ≢ out_of_fuel)
          × ((p.attempt ≤ options.retries)
              × (p.slept ≡ backoff options.delay (factor_of options) p.attempt)))
unfolding retry
retry-Calls fn should_retry options s =
    let (calls, (few, (delay, slept))) =
      attempts-Ended fn should_retry options (suc options.retries) (begin fn should_retry options s)
        (omega arith, (one_times options.delay (factor_of options), refl)) (omega arith) in
    (calls, (ended calls, (few, slept)))
  where
    one_times : (d f : ℕ) → d ≡ d * f ^ 0
    one_times d f = simp unary_clauses (omega arith)
