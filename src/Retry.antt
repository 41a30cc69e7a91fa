-- ===== src/Retry.antt =====
-- src/utils/retry.ts. The state is what the calls change; a call returns a value or throws.
pub mod Backoff
use blockchain_transaction_s.Prelude.{
  ℕ, zero, suc, ◌+◌, ◌*◌, Bool, true, false, ◌||◌, not, ◌⊎◌, inl, inr, List, [], ◌∷◌, Option, none,
  some, leb, if◌then◌else◌,
}

pub record RetryOptions : Type 0 where
  pub retries : ℕ
  pub delay : ℕ
  pub factor : Option ℕ

-- `options.factor ?? 2`
abbrev pub factor_of : RetryOptions → ℕ
factor_of options = elim options.factor [ none ↦ 2 | some factor ↦ factor ]

pub data Outcome (T E : Type 0) : Type 0 where
  returned : T → Outcome T E
  threw : E → Outcome T E
  out_of_fuel : Outcome T E

-- The local variables of the loop, the caller's state, and the delays that were slept, which
-- `onRetry` is told of before, the latest first.
pub record Loop (S : Type 0) : Type 0 where
  pub attempt : ℕ
  pub delay : ℕ
  pub slept : List ℕ
  pub state : S

module _ {S T E : Type 0} (fn : S → (E ⊎ T) × S) (should_retry : E → Bool)
    (options : RetryOptions) where
  abbrev pub gives_up : E → Loop S → Bool
  gives_up error p = not (should_retry error) || leb options.retries p.attempt

  -- `attempt++`, the sleep, and the next delay
  abbrev pub after_error : Loop S → S → Loop S
  after_error p s = record {
    attempt = suc p.attempt;
    delay = p.delay * factor_of options;
    slept = p.delay ∷ p.slept;
    state = s;
  }

  unfoldable pub attempts : ℕ → Loop S → Outcome T E × Loop S
  attempts zero p = (out_of_fuel, p)
  attempts (suc fuel) p =
      let (result, s) = fn p.state in
      elim result [
        | inr value ↦ (returned value, record p { state = s })
        | inl error ↦
            let again = attempts fuel (after_error p s) in
            if gives_up error p then (threw error, record p { state = s }) else again
      ]

  abbrev pub begin : S → Loop S
  begin s = record { attempt = 0; delay = options.delay; slept = []; state = s }

  unfoldable pub retry : S → Outcome T E × Loop S
  retry s = attempts (suc options.retries) (begin s)
