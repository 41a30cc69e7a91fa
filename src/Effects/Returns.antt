-- ===== src/Effects/Returns.antt =====
-- What holds of the values that a method returns, whatever the others do.
use blockchain_transaction_s.Prelude.{
  ◌≡◌, refl, Bool, true, false, Option, none, some, if◌then◌else◌,
}
use blockchain_transaction_s.Effects.{
  Error, Result, ok, err, Process, Action, interleave, fault_of, take_effect, raise, call, continue,
  or_raise, ◌>>=◌,
}
use blockchain_transaction_s.Effects.Rely.{Spec}

abbrev pub Good : {A : Type 0} → (A → Type 0) → Result A → Type 0
Good H (ok a) = H a
Good H (err e) = Unit

pub record Returns {W A : Type 0} (H : A → Type 0) (m : Action W A) : Type 0 where
  pub of_run : (p : Process W) → Good H (m p).0

abbrev pub Whatever : {A : Type 0} → A → Type 0
Whatever a = Unit

pub Returns-anything : {W A : Type 0} (m : Action W A) → Returns Whatever m
Returns-anything {A = A} m = record { of_run = λ p. go (m p).0 }
  where
    go : (r : Result A) → Good Whatever r
    go (ok a) = tt
    go (err e) = tt

module _ {W A : Type 0} {H : A → Type 0} where
  pub Returns-raise : (e : Error) → Returns {W = W} H (raise e)
  Returns-raise e = record { of_run = λ p. tt }

  pub Returns-or_raise :
      (o : Option A) (e : Error) → ((a : A) → o ≡ some a → H a) → Returns {W = W} H (or_raise o e)
  Returns-or_raise none e h = Returns-raise e
  Returns-or_raise (some a) e h = record { of_run = λ p. h a refl }

  pub Returns-if :
      (t : Bool) (m n : Action W A) → Returns H m → Returns H n → Returns H (if t then m else n)
  Returns-if true m n k l = k
  Returns-if false m n k l = l

  pub Returns-call : (f : W → Result A × W) → ((w : W) → Good H (f w).0) → Returns H (call f)
  Returns-call f h = record { of_run = λ p. go (fault_of p.turns) (interleave p.turns p.world) }
    where
      go : (o : Option _) (w : W) → Good H (take_effect o f w).0
      go none w = h w
      go (some message) w = tt

  -- The values of a method with a specification.
  pub Spec-Returns :
      {R : W → W → Type 0} {P : W → Type 0} {Q : Result A → W → Type 0} (m : Action W A)
      → Spec R P m Q
      → Returns H m
      → Spec R P m (λ r w. Q r w × Good H r)
  Spec-Returns m s h = record {
    run = λ p b pre. let (kept, calm, post) = s.run p b pre in (kept, calm, (post, h.of_run p));
  }

module _ {W A B : Type 0} {G : A → Type 0} {H : B → Type 0} where
  pub Returns-bind :
      (m : Action W A) (f : A → Action W B)
      → Returns G m
      → ((a : A) → G a → Returns H (f a))
      → Returns H (m >>= f)
  unfolding ◌>>=◌
  Returns-bind m f g h = record { of_run = λ p. go (m p) (g.of_run p) }
    where
      go : (o : Result A × Process W) → Good G o.0 → Good H (continue o.0 f o.1).0
      go (ok a, p) k = (h a k).of_run p
      go (err e, p) k = tt
