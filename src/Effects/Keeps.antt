-- ===== src/Effects/Keeps.antt =====
-- Methods that keep to a relation, wherever they begin and however they end.
use blockchain_transaction_s.Prelude.{Bool, if◌then◌else◌, Option}
use blockchain_transaction_s.Effects.{
  Error, Result, Action, pure, raise, call, or_raise, ◌>>=◌, catch_error,
}
use blockchain_transaction_s.Effects.Rely.{
  IsRely, Spec, Anything, Spec-pure, Spec-raise, Spec-call, Spec-if, Spec-bind, Spec-catch,
  Spec-or_raise,
}

abbrev pub Keeps : {W A : Type 0} → (W → W → Type 0) → Action W A → Type 0
Keeps R m = Spec R Anything m (λ r w. Anything w)

module _ {W : Type 0} (R : W → W → Type 0) (rely : IsRely R) where
  module _ {A : Type 0} where
    pub Keeps-pure : (a : A) → Keeps R (pure a)
    Keeps-pure a = Spec-pure R rely a (λ w h. tt)

    pub Keeps-raise : (e : Error) → Keeps R (raise {A = A} e)
    Keeps-raise e = Spec-raise R rely e (λ w h. tt)

    pub Keeps-call : (f : W → Result A × W) → ((w : W) → R w (f w).1) → Keeps R (call f)
    Keeps-call f keep = Spec-call R rely f (λ u v r h. tt) (λ w h. (keep w, tt)) (λ m w h. tt)

    -- A call that only reads.
    pub Keeps-read : (f : W → Result A) → Keeps R (call (λ w. (f w, w)))
    Keeps-read f = Keeps-call (λ w. (f w, w)) rely.same

    pub Keeps-if :
        (t : Bool) (m n : Action W A) → Keeps R m → Keeps R n → Keeps R (if t then m else n)
    Keeps-if t m n k l = Spec-if R rely t m n (λ e. k) (λ e. l)

    pub Keeps-or_raise : (o : Option A) (e : Error) → Keeps R (or_raise o e)
    Keeps-or_raise o e = Spec-or_raise R rely o e (λ a w h. tt) (λ w h. tt)

    pub Keeps-catch :
        (m : Action W A) (h : Error → Action W A)
        → Keeps R m
        → ((e : Error) → Keeps R (h e))
        → Keeps R (catch_error m h)
    Keeps-catch m h k l = Spec-catch R rely m h k (λ a w x. tt) l

  pub Keeps-bind :
      {A B : Type 0} (m : Action W A) (f : A → Action W B)
      → Keeps R m
      → ((a : A) → Keeps R (f a))
      → Keeps R (m >>= f)
  Keeps-bind m f k l = Spec-bind R rely m f k l (λ e w h. tt)
