-- ===== src/Effects/Rely.antt =====
-- A rely-guarantee logic for the methods: a relation that every step of every process keeps to.
use blockchain_transaction_s.Prelude.{
  Bool, true, false, ◌≡◌, refl, List, [], ◌∷◌, All, Option, none, some, String, if◌then◌else◌,
}
use blockchain_transaction_s.Effects.{
  Error, Result, ok, err, Process, Turn, Action, interleave, rest, fault_of, plain, pure, raise,
  gets, call, take_effect, or_raise, modify, continue, handle, ◌>>=◌, catch_error,
}

-- A relation between the world before and after, which can be chained.
pub record IsRely {W : Type 0} (R : W → W → Type 0) : Type 0 where
  pub same : (w : W) → R w w
  pub chain : (u v w : W) → R u v → R v w → R u w

-- Every step of the others keeps to `R`.
abbrev pub Benign : {W : Type 0} → (W → W → Type 0) → List (Turn W) → Type 0
Benign {W} R = All (λ g. (w : W) → R w (g.step w))

-- Begun where `P` holds, among others that keep to `R`, the method keeps to `R` itself and ends in
-- `Q`, whether it returns or throws.
pub record Spec {W A : Type 0} (R : W → W → Type 0) (P : W → Type 0) (m : Action W A)
    (Q : Result A → W → Type 0) : Type 0 where
  pub run :
      (p : Process W)
      → Benign R p.turns
      → P p.world
      → R p.world (m p).1.world × Benign R (m p).1.turns × Q (m p).0 (m p).1.world

-- What holds of any world, and what a method may rely on across an `await`.
abbrev pub Anything : {W : Type 0} → W → Type 0
Anything w = Unit

abbrev pub Stable : {W : Type 0} → (W → W → Type 0) → (W → Type 0) → Type 0
Stable {W} R P = (u v : W) → R u v → P u → P v

module _ {W : Type 0} (R : W → W → Type 0) (rely : IsRely R) where
  rest-Benign : (gs : List (Turn W)) → Benign R gs → Benign R (rest gs)
  rest-Benign [] b = tt
  rest-Benign (g ∷ gs) b = b.1

  interleave-rely : (gs : List (Turn W)) (w : W) → Benign R gs → R w (interleave gs w)
  interleave-rely [] w b = rely.same w
  interleave-rely (g ∷ gs) w b = b.0 w

  take_effect-kept :
      {A : Type 0} (Q : Result A → W → Type 0) (fault : Option String) (f : W → Result A × W)
      (u w : W)
      → R u w
      → R w (f w).1 × Q (f w).0 (f w).1
      → ((message : String) → Q (err (plain message)) w)
      → R u (take_effect fault f w).1 × Q (take_effect fault f w).0 (take_effect fault f w).1
  take_effect-kept Q none f u w before post lost = (rely.chain u w _ before post.0, post.1)
  take_effect-kept Q (some message) f u w before post lost = (before, lost message)

  module _ {A : Type 0} {P : W → Type 0} {Q : Result A → W → Type 0} where
    pub Spec-pure : (a : A) → ((w : W) → P w → Q (ok a) w) → Spec R P (pure a) Q
    Spec-pure a q = record { run = λ p b h. (rely.same p.world, b, q p.world h) }

    pub Spec-raise : (e : Error) → ((w : W) → P w → Q (err e) w) → Spec R P (raise e) Q
    Spec-raise e q = record { run = λ p b h. (rely.same p.world, b, q p.world h) }

    -- One awaited call: its own step keeps to `R`, and `P` survives the others' steps.
    pub Spec-call :
        (f : W → Result A × W)
        → Stable R P
        → ((w : W) → P w → R w (f w).1 × Q (f w).0 (f w).1)
        → ((message : String) (w : W) → P w → Q (err (plain message)) w)
        → Spec R P (call f) Q
    Spec-call f stable q lost = record {
      run = λ p b h.
          let w = interleave p.turns p.world in
          let before = interleave-rely p.turns p.world b in
          let here = stable p.world w before h in
          let (kept, post) =
            take_effect-kept Q (fault_of p.turns) f p.world w before (q w here)
              (λ message. lost message w here) in
          (kept, rest-Benign p.turns b, post);
    }

    pub Spec-if :
        (t : Bool) (m n : Action W A)
        → (t ≡ true → Spec R P m Q)
        → (t ≡ false → Spec R P n Q)
        → Spec R P (if t then m else n) Q
    Spec-if true m n k l = k refl
    Spec-if false m n k l = l refl

    pub Spec-weaken :
        {P' : W → Type 0} {Q' : Result A → W → Type 0} (m : Action W A)
        → Spec R P' m Q'
        → ((w : W) → P w → P' w)
        → ((r : Result A) (w : W) → Q' r w → Q r w)
        → Spec R P m Q
    Spec-weaken m s pre post = record {
      run = λ p b h. let (kept, calm, q) = s.run p b (pre _ h) in (kept, calm, post _ _ q);
    }

    pub Spec-gets : (f : W → A) → ((w : W) → P w → Q (ok (f w)) w) → Spec R P (gets f) Q
    Spec-gets f q = record { run = λ p b h. (rely.same p.world, b, q p.world h) }

  module _ {A B : Type 0} {P : W → Type 0} {Q : Result B → W → Type 0} where
    pub Spec-bind :
        {M : Result A → W → Type 0} (m : Action W A) (f : A → Action W B)
        → Spec R P m M
        → ((a : A) → Spec R (M (ok a)) (f a) Q)
        → ((e : Error) (w : W) → M (err e) w → Q (err e) w)
        → Spec R P (m >>= f) Q
    unfolding ◌>>=◌
    Spec-bind {M} m f sm sf thrown = record { run = λ p b h. go (m p) (sm.run p b h) }
      where
        go :
            {u : W} (o : Result A × Process W)
            → (R u o.1.world × Benign R o.1.turns × M o.0 o.1.world)
            → let end = continue o.0 f o.1 in
              R u end.1.world × Benign R end.1.turns × Q end.0 end.1.world
        go (ok a, p') (kept, calm, mid) =
            let (kept', calm', post) = (sf a).run p' calm mid in
            (rely.chain _ _ _ kept kept', calm', post)
        go (err e, p') (kept, calm, mid) = (kept, calm, thrown e p'.world mid)

  module _ {A : Type 0} {P : W → Type 0} {Q : Result A → W → Type 0} where
    pub Spec-catch :
        {M : Result A → W → Type 0} (m : Action W A) (h : Error → Action W A)
        → Spec R P m M
        → ((a : A) (w : W) → M (ok a) w → Q (ok a) w)
        → ((e : Error) → Spec R (M (err e)) (h e) Q)
        → Spec R P (catch_error m h) Q
    unfolding catch_error
    Spec-catch {M} m h sm fine caught = record { run = λ p b pre. go (m p) (sm.run p b pre) }
      where
        go :
            {u : W} (o : Result A × Process W)
            → (R u o.1.world × Benign R o.1.turns × M o.0 o.1.world)
            → let end = handle o.0 pure h o.1 in
              R u end.1.world × Benign R end.1.turns × Q end.0 end.1.world
        go (ok a, p') (kept, calm, mid) = (kept, calm, fine a p'.world mid)
        go (err e, p') (kept, calm, mid) =
            let (kept', calm', post) = (caught e).run p' calm mid in
            (rely.chain _ _ _ kept kept', calm', post)

  module _ {A : Type 0} {P : W → Type 0} {Q : Result A → W → Type 0} where
    -- A fact that the precondition gives may be used to find the proof.
    pub Spec-given :
        (X : Type 0) (m : Action W A) → ((w : W) → P w → X) → (X → Spec R P m Q) → Spec R P m Q
    Spec-given X m gives s = record { run = λ p b h. (s (gives p.world h)).run p b h }

    pub Spec-or_raise :
        (o : Option A) (e : Error)
        → ((a : A) (w : W) → P w → Q (ok a) w)
        → ((w : W) → P w → Q (err e) w)
        → Spec R P (or_raise o e) Q
    Spec-or_raise none e found missing = Spec-raise e missing
    Spec-or_raise (some a) e found missing = Spec-pure a (found a)

    pub Spec-modify :
        (f : W → W) (a : A) → ((w : W) → P w → R w (f w) × Q (ok a) (f w)) → Spec R P (modify f a) Q
    Spec-modify f a q = record { run = λ p b h. let (kept, post) = q p.world h in (kept, b, post) }
