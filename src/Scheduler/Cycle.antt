-- ===== src/Scheduler/Cycle.antt =====
-- A cycle always ends ready for the next one, and does its work only under the lease.
use blockchain_transaction_s.Prelude.{
  ◌≡◌, ◌≢◌, refl, ◌∙◌, ◌⊎◌, inl, inr, Bool-cases, arith, Bool, true, false, ◌||◌, not,
}
use blockchain_transaction_s.Effects.{
  Result, ok, err, Error, Process, Action, pure, modify, call, ◌>>=◌, ◌>>◌, catch_error, continue,
  handle,
}
use blockchain_transaction_s.Effects.Rely.{
  IsRely, Spec, Benign, Anything, Spec-pure, Spec-call, Spec-if, Spec-bind, Spec-catch, Spec-modify,
  Spec-weaken,
}
use blockchain_transaction_s.Scheduler.{
  SchedulerLease, Instance, on_shared, under_lease, finally, guarded, run,
}

-- Only a run of the scheduler itself sets or resets `executing`.
pub record KeepsExecuting {S : Type 0} (u v : Instance S) : Type 0 where
  pub same : v.executing ≡ u.executing

module _ {S : Type 0} where
  pub keeps : IsRely (KeepsExecuting {S = S})
  keeps = record {
    same = λ w. record { same = refl };
    chain = λ u v w p q. record { same = q.same ∙ p.same };
  }

  -- The method returns.
  abbrev pub Fine : {A : Type 0} → Result A → Instance S → Type 0
  Fine {A} r w = (a : A) × (r ≡ ok a)

  module _ (lease : SchedulerLease S) (work : Action (Instance S) (Unit {0}))
      (calm : Spec KeepsExecuting Anything work (λ r w. Unit)) where
    -- A call on what is shared keeps the fields.
    Spec-shared :
        {A : Type 0} (f : S → Result A × S)
        → Spec KeepsExecuting Anything (call (on_shared f)) (λ r w. Unit)
    Spec-shared f =
        Spec-call KeepsExecuting keeps _ (λ u v r a. tt) (λ w h. (record { same = refl }, tt))
          (λ message w h. tt)

    -- With a `catch` that gives a value, a method returns.
    Spec-caught :
        {A : Type 0} (m : Action (Instance S) A) (a : A)
        → Spec KeepsExecuting Anything m (λ r w. Unit)
        → Spec KeepsExecuting Anything (catch_error m (λ error. pure a)) Fine
    Spec-caught m a s =
        Spec-catch KeepsExecuting keeps _ _ s (λ x w h. (x, refl))
          (λ e. Spec-pure KeepsExecuting keeps a (λ w h. (a, refl)))

    Spec-set :
        (f : Instance S → Instance S)
        → ((w : Instance S) → (f w).executing ≡ w.executing)
        → Spec KeepsExecuting Anything (modify f (tt {0})) Fine
    Spec-set f same =
        Spec-modify KeepsExecuting keeps f tt (λ w h. (record { same = same w }, (tt, refl)))

    -- One fine method after the other is fine.
    Spec-then :
        {A B : Type 0} (m : Action (Instance S) A) (k : A → Action (Instance S) B)
        → Spec KeepsExecuting Anything m Fine
        → ((a : A) → Spec KeepsExecuting Anything (k a) Fine)
        → Spec KeepsExecuting Anything (m >>= k) Fine
    Spec-then {A = A} m k sm sk =
        Spec-bind KeepsExecuting keeps m k sm
          (λ a. Spec-weaken KeepsExecuting keeps (k a) (sk a) (λ w h. tt) (λ r w h. h))
          (λ e w h. absurd (never w h))
      where
        never : {e : Error} (w : Instance S) → Fine {A = A} (err e) w → ⊥
        never w h = let failed = h.1 in cc

    Spec-guarded : Spec KeepsExecuting Anything (guarded lease work) Fine
    unfolding guarded under_lease finally
    Spec-guarded = Spec-then _ _ (Spec-caught _ false (Spec-shared lease.acquire)) (λ acquired.
        Spec-then _ _
          (Spec-if KeepsExecuting keeps acquired _ _
            (λ mine. Spec-then _ _ (Spec-set _ (λ w. refl)) (λ u. Spec-caught _ tt calm))
            (λ other. Spec-pure KeepsExecuting keeps tt (λ w h. (tt, refl))))
          (λ u. Spec-then _ _ (Spec-set _ (λ w. refl)) (λ u.
            Spec-if KeepsExecuting keeps acquired _ _
              (λ mine. Spec-caught _ tt (Spec-shared lease.release))
              (λ other. Spec-pure KeepsExecuting keeps tt (λ w h. (tt, refl))))))

-- A cycle of a scheduler that runs and is not executing one always returns, whichever of its calls are
-- lost or throw, and is not executing any more when it does, so that the next cycle can begin. The
-- processor and the others may do anything but set or reset `executing`, which only this method does.
pub run-ready :
    {S : Type 0} (lease : SchedulerLease S) (work : Action (Instance S) (Unit {0}))
    → Spec KeepsExecuting Anything work (λ r w. Unit)
    → (p : Process (Instance S)) → Benign KeepsExecuting p.turns
    → p.world.running ≡ true
    → p.world.executing ≡ false
    → ((run lease work p).0 ≡ ok tt) × ((run lease work p).1.world.executing ≡ false)
unfolding run ◌>>=◌
run-ready {S = S} lease work calm p benign running idle =
    rw (free) (go (guarded lease work begun) ((Spec-guarded lease work calm).run begun benign tt).2)
  where
    free : (not p.world.running || p.world.executing) ≡ false
    free = rw (running, idle) refl

    begun : Process (Instance S)
    begun = record p { world = record p.world { executing = true } }

    go :
        (o : Result (Unit {0}) × Process (Instance S))
        → Fine o.0 o.1.world
        → let end = continue o.0 (λ u. modify (λ w. record w { executing = false }) (tt {0})) o.1 in
          (end.0 ≡ ok tt) × (end.1.world.executing ≡ false)
    go (ok u, q) h = (refl, refl)
    go (err e, q) h = let failed = h.1 in absurd cc

unleased :
    {S : Type 0} (lease : SchedulerLease S) (work work' : Action (Instance S) (Unit {0}))
    (p : Process (Instance S))
    → (call (on_shared lease.acquire) p).0 ≢ ok true
    → guarded lease work p ≡ guarded lease work' p
unfolding guarded under_lease catch_error ◌>>=◌
unleased {S = S} lease work work' p = go (call (on_shared lease.acquire) p)
  where
    -- The rest of the method, from the outcome of `acquire`.
    then_on :
        Action (Instance S) (Unit {0})
        → Result Bool × Process (Instance S)
        → Result (Unit {0}) × Process (Instance S)
    then_on work o =
        let a = handle o.0 pure (λ error. pure false) o.1 in
        continue a.0 (λ acquired. under_lease lease work acquired >> finally lease acquired) a.1

    go : (o : Result Bool × Process (Instance S)) → o.0 ≢ ok true → then_on work o ≡ then_on work' o
    go (ok true, q) h = absurd (h refl)
    go (ok false, q) h = refl
    go (err e, q) h = refl

-- A cycle begun while another one is executing, or after `stop`, does not do its work, nor does a
-- cycle whose `acquire` does not return true, because another instance holds the lease or because
-- it throws or is lost: it ends the same whatever the work is.
pub run-leased :
    {S : Type 0} (lease : SchedulerLease S) (work work' : Action (Instance S) (Unit {0}))
    (p : Process (Instance S))
    → let started = record p { world = record p.world { executing = true } } in
      (p.world.running ≡ false)
        ⊎ ((p.world.executing ≡ true) ⊎ ((call (on_shared lease.acquire) started).0 ≢ ok true))
      → run lease work p ≡ run lease work' p
unfolding run ◌>>=◌
run-leased {S = S} lease work work' p h =
    elim (Bool-cases (not p.world.running || p.world.executing)) [
      | inl idle ↦ rw idle refl
      | inr free ↦ rw free (
          rw
            (unleased lease work work' (record p { world = record p.world { executing = true } })
              (refusal free h))
            refl)
    ]
  where
    refusal :
        (not p.world.running || p.world.executing) ≡ false
        → (p.world.running ≡ false)
          ⊎ ((p.world.executing ≡ true)
              ⊎ ((call
                    (on_shared lease.acquire)
                    (record p { world = record p.world { executing = true } })).0
                  ≢ ok true))
        → (call
            (on_shared lease.acquire)
            (record p { world = record p.world { executing = true } })).0
          ≢ ok true
    refusal free (inl stopped) = absurd (ground (arith, free, stopped))
    refusal free (inr (inl busy)) = absurd (ground (arith, free, busy))
    refusal free (inr (inr refused)) = refused
