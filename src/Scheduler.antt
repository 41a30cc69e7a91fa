-- ===== src/Scheduler.antt =====
-- The five schedulers of src/workers (expiration, submission-recovery, pending-recovery,
-- balance-drift and outbox-relay), which run a processor under a lease of
-- src/scheduling/scheduler-lease.ts. Logging and durations are left out.
pub mod Cycle
use blockchain_transaction_s.Prelude.{ℕ, ◌+◌, Bool, true, false, ◌||◌, not, if◌then◌else◌}
use blockchain_transaction_s.Effects.{
  Result, ok, err, Action, pure, raise, modify, gets, call, ◌>>=◌, ◌>>◌, catch_error,
}

-- The lease as a scheduler calls it, with its own name and lifetime.
pub record SchedulerLease (S : Type 0) : Type 0 where
  pub acquire : S → Result Bool × S
  pub renew : S → Result Bool × S
  pub release : S → Result (Unit {0}) × S

-- The fields of one scheduler, and what it shares with the others.
pub record Instance (S : Type 0) : Type 0 where
  pub running : Bool
  pub executing : Bool
  -- whether `timer` and `leaseRenewTimer` are set
  pub timer : Bool
  pub lease_renew_timer : Bool
  pub worker_cycles_total : ℕ
  pub worker_failures_total : ℕ
  pub shared : S

module _ {S : Type 0} where
  -- A call on what is shared.
  abbrev pub on_shared : {A : Type 0} → (S → Result A × S) → Instance S → Result A × Instance S
  on_shared f w = let (r, s) = f w.shared in (r, record w { shared = s })

  abbrev pub start : Instance S → Instance S
  start w = if w.running then w else record w { running = true; timer = true }

  abbrev pub stop : Instance S → Instance S
  stop w =
      if w.running
      then record w { running = false; timer = false; lease_renew_timer = false }
      else w

  -- The cycle of the processor, counted whether it returns or throws, and its failures.
  unfoldable pub counted : Action (Instance S) (Unit {0}) → Action (Instance S) (Unit {0})
  counted work =
      catch_error
        (work >> modify (λ w. record w { worker_cycles_total = w.worker_cycles_total + 1 }) tt)
        λ error.
          modify
            (λ w. record w {
              worker_failures_total = w.worker_failures_total + 1;
              worker_cycles_total = w.worker_cycles_total + 1;
            })
            (tt {0})
          >> raise error

  module _ (lease : SchedulerLease S) where
    -- `renewLease`, the call of the renewal timer: a failure is only logged.
    unfoldable pub renew_lease : Action (Instance S) (Unit {0})
    renew_lease = catch_error (call (on_shared lease.renew) >> pure tt) λ error. pure tt

    -- the `finally` block: the timer is cleared, and an acquired lease released
    unfoldable pub finally : Bool → Action (Instance S) (Unit {0})
    finally acquired =
        modify (λ w. record w { lease_renew_timer = false }) (tt {0})
        >> (if acquired
            then catch_error (call (on_shared lease.release)) (λ error. pure tt)
            else pure tt)

    module _ (work : Action (Instance S) (Unit {0})) where
      -- Under the lease the timer is set and the work is done; what it throws is logged.
      unfoldable pub under_lease : Bool → Action (Instance S) (Unit {0})
      under_lease acquired =
          if acquired
          then modify (λ w. record w { lease_renew_timer = true }) (tt {0})
            >> catch_error work (λ error. pure tt)
          else pure tt

      unfoldable pub guarded : Action (Instance S) (Unit {0})
      guarded = do
        acquired ← catch_error (call (on_shared lease.acquire)) (λ error. pure false)
        under_lease acquired
        finally acquired

      unfoldable pub run : Action (Instance S) (Unit {0})
      run = do
        idle ← gets (λ w. not w.running || w.executing)
        if idle then pure tt else (do
          modify (λ w. record w { executing = true }) (tt {0})
          guarded
          modify (λ w. record w { executing = false }) (tt {0}))

    -- The schedulers, each with the work that its processor does in a cycle. The relay's cycles are
    -- not counted.
    module _ (processor : Action (Instance S) (Unit {0})) where
      abbrev pub expiration : Action (Instance S) (Unit {0})
      expiration = run (counted processor)

      abbrev pub submission_recovery : Action (Instance S) (Unit {0})
      submission_recovery = run (counted processor)

      abbrev pub pending_recovery : Action (Instance S) (Unit {0})
      pending_recovery = run (counted processor)

      abbrev pub balance_drift : Action (Instance S) (Unit {0})
      balance_drift = run (counted processor)

      abbrev pub outbox_relay : Action (Instance S) (Unit {0})
      outbox_relay = run processor
