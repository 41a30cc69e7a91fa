-- ===== src/Examples/Cycles.antt =====
-- A cycle of a scheduler: its work throws, the other instance holds the lease.
use blockchain_transaction_s.Prelude.{◌≡◌, refl, Bool, true, false, inr, some, none, [], ◌∷◌}
use blockchain_transaction_s.Effects.{ok, plain, raise, pure, Process}
use blockchain_transaction_s.Effects.Rely.{Spec-raise, Benign}
use blockchain_transaction_s.Scheduler.{SchedulerLease, Instance, run, stop}
use blockchain_transaction_s.Scheduler.Cycle.{KeepsExecuting, keeps, run-ready, run-leased}

-- The shared state tells whether the lease is free.
abbrev lease : SchedulerLease Bool
lease = record {
  acquire = λ free. (ok free, free);
  renew = λ free. (ok true, free);
  release = λ free. (ok tt, free);
}

abbrev instance_at : Bool → Instance Bool
instance_at free = record {
  running = true;
  executing = false;
  timer = true;
  lease_renew_timer = false;
  worker_cycles_total = 0;
  worker_failures_total = 0;
  shared = free;
}

-- The calls are lost: the lease is stopped in between, and its release fails.
abbrev process : Process (Instance Bool)
process = record {
  world = instance_at true;
  turns = record { step = λ w. w; fault = none } ∷ record { step = stop; fault = some "lost" } ∷ [];
}

stop_keeps : (w : Instance Bool) → KeepsExecuting w (stop w)
stop_keeps w = go w.running refl
  where
    go : (b : Bool) → w.running ≡ b → KeepsExecuting w (stop w)
    go true e = record { same = rw e refl }
    go false e = record { same = rw e refl }

process-Benign : Benign KeepsExecuting process.turns
process-Benign = ((λ w. record { same = refl }), (stop_keeps, tt))

run-ready_example :
    ((run lease (raise (plain "down")) process).0 ≡ ok tt)
    × ((run lease (raise (plain "down")) process).1.world.executing ≡ false)
run-ready_example =
    run-ready lease (raise (plain "down"))
      (Spec-raise KeepsExecuting keeps (plain "down") (λ w h. tt)) process process-Benign refl refl

taken : Process (Instance Bool)
taken = record { world = instance_at false; turns = [] }

run-leased_example : run lease (raise (plain "down")) taken ≡ run lease (pure tt) taken
unfolding taken
run-leased_example = run-leased lease (raise (plain "down")) (pure tt) taken (inr (inr (λ e. cc)))
