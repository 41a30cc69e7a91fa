-- ===== src/Outbox/Relay.antt =====
-- The relay loses no event: what is marked as published has been enqueued before.
use blockchain_transaction_s.Prelude.{
  ℕ, ◌≤◌, ◌≡◌, refl, String, true, List, [], ◌∷◌, map, Option, none, some, All, inl, inr, length,
  count_where, eq_refl, arith, Bool-cases,
}
use blockchain_transaction_s.Effects.{
  Result, ok, err, Process, Turn, rest, fault_of, take_effect, ◌>>=◌, continue, pure,
}
use blockchain_transaction_s.Schema.{World, OutboxEvent, RelayJob}
use blockchain_transaction_s.Prisma.{Prisma, IsPrisma}
use blockchain_transaction_s.Outbox.{
  relay_job, claim_unpublished, mark_published, relay_events, relay, member,
}
use blockchain_transaction_s.Outbox.Jobs.{
  Answered, Undisturbed, claimed, rest-Undisturbed, interleave_same, is_job_of, AreJobs, NoneLost,
  Relayed, ids_of, add_bulk-Called, has_job, mark_published-Marks,
}

answer :
    (events : List OutboxEvent) (r : Result ℕ) (w : World)
    → ((n : ℕ)
        → r ≡ ok n
        → (n ≡ length events) × All (λ e. 1 ≤ count_where (is_job_of e.id) w.relay_jobs) events)
    → Answered events r w
answer events (ok n) w h = h n refl
answer events (err e) w h = tt

module _ (prisma : Prisma) (lawful : IsPrisma prisma) where
  then_pure :
      {A B : Type 0} (b : B) (o : Result A × Process World)
      → (continue o.0 (λ a. pure b) o.1).1 ≡ o.1
  then_pure b (ok a, p) = refl
  then_pure b (err e, p) = refl

  then_pure-returned :
      {A B : Type 0} (b n : B) (o : Result A × Process World)
      → (continue o.0 (λ a. pure b) o.1).0 ≡ ok n
      → n ≡ b
  then_pure-returned b n (ok a, p) h = cc
  then_pure-returned b n (err e, p) h = absurd cc

  jobs_there :
      (events es : List OutboxEvent) (q q' : List RelayJob)
      → AreJobs q
      → q' ≡ prisma.add_bulk (map relay_job events) q
      → ((id : String) → member id (ids_of es) ≡ true → member id (ids_of events) ≡ true)
      → All (λ e. 1 ≤ count_where (is_job_of e.id) q') es
  jobs_there events [] q q' jobs same sub = tt
  jobs_there events (e ∷ es) q q' jobs same sub = (
    rw same (has_job prisma lawful e.id events q jobs (sub e.id (rw (eq_refl e.id) refl))),
    jobs_there events es q q' jobs same (λ id h. sub id (ground (arith, h))),
  )

  -- The calls after the claim, of which any may be lost.
  relay_events-NoneLost :
      (events : List OutboxEvent) (w : World) (gs : List (Turn World))
      → Undisturbed gs
      → AreJobs w.relay_jobs
      → NoneLost w (relay_events prisma events (record { world = w; turns = gs })).1.world
  unfolding relay_events ◌>>=◌
  relay_events-NoneLost [] w gs u jobs id = inl (omega arith)
  relay_events-NoneLost (event ∷ events) w gs u jobs id =
      let es = event ∷ events in
      elim (add_bulk-Called prisma (map relay_job es) w gs u) [
        | inl (e, lost) ↦ rw lost (inl (omega arith))
        | inr made ↦ rw made (
            let w' : World = record w {
              relay_jobs = prisma.add_bulk (map relay_job es) w.relay_jobs;
            } in
            let marked =
              mark_published prisma (ids_of es) (record { world = w'; turns = rest gs }) in
            let (queue, kept) =
              mark_published-Marks prisma lawful (ids_of es) w' (rest gs) (rest-Undisturbed gs u) in
            rw (then_pure (length es) marked) (elim (Bool-cases (member id (ids_of es))) [
              | inl claimed' ↦
                  inr (rw queue (has_job prisma lawful id es w.relay_jobs jobs claimed'))
              | inr other ↦ inl (rw (kept id other) (omega arith))
            ]))
      ]

  -- When they return, all the jobs were added.
  relay_events-returned :
      (event : OutboxEvent) (events : List OutboxEvent) (w : World) (gs : List (Turn World)) (n : ℕ)
      → Undisturbed gs
      → let es = event ∷ events in
        let (r, p) = relay_events prisma es (record { world = w; turns = gs }) in
        r ≡ ok n
        → (n ≡ length es) × (p.world.relay_jobs ≡ prisma.add_bulk (map relay_job es) w.relay_jobs)
  unfolding relay_events ◌>>=◌
  relay_events-returned event events w gs n u =
      let es = event ∷ events in
      elim (add_bulk-Called prisma (map relay_job es) w gs u) [
        | inl (e, lost) ↦ rw lost (λ h. absurd cc)
        | inr made ↦ rw made (λ h.
            let w' : World = record w {
              relay_jobs = prisma.add_bulk (map relay_job es) w.relay_jobs;
            } in
            let marked =
              mark_published prisma (ids_of es) (record { world = w'; turns = rest gs }) in
            (
              then_pure-returned (length es) n marked h,
              rw (then_pure (length es) marked)
                  (mark_published-Marks prisma lawful (ids_of es) w' (rest gs)
                    (rest-Undisturbed gs u)).0,
            ))
      ]

  none_returned :
      (w : World) (gs : List (Turn World)) (n : ℕ)
      → (relay_events prisma [] (record { world = w; turns = gs })).0 ≡ ok n
      → n ≡ 0
  unfolding relay_events
  none_returned w gs n h = cc

  relay_events-Relayed :
      (events : List OutboxEvent) (w : World) (gs : List (Turn World))
      → Undisturbed gs
      → AreJobs w.relay_jobs
      → Relayed events w (relay_events prisma events (record { world = w; turns = gs }))
  relay_events-Relayed events w gs u jobs =
      (relay_events-NoneLost events w gs u jobs, answer _ _ _ (go events))
    where
      go :
          (es : List OutboxEvent) (n : ℕ)
          → let (r, p) = relay_events prisma es (record { world = w; turns = gs }) in
            r ≡ ok n
            → (n ≡ length es) × All (λ e. 1 ≤ count_where (is_job_of e.id) p.world.relay_jobs) es
      go [] n h = (none_returned w gs n h, tt)
      go (event ∷ more) n h =
          let (many, queue) = relay_events-returned event more w gs n u h in
          (many, jobs_there (event ∷ more) (event ∷ more) w.relay_jobs _ jobs queue (λ id k. k))

-- Whichever calls of the relay are lost, if nobody else acts, and if each job of the queue is that of
-- the event whose identifier it has, then no event is lost: of each identifier either no more events
-- are marked as published than before, or the queue has a job that names this event. And if the relay
-- returns, it returns how many events it claimed, and the queue has a job that names each of them.
pub relay-Relayed :
    (prisma : Prisma)
    → IsPrisma prisma
    → (limit : ℕ) (p : Process World) → Undisturbed p.turns
    → AreJobs p.world.relay_jobs
    → Relayed (claimed prisma limit p.world) p.world (relay prisma limit p)
unfolding relay claim_unpublished ◌>>=◌
relay-Relayed prisma lawful limit p u jobs =
    rw (interleave_same p.turns p.world u) (go (fault_of p.turns))
  where
    f : World → Result (List OutboxEvent) × World
    f w = (ok (claimed prisma limit w), w)

    after : Result (List OutboxEvent) × World → Result ℕ × Process World
    after o = continue o.0 (relay_events prisma) (record { world = o.1; turns = rest p.turns })

    go :
        (fault : Option String)
        → Relayed (claimed prisma limit p.world) p.world (after (take_effect fault f p.world))
    go none =
        relay_events-Relayed prisma lawful (claimed prisma limit p.world) p.world (rest p.turns)
          (rest-Undisturbed p.turns u) jobs
    go (some message) = (λ id. inl (omega arith), tt)
