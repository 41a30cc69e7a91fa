-- ===== src/Outbox/Jobs.antt =====
-- The jobs of the outbox relay, and the rows that are marked as published, call by call.
use blockchain_transaction_s.Prelude.{
  ℕ, ◌≤◌, ◌≡◌, refl, subst, String, Bool, true, false, ◌&&◌, not, List, [], ◌∷◌, map, Option, none,
  some, All, ◌⊎◌, inl, inr, length, count_where, str_eq, eq_iff, leb, leb→le, arith, Bool-cases,
}
use blockchain_transaction_s.Effects.{
  Error, Result, ok, err, plain, Process, Turn, interleave, rest, fault_of, call, take_effect,
}
use blockchain_transaction_s.Schema.{World, OutboxEvent, RelayJob, relay_job_named}
use blockchain_transaction_s.Prisma.{Prisma, IsPrisma}
use blockchain_transaction_s.Prisma.Tables.{count_split, count_mono, count-update_where}
use blockchain_transaction_s.Outbox.{relay_job, add_bulk, mark_published, member}

-- Nobody else acts, though calls may be lost.
abbrev pub Undisturbed : List (Turn World) → Type 0
Undisturbed = All (λ g. (w : World) → g.step w ≡ w)

-- The events that the relay claims.
abbrev pub claimed : Prisma → ℕ → World → List OutboxEvent
claimed prisma limit w =
    prisma.outbox_event.find_many (λ e. not e.published) (λ e. e.created_at) limit w.outbox_events

pub rest-Undisturbed : (gs : List (Turn World)) → Undisturbed gs → Undisturbed (rest gs)
rest-Undisturbed [] u = tt
rest-Undisturbed (g ∷ gs) u = u.1

pub interleave_same : (gs : List (Turn World)) (w : World) → Undisturbed gs → interleave gs w ≡ w
interleave_same [] w u = refl
interleave_same (g ∷ gs) w u = u.0 w

-- A call is lost, or it is made in the world as it was.
abbrev Called :
    {A : Type 0}
    → (World → Result A × World)
    → World
    → List (Turn World)
    → Result A × Process World
    → Type 0
Called f w gs o =
    ((e : Error) × (o ≡ (err e, record { world = w; turns = rest gs })))
    ⊎ (o ≡ ((f w).0, record { world = (f w).1; turns = rest gs }))

call-Called :
    {A : Type 0} (f : World → Result A × World) (w : World) (gs : List (Turn World))
    → Undisturbed gs
    → Called f w gs (call f (record { world = w; turns = gs }))
call-Called {A = A} f w gs u = rw (interleave_same gs w u) (go (fault_of gs))
  where
    after : Option String → Result A × Process World
    after fault = let (r, v) = take_effect fault f w in (r, record { world = v; turns = rest gs })

    go : (fault : Option String) → Called f w gs (after fault)
    go none = inr refl
    go (some message) = inl (plain message, refl)

abbrev pub is_published : String → OutboxEvent → Bool
is_published id e = str_eq e.id id && e.published

-- The job of an event names the event, twice.
abbrev pub is_job_of : String → RelayJob → Bool
is_job_of id job = relay_job_named id job && str_eq job.outbox_event_id id

-- Every job of the queue is the job of the event that its identifier names.
abbrev pub AreJobs : List RelayJob → Type 0
AreJobs q = (id : String) → count_where (λ j. relay_job_named id j && not (is_job_of id j)) q ≡ 0

-- No row of the event was marked as published, or the event has its job in the queue.
abbrev pub NotLost : String → World → World → Type 0
NotLost id w w' =
    (count_where (is_published id) w'.outbox_events ≤ count_where (is_published id) w.outbox_events)
    ⊎ (1 ≤ count_where (is_job_of id) w'.relay_jobs)

abbrev pub NoneLost : World → World → Type 0
NoneLost w w' = (id : String) → NotLost id w w'

-- A relay that returns tells how many events there were, and each of them has its job.
abbrev pub Answered : List OutboxEvent → Result ℕ → World → Type 0
Answered events (ok n) w =
    (n ≡ length events) × All (λ e. 1 ≤ count_where (is_job_of e.id) w.relay_jobs) events
Answered events (err e) w = Unit

-- What the relay of these events returns and leaves.
abbrev pub Relayed : List OutboxEvent → World → Result ℕ × Process World → Type 0
Relayed events w (r, p) = NoneLost w p.world × Answered events r p.world

-- The identifiers of events, and the jobs of them.
abbrev pub ids_of : List OutboxEvent → List String
ids_of = map (λ e. e.id)

no_other_jobs :
    (id : String) (events : List OutboxEvent)
    → count_where (λ j. relay_job_named id j && not (is_job_of id j)) (map relay_job events) ≡ 0
no_other_jobs id [] = refl
no_other_jobs id (e ∷ es) = ground (arith, no_other_jobs id es)

job_of_member :
    (id : String) (events : List OutboxEvent)
    → member id (ids_of events) ≡ true
    → 1 ≤ count_where (relay_job_named id) (map relay_job events)
job_of_member id [] h = absurd cc
job_of_member id (e ∷ es) h = ground (arith, h, job_of_member id es)

not_both : {b : Bool} → b ≡ true → b ≡ false → ⊥
not_both t f = cc

module _ (prisma : Prisma) where
  pub add_bulk-Called :
      (jobs : List RelayJob) (w : World) (gs : List (Turn World))
      → Undisturbed gs
      → ((e : Error) × (add_bulk prisma jobs (record { world = w; turns = gs })
            ≡ (err e, record { world = w; turns = rest gs })))
        ⊎ (add_bulk prisma jobs (record { world = w; turns = gs }) ≡ (
          ok tt,
          record {
            world = record w { relay_jobs = prisma.add_bulk jobs w.relay_jobs };
            turns = rest gs;
          },
        ))
  unfolding add_bulk
  add_bulk-Called jobs w gs u =
      call-Called (λ w. (ok (tt {0}), record w { relay_jobs = prisma.add_bulk jobs w.relay_jobs }))
        w gs u

module _ (prisma : Prisma) (lawful : IsPrisma prisma) where
  -- The claimed events have their jobs once they are enqueued.
  pub has_job :
      (id : String) (events : List OutboxEvent) (q : List RelayJob)
      → AreJobs q
      → member id (ids_of events) ≡ true
      → 1 ≤ count_where (is_job_of id) (prisma.add_bulk (map relay_job events) q)
  has_job id events q jobs h =
      let js = map relay_job events in
      let other : RelayJob → Bool = λ j. relay_job_named id j && not (is_job_of id j) in
      let split = count_split (relay_job_named id) (is_job_of id) (prisma.add_bulk js q) in
      let honest = lawful.add_bulk_other other js q (no_other_jobs id events) in
      let same =
        count_mono (λ j. relay_job_named id j && is_job_of id j) (is_job_of id)
          (prisma.add_bulk js q) (λ j k. ground arith) in
      elim (Bool-cases (leb 1 (count_where (relay_job_named id) q))) [
        | inl there ↦ omega (
          arith,
          split,
          honest,
          jobs id,
          same,
          lawful.add_bulk_there id js q (ground arith),
          leb→le 1 (count_where (relay_job_named id) q) there,
        )
        | inr absent ↦ omega (
          arith,
          split,
          honest,
          jobs id,
          same,
          lawful.add_bulk_new id js q (ground arith) (job_of_member id events h),
        )
      ]

  -- Marking publishes the rows of the given identifiers and no others.
  abbrev Marks : List String → World → World → Type 0
  Marks ids w w' =
      (w'.relay_jobs ≡ w.relay_jobs)
      × ((id : String)
          → member id ids ≡ false
          → count_where (is_published id) w'.outbox_events
            ≡ count_where (is_published id) w.outbox_events)

  pub mark_published-Marks :
      (ids : List String) (w : World) (gs : List (Turn World))
      → Undisturbed gs
      → Marks ids w (mark_published prisma ids (record { world = w; turns = gs })).1.world
  unfolding mark_published
  mark_published-Marks [] w gs u = (refl, λ id h. refl)
  mark_published-Marks (id ∷ ids) w gs u = rw (interleave_same gs w u) (go (fault_of gs))
    where
      marked : OutboxEvent → OutboxEvent
      marked e = record e { published = true; published_at = some w.clock }

      f : World → Result (Unit {0}) × World
      f w =
          let (n, t) =
            prisma.outbox_event.update_many (λ e. member e.id (id ∷ ids))
              (λ e. record e { published = true; published_at = some w.clock }) w.outbox_events in
          (ok tt, record w { outbox_events = t })

      unmarked :
          (name : String)
          → member name (id ∷ ids) ≡ false
          → (e : OutboxEvent) → member e.id (id ∷ ids) ≡ true
          → is_published name (marked e) ≡ is_published name e
      unmarked name h e k = elim (Bool-cases (str_eq e.id name)) [
        | inr other ↦ rw other refl
        | inl same ↦
            absurd
              (not_both (subst (λ x. member x (id ∷ ids) ≡ true) ((eq_iff e.id name).0 same) k) h)
      ]

      go : (fault : Option String) → Marks (id ∷ ids) w (take_effect fault f w).1
      go (some message) = (refl, λ name h. refl)
      go none =
          rw
            (lawful.outbox_event_lem.update_many_lem (λ e. member e.id (id ∷ ids)) marked
              w.outbox_events)
            (
              refl,
              λ name h.
                  count-update_where (is_published name) (λ e. member e.id (id ∷ ids)) marked
                    w.outbox_events (unmarked name h),
            )
