-- ===== src/Outbox.antt =====
-- src/repositories/outbox-event.repository.ts and src/services/outbox-event.service.ts.
pub mod Jobs
pub mod Relay
use blockchain_transaction_s.Prelude.{
  ℕ, String, Bool, true, false, ◌||◌, List, [], ◌∷◌, map, none, some, str_eq, length, not,
}
use blockchain_transaction_s.Effects.{ok, err, Action, pure, call, known_request, ◌>>=◌, ◌>>◌}
use blockchain_transaction_s.Schema.{World, OutboxEvent, ConfirmedPayload, RelayJob}
use blockchain_transaction_s.Prisma.{Prisma}

pub record OutboxEventData : Type 0 where
  pub aggregate_id : String
  pub type : String
  pub payload : ConfirmedPayload

-- `id in ids`
abbrev pub member : String → List String → Bool
member id [] = false
member id (x ∷ xs) = str_eq x id || member id xs

abbrev pub relay_job : OutboxEvent → RelayJob
relay_job event = record {
  name = event.type;
  outbox_event_id = event.id;
  aggregate_id = event.aggregate_id;
  payload = event.payload;
  job_id = event.id;
}

module _ (prisma : Prisma) where
  -- The row that `create` adds, with the defaults of the schema.
  abbrev pub new_event : OutboxEventData → World → OutboxEvent
  new_event fields w = record {
    id = prisma.uuid w;
    aggregate_id = fields.aggregate_id;
    type = fields.type;
    payload = fields.payload;
    published = false;
    published_at = none;
    created_at = w.clock;
  }

  unfoldable pub create_in_transaction : OutboxEventData → Action World OutboxEvent
  create_in_transaction fields = call λ w.
      elim (prisma.outbox_event.create (new_event fields w) w.outbox_events) [
        | none ↦ (err (known_request "P2002" prisma.unique_violated), w)
        | some t ↦ (ok (new_event fields w), record w { outbox_events = t })
      ]

  unfoldable pub claim_unpublished : ℕ → Action World (List OutboxEvent)
  claim_unpublished limit = call λ w. (
    ok (
        prisma.outbox_event.find_many (λ e. not e.published) (λ e. e.created_at) limit
          w.outbox_events),
    w,
  )

  unfoldable pub mark_published : List String → Action World (Unit {0})
  mark_published [] = pure tt
  mark_published (id ∷ ids) = call λ w.
      let (n, t) =
        prisma.outbox_event.update_many (λ e. member e.id (id ∷ ids))
          (λ e. record e { published = true; published_at = some w.clock }) w.outbox_events in
      (ok tt, record w { outbox_events = t })

  -- `outboxRelayQueue.addBulk`
  unfoldable pub add_bulk : List RelayJob → Action World (Unit {0})
  add_bulk jobs = call λ w. (ok tt, record w { relay_jobs = prisma.add_bulk jobs w.relay_jobs })

  unfoldable pub relay_events : List OutboxEvent → Action World ℕ
  relay_events [] = pure 0
  relay_events (event ∷ events) = do
    add_bulk (map relay_job (event ∷ events))
    mark_published (map (λ e. e.id) (event ∷ events))
    pure (length (event ∷ events))

  unfoldable pub relay : ℕ → Action World ℕ
  relay limit = do relay_events (← claim_unpublished limit)
