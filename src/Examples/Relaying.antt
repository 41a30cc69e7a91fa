-- ===== src/Examples/Relaying.antt =====
-- A relay that dies after it has enqueued an event and before it has marked it.
use blockchain_transaction_s.Prelude.{refl, false, [], ◌∷◌, none, some}
use blockchain_transaction_s.Effects.{Process}
use blockchain_transaction_s.Schema.{World, OutboxEvent}
use blockchain_transaction_s.Outbox.{relay}
use blockchain_transaction_s.Outbox.Relay.{relay-Relayed}
use blockchain_transaction_s.Outbox.Jobs.{Relayed, claimed}
use blockchain_transaction_s.Examples.InMemory.{prisma, prisma-IsPrisma, world}

abbrev event : OutboxEvent
event = record {
  id = "event-1";
  aggregate_id = "tx-1";
  type = "transaction.confirmed";
  payload = record {
    transaction_id = "tx-1";
    tenant_id = "tenant-1";
    token_id = "token-1";
    tx_hash = some "0x1";
    block_number = some 42;
    amount = 100;
    confirmed_at = some 3000;
  };
  published = false;
  published_at = none;
  created_at = 3000;
}

abbrev recorded : World
recorded = record (world []) { outbox_events = event ∷ [] }

abbrev process : Process World
process = record {
  world = recorded;
  turns =
      record { step = λ w. w; fault = none }
      ∷ record { step = λ w. w; fault = none }
      ∷ record { step = λ w. w; fault = some "lost" }
      ∷ [];
}

relay-Relayed_example : Relayed (claimed prisma 50 recorded) recorded (relay prisma 50 process)
relay-Relayed_example =
    relay-Relayed prisma prisma-IsPrisma 50 process ((λ w. refl), ((λ w. refl), ((λ w. refl), tt)))
      (λ id. refl)
