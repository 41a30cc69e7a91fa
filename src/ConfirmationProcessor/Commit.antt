-- ===== src/ConfirmationProcessor/Commit.antt =====
-- How the `$transaction` of a confirmation ends: a confirmed row with its event, or no change.
use blockchain_transaction_s.Prelude.{
  ◌≡◌, refl, inl, inr, ◌⊎◌, String, true, some, find, Bool-cases, Option-cases, arith, eq_iff,
  count_where,
}
use blockchain_transaction_s.Effects.{Error, Result, ok, err, Process, pure, ◌>>=◌, ◌>>◌}
use blockchain_transaction_s.Transaction.{Transaction}
use blockchain_transaction_s.Transaction.StateMachine.{confirming, confirmed, can_transition}
use blockchain_transaction_s.Schema.{World}
use blockchain_transaction_s.Prisma.{Prisma, IsPrisma}
use blockchain_transaction_s.Prisma.Tables.{find_passes}
use blockchain_transaction_s.TransactionRepository.{has_id, is_some, find_unique, confirm}
use blockchain_transaction_s.Prisma.{has_hash}
use blockchain_transaction_s.TransactionRepository.Tracking.{IsTracked, Tracks}
use blockchain_transaction_s.Blockchain.{BlockchainTransaction}
use blockchain_transaction_s.Outbox.{create_in_transaction, new_event}
use blockchain_transaction_s.ConfirmationProcessor.{confirmed_event, confirm_and_record}
use blockchain_transaction_s.ConfirmationProcessor.Persist.{
  alone, at_status, after_update, transition-alone,
}
use blockchain_transaction_s.ConfirmationProcessor.Recording.{
  HasConfirmed, Tracks-recorded, HasConfirmed-recorded,
}

confirming→confirmed : can_transition confirming confirmed ≡ true
unfolding can_transition
confirming→confirmed = refl

-- The data of `confirm`.
abbrev confirmation : BlockchainTransaction → World → Transaction → Transaction
confirmation chain w r = record r {
  block_number = chain.block_number;
  gas_used = chain.gas_used;
  confirmed_at = some w.clock;
}

pub has_id→id : (id : String) (r : Transaction) → has_id id r ≡ true → r.id ≡ id
has_id→id id r h = ground (arith, eq_iff r.id id)

-- How the body ends once its row is confirmed and read back.
abbrev pub Ending : World → String → Result (Unit {0}) × Process World → Type 0
Ending w tx_hash (r, p) =
    ((r ≡ ok tt) × Tracks w p.world × HasConfirmed tx_hash p.world) ⊎ ((e : Error) × (r ≡ err e))

record_event_alone :
    (prisma : Prisma)
    → IsPrisma prisma
    → (tx_hash : String) (chain : BlockchainTransaction) (w : World) → IsTracked w
    → (found r : Transaction) → count_where (at_status found.id confirming) w.transactions ≡ 1
    → r.id ≡ found.id
    → find (has_hash tx_hash) w.transactions ≡ some found
    → Ending w tx_hash (
        (create_in_transaction prisma (confirmed_event r) >> pure tt)
          (alone (after_update found.id confirming confirmed (confirmation chain w) w)))
unfolding create_in_transaction ◌>>=◌
record_event_alone prisma lawful tx_hash chain w tracked found r one same by_hash =
    let w' = after_update found.id confirming confirmed (confirmation chain w) w in
    let event = new_event prisma (confirmed_event r) w' in
    elim (Option-cases (prisma.outbox_event.create event w.outbox_events)) [
      | inl violated ↦ rw violated (inr (_, refl))
      | inr (events, created) ↦ rw created (
          inl (
            refl,
            Tracks-recorded prisma lawful found.id (confirmation chain w) (λ r. refl) (λ r. refl) w
                tracked one event same refl events created,
            HasConfirmed-recorded prisma lawful found.id (confirmation chain w) (λ r. refl)
                (λ r. refl) w tracked one event same refl events created tx_hash found refl by_hash
                (λ r. refl),
          ))
    ]

-- The body of the transaction either throws, or keeps the outbox tracked and confirms the row.
pub confirm_and_record-alone :
    (prisma : Prisma)
    → IsPrisma prisma
    → (tx_hash : String) (chain : BlockchainTransaction) (w : World) → IsTracked w
    → Ending w tx_hash (confirm_and_record prisma tx_hash chain (alone w))
unfolding confirm_and_record confirm find_unique ◌>>=◌
confirm_and_record-alone prisma lawful tx_hash chain w tracked =
    elim (Bool-cases (is_some chain.block_number)) [
      | inr missing ↦ rw missing (inr (_, refl))
      | inl known ↦ elim (Option-cases (find (has_hash tx_hash) w.transactions)) [
        | inl gone ↦ rw known (
            rw (lawful.transaction_lem.find_first_lem (has_hash tx_hash) w.transactions)
              (rw gone (inr (_, refl))))
        | inr (found, by_hash) ↦ rw known (
            rw (lawful.transaction_lem.find_first_lem (has_hash tx_hash) w.transactions) (
              rw by_hash
                (elim (transition-alone prisma lawful found.id confirming confirmed
                  (confirmation chain w) w confirming→confirmed) [
                    | inr (e, w', thrown) ↦ rw thrown (inr (e, refl))
                    | inl (one, (r, back, returned)) ↦ rw returned (
                        record_event_alone prisma lawful tx_hash chain w tracked found r one
                          (has_id→id found.id r (find_passes (has_id found.id) _ r back)) by_hash)
                  ])))
      ]
    ]
