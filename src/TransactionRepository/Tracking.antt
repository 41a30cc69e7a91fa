-- ===== src/TransactionRepository/Tracking.antt =====
-- The outbox tracks the transactions: identifiers are unique, and a transaction has one
-- `transaction.confirmed` event if it is confirmed and none otherwise.
use blockchain_transaction_s.Prelude.{
  ℕ, ◌≤◌, ◌≡◌, ◌≢◌, refl, sym, inl, inr, ◌∙◌, String, Bool, true, ◌&&◌, List, [], ◌∷◌, Option, none,
  some, str_eq, find, count_where, update_where, Bool-cases, if◌then◌else◌, arith,
}
use blockchain_transaction_s.Effects.Rely.{IsRely}
use blockchain_transaction_s.Transaction.{Transaction}
use blockchain_transaction_s.Transaction.StateMachine.{TransactionStatus, can_transition, confirmed}
use blockchain_transaction_s.Transaction.StateMachine.Paths.{terminal_no_transition}
use blockchain_transaction_s.Schema.{World, OutboxEvent}
use blockchain_transaction_s.Prisma.Tables.{map_option, find-update_where}
use blockchain_transaction_s.TransactionRepository.{has_id}
use blockchain_transaction_s.TransactionRepository.Evolution.{
  row_of, status_of_row, status_of, Evolves, Evolves-rely, Evolves-of_same, Evolves-update,
}

abbrev pub is_confirmation_of : String → OutboxEvent → Bool
is_confirmation_of id e = str_eq e.aggregate_id id && str_eq e.type "transaction.confirmed"

-- How many events say that the transaction is confirmed.
abbrev pub confirmations : String → World → ℕ
confirmations id w = count_where (is_confirmation_of id) w.outbox_events

abbrev pub expected_of_row : Option TransactionStatus → ℕ
expected_of_row (some confirmed) = 1
expected_of_row _ = 0

pub record IsTracked (w : World) : Type 0 where
  pub unique : (id : String) → count_where (has_id id) w.transactions ≤ 1
  pub recorded : (id : String) → confirmations id w ≡ expected_of_row (status_of id w)

-- What every process keeps to: statuses evolve, and the outbox goes on tracking them.
pub record Tracks (u v : World) : Type 0 where
  pub evolves : Evolves u v
  pub kept : IsTracked u → IsTracked v

pub Tracks-rely : IsRely Tracks
Tracks-rely = record {
  same = λ w. record { evolves = Evolves-rely.same w; kept = λ t. t };
  chain = λ u v w p q. record {
    evolves = Evolves-rely.chain u v w p.evolves q.evolves;
    kept = λ t. q.kept (p.kept t);
  };
}

-- A step that leaves the transactions and the events alone.
pub Tracks-of_same :
    (u v : World) → u.transactions ≡ v.transactions → u.outbox_events ≡ v.outbox_events → Tracks u v
Tracks-of_same u v e f = record {
  evolves = Evolves-of_same u v e;
  kept = λ t. record {
    unique = λ id. rw (← e) (t.unique id);
    recorded = λ id. rw (← e, ← f) (t.recorded id);
  };
}

pub count_where-update_where :
    {A : Type 0} (q p : A → Bool) (f : A → A) (t : List A)
    → ((r : A) → q (f r) ≡ q r)
    → count_where q (update_where p f t) ≡ count_where q t
count_where-update_where q p f [] same = refl
count_where-update_where q p f (x ∷ t) same =
    ground (arith, same x, count_where-update_where q p f t same)

pub count_where-le :
    {A : Type 0} (q p : A → Bool) (t : List A)
    → ((r : A) → p r ≡ true → q r ≡ true)
    → count_where p t ≤ count_where q t
count_where-le q p [] sub = omega arith
count_where-le q p (x ∷ t) sub = ground (arith, sub x, count_where-le q p t sub)

-- If a row passes a test that only the rows of one identifier pass, it is the row of that
-- identifier.
pub find_of_count_where :
    {A : Type 0} (q p : A → Bool) (t : List A)
    → ((r : A) → p r ≡ true → q r ≡ true)
    → count_where q t ≤ 1
    → 1 ≤ count_where p t
    → (r : A) × (find q t ≡ some r) × (p r ≡ true)
find_of_count_where q p [] sub u n = absurd (omega arith)
find_of_count_where q p (x ∷ t) sub u n = elim (Bool-cases (p x)) [
  | inl passes ↦ (x, rw (sub x passes) refl, passes)
  | inr fails ↦ elim (Bool-cases (q x)) [
    | inl here ↦ absurd (ground (arith, count_where-le q p t sub))
    | inr there ↦ rw there (find_of_count_where q p t sub (ground arith) (ground arith))
  ]
]

-- The same, of an update: moves to a status other than `confirmed` add no event.
module _ (p : Transaction → Bool) (f : Transaction → Transaction) (to : TransactionStatus)
    (allowed : (r : Transaction) → p r ≡ true → can_transition r.status to ≡ true)
    (target : (r : Transaction) → (f r).status ≡ to)
    (same_id : (r : Transaction) → (f r).id ≡ r.id) where
  expected-update :
      (o : Option Transaction)
      → to ≢ confirmed
      → expected_of_row (status_of_row (map_option (λ r. if p r then f r else r) o))
        ≡ expected_of_row (status_of_row o)
  expected-update none other = refl
  expected-update (some r) other =
      ground (arith, target r, allowed r, terminal_no_transition r.status to)

  pub Tracks-update :
      (w : World)
      → to ≢ confirmed
      → Tracks w (record w { transactions = update_where p f w.transactions })
  Tracks-update w other = record {
    evolves = Evolves-update p f to allowed target same_id w;
    kept = λ t. record {
      unique = λ id.
          rw (count_where-update_where (has_id id) p f w.transactions (λ r. rw (same_id r)))
            (t.unique id);
      recorded = λ id.
          rw (find-update_where (has_id id) p f w.transactions (λ r. rw (same_id r)))
            (t.recorded id ∙ sym (expected-update (row_of id w) other));
    };
  }
