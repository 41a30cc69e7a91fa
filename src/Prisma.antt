-- ===== src/Prisma.antt =====
-- The database client and the job queue, which the source only calls: parameters of the model, with
-- the documented behaviour that the source relies on as laws.
pub mod Tables
use blockchain_transaction_s.Prelude.{
  ℕ, ◌≤◌, ◌≡◌, Bool, true, false, ◌&&◌, not, leb, str_eq, none, String, List, ◌∷◌, Option, some,
  find, count_where, update_where, length, All,
}
use blockchain_transaction_s.Effects.{Result, ok, err, Error}
use blockchain_transaction_s.Transaction.{Transaction}
use blockchain_transaction_s.Schema.{
  Token, Wallet, OutboxEvent, TokenTransfer, TokenEventCursor, BalanceSnapshot, ConfirmationJob,
  RelayJob, World, job_named, relay_job_named,
}

-- The calls on one model of the schema, as functions of the table's rows. A `where` is a test of a
-- row, `orderBy` ascends by a number, and `data` is an update of a row.
pub record Model (Row : Type 0) : Type 0 where
  -- `findUnique` and `findFirst`
  pub find_first : (Row → Bool) → List Row → Option Row
  -- `findMany` with `where`, `orderBy` and `take`
  pub find_many : (Row → Bool) → (Row → ℕ) → ℕ → List Row → List Row
  -- `updateMany`, which returns the count
  pub update_many : (Row → Bool) → (Row → Row) → List Row → ℕ × List Row
  -- `create`; `none` where a unique constraint is violated
  pub create : Row → List Row → Option (List Row)

-- `findFirst` gives a row that passes if there is one; `findMany` gives rows of the table that pass,
-- `take` of them at most; `updateMany` updates each row that passes and counts them.
pub record IsModel {Row : Type 0} (m : Model Row) : Type 0 where
  pub find_first_lem : (p : Row → Bool) (t : List Row) → m.find_first p t ≡ find p t
  pub update_many_lem :
      (p : Row → Bool) (f : Row → Row) (t : List Row)
      → m.update_many p f t ≡ (count_where p t, update_where p f t)
  pub find_many_where :
      (p : Row → Bool) (key : Row → ℕ) (n : ℕ) (t : List Row)
      → All (λ r. p r ≡ true) (m.find_many p key n t)
  pub find_many_take :
      (p : Row → Bool) (key : Row → ℕ) (n : ℕ) (t : List Row) → length (m.find_many p key n t) ≤ n
  -- `create` adds the row and no other
  pub create_lem :
      (r : Row) (t t' : List Row)
      → m.create r t ≡ some t'
      → (p : Row → Bool) → count_where p t' ≡ count_where p (r ∷ t)

abbrev pub has_hash : String → Transaction → Bool
has_hash hash r = elim r.tx_hash [ none ↦ false | some h ↦ str_eq h hash ]

pub record Prisma : Type 0 where
  pub token : Model Token
  pub wallet : Model Wallet
  pub transaction : Model Transaction
  -- whether `updateMany` on the transactions throws, since two rows would have one `txHash`
  pub update_clash : (Transaction → Bool) → (Transaction → Transaction) → List Transaction → Bool
  pub outbox_event : Model OutboxEvent
  pub token_transfer : Model TokenTransfer
  pub token_event_cursor : Model TokenEventCursor
  pub balance_snapshot : Model BalanceSnapshot
  -- `include`: the row that a foreign key names
  pub token_of : Transaction → Token
  pub from_wallet_of : Transaction → Wallet
  pub to_wallet_of : Transaction → Wallet
  pub wallet_of : BalanceSnapshot → Wallet
  pub snapshot_token_of : BalanceSnapshot → Token
  -- `@default(uuid())`
  pub uuid : World → String
  -- `findMany` with `orderBy: { id: 'asc' }`, a `cursor` that is skipped, and `take`
  pub find_after : Option String → ℕ → List BalanceSnapshot → List BalanceSnapshot
  -- the messages of the errors P2025 and P2002
  pub record_not_found : String
  pub unique_violated : String
  -- how `$transaction` ends: from the world it began in, and the result and the world of its body
  pub settle : World → Result (Unit {0}) × World → Result (Unit {0}) × World
  -- `queue.add` and `queue.addBulk` of BullMQ
  pub add : ConfirmationJob → List ConfirmationJob → List ConfirmationJob
  pub add_bulk : List RelayJob → List RelayJob → List RelayJob

-- `$transaction` commits what a body that returns has written, and rolls back one that throws.
pub record IsPrisma (prisma : Prisma) : Type 0 where
  pub token_lem : IsModel prisma.token
  pub wallet_lem : IsModel prisma.wallet
  pub transaction_lem : IsModel prisma.transaction
  -- An update that keeps the hashes violates no constraint; one that gives a hash to one row violates
  -- it if another row has that hash, and else not.
  pub keeps_hash :
      (p : Transaction → Bool) (f : Transaction → Transaction) (t : List Transaction)
      → ((r : Transaction) → (f r).id ≡ r.id)
      → ((r : Transaction) → (f r).tx_hash ≡ r.tx_hash)
      → prisma.update_clash p f t ≡ false
  pub sets_hash :
      (p : Transaction → Bool) (f : Transaction → Transaction) (h : String) (t : List Transaction)
      → ((r : Transaction) → (f r).id ≡ r.id)
      → ((r : Transaction) → (f r).tx_hash ≡ some h)
      → count_where p t ≡ 1
      → prisma.update_clash p f t ≡ leb 1 (count_where (λ r. not (p r) && has_hash h r) t)
  pub outbox_event_lem : IsModel prisma.outbox_event
  pub token_transfer_lem : IsModel prisma.token_transfer
  pub token_event_cursor_lem : IsModel prisma.token_event_cursor
  pub balance_snapshot_lem : IsModel prisma.balance_snapshot
  pub settle_ok : (w w' : World) → prisma.settle w (ok tt, w') ≡ (ok tt, w')
  pub settle_err : (e : Error) (w w' : World) → prisma.settle w (err e, w') ≡ (err e, w)
  -- A job whose identifier the queue has is not added again; else the job is added, and no other.
  pub add_again :
      (id : String) (job : ConfirmationJob) (q : List ConfirmationJob)
      → job.job_id ≡ some id
      → 1 ≤ count_where (job_named id) q
      → prisma.add job q ≡ q
  pub add_new :
      (id : String) (job : ConfirmationJob) (q : List ConfirmationJob)
      → job.job_id ≡ some id
      → count_where (job_named id) q ≡ 0
      → (p : ConfirmationJob → Bool) → count_where p (prisma.add job q) ≡ count_where p (job ∷ q)
  -- `addBulk` adds each job whose identifier the queue does not have, once, and no other.
  pub add_bulk_there :
      (id : String) (jobs q : List RelayJob)
      → 1 ≤ count_where (relay_job_named id) q
      → count_where (relay_job_named id) (prisma.add_bulk jobs q)
        ≡ count_where (relay_job_named id) q
  pub add_bulk_new :
      (id : String) (jobs q : List RelayJob)
      → count_where (relay_job_named id) q ≡ 0
      → 1 ≤ count_where (relay_job_named id) jobs
      → count_where (relay_job_named id) (prisma.add_bulk jobs q) ≡ 1
  pub add_bulk_other :
      (p : RelayJob → Bool) (jobs q : List RelayJob)
      → count_where p jobs ≡ 0
      → count_where p (prisma.add_bulk jobs q) ≡ count_where p q
