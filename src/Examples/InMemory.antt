-- ===== src/Examples/InMemory.antt =====
-- A database client that keeps its tables in memory, at which the laws of the client hold.
use blockchain_transaction_s.Prelude.{
  ℕ, zero, suc, ◌≤◌, ◌≡◌, refl, ap, ◌∙◌, str_eq, eq_iff, eq_refl, String, Bool, true, false, ◌&&◌,
  not, leb, List, [], ◌∷◌, Option, none, some, find, count_where, update_where, filter_where, take,
  length, All, arith, Bool-cases, inl, inr, if◌then◌else◌, ◌==◌,
}
use blockchain_transaction_s.Effects.{Result, ok, err}
use blockchain_transaction_s.Transaction.{Transaction}
use blockchain_transaction_s.Transaction.StateMachine.{TransactionStatus}
use blockchain_transaction_s.Schema.{
  World, Token, Wallet, evm, ConfirmationJob, RelayJob, job_named, relay_job_named, BalanceSnapshot,
}
use blockchain_transaction_s.TransactionRepository.{has_id}
use blockchain_transaction_s.BalanceRepository.{of_wallet_token, IsSnapshotTable, new_snapshot}
use blockchain_transaction_s.BalanceDriftProcessor.Pages.{IsPaged, following}
use blockchain_transaction_s.Prisma.{has_hash, Model, IsModel, Prisma, IsPrisma}

abbrev pub in_memory : {Row : Type 0} → Model Row
in_memory = record {
  find_first = find;
  find_many = λ p key n t. take n (filter_where p t);
  update_many = λ p f t. (count_where p t, update_where p f t);
  create = λ r t. some (r ∷ t);
}

All-take : {A : Type 0} (P : A → Type 0) (n : ℕ) (t : List A) → All P t → All P (take n t)
All-take P zero t h = tt
All-take P (suc n) [] h = tt
All-take P (suc n) (x ∷ t) h = (h.0, All-take P n t h.1)

All-filter_where :
    {A : Type 0} (p : A → Bool) (t : List A) → All (λ r. p r ≡ true) (filter_where p t)
All-filter_where p [] = tt
All-filter_where p (x ∷ t) = elim (Bool-cases (p x)) [
  | inl here ↦ rw here (here, All-filter_where p t)
  | inr there ↦ rw there (All-filter_where p t)
]

length-take-le : {A : Type 0} (n : ℕ) (t : List A) → length (take n t) ≤ n
length-take-le zero t = omega arith
length-take-le (suc n) [] = omega arith
length-take-le (suc n) (x ∷ t) = omega (arith, length-take-le n t)

pub create_counts :
    {Row : Type 0} (r : Row) (t t' : List Row)
    → some (r ∷ t) ≡ some t'
    → (p : Row → Bool) → count_where p t' ≡ count_where p (r ∷ t)
create_counts r t t' e p = ground arith

pub in_memory-IsModel : {Row : Type 0} → IsModel (in_memory {Row = Row})
in_memory-IsModel = record {
  find_first_lem = λ p t. refl;
  update_many_lem = λ p f t. refl;
  find_many_where = λ p key n t. All-take _ n (filter_where p t) (All-filter_where p t);
  find_many_take = λ p key n t. length-take-le n (filter_where p t);
  create_lem = create_counts;
}

abbrev pub token : Token
token = record {
  id = "token-1";
  symbol = "MUSDT";
  contract_address = some "0xabc";
  blockchain = evm;
}

abbrev pub wallet : String → Wallet
wallet id = record {
  id = id;
  tenant_id = "tenant-1";
  owner_id = "user-1";
  chain_id = 31337;
  address = id;
}

abbrev settle : World → Result (Unit {0}) × World → Result (Unit {0}) × World
settle w (ok u, w') = (ok u, w')
settle w (err e, w') = (err e, w)

abbrev add : ConfirmationJob → List ConfirmationJob → List ConfirmationJob
add j q = elim j.job_id [
  | none ↦ j ∷ q
  | some id ↦ if count_where (job_named id) q == 0 then j ∷ q else q
]

-- A table with a unique constraint: a row is refused if another one passes the test of its key.
abbrev create_one : {Row : Type 0} → (Row → Row → Bool) → Row → List Row → Option (List Row)
create_one key r t = if count_where (key r) t == 0 then some (r ∷ t) else none

abbrev unique_by : {Row : Type 0} → (Row → Row → Bool) → Model Row
unique_by key = record {
  find_first = find;
  find_many = λ p key n t. take n (filter_where p t);
  update_many = λ p f t. (count_where p t, update_where p f t);
  create = create_one key;
}

pub create_one-free :
    {Row : Type 0} (key : Row → Row → Bool) (r : Row) (t t' : List Row)
    → create_one key r t ≡ some t'
    → (count_where (key r) t ≡ 0) × (t' ≡ r ∷ t)
create_one-free {Row = Row} key r t t' e = elim (Bool-cases (count_where (key r) t == 0)) [
  | inl free ↦ (ground arith, added (rw free at e))
  | inr taken ↦ absurd (refused (rw taken at e))
]
  where
    added : ◌≡◌ {A = Option (List Row)} (some (r ∷ t)) (some t') → t' ≡ r ∷ t
    added e = cc

    refused : ◌≡◌ {A = Option (List Row)} none (some t') → ⊥
    refused e = cc

unique_by-IsModel : {Row : Type 0} (key : Row → Row → Bool) → IsModel (unique_by key)
unique_by-IsModel key = record {
  find_first_lem = λ p t. refl;
  update_many_lem = λ p f t. refl;
  find_many_where = λ p key n t. All-take _ n (filter_where p t) (All-filter_where p t);
  find_many_take = λ p key n t. length-take-le n (filter_where p t);
  create_lem = λ r t t' e p. rw (create_one-free key r t t' e).1 refl;
}

abbrev snapshots : Model BalanceSnapshot
snapshots = unique_by (λ s. of_wallet_token s.wallet_id s.token_id)

abbrev transactions : Model Transaction
transactions = unique_by (λ r. has_id r.id)

-- A transaction with a hash, at a status.
abbrev pub transaction : String → String → TransactionStatus → Transaction
transaction id hash status = record {
  id = id;
  tenant_id = "tenant-1";
  token_id = "token-1";
  from_wallet_id = "wallet-1";
  to_wallet_id = "wallet-2";
  tx_hash = some hash;
  amount = 100;
  gas_used = none;
  block_number = none;
  status = status;
  created_at = 1000;
  submitted_at = some 1200;
  confirmation_started_at = none;
  confirmed_at = none;
  failure_reason = none;
  failed_at = none;
}

abbrev unhashed : Transaction
unhashed = record (transaction "" "" TransactionStatus.pending) { tx_hash = none }

-- What an update of a transaction without a hash gives it, which is what all of them get.
abbrev set_hash : (Transaction → Transaction) → Option String
set_hash f = (f unhashed).tx_hash

-- Two rows would have one hash: the updated one and another one.
abbrev clash_on : (Transaction → Bool) → List Transaction → Option String → Bool
clash_on p t none = false
clash_on p t (some h) = leb 1 (count_where (λ r. not (p r) && has_hash h r) t)

abbrev enqueued : RelayJob → List RelayJob → List RelayJob
enqueued job q = if count_where (relay_job_named job.job_id) q == 0 then job ∷ q else q

abbrev add_bulk : List RelayJob → List RelayJob → List RelayJob
add_bulk [] q = q
add_bulk (job ∷ jobs) q = add_bulk jobs (enqueued job q)

-- One job more: a job of the identifier is there, and none is added if there was one.
enqueued-named :
    (id : String) (job : RelayJob) (q : List RelayJob)
    → (1 ≤ count_where (relay_job_named id) q
        → count_where (relay_job_named id) (enqueued job q) ≡ count_where (relay_job_named id) q)
      × (count_where (relay_job_named id) q ≡ 0
          → count_where (relay_job_named id) (enqueued job q)
            ≡ count_where (relay_job_named id) (job ∷ []))
enqueued-named id job q = elim (Bool-cases (str_eq job.job_id id)) [
  | inl same ↦ rw ((eq_iff job.job_id id).0 same) (ground (arith, eq_refl id))
  | inr other ↦ rw other (ground arith)
]

add_bulk-there :
    (id : String) (jobs q : List RelayJob)
    → 1 ≤ count_where (relay_job_named id) q
    → count_where (relay_job_named id) (add_bulk jobs q) ≡ count_where (relay_job_named id) q
add_bulk-there id [] q there = refl
add_bulk-there id (job ∷ jobs) q there =
    let e = (enqueued-named id job q).0 there in
    add_bulk-there id jobs (enqueued job q) (rw e there) ∙ e

add_bulk-new :
    (id : String) (jobs q : List RelayJob)
    → count_where (relay_job_named id) q ≡ 0
    → 1 ≤ count_where (relay_job_named id) jobs
    → count_where (relay_job_named id) (add_bulk jobs q) ≡ 1
add_bulk-new id [] q absent some_job = absurd (omega (arith, some_job))
add_bulk-new id (job ∷ jobs) q absent some_job =
    let e = (enqueued-named id job q).1 absent in
    elim (Bool-cases (str_eq job.job_id id)) [
      | inl same ↦
          let one : count_where (relay_job_named id) (enqueued job q) ≡ 1 =
            e ∙ rw same (omega arith) in
          add_bulk-there id jobs (enqueued job q) (omega (arith, one)) ∙ one
      | inr other ↦
          let still : count_where (relay_job_named id) (enqueued job q) ≡ 0 =
            e ∙ rw other (omega arith) in
          add_bulk-new id jobs (enqueued job q) still (ground (arith, some_job, other))
    ]

add_bulk-other :
    (p : RelayJob → Bool) (jobs q : List RelayJob)
    → count_where p jobs ≡ 0
    → count_where p (add_bulk jobs q) ≡ count_where p q
add_bulk-other p [] q none' = refl
add_bulk-other p (job ∷ jobs) q none' =
    add_bulk-other p jobs (enqueued job q) (ground (arith, none')) ∙ same
  where
    same : count_where p (enqueued job q) ≡ count_where p q
    same = elim (Bool-cases (count_where (relay_job_named job.job_id) q == 0)) [
      | inl absent ↦ rw absent (ground (arith, none'))
      | inr there ↦ rw there refl
    ]

abbrev pub prisma : Prisma
prisma = record {
  token = in_memory;
  wallet = in_memory;
  transaction = transactions;
  update_clash = λ p f t. clash_on p t (set_hash f);
  outbox_event = in_memory;
  token_transfer = in_memory;
  token_event_cursor = in_memory;
  balance_snapshot = snapshots;
  token_of = λ r. token;
  from_wallet_of = λ r. wallet r.from_wallet_id;
  to_wallet_of = λ r. wallet r.to_wallet_id;
  wallet_of = λ s. wallet s.wallet_id;
  snapshot_token_of = λ s. token;
  find_after = λ after n t. take n (following after t);
  uuid = λ w. "event-1";
  record_not_found = "No record was found";
  unique_violated = "Unique constraint failed";
  settle = settle;
  add = add;
  add_bulk = add_bulk;
}

pub prisma-IsPrisma : IsPrisma prisma
prisma-IsPrisma = record {
  token_lem = in_memory-IsModel;
  wallet_lem = in_memory-IsModel;
  transaction_lem = unique_by-IsModel _;
  keeps_hash = λ p f t same kept. ap (clash_on p t) (kept unhashed);
  sets_hash = λ p f h t same sets one. ap (clash_on p t) (sets unhashed);
  outbox_event_lem = in_memory-IsModel;
  token_transfer_lem = in_memory-IsModel;
  token_event_cursor_lem = in_memory-IsModel;
  balance_snapshot_lem = unique_by-IsModel _;
  settle_ok = λ w w'. refl;
  settle_err = λ e w w'. refl;
  add_bulk_there = add_bulk-there;
  add_bulk_new = add_bulk-new;
  add_bulk_other = add_bulk-other;
  add_again = λ id j q named there. rw named (ground arith);
  add_new = λ id j q named absent p. rw named (rw absent refl);
}

pub prisma-IsSnapshotTable : IsSnapshotTable prisma
prisma-IsSnapshotTable = record {
  create_unique = λ s t there. ground arith;
  create_free = λ fields w free. (new_snapshot prisma fields w ∷ w.balance_snapshots, rw free refl);
}

pub prisma-IsPaged : IsPaged prisma
prisma-IsPaged = record {
  by_id = λ t. t;
  by_id_lem = λ p t. refl;
  find_after_lem = λ after n t. refl;
}

abbrev pub world : List Transaction → World
world rows = record {
  tokens = token ∷ [];
  wallets = wallet "wallet-1" ∷ wallet "wallet-2" ∷ [];
  transactions = rows;
  outbox_events = [];
  token_transfers = [];
  token_event_cursors = [];
  confirmation_jobs = [];
  relay_jobs = [];
  clock = 5000;
  transactions_confirmed_total = 0;
  transactions_reverted_total = 0;
  transactions_failed_total = 0;
  balance_snapshots = [];
  balance_reconciliation_snapshots = λ chain result. 0;
  balance_reconciliation_last_sweep = none;
}
