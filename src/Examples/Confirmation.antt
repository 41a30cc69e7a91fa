-- ===== src/Examples/Confirmation.antt =====
-- Confirmation jobs on a table of transactions, and statuses.
use blockchain_transaction_s.Prelude.{
  ◌+◌, ◌≤◌, ◌≡◌, refl, inl, inr, String, true, List, [], ◌∷◌, none, some, arith, eq_iff, str_eq,
  Bool-cases, count_where,
}
use blockchain_transaction_s.Effects.{ok, err, Process, Turn, state_conflict, catch_error, ◌>>=◌}
use blockchain_transaction_s.Effects.Rely.{Benign}
use blockchain_transaction_s.Transaction.{Transaction}
use blockchain_transaction_s.Transaction.StateMachine.{pending, submitted, failed, can_transition}
use blockchain_transaction_s.Schema.{World, evm}
use blockchain_transaction_s.TransactionRepository.{
  TransactionWithToken, has_id, mark_confirming, transition, confirm,
}
use blockchain_transaction_s.Outbox.{create_in_transaction}
use blockchain_transaction_s.TransactionRepository.Evolution.{status_of}
use blockchain_transaction_s.TransactionRepository.Tracking.{
  IsTracked, Tracks, Tracks-rely, Tracks-of_same, expected_of_row,
}
use blockchain_transaction_s.Blockchain.{BlockchainAdapter, ConfirmationStatus, get}
use blockchain_transaction_s.ConfirmationProcessor.{
  confirm_transaction, handle_reverted_transaction, get_blockchain_transaction, on_status,
  handle_successful_transaction, claim_confirmation, persist_confirmation, in_transaction,
  confirm_and_record,
}
use blockchain_transaction_s.ConfirmationProcessor.Persist.{alone}
use blockchain_transaction_s.ConfirmationProcessor.Guarantee.{Settled}
use blockchain_transaction_s.ConfirmationProcessor.Outcome.{
  confirm_transaction-Tracks, confirm_transaction-Settled,
}
use blockchain_transaction_s.ConfirmationProcessor.Reverted.{reverted_submitted_unchanged}
use blockchain_transaction_s.Examples.InMemory.{prisma, prisma-IsPrisma, token, transaction, world}

-- A chain on which every transaction is in block 42.
abbrev pub adapter : ConfirmationStatus → BlockchainAdapter
adapter status = record {
  chain = evm;
  can_sign = λ c. true;
  submit_transfer = λ r w. ok "0xnew";
  get_transaction = λ hash w. ok (record {
    tx_hash = hash;
    block_number = some 42;
    confirmations = 1;
    status = status;
    gas_used = some 21000;
  });
  get_token_balance = some (λ r w. ok (record { balance = 100; block_number = 42 }));
  verify_ownership = none;
}

abbrev row : Transaction
row = transaction "tx-1" "0x1" submitted

abbrev pub orphan : Transaction
orphan = transaction "tx-3" "0x3" pending

abbrev tx : TransactionWithToken
tx = record { row = row; token = token }

abbrev pub start : World
start = world (row ∷ transaction "tx-2" "0x2" failed ∷ orphan ∷ [])

unique_start : (id : String) → count_where (has_id id) start.transactions ≤ 1
unique_start id = elim (Bool-cases (str_eq "tx-1" id)) [
  | inl e ↦ rw (← (eq_iff "tx-1" id).0 e) (omega arith)
  | inr e ↦ rw e (elim (Bool-cases (str_eq "tx-2" id)) [
    | inl d ↦ rw (← (eq_iff "tx-2" id).0 d) (omega arith)
    | inr d ↦ rw d (elim (Bool-cases (str_eq "tx-3" id)) [
      | inl c ↦ rw c (omega arith)
      | inr c ↦ rw c (omega arith)
    ])
  ])
]

none_expected : (id : String) → expected_of_row (status_of id start) ≡ 0
none_expected id = elim (Bool-cases (str_eq "tx-1" id)) [
  | inl e ↦ rw e refl
  | inr e ↦ rw e (elim (Bool-cases (str_eq "tx-2" id)) [
    | inl d ↦ rw d refl
    | inr d ↦ rw d (elim (Bool-cases (str_eq "tx-3" id)) [ inl c ↦ rw c refl | inr c ↦ rw c refl ])
  ])
]

pub start-IsTracked : IsTracked start
start-IsTracked = record { unique = unique_start; recorded = λ id. rw (none_expected id) refl }

-- Time passes, and one call of the chain is lost.
abbrev pub others : List (Turn World)
others =
    record { step = λ w. record w { clock = w.clock + 7 }; fault = none }
    ∷ record { step = λ w. w; fault = none }
    ∷ []

pub others-Benign : Benign Tracks others
others-Benign = ((λ w. Tracks-of_same w _ refl refl), ((λ w. Tracks-rely.same w), tt))

abbrev pub process : Process World
process = record { world = start; turns = others }

confirm_transaction-Tracks_example :
    Tracks start
      (confirm_transaction prisma
        (adapter ConfirmationStatus.confirmed ∷ [])
        tx
        "0x1"
        process).1.world
confirm_transaction-Tracks_example =
    confirm_transaction-Tracks prisma prisma-IsPrisma (adapter ConfirmationStatus.confirmed ∷ []) tx
      "0x1" process others-Benign start-IsTracked

-- Run from the submitted row, the job returns.
confirms :
    (confirm_transaction prisma (adapter ConfirmationStatus.confirmed ∷ []) tx "0x1" process).0
    ≡ ok tt
unfolding confirm_transaction catch_error ◌>>=◌ get_blockchain_transaction get on_status
    handle_successful_transaction claim_confirmation mark_confirming transition can_transition
    persist_confirmation in_transaction confirm_and_record confirm create_in_transaction
confirms = refl

confirm_transaction-Settled_example :
    Settled "tx-1" "0x1"
      (confirm_transaction prisma
        (adapter ConfirmationStatus.confirmed ∷ [])
        tx
        "0x1"
        process).1.world
confirm_transaction-Settled_example =
    confirm_transaction-Settled prisma prisma-IsPrisma (adapter ConfirmationStatus.confirmed ∷ [])
      tx "0x1" process others-Benign start-IsTracked confirms

reverted_submitted_unchanged_example :
    handle_reverted_transaction prisma tx (alone start)
    ≡ (err (state_conflict "tx-1" submitted), alone start)
reverted_submitted_unchanged_example =
    reverted_submitted_unchanged prisma prisma-IsPrisma tx start row start-IsTracked refl refl refl
