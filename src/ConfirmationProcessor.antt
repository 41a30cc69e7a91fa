-- ===== src/ConfirmationProcessor.antt =====
-- src/workers/confirmation.processor.ts: one confirmation job, from the chain's answer to the row
-- and its outbox event. Logging, tracing and durations are left out; the counters are kept.
pub mod Persist
pub mod Reverted
pub mod Outcome
pub mod Guarantee
pub mod Commit
pub mod Recording
use blockchain_transaction_s.Prelude.{
  ℕ, ◌+◌, String, Bool, true, false, ◌||◌, List, Option, none, some, str_eq, if◌then◌else◌,
}
use Prim.Native.String.{◌++◌}
use text.Mathlib.Text.{find?}
use blockchain_transaction_s.Effects.{
  Error, Result, ok, err, Process, Action, pure, raise, modify, gets, call, or_raise, ◌>>=◌, ◌>>◌,
  catch_error, state_conflict, transaction_pending, plain, message,
}
use blockchain_transaction_s.Transaction.StateMachine.{TransactionStatus, confirming, status_eq}
use blockchain_transaction_s.Transaction.StateMachine.Paths.{is_terminal}
use blockchain_transaction_s.Transaction.{Transaction}
use blockchain_transaction_s.Schema.{World}
use blockchain_transaction_s.Prisma.{Prisma}
use blockchain_transaction_s.TransactionRepository.{
  TransactionWithToken, is_some, find_by_id, mark_confirming, mark_failed, confirm,
}
use blockchain_transaction_s.Blockchain.{
  BlockchainAdapter, BlockchainTransaction, ConfirmationStatus, get,
}
use blockchain_transaction_s.Outbox.{OutboxEventData, create_in_transaction}

-- `error instanceof TransactionStateConflictError`
abbrev pub is_conflict : Error → Bool
is_conflict (state_conflict id expected) = true
is_conflict _ = false

abbrev pub is_pending_error : Error → Bool
is_pending_error (transaction_pending tx_hash) = true
is_pending_error _ = false

-- An error that only says that the transaction is not confirmed or not visible yet.
unfoldable pub is_not_yet : Error → Bool
is_not_yet error =
    is_pending_error error
    || (is_some (find? (message error) "could not be found")
        || is_some (find? (message error) "No such mempool or blockchain transaction"))

abbrev pub confirmed_event : Transaction → OutboxEventData
confirmed_event confirmed = record {
  aggregate_id = confirmed.id;
  type = "transaction.confirmed";
  payload = record {
    transaction_id = confirmed.id;
    tenant_id = confirmed.tenant_id;
    token_id = confirmed.token_id;
    tx_hash = confirmed.tx_hash;
    block_number = confirmed.block_number;
    amount = confirmed.amount;
    confirmed_at = confirmed.confirmed_at;
  };
}

abbrev pub unit : Unit {0}
unit = tt

module _ (prisma : Prisma) where
  -- `prisma.$transaction`: the body runs alone, and all or nothing of it stays.
  unfoldable pub in_transaction : Action World (Unit {0}) → Action World (Unit {0})
  in_transaction body =
      call λ w.
        let (r, p) = body (record { world = w; turns = List.[] }) in prisma.settle w (r, p.world)

  -- The row as it is after a conflict: `handleStaleConfirmation` and the `catch` blocks.
  unfoldable pub read_current : TransactionWithToken → Action World TransactionWithToken
  read_current tx = do
    or_raise (← find_by_id prisma tx.id tx.tenant_id)
        (plain ("Transaction " ++ (tx.id ++ " not found")))

  unfoldable pub handle_stale_confirmation : TransactionWithToken → Error → Action World Bool
  unfolding read_current
  handle_stale_confirmation tx error = do
    current ← read_current tx
    if is_terminal current.status
        then pure false
        else if status_eq current.status confirming
        then pure true
        else raise error

  unfoldable pub claim_confirmation : TransactionWithToken → Action World Bool
  claim_confirmation tx =
      catch_error (mark_confirming prisma tx.id >> pure true)
        λ error. if is_conflict error then handle_stale_confirmation tx error else raise error

  -- What a `catch` does with a conflict once the work is done or lost: a terminal row is stale.
  unfoldable pub stop_if_terminal : {A : Type 0} → TransactionWithToken → A → Error → Action World A
  stop_if_terminal tx a error =
      if is_conflict error
      then (do
        current ← read_current tx
        if is_terminal current.status then pure a else raise error)
      else raise error

  unfoldable pub confirm_and_record : String → BlockchainTransaction → Action World (Unit {0})
  confirm_and_record tx_hash chain =
      if is_some chain.block_number
      then (do
        confirmed ← confirm prisma tx_hash chain.block_number chain.gas_used
        create_in_transaction prisma (confirmed_event confirmed)
        pure tt)
      else raise (plain ("Confirmed transaction " ++ (tx_hash ++ " has no block number")))

  unfoldable pub persist_confirmation :
      TransactionWithToken → String → BlockchainTransaction → Action World (Unit {0})
  persist_confirmation tx tx_hash chain =
      catch_error (in_transaction (confirm_and_record tx_hash chain)) (stop_if_terminal tx unit)

  unfoldable pub handle_successful_transaction :
      TransactionWithToken → String → BlockchainTransaction → Action World (Unit {0})
  handle_successful_transaction tx tx_hash chain = do
    claimed ← claim_confirmation tx
    if claimed
        then (do
          persist_confirmation tx tx_hash chain
          modify
              (λ w. record w { transactions_confirmed_total = w.transactions_confirmed_total + 1 })
              unit)
        else pure tt

  unfoldable pub mark_transaction_failed : TransactionWithToken → Action World Bool
  mark_transaction_failed tx =
      catch_error (mark_failed prisma tx.id "FAILED" >> pure true) (stop_if_terminal tx false)

  unfoldable pub handle_reverted_transaction : TransactionWithToken → Action World (Unit {0})
  handle_reverted_transaction tx = do
    failed ← mark_transaction_failed tx
    if failed
        then modify
            (λ w. record w { transactions_reverted_total = w.transactions_reverted_total + 1 }) unit
        else pure tt

  -- It always throws the error on; the failure is counted unless it is only "not yet".
  unfoldable pub handle_confirmation_error : Error → Action World (Unit {0})
  handle_confirmation_error error = if is_not_yet error then raise error else (do
    modify (λ w. record w { transactions_failed_total = w.transactions_failed_total + 1 }) unit
    raise error)

  unfoldable pub on_status :
      ConfirmationStatus
      → TransactionWithToken
      → String
      → BlockchainTransaction
      → Action World (Unit {0})
  on_status ConfirmationStatus.confirmed tx tx_hash chain =
      handle_successful_transaction tx tx_hash chain
  on_status ConfirmationStatus.failed tx tx_hash chain = handle_reverted_transaction tx
  on_status ConfirmationStatus.pending tx tx_hash chain = raise (transaction_pending tx_hash)

  module _ (adapters : List BlockchainAdapter) where
    unfoldable pub get_blockchain_transaction :
        TransactionWithToken → String → Action World BlockchainTransaction
    get_blockchain_transaction tx tx_hash = do
      adapter ← get adapters tx.token.blockchain
      call (λ w. (adapter.get_transaction tx_hash w, w))

    unfoldable pub confirm_transaction : TransactionWithToken → String → Action World (Unit {0})
    confirm_transaction tx tx_hash =
        catch_error
          (do
            chain ← get_blockchain_transaction tx tx_hash
            on_status chain.status tx tx_hash chain)
          handle_confirmation_error

    -- A row that was never submitted has no hash to look up, or an empty one: the job ends with a warning.
    unfoldable pub with_hash : TransactionWithToken → Option String → Action World (Unit {0})
    with_hash tx none = pure tt
    with_hash tx (some tx_hash) =
        if str_eq tx_hash "" then pure tt else confirm_transaction tx tx_hash

    unfoldable pub process_transaction : String → String → Action World (Unit {0})
    unfolding with_hash
    process_transaction id tenant_id = do
      transaction ←
          or_raise (← find_by_id prisma id tenant_id)
            (plain ("Transaction " ++ (id ++ " not found")))
      with_hash transaction transaction.row.tx_hash
