-- ===== src/TransactionRepository.antt =====
-- src/repositories/transaction.repository.ts: conditional updates of the status, and the queries.
pub mod Evolution
pub mod Alone
pub mod Returned
pub mod Tracking
pub mod Transitions
use blockchain_transaction_s.Prelude.{
  ℕ, ◌-◌, ◌*◌, ◌<◌, String, ◌≡◌, Bool, true, false, ◌&&◌, List, [], ◌∷◌, map, Option, none, some,
  str_eq, leb, ◌==◌, if◌then◌else◌, arith,
}
use Prim.Native.String.{◌++◌}
use blockchain_transaction_s.Effects.{
  Error, Result, ok, err, Action, pure, raise, gets, call, or_raise, ◌>>=◌, ◌>>◌,
  invalid_transition, state_conflict, known_request, plain,
}
use blockchain_transaction_s.Transaction.{Transaction}
use blockchain_transaction_s.Transaction.StateMachine.{
  TransactionStatus, pending, submitted, confirming, confirmed, failed, expired, status_eq,
  includes, can_transition,
}
use blockchain_transaction_s.Schema.{World, Token, Wallet}
use blockchain_transaction_s.Prisma.{Prisma, has_hash}

-- A row with what `include` adds to it.
pub record TransactionWithToken : Type 0 where
  pub row : Transaction
  pub open row use *
  pub token : Token

pub record TransactionWithWallets : Type 0 where
  pub row : Transaction
  pub open row use *
  pub from_wallet : Wallet
  pub to_wallet : Wallet

abbrev pub has_id : String → Transaction → Bool
has_id id r = str_eq r.id id

abbrev pub is_some : {A : Type 0} → Option A → Bool
is_some none = false
is_some (some a) = true

abbrev pub at_or : ℕ → Option ℕ → ℕ
at_or d none = d
at_or d (some n) = n

-- TransactionStateMachine.assertTransition
unfoldable pub assert_transition : TransactionStatus → TransactionStatus → Action World (Unit {0})
assert_transition from to =
    if can_transition from to then pure tt else raise (invalid_transition from to)

-- the loop of `transitionFromAny` over its sources
unfoldable pub assert_transitions :
    List TransactionStatus → TransactionStatus → Action World (Unit {0})
unfolding assert_transition
assert_transitions [] to = pure tt
assert_transitions (source ∷ sources) to =
    assert_transition source to >> assert_transitions sources to

module _ (prisma : Prisma) where
  unfoldable pub update_many :
      (Transaction → Bool) → (Transaction → Transaction) → World → Result ℕ × World
  update_many where' update w =
      let (n, t) = prisma.transaction.update_many where' update w.transactions in
      if prisma.update_clash where' update w.transactions
      then (err (known_request "P2002" prisma.unique_violated), w)
      else (ok n, record w { transactions = t })

  unfoldable pub find_unique : (Transaction → Bool) → Action World (Option Transaction)
  find_unique p = call (λ w. (ok (prisma.transaction.find_first p w.transactions), w))

  unfoldable pub find_unique_or_throw : (Transaction → Bool) → Action World Transaction
  unfolding find_unique
  find_unique_or_throw p = do
    or_raise (← find_unique p) (known_request "P2025" prisma.record_not_found)

  -- The end of `transition`: the changed row, or the reason why no row was changed.
  unfoldable pub updated_row : ℕ → String → TransactionStatus → Action World Transaction
  unfolding find_unique_or_throw
  updated_row count id from = if count == 1 then find_unique_or_throw (has_id id) else (do
    or_raise (← find_unique (has_id id)) (plain ("Transaction " ++ (id ++ " not found")))
    raise (state_conflict id from))

  -- `transition`; `data` is spread over the new status.
  unfoldable pub transition :
      String
      → TransactionStatus
      → TransactionStatus
      → (Transaction → Transaction)
      → Action World Transaction
  unfolding assert_transition update_many updated_row
  transition id from to update = do
    assert_transition from to
    count ← call (
        update_many (λ r. has_id id r && status_eq r.status from)
          (λ r. update (record r { status = to })))
    updated_row count id from

  -- The end of `transitionFromAny`, which reports the status that it found.
  unfoldable pub updated_row_any : ℕ → String → Action World Transaction
  unfolding find_unique_or_throw
  updated_row_any count id = if count == 1 then find_unique_or_throw (has_id id) else (do
    found ← or_raise (← find_unique (has_id id)) (plain ("Transaction " ++ (id ++ " not found")))
    raise (state_conflict id found.status))

  unfoldable pub transition_from_any :
      String
      → List TransactionStatus
      → TransactionStatus
      → (Transaction → Transaction)
      → Action World Transaction
  unfolding assert_transitions update_many updated_row_any
  transition_from_any id from to update = do
    assert_transitions from to
    count ← call (
        update_many (λ r. has_id id r && includes from r.status)
          (λ r. update (record r { status = to })))
    updated_row_any count id

  unfoldable pub mark_submitted : String → String → Action World Transaction
  mark_submitted id tx_hash = do
    now ← gets (λ w. w.clock)
    transition id pending submitted
        (λ r. record r { tx_hash = some tx_hash; submitted_at = some now })

  unfoldable pub mark_confirming : String → Action World Transaction
  mark_confirming id = do
    now ← gets (λ w. w.clock)
    transition id submitted confirming (λ r. record r { confirmation_started_at = some now })

  unfoldable pub confirm : String → Option ℕ → Option ℕ → Action World Transaction
  unfolding find_unique
  confirm tx_hash block_number gas_used = do
    found ←
        or_raise (← find_unique (has_hash tx_hash))
          (plain ("Transaction with hash " ++ (tx_hash ++ " not found")))
    now ← gets (λ w. w.clock)
    transition found.id confirming confirmed (λ r. record r {
      block_number = block_number;
      gas_used = gas_used;
      confirmed_at = some now;
    })

  unfoldable pub mark_failed : String → String → Action World Transaction
  mark_failed id reason = do
    now ← gets (λ w. w.clock)
    transition_from_any id (pending ∷ confirming ∷ []) failed
        (λ r. record r { failure_reason = some reason; failed_at = some now })

  unfoldable pub expire : String → String → Action World Transaction
  expire id reason = do
    now ← gets (λ w. w.clock)
    transition id confirming expired
        (λ r. record r { failure_reason = some reason; failed_at = some now })

  unfoldable pub find_by_id : String → String → Action World (Option TransactionWithToken)
  unfolding find_unique
  find_by_id id tenant_id = do
    found ← find_unique (λ r. has_id id r && str_eq r.tenant_id tenant_id)
    pure
        (elim found [ none ↦ none | some r ↦ some (record { row = r; token = prisma.token_of r }) ])

  find_many : (Transaction → Bool) → (Transaction → ℕ) → ℕ → Action World (List Transaction)
  find_many p key limit =
      call (λ w. (ok (prisma.transaction.find_many p key limit w.transactions), w))

  unfoldable pub find_expired_candidates : ℕ → ℕ → Action World (List Transaction)
  unfolding find_many
  find_expired_candidates expiration_before limit =
      find_many
        (λ r. status_eq r.status confirming && elim r.confirmation_started_at [
          | none ↦ false
          | some started ↦ leb started expiration_before
        ])
        (λ r. at_or 0 r.confirmation_started_at) limit

  unfoldable pub find_submitted_candidates : ℕ → Action World (List Transaction)
  unfolding find_many
  find_submitted_candidates limit =
      find_many (λ r. status_eq r.status submitted && is_some r.tx_hash)
        (λ r. at_or 0 r.submitted_at) limit

  -- `findOrphanedPendingCandidates`, with the wallets that `include` adds
  unfoldable pub find_orphaned_pending_candidates :
      ℕ → ℕ → Action World (List TransactionWithWallets)
  unfolding find_many
  find_orphaned_pending_candidates older_than limit = do
    rows ←
        find_many (λ r. status_eq r.status pending && leb r.created_at older_than)
          (λ r. r.created_at) limit
    pure (
        map
          (λ r. record {
            row = r;
            from_wallet = prisma.from_wallet_of r;
            to_wallet = prisma.to_wallet_of r;
          })
          rows)

  -- `create`; a violated unique constraint is Prisma's P2002.
  unfoldable pub create : Transaction → Action World Transaction
  create row = call (λ w. elim (prisma.transaction.create row w.transactions) [
    | none ↦ (err (known_request "P2002" prisma.unique_violated), w)
    | some t ↦ (ok row, record w { transactions = t })
  ])
