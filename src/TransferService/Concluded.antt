-- ===== src/TransferService/Concluded.antt =====
-- How a transfer that may be made ends, among nobody else.
use blockchain_transaction_s.Prelude.{
  ◌≡◌, refl, ◌∙◌, ◌⊎◌, String, List, [], ◌∷◌, none, some, inl, inr, Bool-cases, Option-cases,
  if◌then◌else◌,
}
use blockchain_transaction_s.Effects.{
  Result, ok, err, Process, ◌>>=◌, catch_error, message, known_request,
}
use blockchain_transaction_s.Transaction.{Transaction}
use blockchain_transaction_s.Transaction.StateMachine.{
  pending, submitted, confirming, failed, status_eq, includes, can_transition,
}
use blockchain_transaction_s.Schema.{World, Token, Wallet, ConfirmationJob}
use blockchain_transaction_s.Prisma.{Prisma, IsPrisma}
use blockchain_transaction_s.TransactionRepository.{
  create, mark_submitted, mark_failed, assert_transition, assert_transitions,
}
use blockchain_transaction_s.TransactionRepository.Tracking.{IsTracked}
use blockchain_transaction_s.TransactionRepository.Alone.{
  with_row, transition_ok, transition_clash, transition_from_any_ok,
}
use blockchain_transaction_s.ConfirmationQueue.{enqueue}
use blockchain_transaction_s.Blockchain.{
  BlockchainAdapter, WalletCustodyStatus, TransferRequest as SubmissionRequest,
}
use blockchain_transaction_s.BalanceRepository.Latest.{quiet}
use blockchain_transaction_s.PendingRecoveryProcessor.Taken.{is_taken, update_clash_lem}
use blockchain_transaction_s.TransferService.{
  TransferRequest, create_pending, submit, record_and_submit, transfer,
}
use blockchain_transaction_s.TransferService.Created.{HasPrimaryKey, created-Tracks}
use blockchain_transaction_s.TransferService.Refused.{CanTransfer, Owns-may_spend, goes_on}

module _ (prisma : Prisma) (adapters : List BlockchainAdapter)
    (custody_of : Wallet → WalletCustodyStatus) (request : TransferRequest) (w : World) where
  -- The row that is created.
  abbrev row : Transaction
  row = record {
    id = prisma.uuid w;
    tenant_id = request.tenant_id;
    token_id = request.token_id;
    from_wallet_id = request.from_wallet_id;
    to_wallet_id = request.to_wallet_id;
    tx_hash = none;
    amount = request.amount;
    gas_used = none;
    block_number = none;
    status = pending;
    created_at = w.clock;
    submitted_at = none;
    confirmation_started_at = none;
    confirmed_at = none;
    failure_reason = none;
    failed_at = none;
  }

  abbrev asked : ConfirmationJob
  asked = record { job_id = none; transaction_id = row.id; tenant_id = request.tenant_id }

  abbrev submission : Token → Wallet → SubmissionRequest
  submission token to_wallet = record {
    tenant_id = request.tenant_id;
    wallet_id = request.from_wallet_id;
    to_address = to_wallet.address;
    amount = request.amount;
    asset_identifier = token.contract_address;
  }

  abbrev with_rows : List Transaction → World
  with_rows t = record w { transactions = t }

  abbrev as_failed : String → Transaction → Transaction
  as_failed reason r = record r {
    status = failed;
    failure_reason = some reason;
    failed_at = some w.clock;
  }

  abbrev as_submitted : String → Transaction → Transaction
  as_submitted tx_hash r = record r {
    status = submitted;
    tx_hash = some tx_hash;
    submitted_at = some w.clock;
  }

  -- The new row has failed, for a reason.
  abbrev pub failed_with : String → World → Result Transaction × Process World
  failed_with reason w' = (
    ok (as_failed reason row),
    quiet (
        with_row row.id (λ r. includes (pending ∷ confirming ∷ []) r.status) (as_failed reason) w'),
  )

  -- The new row is submitted, and its confirmation is asked for.
  abbrev pub submitted_with : String → World → Result Transaction × Process World
  submitted_with tx_hash w' =
      let u = with_row row.id (λ r. status_eq r.status pending) (as_submitted tx_hash) w' in
      (
        ok (as_submitted tx_hash row),
        quiet (record u { confirmation_jobs = prisma.add asked w.confirmation_jobs }),
      )

  -- By what the chain answers: a submission that fails, or whose hash another transaction has, fails
  -- the row; else the row is submitted under the hash.
  abbrev pub concluded : Result String → World → Result Transaction × Process World
  concluded (err e) w' = failed_with (message e) w'
  concluded (ok tx_hash) w' =
      if is_taken row.id tx_hash w'
      then failed_with (message (known_request "P2002" prisma.unique_violated)) w'
      else submitted_with tx_hash w'

  -- A row is created, PENDING, the transfer is submitted with it in the table, and the row is
  -- concluded.
  abbrev pub Concluded :
      BlockchainAdapter → Token → Wallet → Result Transaction × Process World → Type 0
  Concluded adapter token to_wallet o =
      (t : List Transaction) × (prisma.transaction.create row w.transactions ≡ some t)
      × (o
          ≡ concluded (adapter.submit_transfer (submission token to_wallet) (with_rows t))
              (with_rows t))

  -- The client refuses the row for a unique constraint, and the request throws; or the row is created
  -- and concluded.
  abbrev pub Ended :
      BlockchainAdapter → Token → Wallet → Result Transaction × Process World → Type 0
  Ended adapter token to_wallet o =
      ((prisma.transaction.create row w.transactions ≡ none)
        × (o ≡ (err (known_request "P2002" prisma.unique_violated), quiet w)))
      ⊎ Concluded adapter token to_wallet o

  module _ (lawful : IsPrisma prisma) (key : HasPrimaryKey prisma) (tracked : IsTracked w)
      (adapter : BlockchainAdapter) (token : Token) (to_wallet : Wallet) where
    abbrev made : Result Transaction × Process World
    made = record_and_submit prisma adapters custody_of request adapter token to_wallet (quiet w)

    module _ (t : List Transaction)
        (added : prisma.transaction.create row w.transactions ≡ some t) where
      still : IsTracked (with_rows t)
      still = (created-Tracks prisma lawful key row w t added refl).kept tracked

      mark_failed-new :
          (reason : String)
          → mark_failed prisma row.id reason (quiet (with_rows t))
            ≡ failed_with reason (with_rows t)
      unfolding mark_failed can_transition assert_transition assert_transitions ◌>>=◌
      mark_failed-new reason =
          transition_from_any_ok prisma lawful row.id (with_rows t) row still
            (key.create_found row w.transactions t added) (pending ∷ confirming ∷ []) failed
            (λ r. record r { failure_reason = some reason; failed_at = some w.clock }) refl refl
            (λ x. refl) (λ x. refl)

      made_with :
          (answer : Result String)
          → adapter.submit_transfer (submission token to_wallet) (with_rows t) ≡ answer
          → made ≡ concluded answer (with_rows t)
      unfolding record_and_submit create_pending create submit mark_submitted enqueue can_transition
          catch_error ◌>>=◌
      made_with (err e) failure = rw (added, failure) (rw (mark_failed-new (message e)) refl)
      made_with (ok tx_hash) success =
          let here = key.create_found row w.transactions t added in
          let clash =
            update_clash_lem prisma lawful row.id (with_rows t) row still here refl tx_hash
              (as_submitted tx_hash) (λ x. refl) (λ x. refl) in
          elim (Bool-cases (is_taken row.id tx_hash (with_rows t))) [
            | inl lost ↦
                rw (added, success, lost)
                  (rw
                    (transition_clash prisma lawful row.id (with_rows t) row still here pending
                      submitted
                      (λ r. record r { tx_hash = some tx_hash; submitted_at = some w.clock }) refl
                      (clash ∙ lost))
                    (rw (mark_failed-new (message (known_request "P2002" prisma.unique_violated)))
                      refl))
            | inr free ↦
                rw (added, success, free)
                  (rw
                    (transition_ok prisma lawful row.id (with_rows t) row still here pending
                      submitted
                      (λ r. record r { tx_hash = some tx_hash; submitted_at = some w.clock }) refl
                      refl (λ x. refl) (clash ∙ free))
                    refl)
          ]

    not_made :
        prisma.transaction.create row w.transactions ≡ none
        → made ≡ (err (known_request "P2002" prisma.unique_violated), quiet w)
    unfolding record_and_submit create_pending create ◌>>=◌
    not_made refused = rw refused refl

    record_and_submit-Concluded :
        ((prisma.transaction.create row w.transactions ≡ none)
          × (made ≡ (err (known_request "P2002" prisma.unique_violated), quiet w)))
        ⊎ Concluded adapter token to_wallet made
    record_and_submit-Concluded =
        elim (Option-cases (prisma.transaction.create row w.transactions)) [
          | inl refused ↦ inl (refused, not_made refused)
          | inr (t, added) ↦ inr (t, added, made_with t added _ refl)
        ]

-- A transfer that may be made is requested among nobody else, of which no call is lost, in a world
-- where the identifiers of transactions are unique: the token, both wallets and the adapter of the
-- token's chain are there, the first wallet belongs to the tenant and the user of the request, and the
-- adapter can sign with the custody of that wallet. Then a PENDING row is created, unless the client
-- refuses it for a unique constraint, which throws and changes nothing, and with the row in the table
-- the adapter is asked to submit the transfer. If that fails, or gives a hash that another transaction
-- has, the row is FAILED with the reason and is returned; else the row is SUBMITTED under the hash, a
-- job asks for its confirmation, and the row is returned.
pub transfer-Ended :
    (prisma : Prisma)
    → IsPrisma prisma
    → HasPrimaryKey prisma
    → (adapters : List BlockchainAdapter) (custody_of : Wallet → WalletCustodyStatus)
      (request : TransferRequest) (w : World) (token : Token) (from_wallet to_wallet : Wallet)
      (adapter : BlockchainAdapter)
    → IsTracked w
    → CanTransfer adapters custody_of request w token from_wallet to_wallet adapter
    → Ended prisma adapters custody_of request w adapter token to_wallet
        (transfer prisma adapters custody_of request (quiet w))
transfer-Ended prisma lawful key adapters custody_of request w token from_wallet to_wallet adapter
      tracked (here, mine, owner, there, found, signs) =
    let same =
      goes_on prisma lawful adapters custody_of request w token here from_wallet mine
        (Owns-may_spend request from_wallet owner) to_wallet there adapter found signs in
    elim (record_and_submit-Concluded prisma adapters custody_of request w lawful key tracked
      adapter token to_wallet) [
        | inl (taken, thrown) ↦ inl (taken, same ∙ thrown)
        | inr (t, added, ends) ↦ inr (t, added, same ∙ ends)
      ]
