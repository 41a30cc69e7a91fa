-- ===== src/TransferService.antt =====
-- src/services/transfer.service.ts and src/services/ledger.service.ts, and what they use of
-- src/services/token.service.ts and src/services/wallet.service.ts. The custody of a wallet, which is
-- selected with its key, is a parameter.
pub mod Created
pub mod Recorded
pub mod Refused
pub mod Concluded
use blockchain_transaction_s.Prelude.{
  ℕ, String, Bool, ◌&&◌, not, List, Option, none, some, str_eq, if◌then◌else◌,
}
use blockchain_transaction_s.Effects.{
  Action, ok, pure, raise, gets, call, or_raise, ◌>>=◌, ◌>>◌, catch_error, message,
}
use blockchain_transaction_s.Errors.{token_not_found, wallet_not_found, wallet_not_custodial}
use blockchain_transaction_s.Transaction.{Transaction}
use blockchain_transaction_s.Transaction.StateMachine.{pending}
use blockchain_transaction_s.Schema.{World, Token, Wallet, ConfirmationJob}
use blockchain_transaction_s.Prisma.{Prisma}
use blockchain_transaction_s.TransactionRepository.{create, mark_submitted, mark_failed}
use blockchain_transaction_s.ConfirmationQueue.{enqueue}
use blockchain_transaction_s.Blockchain.{BlockchainAdapter, WalletCustodyStatus, get}

pub record TransferRequest : Type 0 where
  pub tenant_id : String
  pub user_id : String
  pub token_id : String
  pub from_wallet_id : String
  pub to_wallet_id : String
  pub amount : ℕ

-- `fromWallet.tenantId !== … || fromWallet.ownerId !== …`, negated
abbrev pub may_spend : TransferRequest → Wallet → Bool
may_spend request wallet =
    str_eq wallet.tenant_id request.tenant_id && str_eq wallet.owner_id request.user_id

-- A job without an identifier of its own.
abbrev pub submitted_job : Transaction → ConfirmationJob
submitted_job r = record { job_id = none; transaction_id = r.id; tenant_id = r.tenant_id }

module _ (prisma : Prisma) (adapters : List BlockchainAdapter)
    (custody_of : Wallet → WalletCustodyStatus) where
  unfoldable pub get_token : String → Action World Token
  get_token id = do
    found ← call λ w. (ok (prisma.token.find_first (λ t. str_eq t.id id) w.tokens), w)
    or_raise found token_not_found

  unfoldable pub get_wallet_by_id : String → Action World (Option Wallet)
  get_wallet_by_id id = call λ w. (ok (prisma.wallet.find_first (λ v. str_eq v.id id) w.wallets), w)

  unfoldable pub get_custody_status : String → Action World WalletCustodyStatus
  get_custody_status id = do
    wallet ← or_raise (← get_wallet_by_id id) wallet_not_found
    pure (custody_of wallet)

  abbrev pub new_pending : TransferRequest → World → Transaction
  new_pending request w = record {
    id = prisma.uuid w;
    tenant_id = request.tenant_id;
    token_id = request.token_id;
    from_wallet_id = request.from_wallet_id;
    to_wallet_id = request.to_wallet_id;
    tx_hash = none;
    amount = request.amount;
    gas_used = none;
    block_number = none;
    status = pending;
    created_at = w.clock;
    submitted_at = none;
    confirmation_started_at = none;
    confirmed_at = none;
    failure_reason = none;
    failed_at = none;
  }

  -- LedgerService.createPending
  unfoldable pub create_pending : TransferRequest → Action World Transaction
  create_pending request = gets (new_pending request) >>= create prisma

  -- From the submission to the confirmation job.
  unfoldable pub submit :
      TransferRequest → BlockchainAdapter → Token → Wallet → String → Action World Transaction
  submit request adapter token to_wallet transaction_id = do
    hash ← call λ w. (
      adapter.submit_transfer
          (record {
            tenant_id = request.tenant_id;
            wallet_id = request.from_wallet_id;
            to_address = to_wallet.address;
            amount = request.amount;
            asset_identifier = token.contract_address;
          })
          w,
      w,
    )
    transaction ← mark_submitted prisma transaction_id hash
    enqueue prisma (submitted_job transaction)
    pure transaction

  -- The `try` block: an error before the transaction has an identifier is thrown on, and a later one
  -- is recorded.
  unfoldable pub record_and_submit :
      TransferRequest → BlockchainAdapter → Token → Wallet → Action World Transaction
  record_and_submit request adapter token to_wallet = do
    transaction ← create_pending request
    catch_error (submit request adapter token to_wallet transaction.id)
        λ error. mark_failed prisma transaction.id (message error)

  unfoldable pub from_wallet_of_request : TransferRequest → Option Wallet → Action World Wallet
  from_wallet_of_request request none = raise wallet_not_found
  from_wallet_of_request request (some wallet) =
      if may_spend request wallet then pure wallet else raise wallet_not_found

  unfoldable pub transfer : TransferRequest → Action World Transaction
  transfer request = do
    token ← get_token request.token_id
    from_wallet ← from_wallet_of_request request (← get_wallet_by_id request.from_wallet_id)
    to_wallet ← or_raise (← get_wallet_by_id request.to_wallet_id) wallet_not_found
    adapter ← get adapters token.blockchain
    custody ← get_custody_status from_wallet.id
    (if not (adapter.can_sign custody)
        then raise wallet_not_custodial
        else record_and_submit request adapter token to_wallet)
