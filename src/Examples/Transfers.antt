-- ===== src/Examples/Transfers.antt =====
-- A transfer between two wallets.
use blockchain_transaction_s.Prelude.{
  ◌≡◌, ◌⊎◌, refl, String, true, List, [], ◌∷◌, none, some, find, count_where, eq_refl, eq_iff, ap,
  ◌∙◌, arith,
}
use blockchain_transaction_s.Effects.{
  Error, ok, err, Process, Turn, state_conflict, ◌>>=◌, catch_error,
}
use blockchain_transaction_s.Transaction.{Transaction}
use blockchain_transaction_s.Transaction.StateMachine.{submitted, failed, can_transition}
use blockchain_transaction_s.Schema.{World, Token, Wallet}
use blockchain_transaction_s.Blockchain.{
  BlockchainAdapter, WalletCustodyStatus, custodial, confirmed, get,
}
use blockchain_transaction_s.TransactionRepository.{
  has_id, create, mark_submitted, mark_failed, transition, transition_from_any, assert_transition,
  assert_transitions, update_many, updated_row, updated_row_any, find_unique, find_unique_or_throw,
}
use blockchain_transaction_s.TransactionRepository.Tracking.{IsTracked, Tracks}
use blockchain_transaction_s.TransactionRepository.Transitions.{Past}
use blockchain_transaction_s.ConfirmationQueue.{enqueue}
use blockchain_transaction_s.TransferService.{
  TransferRequest, transfer, get_token, get_wallet_by_id, get_custody_status, create_pending,
  submit, record_and_submit, from_wallet_of_request,
}
use blockchain_transaction_s.TransferService.Created.{HasPrimaryKey}
use blockchain_transaction_s.TransferService.Recorded.{transfer-Recorded}
use blockchain_transaction_s.TransferService.Concluded.{Ended, transfer-Ended}
use blockchain_transaction_s.TransferService.Refused.{CanTransfer, transfer-CanTransfer}
use blockchain_transaction_s.BalanceRepository.Latest.{quiet}
use blockchain_transaction_s.Examples.InMemory.{
  token, wallet, prisma, prisma-IsPrisma, world, create_one-free,
}
use blockchain_transaction_s.Examples.Confirmation.{adapter}

prisma-HasPrimaryKey : HasPrimaryKey prisma
prisma-HasPrimaryKey = record {
  create_new = λ r t t' e.
      let (free, added) = create_one-free (λ x. has_id x.id) r t t' e in (absent r.id t free, free);
  create_found = λ r t t' e.
      let (free, added) = create_one-free (λ x. has_id x.id) r t t' e in
      rw added (rw (eq_refl r.id) refl);
  create_other = λ r t t' id e other.
      let (free, added) = create_one-free (λ x. has_id x.id) r t t' e in rw added (rw other refl);
}
  where
    absent :
        (id : String) (t : List Transaction)
        → count_where (has_id id) t ≡ 0
        → find (has_id id) t ≡ none
    absent id [] h = refl
    absent id (x ∷ t) h = ground (arith, absent id t)

abbrev custody_of : Wallet → WalletCustodyStatus
custody_of wallet = record { custody_type = custodial; has_custody_key = true }

abbrev request : TransferRequest
request = record {
  tenant_id = "tenant-1";
  user_id = "user-1";
  token_id = "token-1";
  from_wallet_id = "wallet-1";
  to_wallet_id = "wallet-2";
  amount = 100;
}

empty-IsTracked : IsTracked (world [])
empty-IsTracked = record { unique = λ id. omega arith; recorded = λ id. refl }

transfer-Recorded_example :
    let o = transfer prisma (adapter confirmed ∷ []) custody_of request (quiet (world [])) in
    Tracks (world []) o.1.world
    × IsTracked o.1.world
    × ((r : Transaction) → o.0 ≡ ok r → Past r.id submitted o.1.world ⊎ Past r.id failed o.1.world)
transfer-Recorded_example =
    transfer-Recorded prisma prisma-IsPrisma prisma-HasPrimaryKey (adapter confirmed ∷ [])
      custody_of request (quiet (world [])) tt empty-IsTracked

transfer-Ended_example :
    Ended prisma
      (adapter confirmed ∷ [])
      custody_of
      request
      (world [])
      (adapter confirmed)
      token
      (wallet "wallet-2")
      (transfer prisma (adapter confirmed ∷ []) custody_of request (quiet (world [])))
transfer-Ended_example =
    transfer-Ended prisma prisma-IsPrisma prisma-HasPrimaryKey (adapter confirmed ∷ []) custody_of
      request (world []) token (wallet "wallet-1") (wallet "wallet-2") (adapter confirmed)
      empty-IsTracked (refl, refl, (refl, refl), refl, refl, refl)

-- Somebody else asks for a transfer from the wallet.
abbrev foreign : TransferRequest
foreign = record request { user_id = "user-2" }

not_theirs :
    (t : Token) (from_wallet to_wallet : Wallet) (adapter' : BlockchainAdapter)
    → CanTransfer
        (adapter confirmed ∷ [])
        custody_of
        foreign
        (world [])
        t
        from_wallet
        to_wallet
        adapter'
    → ⊥
not_theirs t from_wallet to_wallet adapter' (here, mine, (tenant, user), there, found, signs) =
    let named : wallet "wallet-1" ≡ from_wallet = cc in
    let same = (eq_iff "user-1" "user-2").1 (ap (λ (v : Wallet). v.owner_id) named ∙ user) in cc

transfer-CanTransfer_example :
    (e : Error) × (transfer prisma (adapter confirmed ∷ []) custody_of foreign (quiet (world []))
      ≡ (err e, quiet (world [])))
transfer-CanTransfer_example =
    transfer-CanTransfer prisma prisma-IsPrisma (adapter confirmed ∷ []) custody_of foreign
      (world []) not_theirs

abbrev idle : Turn World
idle = record { step = λ w. w; fault = none }

-- The confirmation queue cannot be reached, at the ninth call of the request.
abbrev unreachable : Process World
unreachable = record {
  world = world [];
  turns =
      idle
      ∷ idle
      ∷ idle
      ∷ idle
      ∷ idle
      ∷ idle
      ∷ idle
      ∷ idle
      ∷ record { step = λ w. w; fault = some "ECONNREFUSED" }
      ∷ [];
}

-- The transaction was submitted, and the request fails with a conflict of the error's own handling.
conflict :
    (transfer prisma (adapter confirmed ∷ []) custody_of request unreachable).0
    ≡ err (state_conflict "event-1" submitted)
unfolding transfer get_token get_wallet_by_id get_custody_status create_pending submit
    record_and_submit from_wallet_of_request create mark_submitted mark_failed transition
    transition_from_any assert_transition assert_transitions update_many updated_row updated_row_any
    find_unique find_unique_or_throw enqueue get can_transition ◌>>=◌ catch_error
conflict = refl
