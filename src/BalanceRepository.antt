-- ===== src/BalanceRepository.antt =====
-- src/repositories/balance.repository.ts: the snapshots of the balances.
pub mod Latest
pub mod Newer
pub mod Refinement
use blockchain_transaction_s.Prelude.{
  ℕ, ◌≡◌, ◌≤◌, String, Bool, false, ◌&&◌, List, map, count_where, Option, none, some, str_eq, ltb,
  if◌then◌else◌,
}
use blockchain_transaction_s.Effects.{
  Error, Result, ok, err, Action, raise, call, or_raise, ◌>>=◌, catch_error, known_request,
  invalid_transition, state_conflict, transaction_pending, app_error, plain,
}
use blockchain_transaction_s.Schema.{World, BalanceSnapshot, Wallet, Token}
use blockchain_transaction_s.Prisma.{Prisma}

pub record BalanceData : Type 0 where
  pub wallet_id : String
  pub token_id : String
  pub balance : ℕ
  pub block_number : ℕ

-- A snapshot with the wallet and the token that `select` adds to it.
pub record SnapshotForReconciliation : Type 0 where
  pub id : String
  pub wallet_id : String
  pub token_id : String
  pub wallet : Wallet
  pub token : Token

-- The unique key `walletId_tokenId`.
abbrev pub of_wallet_token : String → String → BalanceSnapshot → Bool
of_wallet_token wallet_id token_id s = str_eq s.wallet_id wallet_id && str_eq s.token_id token_id

abbrev pub has_snapshot_id : String → BalanceSnapshot → Bool
has_snapshot_id id s = str_eq s.id id

-- the `where` of the conditional update: an older snapshot of the wallet and the token
abbrev pub is_older : BalanceData → BalanceSnapshot → Bool
is_older fields s =
    of_wallet_token fields.wallet_id fields.token_id s && ltb s.block_number fields.block_number

abbrev pub observed : BalanceData → World → BalanceSnapshot → BalanceSnapshot
observed fields w s = record s {
  balance = fields.balance;
  block_number = fields.block_number;
  updated_at = w.clock;
}

-- `error instanceof PrismaClientKnownRequestError && error.code === 'P2002'`
abbrev pub is_unique_violation : Error → Bool
is_unique_violation (known_request code text) = str_eq code "P2002"
is_unique_violation _ = false

module _ (prisma : Prisma) where
  unfoldable pub find : String → String → Action World (Option BalanceSnapshot)
  find wallet_id token_id = call λ w. (
    ok (
        prisma.balance_snapshot.find_first (of_wallet_token wallet_id token_id)
          w.balance_snapshots),
    w,
  )

  unfoldable pub find_unique_or_throw : String → String → Action World BalanceSnapshot
  find_unique_or_throw wallet_id token_id = do
    or_raise (← find wallet_id token_id) (known_request "P2025" prisma.record_not_found)

  unfoldable pub update_older : BalanceData → World → Result ℕ × World
  update_older fields w =
      let (n, rows) =
        prisma.balance_snapshot.update_many (is_older fields) (observed fields w)
          w.balance_snapshots in
      (ok n, record w { balance_snapshots = rows })

  abbrev pub new_snapshot : BalanceData → World → BalanceSnapshot
  new_snapshot fields w = record {
    id = prisma.uuid w;
    wallet_id = fields.wallet_id;
    token_id = fields.token_id;
    balance = fields.balance;
    block_number = fields.block_number;
    updated_at = w.clock;
  }

  unfoldable pub create_snapshot : BalanceData → World → Result BalanceSnapshot × World
  create_snapshot fields w =
      elim (prisma.balance_snapshot.create (new_snapshot fields w) w.balance_snapshots) [
        | none ↦ (err (known_request "P2002" prisma.unique_violated), w)
        | some rows ↦ (ok (new_snapshot fields w), record w { balance_snapshots = rows })
      ]

  -- the `catch` block: a snapshot that another worker has created is read again
  unfoldable pub on_create_error : BalanceData → Error → Action World BalanceSnapshot
  on_create_error fields error =
      if is_unique_violation error
      then find_unique_or_throw fields.wallet_id fields.token_id
      else raise error

  unfoldable pub after_update : BalanceData → ℕ → Action World BalanceSnapshot
  after_update fields count =
      if ltb 0 count
      then find_unique_or_throw fields.wallet_id fields.token_id
      else catch_error (call (create_snapshot fields)) (on_create_error fields)

  unfoldable pub upsert : BalanceData → Action World BalanceSnapshot
  upsert fields = call (update_older fields) >>= after_update fields

  abbrev pub selected : BalanceSnapshot → SnapshotForReconciliation
  selected s = record {
    id = s.id;
    wallet_id = s.wallet_id;
    token_id = s.token_id;
    wallet = prisma.wallet_of s;
    token = prisma.snapshot_token_of s;
  }

  unfoldable pub find_page_for_reconciliation :
      Option String → ℕ → Action World (List SnapshotForReconciliation)
  find_page_for_reconciliation after_id take =
      call λ w. (ok (map selected (prisma.find_after after_id take w.balance_snapshots)), w)

-- What the unique constraint does: a second snapshot of a wallet and a token is refused, and the first
-- one is added (that a new `uuid` is not in use, and that the wallet and the token are there, is part
-- of this).
pub record IsSnapshotTable (prisma : Prisma) : Type 0 where
  pub create_unique :
      (s : BalanceSnapshot) (t : List BalanceSnapshot)
      → 1 ≤ count_where (of_wallet_token s.wallet_id s.token_id) t
      → prisma.balance_snapshot.create s t ≡ none
  pub create_free :
      (fields : BalanceData) (w : World)
      → count_where (of_wallet_token fields.wallet_id fields.token_id) w.balance_snapshots ≡ 0
      → (rows : List BalanceSnapshot) × (prisma.balance_snapshot.create
            (new_snapshot prisma fields w)
            w.balance_snapshots
          ≡ some rows)
