-- ===== src/TransferRepository.antt =====
-- src/repositories/transfer.repository.ts: the transfers that the event listener saw on the chain.
use blockchain_transaction_s.Prelude.{
  ℕ, String, Bool, ◌&&◌, List, [], ◌∷◌, Option, none, some, str_eq, ◌==◌, leb,
}
use blockchain_transaction_s.Effects.{Result, ok, err, Action, call, known_request}
use blockchain_transaction_s.Schema.{World, TokenTransfer}
use blockchain_transaction_s.Prisma.{Prisma}

pub record TransferData : Type 0 where
  pub token_id : String
  pub from : String
  pub to : String
  pub amount : ℕ
  pub transaction_hash : String
  pub log_index : ℕ
  pub block_number : ℕ

pub record MatchingTransferParams : Type 0 where
  pub token_id : String
  pub from : String
  pub to : String
  pub amount : ℕ
  pub not_before : ℕ

-- The unique key `transactionHash_logIndex`.
abbrev pub at_log : String → ℕ → TokenTransfer → Bool
at_log transaction_hash log_index t =
    str_eq t.transaction_hash transaction_hash && t.log_index == log_index

abbrev pub is_match : MatchingTransferParams → TokenTransfer → Bool
is_match params t =
    (str_eq t.token_id params.token_id && str_eq t.from params.from)
    && ((str_eq t.to params.to && t.amount == params.amount) && leb params.not_before t.created_at)

abbrev first : {A : Type 0} → List A → Option A
first [] = none
first (x ∷ xs) = some x

module _ (prisma : Prisma) where
  abbrev pub new_transfer : TransferData → World → TokenTransfer
  new_transfer fields w = record {
    id = prisma.uuid w;
    token_id = fields.token_id;
    from = fields.from;
    to = fields.to;
    amount = fields.amount;
    transaction_hash = fields.transaction_hash;
    log_index = fields.log_index;
    block_number = fields.block_number;
    created_at = w.clock;
  }

  -- `upsert` with an empty `update`: the row of the log, or a new one.
  unfoldable pub upsert : TransferData → World → Result TokenTransfer × World
  upsert fields w =
      elim (prisma.token_transfer.find_first (at_log fields.transaction_hash fields.log_index)
        w.token_transfers) [
          | some t ↦ (ok t, w)
          | none ↦ elim (prisma.token_transfer.create (new_transfer fields w) w.token_transfers) [
            | none ↦ (err (known_request "P2002" prisma.unique_violated), w)
            | some rows ↦ (ok (new_transfer fields w), record w { token_transfers = rows })
          ]
        ]

  unfoldable pub create : TransferData → Action World TokenTransfer
  create fields = call (upsert fields)

  unfoldable pub find_by_transaction_hash_and_log_index :
      String → ℕ → Action World (Option TokenTransfer)
  find_by_transaction_hash_and_log_index transaction_hash log_index = call λ w. (
    ok (prisma.token_transfer.find_first (at_log transaction_hash log_index) w.token_transfers),
    w,
  )

  -- `findFirst` with `orderBy`: the first row of `findMany` with `take: 1`.
  abbrev pub matching_transfer : MatchingTransferParams → World → Option TokenTransfer
  matching_transfer params w =
      first
        (prisma.token_transfer.find_many (is_match params) (λ t. t.created_at) 1 w.token_transfers)

  unfoldable pub find_matching_transfer :
      MatchingTransferParams → Action World (Option TokenTransfer)
  find_matching_transfer params = call (λ w. (ok (matching_transfer params w), w))
