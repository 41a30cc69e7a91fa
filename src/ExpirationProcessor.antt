-- ===== src/ExpirationProcessor.antt =====
-- src/workers/expiration.processor.ts
pub mod Safety
use blockchain_transaction_s.Prelude.{
  ℕ, ◌+◌, ◌-◌, String, Bool, true, false, List, [], ◌∷◌, Option, none, some, length, ltb, leb,
  if◌then◌else◌,
}
use blockchain_transaction_s.Effects.{
  Result, ok, Action, pure, raise, gets, call, ◌>>=◌, ◌>>◌, catch_error,
}
use blockchain_transaction_s.Transaction.{Transaction}
use blockchain_transaction_s.Schema.{World}
use blockchain_transaction_s.Prisma.{Prisma}
use blockchain_transaction_s.TransactionRepository as Repo
use blockchain_transaction_s.TransactionRepository.{find_expired_candidates}
use blockchain_transaction_s.ConfirmationProcessor.{is_conflict}

module _ (prisma : Prisma) where
  -- A conflict means that the transaction has moved on.
  unfoldable pub expire : Transaction → Action World (Unit {0})
  expire transaction =
      catch_error
        (Repo.expire prisma transaction.id "Transaction confirmation timeout exceeded" >> pure tt)
        λ error. if is_conflict error then pure tt else raise error

  unfoldable pub expire_all : List Transaction → Action World (Unit {0})
  expire_all [] = pure tt
  expire_all (transaction ∷ transactions) = expire transaction >> expire_all transactions

  unfoldable pub process_expired_transactions : ℕ → Action World ℕ
  process_expired_transactions expiration_before = do
    transactions ← find_expired_candidates prisma expiration_before 100
    expire_all transactions
    pure (length transactions)
