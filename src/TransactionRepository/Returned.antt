-- ===== src/TransactionRepository/Returned.antt =====
-- The conditional updates return a row of the identifier that they were given.
use blockchain_transaction_s.Prelude.{ℕ, ◌≡◌, ◌==◌, String, Bool, true, List, Option, some}
use blockchain_transaction_s.Effects.Returns.{
  Returns, Returns-anything, Returns-raise, Returns-or_raise, Returns-if, Returns-call,
  Returns-bind,
}
use blockchain_transaction_s.Transaction.{Transaction}
use blockchain_transaction_s.Transaction.StateMachine.{TransactionStatus}
use blockchain_transaction_s.Schema.{World}
use blockchain_transaction_s.Prisma.{Prisma, IsPrisma}
use blockchain_transaction_s.Prisma.Tables.{find_passes}
use blockchain_transaction_s.TransactionRepository.{
  has_id, find_unique, find_unique_or_throw, updated_row, updated_row_any, transition,
  transition_from_any, mark_submitted, mark_failed,
}

abbrev pub IsRowOf : String → Transaction → Type 0
IsRowOf id r = has_id id r ≡ true

module _ (prisma : Prisma) (lawful : IsPrisma prisma) where
  abbrev Passes : (Transaction → Bool) → Option Transaction → Type 0
  Passes p o = (r : Transaction) → o ≡ some r → p r ≡ true

  find_unique-Passes :
      (p : Transaction → Bool) → Returns {W = World} (Passes p) (find_unique prisma p)
  unfolding find_unique
  find_unique-Passes p = Returns-call _ (λ w r found.
      find_passes p w.transactions r
        (rw (← lawful.transaction_lem.find_first_lem p w.transactions) found))

  find_unique_or_throw-Passes :
      (p : Transaction → Bool)
      → Returns {W = World} (λ r. p r ≡ true) (find_unique_or_throw prisma p)
  unfolding find_unique_or_throw
  find_unique_or_throw-Passes p =
      Returns-bind _ _ (find_unique-Passes p) (λ o h. Returns-or_raise o _ h)

  updated_row_of :
      (count : ℕ) (id : String) (from : TransactionStatus)
      → Returns (IsRowOf id) (updated_row prisma count id from)
  unfolding updated_row
  updated_row_of count id from =
      Returns-if (count == 1) _ _ (find_unique_or_throw-Passes (has_id id)) (
        Returns-bind _ _ (Returns-anything _)
          (λ o h. Returns-bind _ _ (Returns-anything _) (λ r k. Returns-raise _)))

  updated_row_any_of :
      (count : ℕ) (id : String) → Returns (IsRowOf id) (updated_row_any prisma count id)
  unfolding updated_row_any
  updated_row_any_of count id =
      Returns-if (count == 1) _ _ (find_unique_or_throw-Passes (has_id id)) (
        Returns-bind _ _ (Returns-anything _)
          (λ o h. Returns-bind _ _ (Returns-anything _) (λ r k. Returns-raise _)))

  transition_of :
      (id : String) (from to : TransactionStatus) (f : Transaction → Transaction)
      → Returns (IsRowOf id) (transition prisma id from to f)
  unfolding transition
  transition_of id from to f =
      Returns-bind _ _ (Returns-anything _)
        (λ u h. Returns-bind _ _ (Returns-anything _) (λ n k. updated_row_of n id from))

  transition_from_any_of :
      (id : String) (from : List TransactionStatus) (to : TransactionStatus)
      (f : Transaction → Transaction)
      → Returns (IsRowOf id) (transition_from_any prisma id from to f)
  unfolding transition_from_any
  transition_from_any_of id from to f =
      Returns-bind _ _ (Returns-anything _)
        (λ u h. Returns-bind _ _ (Returns-anything _) (λ n k. updated_row_any_of n id))

  pub mark_submitted_of :
      (id tx_hash : String) → Returns (IsRowOf id) (mark_submitted prisma id tx_hash)
  unfolding mark_submitted
  mark_submitted_of id tx_hash =
      Returns-bind _ _ (Returns-anything _) (λ now h. transition_of id _ _ _)

  pub mark_failed_of : (id reason : String) → Returns (IsRowOf id) (mark_failed prisma id reason)
  unfolding mark_failed
  mark_failed_of id reason =
      Returns-bind _ _ (Returns-anything _) (λ now h. transition_from_any_of id _ _ _)
