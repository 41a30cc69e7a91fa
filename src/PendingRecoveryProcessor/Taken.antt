-- ===== src/PendingRecoveryProcessor/Taken.antt =====
-- The hash of a transfer that another transaction already has.
use blockchain_transaction_s.Prelude.{
  ◌+◌, ◌≤◌, ◌≡◌, refl, String, Bool, true, ◌&&◌, ◌||◌, not, List, [], ◌∷◌, some, leb, count_where,
  arith,
}
use blockchain_transaction_s.Transaction.{Transaction}
use blockchain_transaction_s.Transaction.StateMachine.{pending, status_eq}
use blockchain_transaction_s.Schema.{World}
use blockchain_transaction_s.Prisma.{Prisma, IsPrisma, has_hash}
use blockchain_transaction_s.Prisma.Tables.{count_split, count_mono}
use blockchain_transaction_s.TransactionRepository.{has_id}
use blockchain_transaction_s.TransactionRepository.Evolution.{row_of}
use blockchain_transaction_s.TransactionRepository.Tracking.{IsTracked}
use blockchain_transaction_s.TransactionRepository.Alone.{one_row}

-- A transaction of another identifier has the hash.
abbrev pub is_taken : String → String → World → Bool
is_taken id tx_hash w =
    leb 1 (count_where (λ r. not (has_id id r) && has_hash tx_hash r) w.transactions)

count_or :
    {A : Type 0} (q p z : A → Bool) (t : List A)
    → ((r : A) → q r ≡ true → (p r || z r) ≡ true)
    → count_where q t ≤ count_where p t + count_where z t
count_or q p z [] h = omega arith
count_or q p z (x ∷ t) h = ground (arith, h x, count_or q p z t h)

module _ (prisma : Prisma) (lawful : IsPrisma prisma) (id : String) (w : World) (r : Transaction)
    (t : IsTracked w) (here : row_of id w ≡ some r) (at : status_eq r.status pending ≡ true) where
  abbrev is_pending : Transaction → Bool
  is_pending x = status_eq x.status pending

  -- Only the pending row has the identifier, so the other rows are those of other identifiers.
  others :
      (tx_hash : String)
      → count_where (λ x. not (has_id id x && is_pending x) && has_hash tx_hash x) w.transactions
        ≡ count_where (λ x. not (has_id id x) && has_hash tx_hash x) w.transactions
  others tx_hash = omega (
    arith,
    t.unique id,
    one_row prisma lawful id w r t here is_pending at,
    count_split (has_id id) is_pending w.transactions,
    count_or (λ x. not (has_id id x && is_pending x) && has_hash tx_hash x)
        (λ x. not (has_id id x) && has_hash tx_hash x) (λ x. has_id id x && not (is_pending x))
        w.transactions (λ x h. ground arith),
    count_mono (λ x. not (has_id id x) && has_hash tx_hash x)
        (λ x. not (has_id id x && is_pending x) && has_hash tx_hash x) w.transactions
        (λ x h. ground arith),
  )

  -- The update of `markSubmitted` violates the unique hash exactly when it is taken.
  pub update_clash_lem :
      (tx_hash : String) (f : Transaction → Transaction)
      → ((x : Transaction) → (f x).id ≡ x.id)
      → ((x : Transaction) → (f x).tx_hash ≡ some tx_hash)
      → prisma.update_clash (λ x. has_id id x && is_pending x) f w.transactions
        ≡ is_taken id tx_hash w
  update_clash_lem tx_hash f same sets =
      rw
        (
          lawful.sets_hash (λ x. has_id id x && is_pending x) f tx_hash w.transactions same sets
              (one_row prisma lawful id w r t here is_pending at),
          others tx_hash,
        )
        refl
