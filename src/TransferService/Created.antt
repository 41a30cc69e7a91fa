-- ===== src/TransferService/Created.antt =====
-- A new transaction is tracked like the others.
use blockchain_transaction_s.Prelude.{
  ◌≡◌, refl, sym, ◌∙◌, ◌⊎◌, inl, inr, String, false, List, Option, none, some, str_eq, eq_iff, find,
  count_where, arith, Bool-cases, subst,
}
use blockchain_transaction_s.Transaction.{Transaction}
use blockchain_transaction_s.Transaction.StateMachine.{pending}
use blockchain_transaction_s.Transaction.StateMachine.Paths.{here}
use blockchain_transaction_s.Schema.{World}
use blockchain_transaction_s.Prisma.{Prisma, IsPrisma}
use blockchain_transaction_s.TransactionRepository.{has_id}
use blockchain_transaction_s.TransactionRepository.Evolution.{row_of, RowMoves}
use blockchain_transaction_s.TransactionRepository.Tracking.{Tracks}

-- The primary key of the transactions: a row is added only under a new identifier, is found by it,
-- and the rows of other identifiers are found as before.
pub record HasPrimaryKey (prisma : Prisma) : Type 0 where
  pub create_new :
      (r : Transaction) (t t' : List Transaction)
      → prisma.transaction.create r t ≡ some t'
      → (find (has_id r.id) t ≡ none) × (count_where (has_id r.id) t ≡ 0)
  pub create_found :
      (r : Transaction) (t t' : List Transaction)
      → prisma.transaction.create r t ≡ some t'
      → find (has_id r.id) t' ≡ some r
  pub create_other :
      (r : Transaction) (t t' : List Transaction) (id : String)
      → prisma.transaction.create r t ≡ some t'
      → str_eq r.id id ≡ false
      → find (has_id id) t' ≡ find (has_id id) t

module _ (prisma : Prisma) (lawful : IsPrisma prisma) (key : HasPrimaryKey prisma) where
  RowMoves-refl : (o : Option Transaction) → RowMoves o o
  RowMoves-refl none = tt
  RowMoves-refl (some r) = (here, λ t. refl)

  module _ (r : Transaction) (w : World) (t' : List Transaction)
      (added : prisma.transaction.create r w.transactions ≡ some t')
      (fresh : r.status ≡ pending) where
    abbrev after : World
    after = record w { transactions = t' }

    row-after :
        (id : String)
        → ((row_of id after ≡ row_of id w)
            × (count_where (has_id id) t' ≡ count_where (has_id id) w.transactions))
          ⊎ ((row_of id after ≡ some r) × (row_of id w ≡ none) × (count_where (has_id id) t' ≡ 1))
    row-after id =
        let counts = lawful.transaction_lem.create_lem r w.transactions t' added (has_id id) in
        elim (Bool-cases (str_eq r.id id)) [
          | inr other ↦
              inl (
                key.create_other r w.transactions t' id added other,
                counts ∙ rw other (omega arith),
              )
          | inl same ↦
              let e = (eq_iff r.id id).0 same in
              let (gone, zero') = key.create_new r w.transactions t' added in
              inr (
                subst (λ (x : String). find (has_id x) t' ≡ some r) e
                    (key.create_found r w.transactions t' added),
                subst (λ (x : String). find (has_id x) w.transactions ≡ none) e gone,
                counts
                    ∙ rw same (
                        omega (
                          arith,
                          subst (λ (x : String). count_where (has_id x) w.transactions ≡ 0) e zero',
                        )),
              )
        ]

    pub created-Tracks : Tracks w after
    created-Tracks = record {
      evolves = record {
        rows = λ id. elim (row-after id) [
          | inl (same, count) ↦
              subst (RowMoves (row_of id w)) (sym same) (RowMoves-refl (row_of id w))
          | inr (new', gone, one) ↦ rw gone tt
        ];
      };
      kept = λ t. record {
        unique = λ id. elim (row-after id) [
          | inl (same, count) ↦ omega (arith, count, t.unique id)
          | inr (new', gone, one) ↦ omega (arith, one)
        ];
        recorded = λ id. elim (row-after id) [
          | inl (same, count) ↦ t.recorded id ∙ rw same refl
          | inr (new', gone, one) ↦ t.recorded id ∙ rw gone (rw new' (rw fresh refl))
        ];
      };
    }
