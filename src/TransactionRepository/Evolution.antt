-- ===== src/TransactionRepository/Evolution.antt =====
-- What every process does to the statuses: rows stay, and move along the status machine.
use blockchain_transaction_s.Prelude.{
  ◌≡◌, refl, ◌∙◌, String, inl, inr, Bool, true, Option, none, some, find, update_where, Bool-cases,
  if◌then◌else◌, arith,
}
use blockchain_transaction_s.Effects.Rely.{IsRely}
use blockchain_transaction_s.Transaction.{Transaction}
use blockchain_transaction_s.Transaction.StateMachine.{TransactionStatus, can_transition}
use blockchain_transaction_s.Transaction.StateMachine.Paths.{
  Reaches, Reaches-trans, here, step, is_terminal, terminal_no_transition,
}
use blockchain_transaction_s.Schema.{World}
use blockchain_transaction_s.Prisma.Tables.{map_option, find-update_where}
use blockchain_transaction_s.TransactionRepository.{has_id}

abbrev pub row_of : String → World → Option Transaction
row_of id w = find (has_id id) w.transactions

abbrev pub status_of_row : Option Transaction → Option TransactionStatus
status_of_row none = none
status_of_row (some r) = some r.status

abbrev pub status_of : String → World → Option TransactionStatus
status_of id w = status_of_row (row_of id w)

-- From one status of a row to a later one; a row is never deleted.
abbrev pub Moves : Option TransactionStatus → Option TransactionStatus → Type 0
Moves none t = Unit
Moves (some s) none = ⊥
Moves (some s) (some t) = Reaches s t

-- The same of rows, where a row with a terminal status does not change at all.
abbrev pub RowMoves : Option Transaction → Option Transaction → Type 0
RowMoves none t = Unit
RowMoves (some r) none = ⊥
RowMoves (some r) (some r') = Reaches r.status r'.status × (is_terminal r.status ≡ true → r' ≡ r)

-- Every transaction stays, its status moves along allowed transitions only, and a row is frozen
-- once its status is terminal.
pub record Evolves (u v : World) : Type 0 where
  pub rows : (id : String) → RowMoves (row_of id u) (row_of id v)

RowMoves-same : (o : Option Transaction) → RowMoves o o
RowMoves-same none = tt
RowMoves-same (some r) = (here, λ t. refl)

RowMoves-chain : (o o' o'' : Option Transaction) → RowMoves o o' → RowMoves o' o'' → RowMoves o o''
RowMoves-chain none o' o'' p q = tt
RowMoves-chain (some r) none o'' p q = absurd p
RowMoves-chain (some r) (some r') none p q = absurd q
RowMoves-chain (some r) (some r') (some r'') p q =
    (Reaches-trans p.0 q.0, λ t. let e = p.1 t in q.1 (rw e t) ∙ e)

Moves-of_rows :
    (o o' : Option Transaction) → RowMoves o o' → Moves (status_of_row o) (status_of_row o')
Moves-of_rows none o' m = tt
Moves-of_rows (some r) none m = m
Moves-of_rows (some r) (some r') m = m.0

pub moves : {u v : World} → Evolves u v → (id : String) → Moves (status_of id u) (status_of id v)
moves {u} {v} e id = Moves-of_rows (row_of id u) (row_of id v) (e.rows id)

pub Moves-chain : (s t u : Option TransactionStatus) → Moves s t → Moves t u → Moves s u
Moves-chain none t u p q = tt
Moves-chain (some s) none u p q = absurd p
Moves-chain (some s) (some t) none p q = absurd q
Moves-chain (some s) (some t) (some u) p q = Reaches-trans p q

pub Evolves-rely : IsRely Evolves
Evolves-rely = record {
  same = λ w. record { rows = λ id. RowMoves-same (row_of id w) };
  chain =
      λ u v w p q. record { rows = λ id. RowMoves-chain _ (row_of id v) _ (p.rows id) (q.rows id) };
}

-- A world whose transactions are the same.
pub Evolves-of_same : (u v : World) → u.transactions ≡ v.transactions → Evolves u v
Evolves-of_same u v e = record { rows = λ id. rw (← e) (RowMoves-same (row_of id u)) }

-- An update of the rows that pass a test, to a status that each of them may move to.
module _ (p : Transaction → Bool) (f : Transaction → Transaction) (to : TransactionStatus)
    (allowed : (r : Transaction) → p r ≡ true → can_transition r.status to ≡ true)
    (target : (r : Transaction) → (f r).status ≡ to)
    (same_id : (r : Transaction) → (f r).id ≡ r.id) where
  RowMoves-update :
      (o : Option Transaction) → RowMoves o (map_option (λ r. if p r then f r else r) o)
  RowMoves-update none = tt
  RowMoves-update (some r) = elim (Bool-cases (p r)) [
    | inl passes ↦ rw passes (
      rw (target r) (step (allowed r passes) here),
      λ t. ground (arith, terminal_no_transition r.status to t, allowed r passes),
    )
    | inr fails ↦ rw fails (here, λ t. refl)
  ]

  pub Evolves-update :
      (w : World) → Evolves w (record w { transactions = update_where p f w.transactions })
  Evolves-update w = record {
    rows = λ id.
        rw (find-update_where (has_id id) p f w.transactions (λ r. rw (same_id r)))
          (RowMoves-update (row_of id w));
  }

-- What a process that has seen a terminal row may rely on.
pub HasRow-stable :
    (id : String) (r : Transaction) {u v : World}
    → is_terminal r.status ≡ true
    → Evolves u v
    → row_of id u ≡ some r
    → row_of id v ≡ some r
HasRow-stable id r {u} {v} t e h = go (row_of id u) (row_of id v) (e.rows id) h
  where
    go : (o o' : Option Transaction) → RowMoves o o' → o ≡ some r → o' ≡ some r
    go none o' m e = cc
    go (some a) none m e = absurd m
    go (some a) (some b) m e = ground (arith, m.1)
