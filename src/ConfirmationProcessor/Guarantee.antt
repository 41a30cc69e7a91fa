-- ===== src/ConfirmationProcessor/Guarantee.antt =====
-- What a confirmation job guarantees among other processes: every step keeps the outbox tracked, and
-- a job that returns leaves its transaction settled.
use blockchain_transaction_s.Prelude.{
  ◌≡◌, refl, ◌⊎◌, String, Bool, true, false, ◌&&◌, Option, none, some, str_eq, find, arith, subst,
}
use blockchain_transaction_s.Effects.{Error, Result, ok, err, pure, or_raise}
use blockchain_transaction_s.Effects.Rely.{
  Spec, Stable, Spec-pure, Spec-raise, Spec-if, Spec-bind, Spec-catch,
}
use blockchain_transaction_s.Transaction.{Transaction}
use blockchain_transaction_s.Transaction.StateMachine.{confirming, failed, status_eq}
use blockchain_transaction_s.Transaction.StateMachine.Paths.{is_terminal, terminal_stays}
use blockchain_transaction_s.Schema.{World}
use blockchain_transaction_s.Prisma.{Prisma, IsPrisma}
use blockchain_transaction_s.Prisma.Tables.{find_passes}
use blockchain_transaction_s.TransactionRepository.{TransactionWithToken, has_id, find_by_id}
use blockchain_transaction_s.TransactionRepository.Evolution.{
  row_of, status_of_row, Moves, HasRow-stable,
}
use blockchain_transaction_s.TransactionRepository.Tracking.{IsTracked, Tracks, Tracks-rely}
use blockchain_transaction_s.TransactionRepository.Transitions.{
  IsTracked-stable, Past, Spec-find_unique, Spec-mark_confirming, Spec-mark_failed,
}
use blockchain_transaction_s.ConfirmationProcessor.{
  is_conflict, read_current, handle_stale_confirmation, claim_confirmation, stop_if_terminal,
  mark_transaction_failed,
}
use blockchain_transaction_s.ConfirmationProcessor.Recording.{HasConfirmed, find_of_find}
use blockchain_transaction_s.ConfirmationProcessor.Commit.{has_id→id}

-- The row has a terminal status, with which it stays.
abbrev pub HasTerminal : String → World → Type 0
HasTerminal id w = (r : Transaction) × (row_of id w ≡ some r) × (is_terminal r.status ≡ true)

-- The transaction of the job is terminal, or the row that its hash leads to is confirmed.
abbrev pub Settled : String → String → World → Type 0
Settled id tx_hash w = HasTerminal id w ⊎ HasConfirmed tx_hash w

-- The outbox is tracked; a result comes with a fact.
abbrev pub Returns : {A : Type 0} → (A → World → Type 0) → Result A → World → Type 0
Returns Q (ok a) w = IsTracked w × Q a w
Returns Q (err e) w = IsTracked w

HasTerminal-of_Past : (id : String) (w : World) → Past id failed w → HasTerminal id w
HasTerminal-of_Past id w h = go (row_of id w) refl h
  where
    go :
        (o : Option Transaction)
        → row_of id w ≡ o
        → Moves (some failed) (status_of_row o)
        → HasTerminal id w
    go none e m = absurd m
    go (some r) e m = (r, e, ground (arith, terminal_stays m))

-- What was read of a row: if it was terminal, it still is that row.
abbrev Read : String → TransactionWithToken → World → Type 0
Read id current w = is_terminal current.row.status ≡ true → row_of id w ≡ some current.row

Read-stable :
    (id : String) (current : TransactionWithToken)
    → Stable Tracks (λ w. IsTracked w × Read id current w)
Read-stable id current u v t h = (
  IsTracked-stable u v t h.0,
  λ terminal. HasRow-stable id current.row terminal t.evolves (h.1 terminal),
)

-- What a query by identifier has found.
abbrev FoundRow : String → Option Transaction → World → Type 0
FoundRow id none w = Unit
FoundRow id (some r) w = row_of id w ≡ some r

abbrev pub FoundWithToken : String → Option TransactionWithToken → World → Type 0
FoundWithToken id none w = Unit
FoundWithToken id (some t) w = row_of id w ≡ some t.row

-- A query that also asks for the tenant finds the row of the identifier.
found_row :
    (id tenant_id : String) (w : World)
    → IsTracked w
    → FoundRow id (find (λ r. has_id id r && str_eq r.tenant_id tenant_id) w.transactions) w
found_row id tenant_id w t = go _ refl
  where
    q : Transaction → Bool
    q r = has_id id r && str_eq r.tenant_id tenant_id

    go : (o : Option Transaction) → find q w.transactions ≡ o → FoundRow id o w
    go none e = tt
    go (some r) e =
        let named : r.id ≡ id = has_id→id id r (ground (arith, find_passes q w.transactions r)) in
        subst (λ (i : String). row_of i w ≡ some r) named
          (find_of_find q w.transactions r e (t.unique r.id))

-- A claim that is not made means that the row is terminal.
abbrev pub Unclaimed : String → Bool → World → Type 0
Unclaimed id claimed w = claimed ≡ false → HasTerminal id w

module _ (prisma : Prisma) (lawful : IsPrisma prisma) where
  Spec-with_token :
      (id : String) (o : Option Transaction)
      → Spec {A = Option TransactionWithToken} Tracks
          (λ w. IsTracked w × FoundRow id o w)
          (pure (elim o [
            | none ↦ none
            | some r ↦ some (record { row = r; token = prisma.token_of r })
          ]))
          (Returns (FoundWithToken id))
  Spec-with_token id none = Spec-pure Tracks Tracks-rely _ (λ w h. h)
  Spec-with_token id (some r) = Spec-pure Tracks Tracks-rely _ (λ w h. h)

  pub Spec-find_by_id :
      (id tenant_id : String)
      → Spec Tracks IsTracked (find_by_id prisma id tenant_id) (Returns (FoundWithToken id))
  unfolding find_by_id
  Spec-find_by_id id tenant_id =
      Spec-bind Tracks Tracks-rely {M = Returns (FoundRow id)} _ _
        (Spec-find_unique prisma lawful _ IsTracked-stable (λ w h. (h, found_row id tenant_id w h))
          (λ message w h. h))
        (Spec-with_token id) (λ e w h. h)

  Spec-found :
      (id : String) (e : Error) (o : Option TransactionWithToken)
      → Spec Tracks (λ w. IsTracked w × FoundWithToken id o w) (or_raise o e) (Returns (Read id))
  Spec-found id e none = Spec-raise Tracks Tracks-rely e (λ w h. h.0)
  Spec-found id e (some t) = Spec-pure Tracks Tracks-rely t (λ w h. (h.0, λ terminal. h.1))

  Spec-read_current :
      (tx : TransactionWithToken)
      → Spec Tracks IsTracked (read_current prisma tx) (Returns (Read tx.id))
  unfolding read_current
  Spec-read_current tx =
      Spec-bind Tracks Tracks-rely _ _ (Spec-find_by_id tx.id tx.tenant_id) (Spec-found tx.id _)
        (λ e w h. h)

  Spec-handle_stale_confirmation :
      (tx : TransactionWithToken) (e : Error)
      → Spec Tracks IsTracked (handle_stale_confirmation prisma tx e) (Returns (Unclaimed tx.id))
  unfolding handle_stale_confirmation
  Spec-handle_stale_confirmation tx e =
      Spec-bind Tracks Tracks-rely _ _ (Spec-read_current tx)
        (λ current.
          Spec-if Tracks Tracks-rely (is_terminal current.status) _ _
            (λ terminal.
              Spec-pure Tracks Tracks-rely false
                (λ w h. (h.0, λ f. (current.row, h.1 terminal, terminal))))
            (λ live.
              Spec-if Tracks Tracks-rely (status_eq current.status confirming) _ _
                (λ taken. Spec-pure Tracks Tracks-rely true (λ w h. (h.0, λ f. cc)))
                (λ other. Spec-raise Tracks Tracks-rely e (λ w h. h.0))))
        (λ e w h. h)

  pub Spec-claim_confirmation :
      (tx : TransactionWithToken)
      → Spec Tracks IsTracked (claim_confirmation prisma tx) (Returns (Unclaimed tx.id))
  unfolding claim_confirmation
  Spec-claim_confirmation tx =
      Spec-catch Tracks Tracks-rely {M = Returns (Unclaimed tx.id)} _ _
        (Spec-bind Tracks Tracks-rely _ _ (Spec-mark_confirming prisma lawful tx.id)
          (λ r. Spec-pure Tracks Tracks-rely true (λ w h. (h.0, λ f. cc))) (λ e w h. h))
        (λ a w h. h)
        (λ e.
          Spec-if Tracks Tracks-rely (is_conflict e) _ _
            (λ conflict. Spec-handle_stale_confirmation tx e)
            (λ other. Spec-raise Tracks Tracks-rely e (λ w h. h)))

  pub Spec-stop_if_terminal :
      {A : Type 0} (tx : TransactionWithToken) (a : A) (e : Error)
      → Spec Tracks IsTracked
          (stop_if_terminal prisma tx a e)
          (Returns (λ a w. HasTerminal tx.id w))
  unfolding stop_if_terminal
  Spec-stop_if_terminal tx a e =
      Spec-if Tracks Tracks-rely (is_conflict e) _ _
        (λ conflict.
          Spec-bind Tracks Tracks-rely _ _ (Spec-read_current tx)
            (λ current.
              Spec-if Tracks Tracks-rely (is_terminal current.status) _ _
                (λ terminal.
                  Spec-pure Tracks Tracks-rely a
                    (λ w h. (h.0, (current.row, h.1 terminal, terminal))))
                (λ live. Spec-raise Tracks Tracks-rely e (λ w h. h.0)))
            (λ e w h. h))
        (λ other. Spec-raise Tracks Tracks-rely e (λ w h. h))

  pub Spec-mark_transaction_failed :
      (tx : TransactionWithToken)
      → Spec Tracks IsTracked
          (mark_transaction_failed prisma tx)
          (Returns (λ b w. HasTerminal tx.id w))
  unfolding mark_transaction_failed
  Spec-mark_transaction_failed tx =
      Spec-catch Tracks Tracks-rely {M = Returns (λ b w. HasTerminal tx.id w)} _ _
        (Spec-bind Tracks Tracks-rely _ _ (Spec-mark_failed prisma lawful tx.id "FAILED")
          (λ r. Spec-pure Tracks Tracks-rely true (λ w h. (h.0, HasTerminal-of_Past tx.id w h.1)))
          (λ e w h. h))
        (λ a w h. h) (λ e. Spec-stop_if_terminal tx false e)
