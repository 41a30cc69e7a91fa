-- ===== src/TransactionRepository/Transitions.antt =====
-- What each conditional update of the status guarantees, whatever the other processes do.
use blockchain_transaction_s.Prelude.{
  ℕ, ◌≡◌, ◌≢◌, refl, String, Bool, true, List, [], ◌∷◌, Option, some, find, count_where,
  update_where, arith, All, ◌==◌, Bool-cases, inl, inr,
}
use blockchain_transaction_s.Effects.{Error, Result, ok, err, raise, call, or_raise, ◌>>=◌, plain}
use blockchain_transaction_s.Effects.Rely.{
  Spec, Stable, Spec-pure, Spec-raise, Spec-call, Spec-if, Spec-weaken, Spec-bind, Spec-gets,
  Spec-given, Spec-or_raise,
}
use blockchain_transaction_s.Transaction.{Transaction}
use blockchain_transaction_s.Transaction.StateMachine.{
  TransactionStatus, submitted, confirming, confirmed, failed, expired, can_transition,
}
use blockchain_transaction_s.Transaction.StateMachine.Paths.{
  here, status_eq→eq, allowed_of_includes,
}
use blockchain_transaction_s.Schema.{World}
use blockchain_transaction_s.Prisma.{Prisma, IsPrisma}
use blockchain_transaction_s.Prisma.Tables.{find-update_where}
use blockchain_transaction_s.TransactionRepository.{
  has_id, assert_transition, assert_transitions, update_many, find_unique, find_unique_or_throw,
  updated_row, updated_row_any, transition, transition_from_any, mark_submitted, mark_confirming,
  mark_failed, expire,
}
use blockchain_transaction_s.TransactionRepository.Evolution.{status_of, Moves, Moves-chain, moves}
use blockchain_transaction_s.TransactionRepository.Tracking.{
  IsTracked, Tracks, Tracks-rely, Tracks-update, find_of_count_where,
}

-- The transaction is there, at the status or past it.
abbrev pub Past : String → TransactionStatus → World → Type 0
Past id s w = Moves (some s) (status_of id w)

pub Past-stable : (id : String) (s : TransactionStatus) → Stable Tracks (Past id s)
Past-stable id s u v t h = Moves-chain (some s) (status_of id u) _ h (moves t.evolves id)

pub IsTracked-stable : Stable Tracks IsTracked
IsTracked-stable u v t h = t.kept h

-- How an update ends: the outbox is tracked, and if it returns the row is past the new status.
abbrev pub Ends : String → TransactionStatus → {A : Type 0} → Result A → World → Type 0
Ends id s (ok a) w = IsTracked w × Past id s w
Ends id s (err e) w = IsTracked w

-- How the conditional update ends: if it changed one row, that row has the new status.
abbrev Counted : String → TransactionStatus → Result ℕ → World → Type 0
Counted id s (ok n) w = IsTracked w × (n ≡ 1 → Past id s w)
Counted id s (err e) w = IsTracked w

module _ (prisma : Prisma) (lawful : IsPrisma prisma) where
  pub Spec-find_unique :
      {P : World → Type 0} {Q : Result (Option Transaction) → World → Type 0}
      (p : Transaction → Bool)
      → Stable Tracks P
      → ((w : World) → P w → Q (ok (find p w.transactions)) w)
      → ((message : String) (w : World) → P w → Q (err (plain message)) w)
      → Spec Tracks P (find_unique prisma p) Q
  unfolding find_unique
  Spec-find_unique p stable found lost =
      Spec-call Tracks Tracks-rely _ stable
        (λ w h. (
          Tracks-rely.same w,
          rw (lawful.transaction_lem.find_first_lem p w.transactions) (found w h),
        ))
        lost

  -- A conditional update of the row of one identifier, to a status other than `confirmed`.
  module _ (id : String) (to : TransactionStatus) (p : Transaction → Bool)
      (f : Transaction → Transaction)
      (one_row : (r : Transaction) → p r ≡ true → has_id id r ≡ true)
      (allowed : (r : Transaction) → p r ≡ true → can_transition r.status to ≡ true)
      (target : (r : Transaction) → (f r).status ≡ to)
      (same_id : (r : Transaction) → (f r).id ≡ r.id) (other : to ≢ confirmed) where
    Past-update :
        (w : World)
        → IsTracked w
        → count_where p w.transactions ≡ 1
        → Past id to (record w { transactions = update_where p f w.transactions })
    Past-update w t one =
        let (r, found, passes) =
          find_of_count_where (has_id id) p w.transactions one_row (t.unique id) (omega arith) in
        rw (find-update_where (has_id id) p f w.transactions (λ r. rw (same_id r)))
          (rw (found, passes) (rw (target r) here))

    Spec-update : Spec Tracks IsTracked (call (update_many prisma p f)) (Counted id to)
    unfolding update_many
    Spec-update =
        Spec-call Tracks Tracks-rely _ IsTracked-stable
          (λ w h.
            let kept = Tracks-update p f to allowed target same_id w other in
            elim (Bool-cases (prisma.update_clash p f w.transactions)) [
              | inl clash ↦ rw clash (Tracks-rely.same w, h)
              | inr free ↦
                  rw (free, lawful.transaction_lem.update_many_lem p f w.transactions)
                    (kept, (kept.kept h, Past-update w h))
            ])
          (λ message w h. h)

  -- The row that is read back after a successful update.
  Spec-found_row :
      (id : String) (s : TransactionStatus)
      → Spec Tracks
          (λ w. IsTracked w × Past id s w)
          (find_unique_or_throw prisma (has_id id))
          (Ends id s)
  unfolding find_unique_or_throw
  Spec-found_row id s =
      Spec-bind Tracks Tracks-rely {M = λ r w. IsTracked w × Past id s w} _ _
        (Spec-find_unique (has_id id)
          (λ u v t h. (IsTracked-stable u v t h.0, Past-stable id s u v t h.1)) (λ w h. h)
          (λ message w h. h))
        (λ o. Spec-or_raise Tracks Tracks-rely o _ (λ a w h. h) (λ w h. h.0)) (λ e w h. h.0)

  Counted-stable :
      (id : String) (s : TransactionStatus) (n : ℕ) → Stable Tracks (Counted id s (ok n))
  Counted-stable id s n u v t h = (IsTracked-stable u v t h.0, λ e. Past-stable id s u v t (h.1 e))

  -- Without a change the row is looked for and an error thrown, which leaves the outbox tracked.
  Spec-missed_row :
      {P : World → Type 0} (id : String) (s : TransactionStatus) (e : Error)
      (conflict : Transaction → Error)
      → Stable Tracks P
      → ((w : World) → P w → IsTracked w)
      → Spec {A = Transaction} Tracks P
          (find_unique prisma (has_id id) >>= λ o. or_raise o e >>= λ r. raise (conflict r))
          (Ends id s)
  Spec-missed_row id s e conflict stable tracked =
      Spec-bind Tracks Tracks-rely {M = λ r w. IsTracked w} _ _
        (Spec-find_unique (has_id id) stable tracked (λ message. tracked))
        (λ o.
          Spec-bind Tracks Tracks-rely {M = λ r w. IsTracked w} _ _
            (Spec-or_raise Tracks Tracks-rely o _ (λ a w h. h) (λ w h. h))
            (λ r. Spec-raise Tracks Tracks-rely _ (λ w h. h)) (λ e w h. h))
        (λ e w h. h)

  -- After a conditional update: the row is read back, or the conflict is reported.
  Spec-updated_row :
      (id : String) (s from : TransactionStatus) (n : ℕ)
      → Spec Tracks (Counted id s (ok n)) (updated_row prisma n id from) (Ends id s)
  unfolding updated_row
  Spec-updated_row id s from n =
      Spec-if Tracks Tracks-rely (n == 1) _ _
        (λ one.
          Spec-weaken Tracks Tracks-rely _ (Spec-found_row id s) (λ w h. (h.0, h.1 (ground arith)))
            (λ r w h. h))
        (λ many. Spec-missed_row id s _ _ (Counted-stable id s n) (λ w h. h.0))

  Spec-updated_row_any :
      (id : String) (s : TransactionStatus) (n : ℕ)
      → Spec Tracks (Counted id s (ok n)) (updated_row_any prisma n id) (Ends id s)
  unfolding updated_row_any
  Spec-updated_row_any id s n =
      Spec-if Tracks Tracks-rely (n == 1) _ _
        (λ one.
          Spec-weaken Tracks Tracks-rely _ (Spec-found_row id s) (λ w h. (h.0, h.1 (ground arith)))
            (λ r w h. h))
        (λ many. Spec-missed_row id s _ _ (Counted-stable id s n) (λ w h. h.0))

  Spec-assert_transition :
      (from to : TransactionStatus)
      → Spec Tracks IsTracked
          (assert_transition from to)
          (λ r w. IsTracked w × (r ≡ ok tt → can_transition from to ≡ true))
  unfolding assert_transition
  Spec-assert_transition from to =
      Spec-if Tracks Tracks-rely (can_transition from to) _ _
        (λ allowed. Spec-pure Tracks Tracks-rely _ (λ w h. (h, λ e. allowed)))
        (λ refused. Spec-raise Tracks Tracks-rely _ (λ w h. (h, λ e. cc)))

  -- `transition` to a status other than `confirmed`, by an update that keeps identifier and status.
  pub Spec-transition :
      (id : String) (from to : TransactionStatus) (f : Transaction → Transaction)
      → to ≢ confirmed
      → ((r : Transaction) → (f r).status ≡ r.status)
      → ((r : Transaction) → (f r).id ≡ r.id)
      → Spec Tracks IsTracked (transition prisma id from to f) (Ends id to)
  unfolding transition
  Spec-transition id from to f other same_status same_id =
      Spec-bind Tracks Tracks-rely _ _ (Spec-assert_transition from to)
        (λ u.
          Spec-given Tracks Tracks-rely (can_transition from to ≡ true) _ (λ w h. h.1 refl)
            λ allowed.
              Spec-bind Tracks Tracks-rely _ _
                (Spec-weaken Tracks Tracks-rely _
                  (Spec-update id to _ _ (λ r passes. ground arith)
                    (λ r passes. rw (status_eq→eq r.status from (ground arith)) allowed)
                    (λ r. same_status (record r { status = to }))
                    (λ r. same_id (record r { status = to })) other)
                  (λ w h. h.0) (λ r w h. h))
                (Spec-updated_row id to from) (λ e w h. h))
        (λ e w h. h.0)

  Spec-assert_transitions :
      (from : List TransactionStatus) (to : TransactionStatus)
      → Spec Tracks IsTracked
          (assert_transitions from to)
          (λ r w. IsTracked w × (r ≡ ok tt → All (λ s. can_transition s to ≡ true) from))
  unfolding assert_transitions
  Spec-assert_transitions [] to = Spec-pure Tracks Tracks-rely _ (λ w h. (h, λ e. tt))
  Spec-assert_transitions (source ∷ from) to =
      Spec-bind Tracks Tracks-rely _ _ (Spec-assert_transition source to)
        (λ u.
          Spec-given Tracks Tracks-rely (can_transition source to ≡ true) _ (λ w h. h.1 refl)
            λ allowed.
              Spec-weaken Tracks Tracks-rely _ (Spec-assert_transitions from to) (λ w h. h.0)
                (λ r w h. (h.0, λ e. (allowed, h.1 e))))
        (λ e w h. (h.0, λ e. cc))

  pub Spec-transition_from_any :
      (id : String) (from : List TransactionStatus) (to : TransactionStatus)
      (f : Transaction → Transaction)
      → to ≢ confirmed
      → ((r : Transaction) → (f r).status ≡ r.status)
      → ((r : Transaction) → (f r).id ≡ r.id)
      → Spec Tracks IsTracked (transition_from_any prisma id from to f) (Ends id to)
  unfolding transition_from_any
  Spec-transition_from_any id from to f other same_status same_id =
      Spec-bind Tracks Tracks-rely _ _ (Spec-assert_transitions from to)
        (λ u.
          Spec-given Tracks Tracks-rely (All (λ s. can_transition s to ≡ true) from) _
            (λ w h. h.1 refl)
            λ allowed.
              Spec-bind Tracks Tracks-rely _ _
                (Spec-weaken Tracks Tracks-rely _
                  (Spec-update id to _ _ (λ r passes. ground arith)
                    (λ r passes. allowed_of_includes from r.status to allowed (ground arith))
                    (λ r. same_status (record r { status = to }))
                    (λ r. same_id (record r { status = to })) other)
                  (λ w h. h.0) (λ r w h. h))
                (Spec-updated_row_any id to) (λ e w h. h))
        (λ e w h. h.0)

  -- Each named transition: when it returns, the row has the new status or has moved on from it.
  pub Spec-mark_submitted :
      (id tx_hash : String)
      → Spec Tracks IsTracked (mark_submitted prisma id tx_hash) (Ends id submitted)
  unfolding mark_submitted
  Spec-mark_submitted id tx_hash =
      Spec-bind Tracks Tracks-rely {M = λ r w. IsTracked w} _ _
        (Spec-gets Tracks Tracks-rely _ (λ w h. h))
        (λ now. Spec-transition id _ submitted _ (λ e. cc) (λ r. refl) (λ r. refl)) (λ e w h. h)

  pub Spec-mark_confirming :
      (id : String) → Spec Tracks IsTracked (mark_confirming prisma id) (Ends id confirming)
  unfolding mark_confirming
  Spec-mark_confirming id =
      Spec-bind Tracks Tracks-rely {M = λ r w. IsTracked w} _ _
        (Spec-gets Tracks Tracks-rely _ (λ w h. h))
        (λ now. Spec-transition id _ confirming _ (λ e. cc) (λ r. refl) (λ r. refl)) (λ e w h. h)

  pub Spec-mark_failed :
      (id reason : String) → Spec Tracks IsTracked (mark_failed prisma id reason) (Ends id failed)
  unfolding mark_failed
  Spec-mark_failed id reason =
      Spec-bind Tracks Tracks-rely {M = λ r w. IsTracked w} _ _
        (Spec-gets Tracks Tracks-rely _ (λ w h. h))
        (λ now. Spec-transition_from_any id _ failed _ (λ e. cc) (λ r. refl) (λ r. refl))
        (λ e w h. h)

  pub Spec-expire :
      (id reason : String) → Spec Tracks IsTracked (expire prisma id reason) (Ends id expired)
  unfolding expire
  Spec-expire id reason =
      Spec-bind Tracks Tracks-rely {M = λ r w. IsTracked w} _ _
        (Spec-gets Tracks Tracks-rely _ (λ w h. h))
        (λ now. Spec-transition id _ expired _ (λ e. cc) (λ r. refl) (λ r. refl)) (λ e w h. h)
