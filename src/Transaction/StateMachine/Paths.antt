-- ===== src/Transaction/StateMachine/Paths.antt =====
-- The paths of the status machine: what a transaction can become.
use blockchain_transaction_s.Prelude.{
  ℕ, ◌<◌, ◌≡◌, refl, ◌↔◌, ◌⊎◌, inl, Bool, true, false, arith, All, List, [], ◌∷◌,
}
use blockchain_transaction_s.Transaction.StateMachine.{
  TransactionStatus, pending, submitted, confirming, confirmed, failed, expired, can_transition,
  can_expire, status_eq, includes,
}

-- Any number of allowed transitions.
pub data Reaches : TransactionStatus → TransactionStatus → Type 0 where
  here : {s : TransactionStatus} → Reaches s s
  step : {s t u : TransactionStatus} → can_transition s t ≡ true → Reaches t u → Reaches s u

pub Reaches-trans : {s t u : TransactionStatus} → Reaches s t → Reaches t u → Reaches s u
Reaches-trans here q = q
Reaches-trans (step h p) q = step h (Reaches-trans p q)

abbrev pub is_terminal : TransactionStatus → Bool
is_terminal confirmed = true
is_terminal failed = true
is_terminal expired = true
is_terminal _ = false

-- How far a status is along its life cycle.
abbrev rank : TransactionStatus → ℕ
rank pending = 0
rank submitted = 1
rank confirming = 2
rank confirmed = 3
rank failed = 3
rank expired = 3

pub terminal_no_transition :
    (s t : TransactionStatus) → is_terminal s ≡ true → can_transition s t ≡ false
unfolding can_transition
terminal_no_transition s t h = ground arith

-- By any number of allowed transitions, nothing is reached from a terminal status but itself.
pub terminal_stays : {s t : TransactionStatus} → Reaches s t → is_terminal s ≡ true → t ≡ s
terminal_stays here h = refl
terminal_stays (step {s} {t} e p) h = ground (arith, terminal_no_transition s t h)

rank-transition : (s t : TransactionStatus) → can_transition s t ≡ true → rank s < rank t
unfolding can_transition
rank-transition s t h = ground arith

-- A path stays where it is or leads to a higher rank.
rank-Reaches : {s t : TransactionStatus} → Reaches s t → (s ≡ t) ⊎ (rank s < rank t)
rank-Reaches here = inl refl
rank-Reaches (step {s} {t} e p) = ground (arith, rank-transition s t e, rank-Reaches p)

-- The status machine has no cycle: two statuses that reach one another by allowed transitions are
-- the same.
pub Reaches-antisymm : {s t : TransactionStatus} → Reaches s t → Reaches t s → s ≡ t
Reaches-antisymm p q = ground (arith, rank-Reaches p, rank-Reaches q)

-- A status can expire exactly when the table lets it move to `expired`, and the terminal statuses
-- are exactly those that the table lets move nowhere.
pub can_expire_iff :
    (s : TransactionStatus)
    → (can_expire s ≡ can_transition s expired)
      × ((is_terminal s ≡ true) ↔ ((t : TransactionStatus) → can_transition s t ≡ false))
unfolding can_expire can_transition
can_expire_iff s =
    (can_expire_lem s, (λ h t. terminal_no_transition s t h, λ h. stuck_terminal s h))
  where
    can_expire_lem : (s : TransactionStatus) → can_expire s ≡ can_transition s expired
    can_expire_lem pending = refl
    can_expire_lem submitted = refl
    can_expire_lem confirming = refl
    can_expire_lem confirmed = refl
    can_expire_lem failed = refl
    can_expire_lem expired = refl

    stuck_terminal :
        (s : TransactionStatus)
        → ((t : TransactionStatus) → can_transition s t ≡ false)
        → is_terminal s ≡ true
    stuck_terminal pending h = ground (arith, h submitted)
    stuck_terminal submitted h = ground (arith, h confirming)
    stuck_terminal confirming h = ground (arith, h confirmed)
    stuck_terminal confirmed h = refl
    stuck_terminal failed h = refl
    stuck_terminal expired h = refl

pub status_eq→eq : (s t : TransactionStatus) → status_eq s t ≡ true → s ≡ t
status_eq→eq s t h = ground arith

-- If every source may move to a status, so may each status that the list includes.
pub allowed_of_includes :
    (from : List TransactionStatus) (s to : TransactionStatus)
    → All (λ source. can_transition source to ≡ true) from
    → includes from s ≡ true
    → can_transition s to ≡ true
allowed_of_includes [] s to all h = cc
allowed_of_includes (source ∷ from) s to all h =
    ground (arith, status_eq→eq source s, allowed_of_includes from s to all.1)
