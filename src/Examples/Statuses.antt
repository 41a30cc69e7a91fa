-- ===== src/Examples/Statuses.antt =====
-- Statuses.
use blockchain_transaction_s.Prelude.{◌≡◌, refl, true, ◌↔◌, false}
use blockchain_transaction_s.Transaction.StateMachine.{
  TransactionStatus, pending, submitted, confirming, confirmed, expired, can_transition, can_expire,
}
use blockchain_transaction_s.Transaction.StateMachine.Paths.{
  Reaches, here, step, is_terminal, terminal_stays, Reaches-antisymm, can_expire_iff,
}

pending_Reaches_confirmed : Reaches pending confirmed
unfolding can_transition
pending_Reaches_confirmed =
    step {t = submitted} refl (step {t = confirming} refl (step {t = confirmed} refl here))

terminal_stays_example : confirmed ≡ confirmed
terminal_stays_example = terminal_stays (here {s = confirmed}) refl

Reaches-antisymm_example : submitted ≡ submitted
Reaches-antisymm_example = Reaches-antisymm (here {s = submitted}) here

can_expire_iff_example :
    (can_expire submitted ≡ can_transition submitted expired)
    × ((is_terminal submitted ≡ true)
        ↔ ((t : TransactionStatus) → can_transition submitted t ≡ false))
can_expire_iff_example = can_expire_iff submitted
