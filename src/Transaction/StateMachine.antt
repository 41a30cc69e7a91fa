-- ===== src/Transaction/StateMachine.antt =====
-- src/domain/transaction/transaction-state-machine.ts.
pub mod Paths
use blockchain_transaction_s.Prelude.{Bool, true, false, ◌||◌, List, [], ◌∷◌}

pub data TransactionStatus : Type 0 where
  pending submitted confirming confirmed failed expired : TransactionStatus

abbrev pub status_eq : TransactionStatus → TransactionStatus → Bool
status_eq pending pending = true
status_eq submitted submitted = true
status_eq confirming confirming = true
status_eq confirmed confirmed = true
status_eq failed failed = true
status_eq expired expired = true
status_eq _ _ = false

-- `Array.prototype.includes` on statuses.
abbrev pub includes : List TransactionStatus → TransactionStatus → Bool
includes [] s = false
includes (t ∷ ts) s = status_eq t s || includes ts s

-- The table ALLOWED_TRANSITIONS.
unfoldable pub allowed_transitions : TransactionStatus → List TransactionStatus
allowed_transitions pending = submitted ∷ failed ∷ []
allowed_transitions submitted = confirming ∷ expired ∷ []
allowed_transitions confirming = confirmed ∷ failed ∷ expired ∷ []
allowed_transitions confirmed = []
allowed_transitions failed = []
allowed_transitions expired = []

unfoldable pub can_transition : TransactionStatus → TransactionStatus → Bool
unfolding allowed_transitions
can_transition from to = includes (allowed_transitions from) to

unfoldable pub get_allowed_transitions : TransactionStatus → List TransactionStatus
unfolding allowed_transitions
get_allowed_transitions from = allowed_transitions from

unfoldable pub can_expire : TransactionStatus → Bool
can_expire status = status_eq status submitted || status_eq status confirming
