-- ===== src/Effects.antt =====
-- Asynchronous methods: state, thrown errors, and the steps that other processes take while a call
-- is awaited. Errors are those of src/common/errors and of the libraries that the source tests for.
pub mod Rely
pub mod Keeps
pub mod Returns
use blockchain_transaction_s.Prelude.{ℕ, String, ◌≡◌, Bool, List, [], ◌∷◌, Option, none, some}
use blockchain_transaction_s.Transaction.StateMachine.{
  TransactionStatus, pending, submitted, confirming, confirmed, failed, expired,
}
use Prim.Native.String.{◌++◌}

pub data Error : Type 0 where
  -- InvalidTransactionTransitionError
  invalid_transition : TransactionStatus → TransactionStatus → Error
  -- TransactionStateConflictError
  state_conflict : String → TransactionStatus → Error
  -- TransactionPendingError
  transaction_pending : String → Error
  -- AppError, by its status code, its code and its message
  app_error : ℕ → String → String → Error
  -- PrismaClientKnownRequestError, by its code and its message
  known_request : String → String → Error
  -- any other `Error`, by its message
  plain : String → Error

pub data Result (A : Type 0) : Type 0 where
  ok : A → Result A
  err : Error → Result A

-- What happens before one awaited call takes effect: the other processes change the world, and the
-- call itself may be lost, which throws an error with a message.
pub record Turn (W : Type 0) : Type 0 where
  pub step : W → W
  pub fault : Option String

-- What a method runs in: the shared world, and one turn for each call that it awaits from now on.
-- When the turns are used up nobody else acts and no call is lost.
pub record Process (W : Type 0) : Type 0 where
  pub world : W
  pub turns : List (Turn W)

abbrev pub Action : Type 0 → Type 0 → Type 0
Action W A = Process W → Result A × Process W

-- The world when the awaited call takes effect.
abbrev pub interleave : {W : Type 0} → List (Turn W) → W → W
interleave [] w = w
interleave (g ∷ gs) w = g.step w

abbrev pub rest : {W : Type 0} → List (Turn W) → List (Turn W)
rest [] = []
rest (g ∷ gs) = gs

abbrev pub fault_of : {W : Type 0} → List (Turn W) → Option String
fault_of [] = none
fault_of (g ∷ gs) = g.fault

module _ {W A : Type 0} where
  abbrev pub pure : A → Action W A
  pure a p = (ok a, p)

  abbrev pub raise : Error → Action W A
  raise e p = (err e, p)

  -- What is changed with no `await`.
  abbrev pub modify : (W → W) → A → Action W A
  modify f a p = (ok a, record p { world = f p.world })

  -- What is read with no `await`.
  abbrev pub gets : (W → A) → Action W A
  gets f p = (ok (f p.world), p)

  abbrev pub take_effect : Option String → (W → Result A × W) → W → Result A × W
  take_effect none f w = f w
  take_effect (some message) f w = (err (plain message), w)

  -- An awaited call: others may act before it, it may be lost, and else it is one step itself.
  abbrev pub call : (W → Result A × W) → Action W A
  call f p =
      let (r, w) = take_effect (fault_of p.turns) f (interleave p.turns p.world) in
      (r, record { world = w; turns = rest p.turns })

  abbrev pub or_raise : Option A → Error → Action W A
  or_raise none e = raise e
  or_raise (some a) e = pure a

module _ {W A B : Type 0} where
  abbrev pub continue : Result A → (A → Action W B) → Action W B
  continue (ok a) f = f a
  continue (err e) f = raise e

  abbrev pub handle : Result A → (A → Action W B) → (Error → Action W B) → Action W B
  handle (ok a) f h = f a
  handle (err e) f h = h e

infixl 5 ◌>>=◌ ◌>>◌
unfoldable pub ◌>>=◌ : {W A B : Type 0} → Action W A → (A → Action W B) → Action W B
◌>>=◌ m f p = let (r, p') = m p in continue r f p'

abbrev pub ◌>>◌ : {W A B : Type 0} → Action W A → Action W B → Action W B
m >> k = m >>= λ _. k

-- `try { m } catch (error) { h }`.
unfoldable pub catch_error : {W A : Type 0} → Action W A → (Error → Action W A) → Action W A
catch_error m h p = let (r, p') = m p in handle r pure h p'

abbrev pub status_text : TransactionStatus → String
status_text pending = "PENDING"
status_text submitted = "SUBMITTED"
status_text confirming = "CONFIRMING"
status_text confirmed = "CONFIRMED"
status_text failed = "FAILED"
status_text expired = "EXPIRED"

-- `error.message`.
pub message : Error → String
message (invalid_transition from to) =
    "Invalid transaction state transition: " ++ (status_text from ++ (" -> " ++ status_text to))
message (state_conflict id expected) =
    "Transaction " ++ (id ++ (" is no longer in " ++ (status_text expected ++ " state")))
message (transaction_pending tx_hash) =
    "Transaction " ++ (tx_hash ++ " is still pending confirmation")
message (app_error status_code code text) = text
message (known_request code text) = text
message (plain text) = text
