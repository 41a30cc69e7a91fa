-- ===== src/ConfirmationProcessor/Outcome.antt =====
-- How a confirmation job ends, for the chain's every answer and among any other processes.
use blockchain_transaction_s.Prelude.{str_eq, ◌≡◌, refl, inl, inr, String, List, Option, none, some}
use blockchain_transaction_s.Effects.{Error, Result, ok, err, Process}
use blockchain_transaction_s.Effects.Rely.{
  Spec, Benign, Spec-pure, Spec-raise, Spec-call, Spec-if, Spec-weaken, Spec-bind, Spec-catch,
  Spec-or_raise, Spec-modify,
}
use blockchain_transaction_s.Schema.{World}
use blockchain_transaction_s.Prisma.{Prisma, IsPrisma}
use blockchain_transaction_s.TransactionRepository.{TransactionWithToken}
use blockchain_transaction_s.TransactionRepository.Tracking.{
  IsTracked, Tracks, Tracks-rely, Tracks-of_same,
}
use blockchain_transaction_s.TransactionRepository.Transitions.{IsTracked-stable}
use blockchain_transaction_s.Blockchain.{
  BlockchainAdapter, BlockchainTransaction, ConfirmationStatus, get,
}
use blockchain_transaction_s.ConfirmationProcessor.{
  in_transaction, confirm_and_record, persist_confirmation, handle_successful_transaction,
  handle_reverted_transaction, handle_confirmation_error, is_not_yet, on_status,
  get_blockchain_transaction, confirm_transaction, unit, with_hash, process_transaction,
}
use blockchain_transaction_s.ConfirmationProcessor.Persist.{alone}
use blockchain_transaction_s.ConfirmationProcessor.Recording.{HasConfirmed}
use blockchain_transaction_s.ConfirmationProcessor.Commit.{confirm_and_record-alone, Ending}
use blockchain_transaction_s.ConfirmationProcessor.Guarantee.{
  Settled, Returns, Spec-claim_confirmation, Spec-stop_if_terminal, Spec-mark_transaction_failed,
  Spec-find_by_id,
}

Returns-IsTracked :
    {A : Type 0} (Q : A → World → Type 0) (r : Result A) (w : World) → Returns Q r w → IsTracked w
Returns-IsTracked Q (ok a) w h = h.0
Returns-IsTracked Q (err e) w h = h

module _ (prisma : Prisma) (lawful : IsPrisma prisma) where
  -- A body that ends well is committed, and one that throws changes nothing.
  settled :
      (tx_hash : String) (w : World) (o : Result (Unit {0}) × Process World)
      → IsTracked w
      → Ending w tx_hash o
      → let (r, w') = prisma.settle w (o.0, o.1.world) in
        Tracks w w' × Returns (λ u. HasConfirmed tx_hash) r w'
  settled tx_hash w (r, p) t (inl (returned, kept, confirmed)) =
      rw returned (rw (lawful.settle_ok w p.world) (kept, (kept.kept t, confirmed)))
  settled tx_hash w (r, p) t (inr (e, thrown)) =
      rw thrown (rw (lawful.settle_err e w p.world) (Tracks-rely.same w, t))

  Spec-commit :
      (tx_hash : String) (chain : BlockchainTransaction)
      → Spec Tracks IsTracked
          (in_transaction prisma (confirm_and_record prisma tx_hash chain))
          (Returns (λ u. HasConfirmed tx_hash))
  unfolding in_transaction
  Spec-commit tx_hash chain =
      Spec-call Tracks Tracks-rely _ IsTracked-stable
        (λ w t.
          settled tx_hash w (confirm_and_record prisma tx_hash chain (alone w)) t
            (confirm_and_record-alone prisma lawful tx_hash chain w t))
        (λ message w t. t)

  Spec-persist_confirmation :
      (tx : TransactionWithToken) (tx_hash : String) (chain : BlockchainTransaction)
      → Spec Tracks IsTracked
          (persist_confirmation prisma tx tx_hash chain)
          (Returns (λ u. Settled tx.id tx_hash))
  unfolding persist_confirmation
  Spec-persist_confirmation tx tx_hash chain =
      Spec-catch Tracks Tracks-rely _ _ (Spec-commit tx_hash chain) (λ a w h. (h.0, inr h.1))
        (λ e.
          Spec-weaken Tracks Tracks-rely _ (Spec-stop_if_terminal prisma lawful tx unit e)
            (λ w h. h) (Returns-map (λ w h. inl h)))
    where
      Returns-map :
          {A : Type 0} {Q Q' : World → Type 0}
          → ((w : World) → Q w → Q' w)
          → (r : Result A) (w : World) → Returns (λ a. Q) r w
          → Returns (λ a. Q') r w
      Returns-map f (ok a) w h = (h.0, f w h.1)
      Returns-map f (err e) w h = h

  Spec-handle_successful_transaction :
      (tx : TransactionWithToken) (tx_hash : String) (chain : BlockchainTransaction)
      → Spec Tracks IsTracked
          (handle_successful_transaction prisma tx tx_hash chain)
          (Returns (λ u. Settled tx.id tx_hash))
  unfolding handle_successful_transaction
  Spec-handle_successful_transaction tx tx_hash chain =
      Spec-bind Tracks Tracks-rely _ _ (Spec-claim_confirmation prisma lawful tx)
        (λ claimed.
          Spec-if Tracks Tracks-rely claimed _ _
            (λ mine.
              Spec-weaken Tracks Tracks-rely _
                (Spec-bind Tracks Tracks-rely _ _ (Spec-persist_confirmation tx tx_hash chain)
                  (λ u. Spec-modify Tracks Tracks-rely _ unit (λ w h.
                    (Tracks-of_same _ _ refl refl, ((Tracks-of_same w _ refl refl).kept h.0, h.1))))
                  (λ e w h. h))
                (λ w h. h.0) (λ r w h. h))
            (λ stale. Spec-pure Tracks Tracks-rely unit (λ w h. (h.0, inl (h.1 stale)))))
        (λ e w h. h)

  Spec-handle_reverted_transaction :
      (tx : TransactionWithToken) (tx_hash : String)
      → Spec Tracks IsTracked
          (handle_reverted_transaction prisma tx)
          (Returns (λ u. Settled tx.id tx_hash))
  unfolding handle_reverted_transaction
  Spec-handle_reverted_transaction tx tx_hash =
      Spec-bind Tracks Tracks-rely _ _ (Spec-mark_transaction_failed prisma lawful tx)
        (λ failed.
          Spec-if Tracks Tracks-rely failed _ _
            (λ mine. Spec-modify Tracks Tracks-rely _ unit (λ w h.
              (Tracks-of_same _ _ refl refl, ((Tracks-of_same w _ refl refl).kept h.0, inl h.1))))
            (λ stale. Spec-pure Tracks Tracks-rely unit (λ w h. (h.0, inl h.1))))
        (λ e w h. h)

  Spec-handle_confirmation_error :
      (id tx_hash : String) (e : Error)
      → Spec Tracks IsTracked
          (handle_confirmation_error prisma e)
          (Returns (λ u. Settled id tx_hash))
  unfolding handle_confirmation_error
  Spec-handle_confirmation_error id tx_hash e =
      Spec-if Tracks Tracks-rely (is_not_yet e) _ _
        (λ polling. Spec-raise Tracks Tracks-rely e (λ w h. h))
        (λ real.
          Spec-bind Tracks Tracks-rely {M = λ r w. IsTracked w} _ _
            (Spec-modify Tracks Tracks-rely _ unit
              (λ w h. (Tracks-of_same _ _ refl refl, (Tracks-of_same w _ refl refl).kept h)))
            (λ u. Spec-raise Tracks Tracks-rely e (λ w h. h)) (λ e w h. h))

  Spec-on_status :
      (status : ConfirmationStatus) (tx : TransactionWithToken) (tx_hash : String)
      (chain : BlockchainTransaction)
      → Spec Tracks IsTracked
          (on_status prisma status tx tx_hash chain)
          (Returns (λ u. Settled tx.id tx_hash))
  unfolding on_status
  Spec-on_status ConfirmationStatus.confirmed tx tx_hash chain =
      Spec-handle_successful_transaction tx tx_hash chain
  Spec-on_status ConfirmationStatus.failed tx tx_hash chain =
      Spec-handle_reverted_transaction tx tx_hash
  Spec-on_status ConfirmationStatus.pending tx tx_hash chain =
      Spec-raise Tracks Tracks-rely _ (λ w h. h)

  module _ (adapters : List BlockchainAdapter) where
    Spec-get_blockchain_transaction :
        (tx : TransactionWithToken) (tx_hash : String)
        → Spec Tracks IsTracked
            (get_blockchain_transaction prisma adapters tx tx_hash)
            (λ r w. IsTracked w)
    unfolding get_blockchain_transaction get
    Spec-get_blockchain_transaction tx tx_hash =
        Spec-bind Tracks Tracks-rely {M = λ r w. IsTracked w} _ _
          (Spec-or_raise Tracks Tracks-rely _ _ (λ a w h. h) (λ w h. h))
          (λ adapter.
            Spec-call Tracks Tracks-rely _ IsTracked-stable (λ w h. (Tracks-rely.same w, h))
              (λ message w h. h))
          (λ e w h. h)

    Spec-confirm_transaction :
        (tx : TransactionWithToken) (tx_hash : String)
        → Spec Tracks IsTracked
            (confirm_transaction prisma adapters tx tx_hash)
            (Returns (λ u. Settled tx.id tx_hash))
    unfolding confirm_transaction
    Spec-confirm_transaction tx tx_hash =
        Spec-catch Tracks Tracks-rely {M = Returns (λ u. Settled tx.id tx_hash)} _ _
          (Spec-bind Tracks Tracks-rely _ _ (Spec-get_blockchain_transaction tx tx_hash)
            (λ chain. Spec-on_status chain.status tx tx_hash chain) (λ e w h. h))
          (λ a w h. h) (Spec-handle_confirmation_error tx.id tx_hash)

    -- The whole job: a row without a hash is left alone.
    Spec-with_hash :
        (tx : TransactionWithToken) (tx_hash : Option String)
        → Spec Tracks IsTracked (with_hash prisma adapters tx tx_hash) (λ r w. IsTracked w)
    unfolding with_hash
    Spec-with_hash tx none = Spec-pure Tracks Tracks-rely _ (λ w h. h)
    Spec-with_hash tx (some tx_hash) =
        Spec-if Tracks Tracks-rely (str_eq tx_hash "") _ _
          (λ empty. Spec-pure Tracks Tracks-rely _ (λ w h. h))
          (λ there.
            Spec-weaken Tracks Tracks-rely _ (Spec-confirm_transaction tx tx_hash) (λ w h. h)
              (Returns-IsTracked _))

    pub Spec-process_transaction :
        (id tenant_id : String)
        → Spec Tracks IsTracked
            (process_transaction prisma adapters id tenant_id)
            (λ r w. IsTracked w)
    unfolding process_transaction
    Spec-process_transaction id tenant_id =
        Spec-bind Tracks Tracks-rely {M = λ r w. IsTracked w} _ _
          (Spec-weaken Tracks Tracks-rely _ (Spec-find_by_id prisma lawful id tenant_id) (λ w h. h)
            (Returns-IsTracked _))
          (λ o.
            Spec-bind Tracks Tracks-rely {M = λ r w. IsTracked w} _ _
              (Spec-or_raise Tracks Tracks-rely o _ (λ a w h. h) (λ w h. h))
              (λ tx. Spec-with_hash tx tx.row.tx_hash) (λ e w h. h))
          (λ e w h. h)

-- One confirmation of a transaction under a hash, begun where the identifiers of transactions are
-- unique and the outbox has one `transaction.confirmed` event for each confirmed transaction and
-- none for the others, among processes that keep to this, keeps to this whether it returns or
-- throws and whichever of its awaited calls are lost; no row disappears, every status moves along
-- allowed transitions only, and a row with a terminal status does not change.
pub confirm_transaction-Tracks :
    (prisma : Prisma)
    → IsPrisma prisma
    → (adapters : List BlockchainAdapter) (tx : TransactionWithToken) (tx_hash : String)
    → (p : Process World) → Benign Tracks p.turns
    → IsTracked p.world
    → Tracks p.world (confirm_transaction prisma adapters tx tx_hash p).1.world
confirm_transaction-Tracks prisma lawful adapters tx tx_hash p calm tracked =
    ((Spec-confirm_transaction prisma lawful adapters tx tx_hash).run p calm tracked).0

-- If a confirmation of a transaction under a hash returns, begun where the outbox tracks the
-- transactions and among processes that keep to this, then the transaction has a terminal status,
-- or a row with that hash is confirmed.
pub confirm_transaction-Settled :
    (prisma : Prisma)
    → IsPrisma prisma
    → (adapters : List BlockchainAdapter) (tx : TransactionWithToken) (tx_hash : String)
    → (p : Process World) → Benign Tracks p.turns
    → IsTracked p.world
    → (confirm_transaction prisma adapters tx tx_hash p).0 ≡ ok tt
    → Settled tx.id tx_hash (confirm_transaction prisma adapters tx tx_hash p).1.world
confirm_transaction-Settled prisma lawful adapters tx tx_hash p calm tracked returned =
    let o = confirm_transaction prisma adapters tx tx_hash p in
    let (kept, still, post) =
      (Spec-confirm_transaction prisma lawful adapters tx tx_hash).run p calm tracked in
    of_ok o.0 o.1.world returned post
  where
    of_ok :
        (r : Result (Unit {0})) (w : World)
        → r ≡ ok tt
        → Returns (λ u. Settled tx.id tx_hash) r w
        → Settled tx.id tx_hash w
    of_ok (ok u) w e h = h.1
    of_ok (err e') w e h = cc
