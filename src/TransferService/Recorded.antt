-- ===== src/TransferService/Recorded.antt =====
-- A transfer among the workers: the new transaction is tracked, and what is returned is recorded.
use blockchain_transaction_s.Prelude.{
  ◌≡◌, refl, sym, ◌⊎◌, inl, inr, String, not, List, Option, none, some, eq_iff, Option-cases, subst,
}
use blockchain_transaction_s.Effects.{
  Error, Result, ok, err, Process, pure, raise, or_raise, ◌>>◌, message,
}
use blockchain_transaction_s.Effects.Returns.{Good, Spec-Returns}
use blockchain_transaction_s.TransactionRepository.Returned.{
  IsRowOf, mark_submitted_of, mark_failed_of,
}
use blockchain_transaction_s.ConfirmationQueue.{enqueue}
use blockchain_transaction_s.Effects.Rely.{
  Benign, Spec, Spec-pure, Spec-raise, Spec-call, Spec-if, Spec-weaken, Spec-bind, Spec-catch,
  Spec-or_raise, Spec-gets, Spec-given,
}
use blockchain_transaction_s.Transaction.{Transaction}
use blockchain_transaction_s.Transaction.StateMachine.{submitted, failed, pending}
use blockchain_transaction_s.Schema.{World, Token, Wallet}
use blockchain_transaction_s.Prisma.{Prisma, IsPrisma}
use blockchain_transaction_s.Blockchain.{BlockchainAdapter, WalletCustodyStatus, get}
use blockchain_transaction_s.TransactionRepository.{create}
use blockchain_transaction_s.TransactionRepository.Tracking.{
  IsTracked, Tracks, Tracks-rely, Tracks-of_same,
}
use blockchain_transaction_s.TransactionRepository.Transitions.{
  Past, Past-stable, IsTracked-stable, Ends, Spec-mark_submitted, Spec-mark_failed,
}
use blockchain_transaction_s.PendingRecoveryProcessor.Safety.{Kept, Spec-read}
use blockchain_transaction_s.TransferService.Created.{HasPrimaryKey, created-Tracks}
use blockchain_transaction_s.Errors.{wallet_not_found, wallet_not_custodial}
use blockchain_transaction_s.TransferService.{
  may_spend, TransferRequest, get_token, get_wallet_by_id, get_custody_status, create_pending,
  submit, record_and_submit, from_wallet_of_request, transfer, submitted_job,
}

module _ (prisma : Prisma) (lawful : IsPrisma prisma) (key : HasPrimaryKey prisma) where
  Spec-create :
      (r : Transaction) → r.status ≡ pending → Spec Tracks IsTracked (create prisma r) Kept
  unfolding create
  Spec-create r fresh =
      Spec-call Tracks Tracks-rely _ IsTracked-stable
        (λ w t. elim (Option-cases (prisma.transaction.create r w.transactions)) [
          | inl refused ↦ rw refused (Tracks-rely.same w, t)
          | inr (t', added) ↦ rw added (
            created-Tracks prisma lawful key r w t' added fresh,
            (created-Tracks prisma lawful key r w t' added fresh).kept t,
          )
        ])
        (λ message w t. t)

  module _ (adapters : List BlockchainAdapter) (custody_of : Wallet → WalletCustodyStatus)
      (request : TransferRequest) where
    Spec-create_pending :
        Spec Tracks IsTracked (create_pending prisma adapters custody_of request) Kept
    unfolding create_pending
    Spec-create_pending =
        Spec-bind Tracks Tracks-rely
          {M = λ r w. IsTracked w × Good (λ (x : Transaction). x.status ≡ pending) r} _ _
          (Spec-gets Tracks Tracks-rely _ (λ w t. (t, refl)))
          (λ r.
            Spec-given Tracks Tracks-rely (r.status ≡ pending) _ (λ w h. h.1)
              (λ fresh.
                Spec-weaken Tracks Tracks-rely _ (Spec-create r fresh) (λ w h. h.0) (λ x w h. h)))
          (λ e w h. h.0)

    -- How the submission ends: the row that is returned was submitted or has failed.
    abbrev Done : String → Result Transaction → World → Type 0
    Done id (ok r) w = IsTracked w × IsRowOf id r × (Past id submitted w ⊎ Past id failed w)
    Done id (err e) w = IsTracked w

    abbrev HasPast : String → {A : Type 0} → Result A → World → Type 0
    HasPast id (ok a) w = IsTracked w × Past id submitted w
    HasPast id (err e) w = IsTracked w

    enqueued :
        (id : String) (r : Transaction)
        → IsRowOf id r
        → Spec Tracks
            (λ w. IsTracked w × Past id submitted w)
            (enqueue prisma (submitted_job r) >> pure r)
            (Done id)
    unfolding enqueue
    enqueued id r mine =
        Spec-bind Tracks Tracks-rely {M = HasPast id} _ _
          (Spec-call Tracks Tracks-rely _
            (λ u v t h. (t.kept h.0, Past-stable id submitted u v t h.1))
            (λ w h. (Tracks-of_same w _ refl refl, ((Tracks-of_same w _ refl refl).kept h.0, h.1)))
            (λ message w h. h.0))
          (λ u. Spec-pure Tracks Tracks-rely r (λ w h. (h.0, mine, inl h.1))) (λ e w h. h)

    Spec-submit :
        (adapter : BlockchainAdapter) (token : Token) (to_wallet : Wallet) (id : String)
        → Spec Tracks IsTracked
            (submit prisma adapters custody_of request adapter token to_wallet id)
            (Done id)
    unfolding submit
    Spec-submit adapter token to_wallet id =
        Spec-bind Tracks Tracks-rely {M = Kept} _ _
          (Spec-call Tracks Tracks-rely _ IsTracked-stable (λ w t. (Tracks-rely.same w, t))
            (λ message w t. t))
          (λ hash.
            Spec-bind Tracks Tracks-rely _ _
              (Spec-Returns _ (Spec-mark_submitted prisma lawful id hash)
                (mark_submitted_of prisma lawful id hash))
              (λ r.
                Spec-given Tracks Tracks-rely (IsRowOf id r) _ (λ w h. h.1)
                  (λ mine.
                    Spec-weaken Tracks Tracks-rely _ (enqueued id r mine) (λ w h. h.0)
                      (λ x w h. h)))
              (λ e w h. h.0))
          (λ e w h. h)

    failed-Done :
        (id : String) (r : Result Transaction) (w : World)
        → Ends id failed r w × Good (IsRowOf id) r
        → Done id r w
    failed-Done id (ok r) w h = (h.0.0, h.1, inr h.0.1)
    failed-Done id (err e) w h = h.0

    -- What a transfer that returns has recorded.
    abbrev Recorded : Result Transaction → World → Type 0
    Recorded (ok r) w = IsTracked w × (Past r.id submitted w ⊎ Past r.id failed w)
    Recorded (err e) w = IsTracked w

    Done-Recorded : (id : String) (r : Result Transaction) (w : World) → Done id r w → Recorded r w
    Done-Recorded id (err e) w h = h
    Done-Recorded id (ok r) w h =
        let same : r.id ≡ id = (eq_iff r.id id).0 h.1 in
        (h.0, subst (λ (x : String). Past x submitted w ⊎ Past x failed w) (sym same) h.2)

    Spec-record_and_submit :
        (adapter : BlockchainAdapter) (token : Token) (to_wallet : Wallet)
        → Spec Tracks IsTracked
            (record_and_submit prisma adapters custody_of request adapter token to_wallet)
            Recorded
    unfolding record_and_submit
    Spec-record_and_submit adapter token to_wallet =
        Spec-bind Tracks Tracks-rely {M = Kept} _ _ Spec-create_pending
          (λ r.
            Spec-weaken Tracks Tracks-rely _
              (Spec-catch Tracks Tracks-rely _ _ (Spec-submit adapter token to_wallet r.id)
                (λ a w h. h)
                (λ e.
                  Spec-weaken Tracks Tracks-rely _
                    (Spec-Returns _ (Spec-mark_failed prisma lawful r.id (message e))
                      (mark_failed_of prisma lawful r.id (message e)))
                    (λ w h. h) (failed-Done r.id)))
              (λ w h. h) (Done-Recorded r.id))
          (λ e w h. h)

    Spec-look : {A : Type 0} (o : Option A) (e : Error) → Spec Tracks IsTracked (or_raise o e) Kept
    Spec-look o e = Spec-or_raise Tracks Tracks-rely o e (λ a w h. h) (λ w h. h)

    Spec-from_wallet :
        (o : Option Wallet)
        → Spec Tracks IsTracked (from_wallet_of_request prisma adapters custody_of request o) Kept
    unfolding from_wallet_of_request
    Spec-from_wallet none = Spec-raise Tracks Tracks-rely _ (λ w h. h)
    Spec-from_wallet (some wallet) =
        Spec-if Tracks Tracks-rely (may_spend request wallet) (pure wallet) (raise wallet_not_found)
          (λ e. Spec-pure Tracks Tracks-rely wallet (λ w h. h))
          (λ e. Spec-raise Tracks Tracks-rely wallet_not_found (λ w h. h))

    Spec-transfer : Spec Tracks IsTracked (transfer prisma adapters custody_of request) Recorded
    unfolding transfer get_token get_wallet_by_id get_custody_status get
    Spec-transfer =
        Spec-bind Tracks Tracks-rely {M = Kept} _ _
          (Spec-bind Tracks Tracks-rely {M = Kept} _ _ (Spec-read _) (λ o. Spec-look o _)
            (λ e w h. h))
          (λ token.
            Spec-bind Tracks Tracks-rely {M = Kept} _ _ (Spec-read _)
              (λ o.
                Spec-bind Tracks Tracks-rely {M = Kept} _ _ (Spec-from_wallet o)
                  (λ from_wallet.
                    Spec-bind Tracks Tracks-rely {M = Kept} _ _ (Spec-read _)
                      (λ o'.
                        Spec-bind Tracks Tracks-rely {M = Kept} _ _ (Spec-look o' _)
                          (λ to_wallet.
                            Spec-bind Tracks Tracks-rely {M = Kept} _ _ (Spec-look _ _)
                              (λ adapter.
                                Spec-bind Tracks Tracks-rely {M = Kept} _ _
                                  (Spec-bind Tracks Tracks-rely {M = Kept} _ _ (Spec-read _)
                                    (λ o''.
                                      Spec-bind Tracks Tracks-rely {M = Kept} _ _ (Spec-look o'' _)
                                        (λ wallet. Spec-pure Tracks Tracks-rely _ (λ w h. h))
                                        (λ e w h. h))
                                    (λ e w h. h))
                                  (λ custody.
                                    Spec-if Tracks Tracks-rely (not (adapter.can_sign custody))
                                      (raise wallet_not_custodial)
                                      (record_and_submit prisma adapters custody_of request adapter
                                        token to_wallet)
                                      (λ e.
                                        Spec-raise Tracks Tracks-rely wallet_not_custodial
                                          (λ w h. h))
                                      (λ e. Spec-record_and_submit adapter token to_wallet))
                                  (λ e w h. h))
                              (λ e w h. h))
                          (λ e w h. h))
                      (λ e w h. h))
                  (λ e w h. h))
              (λ e w h. h))
          (λ e w h. h)

-- The client keeps its laws and the primary key of the transactions, the others keep to the invariant
-- of the transactions, and it holds when a transfer is requested. Then, whatever calls are lost and
-- however the request ends, every transaction has moved along allowed transitions only, the outbox
-- still tracks the transactions, and if a transaction is returned, the row with its identifier is past
-- SUBMITTED or has failed.
pub transfer-Recorded :
    (prisma : Prisma)
    → IsPrisma prisma
    → HasPrimaryKey prisma
    → (adapters : List BlockchainAdapter) (custody_of : Wallet → WalletCustodyStatus)
      (request : TransferRequest) (p : Process World)
    → Benign Tracks p.turns
    → IsTracked p.world
    → let o = transfer prisma adapters custody_of request p in
      Tracks p.world o.1.world
      × IsTracked o.1.world
      × ((r : Transaction)
          → o.0 ≡ ok r
          → Past r.id submitted o.1.world ⊎ Past r.id failed o.1.world)
transfer-Recorded prisma lawful key adapters custody_of request p benign tracked =
    let o = transfer prisma adapters custody_of request p in
    let (moved, calm, end) =
      (Spec-transfer prisma lawful key adapters custody_of request).run p benign tracked in
    (moved, moved.kept tracked, go o.0 o.1.world end)
  where
    go :
        (x : Result Transaction) (w : World)
        → Recorded prisma lawful key adapters custody_of request x w
        → (r : Transaction) → x ≡ ok r
        → Past r.id submitted w ⊎ Past r.id failed w
    go (ok a) w h r e =
        let same : a ≡ r = cc in
        subst (λ (x : Transaction). Past x.id submitted w ⊎ Past x.id failed w) same h.1
    go (err x) w h r e = cc
