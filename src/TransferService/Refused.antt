-- ===== src/TransferService/Refused.antt =====
-- A transfer that may not be made is refused before anything is written.
use blockchain_transaction_s.Prelude.{
  ◌≡◌, refl, sym, ◌⊎◌, String, true, false, List, Option, none, some, str_eq, eq_iff, find, inl,
  inr, Bool-cases, Option-cases, subst, arith,
}
use Prim.Native.String.{◌++◌}
use blockchain_transaction_s.Effects.{Error, ok, err, or_raise, ◌>>=◌, plain}
use blockchain_transaction_s.Errors.{token_not_found, wallet_not_found, wallet_not_custodial}
use blockchain_transaction_s.Schema.{World, Token, Wallet, blockchain_eq}
use blockchain_transaction_s.Prisma.{Prisma, IsPrisma}
use blockchain_transaction_s.Prisma.Tables.{find_passes}
use blockchain_transaction_s.Blockchain.{BlockchainAdapter, WalletCustodyStatus, get, chain_text}
use blockchain_transaction_s.BalanceRepository.Latest.{quiet}
use blockchain_transaction_s.TransferService.{
  TransferRequest, may_spend, get_token, get_wallet_by_id, get_custody_status, record_and_submit,
  from_wallet_of_request, transfer,
}

-- The wallet belongs to the tenant and the user of the request.
abbrev pub Owns : TransferRequest → Wallet → Type 0
Owns request wallet = (wallet.tenant_id ≡ request.tenant_id) × (wallet.owner_id ≡ request.user_id)

may_spend-Owns :
    (request : TransferRequest) (wallet : Wallet)
    → may_spend request wallet ≡ true
    → Owns request wallet
may_spend-Owns request wallet h = (
  (eq_iff wallet.tenant_id request.tenant_id).0 (ground (arith, h)),
  (eq_iff wallet.owner_id request.user_id).0 (ground (arith, h)),
)

pub Owns-may_spend :
    (request : TransferRequest) (wallet : Wallet)
    → Owns request wallet
    → may_spend request wallet ≡ true
Owns-may_spend request wallet (tenant, user) = ground (
  arith,
  (eq_iff wallet.tenant_id request.tenant_id).1 tenant,
  (eq_iff wallet.owner_id request.user_id).1 user,
)

module _ (adapters : List BlockchainAdapter) (custody_of : Wallet → WalletCustodyStatus)
    (request : TransferRequest) (w : World) where
  abbrev pub token_there : Option Token
  token_there = find (λ t. str_eq t.id request.token_id) w.tokens

  abbrev pub from_there : Option Wallet
  from_there = find (λ v. str_eq v.id request.from_wallet_id) w.wallets

  abbrev pub to_there : Option Wallet
  to_there = find (λ v. str_eq v.id request.to_wallet_id) w.wallets

  abbrev pub adapter_for : Token → Option BlockchainAdapter
  adapter_for token = find (λ a. blockchain_eq a.chain token.blockchain) adapters

  -- Token, wallets and adapter are there, the user may spend from the wallet, and the adapter can sign.
  abbrev pub CanTransfer : Token → Wallet → Wallet → BlockchainAdapter → Type 0
  CanTransfer token from_wallet to_wallet adapter =
      (token_there ≡ some token)
      × (from_there ≡ some from_wallet)
      × Owns request from_wallet
      × (to_there ≡ some to_wallet)
      × (adapter_for token ≡ some adapter)
      × (adapter.can_sign (custody_of from_wallet) ≡ true)

module _ (prisma : Prisma) (laws : IsPrisma prisma) (adapters : List BlockchainAdapter)
    (custody_of : Wallet → WalletCustodyStatus) (request : TransferRequest) (w : World) where
  get_token-quiet :
      get_token prisma adapters custody_of request.token_id (quiet w)
      ≡ or_raise (token_there adapters custody_of request w) token_not_found (quiet w)
  unfolding get_token ◌>>=◌
  get_token-quiet = rw (laws.token_lem.find_first_lem _ w.tokens) refl

  get_wallet_by_id-quiet :
      (id : String)
      → get_wallet_by_id prisma adapters custody_of id (quiet w)
        ≡ (ok (find (λ v. str_eq v.id id) w.wallets), quiet w)
  unfolding get_wallet_by_id
  get_wallet_by_id-quiet id = rw (laws.wallet_lem.find_first_lem _ w.wallets) refl

  -- The custody is that of the wallet itself.
  get_custody_status-quiet :
      (from_wallet : Wallet)
      → from_there adapters custody_of request w ≡ some from_wallet
      → get_custody_status prisma adapters custody_of from_wallet.id (quiet w)
        ≡ (ok (custody_of from_wallet), quiet w)
  unfolding get_custody_status ◌>>=◌
  get_custody_status-quiet from_wallet found =
      let same : from_wallet.id ≡ request.from_wallet_id =
        (eq_iff from_wallet.id request.from_wallet_id).0
          (find_passes (λ v. str_eq v.id request.from_wallet_id) w.wallets from_wallet found) in
      let again : find (λ v. str_eq v.id from_wallet.id) w.wallets ≡ some from_wallet =
        subst (λ (x : String). find (λ v. str_eq v.id x) w.wallets ≡ some from_wallet) (sym same)
          found in
      rw (get_wallet_by_id-quiet from_wallet.id, ◌>>=◌) (rw (again, ◌>>=◌) refl)

  abbrev Refused : Type 0
  Refused = (e : Error) × (transfer prisma adapters custody_of request (quiet w) ≡ (err e, quiet w))

  abbrev Made : Type 0
  Made =
      (token : Token) × (from_wallet : Wallet) × (to_wallet : Wallet)
      × (adapter : BlockchainAdapter) × CanTransfer adapters custody_of request w token from_wallet
          to_wallet adapter
      × (transfer prisma adapters custody_of request (quiet w)
          ≡ record_and_submit prisma adapters custody_of request adapter token to_wallet (quiet w))

  no_token : token_there adapters custody_of request w ≡ none → Refused
  unfolding transfer ◌>>=◌
  no_token missing =
      (token_not_found, rw (get_token-quiet, transfer, ◌>>=◌) (rw (missing, ◌>>=◌) refl))

  module _ (token : Token) (here : token_there adapters custody_of request w ≡ some token) where
    no_from_wallet : from_there adapters custody_of request w ≡ none → Refused
    unfolding transfer from_wallet_of_request ◌>>=◌
    no_from_wallet missing = (
      wallet_not_found,
      rw (get_token-quiet, transfer, ◌>>=◌)
          (rw (here, ◌>>=◌)
            (rw (get_wallet_by_id-quiet request.from_wallet_id, ◌>>=◌) (rw (missing, ◌>>=◌) refl))),
    )

    module _ (from_wallet : Wallet)
        (mine : from_there adapters custody_of request w ≡ some from_wallet) where
      not_owner : may_spend request from_wallet ≡ false → Refused
      unfolding transfer from_wallet_of_request ◌>>=◌
      not_owner other = (
        wallet_not_found,
        rw (get_token-quiet, transfer, ◌>>=◌)
            (rw (here, ◌>>=◌)
              (rw (get_wallet_by_id-quiet request.from_wallet_id, ◌>>=◌)
                (rw (mine, ◌>>=◌) (rw (other, ◌>>=◌) refl)))),
      )

      module _ (owner : may_spend request from_wallet ≡ true) where
        no_to_wallet : to_there adapters custody_of request w ≡ none → Refused
        unfolding transfer from_wallet_of_request ◌>>=◌
        no_to_wallet missing = (
          wallet_not_found,
          rw (get_token-quiet, transfer, ◌>>=◌)
              (rw (here, ◌>>=◌)
                (rw (get_wallet_by_id-quiet request.from_wallet_id, ◌>>=◌)
                  (rw (mine, ◌>>=◌)
                    (rw (owner, ◌>>=◌)
                      (rw (get_wallet_by_id-quiet request.to_wallet_id, ◌>>=◌)
                        (rw (missing, ◌>>=◌) refl)))))),
        )

        module _ (to_wallet : Wallet)
            (there : to_there adapters custody_of request w ≡ some to_wallet) where
          no_adapter : adapter_for adapters custody_of request w token ≡ none → Refused
          unfolding transfer from_wallet_of_request get ◌>>=◌
          no_adapter missing = (
            plain ("No blockchain adapter registered for chain: " ++ chain_text token.blockchain),
            rw (get_token-quiet, transfer, ◌>>=◌)
                (rw (here, ◌>>=◌)
                  (rw (get_wallet_by_id-quiet request.from_wallet_id, ◌>>=◌)
                    (rw (mine, ◌>>=◌)
                      (rw (owner, ◌>>=◌)
                        (rw (get_wallet_by_id-quiet request.to_wallet_id, ◌>>=◌)
                          (rw (there, ◌>>=◌) (rw (missing, get, ◌>>=◌) refl))))))),
          )

          module _ (adapter : BlockchainAdapter)
              (found : adapter_for adapters custody_of request w token ≡ some adapter) where
            cannot_sign : adapter.can_sign (custody_of from_wallet) ≡ false → Refused
            unfolding transfer from_wallet_of_request get ◌>>=◌
            cannot_sign no_key = (
              wallet_not_custodial,
              rw (get_token-quiet, transfer, ◌>>=◌)
                  (rw (here, ◌>>=◌)
                    (rw (get_wallet_by_id-quiet request.from_wallet_id, ◌>>=◌)
                      (rw (mine, ◌>>=◌)
                        (rw (owner, ◌>>=◌)
                          (rw (get_wallet_by_id-quiet request.to_wallet_id, ◌>>=◌)
                            (rw (there, ◌>>=◌)
                              (rw (found, get, ◌>>=◌)
                                (rw (get_custody_status-quiet from_wallet mine, ◌>>=◌)
                                  (rw no_key refl))))))))),
            )

            pub goes_on :
                adapter.can_sign (custody_of from_wallet) ≡ true
                → transfer prisma adapters custody_of request (quiet w)
                  ≡ record_and_submit prisma adapters custody_of request adapter token to_wallet
                      (quiet w)
            unfolding transfer from_wallet_of_request get ◌>>=◌
            goes_on signs =
                rw (get_token-quiet, transfer, ◌>>=◌)
                  (rw (here, ◌>>=◌)
                    (rw (get_wallet_by_id-quiet request.from_wallet_id, ◌>>=◌)
                      (rw (mine, ◌>>=◌)
                        (rw (owner, ◌>>=◌)
                          (rw (get_wallet_by_id-quiet request.to_wallet_id, ◌>>=◌)
                            (rw (there, ◌>>=◌)
                              (rw (found, get, ◌>>=◌)
                                (rw (get_custody_status-quiet from_wallet mine, ◌>>=◌)
                                  (rw signs refl)))))))))

            can_sign : adapter.can_sign (custody_of from_wallet) ≡ true → Made
            can_sign signs = (
              token,
              from_wallet,
              to_wallet,
              adapter,
              (here, mine, may_spend-Owns request from_wallet owner, there, found, signs),
              goes_on signs,
            )

  -- The request is refused, or goes on to be recorded.
  decided : Refused ⊎ Made
  decided = elim (Option-cases (token_there adapters custody_of request w)) [
    | inl a ↦ inl (no_token a)
    | inr (token, here) ↦ elim (Option-cases (from_there adapters custody_of request w)) [
      | inl a ↦ inl (no_from_wallet token here a)
      | inr (from_wallet, mine) ↦ elim (Bool-cases (may_spend request from_wallet)) [
        | inr a ↦ inl (not_owner token here from_wallet mine a)
        | inl owner ↦ elim (Option-cases (to_there adapters custody_of request w)) [
          | inl a ↦ inl (no_to_wallet token here from_wallet mine owner a)
          | inr (to_wallet, there) ↦
              elim (Option-cases (adapter_for adapters custody_of request w token)) [
                | inl a ↦ inl (no_adapter token here from_wallet mine owner to_wallet there a)
                | inr (adapter, found) ↦
                    elim (Bool-cases (adapter.can_sign (custody_of from_wallet))) [
                      | inr a ↦ inl (
                          cannot_sign token here from_wallet mine owner to_wallet there adapter
                            found a)
                      | inl a ↦ inr (
                          can_sign token here from_wallet mine owner to_wallet there adapter found
                            a)
                    ]
              ]
        ]
      ]
    ]
  ]

-- A transfer is requested among nobody else, of which no call is lost, and it may not be made: there
-- are no token, wallets and adapter of the token's chain for the request such that the first wallet
-- belongs to its tenant and its user and the adapter can sign with the custody of that wallet. Then it
-- throws, and nothing has changed.
pub transfer-CanTransfer :
    (prisma : Prisma)
    → IsPrisma prisma
    → (adapters : List BlockchainAdapter) (custody_of : Wallet → WalletCustodyStatus)
      (request : TransferRequest) (w : World)
    → ((token : Token) (from_wallet to_wallet : Wallet) (adapter : BlockchainAdapter)
        → CanTransfer adapters custody_of request w token from_wallet to_wallet adapter
        → ⊥)
    → (e : Error) × (transfer prisma adapters custody_of request (quiet w) ≡ (err e, quiet w))
transfer-CanTransfer prisma laws adapters custody_of request w cannot =
    elim (decided prisma laws adapters custody_of request w) [
      | inl refused ↦ refused
      | inr (token, from_wallet, to_wallet, adapter, can, same) ↦
          absurd (cannot token from_wallet to_wallet adapter can)
    ]
