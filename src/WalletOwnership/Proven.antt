-- ===== src/WalletOwnership/Proven.antt =====
-- When the registration of a wallet may proceed.
use blockchain_transaction_s.Prelude.{
  ℕ, ◌≡◌, ◌⊎◌, inl, inr, refl, String, Bool, true, false, ◌&&◌, not, List, Option, none, some,
  eq_iff, if◌then◌else◌, arith, Bool-cases, Option-cases, find,
}
use blockchain_transaction_s.Effects.{
  Error, Result, ok, err, Process, interleave, fault_of, pure, raise, continue, ◌>>=◌,
}
use blockchain_transaction_s.Errors.{invalid_ownership_signature}
use blockchain_transaction_s.Schema.{World, Blockchain, blockchain_eq}
use blockchain_transaction_s.Blockchain.{BlockchainAdapter, OwnershipVerificationRequest, get}
use blockchain_transaction_s.WalletAddress.{blockchain_for_chain_id}
use blockchain_transaction_s.WalletOwnership.{
  ChallengeClaims, OwnershipRuntime, OwnershipParams, is_ownership_proof_required, of_result,
  is_given, matches_request, build_ownership_message, open_challenge, check_proof, on_proof,
  assert_on, assert_ownership, normalized,
}

Result-cases : {A : Type 0} (r : Result A) → ((a : A) × (r ≡ ok a)) ⊎ ((e : Error) × (r ≡ err e))
Result-cases (ok a) = inl (a, refl)
Result-cases (err e) = inr (e, refl)

proven_only :
    (e : Error) (r : Result Bool) (q : Process World)
    → (continue r (λ (proven : Bool). if proven then pure tt else raise e) q).0 ≡ ok tt
    → r ≡ ok true
proven_only e (ok true) q h = refl
proven_only e (ok false) q h = absurd cc
proven_only e (err x) q h = absurd cc

module _ (runtime : OwnershipRuntime) (adapters : List BlockchainAdapter) (evm_chain_id : ℕ)
    (require_proof : Option String) where
  abbrev opened : ℕ → String → Result ChallengeClaims
  opened = open_challenge runtime adapters evm_chain_id require_proof

  abbrev is_for : OwnershipParams → ChallengeClaims → Bool
  is_for = matches_request runtime adapters evm_chain_id require_proof

  -- The claims name the user, the chain and the address of the request.
  abbrev pub IsFor : OwnershipParams → ChallengeClaims → Type 0
  IsFor params claims =
      (claims.tid ≡ params.tenant_id)
      × ((claims.uid ≡ params.user_id)
          × ((claims.cid ≡ params.chain_id)
              × (claims.addr
                  ≡ normalized runtime adapters evm_chain_id require_proof params.chain_id
                      params.address)))

  is_for-IsFor :
      (params : OwnershipParams) (claims : ChallengeClaims)
      → is_for params claims ≡ true
      → IsFor params claims
  is_for-IsFor params claims h = (
    (eq_iff claims.tid params.tenant_id).0 (ground arith),
    (
      (eq_iff claims.uid params.user_id).0 (ground arith),
      (
        ground arith,
        (eq_iff claims.addr (
              normalized runtime adapters evm_chain_id require_proof params.chain_id
                params.address)).0
            (ground arith),
      ),
    ),
  )

  abbrev pub proof_of : ChallengeClaims → String → OwnershipVerificationRequest
  proof_of claims signature = record {
    address = claims.addr;
    message = build_ownership_message runtime adapters evm_chain_id require_proof claims;
    signature = signature;
  }

  -- The challenge that was sent opens to claims of this user, chain and address, and the adapter of
  -- the chain says that the signature is one of the message of these claims.
  pub record IsProven (params : OwnershipParams) (blockchain : Blockchain) (p : Process World)
      : Type 0 where
    pub challenge : String
    pub signature : String
    pub claims : ChallengeClaims
    pub adapter : BlockchainAdapter
    pub verify : OwnershipVerificationRequest → World → Result Bool
    pub sent : params.challenge ≡ some challenge
    pub signed : params.signature ≡ some signature
    pub open_lem : opened p.world.clock challenge ≡ ok claims
    pub matches : IsFor params claims
    pub found : find (λ a. blockchain_eq a.chain blockchain) adapters ≡ some adapter
    pub can : adapter.verify_ownership ≡ some verify
    pub proven : verify (proof_of claims signature) (interleave p.turns p.world) ≡ ok true

  module _ (params : OwnershipParams) (p : Process World) where
    check_proof_sound :
        (verify : OwnershipVerificationRequest → World → Result Bool) (signature : String)
        (claims : ChallengeClaims)
        → (check_proof runtime adapters evm_chain_id require_proof verify params signature claims
            p).0
          ≡ ok tt
        → (is_for params claims ≡ true)
          × (verify (proof_of claims signature) (interleave p.turns p.world) ≡ ok true)
    unfolding check_proof ◌>>=◌
    check_proof_sound verify signature claims = elim (Bool-cases (is_for params claims)) [
      | inr other ↦ rw other (λ h. absurd cc)
      | inl mine ↦ rw mine (elim (Option-cases (fault_of p.turns)) [
        | inr (message, lost) ↦ rw lost (λ h. absurd cc)
        | inl kept ↦ rw kept (λ h. (
          refl,
          proven_only invalid_ownership_signature
              (verify (proof_of claims signature) (interleave p.turns p.world)) _ h,
        ))
      ])
    ]

    on_proof_sound :
        (blockchain : Blockchain) (adapter : BlockchainAdapter)
        (verify : OwnershipVerificationRequest → World → Result Bool) (c s : Option String)
        → find (λ a. blockchain_eq a.chain blockchain) adapters ≡ some adapter
        → adapter.verify_ownership ≡ some verify
        → params.challenge ≡ c
        → params.signature ≡ s
        → (on_proof runtime adapters evm_chain_id require_proof verify params c s p).0 ≡ ok tt
        → IsProven params blockchain p
    unfolding on_proof ◌>>=◌
    on_proof_sound blockchain adapter verify none s found can sent signed h = absurd cc
    on_proof_sound blockchain adapter verify (some c) none found can sent signed h = absurd cc
    on_proof_sound blockchain adapter verify (some c) (some s) found can sent signed h =
        go (opened p.world.clock c) refl h
      where
        go :
            (r : Result ChallengeClaims)
            → opened p.world.clock c ≡ r
            → ((of_result r
                  >>= check_proof runtime adapters evm_chain_id require_proof verify params s)
                p).0
              ≡ ok tt
            → IsProven params blockchain p
        go (err e) o k = absurd cc
        go (ok claims) o k =
            let (matches, proven) = check_proof_sound verify s claims k in
            record {
              challenge = c;
              signature = s;
              claims = claims;
              adapter = adapter;
              verify = verify;
              sent = sent;
              signed = signed;
              open_lem = o;
              matches = is_for-IsFor params claims matches;
              found = found;
              can = can;
              proven = proven;
            }

    assert_on_sound :
        (blockchain : Blockchain)
        → (assert_on runtime adapters evm_chain_id require_proof params blockchain p).0 ≡ ok tt
        → ((is_ownership_proof_required require_proof ≡ ok false)
            × (is_given runtime adapters evm_chain_id require_proof params.challenge
                  params.signature
                ≡ false))
          ⊎ IsProven params blockchain p
    unfolding assert_on get ◌>>=◌
    assert_on_sound blockchain = elim (Result-cases (is_ownership_proof_required require_proof)) [
      | inr (e, bad) ↦ rw bad (λ h. absurd cc)
      | inl (required, good) ↦
          rw good
            (elim (Bool-cases (
              not required
              && not (
                  is_given runtime adapters evm_chain_id require_proof params.challenge
                    params.signature))) [
                      | inl free ↦ rw free (λ h. inl (ground arith, ground arith))
                      | inr must ↦
                          rw must
                            (elim (Option-cases
                              (find (λ a. blockchain_eq a.chain blockchain) adapters)) [
                                | inl nobody ↦ rw nobody (λ h. absurd cc)
                                | inr (adapter, found) ↦
                                    rw found (elim (Option-cases adapter.verify_ownership) [
                                      | inl cannot ↦ rw cannot (λ h. absurd cc)
                                      | inr (verify, can) ↦ rw can (λ h. inr (
                                          on_proof_sound blockchain adapter verify params.challenge
                                            params.signature found can refl refl h))
                                    ])
                              ])
                    ])
    ]

-- Whatever other processes do, `assertOwnership` returns only if the chain is not known, or proof is
-- neither required nor offered, or ownership is proven: a challenge and a signature were sent, the
-- challenge opens to claims for this tenant, user, chain and address, and the adapter of the chain
-- answers that the signature is one of the message that is built from these claims.
pub assert_ownership-IsProven :
    (runtime : OwnershipRuntime) (adapters : List BlockchainAdapter) (evm_chain_id : ℕ)
    (require_proof : Option String) (params : OwnershipParams) (p : Process World)
    → (assert_ownership runtime adapters evm_chain_id require_proof params p).0 ≡ ok tt
    → (blockchain_for_chain_id evm_chain_id params.chain_id ≡ none)
      ⊎ (((is_ownership_proof_required require_proof ≡ ok false)
            × (is_given runtime adapters evm_chain_id require_proof params.challenge
                  params.signature
                ≡ false))
          ⊎ ((blockchain : Blockchain) × IsProven runtime adapters evm_chain_id require_proof params
                blockchain p))
unfolding assert_ownership
assert_ownership-IsProven runtime adapters evm_chain_id require_proof params p =
    elim (Option-cases (blockchain_for_chain_id evm_chain_id params.chain_id)) [
      | inl unknown ↦ λ h. inl unknown
      | inr (blockchain, known) ↦
          rw (known, assert_ownership)
            (λ h.
              elim (assert_on_sound runtime adapters evm_chain_id require_proof params p blockchain
                h) [ inl free ↦ inr (inl free) | inr proven ↦ inr (inr (blockchain, proven)) ])
    ]
