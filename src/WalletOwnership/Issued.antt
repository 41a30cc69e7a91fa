-- ===== src/WalletOwnership/Issued.antt =====
-- The challenge that is issued serves to register the wallet until it expires.
use blockchain_transaction_s.Prelude.{
  ℕ, ◌+◌, ◌≤◌, ◌<◌, ◌≡◌, refl, String, Bool, true, false, ◌&&◌, not, List, Option, some, eq_refl,
  arith, find,
}
use Prim.Native.String.{count}
use blockchain_transaction_s.Effects.{Result, ok, ◌>>=◌}
use blockchain_transaction_s.Schema.{World, Blockchain, blockchain_eq}
use blockchain_transaction_s.Blockchain.{BlockchainAdapter, OwnershipVerificationRequest, get}
use blockchain_transaction_s.WalletAddress.{blockchain_for_chain_id}
use blockchain_transaction_s.WalletOwnership.{
  OwnershipRuntime, OwnershipSubject, IssuedChallenge, max_challenge_length, challenge_ttl_ms,
  is_ownership_proof_required, matches_request, seal, claims_for, issued_for, issue_on,
  issue_challenge, check_proof, on_proof, assert_on, assert_ownership, normalized,
}
use blockchain_transaction_s.WalletOwnership.Sealed.{Encodes, open_challenge-seal}
use blockchain_transaction_s.BalanceRepository.Latest.{quiet}

and_false : (b : Bool) → (b && false) ≡ false
and_false true = refl
and_false false = refl

-- The claims of a challenge match the requests of its subject.
claims_for-matches :
    (runtime : OwnershipRuntime) (adapters : List BlockchainAdapter) (evm_chain_id : ℕ)
    (require_proof : Option String) (subject : OwnershipSubject) (w : World)
    (challenge signature : Option String)
    → matches_request runtime adapters evm_chain_id require_proof
        (record { subject = subject; challenge = challenge; signature = signature })
        (claims_for runtime adapters evm_chain_id require_proof subject w)
      ≡ true
claims_for-matches runtime adapters evm_chain_id require_proof subject w challenge signature =
    ground (
      arith,
      eq_refl subject.tenant_id,
      eq_refl subject.user_id,
      eq_refl
          (normalized runtime adapters evm_chain_id require_proof subject.chain_id subject.address),
    )

-- The chain is known, its adapter verifies ownership, the address is valid, the setting is a valid one,
-- the runtime decodes what it has encoded of the claims, and the sealed challenge is not too long. Then
-- a challenge is issued, and until it expires, if the adapter accepts a signature of the issued message
-- for the normalized address, the same user may register the address with it.
pub assert_ownership-issue_challenge :
    (runtime : OwnershipRuntime) (adapters : List BlockchainAdapter) (evm_chain_id : ℕ)
    (require_proof : Option String) (subject : OwnershipSubject) (blockchain : Blockchain)
    (adapter : BlockchainAdapter) (verify : OwnershipVerificationRequest → World → Result Bool)
    (required : Bool) (w : World)
    → blockchain_for_chain_id evm_chain_id subject.chain_id ≡ some blockchain
    → find (λ a. blockchain_eq a.chain blockchain) adapters ≡ some adapter
    → adapter.verify_ownership ≡ some verify
    → runtime.is_valid_wallet_address subject.chain_id subject.address ≡ true
    → is_ownership_proof_required require_proof ≡ ok required
    → let claims = claims_for runtime adapters evm_chain_id require_proof subject w in
      Encodes runtime claims
      → count (seal runtime adapters evm_chain_id require_proof claims) ≤ max_challenge_length
      → (issued : IssuedChallenge) × (issue_challenge runtime adapters evm_chain_id require_proof
            subject
            (quiet w)
          ≡ (ok issued, quiet w))
        × ((signature : String) (w' : World)
            → w'.clock < w.clock + challenge_ttl_ms
            → verify
                (record {
                  address =
                      normalized runtime adapters evm_chain_id require_proof subject.chain_id
                        subject.address;
                  message = issued.message;
                  signature = signature;
                })
                w'
              ≡ ok true
            → assert_ownership runtime adapters evm_chain_id require_proof
                (record {
                  subject = subject;
                  challenge = some issued.challenge;
                  signature = some signature;
                })
                (quiet w')
              ≡ (ok tt, quiet w'))
unfolding issue_challenge issue_on assert_ownership assert_on on_proof check_proof get ◌>>=◌
assert_ownership-issue_challenge runtime adapters evm_chain_id require_proof subject blockchain
      adapter verify required w known found can valid setting laws short =
    let claims = claims_for runtime adapters evm_chain_id require_proof subject w in
    (
      issued_for runtime adapters evm_chain_id require_proof claims,
      rw (known, issue_challenge)
          (rw (found, issue_on, get, ◌>>=◌) (rw (can, ◌>>=◌) (rw valid refl))),
      λ signature w' early accepted.
          let opens =
            open_challenge-seal runtime adapters evm_chain_id require_proof claims laws w'.clock
              refl early short in
          let mine =
            claims_for-matches runtime adapters evm_chain_id require_proof subject w
              (some (seal runtime adapters evm_chain_id require_proof claims)) (some signature) in
          rw (known, assert_ownership)
            (rw (setting, assert_on, ◌>>=◌)
              (rw (and_false (not required)) (
                rw (found, get, ◌>>=◌)
                  (rw (can, ◌>>=◌)
                    (rw (opens, on_proof, ◌>>=◌)
                      (rw (mine, check_proof) (rw (accepted, ◌>>=◌) refl))))))),
    )
