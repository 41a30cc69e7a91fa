-- ===== src/Examples/Ownership.antt =====
-- A user who proves to control an address.
use blockchain_transaction_s.Prelude.{
  ◌+◌, ◌<◌, ◌≡◌, ◌⊎◌, refl, String, Bool, true, false, [], ◌∷◌, none, some, str_eq, arith,
}
use blockchain_transaction_s.Effects.{Result, ok, ◌>>=◌}
use blockchain_transaction_s.Schema.{World, Blockchain, evm}
use blockchain_transaction_s.Blockchain.{
  BlockchainAdapter, OwnershipVerificationRequest, confirmed, get,
}
use blockchain_transaction_s.WalletAddress.{
  blockchain_for_chain_id, normalize_wallet_address, is_case_insensitive_wallet_address,
}
use blockchain_transaction_s.WalletOwnership.{
  OwnershipRuntime, OwnershipSubject, OwnershipParams, IssuedChallenge, ChallengeClaims,
  is_ownership_proof_required, is_given, claims_for, issue_challenge, assert_ownership, normalized,
  challenge_ttl_ms, assert_on, on_proof, check_proof, open_challenge, open_parts, open_payload,
  seal,
}
use blockchain_transaction_s.WalletOwnership.Sealed.{Encodes, json_of}
use blockchain_transaction_s.WalletOwnership.Proven.{IsProven, assert_ownership-IsProven}
use blockchain_transaction_s.WalletOwnership.Issued.{assert_ownership-issue_challenge}
use blockchain_transaction_s.BalanceRepository.Latest.{quiet}
use blockchain_transaction_s.Examples.InMemory.{world}
use blockchain_transaction_s.Examples.Confirmation.{adapter}

abbrev subject : OwnershipSubject
subject = record { tenant_id = "tenant-1"; user_id = "user-1"; chain_id = 31337; address = "0xabc" }

abbrev claims : ChallengeClaims
claims = record {
  v = 1;
  tid = "tenant-1";
  uid = "user-1";
  cid = 31337;
  addr = "0xabc";
  nonce = "n0";
  iat = 5000;
  exp = 305000;
}

-- A runtime that knows one challenge.
abbrev runtime : OwnershipRuntime
runtime = record {
  mac = λ payload. 7 ∷ [];
  encode = λ bytes. "Bw";
  decode = λ s. 7 ∷ [];
  payload_of = λ c. "eyJ2IjoxfQ";
  parse = λ s. some (json_of claims);
  nonce = λ w. "n0";
  iso = λ ms. "1970-01-01T00:00:05.000Z";
  is_valid_wallet_address = λ chain_id address. true;
  lower_case = λ s. s;
  is_bech32 = λ s. false;
}

abbrev verify : OwnershipVerificationRequest → World → Result Bool
verify request w = ok (str_eq request.signature "0xsigned")

abbrev verifier : BlockchainAdapter
verifier = record (adapter confirmed) { verify_ownership = some verify }

abbrev params : OwnershipParams
params = record { subject = subject; challenge = some "eyJ2IjoxfQ.Bw"; signature = some "0xsigned" }

allowed :
    (assert_ownership runtime (verifier ∷ []) 31337 (some "true") params (quiet (world []))).0
    ≡ ok tt
unfolding assert_ownership assert_on on_proof check_proof get open_challenge open_parts open_payload
    is_ownership_proof_required blockchain_for_chain_id normalize_wallet_address
    is_case_insensitive_wallet_address ◌>>=◌
allowed = refl

assert_ownership-IsProven_example :
    (blockchain_for_chain_id 31337 31337 ≡ none)
    ⊎ (((is_ownership_proof_required (some "true") ≡ ok false)
          × (is_given runtime (verifier ∷ []) 31337 (some "true") params.challenge params.signature
              ≡ false))
        ⊎ ((blockchain : Blockchain) × IsProven runtime
              (verifier ∷ [])
              31337
              (some "true")
              params
              blockchain
              (quiet (world []))))
assert_ownership-IsProven_example =
    assert_ownership-IsProven runtime (verifier ∷ []) 31337 (some "true") params (quiet (world []))
      allowed

known : blockchain_for_chain_id 31337 31337 ≡ some evm
unfolding blockchain_for_chain_id
known = refl

setting : is_ownership_proof_required (some "true") ≡ ok true
unfolding is_ownership_proof_required
setting = refl

address : claims_for runtime (verifier ∷ []) 31337 (some "true") subject (world []) ≡ claims
unfolding normalize_wallet_address is_case_insensitive_wallet_address
address = refl

encodes :
    Encodes runtime (claims_for runtime (verifier ∷ []) 31337 (some "true") subject (world []))
unfolding normalize_wallet_address is_case_insensitive_wallet_address
encodes = record {
  decode-encode = refl;
  encode-NoDots = (refl, (refl, tt));
  payload_of-NoDots =
      (refl, (refl, (refl, (refl, (refl, (refl, (refl, (refl, (refl, (refl, tt))))))))));
  parse-payload_of = refl;
}

assert_ownership-issue_challenge_example :
    (issued : IssuedChallenge) × (issue_challenge runtime
        (verifier ∷ [])
        31337
        (some "true")
        subject
        (quiet (world []))
      ≡ (ok issued, quiet (world [])))
    × ((signature : String) (w' : World)
        → w'.clock < 5000 + challenge_ttl_ms
        → verify
            (record {
              address = normalized runtime (verifier ∷ []) 31337 (some "true") 31337 "0xabc";
              message = issued.message;
              signature = signature;
            })
            w'
          ≡ ok true
        → assert_ownership runtime
            (verifier ∷ [])
            31337
            (some "true")
            (record {
              subject = subject;
              challenge = some issued.challenge;
              signature = some signature;
            })
            (quiet w')
          ≡ (ok tt, quiet w'))
unfolding seal
assert_ownership-issue_challenge_example =
    assert_ownership-issue_challenge runtime (verifier ∷ []) 31337 (some "true") subject evm
      verifier verify true (world []) known refl refl refl setting encodes (omega arith)
