-- ===== src/WalletOwnership.antt =====
-- src/services/wallet-ownership.service.ts: a user proves to control an address by signing a message.
-- The cryptography and the encodings of the runtime are parameters. The numbers of a challenge are
-- natural numbers.
pub mod Sealed
pub mod Proven
pub mod Issued
use blockchain_transaction_s.Prelude.{
  ℕ, ◌+◌, ◌*◌, ◌≡◌, String, Bool, true, false, ◌&&◌, ◌||◌, not, List, [], ◌∷◌, Option, none, some,
  str_eq, ◌==◌, ltb, leb, if◌then◌else◌,
}
use Prim.Native.String.{◌++◌, count, [] as nil, ◌∷◌ as ◌::◌}
use Prim.Native.Char.{Char, code}
use blockchain_transaction_s.Bytes.{bytes_eq}
use blockchain_transaction_s.Effects.{
  Error, Result, ok, err, Action, pure, raise, gets, call, or_raise, ◌>>=◌, ◌>>◌, app_error, plain,
}
use blockchain_transaction_s.Errors.{
  number_text, unsupported_chain, unsupported_chain_capability, ownership_proof_required,
  invalid_ownership_challenge, invalid_ownership_signature,
}
use blockchain_transaction_s.Schema.{World, Blockchain}
use blockchain_transaction_s.Blockchain.{
  BlockchainAdapter, OwnershipVerificationRequest, get, chain_text,
}
use blockchain_transaction_s.WalletAddress.{blockchain_for_chain_id, normalize_wallet_address}

abbrev pub challenge_version : ℕ
challenge_version = 1

abbrev pub challenge_ttl_ms : ℕ
challenge_ttl_ms = 5 * 60 * 1000

abbrev pub max_challenge_length : ℕ
max_challenge_length = 2048

pub record ChallengeClaims : Type 0 where
  pub v : ℕ
  pub tid : String
  pub uid : String
  pub cid : ℕ
  pub addr : String
  pub nonce : String
  pub iat : ℕ
  pub exp : ℕ

-- A value of JSON, as far as the checks of `open` tell values apart.
pub data Json : Type 0 where
  json_string : String → Json
  json_number : ℕ → Json
  json_other : Json

pub record JsonClaims : Type 0 where
  pub v : Json
  pub tid : Json
  pub uid : Json
  pub cid : Json
  pub addr : Json
  pub nonce : Json
  pub iat : Json
  pub exp : Json

pub record OwnershipSubject : Type 0 where
  pub tenant_id : String
  pub user_id : String
  pub chain_id : ℕ
  pub address : String

pub record IssuedChallenge : Type 0 where
  pub message : String
  pub challenge : String
  pub expires_at : String

pub record OwnershipParams : Type 0 where
  pub subject : OwnershipSubject
  pub open subject use *
  pub challenge : Option String
  pub signature : Option String

pub record OwnershipRuntime : Type 0 where
  -- `createHmac('sha256', key).update(payload).digest()`, under the derived key
  pub mac : String → List ℕ
  -- `toString('base64url')` and `Buffer.from(text, 'base64url')`
  pub encode : List ℕ → String
  pub decode : String → List ℕ
  -- the claims as JSON in base64url; and back, unless the text is no JSON
  pub payload_of : ChallengeClaims → String
  pub parse : String → Option JsonClaims
  -- `randomBytes(16).toString('hex')`
  pub nonce : World → String
  -- `new Date(ms).toISOString()`
  pub iso : ℕ → String
  pub is_valid_wallet_address : ℕ → String → Bool
  pub lower_case : String → String
  pub is_bech32 : String → Bool

abbrev pub onto_first : Char → List String → List String
onto_first c [] = (c :: "") ∷ []
onto_first c (part ∷ parts) = (c :: part) ∷ parts

-- `token.split('.')`
abbrev pub split_dots : String → List String
split_dots nil = "" ∷ []
split_dots (c :: s) =
    let parts = split_dots s in if code c == 46 then "" ∷ parts else onto_first c parts

abbrev pub text_value : Json → Option String
text_value (json_string s) = some s
text_value (json_number n) = none
text_value json_other = none

abbrev pub number_value : Json → Option ℕ
number_value (json_string s) = none
number_value (json_number n) = some n
number_value json_other = none

abbrev pub with_some : {A B : Type 0} → Option A → (A → Option B) → Option B
with_some none f = none
with_some (some a) f = f a

-- The claims, if the version and the types of all fields are right.
abbrev pub well_formed : JsonClaims → Option ChallengeClaims
well_formed j = with_some (number_value j.v) λ v. with_some (text_value j.tid) λ tid.
    with_some (text_value j.uid) λ uid. with_some (number_value j.cid) λ cid.
      with_some (text_value j.addr) λ addr. with_some (text_value j.nonce) λ nonce.
        with_some (number_value j.iat) λ iat. with_some (number_value j.exp) λ exp.
          if v == challenge_version
          then some (record {
            v = v;
            tid = tid;
            uid = uid;
            cid = cid;
            addr = addr;
            nonce = nonce;
            iat = iat;
            exp = exp;
          })
          else none

-- REQUIRE_WALLET_OWNERSHIP_PROOF, after `trim` and `toLowerCase`.
unfoldable pub is_ownership_proof_required : Option String → Result Bool
is_ownership_proof_required none = ok false
is_ownership_proof_required (some raw) =
    if str_eq raw "" || (str_eq raw "false" || str_eq raw "0")
    then ok false
    else if str_eq raw "true" || str_eq raw "1"
    then ok true
    else err (
        plain
          ("Invalid REQUIRE_WALLET_OWNERSHIP_PROOF \"" ++ (raw ++ "\": expected true or false")))

abbrev pub of_result : {A : Type 0} → Result A → Action World A
of_result (ok a) = pure a
of_result (err e) = raise e

module _ (runtime : OwnershipRuntime) (adapters : List BlockchainAdapter) (evm_chain_id : ℕ)
    (require_proof : Option String) where
  abbrev pub normalized : ℕ → String → String
  normalized = normalize_wallet_address runtime.lower_case runtime.is_bech32 evm_chain_id

  unfoldable pub build_ownership_message : ChallengeClaims → String
  build_ownership_message claims =
      "Link this wallet to the Blockchain Transaction Simulator.\n\nAddress: "
      ++ (claims.addr
          ++ ("\nChain ID: "
              ++ (number_text claims.cid
                  ++ ("\nNonce: "
                      ++ (claims.nonce
                          ++ ("\nIssued At: "
                              ++ (runtime.iso claims.iat
                                  ++ ("\nExpires At: "
                                      ++ (runtime.iso claims.exp
                                          ++ "\n\nSigning only proves you control this address. It sends no transaction and costs no gas.")))))))))

  unfoldable pub seal : ChallengeClaims → String
  seal claims =
      let payload = runtime.payload_of claims in
      payload ++ ("." ++ runtime.encode (runtime.mac payload))

  unfoldable pub open_payload : ℕ → String → Result ChallengeClaims
  open_payload now payload = elim (with_some (runtime.parse payload) well_formed) [
    | none ↦ err invalid_ownership_challenge
    | some claims ↦ if leb claims.exp now then err invalid_ownership_challenge else ok claims
  ]

  unfoldable pub open_parts : ℕ → List String → Result ChallengeClaims
  open_parts now [] = err invalid_ownership_challenge
  open_parts now (payload ∷ []) = err invalid_ownership_challenge
  open_parts now (payload ∷ presented_mac ∷ []) =
      if bytes_eq (runtime.decode presented_mac) (runtime.mac payload)
      then open_payload now payload
      else err invalid_ownership_challenge
  open_parts now (payload ∷ presented_mac ∷ part ∷ parts) = err invalid_ownership_challenge

  -- `open`, at a time
  unfoldable pub open_challenge : ℕ → String → Result ChallengeClaims
  open_challenge now token =
      if ltb max_challenge_length (count token)
      then err invalid_ownership_challenge
      else open_parts now (split_dots token)

  abbrev pub claims_for : OwnershipSubject → World → ChallengeClaims
  claims_for subject w = record {
    v = challenge_version;
    tid = subject.tenant_id;
    uid = subject.user_id;
    cid = subject.chain_id;
    addr = normalized subject.chain_id subject.address;
    nonce = runtime.nonce w;
    iat = w.clock;
    exp = w.clock + challenge_ttl_ms;
  }

  abbrev pub issued_for : ChallengeClaims → IssuedChallenge
  issued_for claims = record {
    message = build_ownership_message claims;
    challenge = seal claims;
    expires_at = runtime.iso claims.exp;
  }

  unfoldable pub issue_on : OwnershipSubject → Blockchain → Action World IssuedChallenge
  issue_on subject blockchain = do
    adapter ← get adapters blockchain
    or_raise adapter.verify_ownership
        (unsupported_chain_capability "ownership verification" (chain_text blockchain))
    (if runtime.is_valid_wallet_address subject.chain_id subject.address
        then gets (λ w. issued_for (claims_for subject w))
        else raise (app_error 400 "INVALID_WALLET_ADDRESS" "Invalid wallet address"))

  unfoldable pub issue_challenge : OwnershipSubject → Action World IssuedChallenge
  issue_challenge subject = elim (blockchain_for_chain_id evm_chain_id subject.chain_id) [
    | none ↦ raise (unsupported_chain subject.chain_id)
    | some blockchain ↦ issue_on subject blockchain
  ]

  abbrev pub matches_request : OwnershipParams → ChallengeClaims → Bool
  matches_request params claims =
      str_eq claims.tid params.tenant_id
      && (str_eq claims.uid params.user_id
          && (claims.cid == params.chain_id
              && str_eq claims.addr (normalized params.chain_id params.address)))

  -- the proof is checked against the claims that were opened
  unfoldable pub check_proof :
      (OwnershipVerificationRequest → World → Result Bool)
      → OwnershipParams
      → String
      → ChallengeClaims
      → Action World (Unit {0})
  check_proof verify params signature claims =
      if not (matches_request params claims) then raise invalid_ownership_challenge else (do
        proven ← call λ w. (
          verify
              (record {
                address = claims.addr;
                message = build_ownership_message claims;
                signature = signature;
              })
              w,
          w,
        )
        if proven then pure tt else raise invalid_ownership_signature)

  unfoldable pub on_proof :
      (OwnershipVerificationRequest → World → Result Bool)
      → OwnershipParams
      → Option String
      → Option String
      → Action World (Unit {0})
  on_proof verify params (some challenge) (some signature) = do
    opened ← gets λ w. open_challenge w.clock challenge
    claims ← of_result opened
    check_proof verify params signature claims
  on_proof verify params none signature = raise ownership_proof_required
  on_proof verify params (some challenge) none = raise ownership_proof_required

  abbrev pub is_given : Option String → Option String → Bool
  is_given (some challenge) (some signature) = true
  is_given none signature = false
  is_given (some challenge) none = false

  unfoldable pub assert_on : OwnershipParams → Blockchain → Action World (Unit {0})
  assert_on params blockchain = do
    required ← of_result (is_ownership_proof_required require_proof)
    (if not required && not (is_given params.challenge params.signature) then pure tt else (do
      adapter ← get adapters blockchain
      verify ←
          or_raise adapter.verify_ownership
            (unsupported_chain_capability "ownership verification" (chain_text blockchain))
      on_proof verify params params.challenge params.signature))

  -- A chain that is not known is rejected by the registration.
  unfoldable pub assert_ownership : OwnershipParams → Action World (Unit {0})
  assert_ownership params = elim (blockchain_for_chain_id evm_chain_id params.chain_id) [
    | none ↦ pure tt
    | some blockchain ↦ assert_on params blockchain
  ]
