-- ===== src/WalletOwnership/Sealed.antt =====
-- A challenge that was sealed is opened to its claims until it expires.
use blockchain_transaction_s.Prelude.{
  ℕ, ◌≤◌, ◌<◌, ◌≡◌, refl, ap, ◌∙◌, String, true, false, List, [], ◌∷◌, Option, some, ◌==◌, ltb, leb,
  arith,
}
use Prim.Native.String.{◌++◌, count, [] as nil, ◌∷◌ as ◌::◌}
use Prim.Native.Char.{code}
use text.Mathlib.TextLemmas.{nil-append, cons-append}
use blockchain_transaction_s.Bytes.{bytes_eq_refl}
use blockchain_transaction_s.Effects.{ok}
use blockchain_transaction_s.WalletOwnership.{
  ChallengeClaims, JsonClaims, json_string, json_number, OwnershipRuntime, challenge_version,
  max_challenge_length, split_dots, seal, open_payload, open_parts, open_challenge,
}
use blockchain_transaction_s.Blockchain.{BlockchainAdapter}

abbrev pub NoDots : String → Type 0
NoDots nil = Unit
NoDots (c :: s) = ((code c == 46) ≡ false) × NoDots s

abbrev pub json_of : ChallengeClaims → JsonClaims
json_of c = record {
  v = json_number c.v;
  tid = json_string c.tid;
  uid = json_string c.uid;
  cid = json_number c.cid;
  addr = json_string c.addr;
  nonce = json_string c.nonce;
  iat = json_number c.iat;
  exp = json_number c.exp;
}

-- The claims and their code are encoded without dots, and decoded to what they were.
pub record Encodes (runtime : OwnershipRuntime) (c : ChallengeClaims) : Type 0 where
  pub decode-encode :
      runtime.decode (runtime.encode (runtime.mac (runtime.payload_of c)))
      ≡ runtime.mac (runtime.payload_of c)
  pub encode-NoDots : NoDots (runtime.encode (runtime.mac (runtime.payload_of c)))
  pub payload_of-NoDots : NoDots (runtime.payload_of c)
  pub parse-payload_of : runtime.parse (runtime.payload_of c) ≡ some (json_of c)

split_dots-NoDots : (s : String) → NoDots s → split_dots s ≡ s ∷ []
split_dots-NoDots nil h = refl
split_dots-NoDots (c :: s) h = rw h.0 (rw (split_dots-NoDots s h.1) refl)

-- A text without dots is the first part of what follows it behind a dot.
split_dots-append : (s t : String) → NoDots s → split_dots (s ++ ("." ++ t)) ≡ s ∷ split_dots t
split_dots-append nil t h =
    ap split_dots
      (nil-append ("." ++ t) ∙ cons-append "." nil t ∙ ap (λ x. "." :: x) (nil-append t))
split_dots-append (c :: s) t h =
    ap split_dots (cons-append c s ("." ++ t)) ∙ rw h.0 (rw (split_dots-append s t h.1) refl)

module _ (runtime : OwnershipRuntime) (adapters : List BlockchainAdapter) (evm_chain_id : ℕ)
    (require_proof : Option String) (c : ChallengeClaims) (laws : Encodes runtime c) where
  open_payload-payload_of :
      (now : ℕ)
      → c.v ≡ challenge_version
      → now < c.exp
      → open_payload runtime adapters evm_chain_id require_proof now (runtime.payload_of c) ≡ ok c
  unfolding open_payload
  open_payload-payload_of now version alive =
      let right : (c.v == challenge_version) ≡ true = ground arith in
      let early : leb c.exp now ≡ false = ground arith in
      rw (laws.parse-payload_of, open_payload) (rw right (rw early refl))

  pub open_challenge-seal :
      (now : ℕ)
      → c.v ≡ challenge_version
      → now < c.exp
      → count (seal runtime adapters evm_chain_id require_proof c) ≤ max_challenge_length
      → open_challenge runtime adapters evm_chain_id require_proof now
          (seal runtime adapters evm_chain_id require_proof c)
        ≡ ok c
  unfolding seal open_challenge open_parts
  open_challenge-seal now version alive short =
      let payload = runtime.payload_of c in
      let mac = runtime.mac payload in
      let fits : ltb max_challenge_length (count (payload ++ ("." ++ runtime.encode mac))) ≡ false =
        ground arith in
      let parts =
        split_dots-append payload (runtime.encode mac) (laws.payload_of-NoDots)
        ∙ ap (λ x. payload ∷ x) (split_dots-NoDots (runtime.encode mac) (laws.encode-NoDots)) in
      rw fits (
        rw parts (
          rw (laws.decode-encode)
            (rw (bytes_eq_refl mac) (open_payload-payload_of now version alive))))
