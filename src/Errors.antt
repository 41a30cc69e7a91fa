-- ===== src/Errors.antt =====
-- src/common/errors/errors.ts: the errors of the API. `details` are left out.
use blockchain_transaction_s.Prelude.{ℕ, zero, suc, ◌+◌, ◌/◌, ◌%◌, String, ◌==◌, if◌then◌else◌}
use Prim.Native.String.{◌++◌, slice}
use blockchain_transaction_s.Effects.{Error, app_error}

abbrev pub digits : ℕ → ℕ → String
digits zero n = ""
digits (suc fuel) n =
    let rest = digits fuel (n / 10) in
    (if n / 10 == 0 then "" else rest) ++ slice "0123456789" (n % 10) (n % 10 + 1)

-- `String(n)`; a number has at most as many digits as its successor says.
abbrev pub number_text : ℕ → String
number_text n = digits (suc n) n

abbrev pub wallet_not_found : Error
wallet_not_found = app_error 404 "WALLET_NOT_FOUND" "Wallet not found"

abbrev pub wallet_not_custodial : Error
wallet_not_custodial = app_error 409 "WALLET_NOT_CUSTODIAL" "Wallet not custodial"

abbrev pub token_not_found : Error
token_not_found = app_error 404 "TOKEN_NOT_FOUND" "Token not found"

abbrev pub ownership_proof_required : Error
ownership_proof_required =
    app_error 400 "OWNERSHIP_PROOF_REQUIRED"
      "Proof of wallet ownership is required: request a challenge, sign it with the wallet, and send challenge and signature"

abbrev pub invalid_ownership_challenge : Error
invalid_ownership_challenge =
    app_error 400 "INVALID_OWNERSHIP_CHALLENGE" "Ownership challenge is invalid or has expired"

abbrev pub invalid_ownership_signature : Error
invalid_ownership_signature =
    app_error 403 "INVALID_OWNERSHIP_SIGNATURE" "Signature does not prove control of this address"

abbrev pub unsupported_chain : ℕ → Error
unsupported_chain chain_id =
    app_error 400 "UNSUPPORTED_CHAIN" ("Unsupported chainId " ++ number_text chain_id)

abbrev pub unsupported_chain_capability : String → String → Error
unsupported_chain_capability capability chain =
    app_error 400 "UNSUPPORTED_CHAIN_CAPABILITY" (chain ++ (" does not support " ++ capability))

abbrev pub wallet_token_chain_mismatch : ℕ → String → Error
wallet_token_chain_mismatch wallet_chain_id token_blockchain =
    app_error 400 "WALLET_TOKEN_CHAIN_MISMATCH" (
      "Wallet (chainId "
      ++ (number_text wallet_chain_id
          ++ (") is not on the same chain as the " ++ (token_blockchain ++ " token"))))
