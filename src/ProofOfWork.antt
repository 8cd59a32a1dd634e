-- ===== src/ProofOfWork.antt =====
-- src/registration/proof-of-work.ts. SHA-256 is the parameter `sha256`, from a text to its digest
-- in hexadecimal; random bytes are an argument.

use Prim.Native.String.{String}
use dwn_server.Common.{
  ℕ, zero, suc, ◌/◌, ◌%◌, Option, none, some, List, [], ◌∷◌, if◌then◌else◌, leb,
}
use dwn_server.Common.Int.{ℤ, pos, ltb_ℤ}
use dwn_server.Common.Text.{◌<>◌, concat, digit, to_string, to_string_ℤ, big_int_of_hex}
use dwn_server.Errors.{
  Result, ok, throw, ◌>>=◌, dwn_server_error, other_error,
  proof_of_work_insufficient_solution_nonce,
}

-- The input of `computeHash`, and of `ProofOfWorkManager.verifyProofOfWork`.
pub record HashInput : Type 0 where
  pub challenge_nonce : String
  pub response_nonce : String
  pub request_data : String

-- `BigInt` of `0x` and a text, which throws a SyntaxError.
unfoldable pub parse_big_int : String → Result ℕ
parse_big_int s = elim (big_int_of_hex s) [
  | none ↦ throw (other_error ("Cannot convert 0x" <> s <> " to a BigInt"))
  | some n ↦ ok n
]

-- randomBytes(32).toString('hex').toUpperCase(), of the bytes that were drawn
unfoldable pub generate_nonce : List ℕ → String
unfolding digit
generate_nonce [] = ""
generate_nonce (b ∷ bytes) =
    String.◌∷◌ (digit (b / 16 % 16)) (String.◌∷◌ (digit (b % 16)) (generate_nonce bytes))

module _ (sha256 : String → String) where
  -- The digest of the items one after the other.
  unfoldable pub hash_as_hex_string : List String → String
  hash_as_hex_string input = sha256 (concat input)

  unfoldable pub compute_hash : HashInput → String
  unfolding hash_as_hex_string
  compute_hash input =
      hash_as_hex_string (input.challenge_nonce ∷ input.response_nonce ∷ input.request_data ∷ [])

  unfoldable pub verify_response_nonce : ℤ → HashInput → Result (Unit {0})
  verify_response_nonce maximum_allowed_hash_value input = do
    computed_hash ← parse_big_int (compute_hash input)
    if ltb_ℤ maximum_allowed_hash_value (pos computed_hash)
        then throw (
            dwn_server_error proof_of_work_insufficient_solution_nonce (
              "Insufficient computed hash "
              <> to_string 10 computed_hash
              <> ", needs to be <= "
              <> to_string_ℤ 10 maximum_allowed_hash_value
              <> "."))
        else ok tt

  -- The loop of `findQualifiedResponseNonce`: the nonces that are drawn, one in each round, and at
  -- most `fuel` rounds; `none` means that the loop is still running.
  unfoldable pub find_from : ℕ → (ℕ → List ℕ) → ℕ → String → String → ℕ → Option (Result String)
  find_from zero random maximum challenge_nonce request_data i = none
  find_from (suc fuel) random maximum challenge_nonce request_data i =
      let nonce = generate_nonce (random i) in
      let rest = find_from fuel random maximum challenge_nonce request_data (suc i) in
      elim (parse_big_int (
        compute_hash (record {
          challenge_nonce = challenge_nonce;
          response_nonce = nonce;
          request_data = request_data;
        }))) [
          | throw e ↦ some (throw e)
          | ok computed_hash ↦ if leb computed_hash maximum then some (ok nonce) else rest
        ]

  unfoldable pub find_qualified_response_nonce :
      ℕ → (ℕ → List ℕ) → String → String → String → Option (Result String)
  find_qualified_response_nonce fuel random maximum_allowed_hash_value challenge_nonce
        request_data =
      elim (parse_big_int maximum_allowed_hash_value) [
        | throw e ↦ some (throw e)
        | ok maximum ↦ find_from fuel random maximum challenge_nonce request_data 0
      ]
