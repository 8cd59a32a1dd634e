-- ===== src/PowManager.antt =====
-- src/registration/proof-of-work-manager.ts: the challenge nonces, the solved proofs of the last
-- minute and the difficulty. Time is in milliseconds and an argument of each operation, as are the
-- random bytes. Floating-point numbers and SHA-256 are parameters.

pub mod Verify
pub mod Cleanup
pub mod Nonces
pub mod Difficulty
pub mod Challenge
pub mod Solve
pub mod Run
mod Tests
use Prim.Native.String
use Prim.Native.String.{String}
use dwn_server.Common.{
  ℕ, zero, suc, ◌-◌, ◌*◌, ◌/◌, Bool, true, false, not, ◌&&◌, ◌||◌, Option, none, some, List, [],
  ◌∷◌, if◌then◌else◌, leb, ltb, nat_beq, ◌==◌, string_eq, length, filter,
}
use dwn_server.Common.Int.{ℤ, pos, negsuc, ◌+ℤ◌}
use dwn_server.Common.Text.{◌<>◌, codes, to_string_ℤ}
use dwn_server.Common.Dict
use dwn_server.Errors.{
  Result, ok, throw, ◌>>◌, dwn_server_error, proof_of_work_manager_response_nonce_reused,
  proof_of_work_manager_invalid_response_nonce_format,
  proof_of_work_manager_invalid_challenge_nonce,
}
use dwn_server.ProofOfWork.{HashInput, generate_nonce, hash_as_hex_string, verify_response_nonce}

pub record ChallengeNonces : Type 0 where
  pub previous_challenge_nonce : Option String
  pub current_challenge_nonce : String
  pub next_challenge_nonce : Option String

-- The fields of the class; `proof_of_work_of_last_minute` maps a response nonce to its time.
pub record Manager (Num : Type 0) : Type 0 where
  pub challenge_nonces : ChallengeNonces
  pub proof_of_work_of_last_minute : List (String × ℕ)
  pub challenge_seed : Option String
  pub difficulty_increase_multiplier : Num
  pub current_maximum_allowed_hash_value : ℤ
  pub initial_maximum_allowed_hash_value : ℤ
  pub desired_solve_count_per_minute : ℕ
  pub challenge_refresh_frequency_in_seconds : ℕ
  pub difficulty_reevaluation_frequency_in_seconds : ℕ
  pub hash_value_increment_per_evaluation : Option ℤ

abbrev pub default_maximum_allowed_hash_value : String
default_maximum_allowed_hash_value =
    "000000FFFFFFFFFFFFFFFFFFFFFFFFFFFFFFFFFFFFFFFFFFFFFFFFFFFFFFFFFF"

-- The input of `create`, less `autoStart`.
pub record Options (Num : Type 0) : Type 0 where
  pub desired_solve_count_per_minute : ℕ
  pub initial_maximum_allowed_hash_value : Option String
  pub difficulty_increase_multiplier : Option Num
  pub challenge_seed : Option String
  pub challenge_refresh_frequency_in_seconds : Option ℕ
  pub difficulty_reevaluation_frequency_in_seconds : Option ℕ

-- a ?? b
abbrev pub or_default {ℓ} : {A : Type ℓ} → Option A → A → A
or_default none b = b
or_default (some a) b = a

pub record ProofOfWorkChallengeModel : Type 0 where
  pub challenge_nonce : String
  pub maximum_allowed_hash_value : String

abbrev pub is_hex_digit : ℕ → Bool
is_hex_digit c =
    leb b'0' c && leb c b'9' || (leb b'a' c && leb c b'f' || (leb b'A' c && leb c b'F'))

abbrev pub all_hex : List ℕ → Bool
all_hex [] = true
all_hex (c ∷ cs) = is_hex_digit c && all_hex cs

-- /^[0-9a-fA-F]+$/
unfoldable pub is_hex_string : String → Bool
is_hex_string str = ltb 0 (length (codes str)) && all_hex (codes str)

-- The loop of `bigIntToHexString`, a round for each zero that is missing.
unfoldable pub pad_zeros : ℕ → String → String
pad_zeros zero hex = hex
pad_zeros (suc n) hex = pad_zeros n (String.◌∷◌ "0" hex)

unfoldable pub big_int_to_hex_string : ℤ → String
unfolding pad_zeros
big_int_to_hex_string int = let hex = to_string_ℤ 16 int in pad_zeros (64 - length (codes hex)) hex

-- `nonce !== undefined && nonce !== ''`, and `includes` on what is left.
abbrev is_usable : Option String → Bool
is_usable none = false
is_usable (some nonce) = not (nonce == "")

abbrev includes : String → List (Option String) → Bool
includes nonce [] = false
includes nonce (none ∷ rest) = includes nonce rest
includes nonce (some n ∷ rest) = n == nonce || includes nonce rest

unfoldable pub is_acceptable : ChallengeNonces → String → Bool
is_acceptable n challenge_nonce = includes challenge_nonce (
    filter is_usable
      (n.previous_challenge_nonce ∷ some n.current_challenge_nonce ∷ n.next_challenge_nonce ∷ []))

-- The keys that the loop of `removeProofOfWorkOlderThanOneMinute` goes through. `now - 60000` is
-- the time of a minute ago; where it would be negative no time lies before it, nor before 0.
unfoldable pub remove_older : ℕ → List String → List (String × ℕ) → List (String × ℕ)
remove_older one_minute_ago [] m = m
remove_older one_minute_ago (id ∷ ids) m = elim (Dict.get id m) [
  | none ↦ remove_older one_minute_ago ids m
  | some time ↦
      remove_older one_minute_ago ids (if ltb time one_minute_ago then Dict.delete id m else m)
]

-- `refreshIntervalId.toString()` for the interval at `now` moved by the offset. At frequency 0 the
-- quotient is Infinity, or NaN at time 0.
unfoldable pub interval_text : ℕ → ℕ → ℤ → String
interval_text frequency now offset =
    if nat_beq frequency 0
    then (if nat_beq now 0 then "NaN" else "Infinity")
    else to_string_ℤ 10 (pos (now / (frequency * 1000)) +ℤ offset)

module _ {Num : Type 0} where
  unfoldable pub get_proof_of_work_challenge : Manager Num → ProofOfWorkChallengeModel
  get_proof_of_work_challenge m = record {
    challenge_nonce = m.challenge_nonces.current_challenge_nonce;
    maximum_allowed_hash_value = big_int_to_hex_string m.current_maximum_allowed_hash_value;
  }

  -- `currentSolveCountPerMinute`: the size of the map
  abbrev pub current_solve_count_per_minute : Manager Num → ℕ
  current_solve_count_per_minute m = length m.proof_of_work_of_last_minute

  unfoldable pub record_proof_of_work : ℕ → String → Manager Num → Manager Num
  record_proof_of_work now id m = record m {
    proof_of_work_of_last_minute = Dict.set id now m.proof_of_work_of_last_minute;
  }

  unfoldable pub remove_proof_of_work_older_than_one_minute : ℕ → Manager Num → Manager Num
  remove_proof_of_work_older_than_one_minute now m = record m {
    proof_of_work_of_last_minute =
        remove_older (now - 60 * 1000) (Dict.keys m.proof_of_work_of_last_minute)
          m.proof_of_work_of_last_minute;
  }

-- One nonce of the seeded branch.
abbrev pub seeded_nonce : (String → String) → String → ℕ → ℕ → ℤ → String
seeded_nonce sha256 seed frequency now offset =
    hash_as_hex_string sha256 (seed ∷ interval_text frequency now offset ∷ seed ∷ [])

module _ {Num : Type 0} (sha256 : String → String) where
  -- A throw leaves the manager as it was.
  unfoldable pub verify_proof_of_work : ℕ → HashInput → Manager Num → Result (Manager Num)
  unfolding record_proof_of_work
  verify_proof_of_work now p m =
      if Dict.has p.response_nonce m.proof_of_work_of_last_minute
      then throw (
          dwn_server_error proof_of_work_manager_response_nonce_reused
            ("Not allowed to reused response nonce: " <> p.response_nonce <> "."))
      else if not (is_hex_string p.response_nonce)
          || not (nat_beq (length (codes p.response_nonce)) 64)
      then throw (
          dwn_server_error proof_of_work_manager_invalid_response_nonce_format (
            "Response nonce not a HEX string representing a 256 bit value: " <> p.response_nonce
            <> "."))
      else if not (is_acceptable m.challenge_nonces p.challenge_nonce)
      then throw (
          dwn_server_error proof_of_work_manager_invalid_challenge_nonce
            ("Unknown or expired challenge nonce: " <> p.challenge_nonce <> "."))
      else (verify_response_nonce sha256 m.current_maximum_allowed_hash_value p
          >> ok (record_proof_of_work now p.response_nonce m))

  unfoldable pub refresh_challenge_nonce : ℕ → List ℕ → Manager Num → Manager Num
  refresh_challenge_nonce now random m = elim m.challenge_seed [
    | some seed ↦
        let frequency = m.challenge_refresh_frequency_in_seconds in
        record m {
          challenge_nonces = record {
            previous_challenge_nonce = some (seeded_nonce sha256 seed frequency now (negsuc 0));
            current_challenge_nonce = seeded_nonce sha256 seed frequency now (pos 0);
            next_challenge_nonce = some (seeded_nonce sha256 seed frequency now (pos 1));
          };
        }
    | none ↦ record m {
      challenge_nonces = record {
        previous_challenge_nonce = some m.challenge_nonces.current_challenge_nonce;
        current_challenge_nonce = generate_nonce random;
        next_challenge_nonce = m.challenge_nonces.next_challenge_nonce;
      };
    }
  ]
