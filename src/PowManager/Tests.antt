-- ===== src/PowManager/Tests.antt =====
-- Concrete runs of the proof-of-work manager.
mod Runs
use Prim.Native.String.{String}
use dwn_server.Common.{
  ℕ, ◌≡◌, ◌≢◌, ◌↔◌, refl, false, Option, none, some, List, [], ◌∷◌, string_eq, arith,
}
use dwn_server.Common.Int.{ℤ, pos}
use dwn_server.Common.Dict
use dwn_server.Common.Text.{big_int_of_hex, to_string_ℤ}
use dwn_server.Double.Fractions.{fractions}
use dwn_server.Errors.{ok, proof_of_work_insufficient_solution_nonce}
use dwn_server.ProofOfWork.{
  HashInput, generate_nonce, compute_hash, find_qualified_response_nonce, hash_as_hex_string,
  parse_big_int, find_from,
}
use dwn_server.PowManager.{
  Manager, get_proof_of_work_challenge, verify_proof_of_work, record_proof_of_work,
  refresh_challenge_nonce, big_int_to_hex_string,
}
use dwn_server.PowManager.Verify.{
  IsAccepted, Refuses, verify_proof_of_work_iff, verify_proof_of_work_refusal, thrown, IsSolved,
}
use dwn_server.PowManager.Solve.{
  IsDigest, attempt, find_qualified_response_nonce_ends, find_qualified_response_nonce_accepted,
}

-- A digest that every text has.
abbrev pub digest : String → String
digest s = "0F"

abbrev thirty_two_zeros : ℕ → List ℕ
thirty_two_zeros i =
    0 ∷ 0 ∷ 0 ∷ 0 ∷ 0 ∷ 0 ∷ 0 ∷ 0 ∷ 0 ∷ 0 ∷ 0 ∷ 0 ∷ 0 ∷ 0 ∷ 0 ∷ 0 ∷ 0 ∷ 0 ∷ 0 ∷ 0 ∷ 0 ∷ 0 ∷ 0 ∷ 0
    ∷ 0 ∷ 0 ∷ 0 ∷ 0 ∷ 0 ∷ 0 ∷ 0 ∷ 0 ∷ []

abbrev pub zeros : String
zeros = "0000000000000000000000000000000000000000000000000000000000000000"

abbrev pub ones : String
ones = "1111111111111111111111111111111111111111111111111111111111111111"

-- A manager with the given maximum and proofs, which wants one proof in a minute.
abbrev pub manager : ℤ → List (String × ℕ) → Option String → Manager fractions.Num
manager current proofs seed = record {
  challenge_nonces = record {
    previous_challenge_nonce = none;
    current_challenge_nonce = "AB";
    next_challenge_nonce = none;
  };
  proof_of_work_of_last_minute = proofs;
  challenge_seed = seed;
  difficulty_increase_multiplier = (1, 1);
  current_maximum_allowed_hash_value = current;
  initial_maximum_allowed_hash_value = pos 9000;
  desired_solve_count_per_minute = 1;
  challenge_refresh_frequency_in_seconds = 600;
  difficulty_reevaluation_frequency_in_seconds = 10;
  hash_value_increment_per_evaluation = none;
}

abbrev pub proof : HashInput
proof = record { challenge_nonce = "AB"; response_nonce = zeros; request_data = "data" }

verify_proof_of_work_iff_example :
    (verify_proof_of_work digest 5 proof (manager (pos 100) [] none)
      ≡ ok (manager (pos 100) ((zeros, 5) ∷ []) none))
    ↔ (IsAccepted digest (manager (pos 100) [] none) proof
        × (manager (pos 100) ((zeros, 5) ∷ []) none
            ≡ record_proof_of_work 5 zeros (manager (pos 100) [] none)))
verify_proof_of_work_iff_example =
    verify_proof_of_work_iff digest 5 proof (manager (pos 100) [] none)
      (manager (pos 100) ((zeros, 5) ∷ []) none)

verify_proof_of_work_refusal_example :
    (thrown (verify_proof_of_work digest 5 proof (manager (pos 3) [] none))
      ≡ some proof_of_work_insufficient_solution_nonce)
    ↔ Refuses digest (manager (pos 3) [] none) proof proof_of_work_insufficient_solution_nonce
verify_proof_of_work_refusal_example =
    verify_proof_of_work_refusal digest 5 proof (manager (pos 3) [] none)
      proof_of_work_insufficient_solution_nonce

two_proofs : Dict.IsMap {K = String} {V = ℕ} ((zeros, 5) ∷ (ones, 70000) ∷ [])
unfolding Dict.IsMap Dict.has
two_proofs = (refl, (refl, tt))

pub no_proofs : Dict.IsMap {K = String} {V = ℕ} []
unfolding Dict.IsMap
no_proofs = tt

abbrev seeded : Manager fractions.Num
seeded = manager (pos 100) [] (some "seed")

hash_not_empty :
    (refresh_challenge_nonce digest 600001 [] seeded).challenge_nonces.current_challenge_nonce ≢ ""
unfolding refresh_challenge_nonce hash_as_hex_string
hash_not_empty h = cc h

abbrev ab : String
ab = "AB"

ab_not_empty : ab ≢ ""
ab_not_empty h = cc h

drawn_not_empty : generate_nonce (171 ∷ []) ≢ ""
unfolding generate_nonce
drawn_not_empty h = cc h

digest-IsDigest : IsDigest digest
unfolding big_int_of_hex
digest-IsDigest s = (15, refl)

solved : IsSolved digest (pos 255) (attempt digest thirty_two_zeros "AB" "data" 0)
unfolding compute_hash big_int_of_hex
solved = (15, refl, omega arith)

ff : big_int_of_hex "FF" ≡ some 255
unfolding big_int_of_hex
ff = refl

find_qualified_response_nonce_ends_example :
    (n : String) × (find_qualified_response_nonce digest 3 thirty_two_zeros "FF" "AB" "data"
      ≡ some (ok n))
find_qualified_response_nonce_ends_example =
    find_qualified_response_nonce_ends digest thirty_two_zeros 3 0 255 "FF" "AB" "data"
      digest-IsDigest ff (omega arith) solved

found :
    find_qualified_response_nonce digest 3 thirty_two_zeros
      (get_proof_of_work_challenge (manager (pos 255) [] none)).maximum_allowed_hash_value
      (get_proof_of_work_challenge (manager (pos 255) [] none)).challenge_nonce
      "data"
    ≡ some (ok zeros)
unfolding find_qualified_response_nonce get_proof_of_work_challenge compute_hash parse_big_int
    find_from hash_as_hex_string big_int_to_hex_string generate_nonce big_int_of_hex to_string_ℤ
found = refl

new : Dict.has {V = ℕ} zeros [] ≡ false
unfolding Dict.has
new = refl

find_qualified_response_nonce_accepted_example :
    verify_proof_of_work digest 9
      (record {
        challenge_nonce = (get_proof_of_work_challenge (manager (pos 255) [] none)).challenge_nonce;
        response_nonce = zeros;
        request_data = "data";
      })
      (manager (pos 255) [] none)
    ≡ ok (record_proof_of_work 9 zeros (manager (pos 255) [] none))
find_qualified_response_nonce_accepted_example =
    find_qualified_response_nonce_accepted digest thirty_two_zeros (manager (pos 255) [] none) 3 9
      255 "data" zeros refl (omega arith) ab_not_empty (λ i. refl) found new
