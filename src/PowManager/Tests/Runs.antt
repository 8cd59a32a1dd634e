-- ===== src/PowManager/Tests/Runs.antt =====
-- Concrete runs of the difficulty and of the timers.
use Prim.Native.String.{String}
use dwn_server.Common.{ℕ, ◌≤◌, ◌<◌, ◌≡◌, refl, none, some, List, [], ◌∷◌, string_eq, arith, inl}
use dwn_server.Common.Int.{ℤ, pos}
use dwn_server.Common.Dict
use dwn_server.Common.Text.{big_int_of_hex}
use dwn_server.Double.Fractions.{fractions, fractions-IsRounded}
use dwn_server.Errors.{ok, proof_of_work_manager_response_nonce_reused}
use dwn_server.ProofOfWork.{generate_nonce, compute_hash, parse_big_int, verify_response_nonce}
use dwn_server.PowManager.{
  Manager, Options, verify_proof_of_work, record_proof_of_work,
  remove_proof_of_work_older_than_one_minute, remove_older, is_acceptable, is_hex_string,
}
use dwn_server.PowManager.Verify.{thrown}
use dwn_server.PowManager.Difficulty.{
  increment_per_evaluation, refresh_maximum_allowed_hash_value, create,
}
use dwn_server.PowManager.Difficulty.Bounds.{IsConfigured, IsBounded}
use dwn_server.PowManager.Difficulty.Range.{refresh-IsBounded, recent_count, settings}
use dwn_server.PowManager.Run.Reuse.{verify_proof_of_work_again}
use dwn_server.PowManager.Difficulty.Recovery.{quiet, quiet_stuck}
use dwn_server.PowManager.Run.{Event, submit, nonce_timer, difficulty_timer, run}
use dwn_server.PowManager.Run.Replay.{run-refuses_replay}
use dwn_server.PowManager.Tests.{digest, zeros, ones, manager, proof, no_proofs}

-- Two proofs of the last minute.
abbrev many : List (String × ℕ)
many = (zeros, 5) ∷ (ones, 7) ∷ []

configured :
    (c : ℤ) (l : List (String × ℕ))
    → IsConfigured fractions fractions-IsRounded (manager c l none) 6
configured c l = record {
  multiplier = omega arith;
  desired = omega arith;
  some_evaluations = omega arith;
  evaluations = refl;
  ten_minutes = refl;
  scaled = 1000000;
  scaled_multiplier = refl;
  fits = omega arith;
}

abbrev bounded :
    (c : ℕ) (l : List (String × ℕ)) → c ≤ 9000 → IsBounded fractions (manager (pos c) l none)
bounded c l h = record {
  current = c;
  initial = 9000;
  is_current = refl;
  is_initial = refl;
  below = h;
  increment = inl refl;
}

refresh-IsBounded_example :
    IsBounded fractions
      (refresh_maximum_allowed_hash_value fractions 9 (manager (pos 900) many none)).0
    × (settings (refresh_maximum_allowed_hash_value fractions 9 (manager (pos 900) many none)).0
        ≡ settings (manager (pos 900) many none))
refresh-IsBounded_example =
    refresh-IsBounded fractions fractions-IsRounded 9 6 (manager (pos 900) many none)
      (bounded 900 many (omega arith)) (configured (pos 900) many)

busy : 1 < recent_count 9 (manager (pos 900) many none)
unfolding remove_proof_of_work_older_than_one_minute remove_older Dict.get
busy = omega arith

calm : recent_count 9 (manager (pos 900) [] none) ≤ 1
unfolding remove_proof_of_work_older_than_one_minute remove_older Dict.get
calm = omega arith

quiet_stuck_example :
    (increment_per_evaluation fractions (manager (pos 8990) [] none) ≡ some (pos 0))
    × ((m' : Manager fractions.Num) × (quiet fractions 1000 (manager (pos 8990) [] none) ≡ some m')
        × (m'.current_maximum_allowed_hash_value ≡ pos 8990))
quiet_stuck_example =
    quiet_stuck fractions fractions-IsRounded 1000 (manager (pos 8990) [] none) 6
      (bounded 8990 [] (omega arith)) (configured (pos 8990) []) refl (omega arith) (omega arith)

abbrev events : List (ℕ × Event)
events = (7, submit proof) ∷ (8, nonce_timer (1 ∷ [])) ∷ (60000, difficulty_timer) ∷ []

accepted :
    verify_proof_of_work digest 5 proof (manager (pos 100) [] none)
    ≡ ok (manager (pos 100) ((zeros, 5) ∷ []) none)
unfolding verify_proof_of_work is_hex_string is_acceptable verify_response_nonce parse_big_int
    compute_hash record_proof_of_work big_int_of_hex Dict.has Dict.set
accepted = refl

run-refuses_replay_example :
    thrown (
      verify_proof_of_work digest 60001 proof
        (run fractions digest events (manager (pos 100) ((zeros, 5) ∷ []) none)))
    ≡ some proof_of_work_manager_response_nonce_reused
run-refuses_replay_example =
    run-refuses_replay fractions digest 5 proof proof (manager (pos 100) [] none)
      (manager (pos 100) ((zeros, 5) ∷ []) none) events 60001 no_proofs accepted
      (omega arith, (omega arith, (omega arith, tt))) refl

abbrev options : Options fractions.Num
options = record {
  desired_solve_count_per_minute = 1;
  initial_maximum_allowed_hash_value = some "FF";
  difficulty_increase_multiplier = none;
  challenge_seed = none;
  challenge_refresh_frequency_in_seconds = none;
  difficulty_reevaluation_frequency_in_seconds = none;
}

abbrev created : Manager fractions.Num
created = record {
  challenge_nonces = record {
    previous_challenge_nonce = none;
    current_challenge_nonce = "AB";
    next_challenge_nonce = none;
  };
  proof_of_work_of_last_minute = [];
  challenge_seed = none;
  difficulty_increase_multiplier = (1, 1);
  current_maximum_allowed_hash_value = pos 255;
  initial_maximum_allowed_hash_value = pos 255;
  desired_solve_count_per_minute = 1;
  challenge_refresh_frequency_in_seconds = 600;
  difficulty_reevaluation_frequency_in_seconds = 10;
  hash_value_increment_per_evaluation = some (pos 1);
}

created_from : create fractions (171 ∷ []) options ≡ ok created
unfolding create parse_big_int big_int_of_hex generate_nonce
created_from = refl

verify_proof_of_work_again_example :
    verify_proof_of_work digest 60006 proof
      (remove_proof_of_work_older_than_one_minute 60006 (manager (pos 100) ((zeros, 5) ∷ []) none))
    ≡ ok (
        record_proof_of_work 60006 zeros (
          remove_proof_of_work_older_than_one_minute 60006
            (manager (pos 100) ((zeros, 5) ∷ []) none)))
verify_proof_of_work_again_example =
    verify_proof_of_work_again digest 5 60006 proof (manager (pos 100) [] none)
      (manager (pos 100) ((zeros, 5) ∷ []) none) no_proofs accepted (omega arith)
