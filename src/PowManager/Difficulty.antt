-- ===== src/PowManager/Difficulty.antt =====
-- src/registration/proof-of-work-manager.ts: the difficulty, its timers, and `create`.
pub mod Bounds
pub mod Range
pub mod Direction
pub mod Recovery
use Prim.Native.String
use Prim.Native.String.{String}
use dwn_server.Common.{
  ℕ, ◌+◌, ◌*◌, Bool, true, false, Option, none, some, List, [], if◌then◌else◌, ltb, string_eq,
}
use dwn_server.Common.Int.{ℤ, pos, ◌+ℤ◌, ◌-ℤ◌, ◌*ℤ◌, div_ℤ, leb_ℤ, eqb_ℤ}
use dwn_server.Common.Dict
use dwn_server.Double.{Double}
use dwn_server.Errors.{Result, ok, ◌>>=◌, ◌>>◌}
use dwn_server.ProofOfWork.{parse_big_int, generate_nonce}
use dwn_server.PowManager.{
  Manager, Options, or_default, default_maximum_allowed_hash_value, current_solve_count_per_minute,
  remove_proof_of_work_older_than_one_minute, refresh_challenge_nonce,
}

-- What a throw in `refreshMaximumAllowedHashValue` leaves is `none`: it comes before any
-- assignment, and after the clean-up.
infixl 5 ◌>>=?◌
abbrev ◌>>=?◌ {ℓ κ} : {A : Type ℓ} {B : Type κ} → Option A → (A → Option B) → Option B
none >>=? f = none
some a >>=? f = f a

abbrev pub scale_factor : ℕ
scale_factor = 1000000

module _ (d : Double) where
  open d use {Num, of_ℕ, div, mul, floor, big_int}

  -- 60000 / (this.difficultyReevaluationFrequencyInSeconds * 1000)
  abbrev pub difficulty_evaluations_per_minute : Manager Num → Num
  difficulty_evaluations_per_minute m =
      div (of_ℕ 60000) (of_ℕ (m.difficulty_reevaluation_frequency_in_seconds * 1000))

  -- The divisor: the solve rate as a fraction of the desired one, times the multiplier, scaled.
  abbrev pub scaled_rate : ℕ → Manager Num → Num
  scaled_rate latest m =
      mul
        (mul (div (of_ℕ latest) (of_ℕ m.desired_solve_count_per_minute))
          m.difficulty_increase_multiplier)
        (of_ℕ scale_factor)

  -- The branch that makes the difficulty harder.
  unfoldable pub harder : ℕ → Manager Num → Option (Manager Num)
  harder latest m = big_int (floor (scaled_rate latest m)) >>=? λ rate.
      div_ℤ (m.current_maximum_allowed_hash_value *ℤ pos scale_factor) rate >>=? λ prior.
      big_int (floor (mul m.difficulty_increase_multiplier (of_ℕ scale_factor))) >>=? λ multiplier.
      div_ℤ multiplier (pos scale_factor) >>=? λ factor.
      big_int (difficulty_evaluations_per_minute m) >>=? λ evaluations.
      div_ℤ ((m.current_maximum_allowed_hash_value -ℤ prior) *ℤ factor) evaluations >>=? λ decrease.
      some (record m {
        current_maximum_allowed_hash_value = m.current_maximum_allowed_hash_value -ℤ decrease;
        hash_value_increment_per_evaluation = none;
      })

  -- `this.hashValueIncrementPerEvaluation`, computed if it is undefined.
  unfoldable pub increment_per_evaluation : Manager Num → Option ℤ
  increment_per_evaluation m = elim m.hash_value_increment_per_evaluation [
    | some increment ↦ some increment
    | none ↦ big_int (mul (of_ℕ 10) (difficulty_evaluations_per_minute m)) >>=? λ evaluations.
        div_ℤ (m.initial_maximum_allowed_hash_value -ℤ m.current_maximum_allowed_hash_value)
          evaluations
  ]

  -- The branch that makes the difficulty easier.
  unfoldable pub easier : Manager Num → Option (Manager Num)
  easier m =
      if eqb_ℤ m.current_maximum_allowed_hash_value m.initial_maximum_allowed_hash_value
      then some m
      else increment_per_evaluation m >>=? λ increment.
          let value = m.current_maximum_allowed_hash_value +ℤ increment in
          some (record m {
            hash_value_increment_per_evaluation = some increment;
            current_maximum_allowed_hash_value =
                if leb_ℤ m.initial_maximum_allowed_hash_value value
                then m.initial_maximum_allowed_hash_value
                else value;
          })

  -- The test of the solve rate.
  unfoldable pub adjust : ℕ → Manager Num → Option (Manager Num)
  adjust latest m =
      if ltb m.desired_solve_count_per_minute latest then harder latest m else easier m

  abbrev pub outcome : Manager Num → Option (Manager Num) → Manager Num × Bool
  outcome cleaned none = (cleaned, false)
  outcome cleaned (some m) = (m, true)

  -- The new state, and whether the call ended without a throw.
  unfoldable pub refresh_maximum_allowed_hash_value : ℕ → Manager Num → Manager Num × Bool
  refresh_maximum_allowed_hash_value now m =
      let cleaned = remove_proof_of_work_older_than_one_minute now m in
      outcome cleaned (adjust (current_solve_count_per_minute cleaned) cleaned)

  -- `create` and the constructor, with the nonce that is drawn first; `start` draws another.
  unfoldable pub create : List ℕ → Options Num → Result (Manager Num)
  create random input = do
    maximum ←
        parse_big_int
          (or_default input.initial_maximum_allowed_hash_value default_maximum_allowed_hash_value)
    ok (record {
      challenge_nonces = record {
        previous_challenge_nonce = none;
        current_challenge_nonce = generate_nonce random;
        next_challenge_nonce = none;
      };
      proof_of_work_of_last_minute = [];
      challenge_seed = input.challenge_seed;
      difficulty_increase_multiplier = or_default input.difficulty_increase_multiplier (of_ℕ 1);
      current_maximum_allowed_hash_value = pos maximum;
      initial_maximum_allowed_hash_value = pos maximum;
      desired_solve_count_per_minute = input.desired_solve_count_per_minute;
      challenge_refresh_frequency_in_seconds =
          or_default input.challenge_refresh_frequency_in_seconds (10 * 60);
      difficulty_reevaluation_frequency_in_seconds =
          or_default input.difficulty_reevaluation_frequency_in_seconds 10;
      hash_value_increment_per_evaluation = some (pos 1);
    })

  -- `start`: each timer's function runs at once, and names the time of its next run.
  unfoldable pub periodically_refresh_challenge_nonce :
      (String → String) → ℕ → List ℕ → Manager Num → Manager Num × ℕ
  periodically_refresh_challenge_nonce sha256 now random m = (
    refresh_challenge_nonce sha256 now random m,
    now + m.challenge_refresh_frequency_in_seconds * 1000,
  )

  unfoldable pub periodically_refresh_proof_of_work_difficulty : ℕ → Manager Num → Manager Num × ℕ
  periodically_refresh_proof_of_work_difficulty now m = (
    (refresh_maximum_allowed_hash_value now m).0,
    now + m.difficulty_reevaluation_frequency_in_seconds * 1000,
  )

  unfoldable pub start : (String → String) → ℕ → List ℕ → Manager Num → Manager Num
  start sha256 now random m =
      (periodically_refresh_proof_of_work_difficulty now
        (periodically_refresh_challenge_nonce sha256 now random m).0).0
