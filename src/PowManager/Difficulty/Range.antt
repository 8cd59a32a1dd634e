-- ===== src/PowManager/Difficulty/Range.antt =====
-- What a reevaluation does to the maximum.
use dwn_server.Common.{
  ℕ, ◌<◌, ◌≡◌, refl, sym, subst, ◌∙◌, some, arith, ltb, Bool-cases, Option-cases, inl, inr, dec_lt,
}
use dwn_server.Common.Int.{ℤ, pos, ◌≤ℤ◌}
use dwn_server.Double.{Double, IsRounded}
use dwn_server.PowManager.{
  Manager, remove_proof_of_work_older_than_one_minute, current_solve_count_per_minute,
}
use dwn_server.PowManager.Difficulty.{
  harder, easier, adjust, outcome, refresh_maximum_allowed_hash_value,
}
use dwn_server.PowManager.Difficulty.Bounds.{
  IsConfigured, IsBounded, harder-lowered, increment-pos, raised, easier-raised, easier-at_initial,
}

-- The settings, which no operation changes.
abbrev pub settings : {Num : Type 0} → Manager Num → Num × ℕ × ℕ × ℤ
settings m = (
  m.difficulty_increase_multiplier, m.desired_solve_count_per_minute,
  m.difficulty_reevaluation_frequency_in_seconds, m.initial_maximum_allowed_hash_value,
)

-- The number of proofs that are left after the clean-up at `now`.
abbrev pub recent_count : {Num : Type 0} → ℕ → Manager Num → ℕ
recent_count now m =
    current_solve_count_per_minute (remove_proof_of_work_older_than_one_minute now m)

module _ (d : Double) (laws : IsRounded d) where
  open d use {Num}

  pub record IsAdjusted (m m' : Manager Num) : Type 0 where
    bounded : IsBounded d m'
    kept : settings m' ≡ settings m

  pub harder-IsAdjusted :
      (latest : ℕ) (m m' : Manager Num) (e : ℕ)
      → IsBounded d m
      → IsConfigured d laws m e
      → m.desired_solve_count_per_minute < latest
      → harder d latest m ≡ some m'
      → IsAdjusted m m'
        × (m'.current_maximum_allowed_hash_value ≤ℤ m.current_maximum_allowed_hash_value)
  harder-IsAdjusted latest m m' e b g h is =
      let (v, low, same) = harder-lowered d laws latest m m' e b g h is in
      rw same (
        record {
          bounded = record {
            current = v;
            initial = b.initial;
            is_current = refl;
            is_initial = b.is_initial;
            below = omega (arith, b.below);
            increment = inl refl;
          };
          kept = refl;
        },
        ground (arith, b.is_current, low),
      )

  pub easier-IsAdjusted :
      (m m' : Manager Num) (e : ℕ)
      → IsBounded d m
      → IsConfigured d laws m e
      → easier d m ≡ some m'
      → IsAdjusted m m'
        × (m.current_maximum_allowed_hash_value ≤ℤ m'.current_maximum_allowed_hash_value)
  easier-IsAdjusted m m' e b g is = elim (dec_lt b.current b.initial) [
    | no full ↦
        let same : m' ≡ m = cc (easier-at_initial d laws m b (omega (arith, b.below))) in
        rw same (record { bounded = b; kept = refl }, ground (arith, b.is_current))
    | yes lower ↦
        let (k, increment) = increment-pos d laws m e b g in
        let found = easier-raised d laws m e k b increment lower in
        let v = raised d laws b.current b.initial k in
        let same : m' ≡ record m {
          hash_value_increment_per_evaluation = some (pos k);
          current_maximum_allowed_hash_value = pos v;
        } =
          cc in
        rw same (
          record {
            bounded = record {
              current = v;
              initial = b.initial;
              is_current = refl;
              is_initial = b.is_initial;
              below = ground arith;
              increment = inr (k, refl);
            };
            kept = refl;
          },
          ground (arith, b.is_current, lower),
        )
  ]

  adjust-IsAdjusted :
      (latest : ℕ) (m m' : Manager Num) (e : ℕ)
      → IsBounded d m
      → IsConfigured d laws m e
      → adjust d latest m ≡ some m'
      → IsAdjusted m m'
  unfolding adjust
  adjust-IsAdjusted latest m m' e b g is =
      elim (Bool-cases (ltb m.desired_solve_count_per_minute latest)) [
        | inl busy ↦ (harder-IsAdjusted latest m m' e b g (ground arith) (ground arith)).0
        | inr calm ↦ (easier-IsAdjusted m m' e b g (ground arith)).0
      ]

  -- The clean-up concerns neither the maximum nor the settings.
  pub clean-IsBounded :
      (now : ℕ) (m : Manager Num)
      → IsBounded d m
      → IsBounded d (remove_proof_of_work_older_than_one_minute now m)
  unfolding remove_proof_of_work_older_than_one_minute
  clean-IsBounded now m b = record {
    current = b.current;
    initial = b.initial;
    is_current = b.is_current;
    is_initial = b.is_initial;
    below = b.below;
    increment = b.increment;
  }

  pub clean-IsConfigured :
      (now e : ℕ) (m : Manager Num)
      → IsConfigured d laws m e
      → IsConfigured d laws (remove_proof_of_work_older_than_one_minute now m) e
  unfolding remove_proof_of_work_older_than_one_minute
  clean-IsConfigured now e m g = record {
    multiplier = g.multiplier;
    desired = g.desired;
    some_evaluations = g.some_evaluations;
    evaluations = g.evaluations;
    ten_minutes = g.ten_minutes;
    scaled = g.scaled;
    scaled_multiplier = g.scaled_multiplier;
    fits = g.fits;
  }

  clean-settings :
      (now : ℕ) (m : Manager Num)
      → settings (remove_proof_of_work_older_than_one_minute now m) ≡ settings m
  unfolding remove_proof_of_work_older_than_one_minute
  clean-settings now m = refl

  clean-current :
      (now : ℕ) (m : Manager Num)
      → (remove_proof_of_work_older_than_one_minute now m).current_maximum_allowed_hash_value
        ≡ m.current_maximum_allowed_hash_value
  unfolding remove_proof_of_work_older_than_one_minute
  clean-current now m = refl

  -- A reevaluation of the difficulty keeps the maximum between 0 and its initial value, also where
  -- it ends in a throw, and changes none of the settings, if the multiplier is at least 1 and its
  -- whole part at most the number of evaluations in a minute.
  pub refresh-IsBounded :
      (now e : ℕ) (m : Manager Num)
      → IsBounded d m
      → IsConfigured d laws m e
      → IsBounded d (refresh_maximum_allowed_hash_value d now m).0
        × (settings (refresh_maximum_allowed_hash_value d now m).0 ≡ settings m)
  unfolding refresh_maximum_allowed_hash_value
  refresh-IsBounded now e m b g =
      let cleaned = remove_proof_of_work_older_than_one_minute now m in
      let b' = clean-IsBounded now m b in
      elim (Option-cases (adjust d (recent_count now m) cleaned)) [
        | inl failed ↦
            subst
              (λ r.
                IsBounded d (outcome d cleaned r).0
                × (settings (outcome d cleaned r).0 ≡ settings m))
              (sym failed) (b', clean-settings now m)
        | inr (m', adjusted) ↦
            let a =
              adjust-IsAdjusted (recent_count now m) cleaned m' e b' (clean-IsConfigured now e m g)
                adjusted in
            subst
              (λ r.
                IsBounded d (outcome d cleaned r).0
                × (settings (outcome d cleaned r).0 ≡ settings m))
              (sym adjusted) (a.bounded, a.kept ∙ clean-settings now m)
      ]
