-- ===== src/PowManager/Difficulty/Bounds.antt =====
-- The maximum stays between 0 and its initial value, falls under load and rises without.
use dwn_server.Common.{
  ℕ, ◌+◌, ◌-◌, ◌*◌, ◌/◌, ◌≤◌, ◌<◌, ◌≡◌, ap, ◌∙◌, none, some, arith, if◌then◌else◌, leb,
  Option-cases, inl, inr, ◌⊎◌,
}
use dwn_server.Common.Int.{ℤ, pos, *ℤ_pos, -ℤ_pos, +ℤ_pos, div_ℤ_pos}
use dwn_server.Double.{Double, IsRounded}
use dwn_server.PowManager.{Manager}
use dwn_server.PowManager.Difficulty.{
  harder, increment_per_evaluation, easier, scaled_rate, scale_factor,
  difficulty_evaluations_per_minute,
}

div-le : (a b c : ℕ) → a ≤ b * c → 0 < c → a / c ≤ b
div-le a b c h p = grind arith

-- The new maximum of the branch that makes the difficulty harder, in natural numbers: `r` is the
-- scaled rate, `f` the whole part of the multiplier and `e` the evaluations in a minute.
abbrev pub lowered : ℕ → ℕ → ℕ → ℕ → ℕ
lowered c r f e = c - (c - c * scale_factor / r) * f / e

decrease-le : (c r f e : ℕ) → f ≤ e → 0 < e → (c - c * 1000000 / r) * f / e ≤ c
decrease-le c r f e h p = div-le ((c - c * 1000000 / r) * f) c e (grind arith) p

prior-le : (c r : ℕ) → 1000000 ≤ r → c * 1000000 / r ≤ c
prior-le c r h = div-le (c * 1000000) c r (grind arith) (omega arith)

module _ (d : Double) where
  open d use {Num, of_ℕ, div, mul, floor, big_int}

  harder_lem :
      (latest : ℕ) (m : Manager Num) (c r s e : ℕ)
      → m.current_maximum_allowed_hash_value ≡ pos c
      → big_int (floor (scaled_rate d latest m)) ≡ some (pos r)
      → 1000000 ≤ r
      → big_int (floor (mul m.difficulty_increase_multiplier (of_ℕ 1000000))) ≡ some (pos s)
      → big_int (difficulty_evaluations_per_minute d m) ≡ some (pos e)
      → 0 < e
      → s / 1000000 ≤ e
      → harder d latest m
        ≡ some (record m {
          current_maximum_allowed_hash_value = pos (lowered c r (s / 1000000) e);
          hash_value_increment_per_evaluation = none;
        })
  unfolding harder
  harder_lem latest m c r s e current rate high multiplier evaluations some_ fits =
      let prior = c * 1000000 / r in
      let factor = s / 1000000 in
      let decrease = (c - prior) * factor / e in
      rw (current, rate, harder)
        (simp (
          *ℤ_pos c 1000000,
          div_ℤ_pos (c * 1000000) r (omega arith),
          multiplier,
          div_ℤ_pos s 1000000 (omega arith),
          evaluations,
          -ℤ_pos c prior (prior-le c r high),
          *ℤ_pos (c - prior) factor,
          div_ℤ_pos ((c - prior) * factor) e some_,
          -ℤ_pos c decrease (decrease-le c r factor e fits some_),
        ))

  harder-none :
      (latest : ℕ) (m : Manager Num)
      → big_int (floor (scaled_rate d latest m)) ≡ none
      → harder d latest m ≡ none
  unfolding harder
  harder-none latest m missing = rw missing

  -- The settings that the bounds rest on: a multiplier of at least 1 whose whole part is at most
  -- the number `e` of evaluations in a minute, which is a positive integer.
  pub record IsConfigured (laws : IsRounded d) (m : Manager Num) (e : ℕ) : Type 0 where
    pub multiplier : laws.AtLeast 1 m.difficulty_increase_multiplier
    pub desired : 0 < m.desired_solve_count_per_minute
    pub some_evaluations : 0 < e
    pub evaluations : big_int (difficulty_evaluations_per_minute d m) ≡ some (pos e)
    pub ten_minutes :
        big_int (mul (of_ℕ 10) (difficulty_evaluations_per_minute d m)) ≡ some (pos (10 * e))
    pub scaled : ℕ
    pub scaled_multiplier :
        big_int (floor (mul m.difficulty_increase_multiplier (of_ℕ 1000000))) ≡ some (pos scaled)
    pub fits : scaled / 1000000 ≤ e

  -- The maximum lies between 0 and its initial value, and the increment is not negative.
  pub record IsBounded (m : Manager Num) : Type 0 where
    pub current : ℕ
    pub initial : ℕ
    pub is_current : m.current_maximum_allowed_hash_value ≡ pos current
    pub is_initial : m.initial_maximum_allowed_hash_value ≡ pos initial
    pub below : current ≤ initial
    pub increment :
        (m.hash_value_increment_per_evaluation ≡ none)
        ⊎ ((k : ℕ) × (m.hash_value_increment_per_evaluation ≡ some (pos k)))

  module _ (laws : IsRounded d) where
    rate-at_least :
        (latest : ℕ) (m : Manager Num) (e : ℕ) (r : ℤ)
        → IsConfigured laws m e
        → m.desired_solve_count_per_minute < latest
        → big_int (floor (scaled_rate d latest m)) ≡ some r
        → (j : ℕ) × (r ≡ pos j) × (1000000 ≤ j)
    rate-at_least latest m e r g h rate =
        laws.at_least-floor 1000000 (scaled_rate d latest m) r
          (laws.at_least-mul 1000000 _ _ (omega arith)
            (laws.at_least-mul 1 _ _ (omega arith)
              (laws.at_least-div latest m.desired_solve_count_per_minute g.desired (omega arith))
              g.multiplier)
            (laws.at_least-of_ℕ 1000000 (omega arith)))
          rate

    pub harder-lowered :
        (latest : ℕ) (m m' : Manager Num) (e : ℕ) (b : IsBounded m)
        → IsConfigured laws m e
        → m.desired_solve_count_per_minute < latest
        → harder d latest m ≡ some m'
        → (v : ℕ) × (v ≤ b.current)
          × (m' ≡ record m {
            current_maximum_allowed_hash_value = pos v;
            hash_value_increment_per_evaluation = none;
          })
    harder-lowered latest m m' e b g h is =
        elim (Option-cases (big_int (floor (scaled_rate d latest m)))) [
          | inl missing ↦ absurd (cc (harder-none latest m missing))
          | inr (r, rate) ↦
              let (j, same, high) = rate-at_least latest m e r g h rate in
              let found =
                harder_lem latest m b.current j g.scaled e b.is_current (rate ∙ ap some same) high
                  g.scaled_multiplier g.evaluations g.some_evaluations g.fits in
              (lowered b.current j (g.scaled / 1000000) e, omega arith, cc)
        ]

    pub increment-pos :
        (m : Manager Num) (e : ℕ) (b : IsBounded m)
        → IsConfigured laws m e
        → (k : ℕ) × (increment_per_evaluation d m ≡ some (pos k))
    unfolding increment_per_evaluation
    increment-pos m e b g = elim b.increment [
      | inr (k, set) ↦ (k, rw set)
      | inl unset ↦ (
        (b.initial - b.current) / (10 * e),
        rw (unset, increment_per_evaluation)
            (simp (
              g.ten_minutes,
              b.is_current,
              b.is_initial,
              -ℤ_pos b.initial b.current b.below,
              div_ℤ_pos (b.initial - b.current) (10 * e) (omega (arith, g.some_evaluations)),
            )),
      )
    ]

    -- The value of the branch that makes the difficulty easier.
    abbrev pub raised : ℕ → ℕ → ℕ → ℕ
    raised c i k = if leb i (c + k) then i else c + k

    pub easier-raised :
        (m : Manager Num) (e k : ℕ) (b : IsBounded m)
        → increment_per_evaluation d m ≡ some (pos k)
        → b.current < b.initial
        → easier d m
          ≡ some (record m {
            hash_value_increment_per_evaluation = some (pos k);
            current_maximum_allowed_hash_value = pos (raised b.current b.initial k);
          })
    unfolding easier
    easier-raised m e k b increment lower =
        ground (arith, b.is_current, b.is_initial, increment, +ℤ_pos b.current k)

    pub easier-at_initial :
        (m : Manager Num) (b : IsBounded m) → b.current ≡ b.initial → easier d m ≡ some m
    unfolding easier
    easier-at_initial m b same = ground (arith, b.is_current, b.is_initial)
