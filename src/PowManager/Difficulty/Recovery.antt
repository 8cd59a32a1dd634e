-- ===== src/PowManager/Difficulty/Recovery.antt =====
-- How the maximum comes back to its initial value while few proofs arrive.
use dwn_server.Common.{
  ℕ, zero, suc, ◌+◌, ◌-◌, ◌*◌, ◌/◌, ◌≤◌, ◌<◌, ◌≡◌, refl, ap, ◌∙◌, Option, none, some, arith,
  if◌then◌else◌, leb,
}
use dwn_server.Common.Int.{pos, +ℤ_pos, -ℤ_pos, div_ℤ_pos}
use dwn_server.Double.{Double, IsRounded}
use dwn_server.PowManager.{Manager}
use dwn_server.PowManager.Difficulty.{easier, increment_per_evaluation}
use dwn_server.PowManager.Difficulty.Bounds.{IsConfigured, IsBounded, raised, easier-raised}

-- `n` reevaluations one after the other, each of which finds at most the desired number of proofs;
-- `none` if one of them throws.
unfoldable pub quiet : (d : Double) → ℕ → Manager d.Num → Option (Manager d.Num)
quiet d zero m = some m
quiet d (suc n) m = elim (easier d m) [ none ↦ none | some m' ↦ quiet d n m' ]

module _ (d : Double) (laws : IsRounded d) where
  open d use {Num}

  abbrev set_current : ℕ → ℕ → Manager Num → Manager Num
  set_current c k m = record m {
    current_maximum_allowed_hash_value = pos c;
    hash_value_increment_per_evaluation = some (pos k);
  }

  -- The value after `n` rounds with the increment `k`.
  abbrev after : ℕ → ℕ → ℕ → ℕ → ℕ
  after n c i k = if leb i (c + n * k) then i else c + n * k

  easier-step :
      (c i k : ℕ) (m : Manager Num)
      → m.initial_maximum_allowed_hash_value ≡ pos i
      → c ≤ i
      → easier d (set_current c k m) ≡ some (set_current (after 1 c i k) k m)
  unfolding easier increment_per_evaluation
  easier-step c i k m initial h = ground (arith, initial, +ℤ_pos c k)

  quiet-after :
      (n c i k : ℕ) (m : Manager Num)
      → m.initial_maximum_allowed_hash_value ≡ pos i
      → c ≤ i
      → quiet d n (set_current c k m) ≡ some (set_current (after n c i k) k m)
  unfolding quiet
  quiet-after zero c i k m initial h = ap (λ v. some (set_current v k m)) (ground arith)
  quiet-after (suc n) c i k m initial h =
      let next = after 1 c i k in
      let more : suc n * k ≡ k + n * k = grind arith in
      let same : after n next i k ≡ after (suc n) c i k = ground arith in
      rw (easier-step c i k m initial h, quiet)
        (quiet-after n next i k m initial (ground arith) ∙ ap (λ v. some (set_current v k m)) same)

  first-increment :
      (m : Manager Num) (e : ℕ) (b : IsBounded d m)
      → IsConfigured d laws m e
      → m.hash_value_increment_per_evaluation ≡ none
      → increment_per_evaluation d m ≡ some (pos ((b.initial - b.current) / (10 * e)))
  unfolding increment_per_evaluation
  first-increment m e b g unset =
      rw (unset, increment_per_evaluation)
        (simp (
          g.ten_minutes,
          b.is_current,
          b.is_initial,
          -ℤ_pos b.initial b.current b.below,
          div_ℤ_pos (b.initial - b.current) (10 * e) (omega (arith, g.some_evaluations)),
        ))

  -- From a value below the initial one, with the increment still to be computed.
  first-quiet :
      (n : ℕ) (m : Manager Num) (e : ℕ) (b : IsBounded d m)
      → IsConfigured d laws m e
      → m.hash_value_increment_per_evaluation ≡ none
      → b.current < b.initial
      → quiet d (suc n) m
        ≡ some (
            set_current
              (after (suc n) b.current b.initial ((b.initial - b.current) / (10 * e)))
              ((b.initial - b.current) / (10 * e))
              m)
  unfolding quiet
  first-quiet n m e b g unset lower =
      let k = (b.initial - b.current) / (10 * e) in
      let next = raised d laws b.current b.initial k in
      let more : suc n * k ≡ k + n * k = grind arith in
      let same : after n next b.initial k ≡ after (suc n) b.current b.initial k = ground arith in
      rw (easier-raised d laws m e k b (first-increment m e b g unset) lower, quiet)
        (quiet-after n next b.initial k m b.is_initial (ground arith)
          ∙ ap (λ v. some (set_current v k m)) same)

  reaches : (c i t : ℕ) → c ≤ i → 0 < t → t * t ≤ i - c → i ≤ c + suc t * ((i - c) / t)
  reaches c i t h p far =
      let large : t ≤ (i - c) / t = grind arith in
      let whole : i - c < (i - c) / t * t + t = omega arith in grind arith

  -- Ten minutes of quiet, and one reevaluation more, bring the maximum back to its initial value,
  -- if the distance is at least the square of the number of reevaluations in ten minutes.
  pub quiet_recovers :
      (m : Manager Num) (e : ℕ) (b : IsBounded d m)
      → IsConfigured d laws m e
      → m.hash_value_increment_per_evaluation ≡ none
      → 10 * e * (10 * e) ≤ b.initial - b.current
      → (m' : Manager Num) × (quiet d (suc (10 * e)) m ≡ some m')
        × (m'.current_maximum_allowed_hash_value ≡ m.initial_maximum_allowed_hash_value)
  quiet_recovers m e b g unset far =
      let k = (b.initial - b.current) / (10 * e) in
      let some_rounds : 0 < 10 * e = omega (arith, g.some_evaluations) in
      let lower : b.current < b.initial = grind arith in
      (
        set_current (after (suc (10 * e)) b.current b.initial k) k m,
        first-quiet (10 * e) m e b g unset lower,
        ground (arith, b.is_initial, reaches b.current b.initial (10 * e) b.below some_rounds far),
      )

  quiet_stays :
      (n : ℕ) (m : Manager Num) (e : ℕ) (b : IsBounded d m)
      → IsConfigured d laws m e
      → m.hash_value_increment_per_evaluation ≡ none
      → b.current < b.initial
      → b.initial - b.current < 10 * e
      → (m' : Manager Num) × (quiet d n m ≡ some m')
        × (m'.current_maximum_allowed_hash_value ≡ m.current_maximum_allowed_hash_value)
  unfolding quiet
  quiet_stays zero m e b g unset lower near = (m, refl, refl)
  quiet_stays (suc n) m e b g unset lower near =
      let k = (b.initial - b.current) / (10 * e) in
      let none_left : k ≡ 0 = grind arith in
      let still : suc n * k ≡ 0 = rw none_left (omega arith) in
      (
        set_current (after (suc n) b.current b.initial k) k m,
        first-quiet n m e b g unset lower,
        ground (arith, b.is_current, still),
      )

  -- While no increment is stored, and the maximum is below its initial value by less than the number of
  -- reevaluations in ten minutes: the increment that is computed is 0, and the maximum stays where it
  -- is, however long the quiet lasts.
  pub quiet_stuck :
      (n : ℕ) (m : Manager Num) (e : ℕ) (b : IsBounded d m)
      → IsConfigured d laws m e
      → m.hash_value_increment_per_evaluation ≡ none
      → b.current < b.initial
      → b.initial - b.current < 10 * e
      → (increment_per_evaluation d m ≡ some (pos 0))
        × ((m' : Manager Num) × (quiet d n m ≡ some m')
            × (m'.current_maximum_allowed_hash_value ≡ m.current_maximum_allowed_hash_value))
  quiet_stuck n m e b g unset lower near =
      let none_left : (b.initial - b.current) / (10 * e) ≡ 0 = grind arith in
      (
        first-increment m e b g unset ∙ ap (λ k. some (pos k)) none_left,
        quiet_stays n m e b g unset lower near,
      )
