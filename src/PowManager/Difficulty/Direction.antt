-- ===== src/PowManager/Difficulty/Direction.antt =====
-- Which way a reevaluation moves the maximum.
use dwn_server.Common.{ℕ, ◌≤◌, ◌<◌, ◌≡◌, refl, sym, ◌∙◌, Option, none, some, arith}
use dwn_server.Common.Int.{◌≤ℤ◌}
use dwn_server.Double.{Double, IsRounded}
use dwn_server.PowManager.{Manager, remove_proof_of_work_older_than_one_minute}
use dwn_server.PowManager.Difficulty.{
  harder, easier, adjust, outcome, refresh_maximum_allowed_hash_value,
}
use dwn_server.PowManager.Difficulty.Bounds.{IsConfigured, IsBounded}
use dwn_server.PowManager.Difficulty.Range.{
  recent_count, harder-IsAdjusted, easier-IsAdjusted, clean-IsBounded, clean-IsConfigured,
}

module _ (d : Double) (laws : IsRounded d) where
  open d use {Num}

  outcome-le :
      (m : Manager Num) (r : Option (Manager Num))
      → ((m' : Manager Num)
          → r ≡ some m'
          → m'.current_maximum_allowed_hash_value ≤ℤ m.current_maximum_allowed_hash_value)
      → (outcome d m r).0.current_maximum_allowed_hash_value ≤ℤ m.current_maximum_allowed_hash_value
  outcome-le m none h = omega arith
  outcome-le m (some m') h = h m' refl

  outcome-ge :
      (m : Manager Num) (r : Option (Manager Num))
      → ((m' : Manager Num)
          → r ≡ some m'
          → m.current_maximum_allowed_hash_value ≤ℤ m'.current_maximum_allowed_hash_value)
      → m.current_maximum_allowed_hash_value ≤ℤ (outcome d m r).0.current_maximum_allowed_hash_value
  outcome-ge m none h = omega arith
  outcome-ge m (some m') h = h m' refl

  adjust-busy :
      (latest : ℕ) (m : Manager Num)
      → m.desired_solve_count_per_minute < latest
      → adjust d latest m ≡ harder d latest m
  unfolding adjust
  adjust-busy latest m h = ground arith

  adjust-calm :
      (latest : ℕ) (m : Manager Num)
      → latest ≤ m.desired_solve_count_per_minute
      → adjust d latest m ≡ easier d m
  unfolding adjust
  adjust-calm latest m h = ground arith

  -- With more recent proofs than desired, a reevaluation does not raise the maximum.
  pub refresh_busy :
      (now e : ℕ) (m : Manager Num)
      → IsBounded d m
      → IsConfigured d laws m e
      → m.desired_solve_count_per_minute < recent_count now m
      → (refresh_maximum_allowed_hash_value d now m).0.current_maximum_allowed_hash_value
        ≤ℤ m.current_maximum_allowed_hash_value
  unfolding refresh_maximum_allowed_hash_value remove_proof_of_work_older_than_one_minute
  refresh_busy now e m b g busy =
      let cleaned = remove_proof_of_work_older_than_one_minute now m in
      outcome-le cleaned (adjust d (recent_count now m) cleaned) (λ m' is.
        (harder-IsAdjusted d laws (recent_count now m) cleaned m' e (clean-IsBounded d laws now m b)
          (clean-IsConfigured d laws now e m g) busy
          (sym (adjust-busy (recent_count now m) cleaned busy) ∙ is)).1)

  -- With at most as many recent proofs as desired, a reevaluation does not lower the maximum.
  pub refresh_calm :
      (now e : ℕ) (m : Manager Num)
      → IsBounded d m
      → IsConfigured d laws m e
      → recent_count now m ≤ m.desired_solve_count_per_minute
      → m.current_maximum_allowed_hash_value
        ≤ℤ (refresh_maximum_allowed_hash_value d now m).0.current_maximum_allowed_hash_value
  unfolding refresh_maximum_allowed_hash_value remove_proof_of_work_older_than_one_minute
  refresh_calm now e m b g calm =
      let cleaned = remove_proof_of_work_older_than_one_minute now m in
      outcome-ge cleaned (adjust d (recent_count now m) cleaned) (λ m' is.
        (easier-IsAdjusted d laws cleaned m' e (clean-IsBounded d laws now m b)
          (clean-IsConfigured d laws now e m g)
          (sym (adjust-calm (recent_count now m) cleaned calm) ∙ is)).1)
