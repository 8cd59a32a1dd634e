-- ===== src/PowManager/Run.antt =====
-- Runs of the manager: what arrives and what the timers do, in the order of time.
pub mod Replay
pub mod Reuse
pub mod Bounded
use Prim.Native.String.{String}
use dwn_server.Common.{ℕ, List, [], ◌∷◌}
use dwn_server.Double.{Double}
use dwn_server.Errors.{Result, ok, throw}
use dwn_server.ProofOfWork.{HashInput}
use dwn_server.PowManager.{Manager, verify_proof_of_work, refresh_challenge_nonce}
use dwn_server.PowManager.Difficulty.{refresh_maximum_allowed_hash_value}

-- A proof that is submitted, and the two timers; the nonce timer draws random bytes.
pub data Event : Type 0 where
  submit : HashInput → Event
  nonce_timer : List ℕ → Event
  difficulty_timer : Event

-- A throw leaves the manager as it was.
abbrev pub settle : {Num : Type 0} → Manager Num → Result (Manager Num) → Manager Num
settle m (ok m') = m'
settle m (throw e) = m

module _ (d : Double) (sha256 : String → String) where
  open d use {Num}

  unfoldable pub step : ℕ → Event → Manager Num → Manager Num
  step now (submit p) m = elim (verify_proof_of_work sha256 now p m) [ ok m' ↦ m' | throw e ↦ m ]
  step now (nonce_timer random) m = refresh_challenge_nonce sha256 now random m
  step now difficulty_timer m = (refresh_maximum_allowed_hash_value d now m).0

  unfoldable pub run : List (ℕ × Event) → Manager Num → Manager Num
  run [] m = m
  run ((now, e) ∷ es) m = run es (step now e m)
