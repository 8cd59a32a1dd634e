-- ===== src/PowManager/Run/Bounded.antt =====
-- The invariants of every run of the manager.
use Prim.Native.String.{String}
use dwn_server.Common.{ℕ, ◌≡◌, sym, List, [], arith, inl, inr, string_eq}
use dwn_server.Common.Dict
use dwn_server.Double.{Double, IsRounded}
use dwn_server.Errors.{ok, Result-cases}
use dwn_server.ProofOfWork.{parse_big_int}
use dwn_server.PowManager.{default_maximum_allowed_hash_value, Manager, Options, or_default}
use dwn_server.PowManager.Difficulty.{create}
use dwn_server.PowManager.Difficulty.Bounds.{IsConfigured, IsBounded}

-- A manager that `create` returns has no proofs, and stands at its initial maximum, which is not
-- negative.
pub create-IsBounded :
    (d : Double) (random : List ℕ) (input : Options d.Num) (m : Manager d.Num)
    → create d random input ≡ ok m
    → Dict.IsMap m.proof_of_work_of_last_minute
      × IsBounded d m
      × (m.current_maximum_allowed_hash_value ≡ m.initial_maximum_allowed_hash_value)
unfolding create Dict.IsMap
create-IsBounded d random input m h =
    elim (Result-cases (
      parse_big_int
        (or_default input.initial_maximum_allowed_hash_value default_maximum_allowed_hash_value))) [
          | inl (n, parsed) ↦
              let same = sym (rw (parsed, create) at h) in
              let empty : m.proof_of_work_of_last_minute ≡ [] = ground (arith, same) in
              (
                rw empty tt,
                record {
                  current = n;
                  initial = n;
                  is_current = ground (arith, same);
                  is_initial = ground (arith, same);
                  below = omega arith;
                  increment = inr (1, ground (arith, same));
                },
                ground (arith, same),
              )
          | inr (e, failed) ↦ absurd (cc (rw (failed, create) at h))
        ]

module _ (d : Double) (laws : IsRounded d) (sha256 : String → String) where
  open d use {Num}

  -- The proofs are a map, the maximum is in its range, and the settings are as given.
  pub record IsValid (e : ℕ) (m : Manager Num) : Type 0 where
    pub proofs : Dict.IsMap m.proof_of_work_of_last_minute
    pub bounded : IsBounded d m
    pub configured : IsConfigured d laws m e
