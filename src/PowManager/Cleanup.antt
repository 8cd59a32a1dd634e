-- ===== src/PowManager/Cleanup.antt =====
-- The clean-up keeps exactly the proofs that are not older than a minute.
use Prim.Native.String.{String}
use dwn_server.Common.{
  ℕ, ◌+◌, ◌-◌, ◌≡◌, refl, ap, ◌∙◌, Bool, false, not, List, [], ◌∷◌, ◌++◌, arith, ltb, leb,
  Bool-cases, inl, inr, string_eq, filter, All,
}
use mathlib.Core.List.{append_assoc}
use mathlib.Core.Path.{fun_ext}
use dwn_server.Common.Dict
use dwn_server.PowManager.{Manager, remove_older, remove_proof_of_work_older_than_one_minute}
use text.Mathlib.TextEquality.{eq_iff}

-- The entry survives a clean-up with this limit.
abbrev pub is_recent : ℕ → String × ℕ → Bool
is_recent limit e = not (ltb e.1 limit)

-- None of the entries has its key in the map.
abbrev Apart : List (String × ℕ) → List (String × ℕ) → Type 0
Apart m = All (λ e. Dict.has e.0 m ≡ false)

Apart-snoc :
    (m : List (String × ℕ)) (id : String) (t : ℕ) (n : List (String × ℕ))
    → Apart m n
    → Dict.has id n ≡ false
    → Apart (m ++ (id, t) ∷ []) n
unfolding Dict.has
Apart-snoc m id t [] h k = tt
Apart-snoc m id t ((j, u) ∷ n) h k = (
  ground (arith, Dict.has-append j m ((id, t) ∷ []), eq_iff id j, eq_iff j id),
  Apart-snoc m id t n h.1 (ground arith),
)

remove_older-filter :
    (limit : ℕ) (m n : List (String × ℕ))
    → Apart m n
    → Dict.IsMap n
    → remove_older limit (Dict.keys n) (m ++ n) ≡ m ++ filter (is_recent limit) n
unfolding remove_older Dict.IsMap
remove_older-filter limit m [] h k = refl
remove_older-filter limit m ((id, t) ∷ n) h k =
    let got = Dict.get-append id m ((id, t) ∷ n) h.0 ∙ Dict.get-cons id t n in
    let cut =
      Dict.delete-append id m ((id, t) ∷ n) h.0 ∙ ap (λ l. m ++ l) (Dict.delete-cons id t n) in
    elim (Bool-cases (ltb t limit)) [
      | inl old ↦ ground (arith, got, cut, remove_older-filter limit m n h.1 k.1)
      | inr recent ↦ ground (
        arith,
        got,
        remove_older-filter limit (m ++ (id, t) ∷ []) n (Apart-snoc m id t n h.1 k.0) k.1,
        append_assoc m ((id, t) ∷ []) n,
        append_assoc m ((id, t) ∷ []) (filter (is_recent limit) n),
      )
    ]

Apart-nil : (n : List (String × ℕ)) → Apart [] n
unfolding Dict.has
Apart-nil [] = tt
Apart-nil (e ∷ n) = (refl, Apart-nil n)

-- `removeProofOfWorkOlderThanOneMinute` keeps, in their order, exactly the entries that are at most
-- a minute old, and nothing else of the manager changes.
pub remove_proof_of_work_older_than_one_minute-filter :
    {Num : Type 0} (now : ℕ) (m : Manager Num)
    → Dict.IsMap m.proof_of_work_of_last_minute
    → remove_proof_of_work_older_than_one_minute now m ≡ record m {
      proof_of_work_of_last_minute =
          filter (λ e. leb now (e.1 + 60000)) m.proof_of_work_of_last_minute;
    }
unfolding remove_proof_of_work_older_than_one_minute
remove_proof_of_work_older_than_one_minute-filter now m h =
    let same : is_recent (now - 60000) ≡ (λ e. leb now (e.1 + 60000)) =
      fun_ext (λ e. ground arith) in
    ap (λ l. record m { proof_of_work_of_last_minute = l })
      (remove_older-filter (now - 60000) [] m.proof_of_work_of_last_minute (Apart-nil _) h
        ∙ ap (λ f. filter f m.proof_of_work_of_last_minute) same)
