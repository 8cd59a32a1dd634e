-- ===== src/Common/Dict.antt =====
-- A JavaScript `Map`: entries in the order of insertion; `set` on a present key keeps its place.
use mathlib.Core.Path.{◌≡◌, refl, sym, subst, ◌∙◌}
use mathlib.Core.Logic.{inl, inr}
use mathlib.Core.Bool.{Bool, true, false, ◌||◌}
use mathlib.Core.List.{List, [], ◌∷◌, ◌++◌, map}
use mathlib.Core.Option.{Option, none, some}
use native.Mathlib.Omega.{arith}
use dwn_server.Common.Tests.{Eq, if◌then◌else◌, Bool-cases}
use dwn_server.Common.Lists.{filter, All}

module _ {ℓ} {K V : Type ℓ} where
  abbrev pub keys : List (K × V) → List K
  keys = map (λ e. e.0)

module _ {ℓ} {K V : Type ℓ} ⦃e : Eq K⦄ where
  unfoldable pub get : K → List (K × V) → Option V
  get k [] = none
  get k ((j, v) ∷ m) = if e.beq j k then some v else get k m

  unfoldable pub has : K → List (K × V) → Bool
  has k [] = false
  has k ((j, v) ∷ m) = e.beq j k || has k m

  unfoldable pub set : K → V → List (K × V) → List (K × V)
  set k v [] = (k, v) ∷ []
  set k v ((j, w) ∷ m) = if e.beq j k then (j, v) ∷ m else (j, w) ∷ set k v m

  unfoldable pub delete : K → List (K × V) → List (K × V)
  delete k [] = []
  delete k ((j, v) ∷ m) = if e.beq j k then m else (j, v) ∷ delete k m

  -- No two entries share a key.
  unfoldable pub IsMap : List (K × V) → Type 0
  IsMap [] = Unit
  IsMap ((j, v) ∷ m) = (has j m ≡ false) × IsMap m

  pub get-has : (k : K) (m : List (K × V)) → has k m ≡ false → get k m ≡ none
  unfolding get has
  get-has k [] h = refl
  get-has k ((j, v) ∷ m) h = ground (arith, get-has k m)

  pub has-get : (k : K) (m : List (K × V)) → has k m ≡ true → (v : V) × (get k m ≡ some v)
  unfolding get has
  has-get k [] h = absurd (cc)
  has-get k ((j, v) ∷ m) h = elim (Bool-cases (e.beq j k)) [
    | inl same ↦ (v, rw same)
    | inr other ↦ rw other (has-get k m (ground arith))
  ]

  pub get-set :
      (k j : K) (v : V) (m : List (K × V))
      → get j (set k v m) ≡ (if e.beq k j then some v else get j m)
  unfolding get set
  get-set k j v [] = refl
  get-set k j v ((i, w) ∷ m) =
      ground (arith, e.beq_iff k j, e.beq_iff i k, e.beq_iff i j, get-set k j v m)

  pub has-set : (k j : K) (v : V) (m : List (K × V)) → has j (set k v m) ≡ (e.beq k j || has j m)
  unfolding has set
  has-set k j v [] = refl
  has-set k j v ((i, w) ∷ m) =
      ground (arith, e.beq_iff k j, e.beq_iff i k, e.beq_iff i j, has-set k j v m)

  pub set-IsMap : (k : K) (v : V) (m : List (K × V)) → IsMap m → IsMap (set k v m)
  unfolding IsMap set has
  set-IsMap k v [] h = (refl, tt)
  set-IsMap k v ((i, w) ∷ m) h =
      ground (arith, set-IsMap k v m, has-set k i v m, e.beq_iff k i, e.beq_iff i k)

  pub has-delete_ne :
      (k j : K) (m : List (K × V)) → e.beq k j ≡ false → has j (delete k m) ≡ has j m
  unfolding has delete
  has-delete_ne k j [] h = refl
  has-delete_ne k j ((i, w) ∷ m) h =
      ground (arith, e.beq_iff k j, e.beq_iff i k, e.beq_iff i j, has-delete_ne k j m)

  pub has-delete_le : (k j : K) (m : List (K × V)) → has j m ≡ false → has j (delete k m) ≡ false
  unfolding has delete
  has-delete_le k j [] h = refl
  has-delete_le k j ((i, w) ∷ m) h = ground (arith, has-delete_le k j m)

  pub has-delete_self : (k : K) (m : List (K × V)) → IsMap m → has k (delete k m) ≡ false
  unfolding has delete IsMap
  has-delete_self k [] h = refl
  has-delete_self k ((i, w) ∷ m) h = ground (arith, e.beq_iff i k, has-delete_self k m)

  pub delete-IsMap : (k : K) (m : List (K × V)) → IsMap m → IsMap (delete k m)
  unfolding IsMap delete has
  delete-IsMap k [] h = tt
  delete-IsMap k ((i, w) ∷ m) h = ground (arith, delete-IsMap k m, has-delete_le k i m)

  pub get-append : (k : K) (m n : List (K × V)) → has k m ≡ false → get k (m ++ n) ≡ get k n
  unfolding get has
  get-append k [] n h = refl
  get-append k ((i, w) ∷ m) n h = ground (arith, get-append k m n)

  pub delete-append :
      (k : K) (m n : List (K × V)) → has k m ≡ false → delete k (m ++ n) ≡ m ++ delete k n
  unfolding delete has
  delete-append k [] n h = refl
  delete-append k ((i, w) ∷ m) n h = ground (arith, delete-append k m n)

  pub has-append : (k : K) (m n : List (K × V)) → has k (m ++ n) ≡ (has k m || has k n)
  unfolding has
  has-append k [] n = refl
  has-append k ((i, w) ∷ m) n = ground (arith, has-append k m n)

  -- A filtered map holds the entries that pass.
  pub get-filter :
      (p : K × V → Bool) (k : K) (v : V) (m : List (K × V))
      → get k m ≡ some v
      → p (k, v) ≡ true
      → get k (filter p m) ≡ some v
  unfolding get
  get-filter p k v [] h t = absurd (cc)
  get-filter p k v ((i, w) ∷ m) h t = ground (arith, e.beq_iff i k, get-filter p k v m)

  pub has-filter :
      (p : K × V → Bool) (k : K) (m : List (K × V)) → has k m ≡ false → has k (filter p m) ≡ false
  unfolding has
  has-filter p k [] h = refl
  has-filter p k ((i, w) ∷ m) h = ground (arith, has-filter p k m)

  pub filter-IsMap : (p : K × V → Bool) (m : List (K × V)) → IsMap m → IsMap (filter p m)
  unfolding IsMap has
  filter-IsMap p [] h = tt
  filter-IsMap p ((i, w) ∷ m) h = ground (arith, filter-IsMap p m, has-filter p i m)

  pub get-cons : (k : K) (v : V) (m : List (K × V)) → get k ((k, v) ∷ m) ≡ some v
  unfolding get
  get-cons k v m = ground (arith, e.beq_iff k k)

  pub delete-cons : (k : K) (v : V) (m : List (K × V)) → delete k ((k, v) ∷ m) ≡ m
  unfolding delete
  delete-cons k v m = ground (arith, e.beq_iff k k)

  pub get-some-has : (k : K) (v : V) (m : List (K × V)) → get k m ≡ some v → has k m ≡ true
  unfolding get has
  get-some-has k v [] h = absurd (cc)
  get-some-has k v ((i, w) ∷ m) h = ground (arith, get-some-has k v m)

  pub set-append :
      (k : K) (v : V) (m : List (K × V)) → has k m ≡ false → set k v m ≡ m ++ (k, v) ∷ []
  unfolding set has
  set-append k v [] h = refl
  set-append k v ((j, w) ∷ m) h = ground (arith, set-append k v m)

  pub delete-set : (k : K) (v : V) (m : List (K × V)) → has k m ≡ false → delete k (set k v m) ≡ m
  unfolding set has delete
  delete-set k v [] h = ground (arith, e.beq_iff k k)
  delete-set k v ((j, w) ∷ m) h = ground (arith, delete-set k v m)

  pub get-delete_ne :
      (k j : K) (m : List (K × V)) → e.beq k j ≡ false → get j (delete k m) ≡ get j m
  unfolding get delete
  get-delete_ne k j [] h = refl
  get-delete_ne k j ((i, w) ∷ m) h =
      ground (arith, h, e.beq_iff i k, e.beq_iff i j, e.beq_iff k j, get-delete_ne k j m)

  get-past :
      (j k : K) (w v : V) (m : List (K × V))
      → has j m ≡ false
      → get k m ≡ some v
      → get k ((j, w) ∷ m) ≡ some v
  unfolding get
  get-past j k w v m fresh there =
      let h = get-some-has k v m there in ground (arith, fresh, h, e.beq_iff j k, there)

module _ {ℓ κ} {K V : Type ℓ} ⦃e : Eq K⦄ (P : K × V → Type κ) where
  pub All-get : (k : K) (v : V) (m : List (K × V)) → All P m → get k m ≡ some v → P (k, v)
  unfolding get
  All-get k v [] h there = absurd (cc)
  All-get k v ((j, w) ∷ m) (p, h) there = elim (Bool-cases (e.beq j k)) [
    | inl same ↦
        let here : get k ((j, w) ∷ m) ≡ some w = rw same refl in
        let eq : w ≡ v = cc (sym here ∙ there) in
        subst (λ v. P (k, v)) eq (subst (λ k. P (k, w)) ((e.beq_iff j k).0 same) p)
    | inr other ↦
        let past : get k ((j, w) ∷ m) ≡ get k m = rw other refl in
        All-get k v m h (sym past ∙ there)
  ]

  pub All-set : (k : K) (v : V) (m : List (K × V)) → P (k, v) → All P m → All P (set k v m)
  unfolding set
  All-set k v [] p h = (p, tt)
  All-set k v ((j, w) ∷ m) p (q, h) = elim (Bool-cases (e.beq j k)) [
    | inl same ↦ rw same (rw ((e.beq_iff j k).0 same) (p, h))
    | inr other ↦ rw other (q, All-set k v m p h)
  ]

  pub All-delete : (k : K) (m : List (K × V)) → All P m → All P (delete k m)
  unfolding delete
  All-delete k [] h = tt
  All-delete k ((j, w) ∷ m) (q, h) = elim (Bool-cases (e.beq j k)) [
    | inl same ↦ rw same h
    | inr other ↦ rw other (q, All-delete k m h)
  ]

  -- What holds of each value that is found holds of each entry.
  pub All-of :
      (m : List (K × V)) → IsMap m → ((k : K) (v : V) → get k m ≡ some v → P (k, v)) → All P m
  unfolding IsMap
  All-of [] h f = tt
  All-of ((j, w) ∷ m) (fresh, h) f =
      (f j w (get-cons j w m), All-of m h (λ k v there. f k v (get-past j k w v m fresh there)))
