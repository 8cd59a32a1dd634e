-- ===== src/Http/Query/Build.antt =====
-- The loop over the parameters of a query.
use Prim.Native.String.{String}
use dwn_server.Common.{
  ◌≡◌, ◌∙◌, refl, Bool, true, false, ◌||◌, some, List, [], ◌∷◌, arith, All, All-map, All-zip, ◌==◌,
  string_eq,
}
use dwn_server.Errors.{ok, bind-ok}
use dwn_server.Http.Query.{leaf, Fields, empty, set_path, path_of, split, build}
use dwn_server.Http.Query.Laws.{
  read, apart, clear, clear-empty, set_path-clear, read-set_path, read-set_path-apart,
  clear-set_path-apart,
}
use text.Mathlib.TextEquality.{eq_iff}

abbrev pub keys : String → List String
keys param = (path_of param).0

abbrev pub last : String → String
last param = (path_of param).1

-- The names of two parameters lead to places of their own.
abbrev pub AreApart : String → String → Type 0
AreApart p q = apart (keys p) (last p) (keys q) (last q) ≡ true

abbrev pub IsSpread : List (String × String) → Type 0
IsSpread [] = Unit
IsSpread ((p, v) ∷ ps) = All (λ q. AreApart p q.0) ps × IsSpread ps

-- What `Object.prototype` has: a walk over such a key leaves the object that is built.
abbrev pub inherited_names : List String
inherited_names =
    "__proto__" ∷ "constructor" ∷ "hasOwnProperty" ∷ "isPrototypeOf" ∷ "propertyIsEnumerable"
    ∷ "toLocaleString" ∷ "toString" ∷ "valueOf" ∷ "__defineGetter__" ∷ "__defineSetter__"
    ∷ "__lookupGetter__" ∷ "__lookupSetter__" ∷ []

abbrev is_among : String → List String → Bool
is_among k [] = false
is_among k (n ∷ ns) = n == k || is_among k ns

-- No part of the name is one that every object inherits.
abbrev pub IsPlain : String × String → Type 0
IsPlain (p, v) = All (λ k. is_among k inherited_names ≡ false) (split p)

-- The parameter is found in the object.
abbrev pub IsRead : Fields → String × String → Type 0
IsRead fs (p, v) = read (keys p) (last p) fs ≡ some (leaf v)

beq_sym : (a b : String) → (a == b) ≡ (b == a)
beq_sym a b = ground (arith, eq_iff a b, eq_iff b a)

apart_sym :
    (ks : List String) (l : String) (js : List String) (m : String)
    → apart ks l js m ≡ apart js m ks l
unfolding apart
apart_sym [] l [] m = rw (beq_sym l m) refl
apart_sym [] l (j ∷ js) m = rw (beq_sym l j) refl
apart_sym (k ∷ ks) l [] m = rw (beq_sym k m) refl
apart_sym (k ∷ ks) l (j ∷ js) m = rw (beq_sym k j, apart_sym ks l js m) refl

-- A path that no parameter touches.
abbrev IsUntouched : List String → String → List (String × String) → Type 0
IsUntouched js m ps = All (λ q. apart (keys q.0) (last q.0) js m ≡ true) ps

abbrev IsBuilt : List (String × String) → Fields → Fields → Type 0
IsBuilt ps fs fs' =
    (build ps fs ≡ ok fs')
    × All (IsRead fs') ps
    × ((js : List String) (m : String) → IsUntouched js m ps → read js m fs' ≡ read js m fs)

build_from :
    (ps : List (String × String)) (fs : Fields)
    → IsSpread ps
    → All (λ q. clear (keys q.0) fs ≡ true) ps
    → (fs' : Fields) × IsBuilt ps fs fs'
unfolding build
build_from [] fs spread free = (fs, (refl, tt, λ js m h. refl))
build_from ((p, v) ∷ ps) fs (away, spread) (open_, free) =
    let (fs1, goes) = set_path-clear (keys p) (last p) (leaf v) fs open_ in
    let Away : String × String → Type 0 = λ q. AreApart p q.0 in
    let Free : String × String → Type 0 = λ q. clear (keys q.0) fs ≡ true in
    let both = All-zip Away Free ps away free in
    let free1 =
      All-map (λ q. Away q × Free q) (λ q. clear (keys q.0) fs1 ≡ true)
        (λ q h.
          clear-set_path-apart (keys p) (last p) (leaf v) (keys q.0) (last q.0) fs fs1 h.0 goes h.1)
        ps both in
    let (fs', rest) = build_from ps fs1 spread free1 in
    let (built, reads, others) = rest in
    let kept = others (keys p) (last p) (
      All-map Away (λ q. apart (keys q.0) (last q.0) (keys p) (last p) ≡ true)
        (λ q h. apart_sym (keys q.0) (last q.0) (keys p) (last p) ∙ h) ps away) in
    (
      fs',
      (
        bind-ok (set_path (keys p) (last p) (leaf v) fs) (λ fs'. build ps fs') fs1 goes ∙ built,
        (kept ∙ read-set_path (keys p) (last p) (leaf v) fs fs1 goes, reads),
        λ js m h.
            others js m h.1 ∙ read-set_path-apart (keys p) (last p) (leaf v) js m fs fs1 h.0 goes,
      ),
    )

All-clear : (ps : List (String × String)) → All (λ q. clear (keys q.0) empty ≡ true) ps
All-clear [] = tt
All-clear ((p, v) ∷ ps) = (clear-empty (keys p), All-clear ps)

-- Parameters whose dotted names are apart, none being another or the beginning of another, and have no
-- part that every object inherits, make an object without an error, and under the keys of each name the object holds the parameter's value.
pub build-IsRead :
    (ps : List (String × String))
    → All IsPlain ps
    → IsSpread ps
    → (fs : Fields) × (build ps empty ≡ ok fs) × All (IsRead fs) ps
build-IsRead ps plain spread =
    let (fs, rest) = build_from ps empty spread (All-clear ps) in (fs, rest.0, rest.1)
