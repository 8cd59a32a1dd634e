-- ===== src/Http/Query/Laws.antt =====
-- What a query's object holds.
use Prim.Native.String.{String}
use dwn_server.Common.{
  ◌≡◌, ◌∙◌, sym, ap, refl, inl, inr, Bool, true, false, Bool-cases, Option, none, some, List, [],
  ◌∷◌, arith, if◌then◌else◌, ◌==◌, string_eq,
}
use dwn_server.Errors.{ok, ok-bind, bind-ok}
use dwn_server.Http.Query.{
  Value, leaf, object, Fields, empty, field, get_field, set_field, fields_of, set_path,
}
use text.Mathlib.TextEquality.{eq_iff}

-- The value under a path.
abbrev pub read_in : (Fields → Option Value) → Option Value → Option Value
read_in f none = none
read_in f (some (leaf s)) = none
read_in f (some (object fs)) = f fs

unfoldable pub read : List String → String → Fields → Option Value
read [] last fs = get_field last fs
read (k ∷ keys) last fs = read_in (read keys last) (get_field k fs)

-- Neither path is the other, or goes on from it.
unfoldable pub apart : List String → String → List String → String → Bool
apart [] l [] m = if l == m then false else true
apart [] l (j ∷ js) m = if l == j then false else true
apart (k ∷ ks) l [] m = if k == m then false else true
apart (k ∷ ks) l (j ∷ js) m = let rest = apart ks l js m in if k == j then rest else true

-- The keys lead through objects, and names that are free or hold the empty text.
abbrev pub clear_in : (Fields → Bool) → Option Value → Bool
clear_in f none = true
clear_in f (some (leaf s)) = s == ""
clear_in f (some (object fs)) = f fs

unfoldable pub clear : List String → Fields → Bool
clear [] fs = true
clear (k ∷ keys) fs = clear_in (clear keys) (get_field k fs)

get-set_field :
    (k j : String) (v : Value) (fs : Fields)
    → get_field j (set_field k v fs) ≡ (if k == j then some v else get_field j fs)
get-set_field k j v empty = refl
get-set_field k j v (field i w fs) =
    ground (arith, eq_iff k j, eq_iff i k, eq_iff i j, get-set_field k j v fs)

beq_self : (k : String) → (k == k) ≡ true
beq_self k = (eq_iff k k).1 refl

-- Through keys that lead nowhere else, the assignment succeeds.
read-empty : (keys : List String) (last : String) → read keys last empty ≡ none
unfolding read
read-empty [] last = refl
read-empty (k ∷ keys) last = refl

pub clear-empty : (keys : List String) → clear keys empty ≡ true
unfolding clear
clear-empty [] = refl
clear-empty (k ∷ keys) = refl

below_clear :
    (keys : List String) (o : Option Value)
    → clear_in (clear keys) o ≡ true
    → (below : Fields) × (fields_of o ≡ ok below) × (clear keys below ≡ true)
below_clear keys none h = (empty, refl, clear-empty keys)
below_clear keys (some (leaf s)) h = (empty, rw h refl, clear-empty keys)
below_clear keys (some (object fs)) h = (fs, refl, h)

pub set_path-clear :
    (keys : List String) (last : String) (v : Value) (fs : Fields)
    → clear keys fs ≡ true
    → (fs' : Fields) × (set_path keys last v fs ≡ ok fs')
unfolding clear set_path
set_path-clear [] last v fs h = (set_field last v fs, refl)
set_path-clear (k ∷ keys) last v fs h =
    let (below, is, free) = below_clear keys (get_field k fs) h in
    let (below', goes) = set_path-clear keys last v below free in
    (
      set_field k (object below') fs,
      bind-ok (fields_of (get_field k fs)) _ below is
          ∙ bind-ok (set_path keys last v below) _ below' goes,
    )

-- The parts of an assignment that went well.
set_path-cons :
    (k : String) (keys : List String) (last : String) (v : Value) (fs fs' : Fields)
    → set_path (k ∷ keys) last v fs ≡ ok fs'
    → (below : Fields) × (below' : Fields) × (fields_of (get_field k fs) ≡ ok below)
      × (set_path keys last v below ≡ ok below')
      × (fs' ≡ set_field k (object below') fs)
unfolding set_path
set_path-cons k keys last v fs fs' h =
    let (below, is, rest) = ok-bind (fields_of (get_field k fs)) _ fs' h in
    let (below', goes, end) = ok-bind (set_path keys last v below) _ fs' rest in
    (below, below', is, goes, cc (sym end))

pub read-set_path :
    (keys : List String) (last : String) (v : Value) (fs fs' : Fields)
    → set_path keys last v fs ≡ ok fs'
    → read keys last fs' ≡ some v
unfolding read set_path
read-set_path [] last v fs fs' h =
    let e : fs' ≡ set_field last v fs = cc (sym h) in
    rw (e, get-set_field last last v fs, beq_self last) refl
read-set_path (k ∷ keys) last v fs fs' h =
    let (below, below', is, goes, e) = set_path-cons k keys last v fs fs' h in
    rw (e, get-set_field k k (object below') fs, beq_self k)
      (read-set_path keys last v below below' goes)

leaf_below : (s : String) (below : Fields) → fields_of (some (leaf s)) ≡ ok below → below ≡ empty
leaf_below s below is = elim (Bool-cases (s == "")) [
  | inl blank ↦ ground (arith, blank, is)
  | inr full ↦ absurd (ground (arith, full, is))
]

-- What is read below a name is read in its fields.
read_below :
    (keys : List String) (last : String) (o : Option Value) (below : Fields)
    → fields_of o ≡ ok below
    → read_in (read keys last) o ≡ read keys last below
read_below keys last none below is =
    let e : below ≡ empty = cc (sym is) in rw e (sym (read-empty keys last))
read_below keys last (some (leaf s)) below is =
    let e = leaf_below s below is in rw e (sym (read-empty keys last))
read_below keys last (some (object fs)) below is = ap (read keys last) (cc is)

clear_below :
    (keys : List String) (o : Option Value) (below : Fields)
    → fields_of o ≡ ok below
    → clear_in (clear keys) o ≡ true
    → clear keys below ≡ true
clear_below keys none below is h = let e : below ≡ empty = cc (sym is) in rw e (clear-empty keys)
clear_below keys (some (leaf s)) below is h =
    let e = leaf_below s below is in rw e (clear-empty keys)
clear_below keys (some (object fs)) below is h = let e : below ≡ fs = cc (sym is) in rw e h

differ : (a b : String) → (if a == b then false else true) ≡ true → (a == b) ≡ false
differ a b h = elim (Bool-cases (a == b)) [
  | inl same ↦ absurd (ground (arith, same, h))
  | inr other ↦ other
]

-- Two fields with different names do not touch each other.
get-set_field_ne :
    (k j : String) (v : Value) (fs : Fields)
    → (k == j) ≡ false
    → get_field j (set_field k v fs) ≡ get_field j fs
get-set_field_ne k j v fs other = rw (get-set_field k j v fs, other) refl

-- The field that an assignment through `k` leaves under `j`.
field_after :
    (k : String) (keys : List String) (last : String) (v : Value) (fs fs' : Fields) (j : String)
    → set_path (k ∷ keys) last v fs ≡ ok fs'
    → (k == j) ≡ false
    → get_field j fs' ≡ get_field j fs
field_after k keys last v fs fs' j goes other =
    let (below, below', is, inner, e) = set_path-cons k keys last v fs fs' goes in
    rw e (get-set_field_ne k j (object below') fs other)

last_after :
    (last : String) (v : Value) (fs fs' : Fields) (j : String)
    → set_path [] last v fs ≡ ok fs'
    → (last == j) ≡ false
    → get_field j fs' ≡ get_field j fs
unfolding set_path
last_after last v fs fs' j goes other =
    let e : fs' ≡ set_field last v fs = cc (sym goes) in rw e (get-set_field_ne last j v fs other)

-- The names of two apart paths that share their first key.
apart_below :
    (k : String) (ks : List String) (l : String) (j : String) (js : List String) (m : String)
    → (k == j) ≡ true
    → apart (k ∷ ks) l (j ∷ js) m ≡ true
    → apart ks l js m ≡ true
unfolding apart
apart_below k ks l j js m same h = ground (arith, same, h)

pub read-set_path-apart :
    (keys : List String) (last : String) (v : Value) (js : List String) (m : String)
    (fs fs' : Fields)
    → apart keys last js m ≡ true
    → set_path keys last v fs ≡ ok fs'
    → read js m fs' ≡ read js m fs
unfolding apart read
read-set_path-apart [] last v [] m fs fs' h goes = last_after last v fs fs' m goes (differ last m h)
read-set_path-apart [] last v (j ∷ js) m fs fs' h goes =
    ap (read_in (read js m)) (last_after last v fs fs' j goes (differ last j h))
read-set_path-apart (k ∷ ks) last v [] m fs fs' h goes =
    field_after k ks last v fs fs' m goes (differ k m h)
read-set_path-apart (k ∷ ks) last v (j ∷ js) m fs fs' h goes = elim (Bool-cases (k == j)) [
  | inr other ↦ ap (read_in (read js m)) (field_after k ks last v fs fs' j goes other)
  | inl same ↦
      let k≡j = (eq_iff k j).0 same in
      let (below, below', is, inner, e) = set_path-cons k ks last v fs fs' goes in
      let rest =
        read-set_path-apart ks last v js m below below' (apart_below k ks last j js m same h)
          inner in
      rw (e, get-set_field k j (object below') fs, same)
        (rest
          ∙ sym (read_below js m (get_field k fs) below is)
          ∙ ap (λ i. read_in (read js m) (get_field i fs)) k≡j)
]

pub clear-set_path-apart :
    (keys : List String) (last : String) (v : Value) (js : List String) (m : String)
    (fs fs' : Fields)
    → apart keys last js m ≡ true
    → set_path keys last v fs ≡ ok fs'
    → clear js fs ≡ true
    → clear js fs' ≡ true
unfolding apart clear
clear-set_path-apart keys last v [] m fs fs' h goes c = refl
clear-set_path-apart [] last v (j ∷ js) m fs fs' h goes c =
    ap (clear_in (clear js)) (last_after last v fs fs' j goes (differ last j h)) ∙ c
clear-set_path-apart (k ∷ ks) last v (j ∷ js) m fs fs' h goes c = elim (Bool-cases (k == j)) [
  | inr other ↦ ap (clear_in (clear js)) (field_after k ks last v fs fs' j goes other) ∙ c
  | inl same ↦
      let k≡j = (eq_iff k j).0 same in
      let (below, below', is, inner, e) = set_path-cons k ks last v fs fs' goes in
      let c' = ap (λ i. clear_in (clear js) (get_field i fs)) k≡j ∙ c in
      rw (e, get-set_field k j (object below') fs, same)
        (clear-set_path-apart ks last v js m below below' (apart_below k ks last j js m same h)
          inner (clear_below js (get_field k fs) below is c'))
]
