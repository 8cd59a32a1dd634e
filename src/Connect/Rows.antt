-- ===== src/Connect/Rows.antt =====
-- A table that is a function from a key to its row, with texts as values: an instance of the
-- parameters for the examples.
use Prim.Native.String.{String}
use dwn_server.Common.{
  ℕ, ◌≡◌, refl, subst, not, Option, none, some, List, [], ◌∷◌, arith, if◌then◌else◌, ◌==◌,
  string_eq, inl, inr, Bool, true, false, Bool-cases, leb, length, ◌&&◌, ◌∙◌, sym, ◌⊎◌, filter, ltb,
}
use dwn_server.Common.Text.{codes}
use dwn_server.Errors.{Result, ok, throw, Error, other_error}
use dwn_server.Connect.{CacheEntry, CacheTable, JsonText, Server}
use dwn_server.Connect.Table.{IsTable, IsJson}
use text.Mathlib.TextEquality.{eq_iff}

abbrev pub Rows : Type 0
Rows = String → Option CacheEntry

abbrev pub as_list : Option CacheEntry → List CacheEntry
as_list none = []
as_list (some e) = e ∷ []

abbrev pub unless_expired : ℕ → Option CacheEntry → Option CacheEntry
unless_expired now none = none
unless_expired now (some e) = if ltb e.expiry now then none else some e

abbrev pub put : CacheEntry → Rows → Rows
put e db k = if k == e.key then some e else db k

-- An integer of 32 bits, and a key of at most 512 characters.
abbrev pub row_fits : CacheEntry → Bool
row_fits e = ltb e.expiry 2147483648 && leb (length (codes e.key)) 512

abbrev pub add : CacheEntry → Rows → Option CacheEntry → Result Rows
add e db none =
    if row_fits e then ok (put e db) else throw (other_error "value out of range for the column")
add e db (some x) = throw (other_error "UNIQUE constraint failed")

abbrev pub rows : CacheTable
rows = record {
  Db = Rows;
  insert = λ e db. add e db (db e.key);
  select = λ k db. as_list (db k);
  delete = λ k db j. if j == k then none else db j;
  delete_expired = λ now db k. unless_expired now (db k);
}

abbrev pub texts : JsonText
texts = record { Value = String; to_text = λ v. v; of_text = λ s. ok s }

pub texts-IsJson : IsJson texts
texts-IsJson = record { of_text-to_text = λ v. refl }

pub as_list_one :
    (o : Option CacheEntry) → (as_list o ≡ []) ⊎ ((e : CacheEntry) × (as_list o ≡ e ∷ []))
as_list_one none = inl refl
as_list_one (some e) = inr (e, refl)

pub add_ok :
    (e : CacheEntry) (db db' : Rows) (o : Option CacheEntry) → add e db o ≡ ok db' → put e db ≡ db'
add_ok e db db' none h = elim (Bool-cases (row_fits e)) [
  | inl fits ↦ let goes : add e db none ≡ ok (put e db) = rw fits refl in cc (sym goes ∙ h)
  | inr unfit ↦ absurd (ground (arith, unfit, h))
]
add_ok e db db' (some x) h = absurd (cc h)

pub add_new :
    (e : CacheEntry) (db : Rows) (o : Option CacheEntry)
    → as_list o ≡ []
    → row_fits e ≡ true
    → (db' : Rows) × (add e db o ≡ ok db')
add_new e db none h fits = (put e db, rw fits refl)
add_new e db (some x) h fits = absurd (cc h)

pub add_present :
    (e e' : CacheEntry) (db : Rows) (o : Option CacheEntry)
    → as_list o ≡ e' ∷ []
    → (err : Error) × (add e db o ≡ throw err)
add_present e e' db none h = absurd (cc h)
add_present e e' db (some x) h = (other_error "UNIQUE constraint failed", refl)

pub add_unfit :
    (e : CacheEntry) (db : Rows) (o : Option CacheEntry)
    → row_fits e ≡ false
    → (err : Error) × (add e db o ≡ throw err)
add_unfit e db none h = (other_error "value out of range for the column", rw h refl)
add_unfit e db (some x) h = (other_error "UNIQUE constraint failed", refl)

pub expired_filter :
    (now : ℕ) (o : Option CacheEntry)
    → as_list (unless_expired now o) ≡ filter (λ e. not (ltb e.expiry now)) (as_list o)
expired_filter now none = refl
expired_filter now (some e) = ground arith

abbrev pub documented_rows : IsTable rows
documented_rows = record {
  fits = row_fits;
  insert_unfit = λ e db h. add_unfit e db (db e.key) h;
  select_one = λ k db. as_list_one (db k);
  insert_new = λ e db h fits. add_new e db (db e.key) h fits;
  insert_present = λ e e' db h. add_present e e' db (db e.key) h;
  select-insert_self = λ e db db' h.
      subst (λ (f : Rows). as_list (f e.key) ≡ e ∷ []) (add_ok e db db' (db e.key) h)
        (ground (arith, eq_iff e.key e.key));
  select-insert_ne = λ e k db db' h other.
      subst (λ (f : Rows). as_list (f k) ≡ as_list (db k)) (add_ok e db db' (db e.key) h)
        (ground (arith, eq_iff k e.key));
  select-delete_self = λ k db. ground (arith, eq_iff k k);
  select-delete_ne = λ k j db other. ground (arith, eq_iff k j);
  select-delete_expired = λ k now db. expired_filter now (db k);
}

abbrev pub empty : Server rows.Db
empty = record { base_url = "https://dwn"; db = λ k. none; pending = [] }
