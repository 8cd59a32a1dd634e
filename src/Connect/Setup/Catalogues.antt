-- ===== src/Connect/Setup/Catalogues.antt =====
-- Databases that have the table and the index, or not: an instance of the parameters for the examples.
use dwn_server.Common.{Bool, true, false, ◌≡◌, refl}
use dwn_server.Errors.{Result, ok, throw, Error, other_error}
use dwn_server.Connect.Setup
use dwn_server.Connect.Setup.Turns.{IsSchema}

pub record Catalogue : Type 0 where
  pub has_table : Bool
  pub has_index : Bool

abbrev pub duplicate : Error
duplicate = other_error "index index_expiry already exists"

abbrev pub index_of : Bool → Catalogue → Result Catalogue
index_of true c = throw duplicate
index_of false c = ok (record c { has_index = true })

abbrev pub catalogues : Setup.Schema
catalogues = record {
  Db = Catalogue;
  has_table = λ c. c.has_table;
  create_table = λ c. ok (record c { has_table = true });
  create_index = λ c. index_of c.has_index c;
}

pub index_of_new :
    (b : Bool) (c : Catalogue)
    → c.has_table ≡ true
    → b ≡ false
    → (c' : Catalogue) × (index_of b c ≡ ok c') × (c'.has_table ≡ true) × (c'.has_index ≡ true)
index_of_new true c h new = absurd (cc new)
index_of_new false c h new = (record c { has_index = true }, refl, h, refl)

pub index_of_present :
    (b : Bool) (c : Catalogue) → b ≡ true → (e : Error) × (index_of b c ≡ throw e)
index_of_present true c h = (duplicate, refl)
index_of_present false c h = absurd (cc h)

abbrev pub documented_catalogues : IsSchema catalogues
documented_catalogues = record {
  has_index = λ c. c.has_index;
  create_table_ok = λ c. (record c { has_table = true }, refl, refl, refl);
  create_index_new = λ c h new. index_of_new c.has_index c h new;
  create_index_present = λ c h. index_of_present c.has_index c h;
}

abbrev pub fresh : Catalogue
fresh = record { has_table = false; has_index = false }
