-- ===== src/Storage/Tests.antt =====
-- Concrete URLs. The parser of the tests knows two of them.
use Prim.Native.String.{String}
use dwn_server.Common.{◌≡◌, ◌≢◌, ◌↔◌, inr, inl, refl, [], if◌then◌else◌, ◌==◌, string_eq}
use dwn_server.Errors.{Result, ok, throw, other_error}
use dwn_server.Storage.{
  Url, level, invalid_storage_scheme_message, StoreConfig, Stores, get_dwn_config, store_of_url,
  data_store,
}
use dwn_server.Storage.Support.{IsSupported, get_dwn_config_iff}
use text.Mathlib.TextEquality.{eq_iff}

abbrev data_url : Url
data_url = record { protocol = "level:"; host = "data"; pathname = ""; href = "level://data" }

abbrev sqlite_url : Url
sqlite_url = record {
  protocol = "sqlite:";
  host = "dwn.db";
  pathname = "";
  href = "sqlite://dwn.db";
}

abbrev redis_url : Url
redis_url = record { protocol = "redis:"; host = "h"; pathname = ""; href = "redis://h" }

abbrev parse_url : String → Result Url
parse_url s =
    if s == "level://data"
    then ok data_url
    else if s == "sqlite://dwn.db"
    then ok sqlite_url
    else throw (other_error "Invalid URL")

abbrev mkdir : String → Result (Unit {0})
mkdir d = ok tt

abbrev import_plugin : String → Result String
import_plugin path = ok path

abbrev mixed : StoreConfig String mkdir parse_url import_plugin
mixed = record {
  data_store_text = "./store.js";
  event_log_text = "level://data";
  message_store_text = "level://data";
  resumable_task_store_text = "level://data";
}

-- Only the first letter of the protocol is named.
redis_refused :
    store_of_url String mkdir redis_url data_store []
    ≡ throw (
        other_error
          "Unknown storage protocol r! Please use one of: level, sqlite, mysql, postgres. For details, see README")
unfolding store_of_url invalid_storage_scheme_message
redis_refused = refl

get_dwn_config_iff_example :
    ((stores : Stores String mkdir parse_url import_plugin) × (get_dwn_config String mkdir parse_url
          import_plugin mixed []
        ≡ ok stores))
    ↔ (IsSupported String mkdir parse_url import_plugin "./store.js"
        × IsSupported String mkdir parse_url import_plugin "level://data"
        × IsSupported String mkdir parse_url import_plugin "level://data"
        × IsSupported String mkdir parse_url import_plugin "level://data")
get_dwn_config_iff_example =
    get_dwn_config_iff String mkdir parse_url import_plugin mixed [] (λ d. refl)

mixed-IsSupported :
    IsSupported String mkdir parse_url import_plugin "./store.js"
    × IsSupported String mkdir parse_url import_plugin "level://data"
mixed-IsSupported = (inl (refl, "./store.js", refl), inr (refl, data_url, refl, (level, refl)))

abbrev database : String
database = "dwn.db"

database_not_empty : database ≢ ""
database_not_empty h = cc ((eq_iff database "").1 h)
