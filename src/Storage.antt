-- ===== src/Storage.antt =====
-- src/storage.ts: which store, and which SQL dialect, a configured text stands for. `new URL` and the
-- loading of a plug-in and `mkdirSync` are parameters; the directories of the file system that exist are passed on.
pub mod Support
pub mod Locations
pub mod Dialects
mod Tests
use Prim.Native.String
use Prim.Native.String.{String}
use dwn_server.Common.{
  Bool, false, not, ◌&&◌, ◌||◌, Option, none, some, List, [], ◌∷◌, ◌++◌, if◌then◌else◌, ◌==◌,
  string_eq,
}
use dwn_server.Common.Text.{◌<>◌}
use dwn_server.Errors.{Result, ok, throw, other_error, ◌>>=◌, ◌>>◌}
use text.Mathlib.Text.{starts_with}

pub data StoreType : Type 0 where
  data_store : StoreType
  message_store : StoreType
  event_log : StoreType
  resumable_task_store : StoreType

pub data BackendTypes : Type 0 where
  level : BackendTypes
  sqlite : BackendTypes
  mysql : BackendTypes
  postgres : BackendTypes

abbrev pub backend_text : BackendTypes → String
backend_text level = "level"
backend_text sqlite = "sqlite"
backend_text mysql = "mysql"
backend_text postgres = "postgres"

-- The values of the enumeration.
abbrev pub backends : List BackendTypes
backends = level ∷ sqlite ∷ mysql ∷ postgres ∷ []

-- The properties of a URL that are read; `href` is what `toString` gives.
pub record Url : Type 0 where
  pub protocol : String
  pub host : String
  pub pathname : String
  pub href : String

-- `s.slice(0, -1)`
abbrev pub slice_last : String → String
slice_last String.[] = ""
slice_last (String.◌∷◌ c String.[]) = ""
slice_last (String.◌∷◌ c (String.◌∷◌ d s)) = String.◌∷◌ c (slice_last (String.◌∷◌ d s))

-- `s.slice(0, 1)`
abbrev pub slice_first : String → String
slice_first String.[] = ""
slice_first (String.◌∷◌ c s) = String.◌∷◌ c ""

-- A dialect with the path, the URL or the connection string of its database.
pub data Dialect : Type 0 where
  sqlite_dialect : String → Dialect
  mysql_dialect : String → Dialect
  postgres_dialect : String → Dialect

-- A LevelDB store with its locations, an SQL store with its dialect, if that is defined, and a
-- plug-in.
pub data DwnStore (Plugin : Type 0) : Type 0 where
  level_store : StoreType → List String → DwnStore Plugin
  sql_store : StoreType → Option Dialect → DwnStore Plugin
  plugin : StoreType → Plugin → DwnStore Plugin

-- `schemes.join(', ')`
abbrev pub join : List String → String
join [] = ""
join (s ∷ []) = s
join (s ∷ t ∷ ss) = s <> ", " <> join (t ∷ ss)

abbrev texts_of : List BackendTypes → List String
texts_of [] = []
texts_of (b ∷ bs) = backend_text b ∷ texts_of bs

unfoldable pub invalid_storage_scheme_message : String → String
invalid_storage_scheme_message protocol =
    "Unknown storage protocol "
    <> slice_first protocol
    <> "! Please use one of: "
    <> join (texts_of backends)
    <> ". For details, see README"

abbrev pub exists : String → List String → Bool
exists d [] = false
exists d (e ∷ es) = (e == d) || exists d es

-- `mkdirSync`, which can throw, for a name without a slash.
abbrev pub with_directory :
    (String → Result (Unit {0})) → String → List String → Result (List String)
with_directory mkdir host dirs =
    if not (host == "") && not (exists host dirs)
    then mkdir host >> ok (dirs ++ host ∷ [])
    else ok dirs

abbrev pub with_dialect :
    Option Dialect → Result (List String) → Result (Option Dialect × List String)
with_dialect dialect (ok dirs) = ok (dialect, dirs)
with_dialect dialect (throw e) = throw e

unfoldable pub get_dialect_from_url :
    (String → Result (Unit {0})) → Url → List String → Result (Option Dialect × List String)
get_dialect_from_url mkdir url dirs =
    let scheme = slice_last url.protocol in
    if scheme == "sqlite"
    then with_dialect (some (sqlite_dialect (url.host <> url.pathname)))
        (with_directory mkdir url.host dirs)
    else if scheme == "mysql"
    then ok (some (mysql_dialect url.href), dirs)
    else if scheme == "postgres"
    then ok (some (postgres_dialect url.href), dirs)
    else ok (none, dirs)

abbrev pub level_locations : StoreType → String → List String
level_locations data_store base = (base <> "/DATASTORE") ∷ []
level_locations message_store base = (base <> "/MESSAGESTORE") ∷ (base <> "/INDEX") ∷ []
level_locations event_log base = (base <> "/EVENTLOG") ∷ []
level_locations resumable_task_store base = (base <> "/RESUMABLE-TASK-STORE") ∷ []

abbrev pub is_file_path : String → Bool
is_file_path s = starts_with s "/" || starts_with s "./" || starts_with s "../"

module _ (Plugin : Type 0) (mkdir : String → Result (Unit {0})) where
  abbrev pub get_level_store : Url → StoreType → DwnStore Plugin
  get_level_store url t = level_store t (level_locations t (url.host <> url.pathname))

  abbrev sql_with :
      StoreType → Result (Option Dialect × List String) → Result (DwnStore Plugin × List String)
  sql_with t (ok (dialect, dirs)) = ok (sql_store t dialect, dirs)
  sql_with t (throw e) = throw e

  abbrev pub get_sql_store : Url → StoreType → List String → Result (DwnStore Plugin × List String)
  get_sql_store url t dirs = sql_with t (get_dialect_from_url mkdir url dirs)

  -- The text that is thrown stands as the message of an error.
  unfoldable pub store_of_url :
      Url → StoreType → List String → Result (DwnStore Plugin × List String)
  store_of_url url t dirs =
      let scheme = slice_last url.protocol in
      if scheme == "level"
      then ok (get_level_store url t, dirs)
      else if scheme == "sqlite" || scheme == "mysql" || scheme == "postgres"
      then get_sql_store url t dirs
      else throw (other_error (invalid_storage_scheme_message url.protocol))

  module _ (parse_url : String → Result Url) (import_plugin : String → Result Plugin) where
    abbrev named : String → Result Plugin → Result Plugin
    named path (ok p) = ok p
    named path (throw e) =
        throw (other_error ("Failed to load component at " <> path <> ": " <> e.message))

    -- `PluginLoader.loadPlugin`: any error becomes one that names the path.
    abbrev pub load_plugin : String → Result Plugin
    load_plugin path = named path (import_plugin path)

    abbrev load_store_from_file_path : String → StoreType → Result (DwnStore Plugin)
    load_store_from_file_path path t = do p ← load_plugin path; ok (plugin t p)

    abbrev with_directories :
        List String → Result (DwnStore Plugin) → Result (DwnStore Plugin × List String)
    with_directories dirs r = r >>= λ s. ok (s, dirs)

    unfoldable pub get_store :
        String → StoreType → List String → Result (DwnStore Plugin × List String)
    get_store s t dirs =
        if is_file_path s
        then with_directories dirs (load_store_from_file_path s t)
        else parse_url s >>= λ url. store_of_url url t dirs

    -- What the configuration says of the four stores.
    pub record StoreConfig : Type 0 where
      pub data_store_text : String
      pub event_log_text : String
      pub message_store_text : String
      pub resumable_task_store_text : String

    pub record Stores : Type 0 where
      pub data_store_of : DwnStore Plugin
      pub event_log_of : DwnStore Plugin
      pub message_store_of : DwnStore Plugin
      pub resumable_task_store_of : DwnStore Plugin

    -- `getDwnConfig` as to the stores.
    unfoldable pub get_dwn_config : StoreConfig → List String → Result Stores
    get_dwn_config config dirs = do
      (d, dirs1) ← get_store config.data_store_text data_store dirs
      (e, dirs2) ← get_store config.event_log_text event_log dirs1
      (m, dirs3) ← get_store config.message_store_text message_store dirs2
      (r, dirs4) ← get_store config.resumable_task_store_text resumable_task_store dirs3
      ok (record {
        data_store_of = d;
        event_log_of = e;
        message_store_of = m;
        resumable_task_store_of = r;
      })
