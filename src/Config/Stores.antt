-- ===== src/Config/Stores.antt =====
-- The stores that a configuration asks for: src/config.ts with src/storage.ts.
use Prim.Native.String.{String}
use dwn_server.Common.{
  ◌≡◌, ◌∙◌, ap, refl, ◌⊎◌, inl, inr, false, Option, none, some, List, string_eq,
}
use dwn_server.Errors.{Result, ok}
use dwn_server.Storage.{
  Url, slice_last, is_file_path, StoreConfig, Stores, get_dwn_config, get_dialect_from_url,
}
use dwn_server.Storage.Locations.{AreApart, all_locations, same_text, get_dwn_config_level}
use dwn_server.Config.{Env, DwnServerConfig, or_else, or_variable, config}

-- The variable is absent or empty.
abbrev pub IsUnset : Option String → Type 0
IsUnset v = (v ≡ none) ⊎ (v ≡ some "")

or_variable_unset : (a b : Option String) → IsUnset a → or_variable a b ≡ b
or_variable_unset a b (inl absent) = rw absent refl
or_variable_unset a b (inr empty) = rw empty refl

module _ {Size : Type 0} (bytes : String → Size) where
  module _ (Plugin : Type 0) (mkdir : String → Result (Unit {0})) (parse_url : String → Result Url)
      (import_plugin : String → Result Plugin) where
    -- What the server hands to `getDwnConfig`.
    abbrev pub store_config :
        DwnServerConfig Size → StoreConfig Plugin mkdir parse_url import_plugin
    store_config c = record {
      data_store_text = c.data_store;
      event_log_text = c.event_log;
      message_store_text = c.message_store;
      resumable_task_store_text = c.resumable_task_store;
    }

    abbrev pub default_storage : Env → String
    default_storage env = or_else (env "DWN_STORAGE") "level://data"

    store_config_same :
        (env : Env)
        → IsUnset (env "DWN_STORAGE_DATA")
        → IsUnset (env "DWN_STORAGE_EVENTS")
        → IsUnset (env "DWN_STORAGE_MESSAGES")
        → IsUnset (env "DWN_STORAGE_RESUMABLE_TASKS")
        → store_config (config bytes env)
          ≡ same_text Plugin mkdir parse_url import_plugin (default_storage env)
    unfolding config
    store_config_same env d e m r =
        let default = env "DWN_STORAGE" in
        rw
          (
            or_variable_unset (env "DWN_STORAGE_DATA") default d,
            or_variable_unset (env "DWN_STORAGE_EVENTS") default e,
            or_variable_unset (env "DWN_STORAGE_MESSAGES") default m,
            or_variable_unset (env "DWN_STORAGE_RESUMABLE_TASKS") default r,
          )
          refl

    -- Without variables of their own, the four stores come from `DWN_STORAGE`, or from its default;
    -- where that is a LevelDB URL, the server gets them all, in directories that are apart.
    pub config-get_dwn_config :
        (env : Env) (url : Url) (dirs : List String)
        → IsUnset (env "DWN_STORAGE_DATA")
        → IsUnset (env "DWN_STORAGE_EVENTS")
        → IsUnset (env "DWN_STORAGE_MESSAGES")
        → IsUnset (env "DWN_STORAGE_RESUMABLE_TASKS")
        → is_file_path (default_storage env) ≡ false
        → parse_url (default_storage env) ≡ ok url
        → slice_last url.protocol ≡ "level"
        → (stores : Stores Plugin mkdir parse_url import_plugin) × (get_dwn_config Plugin mkdir
              parse_url import_plugin
              (store_config (config bytes env))
              dirs
            ≡ ok stores)
          × AreApart (all_locations Plugin mkdir parse_url import_plugin stores)
    config-get_dwn_config env url dirs d e m r not_path parses is =
        let (stores, gets, apart) =
          get_dwn_config_level Plugin mkdir parse_url import_plugin (default_storage env) url dirs
            not_path parses is in
        (
          stores,
          ap (λ c. get_dwn_config Plugin mkdir parse_url import_plugin c dirs)
                (store_config_same env d e m r)
              ∙ gets,
          apart,
        )

  -- With a LevelDB URL in `DWN_STORAGE` and none in `DWN_REGISTRATION_STORE_URL`, the server asks for
  -- a registration store all the same, at that URL, for which there is no dialect.
  pub config-get_dialect_from_url :
      (mkdir : String → Result (Unit {0})) (parse_url : String → Result Url) (env : Env)
      (s : String) (url : Url) (dirs : List String)
      → IsUnset (env "DWN_REGISTRATION_STORE_URL")
      → env "DWN_STORAGE" ≡ some s
      → parse_url s ≡ ok url
      → slice_last url.protocol ≡ "level"
      → ((config bytes env).registration_store_url ≡ some s)
        × (get_dialect_from_url mkdir url dirs ≡ ok (none, dirs))
  unfolding config get_dialect_from_url
  config-get_dialect_from_url mkdir parse_url env s url dirs unset storage parses is = (
    or_variable_unset (env "DWN_REGISTRATION_STORE_URL") (env "DWN_STORAGE") unset ∙ storage,
    rw is refl,
  )
