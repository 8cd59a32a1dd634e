-- ===== src/Storage/Locations.antt =====
-- The locations of the LevelDB stores of src/storage.ts.
use Prim.Native.String.{String}
use dwn_server.Common.{◌≡◌, ◌≢◌, ◌∙◌, sym, refl, false, List, [], ◌∷◌, ◌++◌, All, ◌==◌, string_eq}
use dwn_server.Common.Text.{◌<>◌}
use dwn_server.Errors.{Result, ok}
use dwn_server.Storage.{
  Url, slice_last, StoreType, data_store, event_log, message_store, resumable_task_store, DwnStore,
  level_store, sql_store, plugin, level_locations, is_file_path, store_of_url, get_store,
  StoreConfig, Stores, get_dwn_config,
}
use text.Mathlib.TextEquality.{eq_iff}
use text.Mathlib.TextLemmas.{append_cancel_left}

-- No two entries are equal.
abbrev pub AreApart : List String → Type 0
AreApart [] = Unit
AreApart (x ∷ xs) = All (λ y. x ≢ y) xs × AreApart xs

apart : (base a b : String) → (a == b) ≡ false → (base <> a) ≢ (base <> b)
apart base a b other h =
    let same = (eq_iff a b).1 (append_cancel_left base a b h) in absurd (cc (sym other ∙ same))

module _ (Plugin : Type 0) (mkdir : String → Result (Unit {0})) (parse_url : String → Result Url)
    (import_plugin : String → Result Plugin) where
  abbrev locations : DwnStore Plugin → List String
  locations (level_store t ls) = ls
  locations (sql_store t dialect) = []
  locations (plugin t p) = []

  abbrev pub all_locations : Stores Plugin mkdir parse_url import_plugin → List String
  all_locations s =
      locations s.data_store_of
      ++ locations s.message_store_of
      ++ locations s.event_log_of
      ++ locations s.resumable_task_store_of

  -- One text for all four stores.
  abbrev pub same_text : String → StoreConfig Plugin mkdir parse_url import_plugin
  same_text s = record {
    data_store_text = s;
    event_log_text = s;
    message_store_text = s;
    resumable_task_store_text = s;
  }

  abbrev level_stores : String → Stores Plugin mkdir parse_url import_plugin
  level_stores base = record {
    data_store_of = level_store data_store (level_locations data_store base);
    event_log_of = level_store event_log (level_locations event_log base);
    message_store_of = level_store message_store (level_locations message_store base);
    resumable_task_store_of =
        level_store resumable_task_store (level_locations resumable_task_store base);
  }

  get_store_level :
      (s : String) (url : Url) (t : StoreType) (dirs : List String)
      → is_file_path s ≡ false
      → parse_url s ≡ ok url
      → slice_last url.protocol ≡ "level"
      → get_store Plugin mkdir parse_url import_plugin s t dirs
        ≡ ok (level_store t (level_locations t (url.host <> url.pathname)), dirs)
  unfolding get_store store_of_url
  get_store_level s url t dirs not_path parses is = rw (not_path, parses, is) refl

  level_stores_apart : (base : String) → AreApart (all_locations (level_stores base))
  level_stores_apart base =
      let d : String = "/DATASTORE" in
      let m : String = "/MESSAGESTORE" in
      let i : String = "/INDEX" in
      let e : String = "/EVENTLOG" in
      let r : String = "/RESUMABLE-TASK-STORE" in
      (
        (
          apart base d m refl,
          (apart base d i refl, (apart base d e refl, (apart base d r refl, tt))),
        ),
        (
          (apart base m i refl, (apart base m e refl, (apart base m r refl, tt))),
          ((apart base i e refl, (apart base i r refl, tt)), ((apart base e r refl, tt), (tt, tt))),
        ),
      )

  -- With one LevelDB URL for all the stores, as `DWN_STORAGE` gives it, the server gets its four
  -- stores, and no two of the five databases that they keep share a directory.
  pub get_dwn_config_level :
      (s : String) (url : Url) (dirs : List String)
      → is_file_path s ≡ false
      → parse_url s ≡ ok url
      → slice_last url.protocol ≡ "level"
      → (stores : Stores Plugin mkdir parse_url import_plugin) × (get_dwn_config Plugin mkdir
            parse_url import_plugin
            (same_text s)
            dirs
          ≡ ok stores)
        × AreApart (all_locations stores)
  unfolding get_dwn_config
  get_dwn_config_level s url dirs not_path parses is =
      let base = url.host <> url.pathname in
      (
        level_stores base,
        rw
            (
              get_store_level s url data_store dirs not_path parses is,
              get_store_level s url event_log dirs not_path parses is,
              get_store_level s url message_store dirs not_path parses is,
              get_store_level s url resumable_task_store dirs not_path parses is,
            )
            refl,
        level_stores_apart base,
      )
