-- ===== src/Storage/Support.antt =====
-- Which configurations of the stores src/storage.ts accepts.
use Prim.Native.String.{String}
use dwn_server.Common.{
  ◌≡◌, ◌∙◌, sym, ap, ◌↔◌, ◌⊎◌, inl, inr, refl, true, false, some, Bool-cases, List, arith, ◌==◌,
  string_eq,
}
use dwn_server.Errors.{Error, Result, ok, throw, is_ok, is_ok-ok, ok-bind, bind-ok, Result-cases}
use dwn_server.Storage.{
  BackendTypes, level, sqlite, mysql, postgres, backend_text, Url, slice_last, StoreType,
  data_store, event_log, message_store, resumable_task_store, DwnStore, is_file_path, store_of_url,
  get_dialect_from_url, sqlite_dialect, sql_store, get_store, StoreConfig, Stores, get_dwn_config,
}
use dwn_server.Common.Text.{◌<>◌}
use dwn_server.Storage.Dialects.{with_directory_ok}
use text.Mathlib.TextEquality.{eq_iff}

module _ (Plugin : Type 0) (mkdir : String → Result (Unit {0})) (parse_url : String → Result Url)
    (import_plugin : String → Result Plugin) where
  -- A URL with the scheme of a backend.
  abbrev pub HasBackend : Url → Type 0
  HasBackend url = (b : BackendTypes) × (slice_last url.protocol ≡ backend_text b)

  -- A path from which a plug-in loads, or a URL with the scheme of a backend.
  abbrev pub IsSupported : String → Type 0
  IsSupported s =
      ((is_file_path s ≡ true) × (p : Plugin) × (import_plugin s ≡ ok p))
      ⊎ ((is_file_path s ≡ false) × (url : Url) × (parse_url s ≡ ok url) × HasBackend url)

  -- The call gives a store.
  abbrev IsOk : {A : Type 0} → Result A → Type 0
  IsOk r = (a : _) × (r ≡ ok a)

  sqlite_store :
      (url : Url) (t : StoreType) (dirs : List String)
      → slice_last url.protocol ≡ "sqlite"
      → ((d : String) → mkdir d ≡ ok tt)
      → (dirs' : List String) × (store_of_url Plugin mkdir url t dirs
          ≡ ok (sql_store t (some (sqlite_dialect (url.host <> url.pathname))), dirs'))
  unfolding store_of_url get_dialect_from_url
  sqlite_store url t dirs is made =
      let (dirs', there) = with_directory_ok mkdir url.host dirs made in
      (dirs', rw (is, there) refl)

  has_backend :
      (url : Url) (t : StoreType) (dirs : List String)
      → ((d : String) → mkdir d ≡ ok tt)
      → HasBackend url
      → IsOk (store_of_url Plugin mkdir url t dirs)
  unfolding store_of_url get_dialect_from_url
  has_backend url t dirs made (level, is) =
      is_ok-ok (store_of_url Plugin mkdir url t dirs) (rw is refl)
  has_backend url t dirs made (sqlite, is) =
      let (dirs', there) = sqlite_store url t dirs is made in (_, there)
  has_backend url t dirs made (mysql, is) =
      is_ok-ok (store_of_url Plugin mkdir url t dirs) (rw is refl)
  has_backend url t dirs made (postgres, is) =
      is_ok-ok (store_of_url Plugin mkdir url t dirs) (rw is refl)

  backend_of :
      (url : Url) (t : StoreType) (dirs : List String)
      → IsOk (store_of_url Plugin mkdir url t dirs)
      → HasBackend url
  unfolding store_of_url
  backend_of url t dirs (r, h) =
      let scheme = slice_last url.protocol in
      elim (Bool-cases (scheme == "level")) [
        | inl is ↦ (level, (eq_iff scheme "level").0 is)
        | inr a ↦ elim (Bool-cases (scheme == "sqlite")) [
          | inl is ↦ (sqlite, (eq_iff scheme "sqlite").0 is)
          | inr b ↦ elim (Bool-cases (scheme == "mysql")) [
            | inl is ↦ (mysql, (eq_iff scheme "mysql").0 is)
            | inr c ↦ elim (Bool-cases (scheme == "postgres")) [
              | inl is ↦ (postgres, (eq_iff scheme "postgres").0 is)
              | inr d ↦ absurd (ground (arith, a, b, c, d, h))
            ]
          ]
        ]
      ]

  get_store-supported :
      (s : String) (t : StoreType) (dirs : List String)
      → ((d : String) → mkdir d ≡ ok tt)
      → IsSupported s
      → IsOk (get_store Plugin mkdir parse_url import_plugin s t dirs)
  unfolding get_store
  get_store-supported s t dirs made (inl (path, p, loads)) =
      is_ok-ok (get_store Plugin mkdir parse_url import_plugin s t dirs) (rw (path, loads) refl)
  get_store-supported s t dirs made (inr (not_path, url, parses, has)) =
      let (r, is) = has_backend url t dirs made has in (r, rw (not_path, parses) is)

  path_fails :
      (s : String) (t : StoreType) (dirs : List String) (e : Error)
      → is_file_path s ≡ true
      → import_plugin s ≡ throw e
      → is_ok (get_store Plugin mkdir parse_url import_plugin s t dirs) ≡ false
  unfolding get_store
  path_fails s t dirs e path fails = rw (path, fails) refl

  url_fails :
      (s : String) (t : StoreType) (dirs : List String) (e : Error)
      → is_file_path s ≡ false
      → parse_url s ≡ throw e
      → get_store Plugin mkdir parse_url import_plugin s t dirs ≡ throw e
  unfolding get_store
  url_fails s t dirs e not_path fails = rw (not_path, fails) refl

  url_goes :
      (s : String) (t : StoreType) (dirs : List String) (url : Url)
      → is_file_path s ≡ false
      → parse_url s ≡ ok url
      → get_store Plugin mkdir parse_url import_plugin s t dirs
        ≡ store_of_url Plugin mkdir url t dirs
  unfolding get_store
  url_goes s t dirs url not_path parses = rw (not_path, parses) refl

  get_store-IsSupported :
      (s : String) (t : StoreType) (dirs : List String)
      → IsOk (get_store Plugin mkdir parse_url import_plugin s t dirs)
      → IsSupported s
  unfolding get_store
  get_store-IsSupported s t dirs (r, h) = elim (Bool-cases (is_file_path s)) [
    | inl path ↦ elim (Result-cases (import_plugin s)) [
      | inl (p, loads) ↦ inl (path, p, loads)
      | inr (e, fails) ↦
          absurd (let f = path_fails s t dirs e path fails in let g = ap is_ok h in cc (sym f ∙ g))
    ]
    | inr not_path ↦ elim (Result-cases (parse_url s)) [
      | inl (url, parses) ↦ inr (
        not_path,
        url,
        parses,
        backend_of url t dirs (r, sym (url_goes s t dirs url not_path parses) ∙ h),
      )
      | inr (e, fails) ↦ absurd (cc (sym (url_fails s t dirs e not_path fails) ∙ h))
    ]
  ]

  abbrev get : String → StoreType → List String → Result (DwnStore Plugin × List String)
  get = get_store Plugin mkdir parse_url import_plugin

  -- While the directories of SQLite databases can be made: the four stores are found exactly when each of the four texts is
  -- the path of a plug-in that loads or a URL whose scheme is level, sqlite, mysql or postgres.
  pub get_dwn_config_iff :
      (config : StoreConfig Plugin mkdir parse_url import_plugin) (dirs : List String)
      → ((d : String) → mkdir d ≡ ok tt)
      → ((stores : Stores Plugin mkdir parse_url import_plugin) × (get_dwn_config Plugin mkdir
              parse_url import_plugin config dirs
            ≡ ok stores))
        ↔ (IsSupported config.data_store_text
            × IsSupported config.event_log_text
            × IsSupported config.message_store_text
            × IsSupported config.resumable_task_store_text)
  unfolding get_dwn_config
  get_dwn_config_iff config dirs made = (
    λ h.
        let (stores, is) = h in
        let (d, is_d, rest_d) = ok-bind (get config.data_store_text data_store dirs) _ stores is in
        let (e, is_e, rest_e) = ok-bind (get config.event_log_text event_log d.1) _ stores rest_d in
        let (m, is_m, rest_m) =
          ok-bind (get config.message_store_text message_store e.1) _ stores rest_e in
        let (r, is_r, rest_r) =
          ok-bind (get config.resumable_task_store_text resumable_task_store m.1) _ stores rest_m in
        (
          get_store-IsSupported config.data_store_text data_store dirs (d, is_d),
          get_store-IsSupported config.event_log_text event_log d.1 (e, is_e),
          get_store-IsSupported config.message_store_text message_store e.1 (m, is_m),
          get_store-IsSupported config.resumable_task_store_text resumable_task_store m.1 (r, is_r),
        ),
    λ h.
        let (d, is_d) = get_store-supported config.data_store_text data_store dirs made h.0 in
        let (e, is_e) = get_store-supported config.event_log_text event_log d.1 made h.1 in
        let (m, is_m) = get_store-supported config.message_store_text message_store e.1 made h.2 in
        let (r, is_r) =
          get_store-supported config.resumable_task_store_text resumable_task_store m.1 made h.3 in
        (_, bind-ok _ _ d is_d ∙ bind-ok _ _ e is_e ∙ bind-ok _ _ m is_m ∙ bind-ok _ _ r is_r),
  )
