-- ===== src/Storage/Dialects.antt =====
-- The SQL dialects of src/storage.ts.
use Prim.Native.String.{String}
use dwn_server.Common.{
  ◌≡◌, ◌≢◌, ◌∙◌, ◌↔◌, ◌⊎◌, ap, refl, inl, inr, false, Bool-cases, not, ◌&&◌, some, List, [], ◌∷◌,
  ◌++◌, arith, ◌==◌, string_eq,
}
use dwn_server.Common.Text.{◌<>◌}
use dwn_server.Storage.{
  Url, slice_last, Dialect, sqlite_dialect, mysql_dialect, postgres_dialect, exists,
  get_dialect_from_url, with_directory, with_dialect,
}
use dwn_server.Errors.{Result, ok}
use text.Mathlib.TextEquality.{eq_iff}
use text.Mathlib.TextLemmas.{append-nil}

pub with_directory_ok :
    (mkdir : String → Result (Unit {0})) (host : String) (dirs : List String)
    → ((d : String) → mkdir d ≡ ok tt)
    → (dirs' : List String) × (with_directory mkdir host dirs ≡ ok dirs')
with_directory_ok mkdir host dirs made =
    elim (Bool-cases (not (host == "") && not (exists host dirs))) [
      | inl makes ↦ (dirs ++ host ∷ [], rw (makes, made host) refl)
      | inr keeps ↦ (dirs, rw keeps refl)
    ]

-- While directories can be made, a URL gets a dialect exactly when its scheme is sqlite, mysql or postgres: for a LevelDB URL, and
-- for any other scheme, the dialect is undefined, without an error.
pub get_dialect_from_url_iff :
    (mkdir : String → Result (Unit {0})) (url : Url) (dirs : List String)
    → ((d : String) → mkdir d ≡ ok tt)
    → ((dialect : Dialect) × (dirs' : List String) × (get_dialect_from_url mkdir url dirs
          ≡ ok (some dialect, dirs')))
      ↔ ((slice_last url.protocol ≡ "sqlite")
          ⊎ ((slice_last url.protocol ≡ "mysql") ⊎ (slice_last url.protocol ≡ "postgres")))
unfolding get_dialect_from_url
get_dialect_from_url_iff mkdir url dirs made =
    let scheme = slice_last url.protocol in
    (
      λ h. elim (Bool-cases (scheme == "sqlite")) [
        | inl is ↦ inl ((eq_iff scheme "sqlite").0 is)
        | inr a ↦ elim (Bool-cases (scheme == "mysql")) [
          | inl is ↦ inr (inl ((eq_iff scheme "mysql").0 is))
          | inr b ↦ elim (Bool-cases (scheme == "postgres")) [
            | inl is ↦ inr (inr ((eq_iff scheme "postgres").0 is))
            | inr c ↦ absurd (let (d, dirs', is) = h in ground (arith, a, b, c, is))
          ]
        ]
      ],
      λ h. elim h [
        | inl is ↦
            let (dirs', there) = with_directory_ok mkdir url.host dirs made in
            (
              sqlite_dialect (url.host <> url.pathname),
              dirs',
              rw is (ap (with_dialect (some (sqlite_dialect (url.host <> url.pathname)))) there),
            )
        | inr (inl is) ↦ (mysql_dialect url.href, dirs, rw is refl)
        | inr (inr is) ↦ (postgres_dialect url.href, dirs, rw is refl)
      ],
    )

is_not_empty : (s : String) → s ≢ "" → (s == "") ≡ false
is_not_empty s h = elim (Bool-cases (s == "")) [
  | inl same ↦ absurd (h ((eq_iff s "").0 same))
  | inr other ↦ other
]

opened :
    (mkdir : String → Result (Unit {0})) (url : Url) (dirs : List String)
    → slice_last url.protocol ≡ "sqlite"
    → (url.host == "") ≡ false
    → exists url.host dirs ≡ false
    → mkdir url.host ≡ ok tt
    → get_dialect_from_url mkdir url dirs
      ≡ ok (some (sqlite_dialect (url.host <> url.pathname)), dirs ++ url.host ∷ [])
unfolding get_dialect_from_url
opened mkdir url dirs is full absent made = rw (is, full, absent, made) refl

-- For an SQLite URL whose path is empty and whose host names nothing yet, the database is the
-- directory that is created under the name of the host.
pub get_dialect_from_url_directory :
    (mkdir : String → Result (Unit {0})) (url : Url) (dirs : List String)
    → slice_last url.protocol ≡ "sqlite"
    → url.host ≢ ""
    → url.pathname ≡ ""
    → exists url.host dirs ≡ false
    → mkdir url.host ≡ ok tt
    → get_dialect_from_url mkdir url dirs
      ≡ ok (some (sqlite_dialect url.host), dirs ++ url.host ∷ [])
unfolding get_dialect_from_url
get_dialect_from_url_directory mkdir url dirs is full bare absent made =
    let not_empty : (url.host == "") ≡ false = is_not_empty url.host full in
    let whole : url.host <> url.pathname ≡ url.host =
      ap (λ p. url.host <> p) bare ∙ append-nil url.host in
    let dirs' = dirs ++ url.host ∷ [] in
    opened mkdir url dirs is not_empty absent made
    ∙ ap (λ p. ok (some (sqlite_dialect p), dirs')) whole
