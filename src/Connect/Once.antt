-- ===== src/Connect/Once.antt =====
-- A value that is set can be read once, by calls that wait for one another.

use Prim.Native.String.{String}
use dwn_server.Common.{
  Bool, true, false, Bool-cases, inl, inr, sym, ◌∙◌, if◌then◌else◌, ℕ, ◌≡◌, refl, ap, Option, none,
  some, [], ◌∷◌, arith, ◌+◌, ◌*◌, ◌<◌,
}
use dwn_server.Errors.{Result, ok}
use dwn_server.Connect.{
  CacheEntry, CacheTable, JsonText, Server, insert_entry, delete_key, request_key, response_key,
  execute, settle, send, cache_insert, cache_get, set_web5_connect_request,
  get_web5_connect_request, set_web5_connect_response, get_web5_connect_response, delete_if_found,
}
use dwn_server.Connect.Table.{IsTable, IsJson, settled, settle-send, settle-settle}

module _ (T : CacheTable) (J : JsonText) (laws : IsTable T) (json : IsJson J) where
  open T use {Db, select}
  open J use {Value}

  -- `get` and the deletion of what it found.
  abbrev pub take : ℕ → String → Server Db → Server Db × Result (Option Value)
  take now key s = delete_if_found T J key (cache_get T J now key s)

  abbrev pub entry_of : ℕ → String → Value → CacheEntry
  entry_of now key v = record { key = key; value = J.to_text v; expiry = now + 600 * 1000 }

  pub take_found :
      (now set_at : ℕ) (key : String) (v : Value) (s : Server Db)
      → select key s.db ≡ entry_of set_at key v ∷ []
      → now < set_at + 600 * 1000
      → take now key s ≡ (send T (delete_key key) s, ok (some v))
  unfolding cache_get
  take_found now set_at key v s found fresh = ground (arith, found, json.of_text-to_text v)

  pub take_missing :
      (now : ℕ) (key : String) (s : Server Db)
      → select key s.db ≡ []
      → take now key s ≡ (s, ok none)
  unfolding cache_get
  take_missing now key s missing = rw (missing, cache_get)

  select-insert :
      (e : CacheEntry) (db : Db)
      → select e.key db ≡ []
      → laws.fits e ≡ true
      → select e.key (execute T (insert_entry e) db) ≡ e ∷ []
  unfolding execute
  select-insert e db new fits =
      let (db', inserted) = laws.insert_new e db new fits in
      ground (arith, inserted, laws.select-insert_self e db db' inserted)

  insert_unfit_lem :
      (e : CacheEntry) (db : Db) → laws.fits e ≡ false → execute T (insert_entry e) db ≡ db
  unfolding execute
  insert_unfit_lem e db unfit =
      let (err, refused) = laws.insert_unfit e db unfit in ground (arith, refused)

  pub select-delete : (k : String) (db : Db) → select k (execute T (delete_key k) db) ≡ []
  unfolding execute
  select-delete k db = laws.select-delete_self k db

  module _ (set_at now later : ℕ) (key : String) (v : Value) (s : Server Db)
      (new : select key (settled T s) ≡ []) (fresh : now < set_at + 600 * 1000) where
    abbrev stored : Server Db
    stored = settle T (send T (insert_entry (entry_of set_at key v)) s)

    abbrev kept : Option Value
    kept = if laws.fits (entry_of set_at key v) then some v else none

    take_twice :
        ((take now key stored).1 ≡ ok kept)
        × ((take later key (settle T (take now key stored).0)).1 ≡ ok none)
    take_twice = elim (Bool-cases (laws.fits (entry_of set_at key v))) [
      | inl fits ↦
          let there : select key stored.db ≡ entry_of set_at key v ∷ [] =
            rw (settle-send T (insert_entry (entry_of set_at key v)) s)
              (select-insert (entry_of set_at key v) (settled T s) new fits) in
          let once = take_found now set_at key v stored there fresh in
          let gone : select key (settle T (send T (delete_key key) stored)).db ≡ [] =
            rw (settle-send T (delete_key key) stored) (select-delete key (settled T stored)) in
          let then_ = take_missing later key (settle T (send T (delete_key key) stored)) gone in
          (
            ap (λ r. r.1) once ∙ ap (λ (b : Bool). ok (if b then some v else none)) (sym fits),
            rw (once, then_) refl,
          )
      | inr unfit ↦
          let missing : select key stored.db ≡ [] =
            rw
              (
                settle-send T (insert_entry (entry_of set_at key v)) s,
                insert_unfit_lem (entry_of set_at key v) (settled T s) unfit,
              )
              new in
          let once = take_missing now key stored missing in
          let again =
            take_missing later key (settle T stored)
              (rw (settle-settle T (send T (insert_entry (entry_of set_at key v)) s)) missing) in
          (
            ap (λ r. r.1) once ∙ ap (λ (b : Bool). ok (if b then some v else none)) (sym unfit),
            rw (once, again) refl,
          )
    ]

  -- A request that is set under a new id can be read once before it expires, if its row fits the
  -- table, and no second time; if it does not fit it cannot be read at all. The database has run what
  -- was sent to it before each of the reads.
  pub set_get_web5_connect_request :
      (set_at now later : ℕ) (id : String) (request : Value) (s : Server Db)
      → select (request_key id) (settled T s) ≡ []
      → now < set_at + 600 * 1000
      → let stored = settle T (set_web5_connect_request T J set_at id request s).0 in
        let first = get_web5_connect_request T J now id stored in
        (first.1
          ≡ ok
              (if laws.fits (entry_of set_at (request_key id) request) then some request else none))
        × ((get_web5_connect_request T J later id (settle T first.0)).1 ≡ ok none)
  unfolding set_web5_connect_request get_web5_connect_request cache_insert
  set_get_web5_connect_request set_at now later id request s new fresh =
      take_twice set_at now later (request_key id) request s new fresh

  -- The same of a response that is set under a new state.
  pub set_get_web5_connect_response :
      (set_at now later : ℕ) (state : String) (response : Value) (s : Server Db)
      → select (response_key state) (settled T s) ≡ []
      → now < set_at + 600 * 1000
      → let stored = settle T (set_web5_connect_response T J set_at state response s) in
        let first = get_web5_connect_response T J now state stored in
        (first.1
          ≡ ok (
              if laws.fits (entry_of set_at (response_key state) response)
              then some response
              else none))
        × ((get_web5_connect_response T J later state (settle T first.0)).1 ≡ ok none)
  unfolding set_web5_connect_response get_web5_connect_response cache_insert
  set_get_web5_connect_response set_at now later state response s new fresh =
      take_twice set_at now later (response_key state) response s new fresh
