-- ===== src/Connect/Races.antt =====
-- What callers see that do not wait for the statements that were sent.
use Prim.Native.String.{String}
use dwn_server.Common.{ℕ, ◌≡◌, refl, ap, some, [], ◌∷◌, ◌+◌, ◌*◌, ◌<◌}
use dwn_server.Errors.{ok}
use dwn_server.Connect.{
  CacheEntry, CacheTable, JsonText, Server, insert_entry, delete_key, response_key, execute, settle,
  send, cache_insert, set_web5_connect_response, get_web5_connect_response,
}
use dwn_server.Connect.Table.{IsTable, IsJson, settled, settle-send}
use dwn_server.Connect.Once.{take_found, entry_of}

module _ (T : CacheTable) (J : JsonText) (laws : IsTable T) (json : IsJson J) where
  open T use {Db, select}
  open J use {Value}

  -- Two reads of one stored response, the second before the database has run the deletion that the
  -- first sent, both return the response.
  pub get_web5_connect_response_twice :
      (set_at now later : ℕ) (state : String) (response : Value) (s : Server Db)
      → select (response_key state) s.db
        ≡ entry_of T J laws json set_at (response_key state) response ∷ []
      → now < set_at + 600 * 1000
      → later < set_at + 600 * 1000
      → let first = get_web5_connect_response T J now state s in
        (first.1 ≡ ok (some response))
        × ((get_web5_connect_response T J later state first.0).1 ≡ ok (some response))
  unfolding get_web5_connect_response
  get_web5_connect_response_twice set_at now later state response s found fresh fresh' =
      let key = response_key state in
      let one = take_found T J laws json now set_at key response s found fresh in
      let s' = send T (delete_key key) s in
      let two = take_found T J laws json later set_at key response s' found fresh' in
      (ap (λ r. r.1) one, rw one (ap (λ r. r.1) two))

  -- A second response for a state that still stands in the table is dropped: the table stays as it
  -- was.
  pub set_web5_connect_response_present :
      (now : ℕ) (state : String) (response : Value) (e : CacheEntry) (s : Server Db)
      → select (response_key state) (settled T s) ≡ e ∷ []
      → (settle T (set_web5_connect_response T J now state response s)).db ≡ settled T s
  unfolding set_web5_connect_response cache_insert execute
  set_web5_connect_response_present now state response e s found =
      let row : CacheEntry = record {
        key = response_key state;
        value = J.to_text response;
        expiry = now + 600 * 1000;
      } in
      let (err, refused) = laws.insert_present row e (settled T s) found in
      rw (settle-send T (insert_entry row) s, execute, refused) refl
