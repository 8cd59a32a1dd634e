-- ===== src/Http/Flow.antt =====
-- The two flows of Web5 Connect: a request goes from the client to the wallet, a response back.
use Prim.Native.String.{String}
use dwn_server.Common.{
  ℕ, ◌+◌, ◌*◌, ◌<◌, ◌≡◌, refl, ap, ◌∙◌, Bool, Bool-cases, inl, inr, ◌&&◌, true, false, Option, none,
  some, [], arith, if◌then◌else◌,
}
use dwn_server.Common.Text.{◌<>◌}
use dwn_server.Errors.{Result, ok, throw}
use dwn_server.Connect.{
  CacheTable, JsonText, Server, request_key, response_key, settle, set_web5_connect_request,
  get_web5_connect_request, set_web5_connect_response, get_web5_connect_response,
}
use dwn_server.Connect.Table.{IsTable, IsJson, settled}
use dwn_server.Connect.Once.{entry_of, set_get_web5_connect_request, set_get_web5_connect_response}
use dwn_server.Http.{
  pushed, created, is_truthy, not_found, post_connect_par, get_connect_authorize,
  post_connect_callback, get_connect_token, answer, deliver, sent,
}

module _ (T : CacheTable) (J : JsonText) (laws : IsTable T) (json : IsJson J)
    (truthy : J.Value → Bool) (request_uri : J.Value → Option J.Value)
    (as_status : J.Value → Option ℕ) where
  open T use {Db, select}
  open J use {Value}

  answer_lem :
      (r : Server Db × Result (Option Value)) (v : Option Value)
      → r.1 ≡ ok v
      → answer T J truthy request_uri as_status r
        ≡ (r.0, some (deliver T J truthy request_uri as_status v))
  answer_lem (s, ok w) v h = ground (arith, h)
  answer_lem (s, throw e) v h = absurd (cc h)

  pushed_lem :
      (now : ℕ) (id : String) (request : Value) (s : Server Db)
      → truthy request ≡ true
      → is_truthy T J truthy request_uri as_status (request_uri request) ≡ false
      → let r = set_web5_connect_request T J now id request s in
        post_connect_par T J truthy request_uri as_status now id (some request) s
        ≡ (r.0, record { status = 201; body = pushed r.1 })
  unfolding post_connect_par
  pushed_lem now id request s full plain = ground (arith, full, plain)

  -- What a read delivers of a value whose row was stored or not.
  delivered :
      (v : Value) (fits : Bool)
      → deliver T J truthy request_uri as_status (if fits then some v else none) ≡ (
          if truthy v && fits
          then sent T J truthy request_uri as_status v
          else not_found T J truthy request_uri as_status)
  delivered v true = elim (Bool-cases (truthy v)) [
    | inl full ↦ rw full refl
    | inr bare ↦ rw bare refl
  ]
  delivered v false = elim (Bool-cases (truthy v)) [
    | inl full ↦ rw full refl
    | inr bare ↦ rw bare refl
  ]

  -- A request object that is pushed without a `request_uri`, under a new id, is answered with 201 and
  -- the address for its id. If its row fits the table, the wallet then gets it before it expires, with
  -- 200 unless it is a number; if the row does not fit, the wallet gets 404. Every later request for
  -- it is answered with 404. The database has run what was sent to it in between.
  pub post_connect_par_flow :
      (set_at now later : ℕ) (id : String) (request : Value) (s : Server Db)
      → truthy request ≡ true
      → is_truthy T J truthy request_uri as_status (request_uri request) ≡ false
      → select (request_key id) (settled T s) ≡ []
      → now < set_at + 600 * 1000
      → let par = post_connect_par T J truthy request_uri as_status set_at id (some request) s in
        let first =
          get_connect_authorize T J truthy request_uri as_status now id (settle T par.0) in
        (par.1 ≡ record {
          status = 201;
          body = pushed (record {
            request_uri = s.base_url <> "/connect/authorize/" <> id <> ".jwt";
            expires_in = 600;
          });
        })
        × (first.1
            ≡ some (
                if laws.fits (entry_of T J laws json set_at (request_key id) request)
                then sent T J truthy request_uri as_status request
                else not_found T J truthy request_uri as_status))
        × ((get_connect_authorize T J truthy request_uri as_status later id (settle T first.0)).1
            ≡ some (not_found T J truthy request_uri as_status))
  unfolding get_connect_authorize set_web5_connect_request
  post_connect_par_flow set_at now later id request s full plain new fresh =
      let (found, gone) =
        set_get_web5_connect_request T J laws json set_at now later id request s new fresh in
      let stored = settle T (set_web5_connect_request T J set_at id request s).0 in
      let fits = laws.fits (entry_of T J laws json set_at (request_key id) request) in
      let first = get_web5_connect_request T J now id stored in
      let one = answer_lem first (if fits then some request else none) found in
      let two = answer_lem (get_web5_connect_request T J later id (settle T first.0)) none gone in
      let given = delivered request fits ∙ rw full refl in
      rw (pushed_lem set_at id request s full plain, one)
        (refl, ap (λ r. some r) given, ap (λ r. r.1) two)

  -- A response that the wallet posts under a new state is answered with 201. If it is a truthy value
  -- and its row fits the table, the client then gets it before it expires, with 200 unless it is a
  -- number; otherwise the client gets 404. Every later request for it is answered with 404. The
  -- database has run what was sent to it in between.
  pub post_connect_callback_flow :
      (set_at now later : ℕ) (state : String) (id_token : Value) (s : Server Db)
      → select (response_key state) (settled T s) ≡ []
      → now < set_at + 600 * 1000
      → let posted =
          post_connect_callback T J truthy request_uri as_status set_at
            (some id_token)
            (some state)
            s in
        let first =
          get_connect_token T J truthy request_uri as_status now state (settle T posted.0) in
        (posted.1 ≡ record { status = 201; body = created "Created" })
        × (first.1
            ≡ some (
                if truthy id_token
                  && laws.fits (entry_of T J laws json set_at (response_key state) id_token)
                then sent T J truthy request_uri as_status id_token
                else not_found T J truthy request_uri as_status))
        × ((get_connect_token T J truthy request_uri as_status later state (settle T first.0)).1
            ≡ some (not_found T J truthy request_uri as_status))
  unfolding post_connect_callback get_connect_token
  post_connect_callback_flow set_at now later state id_token s new fresh =
      let (found, gone) =
        set_get_web5_connect_response T J laws json set_at now later state id_token s new fresh in
      let stored = settle T (set_web5_connect_response T J set_at state id_token s) in
      let fits = laws.fits (entry_of T J laws json set_at (response_key state) id_token) in
      let first = get_web5_connect_response T J now state stored in
      let one = answer_lem first (if fits then some id_token else none) found in
      let two =
        answer_lem (get_web5_connect_response T J later state (settle T first.0)) none gone in
      rw one (refl, ap (λ r. some r) (delivered id_token fits), ap (λ r. r.1) two)
