-- ===== src/Http.antt =====
-- src/http-api.ts, the routes of Web5 Connect: what each answers and what it does to the store of
-- src/web5-connect. `truthy` is the language's test of a value, `request_uri` the property of
-- that name, and `as_status` the status that Express sets when it sends a value that is a number.
pub mod Flow
pub mod Rpc
pub mod Query
pub mod Reads
pub mod Admission
pub mod Creation
mod Tests
use Prim.Native.String.{String}
use dwn_server.Common.{ℕ, Bool, false, Option, none, some, if◌then◌else◌}
use dwn_server.Errors.{Result, ok, throw}
use dwn_server.Connect.{
  CacheTable, JsonText, Server, SetWeb5ConnectRequestResult, set_web5_connect_request,
  get_web5_connect_request, set_web5_connect_response, get_web5_connect_response,
}

-- `failed` and `created` are the objects with `ok` and `status`; a JWT is sent as it is.
pub data Body (Value : Type 0) : Type 0 where
  failed : String → Body Value
  created : String → Body Value
  pushed : SetWeb5ConnectRequestResult → Body Value
  jwt : Value → Body Value
  status_text : Body Value

pub record HttpResponse (Value : Type 0) : Type 0 where
  pub status : ℕ
  pub body : Body Value

module _ (T : CacheTable) (J : JsonText) where
  open T use {Db}
  open J use {Value}

  module _ (truthy : Value → Bool) (request_uri : Value → Option Value)
      (as_status : Value → Option ℕ) where
    abbrev pub is_truthy : Option Value → Bool
    is_truthy none = false
    is_truthy (some v) = truthy v

    abbrev pub bad_request : String → HttpResponse Value
    bad_request message = record { status = 400; body = failed message }

    abbrev pub not_found : HttpResponse Value
    not_found = record { status = 404; body = failed "Not Found" }

    abbrev push : SetWeb5ConnectRequestResult → HttpResponse Value
    push result = record { status = 201; body = pushed result }

    abbrev store_request : ℕ → String → Value → Server Db → Server Db × HttpResponse Value
    store_request now uuid request s =
        if is_truthy (request_uri request)
        then (s, bad_request "Bad Request: 'request_uri' parameter is not allowed in PAR")
        else let r = set_web5_connect_request T J now uuid request s in (r.0, push r.1)

    -- POST /connect/par, with the property `request` of the body and the UUID that is drawn.
    unfoldable pub post_connect_par :
        ℕ → String → Option Value → Server Db → Server Db × HttpResponse Value
    post_connect_par now uuid none s = (s, bad_request "Bad Request: Missing 'request' parameter")
    post_connect_par now uuid (some request) s =
        if truthy request
        then store_request now uuid request s
        else (s, bad_request "Bad Request: Missing 'request' parameter")

    -- `res.send` of a value: a number is taken for the status, and the text of that status is sent.
    abbrev pub sent_as : Value → Option ℕ → HttpResponse Value
    sent_as v none = record { status = 200; body = jwt v }
    sent_as v (some n) = record { status = n; body = status_text }

    abbrev pub sent : Value → HttpResponse Value
    sent v = sent_as v (as_status v)

    -- The answer to a value that was looked up; a text that JSON.parse refuses gets none.
    abbrev pub deliver : Option Value → HttpResponse Value
    deliver none = not_found
    deliver (some v) = if truthy v then sent v else not_found

    abbrev pub answer : Server Db × Result (Option Value) → Server Db × Option (HttpResponse Value)
    answer (s, ok v) = (s, some (deliver v))
    answer (s, throw e) = (s, none)

    -- GET /connect/authorize/:requestId.jwt
    unfoldable pub get_connect_authorize :
        ℕ → String → Server Db → Server Db × Option (HttpResponse Value)
    get_connect_authorize now request_id s = answer (get_web5_connect_request T J now request_id s)

    -- POST /connect/callback, with the properties of the body; a null state counts as none.
    unfoldable pub post_connect_callback :
        ℕ → Option Value → Option String → Server Db → Server Db × HttpResponse Value
    post_connect_callback now none state s = (s, bad_request "Bad Request")
    post_connect_callback now (some id_token) none s = (s, bad_request "Bad Request")
    post_connect_callback now (some id_token) (some state) s = (
      set_web5_connect_response T J now state id_token s,
      record { status = 201; body = created "Created" },
    )

    -- GET /connect/token/:state.jwt
    unfoldable pub get_connect_token :
        ℕ → String → Server Db → Server Db × Option (HttpResponse Value)
    get_connect_token now state s = answer (get_web5_connect_response T J now state s)
