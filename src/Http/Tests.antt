-- ===== src/Http/Tests.antt =====
-- Concrete flows; the empty text is the value that is not truthy.
use Prim.Native.String.{String}
use dwn_server.Common.{
  ℕ, ◌≡◌, ◌≢◌, ◌↔◌, refl, Bool, not, ◌+◌, Option, none, some, [], arith, ◌==◌, string_eq,
}
use dwn_server.Connect.{request_key, response_key, settle, execute_all}
use dwn_server.Connect.Table.{settled}
use dwn_server.Connect.Rows.{rows, texts, texts-IsJson, documented_rows, empty}
use dwn_server.Http.{
  pushed, created, jwt, not_found, post_connect_par, get_connect_authorize, post_connect_callback,
  get_connect_token,
}
use dwn_server.Errors.{Result, ok}
use dwn_server.JsonRpc.{string, Dwn, Params, JsonRpcRequest}
use dwn_server.JsonRpc.Handlers.Laws.{call_of}
use dwn_server.Http.Rpc.{waits, http_context, post_json_rpc, post_json_rpc_iff}
use text.Mathlib.TextEquality.{eq_iff}
use dwn_server.Http.Flow.{post_connect_par_flow, post_connect_callback_flow}

abbrev truthy : String → Bool
truthy s = not (s == "")

abbrev no_uri : String → Option String
no_uri s = none

abbrev no_number : String → Option ℕ
no_number s = none

nothing_there : (key : String) → rows.select key (settled rows empty) ≡ []
unfolding execute_all
nothing_there key = refl

post_connect_par_flow_example :
    let par = post_connect_par rows texts truthy no_uri no_number 5 "id" (some "hello") empty in
    let first =
      get_connect_authorize rows texts truthy no_uri no_number 7 "id" (settle rows par.0) in
    (par.1 ≡ record {
      status = 201;
      body =
          pushed
            (record { request_uri = "https://dwn/connect/authorize/id.jwt"; expires_in = 600 });
    })
    × (first.1 ≡ some (record { status = 200; body = jwt "hello" }))
    × ((get_connect_authorize rows texts truthy no_uri no_number 8 "id" (settle rows first.0)).1
        ≡ some (not_found rows texts truthy no_uri no_number))
post_connect_par_flow_example =
    post_connect_par_flow rows texts documented_rows texts-IsJson truthy no_uri no_number 5 7 8 "id"
      "hello" empty refl refl (nothing_there (request_key "id")) (omega arith)

-- A time of the year 2024 in milliseconds has more than 32 bits, and so has the expiry.
abbrev today : ℕ
today = 1732650000000

post_connect_callback_flow_example :
    let posted =
      post_connect_callback rows texts truthy no_uri no_number today
        (some "hello")
        (some "s")
        empty in
    let first =
      get_connect_token rows texts truthy no_uri no_number (today + 1) "s" (settle rows posted.0) in
    (posted.1 ≡ record { status = 201; body = created "Created" })
    × (first.1 ≡ some (not_found rows texts truthy no_uri no_number))
    × ((get_connect_token rows texts truthy no_uri no_number
          (today + 2)
          "s"
          (settle rows first.0)).1
        ≡ some (not_found rows texts truthy no_uri no_number))
post_connect_callback_flow_example =
    post_connect_callback_flow rows texts documented_rows texts-IsJson truthy no_uri no_number today
      (today + 1) (today + 2) "s" "hello" empty (nothing_there (response_key "s")) (omega arith)

abbrev dwn : Dwn
dwn = record {
  Message = String × String;
  interface_name = λ m. m.0;
  method_name = λ m. m.1;
  Stream = ℕ;
  Json = String;
}

abbrev params : Params dwn
params = record { target = some "did:alice"; message = some ("Records", "Write") }

abbrev request : JsonRpcRequest dwn
request = record {
  id = some (string "r");
  method = "dwn.processMessage";
  params = some params;
  subscription = none;
}

abbrev parse : String → Result (JsonRpcRequest dwn)
parse s = ok request

abbrev braces : String
braces = "{}"

braces_not_empty : braces ≢ ""
braces_not_empty h = cc ((eq_iff braces "").1 h)

post_json_rpc_iff_example :
    (post_json_rpc dwn parse "uuid" (some braces) (some 4)
      ≡ ok (
          waits
            (call_of dwn "uuid" request (http_context dwn (some 4)) params ("Records", "Write"))))
    ↔ ((p : Params dwn) × (message : String × String) × (some params ≡ some p)
        × (p.message ≡ some message)
        × (message.1 ≢ "Subscribe")
        × (call_of dwn "uuid" request (http_context dwn (some 4)) params ("Records", "Write")
            ≡ call_of dwn "uuid" request (http_context dwn (some 4)) p message))
post_json_rpc_iff_example =
    post_json_rpc_iff dwn parse "uuid" braces request (some 4)
      (call_of dwn "uuid" request (http_context dwn (some 4)) params ("Records", "Write"))
      braces_not_empty refl refl
