-- ===== src/Client/Tests.antt =====
-- Concrete sockets of the client.
use Prim.Native.String.{String}
use dwn_server.Common.{ℕ, ◌≡◌, ◌⊎◌, refl, true, false, none, some, List, [], ◌∷◌, ◌++◌, nat_eq}
use dwn_server.Common.Dict
use dwn_server.JsonRpc.{string, Dwn, JsonRpcRequest, JsonRpcResponse, success, no_result}
use dwn_server.Client.{
  handle_response, Promise, resolved, rejected, JsonRpcSocket, new_socket, is_pending, request,
  begin_subscription, begin_subscribe, hear, hear_all, receive, Event, requests, subscribes,
  receives, expires, resumes, closes, step, run, Waiting,
}
use dwn_server.Client.Exact.{handles, IsOutcome}
use dwn_server.Client.Runs.{run-is_pending}
use dwn_server.Client.Responses.{answered, receive_answers}
use dwn_server.Client.Outcomes.{time_out_settles}
use dwn_server.Client.Subscriptions.{subscribers, receive-heard, subscribe_close}
use dwn_server.Client.Connecting
use dwn_server.Errors.{ok}
use dwn_server.JsonRpc.{find_handler, json_rpc_router, on}
use dwn_server.JsonRpc.Connection.{new_connection, sent}
use dwn_server.JsonRpc.Handlers.{begin_process_message}
use dwn_server.JsonRpc.Socket.{
  Job, processing, Outcome, replied, handle_request, build_request_context, finish,
}
use dwn_server.Client.Server.{with_id, request-finish-receive}

abbrev dwn : Dwn
dwn = record {
  Message = String;
  interface_name = λ m. "Records";
  method_name = λ m. "Query";
  Stream = Unit {0};
  Json = String;
}

abbrev uuidv4 : ℕ → String
uuidv4 n = "uuid"

abbrev query : JsonRpcRequest dwn
query = record {
  id = some (string "a");
  method = "dwn.processMessage";
  params = none;
  subscription = none;
}

abbrev subscription : JsonRpcRequest dwn
subscription = record {
  id = some (string "b");
  method = "rpc.subscribe.dwn.processMessage";
  params = none;
  subscription = some (string "s");
}

abbrev reply : String → JsonRpcResponse dwn
reply id = success (string id) no_result

abbrev socket : List (Event dwn) → JsonRpcSocket dwn
socket es = run dwn uuidv4 es (new_socket dwn)

run-is_pending_example :
    is_pending dwn 0 (socket (requests query ∷ expires 0 ∷ []))
    ≡ handles dwn (Dict.get 0 (socket (requests query ∷ expires 0 ∷ [])).listeners)
run-is_pending_example = run-is_pending dwn uuidv4 (requests query ∷ expires 0 ∷ []) 0

query_listens :
    Dict.get 0 (socket (requests query ∷ [])).listeners ≡ some (handle_response (string "a"))
unfolding run step request Dict.set Dict.get
query_listens = refl

receive_answers_example :
    Dict.get 0 (receive dwn uuidv4 (reply "a") (socket (requests query ∷ []))).promises
    ≡ some (answered dwn uuidv4 (reply "a") (string "a"))
receive_answers_example =
    receive_answers dwn uuidv4 (requests query ∷ []) (reply "a") 0 (string "a") query_listens

query_made : Dict.has 0 (socket (requests query ∷ [])).promises ≡ true
unfolding run step request Dict.set Dict.has
query_made = refl

time_out_settles_example :
    (o : Promise dwn) × IsOutcome dwn o
    × (Dict.get 0
          (run dwn uuidv4
            (expires 0 ∷ receives (reply "a") ∷ [])
            (socket (requests query ∷ []))).promises
        ≡ some o)
    × ((o ≡ rejected "request timed out")
        ⊎ (Dict.get 0 (socket (requests query ∷ [])).promises ≡ some o))
time_out_settles_example =
    time_out_settles dwn uuidv4 (requests query ∷ []) (receives (reply "a") ∷ []) 0 query_made

receive-heard_example :
    (receive dwn uuidv4 (reply "s") (socket (subscribes subscription ∷ []))).heard
    ≡ (socket (subscribes subscription ∷ [])).heard
      ++ subscribers dwn uuidv4 (reply "s") (socket (subscribes subscription ∷ [])).listeners
receive-heard_example = receive-heard dwn uuidv4 (reply "s") (socket (subscribes subscription ∷ []))

is_called :
    subscribers dwn uuidv4 (reply "s") (socket (subscribes subscription ∷ [])).listeners
    ≡ (0, reply "s") ∷ []
unfolding run step begin_subscribe begin_subscription request Dict.set
is_called = refl

abbrev answered_subscription : List (Event dwn)
answered_subscription = subscribes subscription ∷ receives (reply "b") ∷ []

abbrev wait : Waiting dwn
wait = record { listener = 0; subscription_id = string "s" }

is_answered : Dict.get 1 (socket answered_subscription).promises ≡ some (resolved (reply "b"))
unfolding run step begin_subscribe begin_subscription request Dict.set Dict.get Dict.delete receive
    hear_all hear
is_answered = refl

is_waiting : Dict.get 1 (socket answered_subscription).waiting ≡ some wait
unfolding run step begin_subscribe begin_subscription request Dict.set Dict.get Dict.delete receive
    hear_all hear
is_waiting = refl

subscribe_close_example :
    Dict.has 0 (run dwn uuidv4 (resumes 1 ∷ closes 1 ∷ []) (socket answered_subscription)).listeners
    ≡ false
subscribe_close_example =
    subscribe_close dwn uuidv4 answered_subscription 1 wait (reply "b") is_answered is_waiting

abbrev only_timer : List Connecting.Event
only_timer = Connecting.times_out ∷ Connecting.times_out ∷ []

abbrev asked : JsonRpcRequest dwn
asked = record query {
  params = some (record { target = some "did:alice"; message = some "query" });
}

-- The job that the server is left with.
abbrev job : Job dwn
job = processing (record {
  request_id = string "a";
  target = some "did:alice";
  message = "query";
  data_stream = none;
  subscription_request = none;
})

abbrev outcome : Outcome dwn
outcome = replied (ok (record { body = "{}"; entry_data = none; subscription = none }))

is_handled :
    handle_request dwn "uuid" (with_id dwn uuidv4 asked (socket [])) new_connection
    ≡ ok (new_connection, some job)
unfolding run handle_request build_request_context find_handler json_rpc_router on Dict.set Dict.get
    begin_process_message
is_handled = refl

request-finish-receive_example :
    (r : JsonRpcResponse dwn) × ((finish dwn job outcome new_connection).out
      ≡ new_connection.out ++ sent r ∷ [])
    × (Dict.get
          (socket []).count
          (receive dwn uuidv4 r (request dwn uuidv4 asked (socket []))).promises
        ≡ some (resolved r))
request-finish-receive_example =
    request-finish-receive dwn uuidv4 [] asked "uuid" new_connection new_connection job outcome
      is_handled tt
