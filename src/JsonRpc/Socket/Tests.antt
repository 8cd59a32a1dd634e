-- ===== src/JsonRpc/Socket/Tests.antt =====
-- Concrete connections, over messages that are pairs of an interface and a method.
use Prim.Native.String.{String}
use dwn_server.Common.{ℕ, ◌≡◌, ◌↔◌, refl, true, false, none, some, List, [], ◌∷◌, ◌++◌, ◌⊎◌}
use dwn_server.Common.Dict
use dwn_server.Common.Text.{◌<>◌}
use dwn_server.Errors.{Result, ok, code_text, connection_subscription_json_rpc_id_exists}
use dwn_server.JsonRpc.{
  JsonRpcId, string, number, id_eq, Dwn, Params, JsonRpcRequest, dwn_reply, show_id,
  create_json_rpc_success_response, internal_error,
}
use dwn_server.JsonRpc.Connection.{SocketConnection, closed, has_subscription, begin_close}
use dwn_server.JsonRpc.Connection.Laws.{closings}
use dwn_server.JsonRpc.Handlers.{
  ws, RequestContext, Call, Reply, calls, begin_process_message, finish_process_message, refuse,
}
use dwn_server.JsonRpc.Handlers.Laws.{
  IsForwarded, call_of, begin_process_message_iff, finish_process_message_subscribes,
}
use dwn_server.JsonRpc.Socket.{
  State, Event, arrives, returns, replied, ticks, fails, closes, run, step,
}
use dwn_server.JsonRpc.Socket.Runs.{IsOver, step-get, run_after_close}
use dwn_server.JsonRpc.Socket.Races.{overlapping_subscribe, subscribe_after_close}

abbrev dwn : Dwn
dwn = record {
  Message = String × String;
  interface_name = λ m. m.0;
  method_name = λ m. m.1;
  Stream = ℕ;
  Json = String;
}

abbrev holding : List (JsonRpcId × ℕ) → SocketConnection dwn
holding m = record {
  subscriptions = m;
  is_alive = true;
  heartbeat = true;
  listening = true;
  out = [];
}

abbrev two : SocketConnection dwn
two = holding ((string "a", 1) ∷ (number "2", 2) ∷ [])

free : has_subscription (string "b") two ≡ false
unfolding Dict.has
free = refl

abbrev params : Params dwn
params = record { target = some "did:alice"; message = some ("Records", "Subscribe") }

abbrev request : JsonRpcRequest dwn
request = record {
  id = some (string "r");
  method = "rpc.subscribe.dwn.processMessage";
  params = some params;
  subscription = some (string "b");
}

abbrev context : RequestContext dwn
context = record {
  transport = ws;
  socket_connection = some two;
  subscription_request = some (string "b");
  data_stream = none;
}

abbrev call : Call dwn
call = call_of dwn "uuid" request context params ("Records", "Subscribe")

abbrev reply : ℕ → Reply dwn
reply n = record { body = "ok"; entry_data = none; subscription = some n }

begun : begin_process_message dwn "uuid" request context ≡ ok (calls call)
unfolding begin_process_message Dict.has
begun = refl

begin_process_message_iff_example :
    (begin_process_message dwn "uuid" request context ≡ ok (calls call)) ↔ (
      (p : Params dwn) × (message : String × String) × (some params ≡ some p)
      × (p.message ≡ some message)
      × IsForwarded dwn context message
      × (call ≡ call_of dwn "uuid" request context p message))
begin_process_message_iff_example = begin_process_message_iff dwn "uuid" request context call

finish_process_message_subscribes_example : finish_process_message dwn call (ok (reply 7)) two ≡ (
  holding ((string "a", 1) ∷ (number "2", 2) ∷ (string "b", 7) ∷ []),
  record {
    json_rpc_response = create_json_rpc_success_response dwn (string "r") (some (dwn_reply "ok"));
    data_stream = none;
  },
)
finish_process_message_subscribes_example =
    finish_process_message_subscribes dwn "uuid" request context call two (string "b") 7 (reply 7)
      begun refl refl refl

abbrev parse : String → Result (JsonRpcRequest dwn)
parse s = ok request

abbrev events : List (Event dwn)
events = arrives "uuid" "{}" ∷ returns 0 (replied (ok (reply 7))) ∷ ticks ∷ []

two_ids : Dict.IsMap two.subscriptions
unfolding Dict.IsMap Dict.has
two_ids = (refl, (refl, tt))

abbrev initial : State dwn
initial = record { connection = two; jobs = [] }

holds_a : Dict.get (string "a") two.subscriptions ≡ some 1
unfolding Dict.get
holds_a = refl

step-get_example :
    (Dict.get (string "a") (step dwn parse fails initial).connection.subscriptions ≡ some 1)
    ⊎ (Dict.has (string "a") (step dwn parse fails initial).connection.subscriptions ≡ false)
step-get_example = step-get dwn parse fails initial (string "a") 1 two_ids holds_a

run_after_close_example :
    ((step dwn parse closes initial).connection.out ≡ two.out ++ closings two.subscriptions)
    × IsOver dwn parse (run dwn parse events (step dwn parse closes initial))
run_after_close_example = run_after_close dwn parse events initial refl

overlapping_subscribe_example :
    finish_process_message dwn call
      (ok (reply 8))
      (finish_process_message dwn call (ok (reply 7)) two).0
    ≡ (
      holding ((string "a", 1) ∷ (number "2", 2) ∷ (string "b", 7) ∷ []),
      refuse dwn (string "r") internal_error (
          code_text connection_subscription_json_rpc_id_exists
          <> ": "
          <> ("the subscription with id " <> show_id (string "b") <> " already exists")),
    )
overlapping_subscribe_example =
    overlapping_subscribe dwn "uuid" "uuid" request request context call call two (string "b") 7 8
      (reply 7) (reply 8) begun begun refl refl refl refl

subscribe_after_close_example :
    (finish_process_message dwn call (ok (reply 7)) (begin_close two)).0 ≡ record two {
      subscriptions = (string "b", 7) ∷ [];
      heartbeat = false;
      listening = false;
      out = closed 1 ∷ closed 2 ∷ [];
    }
subscribe_after_close_example =
    subscribe_after_close dwn "uuid" request context call two (string "b") 7 (reply 7) begun refl
      refl refl
