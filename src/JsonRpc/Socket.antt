-- ===== src/JsonRpc/Socket.antt =====
-- `message` and `buildRequestContext` of src/connection/socket-connection.ts, and the connection as
-- a machine: messages arrive, the calls that they wait for return in any order, and the timer and
-- the socket interleave with them.
pub mod Changes
pub mod Runs
pub mod Races
pub mod Answers
mod Tests
use Prim.Native.String.{String}
use dwn_server.Common.{
  ℕ, zero, suc, Bool, true, false, Option, none, some, List, [], ◌∷◌, ◌++◌, if◌then◌else◌, ◌==◌,
  string_eq,
}
use dwn_server.Errors.{Result, ok, throw, ◌>>=◌}
use dwn_server.JsonRpc.{
  JsonRpcId, string, Dwn, Params, JsonRpcRequest, HandlerResponse, create_json_rpc_error_response,
  create_json_rpc_success_response, event, bad_request, Handler, handle_dwn_process_message,
  handle_subscriptions_close, find_handler, json_rpc_router,
}
use dwn_server.JsonRpc.Connection.{
  SocketConnection, send, pong, heartbeat_tick, error_event, begin_close, finish_close,
}
use dwn_server.JsonRpc.Handlers.{
  ws, type_error, RequestContext, Call, Reply, Started, answers, calls, begin_process_message,
  finish_process_message, CloseStarted, close_answers, close_waits, begin_subscriptions_close,
  finish_subscriptions_close,
}
use text.Mathlib.Text.{starts_with}

module _ (D : Dwn) where
  open D use {Message, method_name}

  -- A handler that waits: for `dwn.processMessage`, or for the close function of a subscription.
  pub data Job : Type 0 where
    processing : Call D → Job
    closing : JsonRpcId → JsonRpcId → Job

  abbrev requested : Option Message → JsonRpcId → Option JsonRpcId
  requested none id = none
  requested (some message) id = if method_name message == "Subscribe" then some id else none

  abbrev context_of : SocketConnection D → Option JsonRpcId → RequestContext D
  context_of c id = record {
    transport = ws;
    socket_connection = some c;
    subscription_request = id;
    data_stream = none;
  }

  -- The subscription that `buildRequestContext` reads off the parameters.
  abbrev subscription_of : Option (Params D) → JsonRpcId → Result (Option JsonRpcId)
  subscription_of none id = throw type_error
  subscription_of (some p) id = ok (requested p.message id)

  abbrev asked : Bool → Option (Params D) → Option JsonRpcId → Result (Option JsonRpcId)
  asked false params subscription = ok none
  asked true params none = ok none
  asked true params (some id) = subscription_of params id

  unfoldable pub build_request_context :
      JsonRpcRequest D → SocketConnection D → Result (RequestContext D)
  build_request_context request c = do
    id ← asked (starts_with request.method "rpc.subscribe.") request.params request.subscription
    ok (context_of c id)

  abbrev pub after_start : SocketConnection D → Started D → SocketConnection D × Option Job
  after_start c (answers r) = (send r.json_rpc_response c, none)
  after_start c (calls call) = (c, some (processing call))

  abbrev pub after_close_start :
      SocketConnection D × CloseStarted D → SocketConnection D × Option Job
  after_close_start (c, close_answers r) = (send r.json_rpc_response c, none)
  after_close_start (c, close_waits request_id id) = (c, some (closing request_id id))

  abbrev pub dispatch :
      String
      → JsonRpcRequest D
      → RequestContext D
      → Handler
      → SocketConnection D
      → Result (SocketConnection D × Option Job)
  dispatch uuid request context handle_dwn_process_message c = do
    started ← begin_process_message D uuid request context
    ok (after_start c started)
  dispatch uuid request context handle_subscriptions_close c =
      ok (after_close_start (begin_subscriptions_close D uuid request c))

  -- `message` up to the handler's `await`, for a request that was parsed.
  unfoldable pub handle_request :
      String → JsonRpcRequest D → SocketConnection D → Result (SocketConnection D × Option Job)
  handle_request uuid request c = do
    context ← build_request_context request c
    handler ← find_handler json_rpc_router request.method
    dispatch uuid request context handler c

  abbrev bad : String → String → SocketConnection D → SocketConnection D × Option Job
  bad uuid text c =
      (send (create_json_rpc_error_response D (string uuid) bad_request text none) c, none)

  abbrev parsed :
      String
      → Result (JsonRpcRequest D)
      → SocketConnection D
      → Result (SocketConnection D × Option Job)
  parsed uuid (throw e) c = ok (bad uuid e.message c)
  parsed uuid (ok request) c = handle_request uuid request c

  -- `message`; `parse` is JSON.parse, and gives the requests that have the shape of their type.
  unfoldable pub message :
      (String → Result (JsonRpcRequest D))
      → String
      → String
      → SocketConnection D
      → Result (SocketConnection D × Option Job)
  message parse uuid request_data c =
      if request_data == ""
      then ok (bad uuid "request payload required." c)
      else parsed uuid (parse request_data) c

  -- The handler that an event of the subscription `id` is given to.
  abbrev pub subscription_handler : JsonRpcId → D.Json → SocketConnection D → SocketConnection D
  subscription_handler id e c = send (create_json_rpc_success_response D id (some (event e))) c

  -- The outcome that a job waits for.
  pub data Outcome : Type 0 where
    replied : Result (Reply D) → Outcome
    returned : Result (Unit {0}) → Outcome

  abbrev respond : SocketConnection D × HandlerResponse D → SocketConnection D
  respond (c, r) = send r.json_rpc_response c

  -- The rest of a job; an outcome of the other kind cannot arrive.
  unfoldable pub finish : Job → Outcome → SocketConnection D → SocketConnection D
  finish (processing call) (replied outcome) c = respond (finish_process_message D call outcome c)
  finish (processing call) (returned outcome) c = c
  finish (closing request_id id) (returned outcome) c =
      respond (finish_subscriptions_close D request_id id outcome c)
  finish (closing request_id id) (replied outcome) c = c

  pub record State : Type 0 where
    pub connection : SocketConnection D
    pub jobs : List Job

  -- A message with the UUID that it may need, the return of the job that stands at the given place,
  -- an event of a subscription, and what the socket, the timer and the manager do.
  pub data Event : Type 0 where
    arrives : String → String → Event
    returns : ℕ → Outcome → Event
    published : JsonRpcId → D.Json → Event
    pongs : Event
    ticks : Event
    fails : Event
    closes : Event
    closed_all : Event

  -- The job at a place, and the others.
  abbrev pub take_job : ℕ → List Job → Option (Job × List Job)
  take_job n [] = none
  take_job zero (j ∷ js) = some (j, js)
  take_job (suc n) (j ∷ js) = elim (take_job n js) [
    | none ↦ none
    | some (k, rest) ↦ some (k, j ∷ rest)
  ]

  abbrev add_job : List Job → Option Job → List Job
  add_job js none = js
  add_job js (some j) = js ++ j ∷ []

  -- An exception in `message` is a rejected promise that nobody waits for.
  abbrev after_message : State → Result (SocketConnection D × Option Job) → State
  after_message s (throw e) = s
  after_message s (ok (c, job)) = record { connection = c; jobs = add_job s.jobs job }

  abbrev pub after_return : State → Outcome → Option (Job × List Job) → State
  after_return s outcome none = s
  after_return s outcome (some (job, rest)) = record {
    connection = finish job outcome s.connection;
    jobs = rest;
  }

  abbrev on_connection : (SocketConnection D → SocketConnection D) → State → State
  on_connection f s = record s { connection = f s.connection }

  module _ (parse : String → Result (JsonRpcRequest D)) where
    -- The listeners hear nothing once they are removed, and the timer does not run once it is
    -- cleared; a job goes on.
    unfoldable pub step : Event → State → State
    step (arrives uuid request_data) s =
        if s.connection.listening
        then after_message s (message parse uuid request_data s.connection)
        else s
    step (returns n outcome) s = after_return s outcome (take_job n s.jobs)
    step (published id e) s = on_connection (subscription_handler id e) s
    step pongs s = if s.connection.listening then on_connection pong s else s
    step ticks s = if s.connection.heartbeat then on_connection heartbeat_tick s else s
    step fails s = if s.connection.listening then on_connection error_event s else s
    step closes s = on_connection begin_close s
    step closed_all s = on_connection finish_close s

    unfoldable pub run : List Event → State → State
    run [] s = s
    run (e ∷ es) s = run es (step e s)
