-- ===== src/Client.antt =====
-- src/json-rpc-socket.ts: the client's end of a JSON-RPC socket. Requests wait for the response with
-- their id or for their timer, subscriptions keep a listener. The listeners of the socket's
-- `message` event stand in `listeners` under a number; a promise has the number of its listener.
pub mod Connecting
pub mod Exact
pub mod Keeps
pub mod Runs
pub mod Responses
pub mod Outcomes
pub mod Subscriptions
pub mod Server
mod Tests
use Prim.Native.String.{String}
use dwn_server.Common.{
  ℕ, suc, Bool, true, false, not, Option, none, some, List, [], ◌∷◌, ◌++◌, if◌then◌else◌, nat_eq,
}
use dwn_server.Common.Dict
use dwn_server.Errors.{Result, ok, throw, other_error}
use dwn_server.JsonRpc.{
  JsonRpcId, string, number, null, id_beq, id_eq, Dwn, JsonRpcRequest, JsonRpcResponse, success,
  failure, create_json_rpc_subscription_request,
}
use text.Mathlib.Text.{starts_with}

module _ (D : Dwn) where
  -- `handleResponse` of a request, and `socketEventListener` of a subscription, with their ids.
  pub data Listener : Type 0 where
    handle_response : JsonRpcId → Listener
    socket_event_listener : JsonRpcId → Listener

  pub data Promise : Type 0 where
    pending : Promise
    resolved : JsonRpcResponse D → Promise
    rejected : String → Promise

  -- What `subscribe` ends with: a response alone, a response beside the close function of a
  -- listener, or the exception of its request.
  pub data Subscribed : Type 0 where
    refused : JsonRpcResponse D → Subscribed
    opened : JsonRpcResponse D → ℕ → JsonRpcId → Subscribed
    thrown : String → Subscribed

  -- A call of `subscribe` that waits: its listener's number, and the id of the subscription.
  pub record Waiting : Type 0 where
    pub listener : ℕ
    pub subscription_id : JsonRpcId

  -- `waiting` holds the calls of `subscribe` that wait, by the number of their promise; `heard` holds the calls of the subscribers' functions.
  pub record JsonRpcSocket : Type 0 where
    pub listeners : List (ℕ × Listener)
    pub count : ℕ
    pub promises : List (ℕ × Promise)
    pub waiting : List (ℕ × Waiting)
    pub subscribed : List (ℕ × Subscribed)
    pub sent : List (JsonRpcRequest D)
    pub heard : List (ℕ × JsonRpcResponse D)

  abbrev pub new_socket : JsonRpcSocket
  new_socket = record {
    listeners = [];
    count = 0;
    promises = [];
    waiting = [];
    subscribed = [];
    sent = [];
    heard = [];
  }

  abbrev pub response_id : JsonRpcResponse D → JsonRpcId
  response_id (success id r) = id
  response_id (failure id e) = id

  abbrev pub is_error : JsonRpcResponse D → Bool
  is_error (success id r) = false
  is_error (failure id e) = true

  abbrev is_unsettled : Option Promise → Bool
  is_unsettled none = false
  is_unsettled (some pending) = true
  is_unsettled (some (resolved r)) = false
  is_unsettled (some (rejected e)) = false

  abbrev pub is_pending : ℕ → JsonRpcSocket → Bool
  is_pending n c = is_unsettled (Dict.get n c.promises)

  abbrev pub remove_event_listener : ℕ → JsonRpcSocket → JsonRpcSocket
  remove_event_listener n c = record c { listeners = Dict.delete n c.listeners }

  -- A promise keeps its first outcome.
  abbrev pub settle : ℕ → Promise → JsonRpcSocket → JsonRpcSocket
  settle n p c = record c {
    promises = if is_pending n c then Dict.set n p c.promises else c.promises;
  }

  -- `request.id ??= uuidv4()`
  abbrev pub id_or : String → Option JsonRpcId → JsonRpcId
  id_or uuid none = string uuid
  id_or uuid (some null) = string uuid
  id_or uuid (some (string s)) = string s
  id_or uuid (some (number s)) = number s

  -- `expires n` is the timer of the promise `n`; there is one for each promise.
  pub data Event : Type 0 where
    requests : JsonRpcRequest D → Event
    subscribes : JsonRpcRequest D → Event
    receives : JsonRpcResponse D → Event
    expires : ℕ → Event
    resumes : ℕ → Event
    closes : ℕ → Event

  -- The UUID that is drawn when the given number of listeners has been made.
  module _ (uuidv4 : ℕ → String) where
    -- The promise has the number `count` of the state before.
    unfoldable pub request : JsonRpcRequest D → JsonRpcSocket → JsonRpcSocket
    request r c =
        let id = id_or (uuidv4 c.count) r.id in
        record c {
          listeners = Dict.set c.count (handle_response id) c.listeners;
          count = suc c.count;
          promises = Dict.set c.count pending c.promises;
          sent = c.sent ++ record r { id = some id } ∷ [];
        }

    unfoldable pub close_subscription : JsonRpcId → JsonRpcSocket → JsonRpcSocket
    close_subscription id c =
        request
          (create_json_rpc_subscription_request D (string (uuidv4 c.count)) "rpc.subscribe.close"
            (some (record { target = none; message = none })) id)
          c

    abbrev pub add_subscriber : JsonRpcId → JsonRpcSocket → JsonRpcSocket
    add_subscriber id c = record c {
      listeners = Dict.set c.count (socket_event_listener id) c.listeners;
      count = suc c.count;
    }

    -- `subscribe` from its two tests on, up to its `await`.
    unfoldable pub begin_subscription : JsonRpcRequest D → JsonRpcId → JsonRpcSocket → JsonRpcSocket
    begin_subscription r id c =
        let c' = request r (add_subscriber id c) in
        record c' {
          waiting =
              Dict.set (suc c.count) (record { listener = c.count; subscription_id = id })
                c'.waiting;
        }

    abbrev pub with_options :
        JsonRpcRequest D → Option JsonRpcId → JsonRpcSocket → Result JsonRpcSocket
    with_options r none c =
        throw (other_error "subscribe rpc requests must include subscribe options")
    with_options r (some id) c = ok (begin_subscription r id c)

    unfoldable pub begin_subscribe : JsonRpcRequest D → JsonRpcSocket → Result JsonRpcSocket
    begin_subscribe r c =
        if not (starts_with r.method "rpc.subscribe.")
        then throw (other_error "subscribe rpc requests must include the `rpc.subscribe` prefix")
        else with_options r r.subscription c

    abbrev pub end_subscribe : ℕ → Subscribed → JsonRpcSocket → JsonRpcSocket
    end_subscribe n s c = record c {
      waiting = Dict.delete n c.waiting;
      subscribed = Dict.set n s c.subscribed;
    }

    abbrev pub after_request : ℕ → Waiting → Option Promise → JsonRpcSocket → JsonRpcSocket
    after_request n w none c = c
    after_request n w (some pending) c = c
    after_request n w (some (resolved r)) c =
        if is_error r
        then end_subscribe n (refused r) (remove_event_listener w.listener c)
        else end_subscribe n (opened r w.listener w.subscription_id) c
    after_request n w (some (rejected e)) c = end_subscribe n (thrown e) c

    abbrev pub resume : ℕ → Option Waiting → JsonRpcSocket → JsonRpcSocket
    resume n none c = c
    resume n (some w) c = after_request n w (Dict.get n c.promises) c

    -- The rest of `subscribe`, once the promise `n` is settled.
    unfoldable pub finish_subscribe : ℕ → JsonRpcSocket → JsonRpcSocket
    finish_subscribe n c = resume n (Dict.get n c.waiting) c

    -- The close function that `subscribe` returned.
    unfoldable pub close_listener : ℕ → JsonRpcId → JsonRpcSocket → JsonRpcSocket
    close_listener k id c = close_subscription id (remove_event_listener k c)

    abbrev pub close_opened : Option Subscribed → JsonRpcSocket → JsonRpcSocket
    close_opened none c = c
    close_opened (some (refused r)) c = c
    close_opened (some (opened r k id)) c = close_listener k id c
    close_opened (some (thrown e)) c = c

    abbrev pub call_listener : ℕ → JsonRpcResponse D → JsonRpcSocket → JsonRpcSocket
    call_listener n r c = record c { heard = c.heard ++ (n, r) ∷ [] }

    -- One listener hears a response. The subscriber's function is called last.
    unfoldable pub hear : JsonRpcResponse D → ℕ × Listener → JsonRpcSocket → JsonRpcSocket
    hear r (n, handle_response id) c =
        if id_beq (response_id r) id then settle n (resolved r) (remove_event_listener n c) else c
    hear r (n, socket_event_listener id) c =
        if id_beq (response_id r) id
        then call_listener n r (if is_error r then close_listener n id c else c)
        else c

    unfoldable pub hear_all :
        JsonRpcResponse D → List (ℕ × Listener) → JsonRpcSocket → JsonRpcSocket
    hear_all r [] c = c
    hear_all r (l ∷ ls) c = hear_all r ls (hear r l c)

    -- A response arrives: the listeners that stand at that time are called.
    unfoldable pub receive : JsonRpcResponse D → JsonRpcSocket → JsonRpcSocket
    receive r c = hear_all r c.listeners c

    -- The timer of the request `n`.
    unfoldable pub time_out : ℕ → JsonRpcSocket → JsonRpcSocket
    time_out n c = settle n (rejected "request timed out") (remove_event_listener n c)

    abbrev pub or_same : JsonRpcSocket → Result JsonRpcSocket → JsonRpcSocket
    or_same c (ok c') = c'
    or_same c (throw e) = c

    unfoldable pub step : Event → JsonRpcSocket → JsonRpcSocket
    step (requests r) c = request r c
    step (subscribes r) c = or_same c (begin_subscribe r c)
    step (receives r) c = receive r c
    step (expires n) c = if Dict.has n c.promises then time_out n c else c
    step (resumes n) c = finish_subscribe n c
    step (closes n) c = close_opened (Dict.get n c.subscribed) c

    unfoldable pub run : List Event → JsonRpcSocket → JsonRpcSocket
    run [] c = c
    run (e ∷ es) c = run es (step e c)
