-- ===== src/JsonRpc/Socket/Changes.antt =====
-- What one step of a connection does to its subscriptions.
use Prim.Native.String.{String}
use dwn_server.Common.{
  ℕ, ◌≡◌, refl, sym, ap, subst, Bool, true, false, Bool-cases, Option, none, some, Option-cases,
  List, [], arith, if◌then◌else◌, ◌==◌, string_eq, inl, inr,
}
use dwn_server.Common.Dict
use dwn_server.Errors.{Result, ok, throw, Result-cases}
use dwn_server.JsonRpc.{
  JsonRpcId, id_eq, Dwn, JsonRpcRequest, find_handler, json_rpc_router, Handler,
  handle_dwn_process_message, handle_subscriptions_close,
}
use dwn_server.JsonRpc.Connection.{
  SocketConnection, add_subscription, begin_close_subscription, finish_close_subscription,
  begin_close, finish_close, heartbeat_tick, error_event,
}
use dwn_server.JsonRpc.Connection.Laws.{begin_close_lem}
use dwn_server.JsonRpc.Handlers.{
  Call, Reply, RequestContext, begin_process_message, finish_process_message,
  begin_subscriptions_close, finish_subscriptions_close, after_reply, CloseStarted, close_answers,
  close_waits, answers, calls,
}
use dwn_server.JsonRpc.Socket.{
  Job, processing, closing, handle_request, message, dispatch, after_close_start,
  build_request_context, Outcome, replied, returned, finish, State, Event, arrives, returns,
  published, pongs, ticks, fails, closes, closed_all, step, after_message, after_return,
}

module _ (D : Dwn) where
  abbrev subs : SocketConnection D → List (JsonRpcId × ℕ)
  subs c = c.subscriptions

  begin_subscriptions_close_kept :
      (uuid : String) (request : JsonRpcRequest D) (c : SocketConnection D)
      → (begin_subscriptions_close D uuid request c).0.subscriptions ≡ c.subscriptions
  unfolding begin_subscriptions_close begin_close_subscription
  begin_subscriptions_close_kept uuid request c = elim (Option-cases request.subscription) [
    | inl missing ↦ ground (arith, missing)
    | inr (id, found) ↦ elim (Option-cases (Dict.get id c.subscriptions)) [
      | inl unknown ↦ ground (arith, found, unknown)
      | inr (n, known) ↦ ground (arith, found, known)
    ]
  ]

  after_close_start_kept :
      (r : SocketConnection D × CloseStarted D)
      → (after_close_start D r).0.subscriptions ≡ r.0.subscriptions
  after_close_start_kept (c, close_answers r) = refl
  after_close_start_kept (c, close_waits request_id id) = refl

  dispatch_kept :
      (uuid : String) (request : JsonRpcRequest D) (context : RequestContext D) (h : Handler)
      (c c' : SocketConnection D) (job : Option (Job D))
      → dispatch D uuid request context h c ≡ ok (c', job)
      → c'.subscriptions ≡ c.subscriptions
  dispatch_kept uuid request context handle_dwn_process_message c c' job h =
      elim (Result-cases (begin_process_message D uuid request context)) [
        | inr (e, failed) ↦ absurd (ground arith)
        | inl (answers r, started) ↦ ground (arith, started)
        | inl (calls call, started) ↦ ground (arith, started)
      ]
  dispatch_kept uuid request context handle_subscriptions_close c c' job h =
      let started = begin_subscriptions_close D uuid request c in
      ground (arith, after_close_start_kept started, begin_subscriptions_close_kept uuid request c)

  handle_request_kept :
      (uuid : String) (request : JsonRpcRequest D) (c c' : SocketConnection D)
      (job : Option (Job D))
      → handle_request D uuid request c ≡ ok (c', job)
      → c'.subscriptions ≡ c.subscriptions
  unfolding handle_request
  handle_request_kept uuid request c c' job h =
      elim (Result-cases (build_request_context D request c)) [
        | inr (e, failed) ↦ absurd (ground arith)
        | inl (context, built) ↦ elim (Result-cases (find_handler json_rpc_router request.method)) [
          | inr (e, failed) ↦ absurd (ground arith)
          | inl (handler, found) ↦
              dispatch_kept uuid request context handler c c' job (ground (arith, built, found, h))
        ]
      ]

  -- Until a handler waits or answers, a message leaves the subscriptions of the connection alone.
  message_kept :
      (parse : String → Result (JsonRpcRequest D)) (uuid data_ : String) (c c' : SocketConnection D)
      (job : Option (Job D))
      → message D parse uuid data_ c ≡ ok (c', job)
      → c'.subscriptions ≡ c.subscriptions
  unfolding message
  message_kept parse uuid data_ c c' job h = elim (Bool-cases (data_ == "")) [
    | inl empty ↦ ground arith
    | inr full ↦ elim (Result-cases (parse data_)) [
      | inr (e, failed) ↦ ground arith
      | inl (request, read) ↦ handle_request_kept uuid request c c' job (ground arith)
    ]
  ]

  -- What one step may do to the subscriptions of a connection.
  pub data Change (m : List (JsonRpcId × ℕ)) : List (JsonRpcId × ℕ) → Type 0 where
    kept : Change m m
    emptied : Change m []
    added : (id : JsonRpcId) (n : ℕ) → Dict.has id m ≡ false → Change m (Dict.set id n m)
    removed : (id : JsonRpcId) → Change m (Dict.delete id m)

  -- The change that one step makes, from the equation on what it leaves.
  changed : (m m' m'' : List (JsonRpcId × ℕ)) → m'' ≡ m' → Change m m' → Change m m''
  changed m m' m'' same c = subst (Change m) (sym same) c

  begin_close-Change :
      (c : SocketConnection D) → Change c.subscriptions (begin_close c).subscriptions
  begin_close-Change c =
      changed c.subscriptions [] _
        (ap (λ (x : SocketConnection D). x.subscriptions) (begin_close_lem c)) emptied

  either-Change :
      {m : List (JsonRpcId × ℕ)} (b : Bool) (c c' : SocketConnection D)
      → Change m c.subscriptions
      → Change m c'.subscriptions
      → Change m (if b then c else c').subscriptions
  either-Change true c c' h h' = h
  either-Change false c c' h h' = h'

  heartbeat_tick-Change :
      (c : SocketConnection D) → Change c.subscriptions (heartbeat_tick c).subscriptions
  unfolding heartbeat_tick
  heartbeat_tick-Change c = either-Change c.is_alive c (begin_close c) kept (begin_close-Change c)

  after_reply-Change :
      (call : Call D) (reply : Reply D) (id : Option JsonRpcId) (n : Option ℕ)
      (c : SocketConnection D)
      → Change c.subscriptions (after_reply D call reply id n c).0.subscriptions
  unfolding add_subscription
  after_reply-Change call reply none n c = kept
  after_reply-Change call reply (some id) none c = kept
  after_reply-Change call reply (some id) (some n) c =
      elim (Bool-cases (Dict.has id c.subscriptions)) [
        | inl present ↦
            changed c.subscriptions c.subscriptions _ (rw (present, add_subscription) refl) kept
        | inr new ↦
            changed c.subscriptions (Dict.set id n c.subscriptions) _
              (rw (new, add_subscription) refl) (added id n new)
      ]

  finish-Change :
      (job : Job D) (outcome : Outcome D) (c : SocketConnection D)
      → Change c.subscriptions (finish D job outcome c).subscriptions
  unfolding finish finish_process_message finish_subscriptions_close finish_close_subscription
  finish-Change (processing call) (replied (throw e)) c = kept
  finish-Change (processing call) (replied (ok reply)) c =
      after_reply-Change call reply call.subscription_request reply.subscription c
  finish-Change (processing call) (returned outcome) c = kept
  finish-Change (closing request_id id) (returned (ok done)) c = removed id
  finish-Change (closing request_id id) (returned (throw e)) c = kept
  finish-Change (closing request_id id) (replied outcome) c = kept

  after_message-Change :
      (parse : String → Result (JsonRpcRequest D)) (uuid data_ : String) (s : State D)
      → Change s.connection.subscriptions
          (after_message D s (message D parse uuid data_ s.connection)).connection.subscriptions
  after_message-Change parse uuid data_ s =
      elim (Result-cases (message D parse uuid data_ s.connection)) [
        | inr (e, failed) ↦ rw failed kept
        | inl ((c, job), done) ↦ rw done (
            changed s.connection.subscriptions s.connection.subscriptions _
              (message_kept parse uuid data_ s.connection c job done) kept)
      ]

  after_return-Change :
      (outcome : Outcome D) (taken : Option (Job D × List (Job D))) (s : State D)
      → Change s.connection.subscriptions (after_return D s outcome taken).connection.subscriptions
  after_return-Change outcome none s = kept
  after_return-Change outcome (some (job, rest)) s = finish-Change job outcome s.connection

  either_state-Change :
      {m : List (JsonRpcId × ℕ)} (b : Bool) (s s' : State D)
      → Change m s.connection.subscriptions
      → Change m s'.connection.subscriptions
      → Change m (if b then s else s').connection.subscriptions
  either_state-Change true s s' h h' = h
  either_state-Change false s s' h h' = h'

  module _ (parse : String → Result (JsonRpcRequest D)) where
    pub step-Change :
        (e : Event D) (s : State D)
        → Change s.connection.subscriptions (step D parse e s).connection.subscriptions
    unfolding step finish_close error_event
    step-Change (arrives uuid data_) s =
        either_state-Change s.connection.listening _ s (after_message-Change parse uuid data_ s)
          kept
    step-Change (returns n outcome) s = after_return-Change outcome _ s
    step-Change (published id e) s = kept
    step-Change pongs s = either_state-Change s.connection.listening _ s kept kept
    step-Change ticks s =
        either_state-Change s.connection.heartbeat _ s (heartbeat_tick-Change s.connection) kept
    step-Change fails s = either_state-Change s.connection.listening _ s (begin_close-Change _) kept
    step-Change closes s = begin_close-Change s.connection
    step-Change closed_all s = kept
