-- ===== src/JsonRpc/Socket/Answers.antt =====
-- What a connection answers: one response to each request, under the request's id.
use Prim.Native.String.{String}
use dwn_server.Common.{
  ◌≡◌, ◌∙◌, sym, ap, subst, refl, inl, inr, Bool-cases, Option, none, some, Option-cases, [], ◌∷◌,
  ◌++◌, arith, ◌==◌, string_eq, ◌&&◌, not,
}
use dwn_server.Common.Dict
use dwn_server.Common.Text.{◌<>◌}
use dwn_server.Errors.{
  ok, throw, ok-bind, Error, dwn_server_error, DwnServerErrorCode,
  connection_subscription_json_rpc_id_not_found,
}
use dwn_server.JsonRpc.{
  JsonRpcId, show_id, invalid_request, id_eq, Dwn, JsonRpcRequest, JsonRpcResponse, success,
  failure, HandlerResponse, find_handler, json_rpc_router, Handler, handle_dwn_process_message,
  handle_subscriptions_close,
}
use dwn_server.JsonRpc.Connection.{
  SocketConnection, sent, emit, closed, add_subscription, begin_close_subscription,
  finish_close_subscription,
}
use dwn_server.JsonRpc.Handlers.{
  Call, Reply, RequestContext, Started, answers, calls, id_or_uuid, check_message,
  begin_process_message, finish_process_message, begin_subscriptions_close,
  finish_subscriptions_close, after_reply, close_failure, CloseStarted, close_answers, close_waits,
  refuse, is_http, is_some, in_use,
}
use dwn_server.JsonRpc.Socket.{
  Job, processing, closing, handle_request, dispatch, after_start, after_close_start,
  build_request_context, Outcome, replied, returned, finish,
}

module _ (D : Dwn) where
  open D use {Message, interface_name, method_name}

  abbrev pub response_id : JsonRpcResponse D → JsonRpcId
  response_id (success id r) = id
  response_id (failure id e) = id

  abbrev pub job_id : Job D → JsonRpcId
  job_id (processing call) = call.request_id
  job_id (closing request_id id) = request_id

  -- The outcome is of the kind that the job waits for.
  abbrev pub Fits : Job D → Outcome D → Type 0
  Fits (processing call) (replied outcome) = Unit
  Fits (processing call) (returned outcome) = ⊥
  Fits (closing request_id id) (returned outcome) = Unit
  Fits (closing request_id id) (replied outcome) = ⊥

  -- One response was sent, under the id.
  abbrev pub Answers : JsonRpcId → SocketConnection D → SocketConnection D → Type 0
  Answers id c c' = (r : JsonRpcResponse D) × (c'.out ≡ c.out ++ sent r ∷ []) × (response_id r ≡ id)

  close_failure_id :
      (request_id id : JsonRpcId) (e : Error) (code : Option DwnServerErrorCode)
      → response_id (close_failure D request_id id e code).json_rpc_response ≡ request_id
  close_failure_id request_id id e none = refl
  close_failure_id request_id id e (some connection_subscription_json_rpc_id_not_found) = refl
  close_failure_id request_id id e (some _) = refl

  -- What the rest of `processMessage` leaves of the connection, and the id of its response.
  Kept : JsonRpcId → SocketConnection D → SocketConnection D × HandlerResponse D → Type 0
  Kept id c p = (p.0.out ≡ c.out) × (response_id p.1.json_rpc_response ≡ id)

  after_reply-Kept :
      (call : Call D) (reply : Reply D) (id : Option JsonRpcId) (n : Option _)
      (c : SocketConnection D)
      → Kept call.request_id c (after_reply D call reply id n c)
  unfolding Kept add_subscription
  after_reply-Kept call reply none n c = (refl, refl)
  after_reply-Kept call reply (some id) none c = (refl, refl)
  after_reply-Kept call reply (some id) (some n) c =
      elim (Bool-cases (Dict.has id c.subscriptions)) [
        | inl present ↦ rw (present, add_subscription) (refl, refl)
        | inr new ↦ rw (new, add_subscription) (refl, refl)
      ]

  -- The end of a job answers its request once, under the request's id.
  pub finish-Answers :
      (job : Job D) (outcome : Outcome D) (c : SocketConnection D)
      → Fits job outcome
      → Answers (job_id job) c (finish D job outcome c)
  unfolding finish finish_process_message finish_subscriptions_close finish_close_subscription Kept
  finish-Answers (processing call) (replied (throw e)) c fits = (_, refl, refl)
  finish-Answers (processing call) (replied (ok reply)) c fits =
      let p = after_reply D call reply call.subscription_request reply.subscription c in
      let (kept, id) = after_reply-Kept call reply call.subscription_request reply.subscription c in
      (p.1.json_rpc_response, ap (λ o. o ++ sent p.1.json_rpc_response ∷ []) kept, id)
  finish-Answers (processing call) (returned outcome) c fits = absurd fits
  finish-Answers (closing request_id id) (returned (ok done)) c fits = (_, refl, refl)
  finish-Answers (closing request_id id) (returned (throw e)) c fits =
      (_, refl, close_failure_id request_id id e e.code)
  finish-Answers (closing request_id id) (replied outcome) c fits = absurd fits

  abbrev started_id : Started D → JsonRpcId
  started_id (answers r) = response_id r.json_rpc_response
  started_id (calls call) = call.request_id

  check_message_id :
      (id : JsonRpcId) (target : Option String) (context : RequestContext D) (m : Option Message)
      → started_id (check_message D id target context m) ≡ id
  check_message_id id target context none = refl
  check_message_id id target context (some m) =
      elim (Bool-cases (
        not (is_http context.transport)
        && (interface_name m == "Records" && method_name m == "Write"))) [
          | inl write ↦ rw write refl
          | inr a ↦
              rw a
                (elim (Bool-cases
                  (method_name m == "Subscribe" && not (is_some context.subscription_request))) [
                    | inl bare ↦ rw bare refl
                    | inr b ↦
                        rw b
                          (elim (Bool-cases
                            (is_http context.transport && is_some context.subscription_request)) [
                              | inl over ↦ rw over refl
                              | inr e ↦ rw e (elim (Bool-cases (in_use D context)) [
                                | inl used ↦ rw used refl
                                | inr free ↦ rw free refl
                              ])
                            ])
                  ])
        ]

  -- A request was answered, or a job waits that will answer it.
  abbrev pub IsTaken : JsonRpcId → SocketConnection D → SocketConnection D × Option (Job D) → Type 0
  IsTaken id c (c', none) = Answers id c c'
  IsTaken id c (c', some job) = job_id job ≡ id

  after_start-IsTaken :
      (c : SocketConnection D) (started : Started D)
      → IsTaken (started_id started) c (after_start D c started)
  after_start-IsTaken c (answers r) = (r.json_rpc_response, refl, refl)
  after_start-IsTaken c (calls call) = refl

  abbrev not_found : JsonRpcId → Error
  not_found id =
      dwn_server_error connection_subscription_json_rpc_id_not_found
        ("the subscription with id " <> show_id id <> " was not found")

  begins_id :
      (uuid : String) (request : JsonRpcRequest D) (context : RequestContext D)
      (started : Started D)
      → begin_process_message D uuid request context ≡ ok started
      → started_id started ≡ id_or_uuid request.id uuid
  unfolding begin_process_message
  begins_id uuid request context started h = elim (Option-cases request.params) [
    | inl missing ↦ absurd (ground (arith, missing, h))
    | inr (p, there) ↦
        let id = id_or_uuid request.id uuid in
        let e : started ≡ check_message D id p.target context p.message =
          ground (arith, there, h) in
        ap started_id e ∙ check_message_id id p.target context p.message
  ]

  begin_close-IsTaken :
      (uuid : String) (request : JsonRpcRequest D) (c : SocketConnection D)
      → IsTaken
          (id_or_uuid request.id uuid)
          c
          (after_close_start D (begin_subscriptions_close D uuid request c))
  unfolding begin_subscriptions_close begin_close_subscription
  begin_close-IsTaken uuid request c =
      let rid = id_or_uuid request.id uuid in
      let b = begin_subscriptions_close D uuid request c in
      let taken : (x : SocketConnection D × CloseStarted D)
          → b ≡ x
          → IsTaken rid c (after_close_start D x)
          → IsTaken rid c (after_close_start D b) =
        λ x e h. subst (λ x. IsTaken rid c (after_close_start D x)) (sym e) h in
      elim (Option-cases request.subscription) [
        | inl missing ↦
            taken (c, close_answers (refuse D rid invalid_request "subscribe options do not exist"))
              (ground (arith, missing)) (_, refl, refl)
        | inr (id, found) ↦ elim (Option-cases (Dict.get id c.subscriptions)) [
          | inl unknown ↦
              let e = not_found id in
              taken (c, close_answers (close_failure D rid id e e.code))
                (ground (arith, found, unknown)) (_, refl, close_failure_id rid id e e.code)
          | inr (n, known) ↦
              taken (emit (closed n) c, close_waits rid id) (ground (arith, found, known)) refl
        ]
      ]

  dispatch-IsTaken :
      (uuid : String) (request : JsonRpcRequest D) (context : RequestContext D) (h : Handler)
      (c : SocketConnection D) (taken : SocketConnection D × Option (Job D))
      → dispatch D uuid request context h c ≡ ok taken
      → IsTaken (id_or_uuid request.id uuid) c taken
  unfolding begin_process_message
  dispatch-IsTaken uuid request context handle_subscriptions_close c taken h =
      let same : after_close_start D (begin_subscriptions_close D uuid request c) ≡ taken = cc h in
      subst (IsTaken (id_or_uuid request.id uuid) c) same (begin_close-IsTaken uuid request c)
  dispatch-IsTaken uuid request context handle_dwn_process_message c taken h =
      let (started, begins, rest) =
        ok-bind (begin_process_message D uuid request context) _ taken h in
      let same : after_start D c started ≡ taken = cc rest in
      subst (IsTaken (id_or_uuid request.id uuid) c) same (
        subst (λ i. IsTaken i c (after_start D c started))
          (begins_id uuid request context started begins) (after_start-IsTaken c started))

  -- A request that a connection takes is answered at once, or a job is left that will answer it,
  -- under the id of the request.
  pub handle_request-IsTaken :
      (uuid : String) (request : JsonRpcRequest D) (c : SocketConnection D)
      (taken : SocketConnection D × Option (Job D))
      → handle_request D uuid request c ≡ ok taken
      → IsTaken (id_or_uuid request.id uuid) c taken
  unfolding handle_request
  handle_request-IsTaken uuid request c taken h =
      let (context, built, rest) = ok-bind (build_request_context D request c) _ taken h in
      let (handler, found, dispatched) =
        ok-bind (find_handler json_rpc_router request.method) _ taken rest in
      dispatch-IsTaken uuid request context handler c taken dispatched
