-- ===== src/JsonRpc/Handlers.antt =====
-- src/json-rpc-handlers/dwn/process-message.ts, src/json-rpc-handlers/subscription/close.ts, and
-- `message` and `buildRequestContext` of src/connection/socket-connection.ts. A handler that waits
-- for the DWN is two functions: one up to the `await`, and one from there with its outcome.
pub mod Laws
use Prim.Native.String.{String}
use dwn_server.Common.{
  ℕ, Bool, true, false, not, ◌&&◌, Option, none, some, if◌then◌else◌, ◌==◌, string_eq,
}
use dwn_server.Common.Text.{◌<>◌}
use dwn_server.Errors.{
  DwnServerErrorCode, connection_subscription_json_rpc_id_not_found, Error, Result, ok, throw,
  ◌>>=◌, other_error,
}
use dwn_server.JsonRpc.{
  JsonRpcId, string, number, null, show_id, Dwn, JsonRpcRequest, dwn_reply, accepted,
  JsonRpcResponse, HandlerResponse, create_json_rpc_error_response,
  create_json_rpc_success_response, JsonRpcErrorCodes, invalid_request, invalid_params,
  internal_error,
}
use dwn_server.JsonRpc.Connection.{
  SocketConnection, has_subscription, add_subscription, begin_close_subscription,
  finish_close_subscription,
}

pub data Transport : Type 0 where
  http : Transport
  ws : Transport

abbrev pub show_transport : Transport → String
show_transport http = "http"
show_transport ws = "ws"

abbrev pub is_http : Transport → Bool
is_http http = true
is_http ws = false

abbrev pub is_some {ℓ} : {A : Type ℓ} → Option A → Bool
is_some none = false
is_some (some a) = true

-- requestId: `id ?? uuidv4()`
abbrev pub id_or_uuid : Option JsonRpcId → String → JsonRpcId
id_or_uuid none uuid = string uuid
id_or_uuid (some null) uuid = string uuid
id_or_uuid (some (string s)) uuid = string s
id_or_uuid (some (number s)) uuid = number s

abbrev pub type_error : Error
type_error = other_error "Cannot read properties of undefined"

module _ (D : Dwn) where
  open D use {Message, interface_name, method_name, Stream, Json}

  -- `RequestContext`; the id is that of `subscriptionRequest`.
  pub record RequestContext : Type 0 where
    pub transport : Transport
    pub socket_connection : Option (SocketConnection D)
    pub subscription_request : Option JsonRpcId
    pub data_stream : Option Stream

  -- A call of `dwn.processMessage` that is waited for.
  pub record Call : Type 0 where
    pub request_id : JsonRpcId
    pub target : Option String
    pub message : Message
    pub data_stream : Option Stream
    pub subscription_request : Option JsonRpcId

  -- What the call replies: the data stream of the entry, the subscription that it opened, whose
  -- close function the number stands for, and the rest.
  pub record Reply : Type 0 where
    pub body : Json
    pub entry_data : Option Stream
    pub subscription : Option ℕ

  pub data Started : Type 0 where
    answers : HandlerResponse D → Started
    calls : Call → Started

  abbrev pub without_stream : JsonRpcResponse D → HandlerResponse D
  without_stream r = record { json_rpc_response = r; data_stream = none }

  abbrev pub refuse : JsonRpcId → JsonRpcErrorCodes → String → HandlerResponse D
  refuse id code message = without_stream (create_json_rpc_error_response D id code message none)

  abbrev uses : Option (SocketConnection D) → JsonRpcId → Bool
  uses none id = false
  uses (some c) id = has_subscription id c

  -- `subscriptionRequest !== undefined && socketConnection?.hasSubscription(...)`
  abbrev pub in_use : RequestContext → Bool
  in_use context = elim context.subscription_request [
    | none ↦ false
    | some id ↦ uses context.socket_connection id
  ]

  abbrev show_request : Option JsonRpcId → String
  show_request none = "undefined"
  show_request (some id) = show_id id

  abbrev pub check_message : JsonRpcId → Option String → RequestContext → Option Message → Started
  check_message id target context none = answers (refuse id internal_error type_error.message)
  check_message id target context (some message) =
      if not (is_http context.transport)
        && (interface_name message == "Records" && method_name message == "Write")
      then answers (
          refuse id invalid_params
            ("RecordsWrite is not supported via " <> show_transport context.transport))
      else if method_name message == "Subscribe" && not (is_some context.subscription_request)
      then answers
          (refuse id invalid_request "subscribe methods must contain a subscriptionRequest context")
      else if is_http context.transport && is_some context.subscription_request
      then answers (
          refuse id invalid_params
            ("subscriptions are not supported via " <> show_transport context.transport))
      else if in_use context
      then answers (
          refuse id invalid_params (
            "the subscribe id: "
            <> show_request context.subscription_request
            <> " is in use by an active subscription"))
      else calls (record {
        request_id = id;
        target = target;
        message = message;
        data_stream = context.data_stream;
        subscription_request = context.subscription_request;
      })

  -- `handleDwnProcessMessage` up to its `await`; parameters that are missing are a TypeError outside
  -- of the try block.
  unfoldable pub begin_process_message : String → JsonRpcRequest D → RequestContext → Result Started
  begin_process_message uuid request context = elim request.params [
    | none ↦ throw type_error
    | some p ↦ ok (check_message (id_or_uuid request.id uuid) p.target context p.message)
  ]

  abbrev pub reply_with : Call → Reply → HandlerResponse D
  reply_with call reply = record {
    json_rpc_response =
        create_json_rpc_success_response D call.request_id (some (dwn_reply reply.body));
    data_stream = reply.entry_data;
  }

  -- The outcome of `addSubscription`, in the try block.
  abbrev pub after_add :
      Call
      → Reply
      → SocketConnection D
      → Result (SocketConnection D)
      → SocketConnection D × HandlerResponse D
  after_add call reply c (ok c') = (c', reply_with call reply)
  after_add call reply c (throw e) = (c, refuse call.request_id internal_error e.message)

  abbrev pub after_reply :
      Call
      → Reply
      → Option JsonRpcId
      → Option ℕ
      → SocketConnection D
      → SocketConnection D × HandlerResponse D
  after_reply call reply none handle c = (c, reply_with call reply)
  after_reply call reply (some id) none c = (c, reply_with call reply)
  after_reply call reply (some id) (some handle) c =
      after_add call reply c (add_subscription id handle c)

  -- `handleDwnProcessMessage` from its `await` on, for a request over a WebSocket, whose context has
  -- a connection; one over HTTP never gets so far with a subscription request.
  unfoldable pub finish_process_message :
      Call → Result Reply → SocketConnection D → SocketConnection D × HandlerResponse D
  finish_process_message call outcome c = elim outcome [
    | throw e ↦ (c, refuse call.request_id internal_error e.message)
    | ok reply ↦ after_reply call reply call.subscription_request reply.subscription c
  ]

  abbrev pub close_failure :
      JsonRpcId → JsonRpcId → Error → Option DwnServerErrorCode → HandlerResponse D
  close_failure request_id id e (some connection_subscription_json_rpc_id_not_found) =
      refuse request_id invalid_params ("subscription " <> show_id id <> " does not exist.")
  close_failure request_id id e _ =
      refuse request_id internal_error
        ("unknown subscription close error for " <> show_id id <> ": " <> e.message)

  -- `handleSubscriptionsClose` up to the `await` of `closeSubscription`: an answer, or the ids of
  -- the request and of the subscription whose close function is waited for.
  pub data CloseStarted : Type 0 where
    close_answers : HandlerResponse D → CloseStarted
    close_waits : JsonRpcId → JsonRpcId → CloseStarted

  abbrev pub after_begin_close :
      JsonRpcId
      → JsonRpcId
      → SocketConnection D
      → Result (SocketConnection D)
      → SocketConnection D × CloseStarted
  after_begin_close request_id id c (ok c') = (c', close_waits request_id id)
  after_begin_close request_id id c (throw e) =
      (c, close_answers (close_failure request_id id e e.code))

  unfoldable pub begin_subscriptions_close :
      String → JsonRpcRequest D → SocketConnection D → SocketConnection D × CloseStarted
  begin_subscriptions_close uuid request c =
      let request_id = id_or_uuid request.id uuid in
      elim request.subscription [
        | none ↦
            (c, close_answers (refuse request_id invalid_request "subscribe options do not exist"))
        | some id ↦ after_begin_close request_id id c (begin_close_subscription id c)
      ]

  -- The same handler where the context has no connection, as over HTTP.
  unfoldable pub subscriptions_close_over_http : String → JsonRpcRequest D → HandlerResponse D
  subscriptions_close_over_http uuid request =
      refuse (id_or_uuid request.id uuid) invalid_request "socket connection does not exist"

  -- The rest of it, with what the close function returned or threw.
  unfoldable pub finish_subscriptions_close :
      JsonRpcId
      → JsonRpcId
      → Result (Unit {0})
      → SocketConnection D
      → SocketConnection D × HandlerResponse D
  finish_subscriptions_close request_id id outcome c = elim outcome [
    | ok done ↦ (
      finish_close_subscription id c,
      without_stream (create_json_rpc_success_response D request_id (some accepted)),
    )
    | throw e ↦ (c, close_failure request_id id e e.code)
  ]
