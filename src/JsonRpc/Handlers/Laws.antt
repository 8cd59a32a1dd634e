-- ===== src/JsonRpc/Handlers/Laws.antt =====
-- Which requests reach the DWN, and what their replies do to the connection.
use Prim.Native.String.{String}
use dwn_server.Common.{
  ℕ, ◌≡◌, ◌≢◌, ◌↔◌, false, Option, none, some, Option-cases, [], ◌∷◌, ◌++◌, arith, string_eq, inl,
  inr, ◌⊎◌,
}
use dwn_server.Common.Dict
use dwn_server.Errors.{ok}
use dwn_server.JsonRpc.{
  JsonRpcId, id_eq, Dwn, Params, JsonRpcRequest, dwn_reply, create_json_rpc_success_response,
}
use dwn_server.JsonRpc.Connection.{SocketConnection, add_subscription}
use dwn_server.JsonRpc.Handlers.{
  http, ws, id_or_uuid, RequestContext, Call, Reply, calls, in_use, check_message,
  begin_process_message, finish_process_message,
}
use text.Mathlib.TextEquality.{eq_iff}

module _ (D : Dwn) where
  open D use {Message, interface_name, method_name}

  -- The id of the subscription request, if there is one, is not in use by the connection, if there
  -- is one.
  abbrev pub IsFree : RequestContext D → Type 0
  IsFree context =
      (context.subscription_request ≡ none)
      ⊎ ((context.socket_connection ≡ none)
          ⊎ ((id : JsonRpcId) × (c : SocketConnection D) × (context.subscription_request ≡ some id)
              × (context.socket_connection ≡ some c)
              × (Dict.has id c.subscriptions ≡ false)))

  in_use-IsFree : (context : RequestContext D) → (in_use D context ≡ false) ↔ IsFree context
  in_use-IsFree context = elim (Option-cases context.subscription_request) [
    | inl unasked ↦ (λ h. inl unasked, λ h. ground (arith, unasked))
    | inr (id, asked) ↦ elim (Option-cases context.socket_connection) [
      | inl alone ↦ (λ h. inr (inl alone), λ h. ground (arith, asked, alone))
      | inr (c, there) ↦ (
        λ h. inr (inr (id, c, asked, there, ground (arith, h, asked, there))),
        λ h. ground (arith, h, asked, there),
      )
    ]
  ]

  -- What a message needs to be handed to the DWN: a RecordsWrite comes over HTTP, a subscribe message
  -- with a subscription request, a subscription request over a WebSocket, and under an id that its
  -- connection does not use.
  pub record IsForwarded (context : RequestContext D) (message : Message) : Type 0 where
    pub write_over_http :
        (context.transport ≡ http)
        ⊎ ((interface_name message ≢ "Records") ⊎ (method_name message ≢ "Write"))
    pub subscribe_with_request :
        (method_name message ≢ "Subscribe")
        ⊎ ((id : JsonRpcId) × (context.subscription_request ≡ some id))
    pub request_over_ws : (context.transport ≡ ws) ⊎ (context.subscription_request ≡ none)
    pub fresh : IsFree context

  -- The call that stands for a request with the given parameters.
  abbrev pub call_of : String → JsonRpcRequest D → RequestContext D → Params D → Message → Call D
  call_of uuid request context p message = record {
    request_id = id_or_uuid request.id uuid;
    target = p.target;
    message = message;
    data_stream = context.data_stream;
    subscription_request = context.subscription_request;
  }

  pub check_message-IsForwarded :
      (id : JsonRpcId) (target : Option String) (context : RequestContext D) (message : Message)
      → IsForwarded context message
      → check_message D id target context (some message)
        ≡ calls (record {
          request_id = id;
          target = target;
          message = message;
          data_stream = context.data_stream;
          subscription_request = context.subscription_request;
        })
  check_message-IsForwarded id target context message h = ground (
    arith,
    eq_iff (interface_name message) "Records",
    eq_iff (method_name message) "Write",
    eq_iff (method_name message) "Subscribe",
    in_use-IsFree context,
  )

  check_message_forwards :
      (id : JsonRpcId) (target : Option String) (context : RequestContext D) (message : Message)
      (call : Call D)
      → check_message D id target context (some message) ≡ calls call
      → IsForwarded context message
        × (call ≡ record {
          request_id = id;
          target = target;
          message = message;
          data_stream = context.data_stream;
          subscription_request = context.subscription_request;
        })
  check_message_forwards id target context message call h = ground (
    arith,
    eq_iff (interface_name message) "Records",
    eq_iff (method_name message) "Write",
    eq_iff (method_name message) "Subscribe",
    in_use-IsFree context,
  )

  -- `handleDwnProcessMessage` hands a request to the DWN exactly when it has parameters with a
  -- message that passes every test: a RecordsWrite only over HTTP, a subscribe message only with a
  -- subscription request, that only over a WebSocket, and not under an id in use. The call has the
  -- target, the message and the stream of the request, and its id or a new UUID.
  pub begin_process_message_iff :
      (uuid : String) (request : JsonRpcRequest D) (context : RequestContext D) (call : Call D)
      → (begin_process_message D uuid request context ≡ ok (calls call)) ↔ (
          (p : Params D) × (message : Message) × (request.params ≡ some p)
          × (p.message ≡ some message)
          × IsForwarded context message
          × (call ≡ call_of uuid request context p message))
  unfolding begin_process_message
  begin_process_message_iff uuid request context call = (
    λ h. elim (Option-cases request.params) [
      | inl missing ↦ absurd (ground arith)
      | inr (p, params) ↦ elim (Option-cases p.message) [
        | inl nothing ↦ absurd (ground arith)
        | inr (message, there) ↦
            let id = id_or_uuid request.id uuid in
            let passed : check_message D id p.target context (some message) ≡ calls call =
              ground (arith, params, there, h) in
            let (is, same) = check_message_forwards id p.target context message call passed in
            (p, message, params, there, is, same)
      ]
    ],
    λ h.
        let (p, message, params, there, is, same) = h in
        ground (
          arith,
          check_message-IsForwarded (id_or_uuid request.id uuid) p.target context message is,
        ),
  )

  -- A subscription request that was handed to the DWN, when the connection has not changed in the
  -- meantime: the reply is passed on, and the connection holds the subscription that the reply
  -- brings under the requested id, beside the ones that it had.
  pub finish_process_message_subscribes :
      (uuid : String) (request : JsonRpcRequest D) (context : RequestContext D) (call : Call D)
      (c : SocketConnection D) (id : JsonRpcId) (n : ℕ) (reply : Reply D)
      → begin_process_message D uuid request context ≡ ok (calls call)
      → context.socket_connection ≡ some c
      → context.subscription_request ≡ some id
      → reply.subscription ≡ some n
      → finish_process_message D call (ok reply) c ≡ (
        record c { subscriptions = c.subscriptions ++ (id, n) ∷ [] },
        record {
          json_rpc_response =
              create_json_rpc_success_response D call.request_id (some (dwn_reply reply.body));
          data_stream = reply.entry_data;
        },
      )
  unfolding finish_process_message add_subscription
  finish_process_message_subscribes uuid request context call c id n reply begun conn sub opened =
      let (p, message, params, there, is, same) =
        (begin_process_message_iff uuid request context call).0 begun in
      let new : Dict.has id c.subscriptions ≡ false =
        ground (arith, (in_use-IsFree context).1 is.fresh, conn, sub) in
      ground (arith, new, same, sub, opened, Dict.set-append id n c.subscriptions new)
