-- ===== src/Http/Rpc.antt =====
-- POST / of src/http-api.ts: JSON-RPC over HTTP, up to the call of the DWN and from its reply on.
use Prim.Native.String.{String}
use dwn_server.Common.{
  ℕ, ◌≡◌, ◌≢◌, ◌↔◌, refl, sym, ◌∙◌, Option, none, some, arith, if◌then◌else◌, ◌==◌, string_eq, inl,
  inr,
}
use dwn_server.Common.Dict
use dwn_server.Errors.{Result, ok, throw, ◌>>=◌}
use dwn_server.JsonRpc.{
  string, Dwn, Params, JsonRpcRequest, JsonRpcResponse, success, failure, HandlerResponse,
  create_json_rpc_error_response, bad_request, internal_error, Handler, handle_dwn_process_message,
  handle_subscriptions_close, find_handler, json_rpc_router, on,
}
use dwn_server.JsonRpc.Handlers.{
  http, RequestContext, Call, Started, answers, calls, Reply, refuse, reply_with,
  begin_process_message, subscriptions_close_over_http,
}
use dwn_server.JsonRpc.Handlers.Laws.{IsForwarded, call_of, begin_process_message_iff}
use text.Mathlib.TextEquality.{eq_iff}

module _ (D : Dwn) where
  open D use {Stream, Message, method_name}

  -- A status with a JSON body, or with a data stream and the response in a header.
  pub data RpcAnswer : Type 0 where
    json : ℕ → JsonRpcResponse D → RpcAnswer
    streamed : JsonRpcResponse D → Stream → RpcAnswer

  abbrev pub reply_stream : JsonRpcResponse D → Option Stream → RpcAnswer
  reply_stream r none = json 200 r
  reply_stream r (some s) = streamed r s

  abbrev send_response : JsonRpcResponse D → Option Stream → RpcAnswer
  send_response (failure id e) stream = json 500 (failure id e)
  send_response (success id r) stream = reply_stream (success id r) stream

  -- From the handler's answer on.
  unfoldable pub finish_post : HandlerResponse D → RpcAnswer
  finish_post r = send_response r.json_rpc_response r.data_stream

  -- The context of a request over HTTP; `body` is the request's stream, if there is data in it.
  abbrev pub http_context : Option Stream → RequestContext D
  http_context body = record {
    transport = http;
    socket_connection = none;
    subscription_request = none;
    data_stream = body;
  }

  -- An answer, or a call of the DWN that is waited for.
  pub data Posted : Type 0 where
    done : RpcAnswer → Posted
    waits : Call D → Posted

  abbrev after_begin : Started D → Posted
  after_begin (answers r) = done (finish_post r)
  after_begin (calls call) = waits call

  abbrev route : String → JsonRpcRequest D → Option Stream → Handler → Result Posted
  route uuid request body handle_dwn_process_message = do
    started ← begin_process_message D uuid request (http_context body)
    ok (after_begin started)
  route uuid request body handle_subscriptions_close =
      ok (done (finish_post (subscriptions_close_over_http D uuid request)))

  abbrev bad : String → String → Posted
  bad uuid text =
      done (json 400 (create_json_rpc_error_response D (string uuid) bad_request text none))

  abbrev parsed : String → Result (JsonRpcRequest D) → Option Stream → Result Posted
  parsed uuid (throw e) body = ok (bad uuid e.message)
  parsed uuid (ok request) body = do
    handler ← find_handler json_rpc_router request.method
    route uuid request body handler

  -- The answer to a call that returned: over HTTP there is no subscription to keep.
  unfoldable pub finish_call : Call D → Result (Reply D) → RpcAnswer
  finish_call call (throw e) = finish_post (refuse D call.request_id internal_error e.message)
  finish_call call (ok reply) = finish_post (reply_with D call reply)

  abbrev waited : Result (Started D) → Result Posted
  waited r = r >>= λ started. ok (after_begin started)

  waited_iff :
      (r : Result (Started D)) (call : Call D)
      → (waited r ≡ ok (waits call)) ↔ (r ≡ ok (calls call))
  waited_iff (throw e) call = (λ h. absurd (cc h), λ h. absurd (cc h))
  waited_iff (ok (answers r)) call = (λ h. absurd (cc h), λ h. absurd (cc h))
  waited_iff (ok (calls c)) call = (λ h. cc h, λ h. cc h)

  process_message_handler :
      find_handler json_rpc_router "dwn.processMessage" ≡ ok handle_dwn_process_message
  unfolding find_handler json_rpc_router on Dict.get Dict.set
  process_message_handler = refl

  http_context-IsForwarded :
      (body : Option Stream) (message : Message)
      → IsForwarded D (http_context body) message ↔ (method_name message ≢ "Subscribe")
  http_context-IsForwarded body message = (
    λ f. elim f.subscribe_with_request [ inl other ↦ other | inr (id, asked) ↦ absurd (cc asked) ],
    λ other. record {
      write_over_http = inl refl;
      subscribe_with_request = inl other;
      request_over_ws = inr refl;
      fresh = inl refl;
    },
  )

  module _ (parse : String → Result (JsonRpcRequest D)) where
    -- The header `dwn-request` holds the request; a throw is an answer that never comes.
    unfoldable pub post_json_rpc : String → Option String → Option Stream → Result Posted
    post_json_rpc uuid none body = ok (bad uuid "request payload required.")
    post_json_rpc uuid (some header) body =
        if header == ""
        then ok (bad uuid "request payload required.")
        else parsed uuid (parse header) body

    -- Over HTTP a request for `dwn.processMessage` is handed to the DWN exactly when it has
    -- parameters with a message, and the method of that is not Subscribe: a RecordsWrite passes, and
    -- brings the stream of the request.
    pub post_json_rpc_iff :
        (uuid header : String) (request : JsonRpcRequest D) (body : Option Stream) (call : Call D)
        → header ≢ ""
        → parse header ≡ ok request
        → request.method ≡ "dwn.processMessage"
        → (post_json_rpc uuid (some header) body ≡ ok (waits call)) ↔ (
            (p : Params D) × (message : Message) × (request.params ≡ some p)
            × (p.message ≡ some message)
            × (method_name message ≢ "Subscribe")
            × (call ≡ call_of D uuid request (http_context body) p message))
    unfolding post_json_rpc
    post_json_rpc_iff uuid header request body call full read method =
        let begun = begin_process_message D uuid request (http_context body) in
        let same : post_json_rpc uuid (some header) body ≡ waited begun =
          ground (arith, eq_iff header "", read, method, process_message_handler) in
        let (to, of) = waited_iff begun call in
        let (forth, back) = begin_process_message_iff D uuid request (http_context body) call in
        (
          λ h.
              let (p, message, params, there, is, eq) = forth (to (sym same ∙ h)) in
              (p, message, params, there, (http_context-IsForwarded body message).0 is, eq),
          λ h.
              let (p, message, params, there, other, eq) = h in
              let is = (http_context-IsForwarded body message).1 other in
              same ∙ of (back (p, message, params, there, is, eq)),
        )
