-- ===== src/JsonRpc/Socket/Races.antt =====
-- Interleavings in which a subscription of the DWN is left open with nothing that refers to it.
use Prim.Native.String.{String}
use dwn_server.Common.{ℕ, ◌≡◌, true, false, some, List, [], ◌∷◌, ◌++◌, arith}
use dwn_server.Common.Dict
use dwn_server.Common.Text.{◌<>◌}
use dwn_server.Errors.{ok, code_text, connection_subscription_json_rpc_id_exists}
use dwn_server.JsonRpc.{JsonRpcId, show_id, id_eq, Dwn, JsonRpcRequest, internal_error}
use dwn_server.JsonRpc.Connection.{
  SocketConnection, closed, emit, add_subscription, begin_close_subscription,
  finish_close_subscription, begin_close,
}
use dwn_server.JsonRpc.Connection.Laws.{begin_close_lem, closings}
use dwn_server.JsonRpc.Handlers.{
  RequestContext, Call, Reply, calls, begin_process_message, finish_process_message, refuse,
}
use dwn_server.JsonRpc.Handlers.Laws.{begin_process_message_iff, finish_process_message_subscribes}

has-last :
    (id : JsonRpcId) (n : ℕ) (m : List (JsonRpcId × ℕ)) → Dict.has id (m ++ (id, n) ∷ []) ≡ true
unfolding Dict.has
has-last id n m =
    ground (arith, Dict.has-append id m ((id, n) ∷ []), id_eq.beq_iff id id, id_eq.beq_iff id id)

module _ (D : Dwn) where
  -- Two subscription requests with one id that are both handed to the DWN before either has a reply:
  -- the first reply's subscription is kept, the second request fails with an internal error, and the
  -- subscription that its reply brings is neither kept nor closed.
  pub overlapping_subscribe :
      (uuid uuid' : String) (request request' : JsonRpcRequest D) (context : RequestContext D)
      (call call' : Call D) (c : SocketConnection D) (id : JsonRpcId) (n n' : ℕ)
      (reply reply' : Reply D)
      → begin_process_message D uuid request context ≡ ok (calls call)
      → begin_process_message D uuid' request' context ≡ ok (calls call')
      → context.socket_connection ≡ some c
      → context.subscription_request ≡ some id
      → reply.subscription ≡ some n
      → reply'.subscription ≡ some n'
      → finish_process_message D call' (ok reply') (finish_process_message D call (ok reply) c).0
        ≡ (
          record c { subscriptions = c.subscriptions ++ (id, n) ∷ [] },
          refuse D call'.request_id internal_error (
              code_text connection_subscription_json_rpc_id_exists
              <> ": "
              <> ("the subscription with id " <> show_id id <> " already exists")),
        )
  unfolding finish_process_message add_subscription
  overlapping_subscribe uuid uuid' request request' context call call' c id n n' reply reply' begun
        begun' conn sub opened opened' =
      let first =
        finish_process_message_subscribes D uuid request context call c id n reply begun conn sub
          opened in
      let (p, message, params, there, is, same) =
        (begin_process_message_iff D uuid' request' context call').0 begun' in
      let present : Dict.has id (c.subscriptions ++ (id, n) ∷ []) ≡ true =
        has-last id n c.subscriptions in
      ground (arith, first, same, sub, opened', present)

  -- A subscription request that is handed to the DWN before its connection closes, and whose reply
  -- comes after that: the closed connection then holds the subscription, whose close function has
  -- not been called.
  pub subscribe_after_close :
      (uuid : String) (request : JsonRpcRequest D) (context : RequestContext D) (call : Call D)
      (c : SocketConnection D) (id : JsonRpcId) (n : ℕ) (reply : Reply D)
      → begin_process_message D uuid request context ≡ ok (calls call)
      → context.socket_connection ≡ some c
      → context.subscription_request ≡ some id
      → reply.subscription ≡ some n
      → (finish_process_message D call (ok reply) (begin_close c)).0 ≡ record c {
        subscriptions = (id, n) ∷ [];
        heartbeat = false;
        listening = false;
        out = c.out ++ closings c.subscriptions;
      }
  unfolding finish_process_message add_subscription Dict.has Dict.set
  subscribe_after_close uuid request context call c id n reply begun conn sub opened =
      let (p, message, params, there, is, same) =
        (begin_process_message_iff D uuid request context call).0 begun in
      ground (arith, begin_close_lem c, same, sub, opened)

  -- Two closes of one subscription that overlap, with a new subscription under the same id between
  -- their ends: the close function of the old one is called twice, and the reference to the new one
  -- is dropped without a call of its close function.
  pub overlapping_close :
      (id : JsonRpcId) (n m : ℕ) (c : SocketConnection D)
      → Dict.IsMap c.subscriptions
      → Dict.get id c.subscriptions ≡ some n
      → let waiting = emit (closed n) (emit (closed n) c) in
        (begin_close_subscription id c ≡ ok (emit (closed n) c))
        × (begin_close_subscription id (emit (closed n) c) ≡ ok waiting)
        × ((c' : SocketConnection D) × (add_subscription id m (finish_close_subscription id waiting)
              ≡ ok c')
            × (finish_close_subscription id c' ≡ finish_close_subscription id waiting))
  unfolding begin_close_subscription add_subscription finish_close_subscription
  overlapping_close id n m c h held =
      let left = Dict.delete id c.subscriptions in
      let free = Dict.has-delete_self id c.subscriptions h in
      (
        ground (arith, held),
        ground (arith, held),
        (
          record (emit (closed n) (emit (closed n) c)) { subscriptions = Dict.set id m left },
          ground (arith, free),
          ground (arith, Dict.delete-set id m left free),
        ),
      )
