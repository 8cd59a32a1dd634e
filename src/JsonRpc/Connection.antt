-- ===== src/JsonRpc/Connection.antt =====
-- src/connection/socket-connection.ts: the state of a connection, its subscriptions, the heartbeat
-- and the close. What the connection does to its socket, to the DWN's subscriptions and to its
-- manager is written down in `out`, in order.
pub mod Laws
use dwn_server.Common.{ℕ, Bool, true, false, none, some, List, [], ◌∷◌, ◌++◌, if◌then◌else◌}
use dwn_server.Common.Dict
use dwn_server.Common.Text.{◌<>◌}
use dwn_server.Errors.{
  Result, ok, throw, dwn_server_error, connection_subscription_json_rpc_id_exists,
  connection_subscription_json_rpc_id_not_found,
}
use dwn_server.JsonRpc.{JsonRpcId, show_id, id_eq, Dwn, JsonRpcResponse}

-- `closed n` is the call of the close function of the subscription `n` of the DWN.
pub data Output (D : Dwn) : Type 0 where
  ping : Output D
  sent : JsonRpcResponse D → Output D
  terminated : Output D
  closed : ℕ → Output D
  socket_closed : Output D
  on_close : Output D

-- `subscriptions` maps an id to the subscription of the DWN that it stands for; `heartbeat` says
-- whether the interval runs, and `listening` whether the listeners are attached.
pub record SocketConnection (D : Dwn) : Type 0 where
  pub subscriptions : List (JsonRpcId × ℕ)
  pub is_alive : Bool
  pub heartbeat : Bool
  pub listening : Bool
  pub out : List (Output D)

module _ {D : Dwn} where
  -- The constructor.
  abbrev pub new_connection : SocketConnection D
  new_connection = record {
    subscriptions = [];
    is_alive = true;
    heartbeat = true;
    listening = true;
    out = [];
  }

  abbrev pub emit : Output D → SocketConnection D → SocketConnection D
  emit o c = record c { out = c.out ++ o ∷ [] }

  abbrev pub send : JsonRpcResponse D → SocketConnection D → SocketConnection D
  send r c = emit (sent r) c

  abbrev pub has_subscription : JsonRpcId → SocketConnection D → Bool
  has_subscription id c = Dict.has id c.subscriptions

  unfoldable pub add_subscription : JsonRpcId → ℕ → SocketConnection D → Result (SocketConnection D)
  add_subscription id handle c =
      if Dict.has id c.subscriptions
      then throw (
          dwn_server_error connection_subscription_json_rpc_id_exists
            ("the subscription with id " <> show_id id <> " already exists"))
      else ok (record c { subscriptions = Dict.set id handle c.subscriptions })

  -- `closeSubscription` up to its `await`: the close function is called.
  unfoldable pub begin_close_subscription :
      JsonRpcId → SocketConnection D → Result (SocketConnection D)
  begin_close_subscription id c = elim (Dict.get id c.subscriptions) [
    | none ↦ throw (
        dwn_server_error connection_subscription_json_rpc_id_not_found
          ("the subscription with id " <> show_id id <> " was not found"))
    | some handle ↦ ok (emit (closed handle) c)
  ]

  -- The rest of `closeSubscription`, once the close function has returned.
  unfoldable pub finish_close_subscription : JsonRpcId → SocketConnection D → SocketConnection D
  finish_close_subscription id c = record c { subscriptions = Dict.delete id c.subscriptions }

  -- The loop of `close`, over the entries of the map.
  unfoldable pub close_all : List (JsonRpcId × ℕ) → SocketConnection D → SocketConnection D
  close_all [] c = c
  close_all ((id, handle) ∷ rest) c = close_all rest (record c {
    subscriptions = Dict.delete id c.subscriptions;
    out = c.out ++ closed handle ∷ [];
  })

  -- `close` up to its `await`.
  unfoldable pub begin_close : SocketConnection D → SocketConnection D
  begin_close c = close_all c.subscriptions (record c { heartbeat = false; listening = false })

  -- The rest of `close`, once every close function has returned; where one fails it is not run.
  unfoldable pub finish_close : SocketConnection D → SocketConnection D
  finish_close c = emit on_close (emit socket_closed c)

  abbrev pub pong : SocketConnection D → SocketConnection D
  pong c = record c { is_alive = true }

  -- The function of the interval.
  unfoldable pub heartbeat_tick : SocketConnection D → SocketConnection D
  heartbeat_tick c =
      let c' = if c.is_alive then c else begin_close c in emit ping (record c' { is_alive = false })

  -- The handler of the socket's errors.
  unfoldable pub error_event : SocketConnection D → SocketConnection D
  error_event c = begin_close (emit terminated c)
