-- ===== src/JsonRpc/Manager.antt =====
-- src/connection/connection-manager.ts and src/ws-api.ts: the connections of a WebSocket server.
-- `sockets` holds every connection that was made, with its machine, under the number of its socket;
-- `connections` holds the keys of the manager's map, which refers to them.
pub mod Deaf
pub mod Laws
mod Tests
use Prim.Native.String.{String}
use dwn_server.Common.{
  ℕ, Bool, true, false, not, ◌&&◌, ◌||◌, List, [], ◌∷◌, if◌then◌else◌, map, nat_beq, nat_eq,
}
use dwn_server.Common.Dict
use dwn_server.Errors.{Result}
use dwn_server.JsonRpc.{Dwn, JsonRpcRequest}
use dwn_server.JsonRpc.Connection.{new_connection}
use dwn_server.JsonRpc.Socket.{
  State, Event as SocketEvent, arrives, returns, published, pongs, ticks, fails, closes, closed_all,
  step as socket_step,
}

module _ (D : Dwn) where
  pub record ConnectionManager : Type 0 where
    pub sockets : List (ℕ × State D)
    pub connections : List (ℕ × Unit {0})

  abbrev pub new_manager : ConnectionManager
  new_manager = record { sockets = []; connections = [] }

  -- `connect`; each socket connects once.
  unfoldable pub connect : ℕ → ConnectionManager → ConnectionManager
  connect socket m = record m {
    sockets = Dict.set socket (record { connection = new_connection; jobs = [] }) m.sockets;
    connections = Dict.set socket tt m.connections;
  }

  -- The function `onClose` that a connection is given.
  abbrev pub on_close : ℕ → ConnectionManager → ConnectionManager
  on_close socket m = record m { connections = Dict.delete socket m.connections }

  abbrev pub update : (State D → State D) → (ℕ → Bool) → ℕ × State D → ℕ × State D
  update f which (n, s) = (n, if which n then f s else s)

  abbrev pub is_closed_all : SocketEvent D → Bool
  is_closed_all (arrives uuid data_) = false
  is_closed_all (returns n outcome) = false
  is_closed_all (published id e) = false
  is_closed_all pongs = false
  is_closed_all ticks = false
  is_closed_all fails = false
  is_closed_all closes = false
  is_closed_all closed_all = true

  module _ (parse : String → Result (JsonRpcRequest D)) where
    -- `closeAll` up to its `await`: the close of each connection of the map begins.
    unfoldable pub close_all : ConnectionManager → ConnectionManager
    close_all m = record m {
      sockets = map (update (socket_step D parse closes) (λ n. Dict.has n m.connections)) m.sockets;
    }

    -- `WsApi` hears of a new socket, or of its own close; and the connections run.
    pub data Event : Type 0 where
      connection : ℕ → Event
      close : Event
      happens : ℕ → SocketEvent D → Event

    -- Before its close begins, a connection has its listeners and its timer.
    abbrev pub is_open : State D → Bool
    is_open s = s.connection.listening || s.connection.heartbeat

    -- The close functions of a connection can all have returned only after its close has begun;
    -- then it calls `onClose`.
    abbrev pub may_happen : SocketEvent D → State D → Bool
    may_happen e s = not (is_closed_all e && is_open s)

    abbrev pub guarded_step : SocketEvent D → State D → State D
    guarded_step e s = if may_happen e s then socket_step D parse e s else s

    abbrev pub is_over : ℕ → List (ℕ × State D) → Bool
    is_over socket [] = true
    is_over socket ((n, s) ∷ rest) =
        (if nat_beq n socket then not (is_open s) else true) && is_over socket rest

    unfoldable pub on_event : ℕ → SocketEvent D → ConnectionManager → ConnectionManager
    on_event socket e m =
        let m' : ConnectionManager = record m {
          sockets = map (update (guarded_step e) (λ n. nat_beq n socket)) m.sockets;
        } in
        if is_closed_all e && is_over socket m.sockets then on_close socket m' else m'

    unfoldable pub step : Event → ConnectionManager → ConnectionManager
    step (connection socket) m = if Dict.has socket m.sockets then m else connect socket m
    step close m = close_all m
    step (happens socket e) m = on_event socket e m

    unfoldable pub run : List Event → ConnectionManager → ConnectionManager
    run [] m = m
    run (e ∷ es) m = run es (step e m)
