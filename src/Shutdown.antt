-- ===== src/Shutdown.antt =====
-- src/lib/http-server-shutdown-handler.ts: which sockets are destroyed when the HTTP server stops.
-- The listeners are functions on the state; Node's server and sockets call them. A destroyed socket
-- stays in the table until its `close` event.
pub mod Laws
mod Tests
use dwn_server.Common.{
  ℕ, suc, ◌-◌, Bool, true, false, List, [], ◌∷◌, map, if◌then◌else◌, nat_beq, nat_eq,
}
use dwn_server.Common.Dict

-- `idle` is the socket's mark; `active` counts the requests whose responses are not finished, which
-- the program does not keep.
pub record Socket : Type 0 where
  pub idle : Bool
  pub active : ℕ
  pub destroyed : Bool

pub record ShutdownHandler : Type 0 where
  pub tcp_sockets : List (ℕ × Socket)
  pub tcp_socket_id : ℕ
  pub stopping : Bool

abbrev pub new_handler : ShutdownHandler
new_handler = record { tcp_sockets = []; tcp_socket_id = 1; stopping = false }

abbrev pub destroy : Socket → Socket
destroy s = record s { destroyed = true }

-- The socket with the given number is changed.
abbrev pub on_entry : ℕ → (Socket → Socket) → ℕ × Socket → ℕ × Socket
on_entry id f (j, s) = (j, if nat_beq j id then f s else s)

abbrev pub update : ℕ → (Socket → Socket) → ShutdownHandler → ShutdownHandler
update id f h = record h { tcp_sockets = map (on_entry id f) h.tcp_sockets }

unfoldable pub on_connection : ShutdownHandler → ShutdownHandler
on_connection h = record h {
  tcp_socket_id = suc h.tcp_socket_id;
  tcp_sockets =
      Dict.set h.tcp_socket_id (record { idle = true; active = 0; destroyed = false })
        h.tcp_sockets;
}

unfoldable pub on_socket_close : ℕ → ShutdownHandler → ShutdownHandler
on_socket_close id h = record h { tcp_sockets = Dict.delete id h.tcp_sockets }

abbrev pub begin_request : Socket → Socket
begin_request s = record s { idle = false; active = suc s.active }

unfoldable pub on_request : ℕ → ShutdownHandler → ShutdownHandler
on_request id h = update id begin_request h

abbrev pub finish_response : Bool → Socket → Socket
finish_response stopping s =
    let s' : Socket = record s { idle = true; active = s.active - 1 } in
    if stopping then destroy s' else s'

unfoldable pub on_finish : ℕ → ShutdownHandler → ShutdownHandler
on_finish id h = update id (finish_response h.stopping) h

abbrev pub destroy_if_idle : ℕ × Socket → ℕ × Socket
destroy_if_idle (id, s) = (id, if s.idle then destroy s else s)

-- `stop`, and the callback of the server's close.
unfoldable pub stop : ShutdownHandler → ShutdownHandler
stop h = record h { stopping = true; tcp_sockets = map destroy_if_idle h.tcp_sockets }

unfoldable pub on_server_closed : ShutdownHandler → ShutdownHandler
on_server_closed h = record h { tcp_socket_id = 0; stopping = false }

pub data Event : Type 0 where
  connects : Event
  requests : ℕ → Event
  finishes : ℕ → Event
  closes : ℕ → Event
  stops : Event
  server_closes : Event

unfoldable pub step : Event → ShutdownHandler → ShutdownHandler
step connects h = on_connection h
step (requests id) h = on_request id h
step (finishes id) h = on_finish id h
step (closes id) h = on_socket_close id h
step stops h = stop h
step server_closes h = on_server_closed h

unfoldable pub run : List Event → ShutdownHandler → ShutdownHandler
run [] h = h
run (e ∷ es) h = run es (step e h)
