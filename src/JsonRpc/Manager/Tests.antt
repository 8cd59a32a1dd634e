-- ===== src/JsonRpc/Manager/Tests.antt =====
-- Two sockets of a WebSocket server.
use Prim.Native.String.{String}
use dwn_server.Common.{◌≡◌, refl, List, [], ◌∷◌, All, nat_eq}
use dwn_server.Common.Dict
use dwn_server.Errors.{Result, throw, other_error}
use dwn_server.JsonRpc.{Dwn, JsonRpcRequest}
use dwn_server.JsonRpc.Socket.{pongs, closes, closed_all, step as socket_step}
use dwn_server.JsonRpc.Connection.{begin_close, finish_close, close_all as close_subscriptions}
use dwn_server.JsonRpc.Manager.{
  new_manager, connect, close_all, Event, connection, happens, on_event, step, run,
}
use dwn_server.JsonRpc.Manager.Deaf.{IsDeaf}
use dwn_server.JsonRpc.Manager.Laws.{close_all-IsDeaf}

abbrev dwn : Dwn
dwn = record {
  Message = String;
  interface_name = λ m. "Records";
  method_name = λ m. "Query";
  Stream = Unit {0};
  Json = String;
}

abbrev parse : String → Result (JsonRpcRequest dwn)
parse s = throw (other_error "no JSON")

abbrev two_sockets : List (Event dwn parse)
two_sockets =
    connection 1
    ∷ connection 2
    ∷ happens 1 closed_all
    ∷ happens 1 closes
    ∷ happens 1 closed_all
    ∷ happens 2 pongs
    ∷ []

one_left : (run dwn parse two_sockets (new_manager dwn)).connections ≡ (2, tt) ∷ []
unfolding run step connect on_event socket_step Dict.set Dict.has Dict.delete begin_close
    finish_close close_subscriptions
one_left = refl

close_all-IsDeaf_example :
    All
      (λ e. IsDeaf dwn e.1.connection)
      (close_all dwn parse (run dwn parse two_sockets (new_manager dwn))).sockets
close_all-IsDeaf_example = close_all-IsDeaf dwn parse two_sockets
