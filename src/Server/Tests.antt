-- ===== src/Server/Tests.antt =====
-- A server that is started and stopped.
use Prim.Native.String.{String}
use dwn_server.Common.{◌≡◌, refl, arith, true, false, none, some, List, [], ◌∷◌, ◌++◌}
use dwn_server.Errors.{ok}
use dwn_server.Server.{
  stopped, started, Parts, DwnServerConfig, DwnServer, Dwn, new_server, Starting, starts, stops,
  continues, connects, closing_http, step, proceed_start, set_up_server, create_dwn_config,
  event_stream, set_up_api, close_dwn, stop_listening, removed, run, start,
}
use dwn_server.Server.Process.{Listener, set_process_handlers}
use dwn_server.Server.Runs.{own_listeners, has_handlers, run-listeners}
use dwn_server.Server.Restart.{IsStaying, stopping_events, stop_waits, stop_ends, start_after_stop}

abbrev parts : Parts
parts = record {
  RegistrationManager = String;
  EventStream = String;
  event_emitter_stream = "emitter";
  Stores = String;
}

abbrev config : DwnServerConfig
config = record { web_socket_support = true; event_stream_plugin_path = none }

abbrev works : Starting parts
works = record {
  registration_manager = ok "manager";
  load_plugin = λ path. ok path;
  stores = ok "stores";
  create_dwn = λ c. ok tt;
  create_http_api = ok tt;
  listen = ok tt;
}

abbrev others : List Listener
others = ("SIGINT", 7) ∷ []

abbrev dwn : Dwn parts
dwn = record {
  config =
      some (record { event_stream = some "emitter"; tenant_gate = "manager"; stores = "stores" });
  is_open = true;
}

-- A started server with a WebSocket.
abbrev server : DwnServer parts
server = record {
  server_state = started;
  process_handlers = some 0;
  dwn = some dwn;
  http_api = some (record { registration_manager = some "manager"; listening = true });
  ws_api = true;
  stopping = none;
  connections = 1;
  listeners = set_process_handlers 0 others;
  made = 1;
}

is_server : run parts (starts config works ∷ connects ∷ []) (new_server parts none others) ≡ server
unfolding run step start proceed_start set_up_server create_dwn_config event_stream set_up_api
is_server = refl

run-listeners_example :
    let s =
      run parts (starts config works ∷ stops ∷ continues ∷ []) (new_server parts none others) in
    (has_handlers parts s.server_state s.process_handlers ≡ true)
    × (s.listeners ≡ others ++ own_listeners parts s.server_state s.process_handlers)
run-listeners_example =
    run-listeners parts none others (starts config works ∷ stops ∷ continues ∷ [])

stop_ends_example :
    let s' = run parts (stopping_events parts 1) server in
    (s'.server_state ≡ stopped)
    × (s'.stopping ≡ none)
    × (s'.dwn ≡ close_dwn parts (some dwn))
    × (s'.http_api ≡ stop_listening parts server.http_api)
    × (s'.listeners ≡ removed parts (some 0) server.listeners)
stop_ends_example = stop_ends parts server refl refl

continues_stays : IsStaying parts continues
continues_stays = (λ h. absurd (cc h), λ h. absurd (cc h))

stop_waits_example :
    let s' = run parts (continues ∷ continues ∷ []) (run parts (stops ∷ continues ∷ []) server) in
    (s'.stopping ≡ some closing_http) × (s'.server_state ≡ started)
stop_waits_example =
    stop_waits parts (continues ∷ continues ∷ []) server (continues_stays, (continues_stays, tt))
      refl refl (omega arith)

start_after_stop_example :
    let s' = (start parts config works (run parts (stopping_events parts 1) server)).0 in
    (s'.server_state ≡ started)
    × (s'.dwn ≡ some (record dwn { is_open = false }))
    × (s'.http_api ≡ some (record { registration_manager = none; listening = true }))
start_after_stop_example = start_after_stop parts config works dwn server refl refl refl refl refl
