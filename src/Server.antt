-- ===== src/Server.antt =====
-- src/dwn-server.ts: starting and stopping the server. What the calls of other code return stands in
-- `Starting`; `stop` is a machine that waits at each `await`.
pub mod Process
pub mod Runs
pub mod Restart
mod Tests
use Prim.Native.String.{String}
use dwn_server.Common.{
  ℕ, suc, ◌-◌, Bool, true, false, Option, none, some, List, [], ◌∷◌, if◌then◌else◌, nat_beq, ◌==◌,
  string_eq,
}
use dwn_server.Errors.{Result, ok, throw, ◌>>=◌, ◌>>◌}
use dwn_server.Server.Process.{
  Listener, ProcessHandlers, set_process_handlers, remove_process_handlers,
}

pub data DwnServerState : Type 0 where
  stopped : DwnServerState
  started : DwnServerState

abbrev pub is_started : DwnServerState → Bool
is_started stopped = false
is_started started = true

-- Registration managers, event streams with the default one, and the four stores of a DWN.
pub record Parts : Type 1 where
  pub RegistrationManager : Type 0
  pub EventStream : Type 0
  pub event_emitter_stream : EventStream
  pub Stores : Type 0

-- The part of the configuration that the server itself reads.
pub record DwnServerConfig : Type 0 where
  pub web_socket_support : Bool
  pub event_stream_plugin_path : Option String

-- Where a call of `stop` waits.
pub data Stopping : Type 0 where
  closing_dwn : Stopping
  closing_http : Stopping
  closing_ws : Stopping
  closing_sockets : Stopping

module _ (P : Parts) where
  open P use {RegistrationManager, EventStream, event_emitter_stream, Stores}

  -- What `getDwnConfig` gives, without the DID resolver, which is passed on.
  pub record DwnConfig : Type 0 where
    pub event_stream : Option EventStream
    pub tenant_gate : RegistrationManager
    pub stores : Stores

  -- A DWN; one that the caller supplied has no configuration of the server's.
  pub record Dwn : Type 0 where
    pub config : Option DwnConfig
    pub is_open : Bool

  pub record HttpApi : Type 0 where
    pub registration_manager : Option RegistrationManager
    pub listening : Bool

  -- `ws_api` says whether the field has a value; `connections` counts the connections of the HTTP
  -- server, those of WebSockets included, which Node keeps; `listeners` are the process's, and
  -- `made` the number of calls of `setProcessHandlers`.
  pub record DwnServer : Type 0 where
    pub server_state : DwnServerState
    pub process_handlers : Option ProcessHandlers
    pub dwn : Option Dwn
    pub http_api : Option HttpApi
    pub ws_api : Bool
    pub stopping : Option Stopping
    pub connections : ℕ
    pub listeners : List Listener
    pub made : ℕ

  -- `new DwnServer({ dwn })`
  abbrev pub new_server : Option Dwn → List Listener → DwnServer
  new_server dwn listeners = record {
    server_state = stopped;
    process_handlers = none;
    dwn = dwn;
    http_api = none;
    ws_api = false;
    stopping = none;
    connections = 0;
    listeners = listeners;
    made = 0;
  }

  -- `RegistrationManager.create`, the plug-in at a path, `getDwnConfig`'s stores, `Dwn.create`,
  -- `HttpApi.create` and `HttpApi.start`.
  pub record Starting : Type 0 where
    pub registration_manager : Result RegistrationManager
    pub load_plugin : String → Result EventStream
    pub stores : Result Stores
    pub create_dwn : DwnConfig → Result (Unit {0})
    pub create_http_api : Result (Unit {0})
    pub listen : Result (Unit {0})

  abbrev plugin_or_default : Starting → Option String → Result EventStream
  plugin_or_default o none = ok event_emitter_stream
  plugin_or_default o (some path) =
      if path == "" then ok event_emitter_stream else o.load_plugin path

  abbrev some_stream : Result EventStream → Result (Option EventStream)
  some_stream r = r >>= λ e. ok (some e)

  unfoldable pub event_stream : DwnServerConfig → Starting → Result (Option EventStream)
  event_stream config o =
      if config.web_socket_support
      then some_stream (plugin_or_default o config.event_stream_plugin_path)
      else ok none

  -- The first part of `#setupServer`: the DWN's configuration, once the DWN is created.
  unfoldable pub create_dwn_config : DwnServerConfig → Starting → Result DwnConfig
  create_dwn_config config o = do
    manager ← o.registration_manager
    stream ← event_stream config o
    stores ← o.stores
    let c : DwnConfig = record { event_stream = stream; tenant_gate = manager; stores = stores }
    _ ← o.create_dwn c
    ok c

  abbrev pub enable_web_sockets : DwnServerConfig → DwnServer → DwnServer
  enable_web_sockets config s = record s {
    ws_api = if config.web_socket_support then true else s.ws_api;
  }

  abbrev pub open_http_api : Option RegistrationManager → Bool → DwnServer → DwnServer
  open_http_api manager listening s = record s {
    http_api = some (record { registration_manager = manager; listening = listening });
  }

  abbrev after_listen :
      DwnServerConfig
      → Option RegistrationManager
      → Result (Unit {0})
      → DwnServer
      → DwnServer × Result (Unit {0})
  after_listen config manager (throw e) s = (open_http_api manager false s, throw e)
  after_listen config manager (ok _) s =
      (enable_web_sockets config (open_http_api manager true s), ok tt)

  abbrev after_create :
      DwnServerConfig
      → Starting
      → Option RegistrationManager
      → Result (Unit {0})
      → DwnServer
      → DwnServer × Result (Unit {0})
  after_create config o manager (throw e) s = (s, throw e)
  after_create config o manager (ok _) s = after_listen config manager o.listen s

  -- The second part of `#setupServer`. A server that cannot listen leaves the promise pending; here
  -- that is a throw.
  unfoldable pub set_up_api :
      DwnServerConfig
      → Starting
      → Option RegistrationManager
      → DwnServer
      → DwnServer × Result (Unit {0})
  set_up_api config o manager s = after_create config o manager o.create_http_api s

  abbrev with_dwn :
      DwnServerConfig → Starting → Result DwnConfig → DwnServer → DwnServer × Result (Unit {0})
  with_dwn config o (throw e) s = (s, throw e)
  with_dwn config o (ok c) s =
      set_up_api config o (some c.tenant_gate)
        (record s { dwn = some (record { config = some c; is_open = true }) })

  abbrev set_up_for :
      DwnServerConfig → Starting → Option Dwn → DwnServer → DwnServer × Result (Unit {0})
  set_up_for config o none s = with_dwn config o (create_dwn_config config o) s
  set_up_for config o (some dwn) s = set_up_api config o none s

  -- `#setupServer`: the registration manager is created with the DWN only.
  unfoldable pub set_up_server :
      DwnServerConfig → Starting → DwnServer → DwnServer × Result (Unit {0})
  set_up_server config o s = set_up_for config o s.dwn s

  abbrev mark_started : DwnServer × Result (Unit {0}) → DwnServer × Result (Unit {0})
  mark_started (s, throw e) = (s, throw e)
  mark_started (s, ok _) = (
    record s {
      process_handlers = some s.made;
      listeners = set_process_handlers s.made s.listeners;
      made = suc s.made;
      server_state = started;
    },
    ok tt,
  )

  -- `start` from its guard on.
  unfoldable pub proceed_start :
      DwnServerConfig → Starting → DwnServer → DwnServer × Result (Unit {0})
  proceed_start config o s = mark_started (set_up_server config o s)

  unfoldable pub start : DwnServerConfig → Starting → DwnServer → DwnServer × Result (Unit {0})
  start config o s = if is_started s.server_state then (s, ok tt) else proceed_start config o s

  -- `stop` up to its first `await`.
  unfoldable pub begin_stop : DwnServer → DwnServer
  begin_stop s = if is_started s.server_state then record s { stopping = some closing_dwn } else s

  abbrev pub close_dwn : Option Dwn → Option Dwn
  close_dwn none = none
  close_dwn (some d) = some (record d { is_open = false })

  abbrev pub stop_listening : Option HttpApi → Option HttpApi
  stop_listening none = none
  stop_listening (some api) = some (record api { listening = false })

  abbrev removed : Option ProcessHandlers → List Listener → List Listener
  removed none ls = ls
  removed (some h) ls = remove_process_handlers h ls

  -- The rest of `stop` from one `await` to the next. The close of Node's HTTP server has no end
  -- while a connection is open.
  unfoldable pub continue_stop : Stopping → DwnServer → DwnServer
  continue_stop closing_dwn s = record s {
    dwn = close_dwn s.dwn;
    http_api = stop_listening s.http_api;
    stopping = some closing_http;
  }
  continue_stop closing_http s =
      if nat_beq s.connections 0
      then record s { stopping = some (if s.ws_api then closing_ws else closing_sockets) }
      else s
  continue_stop closing_ws s = record s { stopping = some closing_sockets }
  continue_stop closing_sockets s = record s {
    stopping = none;
    listeners = removed s.process_handlers s.listeners;
    server_state = stopped;
  }

  abbrev pub continue_if : Option Stopping → DwnServer → DwnServer
  continue_if none s = s
  continue_if (some phase) s = continue_stop phase s

  -- A call that `stop` waits for fails, and the promise of `stop` is rejected; that of the shutdown
  -- handler cannot fail.
  abbrev pub give_up : Option Stopping → DwnServer → DwnServer
  give_up none s = s
  give_up (some closing_dwn) s = record s { stopping = none }
  give_up (some closing_http) s = record s { stopping = none }
  give_up (some closing_ws) s = record s { stopping = none }
  give_up (some closing_sockets) s = s

  -- `continues` is the end of what a call of `stop` waits for, and `fails` its failure. A call of `start` or of `stop` is made
  -- while none is under way.
  pub data Event : Type 0 where
    starts : DwnServerConfig → Starting → Event
    stops : Event
    continues : Event
    fails : Event
    connects : Event
    leaves : Event

  abbrev if_free : Option Stopping → DwnServer → DwnServer → DwnServer
  if_free none s s' = s'
  if_free (some phase) s s' = s

  abbrev listens : Option HttpApi → Bool
  listens none = false
  listens (some api) = api.listening

  unfoldable pub step : Event → DwnServer → DwnServer
  step (starts config o) s = if_free s.stopping s (start config o s).0
  step stops s = if_free s.stopping s (begin_stop s)
  step continues s = continue_if s.stopping s
  step fails s = give_up s.stopping s
  step connects s = if listens s.http_api then record s { connections = suc s.connections } else s
  step leaves s = record s { connections = s.connections - 1 }

  unfoldable pub run : List Event → DwnServer → DwnServer
  run [] s = s
  run (e ∷ es) s = run es (step e s)
