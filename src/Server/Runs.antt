-- ===== src/Server/Runs.antt =====
-- Runs of src/dwn-server.ts: the listeners of the process, and how a stop ends.
use dwn_server.Common.{
  ◌≡◌, ◌∙◌, sym, ap, ◌⊎◌, inl, inr, refl, Bool, true, false, Option, none, some, List, [], ◌∷◌,
  ◌++◌, Bool-cases, nat_beq,
}
use dwn_server.Errors.{Result, ok, throw, Result-cases}
use dwn_server.Server.{
  DwnServerState, stopped, started, is_started, Parts, DwnServerConfig, DwnServer, Dwn, new_server,
  DwnConfig, Starting, create_dwn_config, set_up_api, set_up_for, with_dwn, mark_started,
  set_up_server, proceed_start, start, begin_stop, continue_stop, continue_if, give_up, removed,
  Stopping, closing_dwn, closing_http, closing_ws, closing_sockets, Event, starts, stops, continues,
  fails, connects, leaves, if_free, step, run, listens,
}
use dwn_server.Server.Process.{
  Listener, ProcessHandlers, handlers_of, set_process_handlers_lem, remove_process_handlers,
  remove_process_handlers-set_process_handlers,
}
use mathlib.Core.List.{append-nil}

module _ (P : Parts) where
  -- The listeners of a server in the given state.
  abbrev pub own_listeners : DwnServerState → Option ProcessHandlers → List Listener
  own_listeners stopped h = []
  own_listeners started none = []
  own_listeners started (some h) = handlers_of h

  -- A started server keeps the handlers that it has set.
  abbrev pub has_handlers : DwnServerState → Option ProcessHandlers → Bool
  has_handlers stopped h = true
  has_handlers started none = false
  has_handlers started (some h) = true

  -- A stop is under way in a started server only.
  record IsTidy (before : List Listener) (s : DwnServer P) : Type 0 where
    phase : (s.stopping ≡ none) ⊎ (s.server_state ≡ started)
    own : s.listeners ≡ before ++ own_listeners s.server_state s.process_handlers
    pinned : has_handlers s.server_state s.process_handlers ≡ true

  -- What setting up the server leaves as it is.
  record IsSetUp (s s' : DwnServer P) : Type 0 where
    same_listeners : s'.listeners ≡ s.listeners
    same_state : s'.server_state ≡ s.server_state
    same_handlers : s'.process_handlers ≡ s.process_handlers
    same_phase : s'.stopping ≡ s.stopping

  same : (s : DwnServer P) → IsSetUp s s
  same s = record {
    same_listeners = refl;
    same_state = refl;
    same_handlers = refl;
    same_phase = refl;
  }

  set_up_api-IsSetUp :
      (config : DwnServerConfig) (o : Starting P) (m : Option P.RegistrationManager)
      (s : DwnServer P)
      → IsSetUp s (set_up_api P config o m s).0
  unfolding set_up_api
  set_up_api-IsSetUp config o m s = elim (Result-cases o.create_http_api) [
    | inr (e, broken) ↦ rw broken (same s)
    | inl (u, works) ↦ rw works (elim (Result-cases o.listen) [
      | inl (u', up) ↦ rw up (record {
        same_listeners = refl;
        same_state = refl;
        same_handlers = refl;
        same_phase = refl;
      })
      | inr (e, down) ↦ rw down (record {
        same_listeners = refl;
        same_state = refl;
        same_handlers = refl;
        same_phase = refl;
      })
    ])
  ]

  with_dwn-IsSetUp :
      (config : DwnServerConfig) (o : Starting P) (r : Result (DwnConfig P)) (s : DwnServer P)
      → IsSetUp s (with_dwn P config o r s).0
  with_dwn-IsSetUp config o (throw e) s = same s
  with_dwn-IsSetUp config o (ok c) s =
      let h =
        set_up_api-IsSetUp config o (some c.tenant_gate)
          (record s { dwn = some (record { config = some c; is_open = true }) }) in
      record {
        same_listeners = h.same_listeners;
        same_state = h.same_state;
        same_handlers = h.same_handlers;
        same_phase = h.same_phase;
      }

  set_up_for-IsSetUp :
      (config : DwnServerConfig) (o : Starting P) (d : Option (Dwn P)) (s : DwnServer P)
      → IsSetUp s (set_up_for P config o d s).0
  set_up_for-IsSetUp config o none s = with_dwn-IsSetUp config o (create_dwn_config P config o) s
  set_up_for-IsSetUp config o (some d) s = set_up_api-IsSetUp config o none s

  nothing_of :
      (before : List Listener) (x : DwnServerState) (h : Option ProcessHandlers)
      → x ≡ stopped
      → before ++ own_listeners x h ≡ before
  nothing_of before x h down = rw down (append-nil before)

  state_cases : (x : DwnServerState) → (x ≡ stopped) ⊎ (x ≡ started)
  state_cases stopped = inl refl
  state_cases started = inr refl

  mark_started-IsTidy :
      (before : List Listener) (s s' : DwnServer P) (r : Result (Unit {0}))
      → s.server_state ≡ stopped
      → IsTidy before s
      → IsSetUp s s'
      → IsTidy before (mark_started P (s', r)).0
  mark_started-IsTidy before s s' (throw e) down h k = record {
    phase = elim h.phase [
      | inl rests ↦ inl (k.same_phase ∙ rests)
      | inr up ↦ inr (k.same_state ∙ up)
    ];
    own = rw (k.same_listeners, k.same_state, k.same_handlers) h.own;
    pinned = rw (k.same_state, k.same_handlers) h.pinned;
  }
  mark_started-IsTidy before s s' (ok u) down h k = record {
    phase = inr refl;
    own =
        set_process_handlers_lem s'.made s'.listeners
        ∙ ap (λ ls. ls ++ handlers_of s'.made)
            (k.same_listeners ∙ h.own ∙ nothing_of before s.server_state s.process_handlers down);
    pinned = refl;
  }

  start-IsTidy :
      (config : DwnServerConfig) (o : Starting P) (before : List Listener) (s : DwnServer P)
      → IsTidy before s
      → IsTidy before (start P config o s).0
  unfolding start proceed_start set_up_server
  start-IsTidy config o before s h = elim (state_cases s.server_state) [
    | inr up ↦ rw (ap is_started up) h
    | inl down ↦
        let r = set_up_for P config o s.dwn s in
        rw (ap is_started down)
          (mark_started-IsTidy before s r.0 r.1 down h (set_up_for-IsSetUp config o s.dwn s))
  ]

  if_free-IsTidy :
      (before : List Listener) (p : Option Stopping) (s s' : DwnServer P)
      → IsTidy before s
      → IsTidy before s'
      → IsTidy before (if_free P p s s')
  if_free-IsTidy before none s s' h h' = h'
  if_free-IsTidy before (some p) s s' h h' = h

  begin_stop-IsTidy :
      (before : List Listener) (s : DwnServer P) → IsTidy before s → IsTidy before (begin_stop P s)
  unfolding begin_stop
  begin_stop-IsTidy before s h = elim (state_cases s.server_state) [
    | inl down ↦ rw (ap is_started down) h
    | inr up ↦ rw (ap is_started up) (record { phase = inr up; own = h.own; pinned = h.pinned })
  ]

  removed_lem :
      (before ls : List Listener) (h : Option ProcessHandlers)
      → ls ≡ before ++ own_listeners started h
      → removed P h ls ≡ before
  removed_lem before ls none own = own ∙ append-nil before
  removed_lem before ls (some n) own =
      ap (remove_process_handlers n) (own ∙ sym (set_process_handlers_lem n before))
      ∙ remove_process_handlers-set_process_handlers n before

  continue_stop-IsTidy :
      (before : List Listener) (p : Stopping) (s : DwnServer P)
      → s.server_state ≡ started
      → IsTidy before s
      → IsTidy before (continue_stop P p s)
  unfolding continue_stop
  continue_stop-IsTidy before closing_dwn s up h = record {
    phase = inr up;
    own = h.own;
    pinned = h.pinned;
  }
  continue_stop-IsTidy before closing_http s up h = elim (Bool-cases (nat_beq s.connections 0)) [
    | inl left ↦ rw left (record { phase = inr up; own = h.own; pinned = h.pinned })
    | inr open_ ↦ rw open_ h
  ]
  continue_stop-IsTidy before closing_ws s up h = record {
    phase = inr up;
    own = h.own;
    pinned = h.pinned;
  }
  continue_stop-IsTidy before closing_sockets s up h = record {
    phase = inl refl;
    own =
        removed_lem before s.listeners s.process_handlers
          (h.own ∙ ap (λ x. before ++ own_listeners x s.process_handlers) up)
        ∙ sym (append-nil before);
    pinned = refl;
  }

  continue_if-IsTidy :
      (before : List Listener) (p : Option Stopping) (s : DwnServer P)
      → s.stopping ≡ p
      → IsTidy before s
      → IsTidy before (continue_if P p s)
  continue_if-IsTidy before none s is h = h
  continue_if-IsTidy before (some p) s is h = elim h.phase [
    | inl rests ↦ absurd (cc (sym is ∙ rests))
    | inr up ↦ continue_stop-IsTidy before p s up h
  ]

  give_up-IsTidy :
      (before : List Listener) (p : Option Stopping) (s : DwnServer P)
      → IsTidy before s
      → IsTidy before (give_up P p s)
  give_up-IsTidy before none s h = h
  give_up-IsTidy before (some closing_dwn) s h = record {
    phase = inl refl;
    own = h.own;
    pinned = h.pinned;
  }
  give_up-IsTidy before (some closing_http) s h = record {
    phase = inl refl;
    own = h.own;
    pinned = h.pinned;
  }
  give_up-IsTidy before (some closing_ws) s h = record {
    phase = inl refl;
    own = h.own;
    pinned = h.pinned;
  }
  give_up-IsTidy before (some closing_sockets) s h = h

  step-IsTidy :
      (before : List Listener) (e : Event P) (s : DwnServer P)
      → IsTidy before s
      → IsTidy before (step P e s)
  unfolding step
  step-IsTidy before (starts config o) s h =
      if_free-IsTidy before s.stopping s (start P config o s).0 h (start-IsTidy config o before s h)
  step-IsTidy before stops s h =
      if_free-IsTidy before s.stopping s (begin_stop P s) h (begin_stop-IsTidy before s h)
  step-IsTidy before continues s h = continue_if-IsTidy before s.stopping s refl h
  step-IsTidy before fails s h = give_up-IsTidy before s.stopping s h
  step-IsTidy before connects s h = elim (Bool-cases (listens P s.http_api)) [
    | inl up ↦ rw up (record { phase = h.phase; own = h.own; pinned = h.pinned })
    | inr down ↦ rw down h
  ]
  step-IsTidy before leaves s h = record { phase = h.phase; own = h.own; pinned = h.pinned }

  run-IsTidy :
      (before : List Listener) (es : List (Event P)) (s : DwnServer P)
      → IsTidy before s
      → IsTidy before (run P es s)
  unfolding run
  run-IsTidy before [] s h = h
  run-IsTidy before (e ∷ es) s h = run-IsTidy before es (step P e s) (step-IsTidy before e s h)

  -- However often a server is started and stopped, and whatever fails while it starts or stops: while
  -- it is started it has set handlers, and the process has the four listeners of those beside the
  -- listeners that it had before; while it is stopped the process has only the latter.
  pub run-listeners :
      (dwn : Option (Dwn P)) (before : List Listener) (es : List (Event P))
      → let s = run P es (new_server P dwn before) in
        (has_handlers s.server_state s.process_handlers ≡ true)
        × (s.listeners ≡ before ++ own_listeners s.server_state s.process_handlers)
  run-listeners dwn before es =
      let tidy =
        run-IsTidy before es (new_server P dwn before)
          (record { phase = inl refl; own = sym (append-nil before); pinned = refl }) in
      (tidy.pinned, tidy.own)
