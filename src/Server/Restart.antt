-- ===== src/Server/Restart.antt =====
-- How a stop of src/dwn-server.ts ends, and what a start after it does.
use dwn_server.Common.{
  ℕ, zero, suc, ◌-◌, ◌<◌, ◌≢◌, ◌≡◌, ◌∙◌, sym, ap, subst, inl, inr, refl, true, false, Option, none,
  some, List, [], ◌∷◌, ◌++◌, arith, All, Bool-cases, nat_beq,
}
use dwn_server.Errors.{ok}
use dwn_server.Server.{
  DwnServerState, stopped, started, is_started, Parts, DwnServerConfig, DwnServer, Dwn, Starting,
  set_up_api, set_up_server, set_up_for, mark_started, proceed_start, start, begin_stop, close_dwn,
  stop_listening, removed, continue_if, if_free, Stopping, continue_stop, closing_dwn, closing_http,
  Event, starts, stops, continues, fails, connects, leaves, step, run, listens,
}

module _ (P : Parts) where
  -- An event that is neither the end of a connection nor the failure of a call.
  abbrev pub IsStaying : Event P → Type 0
  IsStaying e = (e ≢ leaves) × (e ≢ fails)

  if_free-some :
      (p : Option Stopping) (phase : Stopping) (s s' : DwnServer P)
      → p ≡ some phase
      → if_free P p s s' ≡ s
  if_free-some none phase s s' h = absurd (cc)
  if_free-some (some q) phase s s' h = refl

  if_free-none : (p : Option Stopping) (s s' : DwnServer P) → p ≡ none → if_free P p s s' ≡ s'
  if_free-none none s s' h = refl
  if_free-none (some q) s s' h = absurd (cc)

  continue_if-some :
      (p : Option Stopping) (phase : Stopping) (s : DwnServer P)
      → p ≡ some phase
      → continue_if P p s ≡ continue_stop P phase s
  continue_if-some none phase s h = absurd (cc)
  continue_if-some (some q) phase s h = ap (λ q. continue_stop P q s) (cc h)

  -- The stop waits for the connections.
  abbrev IsStuck : DwnServerState → DwnServer P → Type 0
  IsStuck state s =
      (s.stopping ≡ some closing_http) × (0 < s.connections) × (s.server_state ≡ state)

  step-IsStuck :
      (e : Event P) (state : DwnServerState) (s : DwnServer P)
      → IsStaying e
      → IsStuck state s
      → IsStuck state (step P e s)
  unfolding step continue_stop
  step-IsStuck (starts config o) state s stays h =
      subst (IsStuck state)
        (sym (if_free-some s.stopping closing_http s (start P config o s).0 h.0)) h
  step-IsStuck stops state s stays h =
      subst (IsStuck state) (sym (if_free-some s.stopping closing_http s (begin_stop P s) h.0)) h
  step-IsStuck continues state s stays (waits, some_, is) =
      let full : nat_beq s.connections 0 ≡ false = ground arith in
      let idle : continue_stop P closing_http s ≡ s = rw full refl in
      subst (IsStuck state) (sym (continue_if-some s.stopping closing_http s waits ∙ idle))
        (waits, some_, is)
  step-IsStuck connects state s stays (waits, some_, is) =
      elim (Bool-cases (listens P s.http_api)) [
        | inl up ↦ rw up (waits, omega arith, is)
        | inr down ↦ rw down (waits, some_, is)
      ]
  step-IsStuck leaves state s stays h = absurd (stays.0 refl)
  step-IsStuck fails state s stays h = absurd (stays.1 refl)

  run-IsStuck :
      (es : List (Event P)) (state : DwnServerState) (s : DwnServer P)
      → All IsStaying es
      → IsStuck state s
      → IsStuck state (run P es s)
  unfolding run
  run-IsStuck [] state s stays h = h
  run-IsStuck (e ∷ es) state s (stay, stays) h =
      run-IsStuck es state (step P e s) stays (step-IsStuck e state s stay h)

  step_stops :
      (s : DwnServer P)
      → s.server_state ≡ started
      → s.stopping ≡ none
      → step P stops s ≡ record s { stopping = some closing_dwn }
  unfolding step begin_stop
  step_stops s up rests =
      if_free-none s.stopping s (begin_stop P s) rests ∙ rw (ap is_started up) refl

  -- The server once the DWN is closed and the HTTP server is asked to close.
  abbrev closing : DwnServer P → DwnServer P
  closing s = record s {
    dwn = close_dwn P s.dwn;
    http_api = stop_listening P s.http_api;
    stopping = some closing_http;
  }

  step-closing :
      (s : DwnServer P) → step P continues (record s { stopping = some closing_dwn }) ≡ closing s
  unfolding step continue_stop
  step-closing s = refl

  first_steps :
      (s : DwnServer P)
      → s.server_state ≡ started
      → s.stopping ≡ none
      → run P (stops ∷ continues ∷ []) s ≡ closing s
  unfolding run
  first_steps s up rests = ap (step P continues) (step_stops s up rests) ∙ step-closing s

  -- A stop of a started server that has a connection does not come to the WebSockets, to the idle
  -- sockets or to its end as long as no connection leaves and no call fails, whatever else happens.
  pub stop_waits :
      (es : List (Event P)) (s : DwnServer P)
      → All IsStaying es
      → s.server_state ≡ started
      → s.stopping ≡ none
      → 0 < s.connections
      → let s' = run P es (run P (stops ∷ continues ∷ []) s) in
        (s'.stopping ≡ some closing_http) × (s'.server_state ≡ started)
  stop_waits es s stays up rests some_ =
      let stuck = run-IsStuck es started (closing s) stays (refl, some_, up) in
      rw (first_steps s up rests) (stuck.0, stuck.2)

  -- Every connection leaves.
  abbrev pub leave_all : ℕ → List (Event P)
  leave_all zero = []
  leave_all (suc n) = leaves ∷ leave_all n

  run-leave_all :
      (n : ℕ) (s : DwnServer P)
      → run P (leave_all n) s ≡ record s { connections = s.connections - n }
  unfolding run step
  run-leave_all zero s = ap (λ (k : ℕ). record s { connections = k }) (omega arith)
  run-leave_all (suc n) s =
      run-leave_all n (step P leaves s) ∙ ap (λ (k : ℕ). record s { connections = k }) (omega arith)

  -- The server that has stopped.
  abbrev pub at_rest : DwnServer P → DwnServer P
  at_rest s = record s {
    server_state = stopped;
    dwn = close_dwn P s.dwn;
    http_api = stop_listening P s.http_api;
    stopping = none;
    connections = 0;
    listeners = removed P s.process_handlers s.listeners;
  }

  last_steps :
      (s : DwnServer P)
      → run P (continues ∷ continues ∷ continues ∷ []) (record (closing s) { connections = 0 })
        ≡ at_rest s
  unfolding run step continue_stop
  last_steps s = elim (Bool-cases s.ws_api) [ inl ws ↦ rw ws refl | inr plain ↦ rw plain refl ]

  run-append :
      (es es' : List (Event P)) (s : DwnServer P) → run P (es ++ es') s ≡ run P es' (run P es s)
  unfolding run
  run-append [] es' s = refl
  run-append (e ∷ es) es' s = run-append es es' (step P e s)

  -- A stop whose connections leave while it waits for them.
  abbrev pub stopping_events : ℕ → List (Event P)
  stopping_events n =
      (stops ∷ continues ∷ []) ++ leave_all n ++ continues ∷ continues ∷ continues ∷ []

  run_stopping :
      (s : DwnServer P)
      → s.server_state ≡ started
      → s.stopping ≡ none
      → run P (stopping_events s.connections) s ≡ at_rest s
  run_stopping s up rests =
      let n = s.connections in
      let last : List (Event P) = continues ∷ continues ∷ continues ∷ [] in
      let gone : record (closing s) { connections = n - n }
          ≡ record (closing s) { connections = 0 } =
        ap (λ (k : ℕ). record (closing s) { connections = k }) (omega arith) in
      run-append ((stops ∷ continues ∷ []) ++ leave_all n) last s
      ∙ ap (run P last) (
          run-append (stops ∷ continues ∷ []) (leave_all n) s
          ∙ ap (run P (leave_all n)) (first_steps s up rests)
          ∙ run-leave_all n (closing s)
          ∙ gone)
      ∙ last_steps s

  -- A stop of a started server comes to its end when its connections leave: the DWN is closed, the
  -- HTTP server does not listen, and the listeners of the process are removed.
  pub stop_ends :
      (s : DwnServer P)
      → s.server_state ≡ started
      → s.stopping ≡ none
      → let s' = run P (stopping_events s.connections) s in
        (s'.server_state ≡ stopped)
        × (s'.stopping ≡ none)
        × (s'.dwn ≡ close_dwn P s.dwn)
        × (s'.http_api ≡ stop_listening P s.http_api)
        × (s'.listeners ≡ removed P s.process_handlers s.listeners)
  stop_ends s up rests = rw (run_stopping s up rests) (refl, refl, refl, refl, refl)

  start_lem :
      (config : DwnServerConfig) (o : Starting P) (d : Dwn P) (s : DwnServer P)
      → s.server_state ≡ stopped
      → s.dwn ≡ some d
      → o.create_http_api ≡ ok tt
      → o.listen ≡ ok tt
      → let s' = (start P config o s).0 in
        (s'.server_state ≡ started)
        × (s'.dwn ≡ some d)
        × (s'.http_api ≡ some (record { registration_manager = none; listening = true }))
  unfolding start proceed_start set_up_server set_up_api
  start_lem config o d s down there created up =
      let e : start P config o s ≡ mark_started P (set_up_for P config o (some d) s) =
        rw (ap is_started down) (ap (λ x. mark_started P (set_up_for P config o x s)) there) in
      rw e (rw (created, up) (refl, there, refl))

  -- A server that is started again after a stop serves the DWN that the stop closed, and has no
  -- registration manager, whatever its configuration asks for.
  pub start_after_stop :
      (config : DwnServerConfig) (o : Starting P) (d : Dwn P) (s : DwnServer P)
      → s.server_state ≡ started
      → s.stopping ≡ none
      → s.dwn ≡ some d
      → o.create_http_api ≡ ok tt
      → o.listen ≡ ok tt
      → let s' = (start P config o (run P (stopping_events s.connections) s)).0 in
        (s'.server_state ≡ started)
        × (s'.dwn ≡ some (record d { is_open = false }))
        × (s'.http_api ≡ some (record { registration_manager = none; listening = true }))
  start_after_stop config o d s up rests there created listening = rw (run_stopping s up rests) (
      start_lem config o (record d { is_open = false }) (at_rest s) refl (ap (close_dwn P) there)
        created listening)
