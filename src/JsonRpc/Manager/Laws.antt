-- ===== src/JsonRpc/Manager/Laws.antt =====
-- The manager's map against the connections that run.
use Prim.Native.String.{String}
use dwn_server.Common.{
  ℕ, ◌≡◌, ◌∙◌, sym, inl, inr, ◌⊎◌, true, false, Bool-cases, List, [], ◌∷◌, arith, All, All-map,
  ◌&&◌, map, nat_beq, nat_beq_iff, nat_eq,
}
use dwn_server.Common.Dict
use dwn_server.Errors.{Result}
use dwn_server.JsonRpc.{id_eq, Dwn, JsonRpcRequest}
use dwn_server.JsonRpc.Socket.{State, Event as SocketEvent, closes, step as socket_step}
use dwn_server.JsonRpc.Manager.{
  ConnectionManager, new_manager, connect, update, is_closed_all, close_all, Event, connection,
  close, happens, may_happen, is_open, guarded_step, is_over, on_event, step, run,
}
use dwn_server.JsonRpc.Manager.Deaf.{IsDeaf, closes-IsDeaf, socket_step-IsDeaf}

module _ (D : Dwn) (parse : String → Result (JsonRpcRequest D)) where
  -- A connection that runs is in the map.
  abbrev IsManaged : List (ℕ × Unit {0}) → ℕ × State D → Type 0
  IsManaged connections (n, s) = (Dict.has n connections ≡ true) ⊎ IsDeaf D s.connection

  guarded_step-IsDeaf :
      (e : SocketEvent D) (s : State D)
      → IsDeaf D s.connection
      → IsDeaf D (guarded_step D parse e s).connection
  guarded_step-IsDeaf e s h = elim (Bool-cases (may_happen D parse e s)) [
    | inl may ↦ rw may (socket_step-IsDeaf D parse e s h)
    | inr may_not ↦ rw may_not h
  ]

  IsDeaf-of :
      (n : ℕ) (s : State D) (connections : List (ℕ × Unit {0}))
      → Dict.has n connections ≡ false
      → IsManaged connections (n, s)
      → IsDeaf D s.connection
  IsDeaf-of n s connections gone (inl there) = absurd (cc (sym gone ∙ there))
  IsDeaf-of n s connections gone (inr deaf) = deaf

  -- An event of one socket that does not end its close.
  event-IsManaged :
      (socket : ℕ) (e : SocketEvent D) (connections : List (ℕ × Unit {0})) (ss : List (ℕ × State D))
      → All (IsManaged connections) ss
      → All
          (IsManaged connections)
          (map (update D (guarded_step D parse e) (λ n. nat_beq n socket)) ss)
  event-IsManaged socket e connections [] hs = tt
  event-IsManaged socket e connections ((n, s) ∷ ss) (h, hs) = (
    elim h [
      | inl there ↦ inl there
      | inr deaf ↦ inr (elim (Bool-cases (nat_beq n socket)) [
        | inl same ↦ rw same (guarded_step-IsDeaf e s deaf)
        | inr other ↦ rw other deaf
      ])
    ],
    event-IsManaged socket e connections ss hs,
  )

  is_open-IsDeaf : (s : State D) → is_open D parse s ≡ false → IsDeaf D s.connection
  is_open-IsDeaf s h = record { deaf = ground arith; stopped = ground arith }

  -- The entry of the socket that is over leaves the map.
  over-IsManaged :
      (socket : ℕ) (connections : List (ℕ × Unit {0})) (ss : List (ℕ × State D))
      → is_over D parse socket ss ≡ true
      → All (IsManaged connections) ss
      → All (IsManaged (Dict.delete socket connections)) ss
  over-IsManaged socket connections [] over hs = tt
  over-IsManaged socket connections ((n, s) ∷ ss) over (h, hs) = (
    elim (Bool-cases (nat_beq n socket)) [
      | inl same ↦ inr (is_open-IsDeaf s (ground (arith, over, same)))
      | inr other ↦ elim h [
        | inl there ↦ inl (
            Dict.has-delete_ne socket n connections
              (ground (arith, other, nat_beq_iff socket n, nat_beq_iff n socket))
            ∙ there)
        | inr deaf ↦ inr deaf
      ]
    ],
    over-IsManaged socket connections ss (ground (arith, over)) hs,
  )

  wider-IsManaged :
      (socket : ℕ) (connections : List (ℕ × Unit {0})) (e : ℕ × State D)
      → IsManaged connections e
      → IsManaged (Dict.set socket tt connections) e
  wider-IsManaged socket connections (n, s) (inl there) =
      inl (ground (arith, Dict.has-set socket n tt connections, there))
  wider-IsManaged socket connections (n, s) (inr deaf) = inr deaf

  closed_one :
      (connections : List (ℕ × Unit {0})) (ss : List (ℕ × State D))
      → All (IsManaged connections) ss
      → All
          (λ e. IsDeaf D e.1.connection)
          (map (update D (socket_step D parse closes) (λ n. Dict.has n connections)) ss)
  closed_one connections [] hs = tt
  closed_one connections ((n, s) ∷ ss) (h, hs) = (
    elim (Bool-cases (Dict.has n connections)) [
      | inl managed ↦ rw managed (closes-IsDeaf D parse s)
      | inr gone ↦ rw gone (IsDeaf-of n s connections gone h)
    ],
    closed_one connections ss hs,
  )

  unfoldable AllManaged : ConnectionManager D → Type 0
  AllManaged m = All (IsManaged m.connections) m.sockets

  connect-AllManaged :
      (socket : ℕ) (m : ConnectionManager D) → AllManaged m → AllManaged (connect D socket m)
  unfolding connect AllManaged
  connect-AllManaged socket m hs =
      Dict.All-set (IsManaged (Dict.set socket tt m.connections)) socket _ m.sockets
        (inl
          (ground (arith, Dict.has-set socket socket tt m.connections, nat_beq_iff socket socket)))
        (All-map (IsManaged m.connections) (IsManaged (Dict.set socket tt m.connections))
          (wider-IsManaged socket m.connections) m.sockets hs)

  on_event-AllManaged :
      (socket : ℕ) (e : SocketEvent D) (m : ConnectionManager D)
      → AllManaged m
      → AllManaged (on_event D parse socket e m)
  unfolding on_event AllManaged
  on_event-AllManaged socket e m hs =
      elim (Bool-cases (is_closed_all D e && is_over D parse socket m.sockets)) [
        | inr goes_on ↦ rw goes_on (event-IsManaged socket e m.connections m.sockets hs)
        | inl over ↦ rw over (
            event-IsManaged socket e (Dict.delete socket m.connections) m.sockets
              (over-IsManaged socket m.connections m.sockets (ground (arith, over)) hs))
      ]

  closing-IsDeaf :
      (m : ConnectionManager D)
      → AllManaged m
      → All (λ e. IsDeaf D e.1.connection) (close_all D parse m).sockets
  unfolding close_all AllManaged
  closing-IsDeaf m hs = closed_one m.connections m.sockets hs

  step-AllManaged :
      (e : Event D parse) (m : ConnectionManager D) → AllManaged m → AllManaged (step D parse e m)
  unfolding step AllManaged
  step-AllManaged (connection socket) m hs = elim (Bool-cases (Dict.has socket m.sockets)) [
    | inl there ↦ rw there hs
    | inr new ↦ rw new (connect-AllManaged socket m hs)
  ]
  step-AllManaged close m hs =
      All-map (λ e. IsDeaf D e.1.connection) (IsManaged (close_all D parse m).connections)
        (λ e h. inr h) (close_all D parse m).sockets (closing-IsDeaf m hs)
  step-AllManaged (happens socket e) m hs = on_event-AllManaged socket e m hs

  run-AllManaged :
      (es : List (Event D parse)) (m : ConnectionManager D)
      → AllManaged m
      → AllManaged (run D parse es m)
  unfolding run
  run-AllManaged [] m hs = hs
  run-AllManaged (e ∷ es) m hs = run-AllManaged es (step D parse e m) (step-AllManaged e m hs)

  -- Whatever sockets connect, and whatever happens to them and to their connections, the close of
  -- the WebSocket server reaches every connection that still runs: none of those that were ever
  -- made has a listener or a timer afterwards.
  pub close_all-IsDeaf :
      (es : List (Event D parse))
      → All
          (λ e. IsDeaf D e.1.connection)
          (close_all D parse (run D parse es (new_manager D))).sockets
  unfolding AllManaged
  close_all-IsDeaf es =
      closing-IsDeaf (run D parse es (new_manager D)) (run-AllManaged es (new_manager D) tt)
