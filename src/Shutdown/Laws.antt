-- ===== src/Shutdown/Laws.antt =====
-- No socket is destroyed under a request, and every socket is destroyed in the end.
use dwn_server.Common.{
  ℕ, ◌≡◌, ◌≢◌, refl, Bool, true, false, Bool-cases, List, [], ◌∷◌, map, nat_beq, nat_eq, arith, All,
  inl, inr, ◌⊎◌,
}
use dwn_server.Common.Dict
use dwn_server.Shutdown.{
  Socket, ShutdownHandler, on_entry, on_connection, on_socket_close, begin_request, on_request,
  finish_response, on_finish, destroy_if_idle, stop, on_server_closed, Event, connects, requests,
  finishes, closes, stops, server_closes, step, run,
}

-- A socket rests, or it serves one request, is marked so, and is not destroyed.
pub data IsFair (e : ℕ × Socket) : Type 0 where
  resting : e.1.idle ≡ true → e.1.active ≡ 0 → IsFair e
  serving : e.1.idle ≡ false → e.1.active ≡ 1 → e.1.destroyed ≡ false → IsFair e

-- A request arrives on a socket that serves none and is not destroyed; the rest may come at any time.
abbrev pub IsOrderly : Event → ShutdownHandler → Type 0
IsOrderly (requests id) h =
    All (λ e. (e.0 ≢ id) ⊎ ((e.1.active ≡ 0) × (e.1.destroyed ≡ false))) h.tcp_sockets
IsOrderly _ h = Unit {0}

module _ (P Q : ℕ × Socket → Type 0) where
  map-All :
      (f : ℕ × Socket → ℕ × Socket) (m : List (ℕ × Socket))
      → ((e : ℕ × Socket) → P e → Q (f e))
      → All P m
      → All Q (map f m)
  map-All f [] h a = tt
  map-All f (e ∷ m) h (p, a) = (h e p, map-All f m h a)

module _ (P : ℕ × Socket → Type 0) where
  delete-All : (id : ℕ) (m : List (ℕ × Socket)) → All P m → All P (Dict.delete id m)
  unfolding Dict.delete
  delete-All id [] a = tt
  delete-All id ((j, s) ∷ m) (p, a) = elim (Bool-cases (nat_beq j id)) [
    | inl same ↦ rw same a
    | inr other ↦ rw other (p, delete-All id m a)
  ]

  -- A new entry at the end, or a new value of one that is there.
  set-All :
      (id : ℕ) (s : Socket) (m : List (ℕ × Socket))
      → ((j : ℕ) → P (j, s))
      → All P m
      → All P (Dict.set id s m)
  unfolding Dict.set
  set-All id s [] p a = (p id, tt)
  set-All id s ((j, t) ∷ m) p (q, a) = elim (Bool-cases (nat_beq j id)) [
    | inl same ↦ rw same (p j, a)
    | inr other ↦ rw other (q, set-All id s m p a)
  ]

both :
    (P Q : ℕ × Socket → Type 0) (m : List (ℕ × Socket)) → All P m → All Q m → All (λ e. P e × Q e) m
both P Q [] a b = tt
both P Q (e ∷ m) (p, a) (q, b) = ((p, q), both P Q m a b)

begin-IsFair :
    (id : ℕ) (e : ℕ × Socket)
    → IsFair e × ((e.0 ≢ id) ⊎ ((e.1.active ≡ 0) × (e.1.destroyed ≡ false)))
    → IsFair (on_entry id begin_request e)
begin-IsFair id (j, s) (fair, ready) = elim (Bool-cases (nat_beq j id)) [
  | inl same ↦ rw same (serving refl (ground (arith, same, ready)) (ground (arith, same, ready)))
  | inr other ↦ rw other fair
]

finish-IsFair :
    (id : ℕ) (b : Bool) (e : ℕ × Socket) → IsFair e → IsFair (on_entry id (finish_response b) e)
finish-IsFair id b (j, s) fair = elim (Bool-cases (nat_beq j id)) [
  | inl same ↦ rw same (ground (arith, fair))
  | inr other ↦ rw other fair
]

destroy-IsFair : (e : ℕ × Socket) → IsFair e → IsFair (destroy_if_idle e)
destroy-IsFair (j, s) (resting idle none_left) =
    resting (ground (arith, idle)) (ground (arith, none_left))
destroy-IsFair (j, s) (serving busy one live) =
    serving (ground (arith, busy)) (ground (arith, busy, one)) (ground (arith, busy, live))

-- While requests on one socket do not overlap, a step keeps every socket at rest or serving one
-- request undestroyed: neither a stop nor the end of another response destroys a socket under a
-- request.
pub step-IsFair :
    (e : Event) (h : ShutdownHandler)
    → IsOrderly e h
    → All IsFair h.tcp_sockets
    → All IsFair (step e h).tcp_sockets
unfolding step on_connection on_request on_finish on_socket_close stop on_server_closed
step-IsFair connects h o fair =
    set-All IsFair h.tcp_socket_id _ h.tcp_sockets (λ j. resting refl refl) fair
step-IsFair (requests id) h o fair =
    map-All _ IsFair (on_entry id begin_request) h.tcp_sockets (begin-IsFair id)
      (both IsFair _ h.tcp_sockets fair o)
step-IsFair (finishes id) h o fair =
    map-All IsFair IsFair (on_entry id (finish_response h.stopping)) h.tcp_sockets
      (finish-IsFair id h.stopping) fair
step-IsFair (closes id) h o fair = delete-All IsFair id h.tcp_sockets fair
step-IsFair stops h o fair = map-All IsFair IsFair destroy_if_idle h.tcp_sockets destroy-IsFair fair
step-IsFair server_closes h o fair = fair

-- Destroyed, or marked as serving a request.
abbrev pub IsLeaving : ℕ × Socket → Type 0
IsLeaving e = (e.1.destroyed ≡ true) ⊎ (e.1.idle ≡ false)

-- What can happen between the stop and the server's close: the server accepts no connection.
abbrev pub is_late : Event → Bool
is_late connects = false
is_late server_closes = false
is_late _ = true

begin-IsLeaving : (id : ℕ) (e : ℕ × Socket) → IsLeaving e → IsLeaving (on_entry id begin_request e)
begin-IsLeaving id (j, s) l = ground arith

finish-IsLeaving :
    (id : ℕ) (e : ℕ × Socket) → IsLeaving e → IsLeaving (on_entry id (finish_response true) e)
finish-IsLeaving id (j, s) l = ground arith

destroy-IsLeaving : (e : ℕ × Socket) → Unit {0} → IsLeaving (destroy_if_idle e)
destroy-IsLeaving (j, s) u = ground arith

units : (m : List (ℕ × Socket)) → All (λ e. Unit {0}) m
units [] = tt
units (e ∷ m) = (tt, units m)

abbrev IsStopping : ShutdownHandler → Type 0
IsStopping h = (h.stopping ≡ true) × All IsLeaving h.tcp_sockets

stop-IsStopping : (h : ShutdownHandler) → IsStopping (stop h)
unfolding stop
stop-IsStopping h = (
  refl,
  map-All _ IsLeaving destroy_if_idle h.tcp_sockets destroy-IsLeaving (units h.tcp_sockets),
)

step-IsStopping :
    (e : Event) (h : ShutdownHandler) → is_late e ≡ true → IsStopping h → IsStopping (step e h)
unfolding step on_connection on_request on_finish on_socket_close on_server_closed
step-IsStopping connects h late d = absurd (cc late)
step-IsStopping (requests id) h late (on, d) = (
  on,
  map-All IsLeaving IsLeaving (on_entry id begin_request) h.tcp_sockets (begin-IsLeaving id) d,
)
step-IsStopping (finishes id) h late (on, d) = (
  on,
  map-All IsLeaving IsLeaving (on_entry id (finish_response h.stopping)) h.tcp_sockets
      (rw on (finish-IsLeaving id)) d,
)
step-IsStopping (closes id) h late (on, d) = (on, delete-All IsLeaving id h.tcp_sockets d)
step-IsStopping stops h late d = stop-IsStopping h
step-IsStopping server_closes h late d = absurd (cc late)

run-IsStopping :
    (es : List Event) (h : ShutdownHandler)
    → All (λ e. is_late e ≡ true) es
    → IsStopping h
    → IsStopping (run es h)
unfolding run
run-IsStopping [] h late d = d
run-IsStopping (e ∷ es) h (l, late) d = run-IsStopping es (step e h) late (step-IsStopping e h l d)

-- From the stop on until the server has closed, whatever requests, responses and closes come: each
-- socket that is left in the table is destroyed or marked as serving a request.
pub run-stop :
    (es : List Event) (h : ShutdownHandler)
    → All (λ e. is_late e ≡ true) es
    → All IsLeaving (run es (stop h)).tcp_sockets
run-stop es h late = (run-IsStopping es (stop h) late (stop-IsStopping h)).1
