-- ===== src/Client/Connecting.antt =====
-- `connect` of src/json-rpc-socket.ts: the promise, the listeners of the socket's first events, and
-- the timer. A promise keeps its first outcome.
use Prim.Native.String.{String}
use dwn_server.Common.{◌≡◌, refl, Option, none, some, List, [], ◌∷◌}

pub data Connect : Type 0 where
  connecting : Connect
  connected : Connect
  failed : String → Connect

pub data Event : Type 0 where
  opens : Event
  errors : String → Event
  times_out : Event

-- The timer's function is `() => reject`: it names `reject`, and does not call it.
abbrev pub settle_connect : Connect → Connect → Connect
settle_connect outcome connecting = outcome
settle_connect outcome connected = connected
settle_connect outcome (failed e) = failed e

unfoldable pub step : Event → Connect → Connect
step opens c = settle_connect connected c
step (errors e) c = settle_connect (failed e) c
step times_out c = c

unfoldable pub run : List Event → Connect → Connect
run [] c = c
run (e ∷ es) c = run es (step e c)

abbrev pub outcome_of : Option Event → Connect
outcome_of none = connecting
outcome_of (some opens) = connected
outcome_of (some (errors e)) = failed e
outcome_of (some times_out) = connecting

-- The first event that is not the timer's.
abbrev pub first_heard : List Event → Option Event
first_heard [] = none
first_heard (opens ∷ es) = some opens
first_heard (errors e ∷ es) = some (errors e)
first_heard (times_out ∷ es) = first_heard es

run_connected : (es : List Event) → run es connected ≡ connected
unfolding run step
run_connected [] = refl
run_connected (opens ∷ es) = run_connected es
run_connected (errors e ∷ es) = run_connected es
run_connected (times_out ∷ es) = run_connected es

run_failed : (es : List Event) (e : String) → run es (failed e) ≡ failed e
unfolding run step
run_failed [] e = refl
run_failed (opens ∷ es) e = run_failed es e
run_failed (errors e' ∷ es) e = run_failed es e
run_failed (times_out ∷ es) e = run_failed es e

-- `connect` ends as the first opening or error of the socket says; without one it never ends,
-- however often its timer runs.
pub run-first_heard : (es : List Event) → run es connecting ≡ outcome_of (first_heard es)
unfolding run step
run-first_heard [] = refl
run-first_heard (opens ∷ es) = run_connected es
run-first_heard (errors e ∷ es) = run_failed es e
run-first_heard (times_out ∷ es) = run-first_heard es
