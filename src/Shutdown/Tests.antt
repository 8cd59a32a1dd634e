-- ===== src/Shutdown/Tests.antt =====
-- Concrete stops.
use dwn_server.Common.{◌≡◌, refl, true, false, [], ◌∷◌, All}
use dwn_server.Shutdown.{ShutdownHandler, finishes, closes, stops, step, run, stop}
use dwn_server.Shutdown.Laws.{IsFair, resting, serving, IsLeaving, step-IsFair, run-stop}

abbrev two_sockets : ShutdownHandler
two_sockets = record {
  tcp_sockets =
      (1, record { idle = true; active = 0; destroyed = false })
      ∷ (2, record { idle = false; active = 1; destroyed = false })
      ∷ [];
  tcp_socket_id = 3;
  stopping = false;
}

one_destroyed :
    (step stops two_sockets).tcp_sockets
    ≡ (1, record { idle = true; active = 0; destroyed = true })
      ∷ (2, record { idle = false; active = 1; destroyed = false })
      ∷ []
unfolding step stop
one_destroyed = refl

step-IsFair_example : All IsFair (step stops two_sockets).tcp_sockets
step-IsFair_example =
    step-IsFair stops two_sockets tt (resting refl refl, (serving refl refl refl, tt))

run-stop_example : All IsLeaving (run (finishes 2 ∷ closes 1 ∷ []) (stop two_sockets)).tcp_sockets
run-stop_example = run-stop (finishes 2 ∷ closes 1 ∷ []) two_sockets (refl, (refl, tt))
