-- ===== src/Connect/Setup/Tests.antt =====
-- Servers that start on a database that has the table and the index, or not.
use dwn_server.Common.{true, false, ◌≡◌, refl, List, [], ◌∷◌}
use dwn_server.Connect.Setup
use dwn_server.Connect.Setup.Turns.{run_failed, standing}
use dwn_server.Connect.Setup.Catalogues.{duplicate, catalogues, documented_catalogues, fresh}
use dwn_server.Connect.Setup.Again.{left_after, initialize_after_stop}

-- Both servers ask before either makes the table.
abbrev alternating : List (Setup.Turn catalogues)
alternating =
    Setup.first_server ∷ Setup.second_server ∷ Setup.first_server ∷ Setup.second_server
    ∷ Setup.first_server ∷ Setup.second_server ∷ []

run_failed_example :
    (standing Setup.first_server
        (Setup.run catalogues alternating (Setup.both_start catalogues fresh))
      ≡ Setup.ready)
    × ((Setup.run catalogues alternating (Setup.both_start catalogues fresh)).db.has_table ≡ true)
unfolding Setup.run Setup.step Setup.advance
run_failed_example =
    run_failed catalogues documented_catalogues fresh alternating Setup.second_server duplicate refl
      refl

initialize_after_stop_example :
    ((Setup.initialize catalogues (left_after catalogues documented_catalogues 2 fresh)).0
      ≡ Setup.ready)
    × ((Setup.initialize catalogues
          (left_after catalogues documented_catalogues 2 fresh)).1.has_table
        ≡ true)
    × ((Setup.initialize catalogues
          (left_after catalogues documented_catalogues 2 fresh)).1.has_index
        ≡ false)
initialize_after_stop_example =
    initialize_after_stop catalogues documented_catalogues fresh 2 refl refl
