-- ===== src/Registration/Tests.antt =====
-- Concrete registrations, over a table that is a list of rows.
use Prim.Native.String.{String}
use dwn_server.Common.{
  ◌≡◌, ◌≢◌, ◌↔◌, refl, none, some, List, [], ◌∷◌, arith, if◌then◌else◌, ◌==◌, string_eq,
}
use dwn_server.Double.Fractions.{fractions}
use dwn_server.Errors.{ok}
use dwn_server.ProofOfWork.{hash_as_hex_string, verify_response_nonce, parse_big_int, compute_hash}
use dwn_server.PowManager.{verify_proof_of_work, is_hex_string, is_acceptable}
use dwn_server.Common.Dict
use dwn_server.Common.Text.{big_int_of_hex}
use dwn_server.Registration.{record_tenant_registration, insert_or_update_tenant_registration}
use dwn_server.Registration.{handle_registration_request, is_active_tenant}
use dwn_server.Registration.Laws.{IsRegistered, handle_registration_request_iff}
use dwn_server.Registration.Rows.{
  rows, rows-IsTable, digest, zeros, registrar, alice, bob, request, select_row,
}
use dwn_server.Registration.Registry.{
  Registry, Represents, run-verdict, verdict, apply_all, changes, run, submits, updates, Event,
  hash_of,
}
use text.Mathlib.TextEquality.{eq_iff}

registered :
    handle_registration_request fractions rows digest 3 (request alice) (registrar [] (bob ∷ []))
    ≡ (registrar ((zeros, 3) ∷ []) (bob ∷ alice ∷ []), ok tt)
unfolding handle_registration_request verify_proof_of_work Dict.has is_hex_string is_acceptable
    verify_response_nonce parse_big_int big_int_of_hex compute_hash record_tenant_registration
    insert_or_update_tenant_registration Dict.set
registered = refl

handle_registration_request_iff_example :
    (handle_registration_request fractions rows digest 3 (request alice) (registrar [] (bob ∷ []))
      ≡ (registrar ((zeros, 3) ∷ []) (bob ∷ alice ∷ []), ok tt))
    ↔ IsRegistered fractions rows digest 3
        (request alice)
        (registrar [] (bob ∷ []))
        (registrar ((zeros, 3) ∷ []) (bob ∷ alice ∷ []))
handle_registration_request_iff_example =
    handle_registration_request_iff fractions rows digest 3 (request alice)
      (registrar [] (bob ∷ [])) (registrar ((zeros, 3) ∷ []) (bob ∷ alice ∷ []))

abbrev carol : String
carol = "did:carol"

carol_is_not_alice : carol ≢ alice.did
carol_is_not_alice h = cc ((eq_iff carol alice.did).1 h)

bob_has_not_agreed : bob.terms_of_service_hash ≢ some (hash_as_hex_string digest ("new" ∷ []))
unfolding hash_as_hex_string
bob_has_not_agreed h = cc h

-- The registry of a table with one row.
abbrev registry : Registry
registry = record { agreed = λ k. if k == "did:bob" then some none else none; current = some "0F" }

row_of : (k : String) → hash_of fractions rows digest (select_row k (bob ∷ [])) ≡ registry.agreed k
row_of k = ground (arith, eq_iff k bob.did, eq_iff bob.did k)

registrar-Represents : Represents fractions rows digest (registrar [] (bob ∷ [])) registry
registrar-Represents = record {
  db = bob ∷ [];
  store = refl;
  same_current = refl;
  same_agreed = row_of;
}

abbrev events : List (Event fractions rows digest)
events = submits 3 (request alice) ∷ updates "new" ∷ []

run-verdict_example :
    is_active_tenant fractions rows digest "did:alice"
      (run fractions rows digest events (registrar [] (bob ∷ [])))
    ≡ verdict
        (apply_all (changes fractions rows digest events (registrar [] (bob ∷ []))) registry)
        "did:alice"
run-verdict_example =
    run-verdict fractions rows digest rows-IsTable events (registrar [] (bob ∷ [])) registry
      "did:alice" registrar-Represents
