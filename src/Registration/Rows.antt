-- ===== src/Registration/Rows.antt =====
-- A registration table that is a list of rows, and concrete registrations, for the tests.
use Prim.Native.String.{String}
use dwn_server.Common.{
  ℕ, ◌≡◌, ◌≢◌, true, false, none, some, List, [], ◌∷◌, arith, if◌then◌else◌, ◌==◌, string_eq,
}
use dwn_server.Common.Int.{pos}
use dwn_server.Double.Fractions.{fractions}
use dwn_server.Errors.{ok}
use dwn_server.PowManager.{Manager}
use dwn_server.Registration.{
  RegistrationData, RegistrationRequest, RegistrationTable, TenantRow, Registrar,
}
use dwn_server.Registration.Tenants.{IsTable, tenant_row}
use text.Mathlib.TextEquality.{eq_iff}

abbrev pub upsert_row : RegistrationData → List RegistrationData → List RegistrationData
upsert_row r [] = r ∷ []
upsert_row r (x ∷ xs) = if x.did == r.did then r ∷ xs else x ∷ upsert_row r xs

abbrev pub select_row : String → List RegistrationData → List TenantRow
select_row did [] = []
select_row did (x ∷ xs) = if x.did == did then tenant_row x ∷ [] else select_row did xs

abbrev pub rows : RegistrationTable
rows = record {
  Db = List RegistrationData;
  connect = λ url. ok [];
  upsert = λ r db. ok (upsert_row r db);
  select = select_row;
}

select_row-upsert_row :
    (r : RegistrationData) (db : List RegistrationData)
    → select_row r.did (upsert_row r db) ≡ tenant_row r ∷ []
select_row-upsert_row r [] = ground (arith, eq_iff r.did r.did)
select_row-upsert_row r (x ∷ xs) = ground (arith, eq_iff r.did r.did, select_row-upsert_row r xs)

select_row-upsert_row_ne :
    (r : RegistrationData) (did : String) (db : List RegistrationData)
    → did ≢ r.did
    → select_row did (upsert_row r db) ≡ select_row did db
select_row-upsert_row_ne r did [] other = ground (arith, eq_iff r.did did)
select_row-upsert_row_ne r did (x ∷ xs) other = ground (
  arith,
  eq_iff r.did did,
  eq_iff x.did r.did,
  eq_iff x.did did,
  select_row-upsert_row_ne r did xs other,
)

pub rows-IsTable : IsTable rows
rows-IsTable = record {
  select-upsert_self = λ r db db' e. ground (arith, select_row-upsert_row r db, e);
  select-upsert_ne = λ r k db db' e other. ground (arith, select_row-upsert_row_ne r k db other, e);
}

abbrev pub digest : String → String
digest s = "0F"

abbrev pub zeros : String
zeros = "0000000000000000000000000000000000000000000000000000000000000000"

abbrev pub pow : List (String × ℕ) → Manager fractions.Num
pow proofs = record {
  challenge_nonces = record {
    previous_challenge_nonce = none;
    current_challenge_nonce = "AB";
    next_challenge_nonce = none;
  };
  proof_of_work_of_last_minute = proofs;
  challenge_seed = none;
  difficulty_increase_multiplier = (1, 1);
  current_maximum_allowed_hash_value = pos 100;
  initial_maximum_allowed_hash_value = pos 100;
  desired_solve_count_per_minute = 10;
  challenge_refresh_frequency_in_seconds = 600;
  difficulty_reevaluation_frequency_in_seconds = 10;
  hash_value_increment_per_evaluation = none;
}

abbrev pub registrar : List (String × ℕ) → List RegistrationData → Registrar fractions rows digest
registrar proofs db = record {
  proof_of_work_manager = some (pow proofs);
  registration_store = some db;
  terms_of_service_hash = some "0F";
  terms_of_service = some "terms";
}

abbrev pub alice : RegistrationData
alice = record { did = "did:alice"; terms_of_service_hash = some "0F"; hash_first = false }

abbrev pub bob : RegistrationData
bob = record { did = "did:bob"; terms_of_service_hash = none; hash_first = true }

abbrev pub request : RegistrationData → RegistrationRequest
request data_ = record { challenge_nonce = "AB"; response_nonce = zeros; registration_data = data_ }
