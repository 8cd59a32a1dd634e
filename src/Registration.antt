-- ===== src/Registration.antt =====
-- src/registration/registration-store.ts, registration-manager.ts and registration-types.ts: who
-- is a tenant. The SQL database is the parameter `RegistrationTable`; files are a function from a
-- path to a text.
pub mod Laws
pub mod Tenants
pub mod Refusals
pub mod Registry
pub mod Rows
mod Tests
use Prim.Native.String.{String}
use dwn_server.Common.{
  ℕ, Bool, true, false, not, Option, none, some, List, [], ◌∷◌, if◌then◌else◌, ◌==◌, string_eq,
  option_eq,
}
use dwn_server.Common.Text.{◌<>◌}
use dwn_server.Common.Json.{quote}
use dwn_server.Double.{Double}
use dwn_server.Errors.{
  Result, ok, throw, ◌>>=◌, ◌>>◌, dwn_server_error, other_error, Error,
  registration_manager_invalid_or_outdated_terms_of_service_hash,
}
use dwn_server.ProofOfWork.{HashInput, hash_as_hex_string}
use dwn_server.PowManager.{
  Manager, ProofOfWorkChallengeModel, get_proof_of_work_challenge, verify_proof_of_work,
}
use dwn_server.PowManager.Difficulty.{create, start}

-- `termsOfServiceHash` may be left out of a request, and is then undefined. The object is the client's,
-- whose keys stand in an order of its own: `hash_first` says whether that key comes before `did`.
pub record RegistrationData : Type 0 where
  pub did : String
  pub terms_of_service_hash : Option String
  pub hash_first : Bool

pub record RegistrationRequest : Type 0 where
  pub challenge_nonce : String
  pub response_nonce : String
  pub registration_data : RegistrationData

-- JSON.stringify of the data, with the keys in the order in which the client gave them.
unfoldable pub stringify : RegistrationData → String
unfolding quote
stringify r = elim r.terms_of_service_hash [
  | none ↦ "{\"did\":" <> quote r.did <> "}"
  | some hash ↦
      if r.hash_first
      then "{\"termsOfServiceHash\":" <> quote hash <> ",\"did\":" <> quote r.did <> "}"
      else "{\"did\":" <> quote r.did <> ",\"termsOfServiceHash\":" <> quote hash <> "}"
]

-- A column of a row that was read: SQL NULL comes back as null.
pub data Column : Type 0 where
  null_column : Column
  text_column : String → Column

pub record TenantRow : Type 0 where
  pub row_did : String
  pub row_hash : Column

-- `hash !== current` of the column, negated: null is neither undefined nor a text.
abbrev pub agrees : Column → Option String → Bool
agrees null_column current = false
agrees (text_column hash) none = false
agrees (text_column hash) (some current) = hash == current

-- The table of registered tenants: an insert that updates the hash on a conflict of the primary
-- key `did`, and a selection by `did`. `open` creates the table if there is none.
pub record RegistrationTable : Type 1 where
  pub Db : Type 0
  pub connect : String → Result Db
  pub upsert : RegistrationData → Db → Result Db
  pub select : String → Db → List TenantRow

module _ (T : RegistrationTable) where
  open T use {Db, connect, upsert, select}

  unfoldable pub insert_or_update_tenant_registration : RegistrationData → Db → Result Db
  insert_or_update_tenant_registration r db = upsert r db

  abbrev pub first : List TenantRow → Option TenantRow
  first [] = none
  first (r ∷ rs) = some r

  unfoldable pub get_tenant_registration : String → Db → Option TenantRow
  get_tenant_registration tenant_did db = first (select tenant_did db)

-- The fields of the manager: none has a value until `create` sets it.
pub record RegistrationManager (Num Db : Type 0) : Type 0 where
  pub proof_of_work_manager : Option (Manager Num)
  pub registration_store : Option Db
  pub terms_of_service_hash : Option String
  pub terms_of_service : Option String

pub record CreateInput : Type 0 where
  pub registration_store_url : Option String
  pub terms_of_service_file_path : Option String
  pub proof_of_work_challenge_nonce_seed : Option String
  pub proof_of_work_initial_maximum_allowed_hash : Option String

pub record ActiveTenantCheckResult : Type 0 where
  pub is_active_tenant : Bool
  pub detail : Option String

-- A hash in an error's message.
abbrev show : Option String → String
show none = "undefined"
show (some s) = s

-- A property of an undefined value is read.
abbrev pub type_error : Error
type_error = other_error "Cannot read properties of undefined"

module _ (d : Double) (T : RegistrationTable) (sha256 : String → String) where
  open d use {Num}
  open T use {Db, connect}

  abbrev pub Registrar : Type 0
  Registrar = RegistrationManager Num Db

  unfoldable pub update_terms_of_service : String → Registrar → Registrar
  update_terms_of_service text m = record m {
    terms_of_service_hash = some (hash_as_hex_string sha256 (text ∷ []));
    terms_of_service = some text;
  }

  abbrev pub open_for_all : Registrar
  open_for_all = record {
    proof_of_work_manager = none;
    registration_store = none;
    terms_of_service_hash = none;
    terms_of_service = none;
  }

  abbrev load_terms : (String → Result String) → Option String → Registrar → Result Registrar
  load_terms read_file none m = ok m
  load_terms read_file (some path) m = do text ← read_file path; ok (update_terms_of_service text m)

  -- `create` for a registration store that is asked for.
  unfoldable pub create_with_store :
      (String → Result String) → ℕ → List ℕ → List ℕ → CreateInput → String → Result Registrar
  create_with_store read_file now random random' input url = do
    m ← load_terms read_file input.terms_of_service_file_path open_for_all
    pow ← create d random (record {
      desired_solve_count_per_minute = 10;
      initial_maximum_allowed_hash_value = input.proof_of_work_initial_maximum_allowed_hash;
      difficulty_increase_multiplier = none;
      challenge_seed = input.proof_of_work_challenge_nonce_seed;
      challenge_refresh_frequency_in_seconds = none;
      difficulty_reevaluation_frequency_in_seconds = none;
    })
    db ← connect url
    ok (record m {
      proof_of_work_manager = some (start d sha256 now random' pow);
      registration_store = some db;
    })

  -- `create` of the class: an undefined or empty URL leaves the server open for all.
  unfoldable pub create_registration_manager :
      (String → Result String) → ℕ → List ℕ → List ℕ → CreateInput → Result Registrar
  create_registration_manager read_file now random random' input =
      elim input.registration_store_url [
        | none ↦ ok open_for_all
        | some url ↦
            if url == ""
            then ok open_for_all
            else create_with_store read_file now random random' input url
      ]

  unfoldable pub get_challenge : Registrar → Result ProofOfWorkChallengeModel
  get_challenge m = elim m.proof_of_work_manager [
    | none ↦ throw type_error
    | some pow ↦ ok (get_proof_of_work_challenge pow)
  ]

  unfoldable pub record_tenant_registration : RegistrationData → Registrar → Result Registrar
  record_tenant_registration r m = elim m.registration_store [
    | none ↦ throw type_error
    | some db ↦ do
      db' ← insert_or_update_tenant_registration T r db
      ok (record m { registration_store = some db' })
  ]

  -- The state after the call beside its result: a proof that was accepted stays recorded also where
  -- the database then fails.
  abbrev finish : Registrar → Result Registrar → Registrar × Result (Unit {0})
  finish m (throw e) = (m, throw e)
  finish m (ok m') = (m', ok tt)

  abbrev store_if :
      RegistrationData → Registrar → Result (Manager Num) → Registrar × Result (Unit {0})
  store_if r m (throw e) = (m, throw e)
  store_if r m (ok pow) =
      let m' : Registrar = record m { proof_of_work_manager = some pow } in
      finish m' (record_tenant_registration r m')

  abbrev verify_with : ℕ → HashInput → Option (Manager Num) → Result (Manager Num)
  verify_with now p none = throw type_error
  verify_with now p (some pow) = verify_proof_of_work sha256 now p pow

  unfoldable pub handle_registration_request :
      ℕ → RegistrationRequest → Registrar → Registrar × Result (Unit {0})
  handle_registration_request now req m =
      let r = req.registration_data in
      if not (option_eq string_eq r.terms_of_service_hash m.terms_of_service_hash)
      then (
        m,
        throw (
            dwn_server_error registration_manager_invalid_or_outdated_terms_of_service_hash (
              "Expecting terms-of-service hash "
              <> show m.terms_of_service_hash
              <> ", but got "
              <> show r.terms_of_service_hash
              <> ".")),
      )
      else store_if r m (
          verify_with now
            (record {
              challenge_nonce = req.challenge_nonce;
              response_nonce = req.response_nonce;
              request_data = stringify r;
            })
            m.proof_of_work_manager)

  -- The detail of a tenant whose registration was found or not.
  abbrev pub check : Option TenantRow → Registrar → ActiveTenantCheckResult
  check none m = record { is_active_tenant = false; detail = some "Not a registered tenant." }
  check (some r) m =
      if not (agrees r.row_hash m.terms_of_service_hash)
      then record { is_active_tenant = false; detail = some "Agreed terms-of-service is outdated." }
      else record { is_active_tenant = true; detail = none }

  unfoldable pub is_active_tenant : String → Registrar → ActiveTenantCheckResult
  is_active_tenant tenant m = elim m.registration_store [
    | none ↦ record { is_active_tenant = true; detail = none }
    | some db ↦ check (get_tenant_registration T tenant db) m
  ]
