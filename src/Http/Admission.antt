-- ===== src/Http/Admission.antt =====
-- The routes of src/http-api.ts for the registration of tenants, GET /info, and what `create` reads
-- for it. The requests are those that have the shape of their type.
pub mod Laws
mod Tests
use Prim.Native.String.{String}
use dwn_server.Common.{ℕ, Bool, true, false, Option, none, some, List, [], ◌∷◌, ◌++◌, if◌then◌else◌}
use dwn_server.Double.{Double}
use dwn_server.Errors.{DwnServerErrorCode, Result, ok, throw, Error}
use dwn_server.PowManager.{ProofOfWorkChallengeModel}
use dwn_server.Registration.{
  RegistrationRequest, RegistrationTable, Registrar, get_challenge, handle_registration_request,
  type_error,
}

-- The part of the configuration that these routes read; `max_record_data_size` is what `bytes` gave.
pub record InfoConfig (Size : Type 0) : Type 0 where
  pub base_url : String
  pub server_name : String
  pub package_json_path : String
  pub max_record_data_size : Size
  pub web_socket_support : Bool
  pub registration_store_url : Option String
  pub registration_proof_of_work_enabled : Bool
  pub terms_of_service_file_path : Option String

pub record PackageInfo : Type 0 where
  pub version : Option String
  pub sdk_version : Option String
  pub server : String

-- The properties of package.json that are read: the version, and the version of the SDK where there
-- are dependencies.
pub record PackageJson : Type 0 where
  pub json_version : Option String
  pub dependency : Option (Option String)

abbrev pub dependency_version : Option (Option String) → Option String
dependency_version none = none
dependency_version (some v) = v

abbrev info_of : String → Result PackageJson → PackageInfo
info_of server (throw e) = record { version = none; sdk_version = none; server = server }
info_of server (ok p) = record {
  version = p.json_version;
  sdk_version = dependency_version p.dependency;
  server = server;
}

-- `create` as to the information on the package; `read_json` reads and parses a file.
unfoldable pub package_info :
    {Size : Type 0} → (String → Result PackageJson) → InfoConfig Size → PackageInfo
package_info read_json config = info_of config.server_name (read_json config.package_json_path)

abbrev pub is_defined : Option String → Bool
is_defined none = false
is_defined (some s) = true

-- `#setupRegistrationRoutes`: the routes that a server has.
unfoldable pub registration_routes : {Size : Type 0} → InfoConfig Size → List String
registration_routes config =
    (if config.registration_proof_of_work_enabled
      then "GET /registration/proof-of-work" ∷ []
      else [])
    ++ (if is_defined config.terms_of_service_file_path
        then "GET /registration/terms-of-service" ∷ []
        else [])
    ++ (if is_defined config.registration_store_url then "POST /registration" ∷ [] else [])

pub record Info (Size : Type 0) : Type 0 where
  pub url : String
  pub info_server : String
  pub max_file_size : Size
  pub registration_requirements : List String
  pub info_version : Option String
  pub info_sdk_version : Option String
  pub info_web_socket_support : Bool

-- GET /info, of the process's configuration `config`, which need not be the server's own.
unfoldable pub get_info : {Size : Type 0} → InfoConfig Size → PackageInfo → Info Size
get_info config info = record {
  url = config.base_url;
  info_server = info.server;
  max_file_size = config.max_record_data_size;
  registration_requirements =
      (if config.registration_proof_of_work_enabled then "proof-of-work-sha256-v0" ∷ [] else [])
      ++ (if is_defined config.terms_of_service_file_path then "terms-of-service" ∷ [] else []);
  info_version = info.version;
  info_sdk_version = info.sdk_version;
  info_web_socket_support = config.web_socket_support;
}

-- { success: true } with 200, the error with 400, { success: false } with 500.
pub data Registered : Type 0 where
  succeeded : Registered
  refused : Error → Registered
  failed : Registered

abbrev pub registered_status : Registered → ℕ
registered_status succeeded = 200
registered_status (refused e) = 400
registered_status failed = 500

abbrev refusal : Option DwnServerErrorCode → Option String → Error → Registered
refusal none none e = failed
refusal none (some code) e = refused e
refusal (some code) foreign e = refused e

abbrev pub registered_answer : Result (Unit {0}) → Registered
registered_answer (ok done) = succeeded
registered_answer (throw e) = refusal e.code e.foreign_code e

module _ (d : Double) (T : RegistrationTable) (sha256 : String → String) where
  -- GET /registration/proof-of-work; an exception is an answer that never comes.
  unfoldable pub get_proof_of_work :
      Option (Registrar d T sha256) → Result ProofOfWorkChallengeModel
  get_proof_of_work none = throw type_error
  get_proof_of_work (some m) = get_challenge d T sha256 m

  -- GET /registration/terms-of-service
  unfoldable pub get_terms_of_service : Option (Registrar d T sha256) → Result (Option String)
  get_terms_of_service none = throw type_error
  get_terms_of_service (some m) = ok m.terms_of_service

  abbrev answered :
      Registrar d T sha256 × Result (Unit {0}) → Option (Registrar d T sha256) × Registered
  answered (m, r) = (some m, registered_answer r)

  -- POST /registration
  unfoldable pub post_registration :
      ℕ
      → RegistrationRequest
      → Option (Registrar d T sha256)
      → Option (Registrar d T sha256) × Registered
  post_registration now req none = (none, registered_answer (throw type_error))
  post_registration now req (some m) = answered (handle_registration_request d T sha256 now req m)
