-- ===== src/Http/Creation.antt =====
-- src/http-api.ts, `create`: the HTTP API with its package's information, its registration manager
-- and its connect server. `new URL`, the reading of package.json and the statements on the cache's
-- database are parameters.
mod Tests
use Prim.Native.String.{String}
use dwn_server.Common.{Option, List}
use dwn_server.Errors.{Result, ok, throw, ◌>>=◌}
use dwn_server.Storage.{Dialect, Url}
use dwn_server.Connect.{Server}
use dwn_server.Connect.Setup.{Schema, create_web5_connect_server}
use dwn_server.Config.{DwnServerConfig}
use dwn_server.Http.Admission.{InfoConfig, PackageInfo, PackageJson, package_info}

abbrev info_config : {Size : Type 0} → DwnServerConfig Size → InfoConfig Size
info_config config = record {
  base_url = config.base_url;
  server_name = config.server_name;
  package_json_path = config.package_json_path;
  max_record_data_size = config.max_record_data_size;
  web_socket_support = config.web_socket_support;
  registration_store_url = config.registration_store_url;
  registration_proof_of_work_enabled = config.registration_proof_of_work_enabled;
  terms_of_service_file_path = config.terms_of_service_file_path;
}

-- The class's fields; express and the HTTP server are left out.
pub record Api (Size Dwn RegistrationManager Db : Type 0) : Type 0 where
  pub config : DwnServerConfig Size
  pub info : PackageInfo
  pub dwn : Dwn
  pub registration_manager : Option RegistrationManager
  pub web5_connect_server : Server Db

abbrev server_or :
    {Size Dwn RegistrationManager Db : Type 0}
    → Server Db
    → Result (Api Size Dwn RegistrationManager Db)
    → Server Db
server_or server (ok api) = api.web5_connect_server
server_or server (throw e) = server

module _ (Size Dwn RegistrationManager : Type 0) (S : Schema) (mkdir : String → Result (Unit {0}))
    (connect : Dialect → Result S.Db) (parse_url : String → Result Url)
    (read_json : String → Result PackageJson) where
  unfoldable pub create_api :
      DwnServerConfig Size
      → Dwn
      → Option RegistrationManager
      → List String
      → Result (Api Size Dwn RegistrationManager S.Db)
  create_api config dwn registration_manager dirs = do
    url ← parse_url config.ttl_cache_url
    server ← create_web5_connect_server S mkdir connect config.base_url url dirs
    ok (record {
      config = config;
      info = package_info read_json (info_config config);
      dwn = dwn;
      registration_manager = registration_manager;
      web5_connect_server = server;
    })
