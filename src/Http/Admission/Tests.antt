-- ===== src/Http/Admission/Tests.antt =====
-- A registration over HTTP, and the configuration of a server.
use dwn_server.Common.{ℕ, true, none, some, [], ◌∷◌}
use dwn_server.Common.Dict
use dwn_server.Double.Fractions.{fractions}
use dwn_server.Registration.{Registrar}
use dwn_server.Registration.Rows.{
  rows as tenants, rows-IsTable as tenants-IsTable, digest, registrar, bob, request as registration,
}
use dwn_server.Http.Admission.{InfoConfig, PackageInfo}

abbrev manager : Registrar fractions tenants digest
manager = registrar [] (bob ∷ [])

abbrev info_config : InfoConfig ℕ
info_config = record {
  base_url = "https://dwn";
  server_name = "@web5/dwn-server";
  package_json_path = "/dwn-server/package.json";
  max_record_data_size = 1073741824;
  web_socket_support = true;
  registration_store_url = some "sqlite://dwn.db";
  registration_proof_of_work_enabled = true;
  terms_of_service_file_path = none;
}

abbrev information : PackageInfo
information = record { version = none; sdk_version = none; server = "@web5/dwn-server" }
