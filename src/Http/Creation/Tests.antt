-- ===== src/Http/Creation/Tests.antt =====
-- The HTTP API of the default configuration.
use Prim.Native.String.{String}
use dwn_server.Common.{none}
use dwn_server.Errors.{Result, ok, throw, other_error}
use dwn_server.Storage.{Dialect, Url}
use dwn_server.Connect.Setup.Catalogues.{catalogues, fresh}
use dwn_server.Config.{config, Env, DwnServerConfig}
use dwn_server.Http.Admission.{PackageJson}

abbrev no_variables : Env
no_variables s = none

abbrev in_memory : Url
in_memory = record { protocol = "sqlite:"; host = ""; pathname = ""; href = "sqlite://" }

abbrev parse_url : String → Result Url
parse_url s = ok in_memory

abbrev no_package : String → Result PackageJson
no_package s = throw (other_error "ENOENT")

abbrev default_config : DwnServerConfig String
default_config = config (λ s. s) no_variables

abbrev mkdir : String → Result (Unit {0})
mkdir d = ok tt

abbrev connect : Dialect → Result catalogues.Db
connect d = ok fresh
