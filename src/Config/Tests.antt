-- ===== src/Config/Tests.antt =====
-- An environment that sets the storage only.
use Prim.Native.String.{String}
use dwn_server.Common.{◌≡◌, refl, none, some, if◌then◌else◌, ◌==◌, string_eq}
use dwn_server.Common.Int.{pos, negsuc}
use dwn_server.Common.Text.{digit_value}
use dwn_server.Errors.{Result, ok}
use dwn_server.Storage.{Url}
use dwn_server.Config.{Env, parse_int, trim_start, digits, number_from}

port_parsed : parse_int "3000" ≡ some (pos 3000)
unfolding parse_int trim_start digits number_from digit_value
port_parsed = refl

port_with_rest : parse_int " -0x1Fg" ≡ some (negsuc 30)
unfolding parse_int trim_start digits number_from digit_value
port_with_rest = refl

port_missing : parse_int "port" ≡ none
unfolding parse_int trim_start digits number_from digit_value
port_missing = refl

abbrev env : Env
env s = if s == "DWN_STORAGE" then some "level://data" else none

abbrev bytes : String → String
bytes s = s

abbrev url : Url
url = record { protocol = "level:"; host = "data"; pathname = ""; href = "level://data" }

abbrev parse_url : String → Result Url
parse_url s = ok url

abbrev import_plugin : String → Result String
import_plugin path = ok path
