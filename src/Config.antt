-- ===== src/Config.antt =====
-- src/config.ts: the configuration, from the variables of the environment. `bytes`, which reads a
-- size, is a parameter.
pub mod Stores
mod Tests
use Prim.Native.String
use Prim.Native.String.{String}
use dwn_server.Common.{
  ℕ, zero, suc, ◌+◌, ◌*◌, Bool, true, false, ◌&&◌, ◌||◌, Option, none, some, List, [], ◌∷◌,
  if◌then◌else◌, ◌==◌, string_eq, nat_beq, leb,
}
use dwn_server.Common.Int.{ℤ, pos, negsuc}
use dwn_server.Common.Text.{codes, digit_value}

abbrev pub Env : Type 0
Env = String → Option String

-- `a || b` for a variable: an empty text counts as none.
abbrev pub or_else : Option String → String → String
or_else none s = s
or_else (some t) s = if t == "" then s else t

-- `a || b` for two variables: where `a` is not truthy, the value is that of `b`.
abbrev pub or_variable : Option String → Option String → Option String
or_variable none b = b
or_variable (some t) b = if t == "" then b else some t

-- What the language skips in front of a number; the less common spaces are left out.
abbrev is_space : ℕ → Bool
is_space c = nat_beq c 0x20 || (leb 9 c && leb c 13) || nat_beq c 0xA0 || nat_beq c 0xFEFF

unfoldable pub trim_start : List ℕ → List ℕ
trim_start [] = []
trim_start (c ∷ cs) = let rest = trim_start cs in if is_space c then rest else c ∷ cs

-- The value of a digit in a base up to 16.
abbrev digit_below : ℕ → ℕ → Option ℕ
digit_below base c = elim (digit_value c) [
  | none ↦ none
  | some d ↦ if leb base d then none else some d
]

-- The digits up to the first other character, after the value `n`.
unfoldable pub digits : ℕ → ℕ → List ℕ → ℕ
digits base n [] = n
digits base n (c ∷ cs) = elim (digit_below base c) [
  | none ↦ n
  | some d ↦ digits base (n * base + d) cs
]

-- Without a digit there is no number.
unfoldable pub number_from : ℕ → List ℕ → Option ℕ
number_from base [] = none
number_from base (c ∷ cs) = elim (digit_below base c) [
  | none ↦ none
  | some d ↦ some (digits base d cs)
]

abbrev after_zero : List ℕ → Option ℕ
after_zero [] = some 0
after_zero (x ∷ cs) =
    if nat_beq x b'x' || nat_beq x b'X' then number_from 16 cs else some (digits 10 0 (x ∷ cs))

abbrev unsigned : List ℕ → Option ℕ
unsigned [] = none
unsigned (c ∷ cs) = if nat_beq c b'0' then after_zero cs else number_from 10 (c ∷ cs)

abbrev signed : (ℕ → ℤ) → Option ℕ → Option ℤ
signed f none = none
signed f (some n) = some (f n)

abbrev negative : ℕ → ℤ
negative zero = pos 0
negative (suc n) = negsuc n

abbrev with_sign : List ℕ → Option ℤ
with_sign [] = none
with_sign (c ∷ cs) =
    if nat_beq c b'-'
    then signed negative (unsigned cs)
    else if nat_beq c b'+'
    then signed pos (unsigned cs)
    else signed pos (unsigned (c ∷ cs))

-- parseInt(s); `none` is NaN. Digits beyond the precision of a float keep their value here.
unfoldable pub parse_int : String → Option ℤ
parse_int s = with_sign (trim_start (codes s))

-- { on: true, off: false }[s] ?? true; the names that every object inherits are left out.
abbrev pub switch : Option String → Bool
switch none = true
switch (some s) = if s == "off" then false else true

abbrev is_true_text : Option String → Bool
is_true_text none = false
is_true_text (some s) = s == "true"

-- `Size` is what `bytes` gives: a number, or null.
pub record DwnServerConfig (Size : Type 0) : Type 0 where
  pub server_name : String
  pub base_url : String
  pub port : Option ℤ
  pub ttl_cache_url : String
  pub package_json_path : String
  pub max_record_data_size : Size
  pub web_socket_support : Bool
  pub event_stream_plugin_path : Option String
  pub message_store : String
  pub data_store : String
  pub event_log : String
  pub resumable_task_store : String
  pub registration_store_url : Option String
  pub registration_proof_of_work_seed : Option String
  pub registration_proof_of_work_enabled : Bool
  pub registration_proof_of_work_initial_max_hash : Option String
  pub terms_of_service_file_path : Option String
  pub log_level : String

module _ {Size : Type 0} (bytes : String → Size) where
  unfoldable pub config : Env → DwnServerConfig Size
  config env = record {
    server_name =
        or_else (or_variable (env "npm_package_name") (env "DWN_SERVER_PACKAGE_NAME"))
          "@web5/dwn-server";
    base_url = or_else (env "DWN_BASE_URL") "http://localhost:3000";
    port = parse_int (or_else (env "DS_PORT") "3000");
    ttl_cache_url = or_else (env "DWN_TTL_CACHE_URL") "sqlite://";
    package_json_path =
        or_else (or_variable (env "npm_package_json") (env "DWN_SERVER_PACKAGE_JSON"))
          "/dwn-server/package.json";
    max_record_data_size = bytes (or_else (env "MAX_RECORD_DATA_SIZE") "1gb");
    web_socket_support = switch (env "DS_WEBSOCKET_SERVER");
    event_stream_plugin_path = env "DWN_EVENT_STREAM_PLUGIN_PATH";
    message_store =
        or_else (or_variable (env "DWN_STORAGE_MESSAGES") (env "DWN_STORAGE")) "level://data";
    data_store = or_else (or_variable (env "DWN_STORAGE_DATA") (env "DWN_STORAGE")) "level://data";
    event_log = or_else (or_variable (env "DWN_STORAGE_EVENTS") (env "DWN_STORAGE")) "level://data";
    resumable_task_store =
        or_else (or_variable (env "DWN_STORAGE_RESUMABLE_TASKS") (env "DWN_STORAGE"))
          "level://data";
    registration_store_url = or_variable (env "DWN_REGISTRATION_STORE_URL") (env "DWN_STORAGE");
    registration_proof_of_work_seed = env "DWN_REGISTRATION_PROOF_OF_WORK_SEED";
    registration_proof_of_work_enabled =
        is_true_text (env "DWN_REGISTRATION_PROOF_OF_WORK_ENABLED");
    registration_proof_of_work_initial_max_hash =
        env "DWN_REGISTRATION_PROOF_OF_WORK_INITIAL_MAX_HASH";
    terms_of_service_file_path = env "DWN_TERMS_OF_SERVICE_FILE_PATH";
    log_level = or_else (env "DWN_SERVER_LOG_LEVEL") "INFO";
  }
