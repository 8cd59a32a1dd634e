-- ===== src/JsonRpc.antt =====
-- src/lib/json-rpc.ts, src/lib/json-rpc-router.ts and src/json-rpc-api.ts: requests, responses and
-- the table of methods. What the DWN library defines is the parameter `Dwn`.
pub mod Connection
pub mod Handlers
pub mod Socket
pub mod Manager
use Prim.Native.String.{String}
use dwn_server.Common.{
  ◌≡◌, ◌↔◌, Bool, true, false, Option, none, some, List, [], arith, Eq, ◌==◌, string_eq,
}
use dwn_server.Common.Int.{ℤ, negsuc}
use dwn_server.Common.Dict
use dwn_server.Errors.{Result, ok, throw, other_error}
use text.Mathlib.TextEquality.{eq_iff}

-- A number stands as the text that it prints as.
pub data JsonRpcId : Type 0 where
  string : String → JsonRpcId
  number : String → JsonRpcId
  null : JsonRpcId

abbrev pub show_id : JsonRpcId → String
show_id (string s) = s
show_id (number s) = s
show_id null = "null"

abbrev pub id_beq : JsonRpcId → JsonRpcId → Bool
id_beq (string a) (string b) = a == b
id_beq (string a) (number b) = false
id_beq (string a) null = false
id_beq (number a) (string b) = false
id_beq (number a) (number b) = a == b
id_beq (number a) null = false
id_beq null (string b) = false
id_beq null (number b) = false
id_beq null null = true

pub id_beq_iff : (a b : JsonRpcId) → (id_beq a b ≡ true) ↔ (a ≡ b)
id_beq_iff (string a) (string b) = ground (arith, eq_iff a b)
id_beq_iff (string a) (number b) = ground arith
id_beq_iff (string a) null = ground arith
id_beq_iff (number a) (string b) = ground arith
id_beq_iff (number a) (number b) = ground (arith, eq_iff a b)
id_beq_iff (number a) null = ground arith
id_beq_iff null (string b) = ground arith
id_beq_iff null (number b) = ground arith
id_beq_iff null null = ground arith

instance abbrev pub id_eq : Eq JsonRpcId
id_eq = record { beq = id_beq; beq_iff = id_beq_iff }

pub data JsonRpcErrorCodes : Type 0 where
  invalid_request : JsonRpcErrorCodes
  method_not_found : JsonRpcErrorCodes
  invalid_params : JsonRpcErrorCodes
  internal_error : JsonRpcErrorCodes
  parse_error : JsonRpcErrorCodes
  bad_request : JsonRpcErrorCodes
  unauthorized : JsonRpcErrorCodes
  forbidden : JsonRpcErrorCodes

abbrev pub code_number : JsonRpcErrorCodes → ℤ
code_number invalid_request = negsuc 32599
code_number method_not_found = negsuc 32600
code_number invalid_params = negsuc 32601
code_number internal_error = negsuc 32602
code_number parse_error = negsuc 32699
code_number bad_request = negsuc 50399
code_number unauthorized = negsuc 50400
code_number forbidden = negsuc 50402

-- Messages of the DWN with the two words of their descriptor, streams, and values of JSON.
pub record Dwn : Type 1 where
  pub Message : Type 0
  pub interface_name : Message → String
  pub method_name : Message → String
  pub Stream : Type 0
  pub Json : Type 0

module _ (D : Dwn) where
  open D use {Message, Stream, Json}

  pub record Params : Type 0 where
    pub target : Option String
    pub message : Option Message

  pub record JsonRpcRequest : Type 0 where
    pub id : Option JsonRpcId
    pub method : String
    pub params : Option Params
    pub subscription : Option JsonRpcId

  pub record JsonRpcError : Type 0 where
    pub code : JsonRpcErrorCodes
    pub message : String
    pub data_ : Option Json

  -- What a success carries: the reply of the DWN without its stream and its close function, the
  -- reply to a close, an event of a subscription, or null.
  pub data Payload : Type 0 where
    dwn_reply : Json → Payload
    accepted : Payload
    event : Json → Payload
    no_result : Payload

  pub data JsonRpcResponse : Type 0 where
    success : JsonRpcId → Payload → JsonRpcResponse
    failure : JsonRpcId → JsonRpcError → JsonRpcResponse

  pub record HandlerResponse : Type 0 where
    pub json_rpc_response : JsonRpcResponse
    pub data_stream : Option Stream

  abbrev pub create_json_rpc_error_response :
      JsonRpcId → JsonRpcErrorCodes → String → Option Json → JsonRpcResponse
  create_json_rpc_error_response id code message data_ =
      failure id (record { code = code; message = message; data_ = data_ })

  abbrev pub result_or_null : Option Payload → Payload
  result_or_null none = no_result
  result_or_null (some r) = r

  abbrev pub create_json_rpc_success_response : JsonRpcId → Option Payload → JsonRpcResponse
  create_json_rpc_success_response id result = success id (result_or_null result)

  abbrev pub create_json_rpc_notification : String → Option Params → JsonRpcRequest
  create_json_rpc_notification method params = record {
    id = none;
    method = method;
    params = params;
    subscription = none;
  }

  abbrev pub create_json_rpc_subscription_request :
      JsonRpcId → String → Option Params → JsonRpcId → JsonRpcRequest
  create_json_rpc_subscription_request id method params subscription_id = record {
    id = some id;
    method = method;
    params = params;
    subscription = some subscription_id;
  }

  abbrev pub create_json_rpc_request : JsonRpcId → String → Option Params → JsonRpcRequest
  create_json_rpc_request id method params = record {
    id = some id;
    method = method;
    params = params;
    subscription = none;
  }

-- The two handlers of the program.
pub data Handler : Type 0 where
  handle_dwn_process_message : Handler
  handle_subscriptions_close : Handler

-- `JsonRpcRouter`: a handler for each method. Names that every object inherits are left out.
abbrev pub JsonRpcRouter : Type 0
JsonRpcRouter = List (String × Handler)

unfoldable pub on : String → Handler → JsonRpcRouter → JsonRpcRouter
on method_name handler router = Dict.set method_name handler router

-- The handler that `handle` calls; that of an unknown method is undefined, and no function.
unfoldable pub find_handler : JsonRpcRouter → String → Result Handler
find_handler router method = elim (Dict.get method router) [
  | none ↦ throw (other_error "handler is not a function")
  | some handler ↦ ok handler
]

-- src/json-rpc-api.ts
unfoldable pub json_rpc_router : JsonRpcRouter
json_rpc_router = on "rpc.subscribe.close" handle_subscriptions_close (
    on "rpc.subscribe.dwn.processMessage" handle_dwn_process_message
      (on "dwn.processMessage" handle_dwn_process_message []))
