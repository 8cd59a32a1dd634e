-- ===== src/Http/Reads.antt =====
-- The routes of src/http-api.ts that read from the DWN. What the DWN library defines is the parameter
-- `Sdk`: its messages, and its replies to them at the time of a call.
pub mod Laws
mod Tests
use Prim.Native.String.{String}
use dwn_server.Common.{
  ℕ, Option, none, some, List, [], ◌∷◌, if◌then◌else◌, ◌==◌, string_eq, nat_beq,
}
use dwn_server.Errors.{Result, ok, throw, ◌>>=◌}
use dwn_server.Http.Query.{
  Value, leaf, object, Fields, empty, field, get_field, set_field, build, cannot_create_property,
}

-- A reply has a status; that of a read has the data of its entry, that of a query its entries, by
-- what a read needs of each.
pub record Sdk : Type 1 where
  pub Message : Type 0
  pub Reply : Type 0
  pub Stream : Type 0
  pub Entry : Type 0
  pub status : Reply → ℕ
  pub data_format : Reply → String
  pub data_ : Reply → Option Stream
  pub entries : Reply → List Entry
  pub record_id : Entry → String
  -- `RecordsQuery.create` of a filter, a pagination and a sort; and of a filter, for one record, the
  -- last published one first.
  pub records_query : Option Value → Option Value → Option Value → Result Message
  pub latest_query : Fields → Result Message
  pub records_read : String → Result Message
  pub protocols_query : Option String → Result Message
  pub process_message : String → Message → Result Reply
  pub base64_url : String → Result String

module _ (S : Sdk) where
  open S use {
    Message, Reply, Stream, Entry, status, data_format, data_, entries, record_id, records_query,
    latest_query, records_read, protocols_query, process_message, base64_url,
  }

  -- A status alone, with a text or an error; a reply as JSON; entries of a reply; and the data of a
  -- record with its format, and its reply in a header.
  pub data Answer : Type 0 where
    status_only : ℕ → Answer
    status_text : ℕ → String → Answer
    reply_json : ℕ → Reply → Answer
    entry_json : ℕ → Entry → Answer
    entries_json : ℕ → List Entry → Answer
    data_stream : String → Stream → Reply → Answer

  abbrev pub answer_status : Answer → ℕ
  answer_status (status_only n) = n
  answer_status (status_text n s) = n
  answer_status (reply_json n r) = n
  answer_status (entry_json n e) = n
  answer_status (entries_json n es) = n
  answer_status (data_stream f s r) = 200

  abbrev stream_or : Reply → Option Stream → Answer
  stream_or r none = status_only 400
  stream_or r (some s) = data_stream (data_format r) s r

  unfoldable pub read_reply_handler : Reply → Answer
  read_reply_handler r =
      if nat_beq (status r) 200
      then stream_or r (data_ r)
      else if nat_beq (status r) 401
      then status_only 404
      else reply_json (status r) r

  -- `recordsReadHandler`; an exception is an answer that never comes.
  unfoldable pub records_read_handler : String → String → Result Answer
  records_read_handler did id = do
    message ← records_read id
    reply ← process_message did message
    ok (read_reply_handler reply)

  -- What the routes for a query do with the reply.
  abbrev by_status : (List Entry → Result Answer) → Reply → Result Answer
  by_status f r =
      if nat_beq (status r) 200
      then f (entries r)
      else if nat_beq (status r) 401
      then ok (status_only 404)
      else ok (status_only (status r))

  -- The catch block of a route.
  abbrev pub caught : Result Answer → Answer
  caught (ok a) = a
  caught (throw e) = status_only 400

  abbrev read_first : String → List Entry → Result Answer
  read_first did [] = ok (status_only 404)
  read_first did (e ∷ es) = records_read_handler did (record_id e)

  -- `queryOptions.filter`, to which properties are then assigned.
  abbrev filter_of : Option Value → Result Fields
  filter_of none = throw cannot_create_property
  filter_of (some (leaf s)) = throw cannot_create_property
  filter_of (some (object fs)) = ok fs

  -- The try block of GET /:did/read/protocols/:protocol/*; `path` is the rest of the path without
  -- its leading and trailing slash.
  abbrev read_protocol_path : String → String → String → List (String × String) → Result Answer
  read_protocol_path did protocol path query = do
    options ← build query (field "filter" (object empty) empty)
    decoded ← base64_url protocol
    filter ← filter_of (get_field "filter" options)
    message ←
        latest_query
          (set_field "protocolPath" (leaf path) (set_field "protocol" (leaf decoded) filter))
    reply ← process_message did message
    by_status (read_first did) reply

  -- GET /:did/read/protocols/:protocol/*; `trim` removes one slash at each end.
  unfoldable pub get_read_protocol_path :
      (String → String) → String → String → String → List (String × String) → Answer
  get_read_protocol_path trim did protocol rest query =
      if rest == ""
      then status_text 400 "protocol path is required"
      else caught (read_protocol_path did protocol (trim rest) query)

  abbrev first_entry : List Entry → Result Answer
  first_entry [] = ok (status_only 404)
  first_entry (e ∷ es) = ok (entry_json 200 e)

  abbrev read_protocol : String → String → Result Answer
  read_protocol did protocol = do
    decoded ← base64_url protocol
    message ← protocols_query (some decoded)
    reply ← process_message did message
    by_status first_entry reply

  -- GET /:did/read/protocols/:protocol
  unfoldable pub get_read_protocol : String → String → Answer
  get_read_protocol did protocol = caught (read_protocol did protocol)

  abbrev all_entries : List Entry → Result Answer
  all_entries es = ok (entries_json 200 es)

  -- GET /:did/query/protocols
  unfoldable pub get_query_protocols : String → Result Answer
  get_query_protocols did = do
    message ← protocols_query none
    reply ← process_message did message
    by_status all_entries reply

  abbrev query_records : String → List (String × String) → Result Answer
  query_records did query = do
    options ← build query empty
    message ←
        records_query (get_field "filter" options) (get_field "pagination" options)
          (get_field "dateSort" options)
    reply ← process_message did message
    ok (reply_json 200 reply)

  abbrev caught_with : Result Answer → Answer
  caught_with (ok a) = a
  caught_with (throw e) = status_text 400 e.message

  -- GET /:did/query
  unfoldable pub get_query : String → List (String × String) → Answer
  get_query did query = caught_with (query_records did query)
