-- ===== src/Connect.antt =====
-- src/web5-connect/sql-ttl-cache.ts and web5-connect-server.ts: requests and responses that are kept
-- for ten minutes and handed out once. The SQL table and the conversion of values to JSON text are
-- parameters. The server does not wait for the statements that it sends to the database in `set`
-- and after a read: they stand in a queue, `pending`, until the database runs them.
pub mod Table
pub mod Once
pub mod Expiry
pub mod Races
pub mod Rows
pub mod Setup
mod Tests
use Prim.Native.String.{String}
use dwn_server.Common.{ℕ, ◌+◌, ◌*◌, Option, none, some, List, [], ◌∷◌, ◌++◌, if◌then◌else◌, leb}
use dwn_server.Common.Text.{◌<>◌}
use dwn_server.Errors.{Result, ok, throw}

pub record CacheEntry : Type 0 where
  pub key : String
  pub value : String
  pub expiry : ℕ

-- The statements on the table `cacheEntries`, whose primary key is `key`; an insert can fail.
pub record CacheTable : Type 1 where
  pub Db : Type 0
  pub insert : CacheEntry → Db → Result Db
  pub select : String → Db → List CacheEntry
  pub delete : String → Db → Db
  pub delete_expired : ℕ → Db → Db

-- The values, JSON.stringify and JSON.parse.
pub record JsonText : Type 1 where
  pub Value : Type 0
  pub to_text : Value → String
  pub of_text : String → Result Value

-- A statement that was sent to the database.
pub data Statement : Type 0 where
  insert_entry : CacheEntry → Statement
  delete_key : String → Statement
  delete_older : ℕ → Statement

pub record SetWeb5ConnectRequestResult : Type 0 where
  pub request_uri : String
  pub expires_in : ℕ

abbrev pub ttl_in_seconds : ℕ
ttl_in_seconds = 600

abbrev pub request_key : String → String
request_key id = "request:" <> id

abbrev pub response_key : String → String
response_key state = "response:" <> state

pub record Server (Db : Type 0) : Type 0 where
  pub base_url : String
  pub db : Db
  pub pending : List Statement

module _ (T : CacheTable) where
  open T use {Db, insert, select, delete, delete_expired}

  -- A failed insert leaves the table as it was; nobody waits for the error.
  abbrev after_insert : Db → Result Db → Db
  after_insert db (ok db') = db'
  after_insert db (throw e) = db

  unfoldable pub execute : Statement → Db → Db
  execute (insert_entry e) db = after_insert db (insert e db)
  execute (delete_key k) db = delete k db
  execute (delete_older now) db = delete_expired now db

  unfoldable pub execute_all : List Statement → Db → Db
  execute_all [] db = db
  execute_all (s ∷ ss) db = execute_all ss (execute s db)

  -- The database runs the first statement of the queue, or all.
  unfoldable pub flush : Server Db → Server Db
  flush s = elim s.pending [
    | [] ↦ s
    | st ∷ rest ↦ record s { db = execute st s.db; pending = rest }
  ]

  unfoldable pub settle : Server Db → Server Db
  settle s = record s { db = execute_all s.pending s.db; pending = [] }

  abbrev pub send : Statement → Server Db → Server Db
  send st s = record s { pending = s.pending ++ st ∷ [] }

  -- The timer's call, every minute.
  unfoldable pub clean_up_expired_entries : ℕ → Server Db → Server Db
  clean_up_expired_entries now s = send (delete_older now) s

  module _ (J : JsonText) where
    open J use {Value, to_text, of_text}

    -- `insert` of the cache, whose time to live is in seconds.
    unfoldable pub cache_insert : ℕ → String → Value → ℕ → Server Db → Server Db
    cache_insert now key value ttl s =
        send (insert_entry (record { key = key; value = to_text value; expiry = now + ttl * 1000 }))
          s

    abbrev parsed : Result Value → Result (Option Value)
    parsed (ok v) = ok (some v)
    parsed (throw e) = throw e

    abbrev read_entry : ℕ → String → List CacheEntry → Server Db → Server Db × Result (Option Value)
    read_entry now key [] s = (s, ok none)
    read_entry now key (entry ∷ _) s =
        if leb entry.expiry now
        then (send (delete_key key) s, ok none)
        else (s, parsed (of_text entry.value))

    -- `get` of the cache.
    unfoldable pub cache_get : ℕ → String → Server Db → Server Db × Result (Option Value)
    cache_get now key s = read_entry now key (select key s.db) s

    unfoldable pub set_web5_connect_request :
        ℕ → String → Value → Server Db → Server Db × SetWeb5ConnectRequestResult
    set_web5_connect_request now request_id request s = (
      cache_insert now (request_key request_id) request ttl_in_seconds s,
      record {
        request_uri = s.base_url <> "/connect/authorize/" <> request_id <> ".jwt";
        expires_in = ttl_in_seconds;
      },
    )

    -- The value is deleted once it was read.
    abbrev delete_if_found :
        String → Server Db × Result (Option Value) → Server Db × Result (Option Value)
    delete_if_found key (s, ok (some v)) = (send (delete_key key) s, ok (some v))
    delete_if_found key (s, ok none) = (s, ok none)
    delete_if_found key (s, throw e) = (s, throw e)

    unfoldable pub get_web5_connect_request :
        ℕ → String → Server Db → Server Db × Result (Option Value)
    get_web5_connect_request now request_id s =
        delete_if_found (request_key request_id) (cache_get now (request_key request_id) s)

    unfoldable pub set_web5_connect_response : ℕ → String → Value → Server Db → Server Db
    set_web5_connect_response now state response s =
        cache_insert now (response_key state) response ttl_in_seconds s

    unfoldable pub get_web5_connect_response :
        ℕ → String → Server Db → Server Db × Result (Option Value)
    get_web5_connect_response now state s =
        delete_if_found (response_key state) (cache_get now (response_key state) s)
