-- ===== src/Connect/Setup.antt =====
-- src/web5-connect/sql-ttl-cache.ts, `create` and `initialize`, and the `create` of
-- web5-connect-server.ts: the table of the cache and its index are made if the table is not there. Each
-- statement is waited for, so that the statements of two servers on one database can alternate. The
-- statements are a parameter. Setup/Turns has what is documented of them, and two servers; Setup/Again a
-- server that stops before the end.
pub mod Turns
pub mod Again
pub mod Catalogues
mod Tests
use Prim.Native.String.{String}
use dwn_server.Common.{ℕ, zero, suc, Bool, Option, none, some, List, [], ◌∷◌, if◌then◌else◌}
use dwn_server.Errors.{Result, ok, throw, Error, other_error, ◌>>=◌}
use dwn_server.Connect.{Server}
use dwn_server.Storage.{Dialect, Url, get_dialect_from_url}

-- `hasTable` of the dialect, and the statements that make the table, if it is not there, and the index.
pub record Schema : Type 1 where
  pub Db : Type 0
  pub has_table : Db → Bool
  pub create_table : Db → Result Db
  pub create_index : Db → Result Db

-- Where an initialization stands: the statement that it runs next, or how it ended. The timer of the
-- clean-up runs from `ready` on.
pub data Setup : Type 0 where
  asking : Setup
  making_table : Setup
  making_index : Setup
  ready : Setup
  failed : Error → Setup

module _ (S : Schema) where
  open S use {Db, has_table, create_table, create_index}

  abbrev pub after_statement : Setup → Db → Result Db → Setup × Db
  after_statement next db (ok db') = (next, db')
  after_statement next db (throw e) = (failed e, db)

  abbrev pub after_asking : Bool → Setup
  after_asking there = if there then ready else making_table

  unfoldable pub advance : Setup → Db → Setup × Db
  advance asking db = (after_asking (has_table db), db)
  advance making_table db = after_statement making_index db (create_table db)
  advance making_index db = after_statement ready db (create_index db)
  advance ready db = (ready, db)
  advance (failed e) db = (failed e, db)

  abbrev pub advance_from : Setup × Db → Setup × Db
  advance_from (s, db) = advance s db

  -- The first statements, up to a number.
  unfoldable pub advances : ℕ → Setup × Db → Setup × Db
  advances zero p = p
  advances (suc n) p = advances n (advance_from p)

  -- All of them; there are three at most.
  unfoldable pub initialize : Db → Setup × Db
  unfolding advances
  initialize db = advances 3 (asking, db)

  -- `create` waits for the end.
  abbrev ended : Setup × Db → Result Db
  ended (asking, db) = ok db
  ended (making_table, db) = ok db
  ended (making_index, db) = ok db
  ended (ready, db) = ok db
  ended (failed e, db) = throw e

  -- The connection is made by the first statement, and can fail there; the dialect can be undefined, and
  -- then a property of it is read.
  abbrev pub create_cache : (Dialect → Result Db) → Option Dialect → Result Db
  create_cache connect none = throw (other_error "Cannot read properties of undefined")
  create_cache connect (some dialect) = connect dialect >>= λ db. ended (initialize db)

  abbrev pub with_cache : String → Db → Server Db
  with_cache base_url db = record { base_url = base_url; db = db; pending = [] }

  -- `create` of the connect server.
  unfoldable pub create_web5_connect_server :
      (String → Result (Unit {0}))
      → (Dialect → Result Db)
      → String
      → Url
      → List String
      → Result (Server Db)
  unfolding initialize
  create_web5_connect_server mkdir connect base_url url dirs = do
    (dialect, dirs') ← get_dialect_from_url mkdir url dirs
    db ← create_cache connect dialect
    ok (with_cache base_url db)

  pub data Turn : Type 0 where
    first_server : Turn
    second_server : Turn

  -- Two servers that start on one database.
  pub record Servers : Type 0 where
    pub first : Setup
    pub second : Setup
    pub db : Db

  abbrev pub with_first : Servers → Setup × Db → Servers
  with_first s (a, db) = record { first = a; second = s.second; db = db }

  abbrev pub with_second : Servers → Setup × Db → Servers
  with_second s (b, db) = record { first = s.first; second = b; db = db }

  unfoldable pub step : Turn → Servers → Servers
  step first_server s = with_first s (advance s.first s.db)
  step second_server s = with_second s (advance s.second s.db)

  unfoldable pub run : List Turn → Servers → Servers
  run [] s = s
  run (t ∷ ts) s = run ts (step t s)

  abbrev pub both_start : Db → Servers
  both_start db = record { first = asking; second = asking; db = db }
