-- ===== src/Connect/Table.antt =====
-- What is documented of the SQL table and of JSON text.
use Prim.Native.String.{String}
use dwn_server.Common.{
  ℕ, Bool, true, false, ◌≡◌, ◌≢◌, refl, not, List, [], ◌∷◌, ◌⊎◌, ◌++◌, filter, ltb,
}
use dwn_server.Errors.{ok, throw, Error}
use dwn_server.Connect.{
  CacheEntry, CacheTable, JsonText, Server, Statement, execute, execute_all, settle, send,
}

-- The primary key lets a key stand in one row at most. An insert is refused if its key stands, or if
-- the row does not fit the columns: `key` is a varchar(512), and `expiry` an integer, which has 32 bits
-- in PostgreSQL and MySQL and 64 in SQLite.
pub record IsTable (T : CacheTable) : Type 0 where
  pub fits : CacheEntry → Bool
  pub insert_unfit :
      (e : CacheEntry) (db : T.Db) → fits e ≡ false → (err : Error) × (T.insert e db ≡ throw err)
  pub select_one :
      (k : String) (db : T.Db)
      → (T.select k db ≡ []) ⊎ ((e : CacheEntry) × (T.select k db ≡ e ∷ []))
  pub insert_new :
      (e : CacheEntry) (db : T.Db)
      → T.select e.key db ≡ []
      → fits e ≡ true
      → (db' : T.Db) × (T.insert e db ≡ ok db')
  pub insert_present :
      (e e' : CacheEntry) (db : T.Db)
      → T.select e.key db ≡ e' ∷ []
      → (err : Error) × (T.insert e db ≡ throw err)
  pub select-insert_self :
      (e : CacheEntry) (db db' : T.Db) → T.insert e db ≡ ok db' → T.select e.key db' ≡ e ∷ []
  pub select-insert_ne :
      (e : CacheEntry) (k : String) (db db' : T.Db)
      → T.insert e db ≡ ok db'
      → k ≢ e.key
      → T.select k db' ≡ T.select k db
  pub select-delete_self : (k : String) (db : T.Db) → T.select k (T.delete k db) ≡ []
  pub select-delete_ne :
      (k j : String) (db : T.Db) → k ≢ j → T.select k (T.delete j db) ≡ T.select k db
  pub select-delete_expired :
      (k : String) (now : ℕ) (db : T.Db)
      → T.select k (T.delete_expired now db) ≡ filter (λ e. not (ltb e.expiry now)) (T.select k db)

-- What is printed is read back.
pub record IsJson (J : JsonText) : Type 0 where
  pub of_text-to_text : (v : J.Value) → J.of_text (J.to_text v) ≡ ok v

module _ (T : CacheTable) where
  open T use {Db}

  execute_all-append :
      (ss : List Statement) (st : Statement) (db : Db)
      → execute_all T (ss ++ st ∷ []) db ≡ execute T st (execute_all T ss db)
  unfolding execute_all
  execute_all-append [] st db = refl
  execute_all-append (x ∷ ss) st db = execute_all-append ss st (execute T x db)

  -- The table once the database has caught up.
  abbrev pub settled : Server Db → Db
  settled s = execute_all T s.pending s.db

  pub settle-send :
      (st : Statement) (s : Server Db) → (settle T (send T st s)).db ≡ execute T st (settled s)
  unfolding settle
  settle-send st s = execute_all-append s.pending st s.db

  pub settle-settled : (s : Server Db) → (settle T s).db ≡ settled s
  unfolding settle
  settle-settled s = refl

  -- A queue that was run is run.
  pub settle-settle : (s : Server Db) → settle T (settle T s) ≡ settle T s
  unfolding settle execute_all
  settle-settle s = refl
