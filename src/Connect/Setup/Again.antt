-- ===== src/Connect/Setup/Again.antt =====
-- src/web5-connect/sql-ttl-cache.ts and web5-connect-server.ts, `create`: which configurations it
-- accepts, and a server that starts after one that stopped before the end.
use Prim.Native.String.{String}
use dwn_server.Common.{
  ℕ, zero, suc, Bool, true, false, not, ◌||◌, ◌≡◌, refl, ap, List, arith, Option, none, some,
  Bool-cases, inl, inr, ◌==◌, nat_eq, ◌∙◌, sym, ◌↔◌,
}
use dwn_server.Errors.{Result, ok, ok-bind, bind-ok}
use dwn_server.Connect.{Server}
use dwn_server.Connect.Setup
use dwn_server.Storage.{Dialect, Url, get_dialect_from_url}
use dwn_server.Connect.Setup.Turns.{IsSchema}

module _ (S : Setup.Schema) (documented : IsSchema S) where
  open documented use {has_index, create_table_ok, create_index_new, create_index_present}
  open S use {Db, has_table}

  -- The statements from a database without a table and index.
  advance-new :
      (db : Db)
      → has_table db ≡ false
      → has_index db ≡ false
      → (made indexed : Db) × (Setup.advance S Setup.asking db ≡ (Setup.making_table, db))
        × (Setup.advance S Setup.making_table db ≡ (Setup.making_index, made))
        × (Setup.advance S Setup.making_index made ≡ (Setup.ready, indexed))
        × (has_table made ≡ true)
        × (has_index made ≡ false)
        × (has_table indexed ≡ true)
        × (has_index indexed ≡ true)
  unfolding Setup.advance
  advance-new db no_table no_index =
      let (made, e, t, i) = create_table_ok db in
      let (indexed, e', t', i') = create_index_new made t (i ∙ no_index) in
      (made, indexed, rw (no_table), rw (e), rw (e'), t, i ∙ no_index, t', i')

  advances-ready : (n : ℕ) (db : Db) → Setup.advances S n (Setup.ready, db) ≡ (Setup.ready, db)
  unfolding Setup.advances Setup.advance
  advances-ready zero db = refl
  advances-ready (suc n) db = advances-ready n db

  initialize-there : (db : Db) → has_table db ≡ true → Setup.initialize S db ≡ (Setup.ready, db)
  unfolding Setup.initialize Setup.advances Setup.advance
  initialize-there db there = rw (there)

  initialize-new :
      (db made indexed : Db)
      → Setup.advance S Setup.asking db ≡ (Setup.making_table, db)
      → Setup.advance S Setup.making_table db ≡ (Setup.making_index, made)
      → Setup.advance S Setup.making_index made ≡ (Setup.ready, indexed)
      → Setup.initialize S db ≡ (Setup.ready, indexed)
  unfolding Setup.initialize Setup.advances
  initialize-new db made indexed h h' h'' = rw (h, h', h'')

  -- The database as a server leaves it that stops after some statements.
  abbrev pub left_after : ℕ → Db → Db
  left_after n db = (Setup.advances S n (Setup.asking, db)).1

  left_after-new :
      (n : ℕ) (db made indexed : Db)
      → Setup.advance S Setup.asking db ≡ (Setup.making_table, db)
      → Setup.advance S Setup.making_table db ≡ (Setup.making_index, made)
      → Setup.advance S Setup.making_index made ≡ (Setup.ready, indexed)
      → left_after (suc (suc (suc n))) db ≡ indexed
  unfolding Setup.advances
  left_after-new n db made indexed h h' h'' =
      ap (λ (p : Setup.Setup × Db). (Setup.advances S (suc (suc n)) p).1) h
      ∙ ap (λ (p : Setup.Setup × Db). (Setup.advances S n (Setup.advance_from S p)).1) h'
      ∙ ap (λ (p : Setup.Setup × Db). (Setup.advances S n p).1) h''
      ∙ ap (λ (p : Setup.Setup × Db). p.1) (advances-ready n indexed)

  left_after_two :
      (db made : Db)
      → Setup.advance S Setup.asking db ≡ (Setup.making_table, db)
      → Setup.advance S Setup.making_table db ≡ (Setup.making_index, made)
      → left_after 2 db ≡ made
  unfolding Setup.advances
  left_after_two db made h h' =
      ap (λ (p : Setup.Setup × Db). (Setup.advance_from S p).1) h
      ∙ ap (λ (p : Setup.Setup × Db). p.1) h'

  initialize-outcome :
      (left db final : Db) (present : Bool)
      → left ≡ db
      → Setup.initialize S db ≡ (Setup.ready, final)
      → has_table final ≡ true
      → has_index final ≡ present
      → ((Setup.initialize S left).0 ≡ Setup.ready)
        × (has_table (Setup.initialize S left).1 ≡ true)
        × (has_index (Setup.initialize S left).1 ≡ present)
  initialize-outcome left db final present same h t i =
      (rw (same, h), rw (same, h, t), rw (same, h, i))

  -- A server makes the cache's table in a database that has neither table nor index, and stops after
  -- some statements. The next server that starts on that database succeeds, and then the table is
  -- there; the index is there unless the first server had stopped between the table and the index.
  pub initialize_after_stop :
      (db : Db) (n : ℕ)
      → has_table db ≡ false
      → has_index db ≡ false
      → ((Setup.initialize S (left_after n db)).0 ≡ Setup.ready)
        × (has_table (Setup.initialize S (left_after n db)).1 ≡ true)
        × (has_index (Setup.initialize S (left_after n db)).1 ≡ not (n == 2))
  unfolding Setup.advances
  initialize_after_stop db zero no_table no_index =
      let (made, indexed, a, b, c, t, i, t', i') = advance-new db no_table no_index in
      initialize-outcome db db indexed true refl (initialize-new db made indexed a b c) t' i'
  initialize_after_stop db (suc zero) no_table no_index =
      let (made, indexed, a, b, c, t, i, t', i') = advance-new db no_table no_index in
      initialize-outcome (left_after 1 db) db indexed true (ap (λ (p : Setup.Setup × Db). p.1) a)
        (initialize-new db made indexed a b c) t' i'
  initialize_after_stop db (suc (suc zero)) no_table no_index =
      let (made, indexed, a, b, c, t, i, t', i') = advance-new db no_table no_index in
      initialize-outcome (left_after 2 db) made made false (left_after_two db made a b)
        (initialize-there made t) t i
  initialize_after_stop db (suc (suc (suc n))) no_table no_index =
      let (made, indexed, a, b, c, t, i, t', i') = advance-new db no_table no_index in
      let past : not (suc (suc (suc n)) == 2) ≡ true = ground arith in
      initialize-outcome (left_after (suc (suc (suc n))) db) indexed indexed
        (not (suc (suc (suc n)) == 2)) (left_after-new n db made indexed a b c)
        (initialize-there indexed t') t' (i' ∙ sym past)

  initialize_ok :
      (db : Db)
      → (has_table db || not (has_index db)) ≡ true
      → (final : Db) × (Setup.initialize S db ≡ (Setup.ready, final)) × (has_table final ≡ true)
  initialize_ok db h = elim (Bool-cases (has_table db)) [
    | inl there ↦ (db, initialize-there db there, there)
    | inr no_table ↦
        let no_index : has_index db ≡ false = ground arith in
        let (made, indexed, a, b, c, t, i, t', i') = advance-new db no_table no_index in
        (indexed, initialize-new db made indexed a b c, t')
  ]

  -- The directory of the URL is there or is made, it has a dialect, and its database is reached.
  pub record Opens (mkdir : String → Result (Unit {0})) (connect : Dialect → Result Db) (url : Url)
      (dirs : List String) : Type 0 where
    pub dialect : Dialect
    pub dirs' : List String
    pub db : Db
    pub has_dialect : get_dialect_from_url mkdir url dirs ≡ ok (some dialect, dirs')
    pub connects : connect dialect ≡ ok db

  create_cache-Opens :
      (mkdir : String → Result (Unit {0})) (connect : Dialect → Result Db) (url : Url)
      (dirs : List String) (o : Option Dialect) (dirs' : List String) (db : Db)
      → get_dialect_from_url mkdir url dirs ≡ ok (o, dirs')
      → Setup.create_cache S connect o ≡ ok db
      → Opens mkdir connect url dirs
  create_cache-Opens mkdir connect url dirs none dirs' db is h = absurd (cc h)
  create_cache-Opens mkdir connect url dirs (some d) dirs' db is h =
      let (opened, reached, rest) = ok-bind (connect d) _ db h in
      record { dialect = d; dirs' = dirs'; db = opened; has_dialect = is; connects = reached }

  create_cache_ok :
      (connect : Dialect → Result Db) (d : Dialect) (db final : Db)
      → connect d ≡ ok db
      → Setup.initialize S db ≡ (Setup.ready, final)
      → Setup.create_cache S connect (some d) ≡ ok final
  create_cache_ok connect d db final reached is = rw (reached, is) refl

  -- The connect server is created exactly if its URL opens a database, and then it has its base URL,
  -- and the table is there. Each database that is connected to has the table or no index.
  pub create_web5_connect_server_iff :
      (mkdir : String → Result (Unit {0})) (connect : Dialect → Result Db) (base_url : String)
      (url : Url) (dirs : List String)
      → ((d : Dialect) (db : Db) → connect d ≡ ok db → (has_table db || not (has_index db)) ≡ true)
      → ((server : Server Db) × (Setup.create_web5_connect_server S mkdir connect base_url url dirs
            ≡ ok server)
          × (server.base_url ≡ base_url)
          × (has_table server.db ≡ true))
        ↔ Opens mkdir connect url dirs
  unfolding Setup.create_web5_connect_server
  create_web5_connect_server_iff mkdir connect base_url url dirs h = (
    λ (server, created, base, there).
        let (p, dialect, rest) = ok-bind (get_dialect_from_url mkdir url dirs) _ server created in
        let (db, cached, whole) = ok-bind (Setup.create_cache S connect p.0) _ server rest in
        create_cache-Opens mkdir connect url dirs p.0 p.1 db dialect cached,
    λ o.
        let (final, ends, there) = initialize_ok o.db (h o.dialect o.db o.connects) in
        let cached = create_cache_ok connect o.dialect o.db final o.connects ends in
        (
          Setup.with_cache S base_url final,
          bind-ok (get_dialect_from_url mkdir url dirs) _ (some o.dialect, o.dirs') o.has_dialect
              ∙ bind-ok (Setup.create_cache S connect (some o.dialect)) _ final cached,
          refl,
          there,
        ),
  )
