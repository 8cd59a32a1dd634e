-- ===== src/Connect/Setup/Turns.antt =====
-- src/web5-connect/sql-ttl-cache.ts, `initialize`: two servers that start on one database.
use dwn_server.Common.{
  Bool, true, false, not, ◌&&◌, ◌||◌, ◌≡◌, refl, List, [], ◌∷◌, arith, Bool-cases, subst, inl, inr,
}
use dwn_server.Errors.{ok, throw, Error}
use dwn_server.Connect.Setup

-- What is documented of the statements: the table is made unless it is there, and an index of a name
-- that is there is refused. `has_index` is not read by the program.
pub record IsSchema (S : Setup.Schema) : Type 0 where
  pub has_index : S.Db → Bool
  pub create_table_ok :
      (db : S.Db)
      → (db' : S.Db) × (S.create_table db ≡ ok db')
        × (S.has_table db' ≡ true)
        × (has_index db' ≡ has_index db)
  pub create_index_new :
      (db : S.Db)
      → S.has_table db ≡ true
      → has_index db ≡ false
      → (db' : S.Db) × (S.create_index db ≡ ok db')
        × (S.has_table db' ≡ true)
        × (has_index db' ≡ true)
  pub create_index_present :
      (db : S.Db) → has_index db ≡ true → (e : Error) × (S.create_index db ≡ throw e)

abbrev pub is_ready : Setup.Setup → Bool
is_ready Setup.asking = false
is_ready Setup.making_table = false
is_ready Setup.making_index = false
is_ready Setup.ready = true
is_ready (Setup.failed e) = false

-- What holds of an initialization beside another one, of the table and of the index.
abbrev may_stand : Setup.Setup → Setup.Setup → Bool → Bool → Bool
may_stand Setup.asking other table index = true
may_stand Setup.making_table other table index = not index || is_ready other
may_stand Setup.making_index other table index = table && (not index || is_ready other)
may_stand Setup.ready other table index = table
may_stand (Setup.failed e) other table index = table && is_ready other

-- Of both, and no index without a table.
abbrev may_both : Setup.Setup → Setup.Setup → Bool → Bool → Bool
may_both a b table index =
    may_stand a b table index && may_stand b a table index && (table || not index)

after_asking-may_both :
    (S : Setup.Schema) (b : Setup.Setup) (table index : Bool)
    → may_both Setup.asking b table index ≡ true
    → may_both (Setup.after_asking S table) b table index ≡ true
after_asking-may_both S Setup.asking table index h = ground arith
after_asking-may_both S Setup.making_table table index h = ground arith
after_asking-may_both S Setup.making_index table index h = ground arith
after_asking-may_both S Setup.ready table index h = ground arith
after_asking-may_both S (Setup.failed e) table index h = ground arith

may_both_table_made :
    (b : Setup.Setup) (table index : Bool)
    → may_both Setup.making_table b table index ≡ true
    → may_both Setup.making_index b true index ≡ true
may_both_table_made Setup.asking table index h = ground arith
may_both_table_made Setup.making_table table index h = ground arith
may_both_table_made Setup.making_index table index h = ground arith
may_both_table_made Setup.ready table index h = ground arith
may_both_table_made (Setup.failed e) table index h = ground arith

may_both_index_made :
    (b : Setup.Setup) (table : Bool)
    → may_both Setup.making_index b table false ≡ true
    → may_both Setup.ready b true true ≡ true
may_both_index_made Setup.asking table h = refl
may_both_index_made Setup.making_table table h = refl
may_both_index_made Setup.making_index table h = refl
may_both_index_made Setup.ready table h = refl
may_both_index_made (Setup.failed e) table h = refl

may_both_index_refused :
    (b : Setup.Setup) (e : Error) (table : Bool)
    → may_both Setup.making_index b table true ≡ true
    → may_both (Setup.failed e) b table true ≡ true
may_both_index_refused Setup.asking e table h = ground arith
may_both_index_refused Setup.making_table e table h = ground arith
may_both_index_refused Setup.making_index e table h = ground arith
may_both_index_refused Setup.ready e table h = ground arith
may_both_index_refused (Setup.failed e') e table h = ground arith

may_both-table :
    (b : Setup.Setup) (table index : Bool)
    → may_both Setup.making_index b table index ≡ true
    → table ≡ true
may_both-table b table index h = ground arith

may_both_swap :
    (a b : Setup.Setup) (table index : Bool)
    → may_both a b table index ≡ true
    → may_both b a table index ≡ true
may_both_swap a b table index h = ground arith

failed-may_both :
    (a b : Setup.Setup) (e : Error) (table index : Bool)
    → a ≡ Setup.failed e
    → may_both a b table index ≡ true
    → (b ≡ Setup.ready) × (table ≡ true)
failed-may_both Setup.asking b e table index failed_ h = absurd (cc failed_)
failed-may_both Setup.making_table b e table index failed_ h = absurd (cc failed_)
failed-may_both Setup.making_index b e table index failed_ h = absurd (cc failed_)
failed-may_both Setup.ready b e table index failed_ h = absurd (cc failed_)
failed-may_both (Setup.failed e') Setup.asking e table index failed_ h = ground arith
failed-may_both (Setup.failed e') Setup.making_table e table index failed_ h = ground arith
failed-may_both (Setup.failed e') Setup.making_index e table index failed_ h = ground arith
failed-may_both (Setup.failed e') Setup.ready e table index failed_ h = ground arith
failed-may_both (Setup.failed e') (Setup.failed e'') e table index failed_ h = ground arith

-- Where a server's initialization stands, and the other server.
abbrev pub standing : {S : Setup.Schema} → Setup.Turn S → Setup.Servers S → Setup.Setup
standing Setup.first_server s = s.first
standing Setup.second_server s = s.second

abbrev pub other : {S : Setup.Schema} → Setup.Turn S → Setup.Turn S
other Setup.first_server = Setup.second_server
other Setup.second_server = Setup.first_server

module _ (S : Setup.Schema) (documented : IsSchema S) where
  open documented use {has_index, create_table_ok, create_index_new, create_index_present}
  open S use {Db, has_table}

  abbrev coherent : Setup.Setup × Db → Setup.Setup → Bool
  coherent (a, db) b = may_both a b (has_table db) (has_index db)

  table-coherent :
      (b : Setup.Setup) (db : Db)
      → coherent (Setup.making_table, db) b ≡ true
      → coherent (Setup.advance S Setup.making_table db) b ≡ true
  unfolding Setup.advance
  table-coherent b db h =
      let (db', made, table, index) = create_table_ok db in
      rw (made, table, index, may_both_table_made b (has_table db) (has_index db) h)

  index-coherent :
      (b : Setup.Setup) (db : Db)
      → coherent (Setup.making_index, db) b ≡ true
      → coherent (Setup.advance S Setup.making_index db) b ≡ true
  unfolding Setup.advance
  index-coherent b db h = elim (Bool-cases (has_index db)) [
    | inl present ↦
        let (e, refused) = create_index_present db present in
        let h' =
          subst (λ (i : Bool). may_both Setup.making_index b (has_table db) i ≡ true) present h in
        rw (refused, present, may_both_index_refused b e (has_table db) h')
    | inr new ↦
        let there = may_both-table b (has_table db) (has_index db) h in
        let (db', made, table, index) = create_index_new db there new in
        let h' =
          subst (λ (i : Bool). may_both Setup.making_index b (has_table db) i ≡ true) new h in
        rw (made, table, index, may_both_index_made b (has_table db) h')
  ]

  advance-coherent :
      (a b : Setup.Setup) (db : Db)
      → coherent (a, db) b ≡ true
      → coherent (Setup.advance S a db) b ≡ true
  unfolding Setup.advance
  advance-coherent Setup.asking b db h = after_asking-may_both S b (has_table db) (has_index db) h
  advance-coherent Setup.making_table b db h = table-coherent b db h
  advance-coherent Setup.making_index b db h = index-coherent b db h
  advance-coherent Setup.ready b db h = h
  advance-coherent (Setup.failed e) b db h = h

  abbrev all_coherent : Setup.Servers S → Bool
  all_coherent s = coherent (s.first, s.db) s.second

  step-all_coherent :
      (t : Setup.Turn S) (s : Setup.Servers S)
      → all_coherent s ≡ true
      → all_coherent (Setup.step S t s) ≡ true
  unfolding Setup.step
  step-all_coherent Setup.first_server s h = advance-coherent s.first s.second s.db h
  step-all_coherent Setup.second_server s h =
      may_both_swap (Setup.advance S s.second s.db).0 s.first
        (has_table (Setup.advance S s.second s.db).1) (has_index (Setup.advance S s.second s.db).1)
        (advance-coherent s.second s.first s.db
          (may_both_swap s.first s.second (has_table s.db) (has_index s.db) h))

  run-all_coherent :
      (ts : List (Setup.Turn S)) (s : Setup.Servers S)
      → all_coherent s ≡ true
      → all_coherent (Setup.run S ts s) ≡ true
  unfolding Setup.run
  run-all_coherent [] s h = h
  run-all_coherent (t ∷ ts) s h = run-all_coherent ts (Setup.step S t s) (step-all_coherent t s h)

  coherent_failed :
      (who : Setup.Turn S) (s : Setup.Servers S) (e : Error)
      → all_coherent s ≡ true
      → standing who s ≡ Setup.failed e
      → (standing (other who) s ≡ Setup.ready) × (has_table s.db ≡ true)
  coherent_failed Setup.first_server s e h is_failed =
      failed-may_both s.first s.second e (has_table s.db) (has_index s.db) is_failed h
  coherent_failed Setup.second_server s e h is_failed =
      failed-may_both s.second s.first e (has_table s.db) (has_index s.db) is_failed
        (may_both_swap s.first s.second (has_table s.db) (has_index s.db) h)

  -- Two servers start on one database, that has the table or no index, and their statements alternate in
  -- any order. If the start of one fails, then that of the other has succeeded, and the table is there.
  pub run_failed :
      (db : Db) (ts : List (Setup.Turn S)) (who : Setup.Turn S) (e : Error)
      → (has_table db || not (has_index db)) ≡ true
      → standing who (Setup.run S ts (Setup.both_start S db)) ≡ Setup.failed e
      → (standing (other who) (Setup.run S ts (Setup.both_start S db)) ≡ Setup.ready)
        × (has_table (Setup.run S ts (Setup.both_start S db)).db ≡ true)
  run_failed db ts who e h is_failed =
      coherent_failed who (Setup.run S ts (Setup.both_start S db)) e
        (run-all_coherent ts (Setup.both_start S db) h) is_failed
