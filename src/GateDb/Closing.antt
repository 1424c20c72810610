-- ===== src/GateDb/Closing.antt =====
-- The connections and statements that the commands of src/gatedb.cpp leave open.
use mathlib.Core.Option.{some_inj}
use mod_gate.Base.{
  ℕ, zero, suc, ◌≡◌, ◌∙◌, refl, inl, inr, [], Option, none, some, Bytes, codes, ℤ, ◌==◌, arith,
  Bool-cases, Option-cases,
}
use mod_gate.GateDb.Index.{index_row_world}
use mod_gate.GateDb.Tool.{
  Rounds, finished, faulted, out_of_fuel, row_loop, index_body, index_end, index_prepared,
  index_opened, index_database,
}
use mod_gate.GateDb.{
  Exit, code, uncaught, crash, endless, Run, at_world, say, schema, index_sql, open_database,
  create_in, create_database, index_columns,
}
use mod_gate.Host.{Host, InAddr}
use mod_gate.Sqlite.Handles.{Owns, prepare-Keeps, step-Keeps, finalize-Keeps}
use mod_gate.Sqlite.Laws.{SqliteLaws}
use mod_gate.Sqlite.{
  Sqlite, Query, Outcome, returned, thrown, query, step, finalize, sqlite_ok, sqlite_row,
  db_execute,
}

module _ (sq : Sqlite) (laws : SqliteLaws sq) (host : Host) (junk : Run sq → InAddr) where
  open laws use {stmts, dbs}
  open sq use {Db}

  -- No statement is open, and `n` connections are.
  abbrev pub Holds : ℕ → sq.World → Type 0
  Holds n w = (stmts w ≡ 0) × (dbs w ≡ n)

  closed : (n : ℕ) (db : Db) (w : sq.World) → Holds (suc n) w → Holds n (sq.db_close db w).1
  closed n db w (s, d) =
      (omega (arith, laws.close_stmts db w), omega (arith, laws.close_dbs db w s))

  executed :
      (n : ℕ) (db : Db) (sql : Bytes) (w : sq.World)
      → Holds n w
      → Holds n (db_execute sq db sql [] w).1
  unfolding db_execute
  executed n db sql w (s, d) =
      (laws.exec_stmts db (sq.vmprintf sql []) w ∙ s, laws.exec_dbs db (sq.vmprintf sql []) w ∙ d)

  -- A connection that is open counts once more.
  abbrev OpenHolds : ℕ → Option Db × Run sq → Type 0
  OpenHolds n (none, r) = Holds n r.world
  OpenHolds n (some db, r) = Holds (suc n) r.world

  opened : (n : ℕ) (path : Bytes) (w : sq.World) → Holds n w → Holds (suc n) (sq.db_open path w).2
  opened n path w (s, d) =
      (omega (arith, laws.open_stmts path w), omega (arith, laws.open_dbs path w))

  open_database-OpenHolds :
      (n : ℕ) (path : Bytes) (r : Run sq)
      → Holds n r.world
      → OpenHolds n (open_database sq host junk path r)
  unfolding open_database say
  open_database-OpenHolds n path r h = elim (Bool-cases ((sq.db_open path r.world).0 == 0)) [
    | inl e ↦ rw e (opened n path r.world h)
    | inr e ↦
        rw e (
          closed n (sq.db_open path r.world).1 (sq.db_open path r.world).2
            (opened n path r.world h))
  ]

  create_in-Holds :
      (n : ℕ) (o : Option Db × Run sq)
      → OpenHolds n o
      → Holds n (create_in sq host junk o.0 o.1).1.world
  unfolding create_in say
  create_in-Holds n (none, r) h = h
  create_in-Holds n (some db, r) h =
      let w' = (db_execute sq db schema [] r.world).1 in
      let k : Holds n (sq.db_close db w').1 =
        closed n db w' (executed (suc n) db schema r.world h) in
      elim (Bool-cases ((db_execute sq db schema [] r.world).0 == sqlite_ok)) [
        | inl e ↦ rw e k
        | inr e ↦ rw e k
      ]

  -- When no statement is open, creating a database leaves none open and as many connections as
  -- there were, whether the file exists, it cannot be opened, the schema is refused, or all goes
  -- well.
  create_database_handles :
      (path : Bytes) (r : Run sq)
      → stmts r.world ≡ 0
      → Holds (dbs r.world) (create_database sq host junk path r).1.world
  unfolding create_database say
  create_database_handles path r s = elim (Bool-cases (host.readable path)) [
    | inl e ↦ rw e (s, refl)
    | inr e ↦ rw e (
        create_in-Holds (dbs r.world) (open_database sq host junk path r)
          (open_database-OpenHolds (dbs r.world) path r (s, refl)))
  ]

  -- The query owns the statements that are open, and `n` connections are.
  abbrev OwnHolds : ℕ → Query sq → sq.World → Type 0
  OwnHolds n q w = Owns sq laws 0 q w × (dbs w ≡ n)

  abbrev RoundsHold : ℕ → Rounds sq → Type 0
  RoundsHold n (finished q r) = OwnHolds n q r.world
  RoundsHold n (faulted r) = Unit
  RoundsHold n (out_of_fuel r) = Unit

  -- A body that leaves all handles as they are.
  abbrev Spares : (Query sq → Run sq → Option (Run sq)) → Type 0
  Spares body =
      (q : Query sq) (r r' : Run sq)
      → body q r ≡ some r'
      → (stmts r'.world ≡ stmts r.world) × (dbs r'.world ≡ dbs r.world)

  row_loop-RoundsHold :
      (n fuel : ℕ) (body : Query sq → Run sq → Option (Run sq)) (q : Query sq) (r : Run sq)
      → Spares body
      → OwnHolds n q r.world
      → RoundsHold n (row_loop sq fuel body q r)
  unfolding row_loop
  row_loop-RoundsHold n zero body q r spares h = tt
  row_loop-RoundsHold n (suc fuel) body q r spares (o, d) =
      let k = step-Keeps sq laws 0 q r.world o in
      let (rc, q', w') = step sq q r.world in
      elim (Bool-cases ((step sq q r.world).0 == sqlite_row)) [
        | inr e ↦ rw (row_loop, e) (k.owns, k.same_dbs ∙ d)
        | inl e ↦ elim (Option-cases (body q' (at_world sq r w'))) [
          | inl f ↦ rw (row_loop, e, f) tt
          | inr (r', f) ↦
              let (s, c) = spares q' (at_world sq r w') r' f in
              rw (row_loop, e, f)
                (row_loop-RoundsHold n fuel body q' r' spares (s ∙ k.owns, c ∙ k.same_dbs ∙ d))
        ]
      ]

  spared :
      (db : Db) (record_id : ℤ) (start_text end_text : Option Bytes) (r r' : Run sq)
      → index_columns sq host junk db record_id start_text end_text r ≡ some r'
      → (stmts r'.world ≡ stmts r.world) × (dbs r'.world ≡ dbs r.world)
  unfolding index_columns db_execute
  spared db record_id none end_text r r' e = cc e
  spared db record_id (some start_text) none r r' e = cc e
  spared db record_id (some start_text) (some end_text) r r' e =
      rw (← some_inj.0 e, index_row_world sq host junk db record_id start_text end_text r)
        (laws.exec_stmts db _ r.world, laws.exec_dbs db _ r.world)

  index_body-Spares : (db : Db) → Spares (index_body sq host junk db)
  unfolding index_body index_columns db_execute
  index_body-Spares db q r r' e =
      spared db _ (sq.column_text q.stmt r.world 1) (sq.column_text q.stmt r.world 2) r r' e

  -- If the command returns a code, the handles are as they were.
  abbrev Clean : ℕ → Exit × Run sq → Type 0
  Clean n (code k, r) = Holds n r.world
  Clean n (uncaught what, r) = Unit
  Clean n (crash, r) = Unit
  Clean n (endless, r) = Unit

  Clean-Holds : (n k : ℕ) (o : Exit × Run sq) → Clean n o → o.0 ≡ code k → Holds n o.1.world
  Clean-Holds n k (code j, r) h e = h
  Clean-Holds n k (uncaught what, r) h e = cc e
  Clean-Holds n k (crash, r) h e = cc e
  Clean-Holds n k (endless, r) h e = cc e

  index_end-Clean :
      (n : ℕ) (db : Db) (o : Rounds sq)
      → RoundsHold (suc n) o
      → Clean n (index_end sq host junk db o)
  unfolding index_end db_execute
  index_end-Clean n db (faulted r) h = tt
  index_end-Clean n db (out_of_fuel r) h = tt
  index_end-Clean n db (finished q r) (o, d) =
      let sql = sq.vmprintf (codes "COMMIT") [] in
      let w' = (sq.db_exec db sql r.world).1 in
      let k = finalize-Keeps sq laws 0 q w' (laws.exec_stmts db sql r.world ∙ o) in
      closed n db (finalize sq q w').1 (k.owns, k.same_dbs ∙ laws.exec_dbs db sql r.world ∙ d)

  index_prepared-Clean :
      (n fuel : ℕ) (db : Db) (o : Outcome (Unit {0})) (q : Query sq) (r : Run sq)
      → OwnHolds (suc n) q r.world
      → Clean n (index_prepared sq host junk fuel db o q r)
  unfolding index_prepared
  index_prepared-Clean n fuel db (thrown what) q r h = tt
  index_prepared-Clean n fuel db (returned u) q r h =
      index_end-Clean n db _
        (row_loop-RoundsHold (suc n) fuel (index_body sq host junk db) q r (index_body-Spares db) h)

  index_opened-Clean :
      (n fuel : ℕ) (o : Option Db × Run sq)
      → OpenHolds n o
      → Clean n (index_opened sq host junk fuel o.0 o.1)
  unfolding index_opened query
  index_opened-Clean n fuel (none, r) h = h
  index_opened-Clean n fuel (some db, r) h =
      let w1 = (db_execute sq db (codes "BEGIN EXCLUSIVE") [] r.world).1 in
      let (s, d) = executed (suc n) db (codes "BEGIN EXCLUSIVE") r.world h in
      let k = prepare-Keeps sq laws 0 (query sq db) index_sql [] w1 s in
      index_prepared-Clean n fuel db _ _ _ (k.owns, k.same_dbs ∙ d)

  -- When no statement is open and indexing a database returns a code, it leaves no statement open
  -- and as many connections as there were, whatever the rows and the failures of its statements.
  pub index_database_handles :
      (fuel k : ℕ) (path : Bytes) (r : Run sq)
      → stmts r.world ≡ 0
      → (index_database sq host junk fuel path r).0 ≡ code k
      → Holds (dbs r.world) (index_database sq host junk fuel path r).1.world
  unfolding index_database
  index_database_handles fuel k path r s e =
      Clean-Holds (dbs r.world) k _
        (index_opened-Clean (dbs r.world) fuel (open_database sq host junk path r)
          (open_database-OpenHolds (dbs r.world) path r (s, refl)))
        e
