-- ===== src/GateDb/Ending.antt =====
-- The loops of the commands of src/gatedb.cpp end.
use mod_gate.Base.{
  ℕ, ◌≤◌, ◌<◌, ◌≡◌, ◌≢◌, inl, inr, [], Option, none, some, Bytes, codes, ℤ, ◌==◌, arith, Bool-cases,
}
use mathlib.Core.Option.{some_inj}
use mod_gate.GateDb.Index.{index_row_world, Ended, row_loop-Ended}
use mod_gate.GateDb.Tool.{
  Rounds, finished, faulted, out_of_fuel, index_body, index_end, index_prepared, index_opened,
  index_database, lint_body, lint_end, lint_prepared, lint_opened, lint_database,
}
use mod_gate.GateDb.{
  endless, Run, at_world, say, index_sql, lint_sql, open_database, index_columns, lint_row,
}
use mod_gate.Host.{Host, InAddr}
use mod_gate.Sqlite.{
  Sqlite, Query, sqlite_ok, Outcome, returned, thrown, query, prepare, compile, sqlite_row,
  db_execute,
}

-- `left` counts the rows that a query has still to yield: a query begins with at most `rows`, a step
-- that yields a row leaves fewer, and the update of a row adds none.
pub record IsFinite (sq : Sqlite) (left : sq.World → ℕ) (rows : ℕ) : Type 0 where
  pub prepare_left :
      (db : sq.Db) (sql : Bytes) (w : sq.World) → left (sq.db_prepare db sql w).2 ≤ rows
  pub step_left :
      (st : Option sq.Stmt) (w : sq.World)
      → (sq.stmt_step st w).0 ≡ sqlite_row
      → left (sq.stmt_step st w).1 < left w
  pub exec_left : (db : sq.Db) (sql : Bytes) (w : sq.World) → left (sq.db_exec db sql w).1 ≤ left w

module _ (sq : Sqlite) (host : Host) (junk : Run sq → InAddr) (left : sq.World → ℕ) (rows : ℕ)
    (finite : IsFinite sq left rows) where
  open sq use {Db}

  columns_left :
      (db : Db) (record_id : ℤ) (start_text end_text : Option Bytes) (r r' : Run sq)
      → index_columns sq host junk db record_id start_text end_text r ≡ some r'
      → left r'.world ≤ left r.world
  unfolding index_columns db_execute
  columns_left db record_id none end_text r r' e = cc e
  columns_left db record_id (some start_text) none r r' e = cc e
  columns_left db record_id (some start_text) (some end_text) r r' e =
      rw (← some_inj.0 e, index_row_world sq host junk db record_id start_text end_text r)
        (finite.exec_left db _ r.world)

  index_body-left :
      (db : Db) (q : Query sq) (r r' : Run sq)
      → index_body sq host junk db q r ≡ some r'
      → left r'.world ≤ left r.world
  unfolding index_body
  index_body-left db q r r' e =
      columns_left db (sq.column_int q.stmt r.world 0) (sq.column_text q.stmt r.world 1)
        (sq.column_text q.stmt r.world 2) r r' e

  lint_body-left :
      (q : Query sq) (r r' : Run sq)
      → lint_body sq host junk q r ≡ some r'
      → left r'.world ≤ left r.world
  unfolding lint_body lint_row say
  lint_body-left q r r' e = rw (← some_inj.0 e) (omega arith)

  index_end_stops :
      (db : Db) (o : Rounds sq) → Ended sq left o → (index_end sq host junk db o).0 ≢ endless
  unfolding index_end
  index_end_stops db (finished q r) h = λ e. cc e
  index_end_stops db (faulted r) h = λ e. cc e
  index_end_stops db (out_of_fuel r) h = absurd h

  lint_end_stops :
      (db : Db) (o : Rounds sq) → Ended sq left o → (lint_end sq host junk db o).0 ≢ endless
  unfolding lint_end
  lint_end_stops db (finished q r) h = λ e. cc e
  lint_end_stops db (faulted r) h = λ e. cc e
  lint_end_stops db (out_of_fuel r) h = absurd h

  index_prepared_stops :
      (fuel : ℕ) (db : Db) (o : Outcome (Unit {0})) (q : Query sq) (r : Run sq)
      → left r.world < fuel
      → (index_prepared sq host junk fuel db o q r).0 ≢ endless
  unfolding index_prepared
  index_prepared_stops fuel db (thrown what) q r h = λ e. cc e
  index_prepared_stops fuel db (returned u) q r h = index_end_stops db _ (
      row_loop-Ended sq left fuel (index_body sq host junk db) q r finite.step_left
        (index_body-left db) h)

  lint_prepared_stops :
      (fuel : ℕ) (db : Db) (o : Outcome (Unit {0})) (q : Query sq) (r : Run sq)
      → left r.world < fuel
      → (lint_prepared sq host junk fuel db o q r).0 ≢ endless
  unfolding lint_prepared
  lint_prepared_stops fuel db (thrown what) q r h = λ e. cc e
  lint_prepared_stops fuel db (returned u) q r h =
      lint_end_stops db _
        (row_loop-Ended sq left fuel (lint_body sq host junk) q r finite.step_left lint_body-left h)

  prepared_left :
      (db : Db) (sql : Bytes) (w : sq.World) → left (prepare sq (query sq db) sql [] w).2 ≤ rows
  unfolding prepare compile query
  prepared_left db sql w =
      elim (Bool-cases ((sq.db_prepare db (sq.vmprintf sql []) w).0 == sqlite_ok)) [
        | inl e ↦ rw e (finite.prepare_left db (sq.vmprintf sql []) w)
        | inr e ↦ rw e (finite.prepare_left db (sq.vmprintf sql []) w)
      ]

  index_opened_stops :
      (fuel : ℕ) (o : Option Db) (r : Run sq)
      → rows < fuel
      → (index_opened sq host junk fuel o r).0 ≢ endless
  unfolding index_opened
  index_opened_stops fuel none r h = λ e. cc e
  index_opened_stops fuel (some db) r h =
      let w1 = (db_execute sq db (codes "BEGIN EXCLUSIVE") [] r.world).1 in
      index_prepared_stops fuel db (prepare sq (query sq db) index_sql [] w1).0
        (prepare sq (query sq db) index_sql [] w1).1
        (at_world sq r (prepare sq (query sq db) index_sql [] w1).2)
        (omega (arith, prepared_left db index_sql w1))

  lint_opened_stops :
      (fuel : ℕ) (o : Option Db) (r : Run sq)
      → rows < fuel
      → (lint_opened sq host junk fuel o r).0 ≢ endless
  unfolding lint_opened
  lint_opened_stops fuel none r h = λ e. cc e
  lint_opened_stops fuel (some db) r h =
      lint_prepared_stops fuel db (prepare sq (query sq db) lint_sql [] r.world).0
        (prepare sq (query sq db) lint_sql [] r.world).1
        (at_world sq r (prepare sq (query sq db) lint_sql [] r.world).2)
        (omega (arith, prepared_left db lint_sql r.world))

  -- Both commands that loop over rows come to an end, within one round more than a query has rows,
  -- whether the database opens or not and whatever is in the rows: if a query begins with at most
  -- `rows` rows, a step that yields one leaves fewer and an update adds none, then neither runs on.
  pub commands_stop :
      (fuel : ℕ) (path : Bytes) (r : Run sq)
      → rows < fuel
      → ((index_database sq host junk fuel path r).0 ≢ endless)
        × ((lint_database sq host junk fuel path r).0 ≢ endless)
  unfolding index_database lint_database
  commands_stop fuel path r h =
      let (db, r') = open_database sq host junk path r in
      (index_opened_stops fuel db r' h, lint_opened_stops fuel db r' h)
