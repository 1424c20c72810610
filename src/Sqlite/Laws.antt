-- ===== src/Sqlite/Laws.antt =====
-- What SQLite documents of its handles and codes.
use mod_gate.Base.{ℕ, ◌+◌, ◌-◌, ◌≡◌, ◌≢◌, [], Option, none, some, Bytes, All}
use mod_gate.Sqlite.{Sqlite, sqlite_ok, sqlite_row}

-- One for a statement, none for NULL.
abbrev pub weight {ℓ} : {A : Type ℓ} → Option A → ℕ
weight none = 0
weight (some s) = 1

-- `dbs` and `stmts` count the connections and statements that are open. A connection is there to be
-- closed also if it could not be opened, and is closed only if no statement is left; a failed
-- `prepare` leaves no statement; to step NULL is a misuse and yields no row.
pub record SqliteLaws (sq : Sqlite) : Type 1 where
  pub dbs : sq.World → ℕ
  pub stmts : sq.World → ℕ
  pub open_dbs : (path : Bytes) (w : sq.World) → dbs (sq.db_open path w).2 ≡ dbs w + 1
  pub open_stmts : (path : Bytes) (w : sq.World) → stmts (sq.db_open path w).2 ≡ stmts w
  pub close_dbs : (db : sq.Db) (w : sq.World) → stmts w ≡ 0 → dbs (sq.db_close db w).1 ≡ dbs w - 1
  pub close_stmts : (db : sq.Db) (w : sq.World) → stmts (sq.db_close db w).1 ≡ stmts w
  pub exec_dbs : (db : sq.Db) (sql : Bytes) (w : sq.World) → dbs (sq.db_exec db sql w).1 ≡ dbs w
  pub exec_stmts :
      (db : sq.Db) (sql : Bytes) (w : sq.World) → stmts (sq.db_exec db sql w).1 ≡ stmts w
  pub prepare_dbs :
      (db : sq.Db) (sql : Bytes) (w : sq.World) → dbs (sq.db_prepare db sql w).2 ≡ dbs w
  pub prepare_stmts :
      (db : sq.Db) (sql : Bytes) (w : sq.World)
      → stmts (sq.db_prepare db sql w).2 ≡ stmts w + weight (sq.db_prepare db sql w).1
  pub prepare_failed :
      (db : sq.Db) (sql : Bytes) (w : sq.World)
      → (sq.db_prepare db sql w).0 ≢ sqlite_ok
      → (sq.db_prepare db sql w).1 ≡ none
  pub step_dbs : (st : Option sq.Stmt) (w : sq.World) → dbs (sq.stmt_step st w).1 ≡ dbs w
  pub step_stmts : (st : Option sq.Stmt) (w : sq.World) → stmts (sq.stmt_step st w).1 ≡ stmts w
  pub step_null : (w : sq.World) → (sq.stmt_step none w).0 ≢ sqlite_row
  pub finalize_dbs : (s : sq.Stmt) (w : sq.World) → dbs (sq.stmt_finalize s w).1 ≡ dbs w
  pub finalize_stmts : (s : sq.Stmt) (w : sq.World) → stmts (sq.stmt_finalize s w).1 ≡ stmts w - 1
  pub vmprintf_plain : (sql : Bytes) → All (λ c. c ≢ b'%') sql → sq.vmprintf sql [] ≡ sql
