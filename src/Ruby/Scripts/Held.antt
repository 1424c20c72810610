-- ===== src/Ruby/Scripts/Held.antt =====
-- The handles that the objects of scripts hold (src/ruby_sqlite.cpp, src/ruby_sqlite_stmt.cpp), against
-- those that are open in SQLite.
use mod_gate.Base.{ℕ, ◌+◌, ◌-◌, ◌≤◌, ◌≡◌, ◌≢◌, List, [], ◌∷◌, Bytes}
use mod_gate.Host.{Host}
use mod_gate.Ruby.Database.{Connection, Reply}
use mod_gate.Ruby.Scripts.{Vm, made}
use mod_gate.Ruby.{Statement, Mruby, MrubyLaws, Columns}
use mod_gate.Sqlite.Laws.{SqliteLaws, weight}
use mod_gate.Sqlite.{Sqlite, sqlite_ok}

-- `sqlite3_close` closes the connection if it returns SQLITE_OK, and leaves it open otherwise.
pub record CloseLaws (sq : Sqlite) (laws : SqliteLaws sq) : Type 0 where
  pub close_ok :
      (db : sq.Db) (w : sq.World)
      → (sq.db_close db w).0 ≡ sqlite_ok
      → laws.dbs (sq.db_close db w).1 ≡ laws.dbs w - 1
  pub close_failed :
      (db : sq.Db) (w : sq.World)
      → (sq.db_close db w).0 ≢ sqlite_ok
      → laws.dbs (sq.db_close db w).1 ≡ laws.dbs w

module _ {ℓ} {A : Type ℓ} where
  abbrev pub total : (A → ℕ) → List A → ℕ
  total f [] = 0
  total f (x ∷ xs) = f x + total f xs

module _ (sq : Sqlite) where
  abbrev pub held_conn : Connection sq → ℕ
  held_conn c = weight c.handle

  abbrev pub held_stmt : Statement sq.Stmt → ℕ
  held_stmt s = weight s.handle

module _ (sq : Sqlite) (mrb : Mruby sq) (more : Columns sq mrb.Float) (host : Host) (file : Bytes)
    (laws : SqliteLaws sq) (closing : CloseLaws sq laws) (ruby : MrubyLaws mrb) where
  open sq use {World, Stmt, Db}
  open laws use {dbs, stmts}

  -- The statements that are open are those that the objects hold, and no object holds a connection
  -- that is not open.
  abbrev pub Balanced : Vm sq mrb more host file → Type 0
  Balanced vm =
      (stmts vm.world ≡ total (held_stmt sq) vm.stmts)
      × (total (held_conn sq) vm.conns ≤ dbs vm.world)

  -- What a call on a connection does to the numbers of handles.
  record Accounts (c : Connection sq) (w : World) (reply : Reply sq mrb more host file)
      : Type 0 where
    more_stmts : stmts reply.2 ≡ stmts w + total (held_stmt sq) (made sq mrb more host file reply.0)
    conns_open : dbs w + held_conn sq reply.1 ≤ dbs reply.2 + held_conn sq c
