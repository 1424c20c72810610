-- ===== src/Ruby/Database.antt =====
-- src/ruby_sqlite.cpp: the class `DB` of scripts.
use mod_gate.Base.{
  ℕ, Bool, not, [], ◌∷◌, Option, none, some, Bytes, codes, pos, ◌==◌, if◌then◌else◌,
}
use mod_gate.Host.{Host}
use mod_gate.Sqlite.{Sqlite, Outcome, returned, thrown, sqlite_ok, release}
use mod_gate.Ruby.{Value, fixnum, str, statement_object, connection_object, Mruby, Columns, place}

module _ (sq : Sqlite) where
  open sq use {World, Db, Stmt, db_open, db_close, db_exec, db_prepare, errmsg}

  -- `connection`.
  pub record Connection : Type 0 where
    pub handle : Option Db
    pub rc : ℕ
    pub dont_delete : Bool

  -- `deallocator`, up to the `free`.
  unfoldable pub conn_deallocator : Connection → World → World
  conn_deallocator c w = elim c.handle [
    | none ↦ w
    | some db ↦ if c.dont_delete then w else (db_close db w).1
  ]

  -- `allocator`: `==` in it compares, so that all fields are what the memory held.
  unfoldable pub conn_allocator : Connection → Connection
  conn_allocator memory = memory

  -- `make_sqlite3_object`, which compares too.
  unfoldable pub make_sqlite3_object : Connection → Db → Connection
  make_sqlite3_object memory db = record memory { handle = some db }

  -- `m_init`: an object that has a connection already gives it up first.
  unfoldable pub conn_init : Connection → Option Connection → World → Connection × World
  unfolding conn_allocator
  conn_init memory none w = (conn_allocator memory, w)
  conn_init memory (some c) w = (conn_allocator memory, conn_deallocator c w)

module _ (sq : Sqlite) (mrb : Mruby sq) (more : Columns sq mrb.Float) (host : Host)
    (file : Bytes) where
  open sq use {World, Db, Stmt, db_open, db_close, db_exec, db_prepare, stmt_finalize, errmsg}
  open mrb use {Float, raisef, type_error, get_string, get_int, cstr, to_int}

  -- A method returns a value or raises, and leaves the connection and the world of SQLite.
  abbrev pub Reply : Type 0
  Reply = Outcome (Value Float Stmt) × Connection sq × World

  abbrev pub raise : Connection sq → World → Bytes → Reply
  raise c w e = (thrown e, c, w)

  -- `ENSURE_CONNECTION` at a line, and what follows on a connection with a handle.
  unfoldable pub with_handle : ℕ → Option Db → Connection sq → World → (Db → Reply) → Reply
  with_handle line none c w rest =
      (thrown (raisef (codes "Invalid db handle: %s") (place file line ∷ [])), c, w)
  with_handle line (some db) c w rest = rest db

  unfoldable pub ensure_connection : ℕ → Connection sq → World → (Db → Reply) → Reply
  unfolding with_handle
  ensure_connection line c w rest = with_handle line c.handle c w rest

  -- A call of the interpreter that may raise, and what follows.
  unfoldable pub with_arg : {A : Type 0} → Outcome A → Connection sq → World → (A → Reply) → Reply
  with_arg (thrown e) c w rest = (thrown e, c, w)
  with_arg (returned a) c w rest = rest a

  -- The check that a value is a string, and `mrb_str_to_cstr`.
  unfoldable pub text_of : Value Float Stmt → Outcome Bytes
  text_of (str s) = cstr s
  text_of _ = thrown type_error

  unfoldable pub m_errno : Connection sq → World → Reply
  m_errno c w = (returned (fixnum (pos c.rc)), c, w)

  unfoldable pub m_error : Connection sq → World → Reply
  unfolding ensure_connection
  m_error c w = ensure_connection 206 c w (λ db. (returned (str (errmsg db w)), c, w))

  -- A statement that only a database compiles.
  unfoldable pub probe_sql : Bytes
  probe_sql = codes "select count(*) from sqlite_master"

  unfoldable pub probe : Db → World → ℕ × World
  probe db w = let (rc, st, w') = db_prepare db probe_sql w in (rc, release sq st w')

  -- `m_open` on the text of the path.
  unfoldable pub open_path : Bytes → Connection sq → World → Reply
  unfolding probe
  open_path path c w =
      let (rc, db, w') = db_open path w in
      let (rc', w'') = if host.readable path then probe db w' else (rc, w') in
      (returned (fixnum (pos rc')), record c { handle = some db; rc = rc' }, w'')

  unfoldable pub m_open : Value Float Stmt → Connection sq → World → Reply
  unfolding with_arg
  m_open v c w =
      with_arg (get_string v) c w (λ s. with_arg (text_of s) c w (λ path. open_path path c w))

  -- The handle stays if SQLite did not close it.
  unfoldable pub m_close : Connection sq → World → Reply
  unfolding ensure_connection
  m_close c w = ensure_connection 248 c w (λ db.
      let (rc, w') = db_close db w in
      (
        returned (fixnum (pos rc)),
        (if rc == sqlite_ok then record c { handle = none; rc = rc } else record c { rc = rc }),
        w',
      ))

  -- `make_sqlite3_stmt` of src/ruby_sqlite_stmt.cpp; its check of the connection's class passes here.
  unfoldable pub make_sqlite3_stmt : Db → Bytes → Connection sq → World → Reply
  make_sqlite3_stmt db sql c w =
      let (rc, st, w') = db_prepare db sql w in
      if not (rc == sqlite_ok)
      then (thrown (raisef (codes "sqlite::prepare() - %s") (errmsg db w' ∷ [])), c, w')
      else (returned (statement_object (record { handle = st })), c, w')

  -- `mrb_get_args` comes first, then the check of the handle, then `mrb_str_to_cstr`.
  unfoldable pub m_prepare : Value Float Stmt → Connection sq → World → Reply
  unfolding ensure_connection with_arg
  m_prepare v c w = with_arg (get_string v) c w (λ s.
      ensure_connection 279 c w
        (λ db. with_arg (text_of s) c w (λ sql. make_sqlite3_stmt db sql c w)))

  -- `sqlite3_finalize`, which does nothing to NULL.
  abbrev pub finalized : Option Stmt → World → ℕ × World
  finalized none w = (sqlite_ok, w)
  finalized (some s) w = stmt_finalize s w

  -- `m_finalize` behind `mrb_get_args`: the checks of the type and the class, and the statement. The
  -- last component is the object afterwards.
  unfoldable pub finalize_object :
      Value Float Stmt → Connection sq → World → Reply × Value Float Stmt
  finalize_object (statement_object s) c w =
      let (rc, w') = finalized s.handle w in
      (
        (returned (fixnum (pos rc)), record c { rc = rc }, w'),
        statement_object (record { handle = none }),
      )
  finalize_object connection_object c w =
      ((thrown (raisef (codes "wrong argument type %s (expected %s)") []), c, w), connection_object)
  finalize_object v c w = ((thrown type_error, c, w), v)

  unfoldable pub finalize_arg :
      Outcome (Value Float Stmt)
      → Value Float Stmt
      → Connection sq
      → World
      → Reply × Value Float Stmt
  finalize_arg (thrown e) v c w = ((thrown e, c, w), v)
  finalize_arg (returned stmt_object) v c w = finalize_object stmt_object c w

  unfoldable pub m_finalize : Value Float Stmt → Connection sq → World → Reply × Value Float Stmt
  unfolding finalize_arg
  m_finalize v c w = finalize_arg (get_string v) v c w

  -- `sqlite3_exec`, with its code kept and returned.
  unfoldable pub run_sql : Db → Bytes → Connection sq → World → Reply
  run_sql db sql c w =
      let (rc, w') = db_exec db sql w in (returned (fixnum (pos rc)), record c { rc = rc }, w')

  unfoldable pub m_begin : Connection sq → World → Reply
  unfolding ensure_connection run_sql
  m_begin c w = ensure_connection 332 c w (λ db. run_sql db (codes "BEGIN") c w)

  unfoldable pub m_commit : Connection sq → World → Reply
  unfolding ensure_connection run_sql
  m_commit c w = ensure_connection 350 c w (λ db. run_sql db (codes "COMMIT") c w)

  unfoldable pub m_rollback : Connection sq → World → Reply
  unfolding ensure_connection run_sql
  m_rollback c w = ensure_connection 368 c w (λ db. run_sql db (codes "ROLLBACK") c w)

  unfoldable pub m_exec : Value Float Stmt → Connection sq → World → Reply
  unfolding ensure_connection with_arg
  m_exec v c w =
      with_arg (get_string v) c w (λ s.
        ensure_connection 390 c w (λ db. with_arg (text_of s) c w (λ sql. run_sql db sql c w)))

  unfoldable pub m_insert_id : Connection sq → World → Reply
  unfolding ensure_connection
  m_insert_id c w =
      ensure_connection 412 c w
        (λ db. (returned (fixnum (to_int (more.last_insert_rowid db w))), c, w))

  -- The methods that `init_sqlite3` defines besides `initialize`, with their argument.
  pub data ConnCall : Type 0 where
    open_call : Value Float Stmt → ConnCall
    close_call : ConnCall
    prepare_call : Value Float Stmt → ConnCall
    errno_call : ConnCall
    error_call : ConnCall
    finalize_call : Value Float Stmt → ConnCall
    begin_call : ConnCall
    commit_call : ConnCall
    rollback_call : ConnCall
    exec_call : Value Float Stmt → ConnCall
    insert_id_call : ConnCall

  unfoldable pub conn_call : ConnCall → Connection sq → World → Reply
  conn_call (open_call v) c w = m_open v c w
  conn_call close_call c w = m_close c w
  conn_call (prepare_call v) c w = m_prepare v c w
  conn_call errno_call c w = m_errno c w
  conn_call error_call c w = m_error c w
  conn_call (finalize_call v) c w = (m_finalize v c w).0
  conn_call begin_call c w = m_begin c w
  conn_call commit_call c w = m_commit c w
  conn_call rollback_call c w = m_rollback c w
  conn_call (exec_call v) c w = m_exec v c w
  conn_call insert_id_call c w = m_insert_id c w
