-- ===== src/Ruby/Calls.antt =====
-- What the methods of `DB` (src/ruby_sqlite.cpp) do to a connection.
use mod_gate.Base.{
  ℕ, ◌≡◌, refl, sym, ap, ◌∙◌, subst, inl, inr, [], ◌∷◌, Option, none, some, Bytes, codes, pos, ◌==◌,
  Bool-cases,
}
use mod_gate.Host.{Host}
use mod_gate.Sqlite.{Sqlite, Outcome, returned, thrown, sqlite_ok}
use mod_gate.Ruby.{Value, fixnum, str, Mruby, MrubyLaws, Columns, place}
use mod_gate.Ruby.Database.{
  Connection, Reply, ConnCall, open_call, close_call, prepare_call, errno_call, error_call,
  finalize_call, begin_call, commit_call, rollback_call, exec_call, insert_id_call, conn_call,
  ensure_connection, m_errno, m_error, m_open, open_path, m_close, m_prepare, m_finalize,
  finalize_object, finalize_arg, with_arg, with_handle, run_sql, m_begin, m_commit, m_rollback,
  m_exec, m_insert_id, text_of,
}

module _ (sq : Sqlite) (mrb : Mruby sq) (more : Columns sq mrb.Float) (host : Host)
    (file : Bytes) where
  open sq use {World, Stmt, Db}
  open mrb use {Float}

  -- The methods that need an open connection.
  abbrev NeedsHandle : ConnCall sq mrb more host file → Type 0
  NeedsHandle (open_call v) = ⊥
  NeedsHandle errno_call = ⊥
  NeedsHandle (finalize_call v) = ⊥
  NeedsHandle _ = Unit

  -- The methods that return a code of SQLite.
  abbrev pub ReturnsCode : ConnCall sq mrb more host file → Type 0
  ReturnsCode (open_call v) = Unit
  ReturnsCode close_call = Unit
  ReturnsCode begin_call = Unit
  ReturnsCode commit_call = Unit
  ReturnsCode rollback_call = Unit
  ReturnsCode (exec_call v) = Unit
  ReturnsCode _ = ⊥

  -- A reply that is an exception, and leaves everything as it was.
  abbrev Refuses : Connection sq → World → Reply sq mrb more host file → Type 0
  Refuses c w reply = (e : Bytes) × (reply ≡ (thrown e, c, w))

  ensure-Refuses :
      (line : ℕ) (c : Connection sq) (w : World) (rest : Db → Reply sq mrb more host file)
      → c.handle ≡ none
      → Refuses c w (ensure_connection sq mrb more host file line c w rest)
  unfolding ensure_connection with_handle
  ensure-Refuses line c w rest h = (
    mrb.raisef (codes "Invalid db handle: %s") (place file line ∷ []),
    ap (λ o. with_handle sq mrb more host file line o c w rest) h,
  )

  with_arg-Refuses :
      {A : Type 0} (o : Outcome A) (c : Connection sq) (w : World)
      (rest : A → Reply sq mrb more host file)
      → ((a : A) → Refuses c w (rest a))
      → Refuses c w (with_arg sq mrb more host file o c w rest)
  unfolding with_arg
  with_arg-Refuses (thrown e) c w rest h = (e, refl)
  with_arg-Refuses (returned a) c w rest h = h a

  -- Without an open connection `close`, `prepare`, `error`, `begin`, `commit`, `rollback`, `exec` and
  -- `insertId` raise an exception, whatever their arguments; the connection and the databases stay as
  -- they are.
  conn_call_closed :
      (call : ConnCall sq mrb more host file) (c : Connection sq) (w : World)
      → NeedsHandle call
      → c.handle ≡ none
      → (e : Bytes) × (conn_call sq mrb more host file call c w ≡ (thrown e, c, w))
  unfolding conn_call m_close m_prepare m_error m_begin m_commit m_rollback m_exec m_insert_id
  conn_call_closed (open_call v) c w u h = absurd u
  conn_call_closed errno_call c w u h = absurd u
  conn_call_closed (finalize_call v) c w u h = absurd u
  conn_call_closed close_call c w u h = ensure-Refuses 248 c w _ h
  conn_call_closed (prepare_call v) c w u h =
      with_arg-Refuses (mrb.get_string v) c w _ (λ s. ensure-Refuses 279 c w _ h)
  conn_call_closed error_call c w u h = ensure-Refuses 206 c w _ h
  conn_call_closed begin_call c w u h = ensure-Refuses 332 c w _ h
  conn_call_closed commit_call c w u h = ensure-Refuses 350 c w _ h
  conn_call_closed rollback_call c w u h = ensure-Refuses 368 c w _ h
  conn_call_closed (exec_call v) c w u h =
      with_arg-Refuses (mrb.get_string v) c w _ (λ s. ensure-Refuses 390 c w _ h)
  conn_call_closed insert_id_call c w u h = ensure-Refuses 412 c w _ h

  finalize_object_str :
      (s : Bytes) (c : Connection sq) (w : World)
      → Refuses c w (finalize_object sq mrb more host file (str s) c w).0
  unfolding finalize_object
  finalize_object_str s c w = (mrb.type_error, refl)

  finalize_arg-Refuses :
      (o : Outcome (Value Float Stmt)) (v : Value Float Stmt) (c : Connection sq) (w : World)
      → ((u : Value Float Stmt) → o ≡ returned u → (s : Bytes) × (u ≡ str s))
      → Refuses c w (finalize_arg sq mrb more host file o v c w).0
  unfolding finalize_arg
  finalize_arg-Refuses (thrown e) v c w h = (e, refl)
  finalize_arg-Refuses (returned u) v c w h =
      let (s, e) = h u refl in
      subst (λ t. Refuses c w (finalize_object sq mrb more host file t c w).0) (sym e)
        (finalize_object_str s c w)

  -- `finalize` raises an exception for every argument, also for a statement, and finalizes nothing:
  -- the connection and the databases stay as they are.
  pub m_finalize_raises :
      (laws : MrubyLaws mrb) (v : Value Float Stmt) (c : Connection sq) (w : World)
      → (e : Bytes) × ((m_finalize sq mrb more host file v c w).0 ≡ (thrown e, c, w))
  unfolding m_finalize
  m_finalize_raises laws v c w =
      finalize_arg-Refuses (mrb.get_string v) v c w (laws.get_string_str v)

  -- If a reply is a value, then it is the code that the connection keeps.
  abbrev Kept : Reply sq mrb more host file → Type 0
  Kept reply = (v : Value Float Stmt) → reply.0 ≡ returned v → v ≡ fixnum (pos reply.1.rc)

  ensure-Kept :
      (line : ℕ) (o : Option Db) (c : Connection sq) (w : World)
      (rest : Db → Reply sq mrb more host file)
      → ((db : Db) → Kept (rest db))
      → Kept (with_handle sq mrb more host file line o c w rest)
  unfolding with_handle
  ensure-Kept line none c w rest h v e = cc e
  ensure-Kept line (some db) c w rest h v e = h db v e

  with_arg-Kept :
      {A : Type 0} (o : Outcome A) (c : Connection sq) (w : World)
      (rest : A → Reply sq mrb more host file)
      → ((a : A) → Kept (rest a))
      → Kept (with_arg sq mrb more host file o c w rest)
  unfolding with_arg
  with_arg-Kept (thrown e) c w rest h v p = cc p
  with_arg-Kept (returned a) c w rest h v p = h a v p

  run_sql-Kept :
      (db : Db) (sql : Bytes) (c : Connection sq) (w : World)
      → Kept (run_sql sq mrb more host file db sql c w)
  unfolding run_sql
  run_sql-Kept db sql c w v p = cc p

  open_path-Kept :
      (path : Bytes) (c : Connection sq) (w : World)
      → Kept (open_path sq mrb more host file path c w)
  unfolding open_path
  open_path-Kept path c w v p = cc p

  m_close-Kept : (c : Connection sq) (w : World) → Kept (m_close sq mrb more host file c w)
  unfolding m_close ensure_connection
  m_close-Kept c w = ensure-Kept 248 c.handle c w _ (λ db v p.
      elim (Bool-cases ((sq.db_close db w).0 == sqlite_ok)) [
        | inl e ↦ rw e (cc p)
        | inr e ↦ rw e (cc p)
      ])

  conn_call-Kept :
      (call : ConnCall sq mrb more host file) (c : Connection sq) (w : World)
      → ReturnsCode call
      → Kept (conn_call sq mrb more host file call c w)
  unfolding conn_call m_open m_begin m_commit m_rollback m_exec ensure_connection
  conn_call-Kept (open_call v) c w u =
      with_arg-Kept (mrb.get_string v) c w _ (λ s.
        with_arg-Kept (text_of sq mrb more host file s) c w _ (λ path. open_path-Kept path c w))
  conn_call-Kept close_call c w u = m_close-Kept c w
  conn_call-Kept begin_call c w u =
      ensure-Kept 332 c.handle c w _ (λ db. run_sql-Kept db (codes "BEGIN") c w)
  conn_call-Kept commit_call c w u =
      ensure-Kept 350 c.handle c w _ (λ db. run_sql-Kept db (codes "COMMIT") c w)
  conn_call-Kept rollback_call c w u =
      ensure-Kept 368 c.handle c w _ (λ db. run_sql-Kept db (codes "ROLLBACK") c w)
  conn_call-Kept (exec_call v) c w u = with_arg-Kept (mrb.get_string v) c w _ (λ s.
      ensure-Kept 390 c.handle c w _ (λ db.
        with_arg-Kept (text_of sq mrb more host file s) c w _ (λ sql. run_sql-Kept db sql c w)))
  conn_call-Kept (prepare_call v) c w u = absurd u
  conn_call-Kept errno_call c w u = absurd u
  conn_call-Kept error_call c w u = absurd u
  conn_call-Kept (finalize_call v) c w u = absurd u
  conn_call-Kept insert_id_call c w u = absurd u

  -- If `open`, `close`, `begin`, `commit`, `rollback` or `exec` returns a value and does not raise, then
  -- `errno` returns the same value after it, and changes nothing.
  errno-conn_call :
      (call : ConnCall sq mrb more host file) (c c' : Connection sq) (w w' : World)
      (v : Value Float Stmt)
      → ReturnsCode call
      → conn_call sq mrb more host file call c w ≡ (returned v, c', w')
      → conn_call sq mrb more host file errno_call c' w' ≡ (returned v, c', w')
  unfolding conn_call m_errno
  errno-conn_call call c c' w w' v u e =
      let k : v ≡ fixnum (pos (conn_call sq mrb more host file call c w).1.rc) =
        conn_call-Kept call c w u v (ap (λ o. o.0) e) in
      let q : v ≡ fixnum (pos c'.rc) = k ∙ ap (λ o. fixnum (pos o.1.rc)) e in
      ap (λ x. (returned x, c', w')) (sym q)
