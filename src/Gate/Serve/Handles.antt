-- ===== src/Gate/Serve/Handles.antt =====
-- The connections and statements that the request handler of src/module.cpp opens.
use mod_gate.Apr.{Apr}
use mod_gate.Base.{
  [], ℕ, ◌+◌, ◌++◌, codes, sym, subst, ◌≡◌, refl, ◌∙◌, Bool, true, false, Option, none, some, Bytes,
  arith, ◌==◌, Bool-cases, inl, inr,
}
use mod_gate.Gate.Serve.{
  read_rows, look_up_address, serve_connection, serve_file, serve_configured, ip_sql, database_file,
  not_connected, connect, run_query, look_up, serve, gate_request_handler,
}
use mod_gate.Gate.{
  log_message, crit, Request, gate_request_init_configuration, gate_request_get_handler,
}
use mod_gate.Host.{Host, InAddr, host_address}
use mod_gate.Sqlite.Handles.{Owns, Keeps, prepare-Keeps, step-Keeps, finalize-Keeps}
use mod_gate.Sqlite.Laws.{SqliteLaws}
use mod_gate.Sqlite.{Sqlite, Query, Outcome, returned, thrown, query, prepare, step, finalize}

-- How many connections are open, besides `n`, once `connect` has returned.
abbrev held : {A : Type 0} → Outcome A → ℕ → ℕ
held (thrown e) n = n
held (returned db) n = n + 1

module _ (apr : Apr) (sq : Sqlite) (host : Host) (laws : SqliteLaws sq) where
  open laws use {stmts, dbs}

  -- As many statements and connections are open in the one world as in the other.
  pub record SameHandles (w w' : sq.World) : Type 0 where
    pub same_stmts : stmts w' ≡ stmts w
    pub same_dbs : dbs w' ≡ dbs w

  query-Owns : (db : sq.Db) (w : sq.World) → Owns sq laws (stmts w) (query sq db) w
  unfolding query
  query-Owns db w = omega arith

  finished :
      (w0 w : sq.World) (q : Query sq)
      → Keeps sq laws (stmts w0) w0 q w
      → SameHandles w0 (finalize sq q w).1
  unfolding finalize
  finished w0 w q k =
      let f = finalize-Keeps sq laws (stmts w0) q w k.owns in
      record { same_stmts = omega (arith, f.owns); same_dbs = f.same_dbs ∙ k.same_dbs }

  read_rows_handles :
      (o : Outcome (Unit {0})) (w0 w : sq.World) (q : Query sq) (r : Request apr)
      → Keeps sq laws (stmts w0) w0 q w
      → SameHandles w0 (read_rows apr sq host o q r w).2
  unfolding read_rows
  read_rows_handles (thrown what) w0 w q r k = finished w0 w q k
  read_rows_handles (returned u) w0 w q r k =
      let (rc, q', w') = step sq q w in
      let s = step-Keeps sq laws (stmts w0) q w k.owns in
      finished w0 w' q' (record { owns = s.owns; same_dbs = s.same_dbs ∙ k.same_dbs })

  run_query_handles :
      (db : sq.Db) (addr : ℕ) (r : Request apr) (w : sq.World)
      → SameHandles w (run_query apr sq host db addr r w).2
  unfolding run_query
  run_query_handles db addr r w =
      let (o, q, w') = prepare sq (query sq db) (ip_sql addr) [] w in
      read_rows_handles o w w' q r
        (prepare-Keeps sq laws (stmts w) (query sq db) (ip_sql addr) [] w (query-Owns db w))

  look_up_address_handles :
      (db : sq.Db) (a : Option InAddr) (r : Request apr) (w : sq.World)
      → SameHandles w (look_up_address apr sq host db a r w).2
  unfolding look_up_address
  look_up_address_handles db none r w = record { same_stmts = refl; same_dbs = refl }
  look_up_address_handles db (some a) r w = run_query_handles db (host_address host.order a) r w

  -- No statement is open, and as many connections as in the other world.
  abbrev pub Closed : ℕ → sq.World → Type 0
  Closed n w = (stmts w ≡ 0) × (dbs w ≡ n)

  close_Closed :
      (db : sq.Db) (n : ℕ) (w : sq.World) → Closed (n + 1) w → Closed n (sq.db_close db w).1
  close_Closed db n w (s, d) =
      (omega (arith, laws.close_stmts db w), omega (arith, laws.close_dbs db w s))

  not_connected_world :
      (o : Option (Request apr)) (r : Request apr) (w : sq.World)
      → (not_connected apr sq host o r w).2 ≡ w
  unfolding not_connected
  not_connected_world none r w = refl
  not_connected_world (some r') r w = refl

  serve_connection_handles :
      (o : Outcome sq.Db) (n : ℕ) (r : Request apr) (w : sq.World)
      → Closed (held o n) w
      → Closed n (serve_connection apr sq host o r w).2
  unfolding serve_connection look_up
  serve_connection_handles (thrown e) n r w c =
      subst (Closed n)
        (sym (not_connected_world (log_message apr host r crit (codes "FATAL ERROR: " ++ e)) r w)) c
  serve_connection_handles (returned db) n r w (s, d) =
      let (answer, r', w') = look_up apr sq host db r w in
      let h = look_up_address_handles db (host.inet_pton r.remote_ip) r w in
      close_Closed db n w' (omega (arith, h.same_stmts), omega (arith, h.same_dbs))

  connect_handles :
      (path : Bytes) (n : ℕ) (w : sq.World)
      → Closed n w
      → Closed (held (connect apr sq host path w).0 n) (connect apr sq host path w).1
  unfolding connect
  connect_handles path n w (s, d) =
      let (rc, db, w') = sq.db_open path w in
      let opened : Closed (n + 1) w' =
        (omega (arith, laws.open_stmts path w), omega (arith, laws.open_dbs path w)) in
      elim (Bool-cases (rc == 0)) [
        | inl e ↦ rw e opened
        | inr e ↦ rw e (close_Closed db n w' opened)
      ]

  serve_file_handles :
      (f : Option Bytes) (n : ℕ) (r : Request apr) (w : sq.World)
      → Closed n w
      → Closed n (serve_file apr sq host f r w).2
  unfolding serve_file
  serve_file_handles none n r w c = c
  serve_file_handles (some path) n r w c =
      let (o, w') = connect apr sq host path w in
      serve_connection_handles o n r w' (connect_handles path n w c)

  serve_configured_handles :
      (o : Option (Request apr × Bool)) (n : ℕ) (r : Request apr) (w : sq.World)
      → Closed n w
      → Closed n (serve_configured apr sq host o r w).2
  unfolding serve_configured serve
  serve_configured_handles none n r w c = c
  serve_configured_handles (some (r', false)) n r w c = c
  serve_configured_handles (some (r', true)) n r w c =
      let (path, r'') = gate_request_get_handler apr host r' in
      serve_file_handles (database_file path) n r'' w c

  -- A request that comes when no statement is open leaves none, and as many connections open as
  -- before, on every way out: a failed configuration, no database, a database that cannot be opened,
  -- an address that is none, a query that cannot be prepared, a match and none.
  pub gate_request_handler_handles :
      (r : Request apr) (w : sq.World)
      → laws.stmts w ≡ 0
      → (laws.stmts (gate_request_handler apr sq host r w).2 ≡ 0)
        × (laws.dbs (gate_request_handler apr sq host r w).2 ≡ laws.dbs w)
  unfolding gate_request_handler
  gate_request_handler_handles r w s =
      serve_configured_handles (gate_request_init_configuration apr host r) (dbs w) r w (s, refl)
