-- ===== src/Gate/Serve.antt =====
-- The request handler of src/module.cpp, and the class `Handler` of src/module.hpp.
pub mod Handles
pub mod Rows
pub mod Lookup
pub mod Blocking
pub mod Answers
use mod_gate.Apr.{Apr}
use mod_gate.Base.{
  ℕ, ◌+◌, Bool, true, false, not, List, [], ◌∷◌, ◌++◌, Option, none, some, Bytes, codes, ℤ, pos,
  int_eq, ◌==◌, if◌then◌else◌,
}
use mod_gate.Decimal.{u32_text, i32_text}
use mod_gate.Gate.{
  Request, Level, crit, notice, rputs, log_line, log_message, gate_request_init_configuration,
  gate_request_get_handler,
}
use mod_gate.Host.{Host, InAddr, host_address}
use mod_gate.Sqlite.{
  Sqlite, Query, sqlite_row, Outcome, returned, thrown, query, prepare, step, finalize, db_error,
}

-- What the handler returns to the server: DECLINED lets other handlers go on, OK ends the request.
-- `crash` stands for a fault: of a configuration loop, or of a log text that is taken for a format.
pub data Answer : Type 0 where
  declined : Answer
  ok : Answer
  code : ℕ → Answer
  crash : Answer

-- The query for the address `addr`.
unfoldable pub ip_sql : ℕ → Bytes
ip_sql addr =
    codes "SELECT id, http_code, http_message FROM ip "
    ++ (codes "WHERE start>="
        ++ (u32_text addr
            ++ (codes " "
                ++ (codes "AND end<=" ++ (u32_text addr ++ (codes " " ++ codes "LIMIT 1"))))))

-- `Handler::databaseFile`: NULL for an empty path.
unfoldable pub database_file : Bytes → Option Bytes
database_file [] = none
database_file (c ∷ path) = some (c ∷ path)

module _ (apr : Apr) (sq : Sqlite) (host : Host) where
  open sq use {World, Db, Stmt, db_open, db_close, column_int}

  -- `Handler::connect`: the connection, or the error message, with the connection closed again.
  unfoldable pub connect : Bytes → World → Outcome Db × World
  connect path w =
      let (rc, db, w') = db_open path w in
      if not (rc == 0)
      then (
        thrown (db_error sq db (some (codes "Can't open database: ")) [] w' ++ path),
        (db_close db w').1,
      )
      else (returned db, w')

  -- The catch clause.
  unfoldable pub report : Request apr → Bytes → Request apr
  unfolding rputs log_line
  report r what =
      log_line apr (rputs apr r (codes "mod_gate Error: " ++ what)) crit
        (codes "mod_gate[" ++ (u32_text host.pid ++ (codes "] : " ++ what)))

  unfoldable pub match_line : Request apr → ℤ → ℤ → Bytes
  match_line r record_id http_code =
      codes "mod_gate["
      ++ (u32_text host.pid
          ++ (codes "]: MATCH ip="
              ++ (r.remote_ip
                  ++ (codes " record="
                      ++ (i32_text record_id ++ (codes " http=" ++ i32_text http_code))))))

  -- The body of the loop over the rows, which returns in its first round.
  unfoldable pub apply_row : Request apr → ℤ → ℤ → Answer × Request apr
  unfolding log_line match_line
  apply_row r record_id http_code =
      let r' =
        log_line apr (record r { status = http_code }) notice (match_line r record_id http_code) in
      if int_eq http_code (pos 200) then (declined, r') else (ok, r')

  -- `while (query.step() == SQLITE_ROW)`.
  unfoldable pub row_answer : ℕ → Query sq → World → Request apr → Answer × Request apr
  unfolding apply_row
  row_answer rc q w r =
      if rc == sqlite_row
      then apply_row r (column_int q.stmt w 0) (column_int q.stmt w 1)
      else (declined, r)

  -- Behind `prepare`, which may have thrown; the destructor of the query runs on every way out.
  unfoldable pub read_rows :
      Outcome (Unit {0}) → Query sq → Request apr → World → Answer × Request apr × World
  read_rows (thrown what) q r w = (ok, report r what, (finalize sq q w).1)
  read_rows (returned u) q r w =
      let (rc, q', w') = step sq q w in
      let (answer, r') = row_answer rc q' w' r in (answer, r', (finalize sq q' w').1)

  unfoldable pub run_query : Db → ℕ → Request apr → World → Answer × Request apr × World
  run_query db addr r w =
      let (outcome, q, w') = prepare sq (query sq db) (ip_sql addr) [] w in read_rows outcome q r w'

  -- `headers.get("User-Agent")`, or "NIL"; nothing reads it.
  unfoldable pub user_agent : Request apr → Bytes
  user_agent r = elim (apr.get r.headers_in (codes "User-Agent")) [
    | none ↦ codes "NIL"
    | some s ↦ s
  ]

  unfoldable pub bad_address : Request apr → Request apr
  unfolding log_line
  bad_address r = log_line apr r crit (
      codes "mod_gate["
      ++ (u32_text host.pid ++ (codes "]: inet_pton failed() ip=" ++ r.remote_ip)))

  -- On the result of `inet_pton`.
  unfoldable pub look_up_address :
      Db → Option InAddr → Request apr → World → Answer × Request apr × World
  look_up_address db none r w = (declined, bad_address r, w)
  look_up_address db (some ipvalue) r w = run_query db (host_address host.order ipvalue) r w

  unfoldable pub look_up : Db → Request apr → World → Answer × Request apr × World
  unfolding look_up_address
  look_up db r w = let agent = user_agent r in look_up_address db (host.inet_pton r.remote_ip) r w

  -- The connection has failed, and its message has been logged, or not.
  unfoldable pub not_connected :
      Option (Request apr) → Request apr → World → Answer × Request apr × World
  not_connected none r w = (crash, r, w)
  not_connected (some r') r w = (code 1, r', w)

  -- On the result of `connect`; the destructor of the handler closes the connection.
  unfoldable pub serve_connection : Outcome Db → Request apr → World → Answer × Request apr × World
  unfolding not_connected
  serve_connection (thrown e) r w =
      not_connected (log_message apr host r crit (codes "FATAL ERROR: " ++ e)) r w
  serve_connection (returned db) r w =
      let (answer, r', w') = look_up db r w in (answer, r', (db_close db w').1)

  unfoldable pub serve_file : Option Bytes → Request apr → World → Answer × Request apr × World
  serve_file none r w = (declined, r, w)
  serve_file (some path) r w = let (outcome, w') = connect path w in serve_connection outcome r w'

  -- From the choice of the database on.
  unfoldable pub serve : Request apr → World → Answer × Request apr × World
  unfolding serve_file
  serve r w =
      let (path, r') = gate_request_get_handler apr host r in serve_file (database_file path) r' w

  -- On the result of the configuration.
  unfoldable pub serve_configured :
      Option (Request apr × Bool) → Request apr → World → Answer × Request apr × World
  serve_configured none r w = (crash, r, w)
  serve_configured (some (r', true)) r w = serve r' w
  serve_configured (some (r', false)) r w = (declined, r', w)

  unfoldable pub gate_request_handler : Request apr → World → Answer × Request apr × World
  unfolding serve_configured
  gate_request_handler r w = serve_configured (gate_request_init_configuration apr host r) r w
