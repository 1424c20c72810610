-- ===== src/GateDb.antt =====
-- src/gatedb.cpp: the tool that creates, indexes and lints a filter database; what it does to a new
-- database and to one row. `Tool` has its commands.
pub mod Help
pub mod Tool
pub mod Index
pub mod Closing
pub mod Ending
pub mod Reports
use mod_gate.Base.{
  ℕ, zero, suc, ◌+◌, ◌-◌, Bool, true, false, not, ◌&&◌, ◌||◌, List, [], ◌∷◌, ◌++◌, Option, none,
  some, Bytes, codes, ℤ, pos, negsuc, sub_ℕ, int_lt, ◌==◌, leb, ltb, if◌then◌else◌, length, is_null,
}
use mod_gate.Decimal.{u32_text, i32_text, read_digits}
use mod_gate.Host.{Host, InAddr, host_address}
use mod_gate.Sqlite.{
  Sqlite, Query, sqlite_ok, sqlite_row, Outcome, returned, thrown, query, prepare, step, finalize,
  db_execute, db_error,
}

-- How the process ends: with a code, by an exception that nothing catches, or by a fault; `endless`
-- is the end of the fuel.
pub data Exit : Type 0 where
  code : ℕ → Exit
  uncaught : Bytes → Exit
  crash : Exit
  endless : Exit

abbrev pub newline : ℕ
newline = 10

unfoldable pub schema : Bytes
schema =
    codes "CREATE TABLE ua (          "
    ++ (newline
        ∷ (codes "    id integer primary key,"
            ++ (newline
                ∷ (codes "    name text,             "
                    ++ (newline
                        ∷ (codes "    http_code int,         "
                            ++ (newline
                                ∷ (codes "    http_message text );   "
                                    ++ (newline
                                        ∷ (codes "CREATE TABLE ip (          "
                                            ++ (newline
                                                ∷ (codes "    id integer primary key,"
                                                    ++ (newline
                                                        ∷ (codes "    start_text text,       "
                                                            ++ (newline
                                                            ∷ (codes "    end_text text,         "
                                                            ++ (newline
                                                            ∷ (codes "    start int,             "
                                                            ++ (newline
                                                            ∷ (codes "    end int,               "
                                                            ++ (newline
                                                            ∷ (codes "    http_code int,         "
                                                            ++ (newline
                                                            ∷ (codes "    http_message text );   "
                                                            ++ (newline
                                                            ∷ [])))))))))))))))))))))))))

unfoldable pub index_sql : Bytes
index_sql =
    codes "SELECT id, start_text, end_text FROM ip "
    ++ (codes "WHERE length(start)=0 OR length(end)=0 "
        ++ codes "  OR start IS NULL OR end IS NULL ")

unfoldable pub lint_sql : Bytes
lint_sql =
    codes "SELECT id, start_text, end_text FROM ip "
    ++ codes "WHERE length(start)=0 OR length(end)=0"

unfoldable pub update_sql : ℕ → ℕ → ℤ → Bytes
update_sql start_addr end_addr record_id =
    codes "UPDATE ip set start="
    ++ (u32_text start_addr
        ++ (codes ","
            ++ (codes "end="
                ++ (u32_text end_addr
                    ++ (codes " " ++ (codes "WHERE id=" ++ i32_text record_id))))))

unfoldable pub not_converted : ℤ → Bytes → Bytes
not_converted record_id text =
    codes "Failed to convert IP address for record: "
    ++ (i32_text record_id ++ (codes ": " ++ text))

-- What `ipvalue` holds behind a call of `inet_pton`: the call writes it only if it succeeds.
abbrev pub written_to : InAddr → Option InAddr → InAddr
written_to old none = old
written_to old (some a) = a

module _ (sq : Sqlite) where
  -- The tool's state: the library's, what the tool itself has printed to `stderr` and `stdout`, without the
  -- lines' ends, and `global_verbosity`. The wrappers' own messages to `stderr` are left out.
  pub record Run : Type 0 where
    pub world : sq.World
    pub stderr : List Bytes
    pub stdout : List Bytes
    pub verbosity : ℤ

  unfoldable pub say : Run → Bytes → Run
  say r line = record r { stderr = r.stderr ++ line ∷ [] }

  abbrev pub say_if : Bool → Run → Bytes → Run
  say_if true r line = record r { stderr = r.stderr ++ line ∷ [] }
  say_if false r line = r

  abbrev pub at_world : Run → sq.World → Run
  at_world r w = record r { world = w }

module _ (sq : Sqlite) (host : Host) (junk : Run sq → InAddr) where
  open sq use {World, Db, Stmt, db_open, db_close, column_int, column_text}

  -- `junk` is what the uninitialised `ipvalue` of a round holds.
  unfoldable pub open_database : Bytes → Run sq → Option Db × Run sq
  unfolding say
  open_database path r =
      let (rc, db, w') = db_open path r.world in
      if not (rc == 0)
      then (
        none,
        at_world sq (say sq r (db_error sq db (some (codes "Can't open database: ")) [] w' ++ path))
            (db_close db w').1,
      )
      else (some db, at_world sq r w')

  -- The destructor of `Database`.
  abbrev pub close : Db → Run sq → Run sq
  close db r = at_world sq r (db_close db r.world).1

  -- On the result of `open_database`.
  unfoldable pub create_in : Option Db → Run sq → Exit × Run sq
  unfolding say
  create_in none r = (code 1, r)
  create_in (some db) r =
      let (rc, w') = db_execute sq db schema [] r.world in
      let msg =
        codes "Failed to create database: "
        ++ (codes ": " ++ db_error sq db (some (codes "Failed to create database")) [] w') in
      if not (rc == sqlite_ok)
      then (code 1, close db (say sq (at_world sq r w') msg))
      else (code 0, close db (at_world sq r w'))

  unfoldable pub create_database : Bytes → Run sq → Exit × Run sq
  unfolding say create_in
  create_database path r =
      if host.readable path
      then (code 1, say sq r (codes "Error: database file already exists: " ++ path))
      else let (db, r') = open_database path r in create_in db r'

  -- The body of the loop of `index_database`, on the columns of the row.
  unfoldable pub index_row : Db → ℤ → Bytes → Bytes → Run sq → Run sq
  unfolding say
  index_row db record_id start_text end_text r =
      let r1 = say sq r (start_text ++ (codes " " ++ end_text)) in
      let ipvalue = written_to (junk r) (host.inet_pton start_text) in
      let start_addr = host_address host.order ipvalue in
      let r2 =
        say_if sq (is_null (host.inet_pton end_text)) r1 (not_converted record_id end_text) in
      let end_addr = host_address host.order (written_to ipvalue (host.inet_pton end_text)) in
      let sql = update_sql start_addr end_addr record_id in
      let r3 = say_if sq (not (int_lt r.verbosity (pos 1))) r2 sql in
      let (rc, w') = db_execute sq db sql [] r.world in
      say_if sq (not (rc == sqlite_ok)) (at_world sq r3 w') (
        codes "Failed to execute query for record: " ++ (i32_text record_id ++ (codes ": " ++ sql)))

  -- `inet_pton` reads through NULL if a column is NULL: a fault.
  unfoldable pub index_columns : Db → ℤ → Option Bytes → Option Bytes → Run sq → Option (Run sq)
  unfolding index_row
  index_columns db record_id (some start_text) (some end_text) r =
      some (index_row db record_id start_text end_text r)
  index_columns db record_id _ _ r = none

  unfoldable pub lint_row : ℤ → Run sq → Option (Run sq)
  unfolding say
  lint_row record_id r = some (say sq r (codes "Unindexed IP: id=" ++ i32_text record_id))
