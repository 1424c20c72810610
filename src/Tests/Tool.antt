-- ===== src/Tests/Tool.antt =====
-- Runs of the database tool.
use mod_gate.Apr.Assoc.{assoc}
use mod_gate.Base.{
  ℕ, zero, suc, ◌<◌, ◌≡◌, ◌≢◌, refl, false, List, [], ◌∷◌, ◌++◌, map, Option, none, some, Bytes,
  codes, ℤ, pos, equal, if◌then◌else◌, arith,
}
use mod_gate.Decimal.{read_digits}
use mod_gate.Gate.{Request}
use mod_gate.GateDb.Closing.{index_database_handles}
use mod_gate.GateDb.Ending.{IsFinite, commands_stop}
use mod_gate.GateDb.Index.{updated}
use mod_gate.GateDb.Reports.{Yields, unindexed, lint_database_lem}
use mod_gate.GateDb.Tool.{
  row_loop, index_database, lint_database, index_opened, index_prepared, index_end,
}
use mod_gate.GateDb.{Run, code, endless, open_database, index_sql, lint_sql}
use mod_gate.Host.{Host, InAddr, big}
use mod_gate.Sqlite.{
  Sqlite, Query, returned, sqlite_ok, sqlite_row, query, prepare, compile, step, finalize,
  db_execute,
}
use mod_gate.Tests.Store.{store, store_laws}

abbrev address : ℕ → InAddr
address n = record { first_byte = 10; second_byte = 0; third_byte = 0; fourth_byte = n }

abbrev machine : Host
machine = record {
  pid = 7;
  order = big;
  readable = λ path. false;
  inet_pton = λ s.
      if equal s (codes "10.0.0.1")
      then some (address 1)
      else if equal s (codes "10.0.0.9")
      then some (address 9)
      else none;
}

abbrev start : Run store
start = record {
  world = record { rows = []; current = none; open_dbs = 0; open_stmts = 0 };
  stderr = [];
  stdout = [];
  verbosity = pos 0;
}

abbrev junk : Run store → InAddr
junk r = address 77

abbrev client : Request assoc
client = record {
  notes = [];
  headers_in = [];
  server_config = record { handler = none; default_database = none; options = []; handlers = [] };
  dir_config = record { dir = none; options = [] };
  remote_ip = codes "10.0.0.1";
  status = pos 0;
  body = [];
  log = [];
}

first_read : machine.inet_pton (codes "10.0.0.1") ≡ some (address 1)
unfolding equal
first_read = refl

last_read : machine.inet_pton (codes "10.0.0.9") ≡ some (address 9)
unfolding equal
last_read = refl

neither : machine.inet_pton (codes "10.0.0") ≡ none
unfolding equal
neither = refl

accepted : (a b : ℕ) → (updated store machine junk tt a b (pos 3) start).0 ≡ sqlite_ok
unfolding db_execute
accepted a b = refl

indexed : (index_database store machine junk 5 (codes "/db") start).0 ≡ code 0
unfolding index_database index_opened index_prepared index_end row_loop open_database query prepare
    compile step finalize db_execute index_sql read_digits
indexed = refl

index_database_handles_example :
    ((index_database store machine junk 5 (codes "/db") start).1.world.open_stmts ≡ 0)
    × ((index_database store machine junk 5 (codes "/db") start).1.world.open_dbs ≡ 0)
unfolding store_laws
index_database_handles_example =
    index_database_handles store store_laws machine junk 5 0 (codes "/db") start refl indexed

-- A library whose world is the number of rows that are left, and whose queries have two.
abbrev fetched : ℕ → ℕ × ℕ
fetched zero = (101, zero)
fetched (suc n) = (sqlite_row, n)

abbrev cursor : Sqlite
cursor = record {
  World = ℕ;
  Db = Unit {0};
  Stmt = Unit {0};
  vmprintf = λ sql args. sql;
  db_open = λ path w. (sqlite_ok, tt, w);
  db_close = λ db w. (sqlite_ok, w);
  db_exec = λ db sql w. (sqlite_ok, w);
  db_prepare = λ db sql w. (sqlite_ok, some tt, 2);
  stmt_step = λ st w. fetched w;
  stmt_finalize = λ s w. (sqlite_ok, w);
  column_int = λ st w i. pos w;
  column_text = λ st w i. some (codes "10.0.0.1");
  errmsg = λ db w. [];
}

abbrev two_left : Run cursor
two_left = record { world = 2; stderr = []; stdout = []; verbosity = pos 0 }

fewer : (st : Option (Unit {0})) (w : ℕ) → (fetched w).0 ≡ sqlite_row → (fetched w).1 < w
fewer st zero e = absurd (omega arith)
fewer st (suc n) e = omega arith

two_rows : IsFinite cursor (λ w. w) 2
two_rows = record {
  prepare_left = λ db sql w. omega arith;
  step_left = fewer;
  exec_left = λ db sql w. omega arith;
}

abbrev adrift : Run cursor → InAddr
adrift r = address 77

commands_stop_example :
    ((index_database cursor machine adrift 3 (codes "/db") two_left).0 ≢ endless)
    × ((lint_database cursor machine adrift 3 (codes "/db") two_left).0 ≢ endless)
commands_stop_example =
    commands_stop cursor machine adrift (λ w. w) 2 two_rows 3 (codes "/db") two_left (omega arith)

abbrev compiled : Query cursor
compiled = record { db = tt; error_code = 0; stmt = some tt }

abbrev run_out : Query cursor
run_out = record { db = tt; error_code = 101; stmt = some tt }

lint_compiled : prepare cursor (query cursor tt) lint_sql [] 2 ≡ (returned tt, compiled, 2)
unfolding prepare compile query
lint_compiled = refl

two_ids : Yields cursor machine adrift (pos 1 ∷ pos 0 ∷ []) compiled 2 run_out 0
unfolding step
two_ids = (refl, refl, (refl, refl, (λ e. omega arith, refl, refl)))

lint_database_lem_example : lint_database cursor machine adrift 3 (codes "/db") two_left ≡ (
  code 0,
  record two_left {
    stderr = [] ++ map unindexed (pos 1 ∷ pos 0 ∷ []);
    world = (finalize cursor run_out 0).1;
  },
)
lint_database_lem_example =
    lint_database_lem cursor machine adrift (pos 1 ∷ pos 0 ∷ []) 3 (codes "/db") two_left tt
      compiled run_out 2 2 0 refl lint_compiled two_ids (omega arith)

abbrev two_texts : List (ℤ × Bytes × Bytes)
two_texts =
    (pos 1, codes "10.0.0.1", codes "10.0.0.1") ∷ (pos 0, codes "10.0.0.1", codes "10.0.0.1") ∷ []
