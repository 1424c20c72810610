-- ===== src/Tests/Store.antt =====
-- A database of one table that understands the query of the request handler, with the laws of SQLite.
use mod_gate.Base.{
  ℕ, ◌+◌, ◌-◌, ◌≡◌, refl, Bool, List, [], ◌∷◌, Option, none, some, Bytes, codes, ℤ, pos,
  if◌then◌else◌, ◌==◌, arith, drop, length,
}
use mod_gate.Decimal.{read_digits}
use mod_gate.Gate.Serve.Rows.{IpRow, at_least, at_most, selected}
use mod_gate.Sqlite.Laws.{SqliteLaws}
use mod_gate.Sqlite.{Sqlite, sqlite_ok, sqlite_row}

-- The table, the row of the last step, and the numbers of open connections and statements.
pub record Store : Type 0 where
  pub rows : List IpRow
  pub current : Option IpRow
  pub open_dbs : ℕ
  pub open_stmts : ℕ

abbrev pub find_row : (IpRow → Bool) → List IpRow → Option IpRow
find_row picks [] = none
find_row picks (x ∷ xs) = if picks x then some x else find_row picks xs

-- The two numbers of the handler's query.
abbrev pub query_numbers : Bytes → ℕ × ℕ
query_numbers sql =
    let (a, rest) =
      read_digits 0
        (drop (length (codes "SELECT id, http_code, http_message FROM ip WHERE start>=")) sql) in
    (a, (read_digits 0 (drop (length (codes " AND end<=")) rest)).0)

abbrev pub step_to : Option IpRow → Store → ℕ × Store
step_to none w = (101, record w { current = none })
step_to (some x) w = (sqlite_row, record w { current = some x })

abbrev pub step_store : Option Bytes → Store → ℕ × Store
step_store none w = (21, w)
step_store (some sql) w =
    let (a, b) = query_numbers sql in step_to (find_row (selected at_least a at_most b) w.rows) w

abbrev pub column : Option IpRow → ℕ → ℤ
column none i = pos 0
column (some x) i = if i == 0 then x.id else x.http_code

-- An empty path cannot be opened.
abbrev pub open_code : Bytes → ℕ
open_code [] = 14
open_code (c ∷ path) = sqlite_ok

abbrev pub store : Sqlite
store = record {
  World = Store;
  Db = Unit {0};
  Stmt = Bytes;
  vmprintf = λ sql args. sql;
  db_open = λ path w. (open_code path, tt, record w { open_dbs = w.open_dbs + 1 });
  db_close = λ db w. (sqlite_ok, record w { open_dbs = w.open_dbs - 1 });
  db_exec = λ db sql w. (sqlite_ok, w);
  db_prepare = λ db sql w. (sqlite_ok, some sql, record w { open_stmts = w.open_stmts + 1 });
  stmt_step = step_store;
  stmt_finalize = λ s w. (sqlite_ok, record w { open_stmts = w.open_stmts - 1 });
  column_int = λ st w i. column w.current i;
  column_text = λ st w i. none;
  errmsg = λ db w. codes "not an error";
}

step_to_dbs : (o : Option IpRow) (w : Store) → (step_to o w).1.open_dbs ≡ w.open_dbs
step_to_dbs none w = refl
step_to_dbs (some x) w = refl

step_to_stmts : (o : Option IpRow) (w : Store) → (step_to o w).1.open_stmts ≡ w.open_stmts
step_to_stmts none w = refl
step_to_stmts (some x) w = refl

pub step_store_dbs : (st : Option Bytes) (w : Store) → (step_store st w).1.open_dbs ≡ w.open_dbs
step_store_dbs none w = refl
step_store_dbs (some sql) w = step_to_dbs _ w

pub step_store_stmts :
    (st : Option Bytes) (w : Store) → (step_store st w).1.open_stmts ≡ w.open_stmts
step_store_stmts none w = refl
step_store_stmts (some sql) w = step_to_stmts _ w

unfoldable pub store_laws : SqliteLaws store
store_laws = record {
  dbs = λ w. w.open_dbs;
  stmts = λ w. w.open_stmts;
  open_dbs = λ path w. refl;
  open_stmts = λ path w. refl;
  close_dbs = λ db w h. refl;
  close_stmts = λ db w. refl;
  exec_dbs = λ db sql w. refl;
  exec_stmts = λ db sql w. refl;
  prepare_dbs = λ db sql w. refl;
  prepare_stmts = λ db sql w. refl;
  prepare_failed = λ db sql w h. absurd (h refl);
  step_dbs = step_store_dbs;
  step_stmts = step_store_stmts;
  step_null = λ w. omega arith;
  finalize_dbs = λ s w. refl;
  finalize_stmts = λ s w. refl;
  vmprintf_plain = λ sql h. refl;
}
