-- ===== src/Sqlite.antt =====
-- The SQLite library as a parameter, and src/sqlite.cpp with the wrappers `Database` and `Query`.
pub mod Laws
pub mod Handles
use mod_gate.Base.{
  ℕ, suc, ◌+◌, ◌-◌, ◌≡◌, Bool, true, false, not, [], ◌∷◌, ◌++◌, List, Option, none, some, Bytes,
  codes, ℤ, ◌==◌, is_null, if◌then◌else◌,
}
use mod_gate.Decimal.{u32_text}

-- What the code calls. `World` is the state of the library and of the databases; a call returns its
-- result code, what it writes through its pointer arguments, and the new world. The codes are
-- numbers: SQLITE_OK is 0.
pub record Sqlite : Type 1 where
  pub World : Type 0
  pub Db : Type 0
  pub Stmt : Type 0
  pub vmprintf : Bytes → List Bytes → Bytes
  pub db_open : Bytes → World → ℕ × Db × World
  pub db_close : Db → World → ℕ × World
  pub db_exec : Db → Bytes → World → ℕ × World
  pub db_prepare : Db → Bytes → World → ℕ × Option Stmt × World
  pub stmt_step : Option Stmt → World → ℕ × World
  pub stmt_finalize : Stmt → World → ℕ × World
  pub column_int : Option Stmt → World → ℕ → ℤ
  pub column_text : Option Stmt → World → ℕ → Option Bytes
  pub errmsg : Db → World → Bytes

abbrev pub sqlite_ok : ℕ
sqlite_ok = 0

abbrev pub sqlite_row : ℕ
sqlite_row = 100

-- A call that may throw a `std::runtime_error`, with the text of the exception.
pub data Outcome (A : Type 0) : Type 0 where
  returned : A → Outcome A
  thrown : Bytes → Outcome A

module _ (sq : Sqlite) where
  open sq use {
    World, Db, Stmt, vmprintf, db_open, db_close, db_exec, db_prepare, stmt_step, stmt_finalize,
    column_int, column_text, errmsg,
  }

  -- `Query`; the class `Database` holds a handle only.
  pub record Query : Type 0 where
    pub db : Db
    pub error_code : ℕ
    pub stmt : Option Stmt

  unfoldable pub query : Db → Query
  query handle = record { db = handle; error_code = 0; stmt = none }

  -- `sqlite3_finalize`, unless the pointer is NULL.
  abbrev pub release : Option Stmt → World → World
  release none w = w
  release (some s) w = (stmt_finalize s w).1

  -- `Query::finalize`, which is also the destructor.
  unfoldable pub finalize : Query → World → Query × World
  finalize q w = (record q { stmt = none }, release q.stmt w)

  unfoldable pub step : Query → World → ℕ × Query × World
  step q w = let (rc, w') = stmt_step q.stmt w in (rc, record q { error_code = rc }, w')

  unfoldable pub prepare_message : Query → Bytes → World → Bytes
  prepare_message q sql w =
      codes " ["
      ++ (u32_text q.error_code
          ++ (codes "] "
              ++ (codes "Query::prepare() failed --"
                  ++ (errmsg q.db w ++ (codes " SQL: " ++ sql)))))

  -- A pending statement is finalized first; both `prepare` and `exists` begin so.
  unfoldable pub compile : Query → Bytes → List Bytes → World → Query × World
  unfolding finalize
  compile q sql args w =
      let tmp = vmprintf sql args in
      let (q', w') = if is_null q.stmt then (q, w) else finalize q w in
      let (rc, st, w'') = db_prepare q'.db tmp w' in (record q' { error_code = rc; stmt = st }, w'')

  unfoldable pub prepare : Query → Bytes → List Bytes → World → Outcome (Unit {0}) × Query × World
  unfolding compile
  prepare q sql args w =
      let (q', w') = compile q sql args w in
      if not (q'.error_code == sqlite_ok)
      then (thrown (prepare_message q' sql w'), q', w')
      else (returned tt, q', w')

  unfoldable pub exists : Query → Bytes → List Bytes → World → Bool × Query × World
  unfolding compile step finalize
  exists q sql args w =
      let (q', w') = compile q sql args w in
      let (rc, q'', w'') = step q' w' in
      let (q''', w''') = finalize q'' w'' in (rc == sqlite_row, q''', w''')

  unfoldable pub execute : Query → Bytes → List Bytes → World → ℕ × Query × World
  execute q sql args w =
      let (rc, w') = db_exec q.db (vmprintf sql args) w in (rc, record q { error_code = rc }, w')

  -- `Database::execute`, `Database::error`, `Database::count` and `Database::value`; the destructor
  -- of the local `Query` runs on the way out, also of an exception.
  unfoldable pub db_execute : Db → Bytes → List Bytes → World → ℕ × World
  db_execute db sql args w = db_exec db (vmprintf sql args) w

  unfoldable pub db_error : Db → Option Bytes → List Bytes → World → Bytes
  db_error db none args w = errmsg db w
  db_error db (some msg) args w = vmprintf msg args ++ errmsg db w

  abbrev pub text_or_empty : Option Bytes → Bytes
  text_or_empty none = []
  text_or_empty (some s) = s

  -- A query that is prepared, stepped once, read by `fetch` and destroyed.
  unfoldable pub fetch_first :
      {A : Type 0} → (Option Stmt → World → A) → Db → Bytes → List Bytes → World → Outcome A × World
  unfolding prepare step finalize query
  fetch_first fetch db sql args w =
      let (r, q, w') = prepare (query db) sql args w in
      let (rc, q', w'') = step q w' in
      elim r [
        | thrown e ↦ (thrown e, (finalize q w').1)
        | returned u ↦ (returned (fetch q'.stmt w''), (finalize q' w'').1)
      ]

  unfoldable pub count : Db → Bytes → List Bytes → World → Outcome ℤ × World
  unfolding fetch_first
  count db sql args w = fetch_first (λ st v. column_int st v 0) db sql args w

  unfoldable pub value : Db → Bytes → List Bytes → World → Outcome Bytes × World
  unfolding fetch_first
  value db sql args w = fetch_first (λ st v. text_or_empty (column_text st v 0)) db sql args w

  unfoldable pub query_error : Query → Option Bytes → List Bytes → World → Bytes
  unfolding db_error
  query_error q msg args w = db_error q.db msg args w
