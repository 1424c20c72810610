-- ===== src/Ruby/Rows.antt =====
-- src/ruby_sqlite_stmt.cpp: the class `SQLite3Stmt` of scripts.
use mod_gate.Base.{
  ℕ, suc, zero, Bool, false, not, [], ◌∷◌, List, Option, none, some, Bytes, codes, ℤ, pos, negsuc,
  ◌==◌, ltb, if◌then◌else◌,
}
use mod_gate.Sqlite.{Sqlite, Outcome, returned, thrown, release}
use mod_gate.Ruby.{Statement, Value, nil, fixnum, float, str, Mruby, Columns, place}

-- The storage classes of a column.
unfoldable pub sqlite_integer : ℕ
sqlite_integer = 1

unfoldable pub sqlite_float : ℕ
sqlite_float = 2

unfoldable pub sqlite_text : ℕ
sqlite_text = 3

unfoldable pub sqlite_blob : ℕ
sqlite_blob = 4

unfoldable pub sqlite_null : ℕ
sqlite_null = 5

-- `i >= cols`, on the machine's integers.
unfoldable pub beyond : ℤ → ℕ → Bool
beyond (pos n) cols = not (ltb n cols)
beyond (negsuc n) cols = false

module _ (sq : Sqlite) where
  open sq use {World, Stmt}

  -- `deallocator`, up to the `mrb_free`.
  unfoldable pub stmt_deallocator : Statement Stmt → World → World
  stmt_deallocator s w = release sq s.handle w

module _ (sq : Sqlite) (mrb : Mruby sq) (more : Columns sq mrb.Float) (file : Bytes) where
  open sq use {World, Stmt, stmt_step}
  open mrb use {Float, raisef, get_int, to_int, str_new}
  open more use {
    column_count, column_name, column_type, column_integer, column_double, column_chars,
    column_blob, column_bytes,
  }

  -- No method but `step` and the block of `each` changes anything.
  abbrev pub Answered : Type 0
  Answered = Outcome (Value Float Stmt)

  unfoldable pub m_init : Answered
  m_init = thrown (codes "Cannot create a Apache::Server object this way")

  -- What `ENSURE_STATEMENT_HANDLE` raises at a line.
  unfoldable pub invalid : ℕ → Bytes
  invalid line = raisef (codes "Invalid statement handle: %s") (place file line ∷ [])

  unfoldable pub ensure_statement : ℕ → Option Stmt → (Stmt → Answered) → Answered
  unfolding invalid
  ensure_statement line none rest = thrown (invalid line)
  ensure_statement line (some st) rest = rest st

  unfoldable pub m_step : Statement Stmt → World → Answered × World
  unfolding invalid
  m_step s w = elim s.handle [
    | none ↦ (thrown (invalid 156), w)
    | some st ↦ let (rc, w') = stmt_step (some st) w in (returned (fixnum (pos rc)), w')
  ]

  unfoldable pub m_columns : Statement Stmt → World → Answered
  unfolding ensure_statement
  m_columns s w = ensure_statement 165 s.handle (λ st. returned (fixnum (pos (column_count st w))))

  -- `mrb_get_args` with "i" comes before the check of the handle.
  unfoldable pub ordinal : Value Float Stmt → ℕ → Option Stmt → (Stmt → ℤ → Answered) → Answered
  unfolding ensure_statement
  ordinal v line handle rest = elim (get_int v) [
    | thrown e ↦ thrown e
    | returned i ↦ ensure_statement line handle (λ st. rest st i)
  ]

  unfoldable pub m_column_type : Value Float Stmt → Statement Stmt → World → Answered
  unfolding ordinal
  m_column_type v s w =
      ordinal v 178 s.handle (λ st i. returned (fixnum (pos (column_type st w i))))

  unfoldable pub column_value : Stmt → World → ℤ → Value Float Stmt
  unfolding sqlite_integer sqlite_float sqlite_text sqlite_blob sqlite_null
  column_value st w i =
      let type = column_type st w i in
      if type == sqlite_integer
      then fixnum (to_int (column_integer st w i))
      else if type == sqlite_float
      then float (column_double st w i)
      else if type == sqlite_blob
      then str (str_new (column_blob st w i) (column_bytes st w i))
      else if type == sqlite_null
      then nil
      else if type == sqlite_text
      then str (str_new (column_chars st w i) (column_bytes st w i))
      else nil

  unfoldable pub m_column : Value Float Stmt → Statement Stmt → World → Answered
  unfolding ordinal column_value
  m_column v s w = ordinal v 229 s.handle (λ st i. returned (column_value st w i))

  -- The block of `each`: a script, which may raise, and change what it owns, of a type `A`, and the
  -- world of SQLite.
  abbrev pub Block : Type 0 → Type 0
  Block A = Bytes × Value Float Stmt → A × World → Outcome (Unit {0}) × (A × World)

  -- The rounds of `m_each` from column `i` on, of which `n` are left.
  unfoldable pub each_loop :
      {A : Type 0} → Block A → Stmt → ℕ → ℕ → A × World → Answered × (A × World)
  unfolding column_value
  each_loop blk st i zero s = (returned nil, s)
  each_loop blk st i (suc n) s =
      let (outcome, s') = blk (column_name st s.1 i, column_value st s.1 (pos i)) s in
      elim outcome [ thrown e ↦ (thrown e, s') | returned u ↦ each_loop blk st (suc i) n s' ]

  unfoldable pub m_each :
      {A : Type 0} → Block A → Statement Stmt → A × World → Answered × (A × World)
  unfolding each_loop invalid
  m_each blk s (a, w) = elim s.handle [
    | none ↦ (thrown (invalid 243), (a, w))
    | some st ↦ each_loop blk st 0 (column_count st w) (a, w)
  ]

  -- The array of `m_keys`, from column `i` on.
  unfoldable pub keys_loop : Stmt → World → ℕ → ℕ → List Bytes
  keys_loop st w i zero = []
  keys_loop st w i (suc n) = column_name st w i ∷ keys_loop st w (suc i) n

  unfoldable pub m_keys : Statement Stmt → World → Outcome (List Bytes)
  unfolding keys_loop invalid
  m_keys s w = elim s.handle [
    | none ↦ thrown (invalid 264)
    | some st ↦ returned (keys_loop st w 0 (column_count st w))
  ]

  -- The readers of one type: nil from the number of columns on.
  unfoldable pub within : Stmt → World → ℤ → Value Float Stmt → Answered
  unfolding beyond
  within st w i value = if beyond i (column_count st w) then returned nil else returned value

  unfoldable pub m_column_text : Value Float Stmt → Statement Stmt → World → Answered
  unfolding ordinal within
  m_column_text v s w =
      ordinal v 286 s.handle
        (λ st i. within st w i (str (str_new (column_chars st w i) (column_bytes st w i))))

  unfoldable pub m_column_blob : Value Float Stmt → Statement Stmt → World → Answered
  unfolding ordinal within
  m_column_blob v s w =
      ordinal v 312 s.handle
        (λ st i. within st w i (str (str_new (column_blob st w i) (column_bytes st w i))))

  unfoldable pub m_column_int : Value Float Stmt → Statement Stmt → World → Answered
  unfolding ordinal within
  m_column_int v s w =
      ordinal v 338 s.handle (λ st i. within st w i (fixnum (to_int (column_integer st w i))))

  unfoldable pub m_column_double : Value Float Stmt → Statement Stmt → World → Answered
  unfolding ordinal within
  m_column_double v s w =
      ordinal v 362 s.handle (λ st i. within st w i (float (column_double st w i)))

  -- The methods that `init_sqlite3_stmt` defines and that return a value of the row: `columnType` is
  -- bound to the function of `columns`.
  pub data StmtCall : Type 0 where
    columns_call : StmtCall
    column_type_call : Value Float Stmt → StmtCall
    column_call : Value Float Stmt → StmtCall
    index_call : Value Float Stmt → StmtCall
    column_text_call : Value Float Stmt → StmtCall
    column_int_call : Value Float Stmt → StmtCall
    column_double_call : Value Float Stmt → StmtCall

  unfoldable pub stmt_call : StmtCall → Statement Stmt → World → Answered
  stmt_call columns_call s w = m_columns s w
  stmt_call (column_type_call v) s w = m_columns s w
  stmt_call (column_call v) s w = m_column v s w
  stmt_call (index_call v) s w = m_column v s w
  stmt_call (column_text_call v) s w = m_column_text v s w
  stmt_call (column_int_call v) s w = m_column_int v s w
  stmt_call (column_double_call v) s w = m_column_double v s w
