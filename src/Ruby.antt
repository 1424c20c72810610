-- ===== src/Ruby.antt =====
-- The Ruby interpreter as a parameter of the bindings (src/ruby_sqlite.cpp, src/ruby_sqlite_stmt.cpp),
-- what they ask SQLite for beyond the wrappers, and the values that they exchange with scripts.
pub mod Database
pub mod Rows
pub mod Calls
pub mod Scripts
pub mod Reading
pub mod Interpreter
use mod_gate.Base.{ℕ, ◌≡◌, ◌++◌, ◌∷◌, Option, none, some, Bytes, codes, ℤ, List, []}
use mod_gate.Sqlite.{Sqlite, Outcome, returned, thrown}
use mod_gate.Decimal.{u32_text}

-- `statement`: NULL or a statement of SQLite. A script holds objects of it, which the constructor
-- `statement_object` shows; `connection_object` stands for any other object of a C type.
pub record Statement (S : Type 0) : Type 0 where
  pub handle : Option S

-- `mrb_value`, as far as the bindings make and read it.
pub data Value (F S : Type 0) : Type 0 where
  nil : Value F S
  fixnum : ℤ → Value F S
  float : F → Value F S
  str : Bytes → Value F S
  statement_object : Statement S → Value F S
  connection_object : Value F S

-- What the bindings call of mruby. An exception is an `Outcome` with its text: `raisef` formats one,
-- `get_string` and `get_int` are `mrb_get_args` with "S" and "i", `cstr` is `mrb_str_to_cstr`,
-- `to_int` the conversion to `mrb_int`, and `str_new` copies from a pointer, which may be NULL.
pub record Mruby (sq : Sqlite) : Type 1 where
  pub Float : Type 0
  pub raisef : Bytes → List Bytes → Bytes
  pub type_error : Bytes
  pub get_string : Value Float sq.Stmt → Outcome (Value Float sq.Stmt)
  pub get_int : Value Float sq.Stmt → Outcome ℤ
  pub cstr : Bytes → Outcome Bytes
  pub to_int : ℤ → ℤ
  pub str_new : Option Bytes → ℕ → Bytes

-- `mrb_get_args` with "S" raises, or yields a string.
pub record MrubyLaws {sq : Sqlite} (mrb : Mruby sq) : Type 1 where
  pub get_string_str :
      (v w : Value mrb.Float sq.Stmt) → mrb.get_string v ≡ returned w → (s : Bytes) × (w ≡ str s)

-- The functions of SQLite that the bindings call besides. Which conversions a call of
-- `sqlite3_column_text` makes in the row is left to them.
pub record Columns (sq : Sqlite) (Float : Type 0) : Type 1 where
  pub last_insert_rowid : sq.Db → sq.World → ℤ
  pub column_count : sq.Stmt → sq.World → ℕ
  pub column_name : sq.Stmt → sq.World → ℕ → Bytes
  pub column_type : sq.Stmt → sq.World → ℤ → ℕ
  pub column_integer : sq.Stmt → sq.World → ℤ → ℤ
  pub column_double : sq.Stmt → sq.World → ℤ → Float
  pub column_chars : sq.Stmt → sq.World → ℤ → Option Bytes
  pub column_blob : sq.Stmt → sq.World → ℤ → Option Bytes
  pub column_bytes : sq.Stmt → sq.World → ℤ → ℕ

-- Goes on with the value, or passes the exception on.
abbrev pub catch_in {ℓ} : {A : Type 0} {B : Type ℓ} → (A → B) → (Bytes → B) → Outcome A → B
catch_in f raised (returned a) = f a
catch_in f raised (thrown e) = raised e

-- The place of a check, as the macros print it: `__FILE__` and `__LINE__`.
unfoldable pub place : Bytes → ℕ → Bytes
place file line = file ++ (b':' ∷ u32_text line)
