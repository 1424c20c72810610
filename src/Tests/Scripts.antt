-- ===== src/Tests/Scripts.antt =====
-- An interpreter of Ruby, and scripts on its objects.
use mod_gate.Base.{
  ℕ, zero, suc, ◌≡◌, refl, true, false, List, [], ◌∷◌, ◌++◌, ◌+◌, ◌*◌, ◌==◌, Option, none, some,
  Bytes, codes, ℤ, pos, negsuc, take, map, get_elem?, arith, if◌then◌else◌, Bool,
}
use mod_gate.Ruby.Database.{
  Connection, begin_call, prepare_call, conn_call, m_begin, m_prepare, make_sqlite3_stmt, with_arg,
  text_of, run_sql, ensure_connection, with_handle,
}
use mod_gate.Ruby.Interpreter.Running.{Interpreter, Machine, Told, execute_code, execute_code-Told}
use mod_gate.Ruby.Interpreter.Trace.{output_backtrace_lem, report, entries, first_frame}
use mod_gate.Decimal.{u32_text, i32_text, digits}
use mod_gate.Ruby.Interpreter.{
  Frames, CallInfo, output_backtrace, traced, trace_loop, trace_frame, line_of, offset, position,
  file_or_unknown, separator, frame_text, add_line, format,
}
use mod_gate.Ruby.Reading.{row_readers, visit, row}
use mod_gate.Ruby.Rows.{Block, m_each, m_keys, m_column}
use mod_gate.Ruby.Scripts.{Vm, after_call}
use mod_gate.Ruby.{Statement, Value, fixnum, str, statement_object, Mruby, Columns}
use mod_gate.Sqlite.{Outcome, returned, thrown}
use mod_gate.Tests.Site.{machine, world}
use mod_gate.Tests.Store.{Store, store}

abbrev Shown : Type 0
Shown = Value (Unit {0}) Bytes

abbrev string_or_error : Shown → Outcome Shown
string_or_error (str s) = returned (str s)
string_or_error _ = thrown (codes "TypeError")

abbrev int_or_error : Shown → Outcome ℤ
int_or_error (fixnum i) = returned i
int_or_error _ = thrown (codes "TypeError")

abbrev copied : Option Bytes → ℕ → Bytes
copied none n = []
copied (some s) n = take n s

abbrev mruby : Mruby store
mruby = record {
  Float = Unit {0};
  raisef = λ fmt args. fmt;
  type_error = codes "TypeError";
  get_string = string_or_error;
  get_int = int_or_error;
  cstr = λ s. returned s;
  to_int = λ i. i;
  str_new = copied;
}

-- A row of a number and a text.
abbrev class_at : ℤ → ℕ
class_at (pos zero) = 1
class_at (pos (suc n)) = 3
class_at (negsuc n) = 5

abbrev name_at : ℕ → Bytes
name_at zero = codes "id"
name_at (suc n) = codes "start"

abbrev columns : Columns store (Unit {0})
columns = record {
  last_insert_rowid = λ db w. pos 1;
  column_count = λ st w. 2;
  column_name = λ st w i. name_at i;
  column_type = λ st w i. class_at i;
  column_integer = λ st w i. pos 7;
  column_double = λ st w i. tt;
  column_chars = λ st w i. some (codes "10.0.0.1");
  column_blob = λ st w i. none;
  column_bytes = λ st w i. 8;
}

abbrev unit_file : Bytes
unit_file = codes "ruby_sqlite.cpp"

abbrev fresh : Connection store
fresh = record { handle = none; rc = 0; dont_delete = false }

abbrev opened : Connection store
opened = record { handle = some tt; rc = 0; dont_delete = false }

abbrev closed_world : Store
closed_world = world []

abbrev a_statement : Shown
a_statement = statement_object (record { handle = some (codes "SELECT 1") })

begun_transaction :
    conn_call store mruby columns machine unit_file begin_call opened closed_world
    ≡ (returned (fixnum (pos 0)), opened, closed_world)
unfolding conn_call m_begin ensure_connection with_handle run_sql
begun_transaction = refl

abbrev State : Type 0
State = Vm store mruby columns machine unit_file

abbrev begin_state : State
begin_state = record { world = closed_world; conns = []; stmts = [] }

-- A script that makes a connection, opens it, and prepares a statement.
abbrev a_path : Shown
a_path = str (codes "/db")

-- After the connection is open.
abbrev open_world : Store
open_world = record closed_world { open_dbs = 1 }

abbrev open_state : State
open_state = record { world = open_world; conns = opened ∷ []; stmts = [] }

abbrev final_state : State
final_state =
    after_call store mruby columns machine unit_file [] opened [] []
      (prepare_call (str (codes "SELECT 1"))) open_world

one_held : final_state.stmts ≡ record { handle = some (codes "SELECT 1") } ∷ []
unfolding after_call conn_call m_prepare ensure_connection with_handle with_arg text_of
    make_sqlite3_stmt
one_held = refl

-- Memory that is zero.
abbrev zeroes : Store → Connection store
zeroes w = fresh

abbrev recorder : Block store mruby columns unit_file (List (Bytes × Shown))
recorder e (seen, w) = (returned tt, (seen ++ e ∷ [], w))

abbrev one_row : Statement Bytes
one_row = record { handle = some (codes "SELECT 1") }

row_readers_example :
    (m_each store mruby columns unit_file recorder
        (record { handle = some (codes "SELECT 1") })
        ([], closed_world)
      ≡ visit store mruby columns unit_file recorder
          (row store mruby columns unit_file (codes "SELECT 1") closed_world)
          ([], closed_world))
    × (m_keys store mruby columns unit_file
          (record { handle = some (codes "SELECT 1") })
          closed_world
        ≡ returned
            (map (λ e. e.0) (row store mruby columns unit_file (codes "SELECT 1") closed_world)))
    × (x : Shown) × (m_column store mruby columns unit_file
          (fixnum (pos 1))
          (record { handle = some (codes "SELECT 1") })
          closed_world
        ≡ returned x)
    × (get_elem? (row store mruby columns unit_file (codes "SELECT 1") closed_world) 1
        ≡ some (codes "start", x))
row_readers_example =
    row_readers store mruby columns unit_file recorder (record { handle = some (codes "SELECT 1") })
      (codes "SELECT 1") [] closed_world (fixnum (pos 1)) 1 refl (λ e t. refl) refl (omega arith)

-- Frames of two methods in one file, and an interpreter whose state is a number.
abbrev frames : Frames
frames = record {
  Class = Unit {0};
  Symbol = Unit {0};
  Irep = Unit {0};
  same_class = λ a b. true;
  class_name = λ c. some (codes "Filter");
  sym2name = λ m. some (codes "run");
  iseq = λ irep. 0;
  debug_get_filename = λ irep at. some (codes "filter.rb");
  debug_get_line = λ irep at. pos at;
}

abbrev two_frames : ℕ → CallInfo frames
two_frames i = record {
  proc = some (record { body = some tt; target_class = tt });
  err = some (i * 10 + 3);
  pc = 0;
  target_class = tt;
  mid = tt;
}

output_backtrace_lem_example :
    output_backtrace frames two_frames 32 (pos 1) 0 []
    ≡ [] ++ report (entries (traced frames two_frames (first_frame 32 1) 0) (first_frame 32 1 + 1))
output_backtrace_lem_example = output_backtrace_lem frames two_frames 32 1 0 []

shown :
    output_backtrace frames two_frames 32 (pos 1) 0 []
    ≡ codes "trace:\n\t[1] filter.rb:13:in Filter.run\n\t[0] filter.rb:3:in Filter.run\n"
unfolding output_backtrace trace_loop trace_frame traced line_of offset position file_or_unknown
    separator frame_text add_line format u32_text i32_text digits
shown = refl

-- Code that starts with a parenthesis does not parse: it leaves the undefined value and an exception.
abbrev parsed : Bytes → ℕ → Bool × ℕ
parsed [] vm = (false, 0)
parsed (c ∷ code) vm = if c == b'(' then (true, 1) else (false, 2)

abbrev pending : ℕ → Option ℕ
pending zero = none
pending (suc n) = some n

abbrev interpreter : Interpreter frames
interpreter = record {
  Vm = ℕ;
  Exception = ℕ;
  load_irep = parsed;
  load_string = parsed;
  load_file = parsed;
  readable = λ path. true;
  exc = pending;
  ciidx = λ e. pos 1;
  lastpc = λ e. 0;
  cibase = λ vm. two_frames;
  capacity = λ vm. 32;
  inspect = λ e vm. (some (codes "undefined method"), vm);
  gv_set = λ name value vm. vm;
}

abbrev started : Machine frames interpreter
started = record { my_vm = 0; my_error = []; my_backtrace = [] }

execute_code-Told_example :
    Told frames interpreter false
      (some 1)
      2
      started
      (execute_code frames interpreter (codes "go") started)
execute_code-Told_example = execute_code-Told frames interpreter (codes "go") started

unparsed :
    Told frames interpreter true
      (some 0)
      1
      started
      (execute_code frames interpreter (codes "(") started)
unparsed = execute_code-Told frames interpreter (codes "(") started
