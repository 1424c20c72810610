-- ===== src/Ruby/Interpreter/Running.antt =====
-- The class `VM` of src/ruby.cpp.
use mod_gate.Base.{
  ℕ, ◌≡◌, refl, Bool, true, false, not, [], Option, none, some, Bytes, ℤ, if◌then◌else◌,
}
use mod_gate.Ruby.Interpreter.{Frames, CallInfo, output_backtrace}

-- What the code calls of mruby to run code. `mrb_load_irep_cxt`, `mrb_load_string_cxt` and
-- `mrb_load_file_cxt` return a value and leave the state; of the value it is asked whether it is the
-- undefined one. `exc` is the pending exception; `ciidx` and `lastpc` are its variables of these names,
-- and `inspect` is a call of its method, whose result may be no string. `readable` tells whether
-- `fopen` succeeds.
pub record Interpreter (fr : Frames) : Type 1 where
  pub Vm : Type 0
  pub Exception : Type 0
  pub load_irep : Bytes → Vm → Bool × Vm
  pub load_string : Bytes → Vm → Bool × Vm
  pub load_file : Bytes → Vm → Bool × Vm
  pub readable : Bytes → Bool
  pub exc : Vm → Option Exception
  pub ciidx : Exception → ℤ
  pub lastpc : Exception → ℕ
  pub cibase : Vm → ℕ → CallInfo fr
  pub capacity : Vm → ℕ
  pub inspect : Exception → Vm → Option Bytes × Vm
  pub gv_set : Bytes → Bytes → Vm → Vm

module _ (fr : Frames) (it : Interpreter fr) where
  open it use {
    Vm, Exception, load_irep, load_string, load_file, readable, exc, ciidx, lastpc, cibase,
    capacity, inspect, gv_set,
  }

  -- `VM`.
  pub record Machine : Type 0 where
    pub my_vm : Vm
    pub my_error : Bytes
    pub my_backtrace : Bytes

  abbrev pub text_or_empty : Option Bytes → Bytes
  text_or_empty none = []
  text_or_empty (some s) = s

  unfoldable pub report_exception : Option Exception → Machine → Machine
  report_exception none m = m
  report_exception (some e) m =
      let (s, vm) = inspect e m.my_vm in
      record {
        my_vm = vm;
        my_error = text_or_empty s;
        my_backtrace =
            output_backtrace fr (cibase m.my_vm) (capacity m.my_vm) (ciidx e) (lastpc e) [];
      }

  unfoldable pub get_backtrace : Machine → Machine
  unfolding report_exception
  get_backtrace m = report_exception (exc m.my_vm) m

  -- The end of each `execute` method, on whether the value is undefined.
  unfoldable pub finish : Bool → Option Exception → Machine → Bool × Machine
  unfolding get_backtrace
  finish undef none m = (true, m)
  finish true (some e) m = (true, m)
  finish false (some e) m = (false, get_backtrace m)

  unfoldable pub after_load : Bool × Vm → Machine → Bool × Machine
  unfolding finish
  after_load (undef, vm) m = finish undef (exc vm) (record m { my_vm = vm })

  unfoldable pub execute_byte_code : Bytes → Machine → Bool × Machine
  unfolding after_load
  execute_byte_code code m = after_load (load_irep code m.my_vm) m

  unfoldable pub execute_code : Bytes → Machine → Bool × Machine
  unfolding after_load
  execute_code code m = after_load (load_string code m.my_vm) m

  -- `fclose(NULL)` faults.
  unfoldable pub execute_file : Bytes → Machine → Option (Bool × Machine)
  unfolding after_load
  execute_file filename m =
      if readable filename then some (after_load (load_file filename m.my_vm) m) else none

  -- There is no return behind a success: the result is then whatever the caller finds.
  unfoldable pub load_extensions : Bytes → Machine → Option Bool × Machine
  unfolding execute_byte_code
  load_extensions bytecode m =
      let (ok, m') = execute_byte_code bytecode m in if not ok then (some false, m') else (none, m')

  unfoldable pub set_global_variable : Bytes → Bytes → Machine → Machine
  set_global_variable name value m = record m { my_vm = gv_set name value m.my_vm }

  -- What `executeCode` says of a run that has left the pending exception `o` in `vm`, on whether the
  -- value is undefined.
  abbrev pub Told : Bool → Option Exception → Vm → Machine → Bool × Machine → Type 0
  Told undef none vm m r = r ≡ (true, record m { my_vm = vm })
  Told true (some e) vm m r = r ≡ (true, record m { my_vm = vm })
  Told false (some e) vm m r =
      (r.0 ≡ false)
      × (r.1.my_vm ≡ (inspect e vm).1)
      × (r.1.my_error ≡ text_or_empty (inspect e vm).0)
      × (r.1.my_backtrace ≡ output_backtrace fr (cibase vm) (capacity vm) (ciidx e) (lastpc e) [])

  finish-Told :
      (undef : Bool) (o : Option Exception) (vm : Vm) (m : Machine)
      → exc vm ≡ o
      → Told undef o vm m (finish undef o (record m { my_vm = vm }))
  unfolding finish get_backtrace report_exception
  finish-Told undef none vm m h = refl
  finish-Told true (some e) vm m h = refl
  finish-Told false (some e) vm m h = rw h (refl, refl, refl, refl)

  -- `executeCode` fails exactly if the run leaves an exception and a value that is not undefined; then
  -- the machine has the exception's text, empty if it is no string, and its backtrace, in place of
  -- earlier ones. If the value is undefined, it returns true although the exception is pending, and
  -- the machine keeps the error and the trace of an earlier run.
  pub execute_code-Told :
      (code : Bytes) (m : Machine)
      → Told
          (load_string code m.my_vm).0
          (exc (load_string code m.my_vm).1)
          (load_string code m.my_vm).1
          m
          (execute_code code m)
  unfolding execute_code
  execute_code-Told code m =
      finish-Told (load_string code m.my_vm).0 (exc (load_string code m.my_vm).1)
        (load_string code m.my_vm).1 m refl
