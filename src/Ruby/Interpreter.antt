-- ===== src/Ruby/Interpreter.antt =====
-- src/ruby.cpp: the class `VM`, which runs scripts, and the text of a backtrace.
pub mod Trace
pub mod Running
use mod_gate.Base.{
  ℕ, suc, zero, ◌+◌, ◌-◌, ◌*◌, ◌^◌, ◌%◌, Bool, true, false, not, ◌&&◌, ◌||◌, [], ◌∷◌, ◌++◌, List,
  Option, none, some, Bytes, codes, ℤ, pos, negsuc, int_eq, ltb, leb, take, length, if◌then◌else◌,
}
use mod_gate.Decimal.{u32_text, i32_text}

-- `format` on the text that `vsnprintf` makes; of a longer text the buffer has the first 1022 bytes and a
-- zero, and all 1023 are appended.
unfoldable pub format : Bytes → Bytes → Bytes
format buffer text = buffer ++ (if leb 1023 (length text) then take 1022 text ++ 0 ∷ [] else text)

unfoldable pub file_or_unknown : Option Bytes → Bytes
file_or_unknown none = codes "(unknown)"
file_or_unknown (some s) = s

-- The middle part of a line, by the method's and the class's names.
unfoldable pub frame_text : Option Bytes → Option Bytes → Bytes → Bytes → ℤ → Bytes
frame_text none cn sep filename lineno = filename ++ (b':' ∷ i32_text lineno)
frame_text (some method) none sep filename lineno =
    filename ++ (b':' ∷ (i32_text lineno ++ (codes ":in " ++ method)))
frame_text (some method) (some cn) sep filename lineno =
    filename ++ (b':' ∷ (i32_text lineno ++ (codes ":in " ++ (cn ++ (sep ++ method)))))

-- The three parts that a frame adds.
unfoldable pub add_line : Bytes → ℕ → Bytes → Bytes
unfolding format
add_line backtrace i text =
    format (format (format backtrace (b'\t' ∷ b'[' ∷ (u32_text i ++ codes "] "))) text) (b'\n' ∷ [])

-- One round: `tracehead` tells whether the heading is still to be written.
unfoldable pub trace_frame : Option Bytes → ℕ → Bool × Bytes → Bool × Bytes
unfolding add_line
trace_frame none i s = s
trace_frame (some text) i (tracehead, backtrace) =
    (false, add_line (if tracehead then format backtrace (codes "trace:\n") else backtrace) i text)

-- The rounds for the frames below `n`, the highest first.
unfoldable pub trace_loop : (ℕ → Option Bytes) → ℕ → Bool × Bytes → Bool × Bytes
unfolding trace_frame
trace_loop frame zero s = s
trace_loop frame (suc n) s = trace_loop frame n (trace_frame (frame n) n s)

-- What the code reads of mruby. A `Proc` is `RProc`, an `Irep` a compiled body, and a `CallInfo` a frame;
-- positions in code are addresses in units of `mrb_code`.
pub record Frames : Type 1 where
  pub Class : Type 0
  pub Symbol : Type 0
  pub Irep : Type 0
  pub same_class : Class → Class → Bool
  pub class_name : Class → Option Bytes
  pub sym2name : Symbol → Option Bytes
  pub iseq : Irep → ℕ
  pub debug_get_filename : Irep → ℕ → Option Bytes
  pub debug_get_line : Irep → ℕ → ℤ

module _ (fr : Frames) where
  open fr use {
    Class, Symbol, Irep, same_class, class_name, sym2name, iseq, debug_get_filename, debug_get_line,
  }

  -- A function of C has no body here.
  pub record Proc : Type 0 where
    pub body : Option Irep
    pub target_class : Class

  pub record CallInfo : Type 0 where
    pub proc : Option Proc
    pub err : Option ℕ
    pub pc : ℕ
    pub target_class : Class
    pub mid : Symbol

  -- `(uint32_t)(pc - irep->iseq)`.
  unfoldable pub offset : Irep → ℕ → ℕ
  offset irep pc = (pc + 2 ^ 64 - iseq irep) % 2 ^ 32

  -- The position in frame `i` of a trace from frame `ciidx` on.
  unfoldable pub position : (ℕ → CallInfo) → ℕ → ℕ → ℕ → ℕ
  position cibase ciidx pc0 i = elim (cibase i).err [
    | some pc ↦ pc
    | none ↦ if leb (i + 1) ciidx then (cibase (i + 1)).pc + 2 ^ 64 - 1 else pc0
  ]

  -- `"."` or `"#"`.
  unfoldable pub separator : CallInfo → Proc → Bytes
  separator ci proc = if same_class ci.target_class proc.target_class then codes "." else codes "#"

  -- The text of a frame with a body whose line is known.
  unfoldable pub line_of : (ℕ → CallInfo) → ℕ → ℕ → ℕ → Proc → Irep → Option Bytes
  unfolding separator frame_text file_or_unknown
  line_of cibase ciidx pc0 i proc irep =
      let at = offset irep (position cibase ciidx pc0 i) in
      let lineno = debug_get_line irep at in
      if int_eq lineno (negsuc 0)
      then none
      else some (
          frame_text (sym2name (cibase i).mid) (class_name proc.target_class)
            (separator (cibase i) proc) (file_or_unknown (debug_get_filename irep at)) lineno)

  -- Nothing for a frame without a procedure, and for a function of C.
  unfoldable pub traced : (ℕ → CallInfo) → ℕ → ℕ → ℕ → Option Bytes
  unfolding line_of
  traced cibase ciidx pc0 i = elim (cibase i).proc [
    | none ↦ none
    | some proc ↦ elim proc.body [ none ↦ none | some irep ↦ line_of cibase ciidx pc0 i proc irep ]
  ]

  unfoldable pub output_backtrace : (ℕ → CallInfo) → ℕ → ℤ → ℕ → Bytes → Bytes
  unfolding trace_loop traced
  output_backtrace cibase capacity (negsuc k) pc0 backtrace = backtrace
  output_backtrace cibase capacity (pos ciidx) pc0 backtrace =
      let from = if leb capacity ciidx then 10 else ciidx in
      (trace_loop (traced cibase from pc0) (from + 1) (true, backtrace)).1
