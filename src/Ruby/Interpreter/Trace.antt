-- ===== src/Ruby/Interpreter/Trace.antt =====
-- The backtrace that src/ruby.cpp writes, as a list of lines.
use mod_gate.Base.{
  ℕ, suc, zero, ◌+◌, ◌≤◌, ◌<◌, ◌/◌, ◌%◌, ◌≡◌, refl, sym, ap, ◌∙◌, inl, inr, true, false, [], ◌∷◌,
  ◌++◌, List, Option, none, some, Bytes, codes, pos, leb, ltb, take, length, append_assoc,
  append-nil, length-append, arith, Bool-cases, if◌then◌else◌,
}
use mod_gate.Decimal.{u32_text, digits}
use mod_gate.Ruby.Interpreter.{
  Frames, CallInfo, format, add_line, traced, trace_frame, trace_loop, output_backtrace,
}

-- What a text becomes in the buffer.
abbrev pub cut : Bytes → Bytes
cut text = if leb 1023 (length text) then take 1022 text ++ 0 ∷ [] else text

-- The number of a frame, before its text.
abbrev pub numbered : ℕ → Bytes
numbered i = b'\t' ∷ b'[' ∷ (u32_text i ++ codes "] ")

-- The lines of frames, in order.
abbrev pub trace_lines : List (ℕ × Bytes) → Bytes
trace_lines [] = []
trace_lines ((i, text) ∷ es) = numbered i ++ (cut text ++ (b'\n' ∷ trace_lines es))

-- A heading, if there is a line.
abbrev pub report : List (ℕ × Bytes) → Bytes
report [] = []
report (e ∷ es) = codes "trace:\n" ++ trace_lines (e ∷ es)

abbrev pub add_entry : ℕ → Option Bytes → List (ℕ × Bytes) → List (ℕ × Bytes)
add_entry i none es = es
add_entry i (some text) es = (i, text) ∷ es

-- The frames below `n` that have a text, the highest first.
abbrev pub entries : (ℕ → Option Bytes) → ℕ → List (ℕ × Bytes)
entries frame zero = []
entries frame (suc n) = add_entry n (frame n) (entries frame n)

digits_short : (fuel n : ℕ) (rest : Bytes) → length (digits fuel n rest) ≤ fuel + length rest
unfolding digits
digits_short zero n rest = omega arith
digits_short (suc fuel) n rest = elim (Bool-cases (ltb n 10)) [
  | inl e ↦ rw e (omega arith)
  | inr e ↦ rw e (omega (arith, digits_short fuel (n / 10) ((b'0' + n % 10) ∷ rest)))
]

numbered_short : (i : ℕ) → length (numbered i) < 1023
unfolding u32_text
numbered_short i = omega (arith, length-append (u32_text i) (codes "] "), digits_short 10 i [])

format_short : (b text : Bytes) → length text < 1023 → format b text ≡ b ++ text
unfolding format
format_short b text h = elim (Bool-cases (leb 1023 (length text))) [
  | inl e ↦ ground arith
  | inr e ↦ rw e refl
]

format-cut : (b text : Bytes) → format b text ≡ b ++ cut text
unfolding format
format-cut b text = refl

add_line_lem :
    (b : Bytes) (i : ℕ) (text : Bytes)
    → add_line b i text ≡ b ++ (numbered i ++ (cut text ++ b'\n' ∷ []))
unfolding add_line
add_line_lem b i text =
    format_short (format (format b (numbered i)) text) (b'\n' ∷ []) (omega arith)
    ∙ ap (λ c. c ++ b'\n' ∷ []) (format-cut (format b (numbered i)) text)
    ∙ ap (λ c. (c ++ cut text) ++ b'\n' ∷ []) (format_short b (numbered i) (numbered_short i))
    ∙ append_assoc (b ++ numbered i) (cut text) (b'\n' ∷ [])
    ∙ append_assoc b (numbered i) (cut text ++ b'\n' ∷ [])

regroup : (b x y z l : Bytes) → (b ++ (x ++ (y ++ z))) ++ l ≡ b ++ (x ++ (y ++ (z ++ l)))
regroup b x y z l =
    append_assoc b (x ++ (y ++ z)) l
    ∙ ap (λ c. b ++ c) (append_assoc x (y ++ z) l)
    ∙ ap (λ c. b ++ (x ++ c)) (append_assoc y z l)

-- A line, before those of other frames.
add_line-trace_lines :
    (b : Bytes) (i : ℕ) (text : Bytes) (es : List (ℕ × Bytes))
    → add_line b i text ++ trace_lines es ≡ b ++ trace_lines ((i, text) ∷ es)
add_line-trace_lines b i text es =
    ap (λ c. c ++ trace_lines es) (add_line_lem b i text)
    ∙ regroup b (numbered i) (cut text) (b'\n' ∷ []) (trace_lines es)

module _ (frame : ℕ → Option Bytes) where
  rest_step :
      (o : Option Bytes) (n : ℕ) (b : Bytes)
      → ((c : Bytes) → (trace_loop frame n (false, c)).1 ≡ c ++ trace_lines (entries frame n))
      → (trace_loop frame n (trace_frame o n (false, b))).1
        ≡ b ++ trace_lines (add_entry n o (entries frame n))
  unfolding trace_frame
  rest_step none n b ih = ih b
  rest_step (some text) n b ih =
      ih (add_line b n text) ∙ add_line-trace_lines b n text (entries frame n)

  -- After the heading.
  trace_loop_rest :
      (n : ℕ) (b : Bytes) → (trace_loop frame n (false, b)).1 ≡ b ++ trace_lines (entries frame n)
  unfolding trace_loop
  trace_loop_rest zero b = sym (append-nil b)
  trace_loop_rest (suc n) b = rest_step (frame n) n b (trace_loop_rest n)

  report_step :
      (o : Option Bytes) (n : ℕ) (b : Bytes)
      → ((trace_loop frame n (true, b)).1 ≡ b ++ report (entries frame n))
      → (trace_loop frame n (trace_frame o n (true, b))).1
        ≡ b ++ report (add_entry n o (entries frame n))
  unfolding trace_frame
  report_step none n b ih = ih
  report_step (some text) n b ih =
      trace_loop_rest n (add_line (format b (codes "trace:\n")) n text)
      ∙ add_line-trace_lines (format b (codes "trace:\n")) n text (entries frame n)
      ∙ ap (λ c. c ++ trace_lines ((n, text) ∷ entries frame n))
          (format_short b (codes "trace:\n") (omega arith))
      ∙ append_assoc b (codes "trace:\n") (trace_lines ((n, text) ∷ entries frame n))

  trace_loop_lem :
      (n : ℕ) (b : Bytes) → (trace_loop frame n (true, b)).1 ≡ b ++ report (entries frame n)
  unfolding trace_loop
  trace_loop_lem zero b = sym (append-nil b)
  trace_loop_lem (suc n) b = report_step (frame n) n b (trace_loop_lem n b)

-- The frame from which a trace goes down.
abbrev pub first_frame : ℕ → ℕ → ℕ
first_frame capacity ciidx = if leb capacity ciidx then 10 else ciidx

-- A backtrace is the heading and a line for each frame that has a text, from the given frame down to
-- frame 0, each with its number and its text; there is no heading where there is no line. Of a text
-- of 1023 bytes or more, 1022 bytes and a zero stand in the line; an index outside of the array of
-- frames is read as 10.
pub output_backtrace_lem :
    (fr : Frames) (cibase : ℕ → CallInfo fr) (capacity ciidx pc0 : ℕ) (backtrace : Bytes)
    → output_backtrace fr cibase capacity (pos ciidx) pc0 backtrace
      ≡ backtrace
        ++ report (
            entries
              (traced fr cibase (first_frame capacity ciidx) pc0)
              (first_frame capacity ciidx + 1))
unfolding output_backtrace
output_backtrace_lem fr cibase capacity ciidx pc0 backtrace =
    trace_loop_lem (traced fr cibase (first_frame capacity ciidx) pc0)
      (first_frame capacity ciidx + 1) backtrace
