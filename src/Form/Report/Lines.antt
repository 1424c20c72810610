-- ===== src/Form/Report/Lines.antt =====
-- The lines of the report of src/request.cpp.
use native.Mathlib.Decide.{dec_lt}
use mod_gate.Apr.Table.Walk.{behind, next_more, next_done, element, drop_all, key-behind}
use mod_gate.Apr.Table.{index, bind}
use mod_gate.Base.{
  ℕ, zero, suc, ◌+◌, ◌<◌, ◌≤◌, ◌≡◌, refl, sym, ap, ◌∙◌, List, [], ◌∷◌, ◌++◌, Option, none, some,
  Bytes, pos, codes, length, drop, get_elem?, append_assoc, append-nil, arith,
}
use mod_gate.Form.Report.{
  table_line, table_loop, table_string, Described, pairs, pair_lines, put_table, if_any, repr,
}

-- The lines of elements, numbered from `i` on.
abbrev pub table_lines : ℕ → List (Bytes × Bytes) → Bytes
table_lines i [] = []
table_lines i (e ∷ es) = table_line (pos i) e.0 e.1 ++ table_lines (suc i) es

table_step :
    (fuel : ℕ) (h : List (Bytes × Bytes)) (i : ℕ) (e : Bytes × Bytes) (out : Bytes)
    → i < length h
    → get_elem? h i ≡ some e
    → table_loop (suc fuel) (behind h i) out
      ≡ table_loop fuel (behind h (suc i)) (out ++ table_line (pos i) e.0 e.1)
unfolding table_loop index
table_step fuel h i e out lt at =
    let (k, v) = key-behind h i e at in
    rw (next_more h i lt, table_loop, next_more h i lt, k, v, next_more h i lt)

table_from :
    (fuel : ℕ) (h : List (Bytes × Bytes)) (i : ℕ) (out : Bytes)
    → i ≤ length h
    → length h < fuel + i
    → table_loop fuel (behind h i) out ≡ some (out ++ table_lines i (drop i h))
table_from zero h i out le lt = absurd (omega arith)
table_from (suc fuel) h i out le lt = elim (dec_lt i (length h)) [
  | yes more ↦
      let (e, at, split) = element h i more in
      table_step fuel h i e out more at
      ∙ table_from fuel h (suc i) (out ++ table_line (pos i) e.0 e.1) more (omega arith)
      ∙ ap some
          (append_assoc out (table_line (pos i) e.0 e.1) (table_lines (suc i) (drop (suc i) h)))
      ∙ rw split refl
  | no done ↦
      let e : i ≡ length h = omega arith in
      unfold table_loop in
      rw (next_done h i e, table_loop, drop_all h i e) (ap some (sym (append-nil out)))
]

-- A table is described by what `table_line` makes of each of its elements, in order and numbered from 0 on: the loop
-- ends, and reads no pointer outside of the array.
table_string_lem : (h : List (Bytes × Bytes)) → table_string h ≡ some (table_lines 0 h)
unfolding table_string bind
table_string_lem h = table_from (suc (length h)) h zero [] (omega arith) (omega arith)

-- A section of the report, if there is a table.
abbrev pub section : Bytes → Option (List (Bytes × Bytes)) → Bytes → Bytes
section head none tail = []
section head (some t) tail = head ++ (table_lines 0 t ++ tail)

put_table-section :
    (head tail out : Bytes) (t : Option (List (Bytes × Bytes)))
    → put_table head t tail (some out) ≡ some (out ++ section head t tail)
unfolding put_table
put_table-section head tail out none = ap some (sym (append-nil out))
put_table-section head tail out (some t) = rw (put_table, table_string_lem t) refl

-- The report of a request, which is made for every request: a line for each field, then the section
-- of the headers and that of the environment, then a section for the parameters of the form if there
-- are any, and for each of the notes and the two tables of headers that go out if it is not empty. A
-- section has its head and one line for each element of the table, numbered from 0 on, in order; a
-- line is what `table_line` makes of the element, which cuts it at 254 bytes, its newline included.
pub repr_lem :
    (d : Described)
    → repr d
      ≡ some (
          ((((((codes "Request:\n\n" ++ (pair_lines (pairs d) ++ codes "\n"))
                    ++ section (codes "Headers in:\n\n") (some d.headers_in) (codes "\n"))
                  ++ section
                      (codes "Environment Variables:\n\n")
                      (some d.subprocess_env)
                      (codes "\n"))
                ++ section (codes "POST Parameters:\n\n") d.params [])
              ++ section (codes "Notes:\n\n") (if_any d.notes) [])
            ++ section (codes "Headers out:\n\n") (if_any d.headers_out) (codes "\n"))
          ++ section (codes "Error Headers_out:\n\n") (if_any d.err_headers_out) (codes "\n"))
unfolding repr
repr_lem d =
    rw
      (
        put_table-section, put_table-section, put_table-section, put_table-section,
        put_table-section, put_table-section,
      )
      refl
