-- ===== src/Ruby/Reading.antt =====
-- What scripts read of a row through the class of src/ruby_sqlite_stmt.cpp.
use mod_gate.Base.{
  ◌≢◌, ◌⊎◌, ℕ, suc, zero, ◌+◌, ◌<◌, ◌≡◌, refl, ap, ◌∙◌, Bool, true, false, List, [], ◌∷◌, some,
  Bytes, pos, arith, map, get_elem?,
}
use mod_gate.Ruby.Rows.{
  Answered, Block, ensure_statement, ordinal, column_value, m_column, each_loop, m_each, keys_loop,
  m_keys,
}
use mod_gate.Ruby.{Statement, Value, nil, Mruby, Columns}
use mod_gate.Sqlite.{Sqlite, Outcome, returned, thrown}

module _ (sq : Sqlite) (mrb : Mruby sq) (more : Columns sq mrb.Float) (file : Bytes) where
  open sq use {World, Stmt}
  open mrb use {Float, get_int}
  open more use {column_count, column_name, column_type}

  -- The names and the values of `n` columns from column `i` on.
  abbrev pub row_from : Stmt → World → ℕ → ℕ → List (Bytes × Value Float Stmt)
  row_from st w i zero = []
  row_from st w i (suc n) =
      (column_name st w i, column_value sq mrb more file st w (pos i)) ∷ row_from st w (suc i) n

  -- The whole row.
  abbrev pub row : Stmt → World → List (Bytes × Value Float Stmt)
  row st w = row_from st w 0 (column_count st w)

  abbrev pub State : Type 0 → Type 0
  State A = Answered sq mrb more file × (A × World)

  abbrev pub go_on :
      {A : Type 0} → (A × World → State A) → Outcome (Unit {0}) × (A × World) → State A
  go_on rest (thrown e, s) = (thrown e, s)
  go_on rest (returned u, s) = rest s

  -- A block applied to the entries of a list in their order, up to its first exception.
  abbrev pub visit :
      {A : Type 0}
      → Block sq mrb more file A
      → List (Bytes × Value Float Stmt)
      → A × World
      → State A
  visit blk [] s = (returned nil, s)
  visit blk (e ∷ es) s = go_on (visit blk es) (blk e s)

  each_round :
      {A : Type 0} (blk : Block sq mrb more file A) (st : Stmt) (i n : ℕ) (w : World)
      (r : Outcome (Unit {0}) × (A × World))
      → r.1.1 ≡ w
      → ((s : A × World)
          → s.1 ≡ w
          → each_loop sq mrb more file blk st (suc i) n s ≡ visit blk (row_from st w (suc i) n) s)
      → (elim r.0 [
        | thrown e ↦ (thrown e, r.1)
        | returned u ↦ each_loop sq mrb more file blk st (suc i) n r.1
      ])
        ≡ go_on (visit blk (row_from st w (suc i) n)) r
  each_round blk st i n w (thrown e, s) same ih = refl
  each_round blk st i n w (returned u, s) same ih = ih s same

  each_loop-visit :
      {A : Type 0} (blk : Block sq mrb more file A) (st : Stmt) (i n : ℕ) (s : A × World)
      → ((e : Bytes × Value Float Stmt) (t : A × World) → (blk e t).1.1 ≡ t.1)
      → each_loop sq mrb more file blk st i n s ≡ visit blk (row_from st s.1 i n) s
  unfolding each_loop
  each_loop-visit blk st i zero s keeps = refl
  each_loop-visit blk st i (suc n) s keeps =
      each_round blk st i n s.1
        (blk (column_name st s.1 i, column_value sq mrb more file st s.1 (pos i)) s) (keeps _ s)
        (λ t same.
          each_loop-visit blk st (suc i) n t keeps
          ∙ ap (λ w. visit blk (row_from st w (suc i) n) t) same)

  keys_loop-row_from :
      (st : Stmt) (w : World) (i n : ℕ)
      → keys_loop sq mrb more file st w i n ≡ map (λ e. e.0) (row_from st w i n)
  unfolding keys_loop
  keys_loop-row_from st w i zero = refl
  keys_loop-row_from st w i (suc n) =
      ap (λ l. column_name st w i ∷ l) (keys_loop-row_from st w (suc i) n)

  get_elem?-row_from :
      (st : Stmt) (w : World) (i n k : ℕ)
      → k < n
      → get_elem? (row_from st w i n) k
        ≡ some (column_name st w (k + i), column_value sq mrb more file st w (pos (k + i)))
  get_elem?-row_from st w i zero k h = absurd (omega arith)
  get_elem?-row_from st w i (suc n) zero h =
      ap (λ j. some (column_name st w j, column_value sq mrb more file st w (pos j))) (omega arith)
  get_elem?-row_from st w i (suc n) (suc k) h =
      get_elem?-row_from st w (suc i) n k (omega arith)
      ∙ ap (λ j. some (column_name st w j, column_value sq mrb more file st w (pos j)))
          (omega arith)

  -- The three ways to read a row agree. On a statement with a handle, `each` calls the block with the
  -- name and the value of every column in order, up to the first exception of the block, if the block
  -- does not change the row; `keys` yields the names; and `[]` at an integer below the number of
  -- columns yields the value that `each` shows in that round.
  pub row_readers :
      {A : Type 0} (blk : Block sq mrb more file A) (s : Statement Stmt) (st : Stmt) (a : A)
      (w : World) (v : Value Float Stmt) (k : ℕ)
      → s.handle ≡ some st
      → ((e : Bytes × Value Float Stmt) (t : A × World) → (blk e t).1.1 ≡ t.1)
      → get_int v ≡ returned (pos k)
      → k < column_count st w
      → (m_each sq mrb more file blk s (a, w) ≡ visit blk (row st w) (a, w))
        × (m_keys sq mrb more file s w ≡ returned (map (λ e. e.0) (row st w)))
        × (x : Value Float Stmt) × (m_column sq mrb more file v s w ≡ returned x)
        × (get_elem? (row st w) k ≡ some (column_name st w k, x))
  unfolding m_each m_keys m_column ordinal ensure_statement
  row_readers blk s st a w v k held keeps index lt = (
    rw (m_each, held) (each_loop-visit blk st 0 (column_count st w) (a, w) keeps),
    rw (m_keys, held) (ap (λ l. returned l) (keys_loop-row_from st w 0 (column_count st w))),
    column_value sq mrb more file st w (pos k),
    rw (m_column, ordinal, index, held) refl,
    get_elem?-row_from st w 0 (column_count st w) k lt
        ∙ ap (λ j. some (column_name st w j, column_value sq mrb more file st w (pos j)))
            (omega arith),
  )

  -- What a method that reads values of class `k` answers on a column of a class: nil if the column is
  -- `beyond` the last one, and otherwise what `column` is, if the classes are the same.
  abbrev pub Reads : Bool → ℕ → ℕ → Answered sq mrb more file → Answered sq mrb more file → Type 0
  Reads true class k a column = a ≡ returned nil
  Reads false class k a column = (class ≢ k) ⊎ (a ≡ column)
