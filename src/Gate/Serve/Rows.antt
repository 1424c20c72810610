-- ===== src/Gate/Serve/Rows.antt =====
-- The table `ip` of a filter database, and what SQLite answers to a query that compares its columns
-- with numbers.
use mod_gate.Base.{
  ℕ, ◌≡◌, ◌≢◌, ◌⊎◌, Bool, true, false, ◌&&◌, List, [], ◌∷◌, ◌++◌, Option, Bytes, codes, leb, ℤ, All,
}
use mod_gate.Decimal.{u32_text}
use mod_gate.Sqlite.{Sqlite, sqlite_ok, sqlite_row}

-- A value in a column of type `int`: a text stays one only if it spells no number.
pub data Cell : Type 0 where
  null : Cell
  int : ℕ → Cell
  text : Bytes → Cell

pub record IpRow : Type 0 where
  pub id : ℤ
  pub start : Cell
  pub end : Cell
  pub http_code : ℤ

pub data Compare : Type 0 where
  at_least at_most : Compare

-- `column >= n` and `column <= n` in SQL: a text is greater than every number, and a comparison with
-- NULL is not true.
abbrev pub holds : Compare → Cell → ℕ → Bool
holds c null n = false
holds at_least (int m) n = leb n m
holds at_least (text s) n = true
holds at_most (int m) n = leb m n
holds at_most (text s) n = false

abbrev pub operator : Compare → Bytes
operator at_least = codes ">="
operator at_most = codes "<="

-- SELECT id, http_code, http_message FROM ip WHERE start ? a AND end ? b LIMIT 1
unfoldable pub where_text : Compare → ℕ → Compare → ℕ → Bytes
where_text c a d b =
    codes "SELECT id, http_code, http_message FROM ip WHERE start"
    ++ (operator c
        ++ (u32_text a ++ (codes " AND end" ++ (operator d ++ (u32_text b ++ codes " LIMIT 1")))))

abbrev pub selected : Compare → ℕ → Compare → ℕ → IpRow → Bool
selected c a d b x = holds c x.start a && holds d x.end b

-- The row is one of the table's.
abbrev pub Among : IpRow → List IpRow → Type 0
Among x [] = ⊥
Among x (y ∷ ys) = (x ≡ y) ⊎ Among x ys

module _ (sq : Sqlite) (db : sq.Db) (w : sq.World) (sql : Bytes) where
  -- The statement that `sqlite3_prepare_v2` yields, the code of its first step, and the world then.
  abbrev pub statement : Option sq.Stmt
  statement = (sq.db_prepare db sql w).1

  abbrev pub first_step : ℕ × sq.World
  first_step = sq.stmt_step (sq.db_prepare db sql w).1 (sq.db_prepare db sql w).2

  -- SQLite's documented behaviour on a query of the columns `id` and `http_code` for the rows that
  -- `picks` selects, in a world where the table holds `rows`: it compiles, and its first step yields a
  -- selected row, if there is one, and none otherwise.
  pub data Answers (rows : List IpRow) (picks : IpRow → Bool) : Type 0 where
    hit :
        (x : IpRow)
        → Among x rows
        → picks x ≡ true
        → (sq.db_prepare db sql w).0 ≡ sqlite_ok
        → first_step.0 ≡ sqlite_row
        → sq.column_int statement first_step.1 0 ≡ x.id
        → sq.column_int statement first_step.1 1 ≡ x.http_code
        → Answers rows picks
    miss :
        All (λ x. picks x ≡ false) rows
        → (sq.db_prepare db sql w).0 ≡ sqlite_ok
        → first_step.0 ≢ sqlite_row
        → Answers rows picks
