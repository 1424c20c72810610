-- ===== src/Gate/Serve/Lookup.antt =====
-- What the handler does with an address, row by row of the table.
use mod_gate.Apr.{Apr}
use mod_gate.Base.{
  ltb, zero, suc, ◌/◌, ◌↔◌, ℕ, ◌≤◌, ◌<◌, ◌≡◌, ◌≢◌, subst, refl, sym, ap, inl, inr, Bool, true,
  false, ◌&&◌, List, [], ◌∷◌, ◌++◌, Bytes, codes, arith, leb, ◌==◌, if◌then◌else◌, Bool-cases, pos,
  int_eq, All, All-append,
}
use mod_gate.Decimal.{digits, u32_text}
use mod_gate.Gate.Serve.{
  Answer, declined, ok, ip_sql, match_line, apply_row, row_answer, read_rows, run_query,
}
use mod_gate.Gate.Serve.Rows.{
  int, IpRow, at_least, at_most, selected, where_text, Among, Answers, hit, miss,
}
use mod_gate.Gate.{Request, notice}
use mod_gate.Host.{Host}
use mod_gate.Sqlite.Laws.{SqliteLaws}
use mod_gate.Sqlite.{Sqlite, returned, query, prepare, step, compile, sqlite_ok, sqlite_row}

-- The query that the handler sends asks for `start >= addr` and `end <= addr`.
pub ip_sql-where_text : (addr : ℕ) → ip_sql addr ≡ where_text at_least addr at_most addr
unfolding ip_sql where_text
ip_sql-where_text addr = refl

-- Does the handler's query select the row?
abbrev pub matches : ℕ → IpRow → Bool
matches addr = selected at_least addr at_most addr

-- A row of an indexed database: a range of addresses whose beginning is not above its end.
abbrev pub IsRange : IpRow → Type 0
IsRange x = (a : ℕ) × (b : ℕ) × (x.start ≡ int a) × (x.end ≡ int b) × (a ≤ b)

-- The address lies in the row's range, both ends included.
abbrev pub Contains : ℕ → IpRow → Type 0
Contains addr x = (a : ℕ) × (b : ℕ) × (x.start ≡ int a) × (x.end ≡ int b) × (a ≤ addr) × (addr ≤ b)

selected_numbers :
    (addr : ℕ) (x : IpRow) (a b : ℕ)
    → x.start ≡ int a
    → x.end ≡ int b
    → matches addr x ≡ true
    → (addr ≤ a) × (b ≤ addr)
selected_numbers addr x a b s e h =
    let t : (leb addr a && leb b addr) ≡ true = rw (s, e) at h in ground arith

-- For a row that is a range, the query selects exactly the row that begins and ends at the address.
pub matches_iff :
    (addr : ℕ) (x : IpRow)
    → IsRange x
    → (matches addr x ≡ true) ↔ ((x.start ≡ int addr) × (x.end ≡ int addr))
matches_iff addr x (a, b, s, e, le) = (
  λ h. (
    rw s (ap int (ground (arith, selected_numbers addr x a b s e h))),
    rw e (ap int (ground (arith, selected_numbers addr x a b s e h))),
  ),
  λ both. rw (both.0, both.1) (ground arith),
)

-- A row whose range holds more than one address is selected for no address, in the range or not.
pub matches-range :
    (addr : ℕ) (x : IpRow) (a b : ℕ)
    → x.start ≡ int a
    → x.end ≡ int b
    → a < b
    → matches addr x ≡ false
matches-range addr x a b s e lt = rw (s, e) (ground arith)

abbrev NotPercent : Bytes → Type 0
NotPercent = All (λ c. c ≢ b'%')

digits-NotPercent : (fuel n : ℕ) (rest : Bytes) → NotPercent rest → NotPercent (digits fuel n rest)
unfolding digits
digits-NotPercent zero n rest h = h
digits-NotPercent (suc fuel) n rest h = elim (Bool-cases (ltb n 10)) [
  | inl small ↦ rw small (omega arith, h)
  | inr large ↦ rw large (digits-NotPercent fuel (n / 10) _ (omega arith, h))
]

u32_text-NotPercent : (n : ℕ) → NotPercent (u32_text n)
unfolding u32_text
u32_text-NotPercent n = digits-NotPercent 10 n [] tt

literal : (s rest : Bytes) → NotPercent s → NotPercent rest → NotPercent (s ++ rest)
literal = All-append (λ c. c ≢ b'%')

ip_sql-NotPercent : (addr : ℕ) → NotPercent (ip_sql addr)
unfolding ip_sql
ip_sql-NotPercent addr =
    let last : Bytes = u32_text addr ++ codes " LIMIT 1" in
    let tail : Bytes = codes " AND end<=" ++ last in
    literal (codes "SELECT id, http_code, http_message FROM ip WHERE start>=")
      (u32_text addr ++ tail) (omega arith)
      (literal (u32_text addr) tail (u32_text-NotPercent addr) (
        literal (codes " AND end<=") last (omega arith)
          (literal (u32_text addr) (codes " LIMIT 1") (u32_text-NotPercent addr) (omega arith))))

module _ (apr : Apr) (sq : Sqlite) (host : Host) where
  -- The request that a row leaves: its code as the status, and one more line in the log.
  abbrev pub marked : Request apr → IpRow → Request apr
  marked r x = record r {
    status = x.http_code;
    log = r.log ++ (notice, match_line apr sq host r x.id x.http_code) ∷ [];
  }

  -- What a lookup comes to: no row is selected, and the request goes on unchanged; or it is marked by a
  -- selected row, and goes on if the row's code is 200 and ends if it is not.
  pub data Verdict (addr : ℕ) (rows : List IpRow) (r r' : Request apr) (answer : Answer)
      : Type 0 where
    passed :
        All (λ x. matches addr x ≡ false) rows
        → r' ≡ r
        → answer ≡ declined
        → Verdict addr rows r r' answer
    matched :
        (x : IpRow)
        → Among x rows
        → matches addr x ≡ true
        → r' ≡ marked r x
        → answer ≡ (if int_eq x.http_code (pos 200) then declined else ok)
        → Verdict addr rows r r' answer

  apply_row_lem :
      (r : Request apr) (x : IpRow)
      → ((apply_row apr sq host r x.id x.http_code).1 ≡ marked r x)
        × ((apply_row apr sq host r x.id x.http_code).0
            ≡ (if int_eq x.http_code (pos 200) then declined else ok))
  unfolding apply_row
  apply_row_lem r x = elim (Bool-cases (int_eq x.http_code (pos 200))) [
    | inl e ↦ rw e (refl, refl)
    | inr n ↦ rw n (refl, refl)
  ]

module _ (apr : Apr) (sq : Sqlite) (host : Host) (laws : SqliteLaws sq) where
  no_row : (rc : ℕ) → rc ≢ sqlite_row → (rc == sqlite_row) ≡ false
  no_row rc h = ground arith

  prepared :
      (db : sq.Db) (addr : ℕ) (w : sq.World)
      → (sq.db_prepare db (ip_sql addr) w).0 ≡ sqlite_ok
      → prepare sq (query sq db) (ip_sql addr) [] w ≡ (
        returned tt,
        record { db = db; error_code = sqlite_ok; stmt = (sq.db_prepare db (ip_sql addr) w).1 },
        (sq.db_prepare db (ip_sql addr) w).2,
      )
  unfolding prepare compile query
  prepared db addr w h = rw (laws.vmprintf_plain (ip_sql addr) (ip_sql-NotPercent addr), h)

  answered :
      (db : sq.Db) (addr : ℕ) (r : Request apr) (w : sq.World) (rows : List IpRow)
      → Answers sq db w (ip_sql addr) rows (matches addr)
      → Verdict apr sq host addr rows r
          (run_query apr sq host db addr r w).1
          (run_query apr sq host db addr r w).0
  unfolding run_query read_rows step row_answer
  answered db addr r w rows (hit x among picked compiles row id_is code_is) =
      let (marks, answers) = apply_row_lem apr sq host r x in
      rw (prepared db addr w compiles, row, id_is, code_is) (matched x among picked marks answers)
  answered db addr r w rows (miss none_picked compiles done) =
      rw (prepared db addr w compiles, no_row _ done) (passed none_picked refl refl)

  -- The lookup of an address in a table that SQLite answers as documented: the request goes on
  -- unchanged if no row is selected, and otherwise gets the status of a selected row, and goes on if
  -- that is 200 and ends if it is not.
  pub run_query-Verdict :
      (db : sq.Db) (addr : ℕ) (r : Request apr) (w : sq.World) (rows : List IpRow)
      → Answers sq db w (where_text at_least addr at_most addr) rows (matches addr)
      → Verdict apr sq host addr rows r
          (run_query apr sq host db addr r w).1
          (run_query apr sq host db addr r w).0
  run_query-Verdict db addr r w rows h =
      answered db addr r w rows
        (subst (λ sql. Answers sq db w sql rows (matches addr)) (sym (ip_sql-where_text addr)) h)
