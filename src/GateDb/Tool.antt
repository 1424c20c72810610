-- ===== src/GateDb/Tool.antt =====
-- The commands of src/gatedb.cpp, and its command line.
use mod_gate.Base.{
  ℕ, zero, suc, Bool, true, false, ◌&&◌, ◌||◌, List, [], ◌∷◌, ◌++◌, Option, none, some, Bytes,
  codes, ℤ, pos, negsuc, ◌==◌, leb, if◌then◌else◌,
}
use mod_gate.Decimal.{read_digits}
use mod_gate.GateDb.Help.{print_help}
use mod_gate.GateDb.{
  Exit, code, uncaught, crash, endless, Run, at_world, index_sql, lint_sql, open_database, close,
  create_database, index_columns, lint_row,
}
use mod_gate.Host.{Host, InAddr}
use mod_gate.Sqlite.{
  Sqlite, Query, sqlite_row, Outcome, returned, thrown, query, prepare, step, finalize, db_execute,
}

module _ (sq : Sqlite) where
  -- How a loop over the rows of a query ends.
  pub data Rounds : Type 0 where
    finished : Query sq → Run sq → Rounds
    faulted : Run sq → Rounds
    out_of_fuel : Run sq → Rounds

  -- `while (query.step() == SQLITE_ROW)`, with fuel; the body faults with `none`.
  unfoldable pub row_loop : ℕ → (Query sq → Run sq → Option (Run sq)) → Query sq → Run sq → Rounds
  row_loop zero body q r = out_of_fuel r
  row_loop (suc fuel) body q r =
      let (rc, q', w') = step sq q r.world in
      elim (rc == sqlite_row) [
        | false ↦ finished q' (at_world sq r w')
        | true ↦ elim (body q' (at_world sq r w')) [
          | none ↦ faulted (at_world sq r w')
          | some r' ↦ row_loop fuel body q' r'
        ]
      ]

module _ (sq : Sqlite) (host : Host) (junk : Run sq → InAddr) where
  open sq use {Db, column_int, column_text}

  unfoldable pub index_body : Db → Query sq → Run sq → Option (Run sq)
  index_body db q r =
      index_columns sq host junk db (column_int q.stmt r.world 0) (column_text q.stmt r.world 1)
        (column_text q.stmt r.world 2) r

  -- Behind the loop; then the destructors of `updater`, which has no statement, `query` and `db` run.
  unfoldable pub index_end : Db → Rounds sq → Exit × Run sq
  unfolding finalize
  index_end db (finished q r) =
      let (rc, w') = db_execute sq db (codes "COMMIT") [] r.world in
      (code 0, close sq host junk db (at_world sq r (finalize sq q w').1))
  index_end db (faulted r) = (crash, r)
  index_end db (out_of_fuel r) = (endless, r)

  -- Nothing catches an exception of `prepare`.
  unfoldable pub index_prepared : ℕ → Db → Outcome (Unit {0}) → Query sq → Run sq → Exit × Run sq
  unfolding index_end
  index_prepared fuel db (thrown what) q r = (uncaught what, r)
  index_prepared fuel db (returned u) q r = index_end db (row_loop sq fuel (index_body db) q r)

  unfoldable pub index_opened : ℕ → Option Db → Run sq → Exit × Run sq
  unfolding index_prepared
  index_opened fuel none r = (code 1, r)
  index_opened fuel (some db) r =
      let (rc, w1) = db_execute sq db (codes "BEGIN EXCLUSIVE") [] r.world in
      let (outcome, q, w2) = prepare sq (query sq db) index_sql [] w1 in
      index_prepared fuel db outcome q (at_world sq r w2)

  unfoldable pub index_database : ℕ → Bytes → Run sq → Exit × Run sq
  unfolding index_opened
  index_database fuel path r =
      let (db, r') = open_database sq host junk path r in index_opened fuel db r'

  unfoldable pub lint_body : Query sq → Run sq → Option (Run sq)
  lint_body q r = lint_row sq host junk (column_int q.stmt r.world 0) r

  unfoldable pub lint_end : Db → Rounds sq → Exit × Run sq
  unfolding finalize
  lint_end db (finished q r) =
      (code 0, close sq host junk db (at_world sq r (finalize sq q r.world).1))
  lint_end db (faulted r) = (crash, r)
  lint_end db (out_of_fuel r) = (endless, r)

  unfoldable pub lint_prepared : ℕ → Db → Outcome (Unit {0}) → Query sq → Run sq → Exit × Run sq
  unfolding lint_end
  lint_prepared fuel db (thrown what) q r = (uncaught what, r)
  lint_prepared fuel db (returned u) q r = lint_end db (row_loop sq fuel lint_body q r)

  unfoldable pub lint_opened : ℕ → Option Db → Run sq → Exit × Run sq
  unfolding lint_prepared
  lint_opened fuel none r = (code 1, r)
  lint_opened fuel (some db) r =
      let (outcome, q, w') = prepare sq (query sq db) lint_sql [] r.world in
      lint_prepared fuel db outcome q (at_world sq r w')

  unfoldable pub lint_database : ℕ → Bytes → Run sq → Exit × Run sq
  unfolding lint_opened
  lint_database fuel path r =
      let (db, r') = open_database sq host junk path r in lint_opened fuel db r'

-- `isspace` in the C locale.
abbrev pub is_space : ℕ → Bool
is_space c = c == b' ' || leb 9 c && leb c 13

abbrev pub negated : ℕ → ℤ
negated zero = pos 0
negated (suc n) = negsuc n

-- `atoi`, on numbers that fit an int.
unfoldable pub atoi : Bytes → ℤ
atoi [] = pos 0
atoi (c ∷ s) =
    let later = atoi s in
    if is_space c
    then later
    else if c == b'-'
    then negated (read_digits 0 s).0
    else if c == b'+'
    then pos (read_digits 0 s).0
    else pos (read_digits 0 (c ∷ s)).0

-- One result of `getopt_long`: the letter, `optarg`, and the operand `argv[optind]`, which is there.
pub record Parsed : Type 0 where
  pub letter : ℕ
  pub optarg : Bytes
  pub operand : Bytes

module _ (sq : Sqlite) (host : Host) (junk : Run sq → InAddr) (version arch : Bytes) where
  -- `process_cmdline`, on what `getopt_long` returns until it returns -1. Each loop over rows has the
  -- fuel.
  unfoldable pub process_cmdline : ℕ → List Parsed → Run sq → Exit × Run sq
  unfolding atoi
  process_cmdline fuel [] r = (code 0, r)
  process_cmdline fuel (p ∷ ps) r =
      let quiet = process_cmdline fuel ps r in
      let verbose = process_cmdline fuel ps (record r { verbosity = atoi p.optarg }) in
      if p.letter == b'c'
      then create_database sq host junk p.operand r
      else if p.letter == b'i'
      then index_database sq host junk fuel p.operand r
      else if p.letter == b'l'
      then lint_database sq host junk fuel p.operand r
      else if p.letter == b'v'
      then verbose
      else if p.letter == b'h'
      then (code 0, record r { stdout = r.stdout ++ print_help version arch })
      else quiet
