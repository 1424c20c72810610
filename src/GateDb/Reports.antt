-- ===== src/GateDb/Reports.antt =====
-- What the commands of src/gatedb.cpp do with the rows that their queries yield.
use mod_gate.Base.{
  ℕ, zero, suc, ◌<◌, ◌≡◌, ◌≢◌, sym, ap, ◌∙◌, subst, inl, inr, List, [], ◌∷◌, ◌++◌, Option, some,
  Bytes, codes, ℤ, ◌==◌, ==_iff, map, length, append_assoc, append-nil, arith, Bool-cases,
}
use mod_gate.Decimal.{i32_text}
use mod_gate.GateDb.Tool.{
  finished, row_loop, lint_body, lint_end, lint_prepared, lint_opened, lint_database,
}
use mod_gate.GateDb.{code, Run, at_world, say, lint_sql, open_database, index_row, lint_row}
use mod_gate.Host.{Host, InAddr}
use mod_gate.Sqlite.{Sqlite, Query, returned, query, prepare, step, finalize, sqlite_row}

-- The line for an id.
abbrev pub unindexed : ℤ → Bytes
unindexed id = codes "Unindexed IP: id=" ++ i32_text id

module _ (sq : Sqlite) where
  open sq use {World, Db}

  -- `n` steps of the query yield a row each, on which the body succeeds, and the next one yields none.
  abbrev pub Walks :
      (Query sq → Run sq → Option (Run sq)) → ℕ → Query sq → Run sq → Query sq → Run sq → Type 0
  Walks body zero q r q' r' =
      ((step sq q r.world).0 ≢ sqlite_row)
      × ((step sq q r.world).1 ≡ q')
      × (at_world sq r (step sq q r.world).2 ≡ r')
  Walks body (suc n) q r q' r' =
      ((step sq q r.world).0 ≡ sqlite_row)
      × (v : Run sq) × (body (step sq q r.world).1 (at_world sq r (step sq q r.world).2) ≡ some v)
      × Walks body n (step sq q r.world).1 v q' r'

  row_loop-Walks :
      (body : Query sq → Run sq → Option (Run sq)) (n fuel : ℕ) (q : Query sq) (r : Run sq)
      (q' : Query sq) (r' : Run sq)
      → n < fuel
      → Walks body n q r q' r'
      → row_loop sq fuel body q r ≡ finished q' r'
  unfolding row_loop
  row_loop-Walks body n zero q r q' r' lt h = absurd (omega arith)
  row_loop-Walks body zero (suc fuel) q r q' r' lt (none_left, a, b) =
      elim (Bool-cases ((step sq q r.world).0 == sqlite_row)) [
        | inl e ↦ absurd (none_left ((==_iff _ _).0 e))
        | inr e ↦
            rw (row_loop, e)
              (ap (λ o. finished o (at_world sq r (step sq q r.world).2)) a
                ∙ ap (λ o. finished q' o) b)
      ]
  row_loop-Walks body (suc n) (suc fuel) q r q' r' lt (row, v, b, h) =
      rw (row_loop, (==_iff (step sq q r.world).0 sqlite_row).1 row, b)
        (row_loop-Walks body n fuel (step sq q r.world).1 v q' r' (omega arith) h)

module _ (sq : Sqlite) (host : Host) (junk : Run sq → InAddr) where
  open sq use {World, Db, db_open, column_int, column_text}

  -- The query yields rows with these ids, and then no more.
  abbrev pub Yields : List ℤ → Query sq → World → Query sq → World → Type 0
  Yields [] q w q' w' =
      ((step sq q w).0 ≢ sqlite_row) × ((step sq q w).1 ≡ q') × ((step sq q w).2 ≡ w')
  Yields (id ∷ ids) q w q' w' =
      ((step sq q w).0 ≡ sqlite_row)
      × (column_int (step sq q w).1.stmt (step sq q w).2 0 ≡ id)
      × Yields ids (step sq q w).1 (step sq q w).2 q' w'

  -- The query yields these rows, each of an id and two texts, where each is indexed before the next
  -- step, and then no more.
  abbrev pub Feeds : Db → List (ℤ × Bytes × Bytes) → Query sq → Run sq → Type 0
  Feeds db [] q r = (step sq q r.world).0 ≢ sqlite_row
  Feeds db ((id, start_text, end_text) ∷ rows) q r =
      let (rc, p, w) = step sq q r.world in
      (rc ≡ sqlite_row)
      × (column_int p.stmt w 0 ≡ id)
      × (column_text p.stmt w 1 ≡ some start_text)
      × (column_text p.stmt w 2 ≡ some end_text)
      × Feeds db rows p (index_row sq host junk db id start_text end_text (at_world sq r w))

  -- The query and the tool behind these rows: a step and an update for each of them in turn, and the
  -- step that ends them.
  abbrev pub indexed_rows : Db → List (ℤ × Bytes × Bytes) → Query sq → Run sq → Query sq × Run sq
  indexed_rows db [] q r = let (rc, p, w) = step sq q r.world in (p, at_world sq r w)
  indexed_rows db ((id, start_text, end_text) ∷ rows) q r =
      let (rc, p, w) = step sq q r.world in
      indexed_rows db rows p (index_row sq host junk db id start_text end_text (at_world sq r w))

  abbrev told : Run sq → List ℤ → World → Run sq
  told r ids w = record r { stderr = r.stderr ++ map unindexed ids; world = w }

  nothing_told : (r : Run sq) (w w' : World) → w ≡ w' → at_world sq r w ≡ told r [] w'
  nothing_told r w w' e =
      ap (λ v. at_world sq r v) e
      ∙ ap (λ l. record r { stderr = l; world = w' }) (sym (append-nil r.stderr))

  told_first :
      (r : Run sq) (id : ℤ) (ids : List ℤ) (w w' : World)
      → told (say sq (at_world sq r w) (unindexed id)) ids w' ≡ told r (id ∷ ids) w'
  unfolding say
  told_first r id ids w w' =
      ap (λ l. record r { stderr = l; world = w' })
        (append_assoc r.stderr (unindexed id ∷ []) (map unindexed ids))

  lint_walk :
      (ids : List ℤ) (q : Query sq) (r : Run sq) (q' : Query sq) (w' : World)
      → Yields ids q r.world q' w'
      → Walks sq (lint_body sq host junk) (length ids) q r q' (told r ids w')
  unfolding lint_body lint_row say
  lint_walk [] q r q' w' (none_left, a, b) = (none_left, a, nothing_told r _ w' b)
  lint_walk (id ∷ ids) q r q' w' (row, column, h) =
      let (rc, p, w) = step sq q r.world in
      let v = say sq (at_world sq r w) (unindexed id) in
      (
        row,
        v,
        ap (λ i. some (say sq (at_world sq r w) (unindexed i))) column,
        subst (λ t. Walks sq (lint_body sq host junk) (length ids) p v q' t)
            (told_first r id ids w w') (lint_walk ids p v q' w' h),
      )

  opened :
      (path : Bytes) (r : Run sq) (db : Db) (w : World)
      → db_open path r.world ≡ (0, db, w)
      → open_database sq host junk path r ≡ (some db, at_world sq r w)
  unfolding open_database
  opened path r db w h =
      let e : (db_open path r.world).0 ≡ 0 = ap (λ o. o.0) h in
      rw e (ap (λ o. (some o.1, at_world sq r o.2)) h)

  -- `lint` reports the rows that its query yields, each once and in their order, and returns 0: if the
  -- database opens, the statement is compiled and it yields rows with these ids, then `stderr` has a
  -- line for each of them behind what it had, nothing else is printed, and the statement is finalized
  -- and the connection closed at the end, given more rounds than there are rows.
  pub lint_database_lem :
      (ids : List ℤ) (fuel : ℕ) (path : Bytes) (r : Run sq) (db : Db) (q q' : Query sq)
      (w1 w2 w3 : World)
      → db_open path r.world ≡ (0, db, w1)
      → prepare sq (query sq db) lint_sql [] w1 ≡ (returned tt, q, w2)
      → Yields ids q w2 q' w3
      → length ids < fuel
      → lint_database sq host junk fuel path r ≡ (
        code 0,
        record r {
          stderr = r.stderr ++ map unindexed ids;
          world = (sq.db_close db (finalize sq q' w3).1).1;
        },
      )
  unfolding lint_database lint_opened lint_prepared lint_end
  lint_database_lem ids fuel path r db q q' w1 w2 w3 opens compiled yields lt =
      ap (λ o. lint_opened sq host junk fuel o.0 o.1) (opened path r db w1 opens)
      ∙ ap (λ o. lint_prepared sq host junk fuel db o.0 o.1 (at_world sq r o.2)) compiled
      ∙ ap (lint_end sq host junk db) (
          row_loop-Walks sq (lint_body sq host junk) (length ids) fuel q (at_world sq r w2) q' _ lt
            (lint_walk ids q (at_world sq r w2) q' w3 yields))
