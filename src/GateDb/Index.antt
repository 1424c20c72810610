-- ===== src/GateDb/Index.antt =====
-- The loop of `index_database` (src/gatedb.cpp), and what it does to a row.
use mod_gate.Base.{
  ℕ, zero, suc, ◌≤◌, ◌<◌, ◌≡◌, ◌∙◌, refl, inl, inr, Bool, true, false, [], ◌∷◌, ◌++◌, Option, none,
  some, Bytes, codes, ℤ, pos, ◌==◌, ==_iff, arith, Bool-cases, Option-cases,
}
use mod_gate.GateDb.Tool.{Rounds, finished, faulted, out_of_fuel, row_loop}
use mod_gate.GateDb.{Run, at_world, update_sql, not_converted, index_row, say, say_if, written_to}
use mod_gate.Host.{Host, InAddr, host_address}
use mod_gate.Sqlite.{Sqlite, Query, sqlite_ok, sqlite_row, step, db_execute}

module _ (sq : Sqlite) (host : Host) (junk : Run sq → InAddr) where
  open sq use {World, Db}

  -- The statement that the tool executes for a row whose texts are addresses.
  abbrev pub updated : Db → ℕ → ℕ → ℤ → Run sq → ℕ × World
  updated db start_addr end_addr record_id r =
      db_execute sq db (update_sql start_addr end_addr record_id) [] r.world

  say_if_world : (b : Bool) (r : Run sq) (line : Bytes) → (say_if sq b r line).world ≡ r.world
  say_if_world true r line = refl
  say_if_world false r line = refl

  pub index_row_world :
      (db : Db) (record_id : ℤ) (start_text end_text : Bytes) (r : Run sq)
      → (index_row sq host junk db record_id start_text end_text r).world
        ≡ (updated db
            (host_address host.order (written_to (junk r) (host.inet_pton start_text)))
            (host_address host.order (
              written_to
                (written_to (junk r) (host.inet_pton start_text))
                (host.inet_pton end_text)))
            record_id
            r).1
  unfolding index_row say
  index_row_world db record_id start_text end_text r = say_if_world _ _ _

  -- A row whose first text is no address is updated all the same, with the number of whatever the
  -- uninitialised variable held, and nothing is printed of it but the two texts, if the statement
  -- succeeds and the tool is not verbose.
  index_row_unread :
      (db : Db) (record_id : ℤ) (start_text end_text : Bytes) (r : Run sq) (b : InAddr)
      → host.inet_pton start_text ≡ none
      → host.inet_pton end_text ≡ some b
      → r.verbosity ≡ pos 0
      → (updated db (host_address host.order (junk r)) (host_address host.order b) record_id r).0
        ≡ sqlite_ok
      → ((index_row sq host junk db record_id start_text end_text r).world
          ≡ (updated db
              (host_address host.order (junk r))
              (host_address host.order b)
              record_id
              r).1)
        × ((index_row sq host junk db record_id start_text end_text r).stderr
            ≡ r.stderr ++ (start_text ++ (codes " " ++ end_text)) ∷ [])
  unfolding index_row say
  index_row_unread db record_id start_text end_text r b ha hb hv ok = (
    index_row_world db record_id start_text end_text r ∙ rw (ha, hb) refl,
    rw (ha, hb, ok, hv) refl,
  )

  -- A row whose last text is no address gets the number of its first one twice, and a line says that
  -- the text was not converted.
  pub index_row_last_unread :
      (db : Db) (record_id : ℤ) (start_text end_text : Bytes) (r : Run sq) (a : InAddr)
      → host.inet_pton start_text ≡ some a
      → host.inet_pton end_text ≡ none
      → r.verbosity ≡ pos 0
      → (updated db (host_address host.order a) (host_address host.order a) record_id r).0
        ≡ sqlite_ok
      → ((index_row sq host junk db record_id start_text end_text r).world
          ≡ (updated db (host_address host.order a) (host_address host.order a) record_id r).1)
        × ((index_row sq host junk db record_id start_text end_text r).stderr
            ≡ (r.stderr ++ (start_text ++ (codes " " ++ end_text)) ∷ [])
              ++ not_converted record_id end_text ∷ [])
  unfolding index_row say
  index_row_last_unread db record_id start_text end_text r a ha hb hv ok = (
    index_row_world db record_id start_text end_text r ∙ rw (ha, hb) refl,
    rw (ha, hb, ok, hv) refl,
  )

module _ (sq : Sqlite) (left : sq.World → ℕ) where
  -- The loop has come to the last row, or its body has faulted.
  abbrev pub Ended : Rounds sq → Type 0
  Ended (finished q r) = Unit
  Ended (faulted r) = Unit
  Ended (out_of_fuel r) = ⊥

  -- A loop over the rows of a query ends within more rounds than there are rows left, if every step
  -- that yields a row leaves fewer and the body adds none.
  pub row_loop-Ended :
      (fuel : ℕ) (body : Query sq → Run sq → Option (Run sq)) (q : Query sq) (r : Run sq)
      → ((st : Option sq.Stmt) (w : sq.World)
          → (sq.stmt_step st w).0 ≡ sqlite_row
          → left (sq.stmt_step st w).1 < left w)
      → ((p : Query sq) (s s' : Run sq) → body p s ≡ some s' → left s'.world ≤ left s.world)
      → left r.world < fuel
      → Ended (row_loop sq fuel body q r)
  unfolding row_loop step
  row_loop-Ended zero body q r fewer keeps lt = absurd (omega arith)
  row_loop-Ended (suc fuel) body q r fewer keeps lt =
      elim (Bool-cases ((step sq q r.world).0 == sqlite_row)) [
        | inr e ↦ rw (row_loop, e) tt
        | inl e ↦
            elim (Option-cases (body (step sq q r.world).1 (at_world sq r (step sq q r.world).2))) [
              | inl f ↦ rw (row_loop, e, f) tt
              | inr (r', f) ↦
                  let d = fewer q.stmt r.world ((==_iff (step sq q r.world).0 sqlite_row).0 e) in
                  let k = keeps _ _ r' f in
                  rw (row_loop, e, f) (row_loop-Ended fuel body _ r' fewer keeps (omega arith))
            ]
      ]
