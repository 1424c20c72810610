-- ===== src/Sqlite/Handles.antt =====
-- The statements that a `Query` of src/sqlite.cpp owns.
use mod_gate.Base.{
  ℕ, ◌+◌, ◌≡◌, refl, ◌∙◌, List, [], ◌∷◌, Option, none, some, Bytes, ◌==◌, arith, foldl,
  Option-cases, Bool-cases, inl, inr,
}
use mod_gate.Sqlite.Laws.{SqliteLaws, weight}
use mod_gate.Sqlite.{
  Sqlite, Query, query, release, finalize, step, compile, prepare, exists, execute, sqlite_ok,
}

module _ (sq : Sqlite) (laws : SqliteLaws sq) where
  open laws use {stmts, dbs}

  -- `base` statements are open besides that of the query.
  abbrev pub Owns : ℕ → Query sq → sq.World → Type 0
  Owns base q w = stmts w ≡ base + weight q.stmt

  release_stmts :
      (base : ℕ) (st : Option sq.Stmt) (w : sq.World)
      → stmts w ≡ base + weight st
      → stmts (release sq st w) ≡ base
  release_stmts base none w h = omega arith
  release_stmts base (some s) w h = omega (arith, laws.finalize_stmts s w)

  release_dbs : (st : Option sq.Stmt) (w : sq.World) → dbs (release sq st w) ≡ dbs w
  release_dbs none w = refl
  release_dbs (some s) w = laws.finalize_dbs s w

  -- What a call leaves: the statements of others and the connections are as they were.
  pub record Keeps (base : ℕ) (w : sq.World) (q' : Query sq) (w' : sq.World) : Type 0 where
    pub owns : Owns base q' w'
    pub same_dbs : dbs w' ≡ dbs w

  pub finalize-Keeps :
      (base : ℕ) (q : Query sq) (w : sq.World)
      → Owns base q w
      → Keeps base w (finalize sq q w).0 (finalize sq q w).1
  unfolding finalize
  finalize-Keeps base q w h =
      let e = release_stmts base q.stmt w h in
      record { owns = omega arith; same_dbs = release_dbs q.stmt w }

  pub step-Keeps :
      (base : ℕ) (q : Query sq) (w : sq.World)
      → Owns base q w
      → Keeps base w (step sq q w).1 (step sq q w).2
  unfolding step
  step-Keeps base q w h = record {
    owns = omega (arith, laws.step_stmts q.stmt w);
    same_dbs = laws.step_dbs q.stmt w;
  }

  execute-Keeps :
      (base : ℕ) (q : Query sq) (sql : Bytes) (args : List Bytes) (w : sq.World)
      → Owns base q w
      → Keeps base w (execute sq q sql args w).1 (execute sq q sql args w).2
  unfolding execute
  execute-Keeps base q sql args w h = record {
    owns = omega (arith, laws.exec_stmts q.db (sq.vmprintf sql args) w);
    same_dbs = laws.exec_dbs q.db (sq.vmprintf sql args) w;
  }

  compile_from :
      (base : ℕ) (q : Query sq) (sql : Bytes) (w0 w : sq.World)
      → stmts w ≡ base
      → dbs w ≡ dbs w0
      → Keeps base w0
          (record q {
            error_code = (sq.db_prepare q.db sql w).0;
            stmt = (sq.db_prepare q.db sql w).1;
          })
          (sq.db_prepare q.db sql w).2
  compile_from base q sql w0 w h hd = record {
    owns = omega (arith, laws.prepare_stmts q.db sql w);
    same_dbs = omega (arith, laws.prepare_dbs q.db sql w);
  }

  compile-Keeps :
      (base : ℕ) (q : Query sq) (sql : Bytes) (args : List Bytes) (w : sq.World)
      → Owns base q w
      → Keeps base w (compile sq q sql args w).0 (compile sq q sql args w).1
  unfolding compile
  compile-Keeps base q sql args w h = elim (Option-cases q.stmt) [
    | inl e ↦ rw e (compile_from base q (sq.vmprintf sql args) w w (omega (arith, rw e at h)) refl)
    | inr (s, e) ↦ rw e (
        compile_from base q (sq.vmprintf sql args) w (sq.stmt_finalize s w).1
          (release_stmts base (some s) w (rw e at h)) (laws.finalize_dbs s w))
  ]

  pub prepare-Keeps :
      (base : ℕ) (q : Query sq) (sql : Bytes) (args : List Bytes) (w : sq.World)
      → Owns base q w
      → Keeps base w (prepare sq q sql args w).1 (prepare sq q sql args w).2
  unfolding prepare
  prepare-Keeps base q sql args w h =
      elim (Bool-cases ((compile sq q sql args w).0.error_code == sqlite_ok)) [
        | inl e ↦ rw e (compile-Keeps base q sql args w h)
        | inr n ↦ rw n (compile-Keeps base q sql args w h)
      ]

  then_Keeps :
      (base : ℕ) (w w' w'' : sq.World) (q' q'' : Query sq)
      → Keeps base w q' w'
      → Keeps base w' q'' w''
      → Keeps base w q'' w''
  then_Keeps base w w' w'' q' q'' a b = record { owns = b.owns; same_dbs = b.same_dbs ∙ a.same_dbs }

  exists_Keeps :
      (base : ℕ) (q : Query sq) (sql : Bytes) (args : List Bytes) (w : sq.World)
      → Owns base q w
      → Keeps base w (exists sq q sql args w).1 (exists sq q sql args w).2
  unfolding exists
  exists_Keeps base q sql args w h =
      let (q1, w1) = compile sq q sql args w in
      let (rc, q2, w2) = step sq q1 w1 in
      let (q3, w3) = finalize sq q2 w2 in
      let a = compile-Keeps base q sql args w h in
      let b = step-Keeps base q1 w1 a.owns in
      let c = finalize-Keeps base q2 w2 b.owns in
      then_Keeps base w w1 w3 q1 q3 a (then_Keeps base w1 w2 w3 q2 q3 b c)

-- The methods of a `Query`, as a program calls them in turn.
pub data Call : Type 0 where
  call_prepare call_exists call_execute : Bytes → List Bytes → Call
  call_step call_finalize : Call

module _ (sq : Sqlite) where
  unfoldable pub call : Query sq × sq.World → Call → Query sq × sq.World
  unfolding prepare exists execute step finalize
  call (q, w) (call_prepare sql args) = let (r, q', w') = prepare sq q sql args w in (q', w')
  call (q, w) (call_exists sql args) = let (r, q', w') = exists sq q sql args w in (q', w')
  call (q, w) (call_execute sql args) = let (r, q', w') = execute sq q sql args w in (q', w')
  call (q, w) call_step = let (r, q', w') = step sq q w in (q', w')
  call (q, w) call_finalize = finalize sq q w

  -- A query is constructed, used and destroyed: the world that it leaves.
  unfoldable pub lifetime : sq.Db → List Call → sq.World → sq.World
  unfolding call query finalize
  lifetime db calls w = let (q, w') = foldl call (query sq db, w) calls in (finalize sq q w').1

module _ (sq : Sqlite) (laws : SqliteLaws sq) where
  call-Keeps :
      (base : ℕ) (c : Call) (q : Query sq) (w : sq.World)
      → Owns sq laws base q w
      → Keeps sq laws base w (call sq (q, w) c).0 (call sq (q, w) c).1
  call-Keeps base (call_prepare sql args) q w h =
      unfold call in prepare-Keeps sq laws base q sql args w h
  call-Keeps base (call_exists sql args) q w h =
      unfold call in exists_Keeps sq laws base q sql args w h
  call-Keeps base (call_execute sql args) q w h =
      unfold call in execute-Keeps sq laws base q sql args w h
  call-Keeps base call_step q w h = unfold call in step-Keeps sq laws base q w h
  call-Keeps base call_finalize q w h = unfold call in finalize-Keeps sq laws base q w h

  calls_Keeps :
      (base : ℕ) (cs : List Call) (q : Query sq) (w : sq.World)
      → Owns sq laws base q w
      → Keeps sq laws base w (foldl (call sq) (q, w) cs).0 (foldl (call sq) (q, w) cs).1
  calls_Keeps base [] q w h = record { owns = h; same_dbs = refl }
  calls_Keeps base (c ∷ cs) q w h =
      let a = call-Keeps base c q w h in
      let (q', w') = call sq (q, w) c in
      let (q'', w'') = foldl (call sq) (q', w') cs in
      then_Keeps sq laws base w w' w'' q' q'' a (calls_Keeps base cs q' w' a.owns)

  -- Whatever methods are called on a `Query` between its construction and its destruction, failed
  -- preparations and pending statements included, it leaves as many statements and connections open
  -- as there were.
  pub lifetime_handles :
      (db : sq.Db) (calls : List Call) (w : sq.World)
      → (laws.stmts (lifetime sq db calls w) ≡ laws.stmts w)
        × (laws.dbs (lifetime sq db calls w) ≡ laws.dbs w)
  unfolding lifetime
  lifetime_handles db calls w =
      let a = calls_Keeps (laws.stmts w) calls (query sq db) w (unfold query in omega arith) in
      let (q', w') = foldl (call sq) (query sq db, w) calls in
      let b = finalize-Keeps sq laws (laws.stmts w) q' w' a.owns in
      (omega (arith, b.owns), b.same_dbs ∙ a.same_dbs)
