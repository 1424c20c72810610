-- ===== src/Server/Lifetime.antt =====
-- The lifetime of the objects of src/server.cpp: their end, assignment and copies.
use native.Mathlib.Decide.{dec_lt, ℕ_discrete}
use mod_gate.Base.{
  ℕ, suc, zero, ◌+◌, ◌<◌, ◌≤◌, ◌≡◌, ◌≢◌, inl, inr, refl, sym, ◌∙◌, ap, none, some, arith,
}
use mod_gate.Server.{
  ServerRec, last_server, server_before, Heap, done, write, construct, destroy, servers, assign,
  new_next, copy, fault,
}
use mod_gate.Server.Chain.{
  links, records, object, Holds, Outside, write_self, write_other, Holds-same, construct-Made,
  destroy-Ends, servers-Holds,
}

module _ {F : Type 0} where
  -- Until it ends, an object that is made of a record leads by `next()` to the record and its followers,
  -- in order; when it ends, no step faults, and what stands at every address is what stood there
  -- before it was made. The storage of the object was free, and so was what `new` had not yet given.
  pub destroy-construct :
      (fuel this : ℕ) (r : ServerRec F) (h : Heap F)
      → links r < fuel
      → this < h.fresh
      → h.cell this ≡ none
      → ((a : ℕ) → h.fresh ≤ a → h.cell a ≡ none)
      → (servers fuel this (construct this r h) ≡ some (records r))
        × ((h' : Heap F) × (destroy fuel this (construct this r h) ≡ done h')
            × ((a : ℕ) → h'.cell a ≡ h.cell a))
  destroy-construct fuel this r h lt below free unused =
      let m = construct-Made this r h below in
      let (h', run, e) = destroy-Ends fuel this h.fresh r (construct this r h) lt below m.held in
      (
        servers-Holds fuel this h.fresh r (construct this r h) lt m.held,
        (
          h',
          run,
          λ a. elim (ℕ_discrete a this) [
            | yes same ↦ ap h'.cell same ∙ e.gone ∙ sym free ∙ ap h.cell (sym same)
            | no ne ↦ elim (dec_lt a h.fresh) [
              | yes old ↦ e.others a (ne, inl old) ∙ m.others a (ne, inl old)
              | no new ↦ elim (dec_lt a (h.fresh + links r)) [
                | yes follower ↦
                    e.followers_gone a (omega arith) follower ∙ sym (unused a (omega arith))
                | no behind ↦
                    e.others a (ne, inr (omega arith)) ∙ m.others a (ne, inr (omega arith))
              ]
            ]
          ],
        ),
      )

  assign-construct :
      (this : ℕ) (r : ServerRec F) (h : Heap F) → assign this r h ≡ construct this r h
  unfolding assign construct new_next
  assign-construct this (last_server f) h = refl
  assign-construct this (server_before f r) h = refl

  head_held : (h : Heap F) (this q : ℕ) (r : ServerRec F) → Holds h this q r → h.cell this ≢ none
  head_held h this q (last_server f) c = λ n. cc (c, n)
  head_held h this q (server_before f r) (c, cs) = λ n. cc (c, n)

  follower_held :
      (h : Heap F) (this q a : ℕ) (r : ServerRec F)
      → Holds h this q r
      → q ≤ a
      → a < q + links r
      → h.cell a ≢ none
  follower_held h this q a (last_server f) c le lt = absurd (omega arith)
  follower_held h this q a (server_before f r) (c, cs) le lt = elim (dec_lt q a) [
    | yes behind ↦ follower_held h q (q + 1) a r cs (omega arith) (omega arith)
    | no at ↦ λ n. head_held h q (q + 1) r cs (ap h.cell (omega arith) ∙ n)
  ]

  -- `operator=` makes the object lead to the records of the new chain, and its end does not fault, but
  -- the objects that were made for the followers of the old record are then still allocated.
  pub assign_leaks :
      (fuel this : ℕ) (r sr : ServerRec F) (h : Heap F)
      → links sr < fuel
      → this < h.fresh
      → (servers fuel this (assign this sr (construct this r h)) ≡ some (records sr))
        × ((h' : Heap F) × (destroy fuel this (assign this sr (construct this r h)) ≡ done h')
            × ((a : ℕ) → h.fresh ≤ a → a < h.fresh + links r → h'.cell a ≢ none))
  assign_leaks fuel this r sr h lt below =
      let h1 = construct this r h in
      let m = construct-Made this r h below in
      let m' = construct-Made this sr h1 (omega (arith, m.grown)) in
      let (h', run, e) =
        destroy-Ends fuel this h1.fresh sr (construct this sr h1) lt (omega (arith, m.grown))
          m'.held in
      rw (assign-construct this sr h1) (
        servers-Holds fuel this h1.fresh sr (construct this sr h1) lt m'.held,
        (
          h',
          run,
          λ a le more n.
              let out : Outside this h1.fresh (links sr) a =
                (omega arith, inl (omega (arith, m.grown))) in
              follower_held h1 this h.fresh a r m.held le more
                (sym (e.others a out ∙ m'.others a out) ∙ n),
        ),
      )

  -- The end of an object whose next object is gone.
  destroy_dangling :
      (fuel this q : ℕ) (r : ServerRec F) (h : Heap F)
      → h.cell this ≡ some (object r (some q))
      → this < q
      → h.cell q ≡ none
      → 0 < fuel
      → destroy (suc fuel) this h ≡ fault
  unfolding destroy
  destroy_dangling zero this q r h c lt gone pos = absurd (omega arith)
  destroy_dangling (suc fuel) this q r h c lt gone pos =
      let h1 = write this (some (record { sr = none; next = some q })) h in
      let gone' =
        write_other this q (some (record { sr = none; next = some q })) h (omega arith) ∙ gone in
      rw (c, destroy, gone') refl

  -- The copy of an object whose record has followers shares the objects of the followers with it:
  -- when both have ended, the second end has faulted.
  copy_faults :
      (fuel this that : ℕ) (f : F) (r : ServerRec F) (h : Heap F)
      → links r < fuel
      → this < h.fresh
      → that < h.fresh
      → this ≢ that
      → (h1 h2 : Heap F) × (copy that this (construct this (server_before f r) h) ≡ done h1)
        × (destroy (suc fuel) that h1 ≡ done h2)
        × (destroy (suc fuel) this h2 ≡ fault)
  unfolding copy
  copy_faults fuel this that f r h lt below below' ne =
      let s = server_before f r in
      let h0 = construct this s h in
      let m = construct-Made this s h below in
      let o = object s (some h.fresh) in
      let h1 = write that (some o) h0 in
      let held : Holds h1 that h.fresh s = (
        write_self that (some o) h0,
        Holds-same h0 h1 h.fresh (h.fresh + 1) r
            (write_other that h.fresh (some o) h0 (omega arith))
            (λ a le. write_other that a (some o) h0 (omega arith)) m.held.1,
      ) in
      let (h2, run, e) = destroy-Ends (suc fuel) that h.fresh s h1 (omega arith) below' held in
      let left : h2.cell this ≡ some o =
        e.others this (ne, inl below) ∙ write_other that this (some o) h0 ne ∙ m.held.0 in
      (
        h1,
        h2,
        rw (copy, m.held.0) refl,
        run,
        destroy_dangling fuel this h.fresh s h2 left below
            (e.followers_gone h.fresh (omega arith) (omega arith)) (omega arith),
      )
