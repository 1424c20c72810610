-- ===== src/Server/Chain.antt =====
-- The chains of objects of src/server.cpp.
use native.Mathlib.Decide.{dec_lt}
use mod_gate.Base.{
  ℕ, suc, zero, ◌+◌, ◌<◌, ◌≤◌, ◌≡◌, ◌≢◌, ◌⊎◌, refl, ◌∙◌, ap, Option, none, some, List, [], ◌∷◌,
  arith,
}
use mod_gate.Server.{
  ServerRec, last_server, server_before, Server, Heap, done, write, construct, destroy, servers,
}

-- Neither `this` nor one of the `n` addresses from `q` on.
abbrev pub Outside : ℕ → ℕ → ℕ → ℕ → Type 0
Outside this q n a = (a ≢ this) × ((a < q) ⊎ (q + n ≤ a))

module _ {F : Type 0} where
  -- How many records follow.
  abbrev pub links : ServerRec F → ℕ
  links (last_server f) = 0
  links (server_before f r) = suc (links r)

  abbrev pub object : ServerRec F → Option ℕ → Server F
  object r p = record { sr = some r; next = p }

  -- The records from one on.
  abbrev pub records : ServerRec F → List (Option (ServerRec F))
  records (last_server f) = some (last_server f) ∷ []
  records (server_before f r) = some (server_before f r) ∷ records r

  -- The object at `this` wraps the record, and those of its followers stand at `q` and behind.
  abbrev pub Holds : Heap F → ℕ → ℕ → ServerRec F → Type 0
  Holds h this q (last_server f) = h.cell this ≡ some (object (last_server f) none)
  Holds h this q (server_before f r) =
      (h.cell this ≡ some (object (server_before f r) (some q))) × Holds h q ((q + 1)) r

  pub write_self : (p : ℕ) (o : Option (Server F)) (h : Heap F) → (write p o h).cell p ≡ o
  unfolding write
  write_self p o h = ground arith

  pub write_other :
      (p a : ℕ) (o : Option (Server F)) (h : Heap F) → a ≢ p → (write p o h).cell a ≡ h.cell a
  unfolding write
  write_other p a o h ne = ground arith

  write_fresh : (p : ℕ) (o : Option (Server F)) (h : Heap F) → (write p o h).fresh ≡ h.fresh
  unfolding write
  write_fresh p o h = refl

  -- A chain is told by the cells that it uses.
  pub Holds-same :
      (h h' : Heap F) (this q : ℕ) (r : ServerRec F)
      → h'.cell this ≡ h.cell this
      → ((a : ℕ) → q ≤ a → h'.cell a ≡ h.cell a)
      → Holds h this q r
      → Holds h' this q r
  Holds-same h h' this q (last_server f) e same c = e ∙ c
  Holds-same h h' this q (server_before f r) e same (c, cs) = (
    e ∙ c,
    Holds-same h h' q ((q + 1)) r (same q (omega arith)) (λ a le. same a (omega arith)) cs,
  )

  -- What a construction leaves behind.
  pub record Made (this : ℕ) (r : ServerRec F) (h h' : Heap F) : Type 0 where
    pub held : Holds h' this h.fresh r
    pub grown : h'.fresh ≡ h.fresh + links r
    pub others : (a : ℕ) → Outside this h.fresh (links r) a → h'.cell a ≡ h.cell a

  pub construct-Made :
      (this : ℕ) (r : ServerRec F) (h : Heap F)
      → this < h.fresh
      → Made this r h (construct this r h)
  unfolding construct
  construct-Made this (last_server f) h lt = record {
    held = write_self this _ h;
    grown = write_fresh this (some (object (last_server f) none)) h ∙ omega arith;
    others = λ a out. write_other this a _ h out.0;
  }
  construct-Made this (server_before f r) h lt =
      let m = construct-Made h.fresh r (record h { fresh = h.fresh + 1 }) (omega arith) in
      let h' = construct h.fresh r (record h { fresh = h.fresh + 1 }) in
      record {
        held = (
          write_self this _ h',
          Holds-same h' (write this (some (object (server_before f r) (some h.fresh))) h') h.fresh
              (h.fresh + 1) r (write_other this h.fresh _ h' (omega arith))
              (λ a le. write_other this a _ h' (omega arith)) m.held,
        );
        grown =
            write_fresh this (some (object (server_before f r) (some h.fresh))) h'
            ∙ omega (arith, m.grown);
        others = λ a out. write_other this a _ h' out.0 ∙ m.others a (grind arith);
      }

  -- What the end of an object leaves behind.
  pub record Ended (this q : ℕ) (r : ServerRec F) (h h' : Heap F) : Type 0 where
    pub gone : h'.cell this ≡ none
    pub followers_gone : (a : ℕ) → q ≤ a → a < q + links r → h'.cell a ≡ none
    pub others : (a : ℕ) → Outside this q (links r) a → h'.cell a ≡ h.cell a

  abbrev pub Ends : ℕ → ℕ → ℕ → ServerRec F → Heap F → Type 0
  Ends fuel this q r h = (h' : Heap F) × (destroy fuel this h ≡ done h') × Ended this q r h h'

  pub destroy-Ends :
      (fuel this q : ℕ) (r : ServerRec F) (h : Heap F)
      → links r < fuel
      → this < q
      → Holds h this q r
      → Ends fuel this q r h
  unfolding destroy
  destroy-Ends zero this q r h lt below c = absurd (omega arith)
  destroy-Ends (suc fuel) this q (last_server f) h lt below c = (
    write this none h,
    rw (c, destroy) refl,
    record {
      gone = write_self this none h;
      followers_gone = λ a le more. absurd (omega arith);
      others = λ a out. write_other this a none h out.0;
    },
  )
  destroy-Ends (suc fuel) this q (server_before f r) h lt below (c, cs) =
      let h1 = write this (some (record { sr = none; next = some q })) h in
      let held =
        Holds-same h h1 q ((q + 1)) r (write_other this q _ h (omega arith))
          (λ a le. write_other this a _ h (omega arith)) cs in
      let (h2, run, e) = destroy-Ends fuel q ((q + 1)) r h1 (omega arith) (omega arith) held in
      (
        write this none h2,
        rw (c, destroy, run) refl,
        record {
          gone = write_self this none h2;
          followers_gone = λ a le more.
              write_other this a none h2 (omega arith) ∙ elim (dec_lt q a) [
                | yes behind ↦ e.followers_gone a (omega arith) (omega arith)
                | no at ↦ ap h2.cell (omega arith) ∙ e.gone
              ];
          others = λ a out.
              write_other this a none h2 out.0
              ∙ e.others a (grind arith)
              ∙ write_other this a _ h out.0;
        },
      )

  pub servers-Holds :
      (fuel this q : ℕ) (r : ServerRec F) (h : Heap F)
      → links r < fuel
      → Holds h this q r
      → servers fuel this h ≡ some (records r)
  unfolding servers
  servers-Holds zero this q r h lt c = absurd (omega arith)
  servers-Holds (suc fuel) this q (last_server f) h lt c = rw (c, servers) refl
  servers-Holds (suc fuel) this q (server_before f r) h lt (c, cs) =
      rw (c, servers, servers-Holds fuel q (q + 1) r h (omega arith) cs) refl
