-- ===== src/Util/Split/Laws.antt =====
-- What `split` of src/util.cpp returns.
use mod_gate.Base.{
  ℕ, List, [], ◌∷◌, ◌++◌, append-nil, append_assoc, ◌≡◌, ◌≢◌, refl, sym, ◌∙◌, arith, Bytes, ◌==◌,
  All, All-append, inl, inr, Bool-cases, ==_iff, if◌then◌else◌,
}
use mod_gate.Util.Split.{split_loop, split}

abbrev pub Lacks : ℕ → Bytes → Type 0
Lacks d = All (λ c. c ≢ d)

-- Every part with a delimiter behind it.
unfoldable pub terminated : ℕ → List Bytes → Bytes
terminated d [] = []
terminated d (p ∷ ps) = p ++ (d ∷ terminated d ps)

terminated-append :
    (d : ℕ) (ps qs : List Bytes) → terminated d (ps ++ qs) ≡ terminated d ps ++ terminated d qs
unfolding terminated
terminated-append d [] qs = refl
terminated-append d (p ∷ ps) qs = simp (terminated-append d ps qs, append_assoc)

-- What is to be put behind a text so that it ends in a delimiter, after `item`.
unfoldable pub missing : ℕ → Bytes → Bytes → Bytes
missing d [] [] = []
missing d [] (c ∷ item) = d ∷ []
missing d (c ∷ s) item = if c == d then missing d s [] else missing d s (item ++ c ∷ [])

split_loop-Lacks :
    (s : Bytes) (d : ℕ) (elems : List Bytes) (item : Bytes)
    → All (Lacks d) elems
    → Lacks d item
    → All (Lacks d) (split_loop s d elems item)
unfolding split_loop
split_loop-Lacks [] d elems [] h hi = h
split_loop-Lacks [] d elems (c ∷ item) h hi = All-append (Lacks d) elems _ h (hi, tt)
split_loop-Lacks (c ∷ s) d elems item h hi = elim (Bool-cases (c == d)) [
  | inl e ↦
      rw e
        (split_loop-Lacks s d (elems ++ item ∷ []) [] (All-append (Lacks d) elems _ h (hi, tt)) tt)
  | inr n ↦ rw n (
      split_loop-Lacks s d elems (item ++ c ∷ []) h
        (All-append (λ x. x ≢ d) item _ hi (ground arith, tt)))
]

-- No part that `split` appends holds the delimiter.
pub split-Lacks : (s : Bytes) (d : ℕ) → All (Lacks d) (split s d [])
unfolding split
split-Lacks s d = split_loop-Lacks s d [] [] tt tt

-- A delimiter that ends a part is one of the text.
terminated_step :
    (d c : ℕ) (elems : List Bytes) (item s : Bytes)
    → c ≡ d
    → terminated d (elems ++ item ∷ []) ++ s ≡ terminated d elems ++ (item ++ (c ∷ s))
unfolding terminated
terminated_step d c elems item s e = rw (terminated-append, e) (simp append_assoc)

split_loop-terminated :
    (s : Bytes) (d : ℕ) (elems : List Bytes) (item : Bytes)
    → terminated d (split_loop s d elems item)
      ≡ terminated d elems ++ (item ++ (s ++ missing d s item))
unfolding split_loop missing terminated
split_loop-terminated [] d elems [] = sym (append-nil _)
split_loop-terminated [] d elems (c ∷ item) = terminated-append d elems ((c ∷ item) ∷ [])
split_loop-terminated (c ∷ s) d elems item = elim (Bool-cases (c == d)) [
  | inl e ↦ rw e (
      split_loop-terminated s d (elems ++ item ∷ []) []
      ∙ terminated_step d c elems item _ ((==_iff c d).0 e))
  | inr n ↦ rw n (split_loop-terminated s d elems (item ++ c ∷ []) ∙ simp append_assoc)
]

-- The parts that `split` returns, each with the delimiter behind it, spell the text, with one more
-- delimiter behind it if the text is not empty and does not end in one.
terminated-split : (s : Bytes) (d : ℕ) → terminated d (split s d []) ≡ s ++ missing d s []
unfolding split terminated
terminated-split s d = split_loop-terminated s d [] []

split_loop-append :
    (p rest : Bytes) (d : ℕ) (elems : List Bytes) (item : Bytes)
    → Lacks d p
    → split_loop (p ++ rest) d elems item ≡ split_loop rest d elems (item ++ p)
unfolding split_loop
split_loop-append [] rest d elems item h = rw append-nil
split_loop-append (c ∷ p) rest d elems item (hc, hp) =
    ground
      (arith, split_loop-append p rest d elems (item ++ c ∷ []) hp, append_assoc item (c ∷ []) p)

split_loop-delim :
    (rest : Bytes) (d : ℕ) (elems : List Bytes) (item : Bytes)
    → split_loop (d ∷ rest) d elems item ≡ split_loop rest d (elems ++ item ∷ []) []
unfolding split_loop
split_loop-delim rest d elems item = ground arith

split_loop-terminated_parts :
    (ps : List Bytes) (d : ℕ) (elems : List Bytes)
    → All (Lacks d) ps
    → split_loop (terminated d ps) d elems [] ≡ elems ++ ps
unfolding terminated
split_loop-terminated_parts [] d elems h = unfold split_loop in sym (append-nil elems)
split_loop-terminated_parts (p ∷ ps) d elems (hp, hps) =
    split_loop-append p _ d elems [] hp
    ∙ split_loop-delim (terminated d ps) d elems p
    ∙ split_loop-terminated_parts ps d (elems ++ p ∷ []) hps
    ∙ append_assoc elems (p ∷ []) ps

-- Parts that hold no delimiter are found again by `split` in the text in which each has the
-- delimiter behind it, empty parts included, and are appended to the vector of the caller.
pub split-terminated :
    (ps : List Bytes) (d : ℕ) (elems : List Bytes)
    → All (Lacks d) ps
    → split (terminated d ps) d elems ≡ elems ++ ps
unfolding split
split-terminated = split_loop-terminated_parts
