-- ===== src/Apr/Table/Walk.antt =====
-- Walks of src/apr_table.cpp by `next`, from the start.
use mod_gate.Base.{
  ℕ, zero, suc, ◌+◌, ◌<◌, ◌≤◌, ◌≡◌, refl, sym, ap, ◌∙◌, true, false, List, [], ◌∷◌, ◌++◌, some,
  Bytes, pos, negsuc, sub_ℕ, int_lt, ltb, if◌then◌else◌, length, get_elem?, drop, arith, foldl,
  append_assoc, append-nil,
}
use native.Mathlib.Decide.{dec_lt}
use mod_gate.Apr.Table.{Iterator, text, bind, index, key, value, next, each, join_loop, join}

-- The iterator behind `i` elements.
abbrev pub behind : List (Bytes × Bytes) → ℕ → Iterator
behind h zero = record { header = h; position = negsuc 0 }
behind h (suc i) = record { header = h; position = pos i }

pub next_more :
    (h : List (Bytes × Bytes)) (i : ℕ) → i < length h → next (behind h i) ≡ (behind h (suc i), true)
unfolding next
next_more h zero lt = ground arith
next_more h (suc i) lt = ground arith

pub next_done :
    (h : List (Bytes × Bytes)) (i : ℕ) → i ≡ length h → next (behind h i) ≡ (behind h i, false)
unfolding next
next_done h zero e = ground arith
next_done h (suc i) e = ground arith

-- The element at an index in range, which is the first of the rest.
pub element :
    (h : List (Bytes × Bytes)) (i : ℕ)
    → i < length h
    → (e : Bytes × Bytes) × (get_elem? h i ≡ some e) × (drop i h ≡ e ∷ drop (suc i) h)
element [] i lt = elim lt [ ]
element (e ∷ h) zero lt = (e, refl, refl)
element (e ∷ h) (suc i) lt = element h i (omega arith)

pub drop_all : (h : List (Bytes × Bytes)) (i : ℕ) → i ≡ length h → drop i h ≡ []
drop_all [] zero e = refl
drop_all [] (suc i) e = refl
drop_all (x ∷ h) zero e = absurd (omega arith)
drop_all (x ∷ h) (suc i) e = drop_all h i (omega arith)

pub key-behind :
    (h : List (Bytes × Bytes)) (i : ℕ) (e : Bytes × Bytes)
    → get_elem? h i ≡ some e
    → (key (behind h (suc i)) ≡ text e.0) × (value (behind h (suc i)) ≡ text e.1)
unfolding key value
key-behind h i e at = (rw at, rw at)

abbrev run : {S : Type 0} → (S → Bytes → Bytes → S) → S → List (Bytes × Bytes) → S
run body = foldl (λ s e. body s e.0 e.1)

each_step :
    {S : Type 0} (fuel : ℕ) (h : List (Bytes × Bytes)) (i : ℕ) (e : Bytes × Bytes)
    (body : S → Bytes → Bytes → S) (s : S)
    → i < length h
    → get_elem? h i ≡ some e
    → each (suc fuel) (behind h i) body s ≡ each fuel (behind h (suc i)) body (body s e.0 e.1)
unfolding each
each_step fuel h i e body s lt at =
    let (k, v) = key-behind h i e at in
    rw (next_more h i lt, each, next_more h i lt, k, v, next_more h i lt)

each_from :
    {S : Type 0} (fuel : ℕ) (h : List (Bytes × Bytes)) (i : ℕ) (body : S → Bytes → Bytes → S)
    (s : S)
    → i ≤ length h
    → length h < fuel + i
    → each fuel (behind h i) body s ≡ some (run body s (drop i h))
each_from zero h i body s le lt = absurd (omega arith)
each_from (suc fuel) h i body s le lt = elim (dec_lt i (length h)) [
  | yes more ↦
      let (e, at, split) = element h i more in
      each_step fuel h i e body s more at
      ∙ each_from fuel h (suc i) body (body s e.0 e.1) more (omega arith)
      ∙ rw split
  | no done ↦
      let e : i ≡ length h = omega arith in
      unfold each in rw (next_done h i e, each, drop_all h i e)
]

-- A loop `while (i.next())` over a table's elements ends after as many rounds as there are elements,
-- reads no pointer outside of the array, and has run its body once for each element, in order.
pub each-foldl :
    {S : Type 0} (fuel : ℕ) (h : List (Bytes × Bytes)) (body : S → Bytes → Bytes → S) (s : S)
    → length h < fuel
    → each fuel (bind h) body s ≡ some (foldl (λ s e. body s e.0 e.1) s h)
unfolding bind
each-foldl fuel h body s lt = each_from fuel h zero body s (omega arith) (omega arith)

-- The pairs `key=value` of the elements, with the separator between them.
unfoldable pub joined : List (Bytes × Bytes) → Bytes → Bytes
joined [] sep = []
joined (e ∷ []) sep = e.0 ++ (b'=' ∷ e.1)
joined (e ∷ d ∷ h) sep = (e.0 ++ (b'=' ∷ e.1)) ++ (sep ++ joined (d ∷ h) sep)

mark : (i n : ℕ) → i < n → int_lt (pos i) (sub_ℕ n 1) ≡ ltb (suc i) n
mark i n lt = ground arith

join_step :
    (fuel : ℕ) (h : List (Bytes × Bytes)) (i : ℕ) (e : Bytes × Bytes) (sep out : Bytes)
    → i < length h
    → get_elem? h i ≡ some e
    → join_loop (suc fuel) (behind h i) sep out
      ≡ join_loop fuel
          (behind h (suc i))
          sep
          (out ++ ((e.0 ++ (b'=' ∷ e.1)) ++ (if ltb (suc i) (length h) then sep else [])))
unfolding join_loop index
join_step fuel h i e sep out lt at =
    let (k, v) = key-behind h i e at in
    rw (next_more h i lt, join_loop, next_more h i lt, k, v, next_more h i lt)
      (ap
        (λ b.
          join_loop fuel (behind h (suc i)) sep
            (out ++ ((e.0 ++ (b'=' ∷ e.1)) ++ (if b then sep else []))))
        (mark i (length h) lt))

joined_step :
    (h : List (Bytes × Bytes)) (i : ℕ) (e : Bytes × Bytes) (sep out : Bytes)
    → i < length h
    → drop i h ≡ e ∷ drop (suc i) h
    → (out ++ ((e.0 ++ (b'=' ∷ e.1)) ++ (if ltb (suc i) (length h) then sep else [])))
        ++ joined (drop (suc i) h) sep
      ≡ out ++ joined (drop i h) sep
joined_step h i e sep out lt split = elim (dec_lt (suc i) (length h)) [
  | yes more ↦
      let (d, at, split') = element h (suc i) more in
      let t : ltb (suc i) (length h) ≡ true = ground arith in
      rw (split, split', t) (unfold joined in simp append_assoc)
  | no done ↦
      let t : ltb (suc i) (length h) ≡ false = ground arith in
      rw (split, drop_all h (suc i) (omega arith), t)
        (unfold joined in simp (append_assoc, append-nil))
]

join_from :
    (fuel : ℕ) (h : List (Bytes × Bytes)) (i : ℕ) (sep out : Bytes)
    → i ≤ length h
    → length h < fuel + i
    → join_loop fuel (behind h i) sep out ≡ some (out ++ joined (drop i h) sep)
unfolding joined
join_from zero h i sep out le lt = absurd (omega arith)
join_from (suc fuel) h i sep out le lt = elim (dec_lt i (length h)) [
  | yes more ↦
      let (e, at, split) = element h i more in
      join_step fuel h i e sep out more at
      ∙ join_from fuel h (suc i) sep _ more (omega arith)
      ∙ ap some (joined_step h i e sep out more split)
  | no done ↦
      let e : i ≡ length h = omega arith in
      unfold join_loop in
      rw (next_done h i e, join_loop, drop_all h i e) (ap some (sym (append-nil out)))
]

-- `join` ends after as many rounds as there are elements, faults nowhere, and returns the pairs
-- `key=value` of all elements in order, with the separator between two of them only.
join-joined :
    (fuel : ℕ) (h : List (Bytes × Bytes)) (sep : Bytes)
    → length h < fuel
    → join fuel h sep ≡ some (joined h sep)
unfolding join bind
join-joined fuel h sep lt = join_from fuel h zero sep [] (omega arith) (omega arith)
