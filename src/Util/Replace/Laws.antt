-- ===== src/Util/Replace/Laws.antt =====
-- What `replace` of src/util.hpp computes, and how long it runs.
use mod_gate.Base.{
  ℕ, zero, suc, ◌+◌, ◌<◌, ◌≡◌, ◌≢◌, refl, ap, subst, ◌∙◌, inl, inr, true, false, [], ◌∷◌, ◌++◌,
  append-nil, append_assoc, Option, none, some, arith, Bytes, length, length-append, drop,
  Bool-cases, Option-cases,
}
use mathlib.Core.Option.{some_inj}
use mod_gate.Util.Replace.{behind, starts, find_first, replace_loop, replace}

-- The pattern does not begin in `before`, where `before ++ after` is the text.
unfoldable pub Avoids : Bytes → Bytes → Bytes → Type 0
Avoids find [] after = Unit
Avoids find (c ∷ before) after =
    (starts find (c ∷ (before ++ after)) ≡ false) × Avoids find before after

-- `t` is `s` with `n` occurrences replaced, each the first behind the one before it, and none left
-- behind the last.
pub data Replaced (find rep : Bytes) : Bytes → Bytes → ℕ → Type 0 where
  stop : {s : Bytes} → Avoids find s [] → Replaced find rep s s 0
  next :
      {s t after : Bytes} {n : ℕ} (before : Bytes)
      → s ≡ before ++ (find ++ after)
      → Avoids find before (find ++ after)
      → Replaced find rep after t n
      → Replaced find rep s (before ++ (rep ++ t)) (suc n)

starts_sound : (find s : Bytes) → starts find s ≡ true → s ≡ find ++ drop (length find) s
unfolding starts
starts_sound [] s h = refl
starts_sound (p ∷ ps) [] h = cc
starts_sound (p ∷ ps) (c ∷ s) h = ground (arith, starts_sound ps s)

find_first-none : (find s : Bytes) → find_first find s ≡ none → Avoids find s []
unfolding find_first Avoids
find_first-none find [] h = tt
find_first-none find (c ∷ s) h = ground (arith, find_first-none find s, append-nil s)

abbrev Splits : Bytes → Bytes → Bytes → Bytes → Type 0
Splits find s before after = (s ≡ before ++ (find ++ after)) × Avoids find before (find ++ after)

find_first_cons :
    (find s before after : Bytes) (c : ℕ)
    → starts find (c ∷ s) ≡ false
    → Splits find s before after
    → Splits find (c ∷ s) (c ∷ before) after
unfolding Avoids
find_first_cons find s before after c no_start (e, a) = (ap (λ t. c ∷ t) e, (rw e at no_start, a))

-- What `find_first` finds, at the pair that it returns.
abbrev SplitsAt : Bytes → Bytes → Bytes × Bytes → Type 0
SplitsAt find s r = Splits find s r.0 r.1

find_first_here :
    (find s : Bytes) (r : Bytes × Bytes)
    → starts find s ≡ true
    → some ([], drop (length find) s) ≡ some r
    → SplitsAt find s r
unfolding Avoids
find_first_here find s r h e = subst (SplitsAt find s) (some_inj.0 e) (starts_sound find s h, tt)

find_first_later :
    (find s : Bytes) (c : ℕ) (o : Option (Bytes × Bytes)) (r : Bytes × Bytes)
    → starts find (c ∷ s) ≡ false
    → ((r : Bytes × Bytes) → o ≡ some r → SplitsAt find s r)
    → behind c o ≡ some r
    → SplitsAt find (c ∷ s) r
find_first_later find s c none r h sound e = cc
find_first_later find s c (some (before, after)) r h sound e =
    subst (SplitsAt find (c ∷ s)) (some_inj.0 e)
      (find_first_cons find s before after c h (sound (before, after) refl))

-- The pair that `find_first` returns spells the text with the pattern between its halves, at the
-- first place where the pattern begins.
find_first-some :
    (find s : Bytes) (r : Bytes × Bytes) → find_first find s ≡ some r → SplitsAt find s r
unfolding find_first
find_first-some find [] r h = elim (Bool-cases (starts find [])) [
  | inl e ↦ find_first_here find [] r e (rw e at h)
  | inr n ↦ cc (rw n at h)
]
find_first-some find (c ∷ s) r h = elim (Bool-cases (starts find (c ∷ s))) [
  | inl e ↦ find_first_here find (c ∷ s) r e (rw e at h)
  | inr n ↦ find_first_later find s c (find_first find s) r n (find_first-some find s) (rw n at h)
]

shorter :
    (find rest before after : Bytes)
    → find ≢ []
    → rest ≡ before ++ (find ++ after)
    → length after < length rest
shorter [] rest before after h e = absurd (h refl)
shorter (f ∷ fs) rest before after h e =
    omega
      (arith, ap length e, length-append before ((f ∷ fs) ++ after), length-append (f ∷ fs) after)

-- What a run of the loop ends with.
abbrev Ends : ℕ → Bytes → Bytes → Bytes → Bytes → ℕ → Type 0
Ends fuel find rep done rest num =
    (t : Bytes) × (n : ℕ) × (replace_loop fuel find rep done rest num ≡ some (done ++ t, num + n))
    × Replaced find rep rest t n

replace_loop_step :
    (fuel : ℕ) (find rep done rest : Bytes) (num : ℕ) (before after : Bytes)
    → find_first find rest ≡ some (before, after)
    → Ends fuel find rep (done ++ (before ++ rep)) after (num + 1)
    → Ends (suc fuel) find rep done rest num
unfolding replace_loop
replace_loop_step fuel find rep done rest num before after e (t, n, run, r) =
    let (spells, avoids) = find_first-some find rest (before, after) e in
    (
      before ++ (rep ++ t),
      suc n,
      rw (e, replace_loop)
          (run
            ∙ simp append_assoc (ap (λ k. some (done ++ (before ++ (rep ++ t)), k)) (omega arith))),
      next before spells avoids r,
    )

replace_loop_total :
    (fuel : ℕ) (find rep done rest : Bytes) (num : ℕ)
    → find ≢ []
    → length rest < fuel
    → Ends fuel find rep done rest num
replace_loop_total zero find rep done rest num h le = absurd (omega arith)
replace_loop_total (suc fuel) find rep done rest num h le =
    elim (Option-cases (find_first find rest)) [
      | inl e ↦ (
        rest,
        0,
        unfold replace_loop in
            rw (e, replace_loop) (ap (λ k. some (done ++ rest, k)) (omega arith)),
        stop (find_first-none find rest e),
      )
      | inr ((before, after), e) ↦ replace_loop_step fuel find rep done rest num before after e (
          replace_loop_total fuel find rep _ after (num + 1) h (
            omega (
              arith,
              shorter find rest before after h (find_first-some find rest (before, after) e).0,
            )))
    ]

-- For a pattern that is not empty the loop ends within one round more than the text has bytes. It
-- has replaced the occurrences from left to right, each the first behind the one before, none is
-- left behind the last, and it returns their number.
pub replace_total :
    (fuel : ℕ) (source find rep : Bytes)
    → find ≢ []
    → length source < fuel
    → (t : Bytes) × (n : ℕ) × (replace fuel source find rep ≡ some (t, n))
      × Replaced find rep source t n
unfolding replace
replace_total fuel source find rep h le =
    let (t, n, run, r) = replace_loop_total fuel find rep [] source 0 h le in
    (t, n, run ∙ ap (λ k. some (t, k)) (omega arith), r)

find_first-nil : (s : Bytes) → find_first [] s ≡ some ([], s)
unfolding find_first starts
find_first-nil [] = refl
find_first-nil (c ∷ s) = refl

replace_loop_diverges :
    (fuel : ℕ) (rep done rest : Bytes) (num : ℕ) → replace_loop fuel [] rep done rest num ≡ none
unfolding replace_loop
replace_loop_diverges zero rep done rest num = refl
replace_loop_diverges (suc fuel) rep done rest num =
    rw (find_first-nil rest, replace_loop) (replace_loop_diverges fuel rep _ rest (num + 1))

-- For the empty pattern the loop never ends: it runs out of every fuel, on every text.
replace_diverges : (fuel : ℕ) (source rep : Bytes) → replace fuel source [] rep ≡ none
unfolding replace
replace_diverges fuel source rep = replace_loop_diverges fuel rep [] source 0
