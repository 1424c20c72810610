-- ===== src/Endian/Words.antt =====
-- Words in memory: their value in either byte order, and what `SWAP_U16` to `SWAP_F128` of
-- src/types.h leave in a variable.
use mod_gate.Base.{
  ℕ, ◌+◌, ◌*◌, ◌≡◌, ◌⊎◌, inl, inr, [], ◌∷◌, Bytes, arith, refl, length, take, foldl, length-append,
  ap, ◌∙◌,
}
use mathlib.Core.List.{reverse, reverse-append, reverse-reverse, reverse_aux}
use mod_gate.Endian.{swap_endian}

-- The value of a word that a little-endian machine reads from these bytes.
abbrev pub little_endian : Bytes → ℕ
little_endian [] = 0
little_endian (b ∷ m) = b + 256 * little_endian m

-- The value of a word that a big-endian machine reads from these bytes.
abbrev pub big_endian : Bytes → ℕ
big_endian m = foldl (λ n b. n * 256 + b) 0 m

-- A variable of `size` bytes after `SWAP_…(val)`: the buffer read back at its type.
unfoldable pub swapped : Bytes → Bytes → ℕ → Bytes
unfolding swap_endian
swapped buf val size = take size (swap_endian buf val size)

-- The sizes that `swap_endian` has a case for.
abbrev pub HasCase : ℕ → Type 0
HasCase n = (n ≡ 2) ⊎ (n ≡ 4) ⊎ (n ≡ 8) ⊎ (n ≡ 16)

swapped_two : (buf val : Bytes) → length val ≡ 2 → swapped buf val 2 ≡ reverse val
unfolding swapped
swapped_two buf (a ∷ b ∷ []) e = refl
swapped_two buf _ e = absurd (omega arith)

swapped_four : (buf val : Bytes) → length val ≡ 4 → swapped buf val 4 ≡ reverse val
unfolding swapped
swapped_four buf (a ∷ b ∷ c ∷ d ∷ []) e = refl
swapped_four buf _ e = absurd (omega arith)

swapped_eight : (buf val : Bytes) → length val ≡ 8 → swapped buf val 8 ≡ reverse val
unfolding swapped
swapped_eight buf (a ∷ b ∷ c ∷ d ∷ e ∷ f ∷ g ∷ h ∷ []) len = refl
swapped_eight buf _ len = absurd (omega arith)

swapped_sixteen : (buf val : Bytes) → length val ≡ 16 → swapped buf val 16 ≡ reverse val
unfolding swapped
swapped_sixteen buf (a ∷ b ∷ c ∷ d ∷ e ∷ f ∷ g ∷ h ∷ i ∷ j ∷ k ∷ l ∷ m ∷ n ∷ o ∷ p ∷ []) len = refl
swapped_sixteen buf _ len = absurd (omega arith)

-- For each size that `swap_endian` has a case for, a variable of that size holds its own bytes in
-- reverse order after the swap, whatever the static buffer held before.
pub swapped-reverse :
    (buf val : Bytes) (size : ℕ)
    → HasCase size
    → length val ≡ size
    → swapped buf val size ≡ reverse val
swapped-reverse buf val size (inl h) e = rw h (swapped_two buf val (e ∙ h))
swapped-reverse buf val size (inr (inl h)) e = rw h (swapped_four buf val (e ∙ h))
swapped-reverse buf val size (inr (inr (inl h))) e = rw h (swapped_eight buf val (e ∙ h))
swapped-reverse buf val size (inr (inr (inr h))) e = rw h (swapped_sixteen buf val (e ∙ h))

length-reverse : (val : Bytes) → length (reverse val) ≡ length val
length-reverse [] = refl
length-reverse (b ∷ m) = omega (
  arith,
  ap length (reverse-append (b ∷ []) m),
  length-append (reverse m) (b ∷ []),
  length-reverse m,
)

-- Swapping twice gives the variable back, whatever the buffer held before either call.
pub swapped-swapped :
    (buf buf' val : Bytes) (size : ℕ)
    → HasCase size
    → length val ≡ size
    → swapped buf' (swapped buf val size) size ≡ val
swapped-swapped buf buf' val size h e =
    rw (swapped-reverse buf val size h e)
      (swapped-reverse buf' (reverse val) size h (length-reverse val ∙ e) ∙ reverse-reverse val)

-- `reverse` pushes the bytes one by one, and each push is a step of the big-endian value.
little_endian-reverse_aux :
    (m acc : Bytes)
    → little_endian (reverse_aux m acc) ≡ foldl (λ n b. n * 256 + b) (little_endian acc) m
little_endian-reverse_aux [] acc = refl
little_endian-reverse_aux (b ∷ m) acc =
    little_endian-reverse_aux m (b ∷ acc) ∙ ap (λ n. foldl (λ n b. n * 256 + b) n m) (omega arith)

little_endian-reverse : (m : Bytes) → little_endian (reverse m) ≡ big_endian m
little_endian-reverse m = little_endian-reverse_aux m []

-- A swapped variable is read in the other byte order: the little-endian value of the result is the
-- big-endian value of the operand, for each size that `swap_endian` has a case for, and whatever its
-- static buffer held before.
pub little_endian-swapped :
    (buf val : Bytes) (size : ℕ)
    → HasCase size
    → length val ≡ size
    → little_endian (swapped buf val size) ≡ big_endian val
little_endian-swapped buf val size h e =
    rw (swapped-reverse buf val size h e) (little_endian-reverse val)
