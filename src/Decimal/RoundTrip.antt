-- ===== src/Decimal/RoundTrip.antt =====
-- The decimal text of a number, and its reader.
use mod_gate.Base.{
  ℕ, zero, suc, ◌+◌, ◌*◌, ◌/◌, ◌%◌, ◌^◌, ◌<◌, ◌≤◌, ◌≡◌, refl, sym, ap, ◌∙◌, true, false, ◌&&◌, [],
  ◌∷◌, ◌++◌, Bytes, arith, ltb, leb, Bool-cases, inl, inr,
}
use mod_gate.Decimal.{digits, u32_text, read_digits}

abbrev pub IsDigit : ℕ → Type 0
IsDigit c = (b'0' ≤ c) × (c ≤ b'9')

-- `n` is below 10 to the power `fuel`.
abbrev pub Fits : ℕ → ℕ → Type 0
Fits zero n = n ≡ 0
Fits (suc fuel) n = Fits fuel (n / 10)

read_digit :
    (m d : ℕ) (s : Bytes) → d < 10 → read_digits m ((b'0' + d) ∷ s) ≡ read_digits (m * 10 + d) s
unfolding read_digits
read_digit m d s h = ground arith

read_one :
    (n : ℕ) (rest : Bytes) → n < 10 → read_digits 0 ((b'0' + n % 10) ∷ rest) ≡ read_digits n rest
read_one n rest h =
    read_digit 0 (n % 10) rest (omega arith) ∙ ap (λ k. read_digits k rest) (omega arith)

read_digits-digits :
    (fuel n : ℕ) (rest : Bytes)
    → Fits (suc fuel) n
    → read_digits 0 (digits (suc fuel) n rest) ≡ read_digits n rest
unfolding digits
read_digits-digits zero n rest h =
    let small : ltb n 10 ≡ true = ground arith in rw small (read_one n rest (omega arith))
read_digits-digits (suc fuel) n rest h = elim (Bool-cases (ltb n 10)) [
  | inl small ↦ rw small (read_one n rest (ground arith))
  | inr large ↦ rw large (
      read_digits-digits fuel (n / 10) ((b'0' + n % 10) ∷ rest) h
      ∙ read_digit (n / 10) (n % 10) rest (omega arith)
      ∙ ap (λ k. read_digits k rest) (omega arith))
]

-- The text does not begin with a digit.
abbrev pub EndsNumber : Bytes → Type 0
EndsNumber [] = Unit
EndsNumber (c ∷ s) = (leb b'0' c && leb c b'9') ≡ false

read_end : (n : ℕ) (rest : Bytes) → EndsNumber rest → read_digits n rest ≡ (n, rest)
unfolding read_digits
read_end n [] h = refl
read_end n (c ∷ s) h = rw h

-- The text of a number is what `digits` puts before the empty rest.
digits-append : (fuel n : ℕ) (s rest : Bytes) → digits fuel n (s ++ rest) ≡ digits fuel n s ++ rest
unfolding digits
digits-append zero n s rest = refl
digits-append (suc fuel) n s rest = elim (Bool-cases (ltb n 10)) [
  | inl small ↦ rw small
  | inr large ↦ rw large (digits-append fuel (n / 10) ((b'0' + n % 10) ∷ s) rest)
]

-- Every uint32_t that the code prints is read back, with whatever text that begins with no digit
-- behind it: ten digits are enough.
read_digits-u32_text :
    (n : ℕ) (rest : Bytes)
    → n < 2 ^ 32
    → EndsNumber rest
    → read_digits 0 (u32_text n ++ rest) ≡ (n, rest)
unfolding u32_text
read_digits-u32_text n rest h e =
    rw (← digits-append 10 n [] rest)
      (read_digits-digits 9 n rest (omega arith) ∙ read_end n rest e)

-- Two numbers of 32 bits have the same text only if they are the same.
pub u32_text-injective : (m n : ℕ) → m < 2 ^ 32 → n < 2 ^ 32 → u32_text m ≡ u32_text n → m ≡ n
u32_text-injective m n hm hn e =
    ap (λ (r : ℕ × Bytes). r.0)
      (sym (read_digits-u32_text m [] hm tt)
        ∙ ap (λ s. read_digits 0 (s ++ [])) e
        ∙ read_digits-u32_text n [] hn tt)
