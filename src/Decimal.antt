-- ===== src/Decimal.antt =====
-- Numbers as `<<` of a `std::ostream` and `%i` write them: the addresses and record ids that
-- src/module.cpp and src/gatedb.cpp put into SQL and into log lines.
pub mod RoundTrip
use mod_gate.Base.{
  ℕ, zero, suc, ◌+◌, ◌-◌, ◌*◌, ◌/◌, ◌%◌, Bool, ◌&&◌, [], ◌∷◌, Bytes, ltb, leb, if◌then◌else◌, ℤ,
  pos, negsuc,
}

-- The digits of `n` before `rest`, at most `fuel` of them.
unfoldable pub digits : ℕ → ℕ → Bytes → Bytes
digits zero n rest = rest
digits (suc fuel) n rest =
    let last = (b'0' + n % 10) ∷ rest in
    let more = digits fuel (n / 10) ((b'0' + n % 10) ∷ rest) in if ltb n 10 then last else more

-- `strm << n` for a uint32_t: ten digits are enough.
unfoldable pub u32_text : ℕ → Bytes
unfolding digits
u32_text n = digits 10 n []

-- `strm << i` for an int32_t.
unfoldable pub i32_text : ℤ → Bytes
unfolding u32_text
i32_text (pos n) = u32_text n
i32_text (negsuc n) = b'-' ∷ u32_text (n + 1)

-- Reads digits up to the first byte that is none: the number, and the rest of the text.
unfoldable pub read_digits : ℕ → Bytes → ℕ × Bytes
read_digits n [] = (n, [])
read_digits n (c ∷ s) =
    let more = read_digits (n * 10 + (c - b'0')) s in
    if leb b'0' c && leb c b'9' then more else (n, c ∷ s)
