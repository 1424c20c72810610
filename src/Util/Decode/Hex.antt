-- ===== src/Util/Decode/Hex.antt =====
-- `hex2int` and the byte that `url_decode` makes of two digits, checked against their meaning by a
-- run over all bytes.
use Prim.Native.Nat.{bit_or}
use mod_gate.Base.{
  ℕ, zero, suc, ◌+◌, ◌-◌, ◌*◌, ◌/◌, ◌%◌, ◌<◌, ◌≡◌, refl, Bool, true, ◌&&◌, arith, leb, ◌==◌,
  if◌then◌else◌, ==_iff,
}
use mod_gate.Util.Decode.{hex2int}

-- The value of a hexadecimal digit of either case, and 0xFF for any other byte.
unfoldable pub digit_value : ℕ → ℕ
digit_value c =
    if leb b'0' c && leb c b'9'
    then c - b'0'
    else if leb b'A' c && leb c b'F'
    then c - b'A' + 10
    else if leb b'a' c && leb c b'f'
    then c - b'a' + 10
    else 0xFF

abbrev pub all_below : ℕ → (ℕ → Bool) → Bool
all_below zero p = true
all_below (suc n) p = p n && all_below n p

pub all_below_sound : (n : ℕ) (p : ℕ → Bool) (x : ℕ) → all_below n p ≡ true → x < n → p x ≡ true
all_below_sound zero p x h lt = absurd (omega arith)
all_below_sound (suc n) p x h lt = ground (arith, all_below_sound n p x)

hex2int_table : all_below 256 (λ c. hex2int c == digit_value c) ≡ true
unfolding hex2int digit_value
hex2int_table = refl

-- For every byte `hex2int` returns its value as a hexadecimal digit, and 0xFF if it is none.
pub hex2int-digit_value : (c : ℕ) → c < 256 → hex2int c ≡ digit_value c
hex2int-digit_value c h =
    (==_iff (hex2int c) (digit_value c)).0
      (all_below_sound 256 (λ c. hex2int c == digit_value c) c hex2int_table h)

or_table : all_below 256 (λ c. bit_or (c / 16 * 16) (c % 16) % 256 == c) ≡ true
or_table = refl

-- The two halves of a byte, put together as the decoder does.
pub bit_or-halves : (c : ℕ) → c < 256 → bit_or (c / 16 * 16) (c % 16) % 256 ≡ c
bit_or-halves c h =
    (==_iff (bit_or (c / 16 * 16) (c % 16) % 256) c).0
      (all_below_sound 256 (λ c. bit_or (c / 16 * 16) (c % 16) % 256 == c) c or_table h)
