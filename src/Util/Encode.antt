-- ===== src/Util/Encode.antt =====
-- `url_encode` of src/util.cpp.
pub mod RoundTrip
pub mod Bounds
use Prim.Native.Nat.{max}
use mod_gate.Base.{
  ℕ, suc, ◌+◌, ◌-◌, ◌*◌, ◌/◌, ◌%◌, Bool, ◌||◌, ◌&&◌, List, [], ◌∷◌, ◌++◌, Bytes, ltb, leb, ◌==◌,
  if◌then◌else◌, length, take,
}

-- `isalnum` in the C locale.
unfoldable pub is_alnum : ℕ → Bool
is_alnum c = leb b'0' c && leb c b'9' || leb b'A' c && leb c b'Z' || leb b'a' c && leb c b'z'

-- One hexadecimal digit as `%X` prints it.
unfoldable pub hex_digit : ℕ → ℕ
hex_digit d = if ltb d 10 then b'0' + d else b'A' + (d - 10)

-- `sprintf(dst, "%%%2X", *src)`: the width pads with a blank, and a char from 128 on is negative,
-- so that it is printed as the 32-bit word that it is extended to.
unfoldable pub percent_hex : ℕ → Bytes
unfolding hex_digit
percent_hex c =
    if ltb c 16
    then b'%' ∷ b' ' ∷ hex_digit c ∷ []
    else if ltb c 128
    then b'%' ∷ hex_digit (c / 16) ∷ hex_digit (c % 16) ∷ []
    else b'%'
      ∷ b'F'
      ∷ b'F'
      ∷ b'F'
      ∷ b'F'
      ∷ b'F'
      ∷ b'F'
      ∷ hex_digit (c / 16)
      ∷ hex_digit (c % 16)
      ∷ []

-- Is the byte copied as it is?
unfoldable pub is_plain : ℕ → Bool
unfolding is_alnum
is_plain c = is_alnum c || c == b'.' || c == b'_' || c == b'-'

-- What a round leaves before the new `dst`: `dst = &dst[3]` skips three bytes, whatever was printed.
unfoldable pub encode_byte : ℕ → Bytes
unfolding is_plain percent_hex
encode_byte c =
    if is_plain c then c ∷ [] else if c == b' ' then b'+' ∷ [] else take 3 (percent_hex c)

-- How many bytes from `dst` on a round writes, the NUL of `sprintf` included.
unfoldable pub written : ℕ → ℕ
unfolding is_plain percent_hex
written c = if is_plain c then 1 else if c == b' ' then 1 else length (percent_hex c) + 1

-- The loop over the text: the bytes before `dst`, and the end of the part of the buffer that has
-- been written. The last write is the NUL behind the result.
unfoldable pub encode_loop : Bytes → Bytes → ℕ → Bytes × ℕ
unfolding encode_byte written
encode_loop [] out high = (out, max high (length out + 1))
encode_loop (c ∷ s) out high =
    encode_loop s (out ++ encode_byte c) (max high (length out + written c))

-- `malloc(strlen(url) * 3)`.
unfoldable pub allocated : Bytes → ℕ
allocated url = length url * 3

-- The encoded text, and how many bytes of the buffer the call has written.
unfoldable pub url_encode : Bytes → Bytes × ℕ
unfolding encode_loop
url_encode url = encode_loop url [] 0
