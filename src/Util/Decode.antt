-- ===== src/Util/Decode.antt =====
-- `hex2int` and `url_decode` of src/util.cpp.
pub mod Hex
use Prim.Native.Nat.{bit_or}
use mod_gate.Base.{
  ℕ, zero, suc, ◌+◌, ◌-◌, ◌*◌, ◌%◌, Bool, true, false, not, ◌&&◌, List, [], ◌∷◌, Bytes, ltb, ◌==◌,
  if◌then◌else◌, length, drop,
}

-- `hex` is an unsigned char, and the int that each step computes is cut to a byte. The char that
-- the function returns is read back as an unsigned char by its caller.
unfoldable pub hex2int : ℕ → ℕ
hex2int hex =
    let h : ℕ = (hex + 256 - b'0') % 256 in
    let k : ℕ = if ltb 9 h then (bit_or (h + b'0' - 1) 0x20 % 256 + 256 - b'a' + 11) % 256 else h in
    if ltb 15 k then 0xFF else k

-- `*(src + 1 + i)`, in a text that ends in a NUL.
unfoldable pub byte_at : Bytes → ℕ → ℕ
byte_at [] i = 0
byte_at (c ∷ s) zero = c
byte_at (c ∷ s) (suc i) = byte_at s i

-- One round of the loop: the byte that it leaves at `*dst`, and by how much it moves `src` on
-- besides the step that every round makes. `s` is the text from `src + 1` on.
unfoldable pub percent : Bytes → ℕ × ℕ
unfolding byte_at
percent s =
    let high = hex2int (byte_at s 0) in
    let low = hex2int (byte_at s 1) in
    if not (high == 0xFF)
    then if not (low == 0xFF) then (bit_or (high * 16) low % 256, 2) else (b'%', 0)
    else (b'%', 0)

unfoldable pub decode_byte : Bool → ℕ → Bytes → ℕ × ℕ
decode_byte is_query c s =
    if is_query && c == b'+' then (b' ', 0) else if c == b'%' then percent s else (c, 0)

-- The loop, with fuel. `dst` never passes `src`, so no write is read again, and what stands before
-- `dst` at the end is the list of the bytes written.
unfoldable pub decode_loop : ℕ → Bool → Bytes → Bytes
decode_loop zero is_query s = []
decode_loop (suc fuel) is_query [] = []
decode_loop (suc fuel) is_query (c ∷ s) =
    let r = decode_byte is_query c s in r.0 ∷ decode_loop fuel is_query (drop r.1 s)

-- `string decoded = str`: the bytes before the first NUL.
unfoldable pub c_string : Bytes → Bytes
c_string [] = []
c_string (c ∷ s) = if c == 0 then [] else c ∷ c_string s

-- For a pointer that is not NULL; the caller's `is_query` defaults to true. Each round reads at
-- least one byte, so `strlen` rounds are enough.
unfoldable pub url_decode : Bool → Bytes → Bytes
url_decode is_query url = c_string (decode_loop (length url) is_query url)
