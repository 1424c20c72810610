-- ===== src/Util/Encode/Bounds.antt =====
-- The buffer of `url_encode` of src/util.cpp.
use Prim.Native.Nat.{max}
use mod_gate.Base.{
  ℕ, ◌+◌, ◌*◌, ◌<◌, ◌≤◌, ◌≡◌, ◌↔◌, Bool, [], ◌∷◌, ◌++◌, arith, Bytes, length, length-append, All,
  ◌==◌, ◌||◌, if◌then◌else◌,
}
use mod_gate.Util.Encode.{is_plain, encode_byte, written, encode_loop, url_encode, allocated}

-- A byte that is copied, or a blank: it takes one byte of the buffer, not three.
unfoldable pub is_short : ℕ → Bool
is_short c = is_plain c || c == b' '

-- How many of the bytes are short.
unfoldable pub count_short : Bytes → ℕ
unfolding is_short
count_short [] = 0
count_short (c ∷ s) = (if is_short c then 1 else 0) + count_short s

-- A round below 128 moves `dst` on by all that it writes but the NUL of `sprintf`.
round_size :
    (c : ℕ)
    → c < 128
    → (length (encode_byte c) ≡ (if is_short c then 1 else 3))
      × (written c ≡ (if is_short c then 1 else 4))
unfolding encode_byte written is_short
round_size c h = ground arith

encode_loop_high :
    (s out : Bytes) (high : ℕ)
    → All (λ c. c < 128) s
    → high ≤ length out + 1
    → (encode_loop s out high).1 + 2 * count_short s ≡ length out + 3 * length s + 1
unfolding encode_loop count_short
encode_loop_high [] out high h le = omega arith
encode_loop_high (c ∷ s) out high (hc, hs) le = ground (
  arith,
  round_size c hc,
  length-append out (encode_byte c),
  encode_loop_high s (out ++ encode_byte c) (max high (length out + written c)) hs,
)

-- For an ASCII text the call writes one byte more than three for each byte of the text, less two
-- for each byte that is not printed in hexadecimal.
pub url_encode_written :
    (url : Bytes)
    → All (λ c. c < 128) url
    → (url_encode url).1 + 2 * count_short url ≡ allocated url + 1
unfolding url_encode allocated
url_encode_written url h = omega (arith, encode_loop_high url [] 0 h (omega arith))

-- For an ASCII text the call stays within its buffer exactly if some byte of the text is not
-- printed in hexadecimal: the buffer has no room for the NUL otherwise.
pub url_encode_fits :
    (url : Bytes)
    → All (λ c. c < 128) url
    → ((url_encode url).1 ≤ allocated url) ↔ (1 ≤ count_short url)
url_encode_fits url h = (
  λ fits. omega (arith, url_encode_written url h),
  λ some_short. omega (arith, url_encode_written url h),
)
