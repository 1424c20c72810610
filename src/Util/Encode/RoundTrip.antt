-- ===== src/Util/Encode/RoundTrip.antt =====
-- Decoding what `url_encode` of src/util.cpp makes.
use mod_gate.Base.{
  ℕ, zero, suc, ◌/◌, ◌%◌, ◌<◌, ◌≤◌, ◌≡◌, refl, equal, equal_iff, sym, ap, ◌∙◌, true, [], ◌∷◌, ◌++◌,
  append-nil, append_assoc, arith, Bytes, codes, length, length-append, All,
}
use mod_gate.Util.Decode.{hex2int, percent, decode_byte, decode_loop, c_string, url_decode}
use mod_gate.Util.Decode.Hex.{
  digit_value, hex2int-digit_value, bit_or-halves, all_below, all_below_sound,
}
use mod_gate.Util.Encode.{hex_digit, encode_byte, encode_loop, url_encode}

-- The encoded text without the buffer: the bytes of each round one behind the other.
unfoldable pub encoded : Bytes → Bytes
encoded [] = []
encoded (c ∷ s) = encode_byte c ++ encoded s

encode_loop-encoded : (s out : Bytes) (high : ℕ) → (encode_loop s out high).0 ≡ out ++ encoded s
unfolding encode_loop encoded
encode_loop-encoded [] out high = sym (append-nil out)
encode_loop-encoded (c ∷ s) out high =
    encode_loop-encoded s (out ++ encode_byte c) _ ∙ append_assoc out (encode_byte c) (encoded s)

pub url_encode-encoded : (url : Bytes) → (url_encode url).0 ≡ encoded url
unfolding url_encode
url_encode-encoded url = encode_loop-encoded url [] 0

-- The bytes that are printed with two digits, or copied.
abbrev pub IsPrintable : ℕ → Type 0
IsPrintable c = (16 ≤ c) × (c < 128)

hex2int-hex_digit : (d : ℕ) → d < 16 → hex2int (hex_digit d) ≡ d
unfolding hex_digit digit_value
hex2int-hex_digit d h = ground (arith, hex2int-digit_value (hex_digit d))

percent-hex_digit :
    (c : ℕ) (rest : Bytes)
    → c < 128
    → percent (hex_digit (c / 16) ∷ hex_digit (c % 16) ∷ rest) ≡ (c, 2)
unfolding percent
percent-hex_digit c rest h =
    ground (arith, hex2int-hex_digit (c / 16), hex2int-hex_digit (c % 16), bit_or-halves c)

decode_loop-encode_byte :
    (fuel c : ℕ) (rest : Bytes)
    → IsPrintable c
    → decode_loop (suc fuel) true (encode_byte c ++ rest) ≡ c ∷ decode_loop fuel true rest
unfolding decode_loop decode_byte encode_byte
decode_loop-encode_byte fuel c rest h = ground (arith, percent-hex_digit c rest)

decode_loop-encoded :
    (s : Bytes) (fuel : ℕ)
    → All IsPrintable s
    → length s ≤ fuel
    → decode_loop fuel true (encoded s) ≡ s
unfolding encoded
decode_loop-encoded [] zero h le = unfold decode_loop in refl
decode_loop-encoded [] (suc fuel) h le = unfold decode_loop in refl
decode_loop-encoded (c ∷ s) zero h le = absurd (omega arith)
decode_loop-encoded (c ∷ s) (suc fuel) (hc, hs) le =
    decode_loop-encode_byte fuel c (encoded s) hc
    ∙ ap (λ t. c ∷ t) (decode_loop-encoded s fuel hs (omega arith))

length-encode_byte : (c : ℕ) → 1 ≤ length (encode_byte c)
unfolding encode_byte
length-encode_byte c = ground arith

-- Every byte of the text takes a round of the encoder, which writes at least one byte.
pub length-encoded : (s : Bytes) → length s ≤ length (encoded s)
unfolding encoded
length-encoded [] = omega arith
length-encoded (c ∷ s) =
    omega (arith, length-append (encode_byte c) (encoded s), length-encode_byte c, length-encoded s)

c_string_self : (s : Bytes) → All IsPrintable s → c_string s ≡ s
unfolding c_string
c_string_self [] h = refl
c_string_self (c ∷ s) (hc, hs) = ground (arith, c_string_self s hs)

-- `url_decode`, with its default argument, gives back every text of ASCII bytes from 16 on that
-- `url_encode` encoded.
pub url_decode-url_encode :
    (url : Bytes) → All IsPrintable url → url_decode true (url_encode url).0 ≡ url
unfolding url_decode
url_decode-url_encode url h =
    rw (url_encode-encoded url, decode_loop-encoded url _ h (length-encoded url))
      (c_string_self url h)

encode_byte-high : (c : ℕ) → 128 ≤ c → encode_byte c ≡ codes "%FF"
unfolding encode_byte
encode_byte-high c h = ground arith

encoded-append : (s t : Bytes) → encoded (s ++ t) ≡ encoded s ++ encoded t
unfolding encoded
encoded-append [] t = refl
encoded-append (c ∷ s) t = simp (encoded-append s t, append_assoc)

encoded_collide : (c d : ℕ) (t : Bytes) → 128 ≤ c → 128 ≤ d → encoded (c ∷ t) ≡ encoded (d ∷ t)
unfolding encoded
encoded_collide c d t hc hd = rw (encode_byte-high c hc, encode_byte-high d hd)

-- Two texts that differ in one byte, from 128 on in both, are encoded alike: no decoder can give
-- such a text back.
url_encode_collide :
    (s t : Bytes) (c d : ℕ)
    → 128 ≤ c
    → 128 ≤ d
    → (url_encode (s ++ c ∷ t)).0 ≡ (url_encode (s ++ d ∷ t)).0
url_encode_collide s t c d hc hd =
    rw (url_encode-encoded, url_encode-encoded, encoded-append s (c ∷ t), encoded-append s (d ∷ t))
      (ap (λ e. encoded s ++ e) (encoded_collide c d t hc hd))

control_table :
    all_below 16
      (λ c. equal (url_decode true (url_encode (c ∷ [])).0) (b'%' ∷ b' ' ∷ hex_digit c ∷ []))
    ≡ true
unfolding url_decode url_encode encode_byte hex_digit equal decode_loop decode_byte percent hex2int
    c_string
control_table = refl

-- A byte below 16 that is encoded alone is not decoded: the decoder returns the percent sign, the
-- blank and the digit that the encoder wrote.
url_decode-control :
    (c : ℕ) → c < 16 → url_decode true (url_encode (c ∷ [])).0 ≡ b'%' ∷ b' ' ∷ hex_digit c ∷ []
url_decode-control c h = (equal_iff _ _).0 (
    all_below_sound 16
      (λ c. equal (url_decode true (url_encode (c ∷ [])).0) (b'%' ∷ b' ' ∷ hex_digit c ∷ [])) c
      control_table h)
