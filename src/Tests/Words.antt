-- ===== src/Tests/Words.antt =====
-- Texts, numbers and words.
use mathlib.Core.List.{reverse}
use mod_gate.Base.{
  ℕ, ◌+◌, ◌*◌, ◌^◌, ◌<◌, ◌≤◌, ◌≡◌, ◌↔◌, inl, inr, refl, true, [], ◌∷◌, some, Bytes, codes, arith,
}
use mod_gate.Endian.Words.{
  little_endian, big_endian, swapped, swapped-reverse, little_endian-swapped,
}
use mod_gate.Host.Address.{IsInAddr, host_address-dotted}
use mod_gate.Host.{InAddr, little, host_address}
use mod_gate.Util.Decode.{url_decode}
use mod_gate.Util.Encode.Bounds.{url_encode_fits, url_encode_written, count_short}
use mod_gate.Util.Encode.RoundTrip.{url_decode-url_encode}
use mod_gate.Util.Encode.{url_encode, allocated}
use mod_gate.Util.Replace.Laws.{Replaced, replace_total}
use mod_gate.Util.Replace.{replace}

abbrev loopback : InAddr
loopback = record { first_byte = 127; second_byte = 0; third_byte = 0; fourth_byte = 1 }

loopback-IsInAddr : IsInAddr loopback
loopback-IsInAddr = record {
  first_fits = omega arith;
  second_fits = omega arith;
  third_fits = omega arith;
  fourth_fits = omega arith;
}

host_address-dotted_example :
    (host_address little loopback ≡ ((127 * 256 + 0) * 256 + 0) * 256 + 1)
    × (host_address little loopback < 2 ^ 32)
host_address-dotted_example = host_address-dotted little loopback loopback-IsInAddr

url_decode-url_encode_example : url_decode true (url_encode (codes "a b/c")).0 ≡ codes "a b/c"
url_decode-url_encode_example = url_decode-url_encode (codes "a b/c") (omega arith)

url_encode_fits_example :
    ((url_encode (codes "//")).1 ≤ allocated (codes "//")) ↔ (1 ≤ count_short (codes "//"))
url_encode_fits_example = url_encode_fits (codes "//") (omega arith)

url_encode_written_example :
    (url_encode (codes "a/")).1 + 2 * count_short (codes "a/") ≡ allocated (codes "a/") + 1
url_encode_written_example = url_encode_written (codes "a/") (omega arith)

replace_total_example :
    (t : Bytes) × (n : ℕ) × (replace 6 (codes "aXbXc") (codes "X") (codes "--") ≡ some (t, n))
    × Replaced (codes "X") (codes "--") (codes "aXbXc") t n
replace_total_example =
    replace_total 6 (codes "aXbXc") (codes "X") (codes "--") (λ e. ground arith) (omega arith)

abbrev word : Bytes
word = 1 ∷ 2 ∷ 3 ∷ 4 ∷ []

swapped-reverse_example : swapped [] word 4 ≡ reverse word
swapped-reverse_example = swapped-reverse [] word 4 (inr (inl refl)) refl

little_endian-swapped_example : little_endian (swapped [] word 4) ≡ big_endian word
little_endian-swapped_example = little_endian-swapped [] word 4 (inr (inl refl)) refl
