-- ===== src/Form/Query.antt =====
-- What `parse_query_string` of src/request.cpp makes of an encoded form.
use mod_gate.Apr.{Apr}
use mod_gate.Base.{
  ℕ, ◌/◌, ◌%◌, ◌≡◌, ◌≢◌, ◌<◌, ◌∙◌, refl, ap, true, List, [], ◌∷◌, ◌++◌, foldl, some, Bytes, arith,
  All, All-append, map, length,
}
use mod_gate.Form.{cut, merge_pair, merge_value, parse_query_string}
use mod_gate.Util.Decode.{url_decode}
use mod_gate.Util.Encode.RoundTrip.{
  IsPrintable, url_decode-url_encode, url_encode-encoded, encoded, length-encoded,
}
use mod_gate.Util.Encode.{url_encode, encode_byte, hex_digit, is_plain, is_alnum, percent_hex}
use mod_gate.Util.Split.Laws.{Lacks, terminated, split-terminated}

-- A field of a form.
pub record Field : Type 0 where
  pub name : Bytes
  pub value : Bytes

-- Name and value, encoded, with `=` between them.
abbrev pub encoded_field : Field → Bytes
encoded_field f = (url_encode f.name).0 ++ (b'=' ∷ (url_encode f.value).0)

-- Both texts are ASCII without control characters below 16, and the value is not empty.
pub record IsField (f : Field) : Type 0 where
  pub name_printable : All IsPrintable f.name
  pub value_printable : All IsPrintable f.value
  pub value_ne_nil : f.value ≢ []

-- No byte that ends a name or a field.
abbrev Inner : Bytes → Type 0
Inner s = All (λ c. (c ≢ b'&') × (c ≢ b'=')) s

hex_digit_inner : (d : ℕ) → d < 16 → (hex_digit d ≢ b'&') × (hex_digit d ≢ b'=')
unfolding hex_digit
hex_digit_inner d h = ground arith

encode_byte-Inner : (c : ℕ) → IsPrintable c → Inner (encode_byte c)
unfolding encode_byte is_plain is_alnum percent_hex
encode_byte-Inner c h = ground (arith, hex_digit_inner (c / 16), hex_digit_inner (c % 16))

encoded-Inner : (s : Bytes) → All IsPrintable s → Inner (encoded s)
unfolding encoded
encoded-Inner [] h = tt
encoded-Inner (c ∷ s) (hc, hs) =
    All-append _ (encode_byte c) (encoded s) (encode_byte-Inner c hc) (encoded-Inner s hs)

Inner-Lacks : (s : Bytes) → Inner s → Lacks b'&' s
Inner-Lacks [] h = tt
Inner-Lacks (c ∷ s) ((a, e), hs) = (a, Inner-Lacks s hs)

field-Lacks : (f : Field) → IsField f → Lacks b'&' (encoded_field f)
field-Lacks f h =
    rw (url_encode-encoded f.name, url_encode-encoded f.value)
      (All-append _ (encoded f.name) _ (Inner-Lacks _ (encoded-Inner f.name h.name_printable))
        (omega arith, Inner-Lacks _ (encoded-Inner f.value h.value_printable)))

fields-Lacks : (fs : List Field) → All IsField fs → All (Lacks b'&') (map encoded_field fs)
fields-Lacks [] h = tt
fields-Lacks (f ∷ fs) (hf, hs) = (field-Lacks f hf, fields-Lacks fs hs)

cut-Inner : (s v : Bytes) → Inner s → cut b'=' (s ++ (b'=' ∷ v)) ≡ some (s, v)
unfolding cut
cut-Inner [] v h = refl
cut-Inner (c ∷ s) v ((a, e), hs) = ground (arith, cut-Inner s v hs)

nonempty : (s : Bytes) → s ≢ [] → 0 < length s
nonempty [] h = absurd (h refl)
nonempty (c ∷ s) h = omega arith

encoded_ne_nil : (s : Bytes) → s ≢ [] → encoded s ≢ []
encoded_ne_nil s h e = absurd (omega (arith, nonempty s h, length-encoded s, ap length e))

decoded : (s : Bytes) → All IsPrintable s → url_decode true (encoded s) ≡ s
decoded s h = rw (← url_encode-encoded s) (url_decode-url_encode s h)

module _ (apr : Apr) where
  merge_value_some :
      (t : apr.Table) (k v : Bytes)
      → v ≢ []
      → merge_value apr t k v ≡ apr.merge t (url_decode true k) (url_decode true v)
  merge_value_some t k [] h = absurd (h refl)
  merge_value_some t k (c ∷ v) h = refl

  merge_field :
      (t : apr.Table) (f : Field)
      → IsField f
      → merge_pair apr t (encoded_field f) ≡ apr.merge t f.name f.value
  unfolding merge_pair
  merge_field t f h =
      rw
        (
          url_encode-encoded f.name,
          url_encode-encoded f.value,
          cut-Inner (encoded f.name) (encoded f.value) (encoded-Inner f.name h.name_printable),
        )
        (merge_value_some t (encoded f.name) (encoded f.value)
            (encoded_ne_nil f.value h.value_ne_nil)
          ∙ rw (decoded f.name h.name_printable, decoded f.value h.value_printable) refl)

  merge_fields :
      (fs : List Field) (t : apr.Table)
      → All IsField fs
      → foldl (merge_pair apr) t (map encoded_field fs)
        ≡ foldl (λ u f. apr.merge u f.name f.value) t fs
  merge_fields [] t h = refl
  merge_fields (f ∷ fs) t (hf, hs) =
      ap (λ u. foldl (merge_pair apr) u (map encoded_field fs)) (merge_field t f hf)
      ∙ merge_fields fs (apr.merge t f.name f.value) hs

  -- A form whose fields are encoded by `url_encode`, each with `&` behind it, is parsed into the
  -- table to which each field has been merged, in order, if names and values are printable ASCII and
  -- no value is empty.
  pub parse_query_string_lem :
      (fs : List Field) (t : apr.Table)
      → All IsField fs
      → parse_query_string apr (terminated b'&' (map encoded_field fs)) t
        ≡ foldl (λ u f. apr.merge u f.name f.value) t fs
  unfolding parse_query_string
  parse_query_string_lem fs t h =
      rw (split-terminated (map encoded_field fs) b'&' [] (fields-Lacks fs h)) (merge_fields fs t h)
