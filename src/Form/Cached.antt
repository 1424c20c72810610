-- ===== src/Form/Cached.antt =====
-- What `queries` and `form_data` of src/request.cpp return, the first time and later.
use mod_gate.Apr.{Apr}
use mod_gate.Base.{
  ℕ, ◌/◌, ◌%◌, ◌≡◌, ◌≢◌, ◌<◌, ◌∙◌, refl, sym, ap, true, List, [], ◌∷◌, ◌++◌, foldl, Option, none,
  some, Bytes, codes, arith, All, All-append, length, map,
}
use mod_gate.Form.Query.{Field, IsField, encoded_field, parse_query_string_lem}
use mod_gate.Form.Reading.{ClientLaws, content_lem}
use mod_gate.Form.{
  Client, Reader, queries, query_from, form_from, form_of_header, form_of_type, parsed, form_data,
  parse_content, contains, form_type, parse_query_string,
}
use mod_gate.Util.Decode.{c_string}
use mod_gate.Util.Encode.RoundTrip.{IsPrintable, encoded, url_encode-encoded}
use mod_gate.Util.Encode.{encode_byte, hex_digit, is_plain, percent_hex}
use mod_gate.Util.Split.Laws.{terminated}

module _ (apr : Apr) (client : Client) where
  query_from_again :
      (r : Reader apr client) (o : Option apr.Table) (a : Option Bytes)
      → r.query_table ≡ o
      → r.args ≡ a
      → queries apr client r ≡ query_from apr client o a r
  unfolding queries
  query_from_again r o a e f =
      ap (λ x. query_from apr client x r.args r) e ∙ ap (λ x. query_from apr client o x r) f

  again :
      (r : Reader apr client) (o : Option apr.Table) (a : Option Bytes)
      → queries apr client r ≡ query_from apr client o a r
      → queries apr client (queries apr client r).1 ≡ queries apr client r
  unfolding queries
  again r (some t) a k = ap (λ x. queries apr client x.1) k
  again r none none k = ap (λ x. queries apr client x.1) k ∙ sym k
  again r none (some a) k = ap (λ x. queries apr client x.1) k ∙ sym k

  -- A second call of `queries` returns the table of the first, and changes nothing.
  pub queries_again :
      (r : Reader apr client) → queries apr client (queries apr client r).1 ≡ queries apr client r
  queries_again r = again r r.query_table r.args (query_from_again r r.query_table r.args refl refl)

-- The bytes of an encoded form, none of which is NUL.
abbrev NoNul : Bytes → Type 0
NoNul s = All (λ c. c ≢ 0) s

c_string-append : (s t : Bytes) → NoNul s → c_string (s ++ (0 ∷ t)) ≡ s
unfolding c_string
c_string-append [] t h = refl
c_string-append (c ∷ s) t (hc, hs) = ground (arith, c_string-append s t hs)

digit_NoNul : (d : ℕ) → d < 16 → hex_digit d ≢ 0
unfolding hex_digit
digit_NoNul d h = ground arith

encode_byte-NoNul : (c : ℕ) → IsPrintable c → NoNul (encode_byte c)
unfolding encode_byte is_plain percent_hex
encode_byte-NoNul c h = ground (arith, digit_NoNul (c / 16), digit_NoNul (c % 16))

encoded-NoNul : (s : Bytes) → All IsPrintable s → NoNul (encoded s)
unfolding encoded
encoded-NoNul [] h = tt
encoded-NoNul (c ∷ s) (hc, hs) =
    All-append _ (encode_byte c) (encoded s) (encode_byte-NoNul c hc) (encoded-NoNul s hs)

field-NoNul : (f : Field) → IsField f → NoNul (encoded_field f)
field-NoNul f h =
    rw (url_encode-encoded f.name, url_encode-encoded f.value)
      (All-append _ (encoded f.name) _ (encoded-NoNul f.name h.name_printable)
        (omega arith, encoded-NoNul f.value h.value_printable))

fields-NoNul : (fs : List Field) → All IsField fs → NoNul (terminated b'&' (map encoded_field fs))
unfolding terminated
fields-NoNul [] h = tt
fields-NoNul (f ∷ fs) (hf, hs) =
    All-append _ (encoded_field f) _ (field-NoNul f hf) (omega arith, fields-NoNul fs hs)

module _ (apr : Apr) (client : Client) (laws : ClientLaws client) where
  form_of_body :
      (fuel : ℕ) (r : Reader apr client) (content_type body : Bytes)
      → r.form_table ≡ none
      → apr.get r.headers_in (codes "Content-Type") ≡ some content_type
      → contains form_type content_type ≡ true
      → r.body ++ laws.bytes r.stream ≡ body
      → length (laws.bytes r.stream) < fuel
      → NoNul body
      → (q : Reader apr client) × (form_data apr client fuel r
          ≡ some (some (parse_query_string apr body apr.make), q))
        × (q.form_table ≡ some (parse_query_string apr body apr.make))
  unfolding form_data
  form_of_body fuel r content_type body no_table header is_form e lt clean =
      let (p, ep, k) = content_lem apr client laws fuel r lt in
      let t : c_string (p.body ++ 0 ∷ []) ≡ body =
        ap (λ x. c_string (x ++ 0 ∷ [])) (k.whole ∙ e) ∙ c_string-append body [] clean in
      (
        (parse_content apr client p).1,
        ap (λ o. form_from apr client fuel o r) no_table
            ∙ ap (λ o. form_of_header apr client fuel o r) header
            ∙ ap (λ b. form_of_type apr client fuel b content_type r) is_form
            ∙ ap (λ o. parsed apr client o) ep
            ∙ ap
                (λ x.
                  some (some (parse_query_string apr x apr.make), (parse_content apr client p).1))
                t,
        ap (λ x. some (parse_query_string apr x apr.make)) t,
      )

  -- For a client none of whose reads fails and whose set-up leaves the body to be read: `form_data`
  -- of a request with the type of a form, whose body has not been read and is an
  -- encoded form with `&` behind each field, printable ASCII in names and values and no empty
  -- value, returns within one round more than the body has bytes the table to which each field has
  -- been merged, in order; called again, with whatever fuel, it returns the same table and changes
  -- nothing.
  pub form_data_lem :
      (fuel later : ℕ) (r : Reader apr client) (content_type : Bytes) (fs : List Field)
      → r.form_table ≡ none
      → r.body ≡ []
      → apr.get r.headers_in (codes "Content-Type") ≡ some content_type
      → contains form_type content_type ≡ true
      → laws.bytes r.stream ≡ terminated b'&' (map encoded_field fs)
      → All IsField fs
      → length (laws.bytes r.stream) < fuel
      → (q : Reader apr client) × (form_data apr client fuel r
          ≡ some (some (foldl (λ u f. apr.merge u f.name f.value) apr.make fs), q))
        × (form_data apr client later q
            ≡ some (some (foldl (λ u f. apr.merge u f.name f.value) apr.make fs), q))
  unfolding form_data
  form_data_lem fuel later r content_type fs no_table empty header is_form e fields lt =
      let text = terminated b'&' (map encoded_field fs) in
      let (q, eq, kept) =
        form_of_body fuel r content_type text no_table header is_form
          (ap (λ x. x ++ laws.bytes r.stream) empty ∙ e) lt (fields-NoNul fs fields) in
      let merged = parse_query_string_lem apr fs apr.make fields in
      (
        q,
        eq ∙ ap (λ t. some (some t, q)) merged,
        ap (λ o. form_from apr client later o q) (kept ∙ ap some merged),
      )
