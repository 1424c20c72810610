-- ===== src/Tests/Forms.antt =====
-- Requests with a body.
use mod_gate.Apr.Assoc.{assoc}
use mod_gate.Base.{
  ℕ, zero, suc, ◌-◌, ◌≡◌, ◌≤◌, ◌<◌, refl, ap, true, false, List, [], ◌∷◌, ◌++◌, foldl, map, none,
  some, Bytes, codes, pos, arith, length, take, drop, equal, Bool-cases, inl, inr, if◌then◌else◌,
  lower, same_key, All,
}
use mod_gate.Form.Cached.{form_data_lem}
use mod_gate.Form.Line.{read_line, line}
use mod_gate.Form.Lines.{read_line_lem}
use mod_gate.Form.Query.{Field, IsField, encoded_field, parse_query_string_lem}
use mod_gate.Form.Partial.{
  DeliveryLaws, Delivers, delivered, at_end, broken, Content, content_partial,
}
use mod_gate.Form.Reading.{ClientLaws, Yields, piece, finish}
use mod_gate.Form.{
  Block, block, end_of_body, failed, Client, Reader, content, form_data, parse_query_string,
  contains, form_type, setup_client_read, check_length,
}
use mod_gate.Util.Replace.{find_first, starts}
use mod_gate.Util.Split.Laws.{terminated}

-- A client whose stream is the rest of the body.
abbrev next_block : ℕ → Bytes → Block × Bytes
next_block size [] = (end_of_body, [])
next_block size (c ∷ s) = (block c (take (size - 1) s), drop (size - 1) s)

abbrev pipe : Client
pipe = record {
  Stream = Bytes;
  setup_client_block = λ s. (true, s);
  should_client_block = λ s. (true, s);
  get_client_block = next_block;
}

length-take_le : (n : ℕ) (s : Bytes) → length (take n s) ≤ n
length-take_le zero s = omega arith
length-take_le (suc n) [] = omega arith
length-take_le (suc n) (c ∷ s) = omega (arith, length-take_le n s)

take-drop : (n : ℕ) (s : Bytes) → s ≡ take n s ++ drop n s
take-drop zero s = refl
take-drop (suc n) [] = refl
take-drop (suc n) (c ∷ s) = ap (λ t. c ∷ t) (take-drop n s)

pipe-Yields : (size : ℕ) (s : Bytes) → 0 < size → Yields Bytes (λ t. t) size s (next_block size s)
pipe-Yields size [] lt = finish [] refl
pipe-Yields size (c ∷ s) lt =
    piece c (take (size - 1) s) (drop (size - 1) s) (omega (arith, length-take_le (size - 1) s))
      (ap (λ t. c ∷ t) (take-drop (size - 1) s))

unfoldable pipe_laws : ClientLaws pipe
pipe_laws = record { bytes = λ s. s; set_up = λ s. refl; should = λ s. refl; yields = pipe-Yields }

-- A stream that yields one byte at a time and breaks off when `cd` is left.
abbrev break_off : ℕ → Bytes → Block × Bytes
break_off size [] = (end_of_body, [])
break_off size (c ∷ s) = if equal (c ∷ s) (codes "cd") then (failed, c ∷ s) else (block c [], s)

-- A client whose set-up fails and whose reads break off in the middle.
abbrev broken_pipe : Client
broken_pipe = record {
  Stream = Bytes;
  setup_client_block = λ s. (false, s);
  should_client_block = λ s. (true, s);
  get_client_block = break_off;
}

break_off-Delivers :
    (size : ℕ) (s : Bytes) → 0 < size → Delivers Bytes (λ t. t) size s (break_off size s)
break_off-Delivers size [] lt = at_end [] refl
break_off-Delivers size (c ∷ s) lt = elim (Bool-cases (equal (c ∷ s) (codes "cd"))) [
  | inl e ↦ rw e (broken (c ∷ s))
  | inr e ↦ rw e (delivered c [] s lt refl)
]

unfoldable broken_pipe_laws : DeliveryLaws broken_pipe
broken_pipe_laws = record { bytes = λ s. s; delivers = break_off-Delivers }

abbrev reader : Bytes → Reader assoc pipe
reader stream = record {
  form_table = none;
  query_table = none;
  body = [];
  has_read_content = false;
  has_setup_client_read = false;
  error = [];
  stream = stream;
  fed = [];
  args = none;
  method = codes "POST";
  headers_in = (codes "Content-Type", form_type) ∷ [];
  bytes_sent = pos 0;
  max_content_length = pos 20971520;
}

abbrev broken_reader : Bytes → Reader assoc broken_pipe
broken_reader stream = record {
  form_table = none;
  query_table = none;
  body = [];
  has_read_content = false;
  has_setup_client_read = false;
  error = [];
  stream = stream;
  fed = [];
  args = none;
  method = codes "POST";
  headers_in = (codes "Content-Type", form_type) ∷ [];
  bytes_sent = pos 0;
  max_content_length = pos 20971520;
}

abbrev fields : List Field
fields =
    record { name = codes "q"; value = codes "a&b = c" }
    ∷ record { name = codes "lang"; value = codes "de" }
    ∷ []

fields-IsField : All IsField fields
fields-IsField = (
  record {
    name_printable = omega arith;
    value_printable = omega arith;
    value_ne_nil = λ e. ground arith;
  },
  (
    record {
      name_printable = omega arith;
      value_printable = omega arith;
      value_ne_nil = λ e. ground arith;
    },
    tt,
  ),
)

parse_query_string_lem_example :
    parse_query_string assoc (terminated b'&' (map encoded_field fields)) []
    ≡ foldl (λ u f. assoc.merge u f.name f.value) [] fields
parse_query_string_lem_example = parse_query_string_lem assoc fields [] fields-IsField

content_partial_example :
    Content assoc broken_pipe broken_pipe_laws
      (broken_reader (codes "abcd"))
      (content assoc broken_pipe 9 false (broken_reader (codes "abcd")))
unfolding broken_pipe_laws setup_client_read check_length
content_partial_example =
    content_partial assoc broken_pipe broken_pipe_laws 9 (broken_reader (codes "abcd"))
      (omega arith)

read_line_lem_example :
    (q : Reader assoc pipe) × (read_line assoc pipe 9
        (reader (codes "ab" ++ (b'\r' ∷ b'\n' ∷ codes "cd")))
      ≡ line (codes "ab" ++ (b'\r' ∷ b'\n' ∷ [])) q)
    × (q.stream ≡ codes "cd")
unfolding pipe_laws
read_line_lem_example =
    read_line_lem assoc pipe pipe_laws 9 (codes "ab") (codes "cd")
      (reader (codes "ab" ++ (b'\r' ∷ b'\n' ∷ codes "cd"))) refl (omega arith) refl (omega arith)

typed : assoc.get (reader []).headers_in (codes "Content-Type") ≡ some form_type
unfolding same_key equal lower
typed = refl

is_form : contains form_type form_type ≡ true
unfolding find_first starts
is_form = refl

abbrev posted : Reader assoc pipe
posted = reader (terminated b'&' (map encoded_field fields))

abbrev merged : List (Bytes × Bytes)
merged = foldl (λ u f. assoc.merge u f.name f.value) [] fields

form_data_lem_example :
    (q : Reader assoc pipe) × (form_data assoc pipe
        (suc (length (terminated b'&' (map encoded_field fields))))
        posted
      ≡ some (some merged, q))
    × (form_data assoc pipe 0 q ≡ some (some merged, q))
unfolding pipe_laws
form_data_lem_example =
    form_data_lem assoc pipe pipe_laws (suc (length (terminated b'&' (map encoded_field fields)))) 0
      posted form_type fields refl refl typed is_form refl fields-IsField (omega arith)
