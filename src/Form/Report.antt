-- ===== src/Form/Report.antt =====
-- src/request.cpp: the text that describes a request (format_pair, table_string, repr).
pub mod Lines
pub mod Sending
use mod_gate.Apr.Table.{Iterator, Read, text, bind, index, key, value, next}
use mod_gate.Base.{
  ℕ, zero, suc, ◌+◌, ◌-◌, ◌%◌, ◌^◌, Bool, true, false, not, ◌||◌, List, [], ◌∷◌, ◌++◌, Option, none,
  some, Bytes, codes, ℤ, pos, negsuc, ltb, ◌==◌, length, take, if◌then◌else◌,
}
use mod_gate.Decimal.{i32_text}

abbrev pub spaces : ℕ → Bytes
spaces zero = []
spaces (suc n) = b' ' ∷ spaces n

-- `%-24s` and `%3i`: a text filled up with blanks on the right or on the left.
unfoldable pub left_justified : ℕ → Bytes → Bytes
left_justified width s = s ++ spaces (width - length s)

unfoldable pub right_justified : ℕ → Bytes → Bytes
right_justified width s = spaces (width - length s) ++ s

-- `snprintf(buf, 255, …)`: the first 254 bytes.
unfoldable pub snprintf_255 : Bytes → Bytes
snprintf_255 s = take 254 s

-- The functions `format_pair` on the text of the value.
unfoldable pub format_pair : Bytes → Bytes → Bytes
unfolding left_justified snprintf_255
format_pair name shown =
    snprintf_255 (codes "    " ++ (left_justified 24 name ++ (codes ": " ++ (shown ++ b'\n' ∷ []))))

-- The line of an element of a table.
unfoldable pub table_line : ℤ → Bytes → Bytes → Bytes
unfolding left_justified right_justified snprintf_255
table_line i name shown = snprintf_255 (
    codes "  "
    ++ (right_justified 3 (i32_text i)
        ++ (b' ' ∷ (left_justified 22 name ++ (codes ": " ++ (shown ++ b'\n' ∷ []))))))

-- A NULL or an undefined pointer is a fault.
abbrev pub line_at : ℤ → Read → Read → Option Bytes
line_at i (text k) (text v) = some (table_line i k v)
line_at i _ _ = none

-- The loop of `table_string`, with fuel; `none` is a fault or the end of the fuel.
unfoldable pub table_loop : ℕ → Iterator → Bytes → Option Bytes
table_loop zero it out = none
table_loop (suc fuel) it out =
    let (it', more) = next it in
    elim more [
      | false ↦ some out
      | true ↦ elim (line_at (index it') (key it') (value it')) [
        | none ↦ none
        | some line ↦ table_loop fuel it' (out ++ line)
      ]
    ]

unfoldable pub table_string : List (Bytes × Bytes) → Option Bytes
unfolding table_loop
table_string elts = table_loop (suc (length elts)) (bind elts) []

-- A value of `format_pair`; a number is already an `i32`.
pub data Field : Type 0 where
  string_field : Option Bytes → Field
  number_field : ℤ → Field

-- `%s` writes "(null)" for a NULL pointer, and `%i` a number.
unfoldable pub field_text : Field → Bytes
field_text (string_field none) = codes "(null)"
field_text (string_field (some s)) = s
field_text (number_field i) = i32_text i

-- What `repr` reads of the request and of its connection; a table is the list of its elements, and
-- `params` is the result of `form_data`, which may be NULL.
pub record Described : Type 0 where
  pub hostname : Option Bytes
  pub document_root : Option Bytes
  pub the_request : Option Bytes
  pub request_method : Option Bytes
  pub status : ℤ
  pub uri : Option Bytes
  pub args : Option Bytes
  pub filename : Option Bytes
  pub path_info : Option Bytes
  pub bytes_sent : ℤ
  pub content_type : Option Bytes
  pub remote_host : Option Bytes
  pub remote_ip : Option Bytes
  pub protocol : Option Bytes
  pub proto_num : ℤ
  pub status_line : Option Bytes
  pub method_number : ℤ
  pub handler : Option Bytes
  pub user : Option Bytes
  pub local_host : Option Bytes
  pub local_ip : Option Bytes
  pub assbackwards : ℤ
  pub proxyreq : ℤ
  pub header_only : ℤ
  pub allowed : ℤ
  pub headers_in : List (Bytes × Bytes)
  pub subprocess_env : List (Bytes × Bytes)
  pub params : Option (List (Bytes × Bytes))
  pub notes : List (Bytes × Bytes)
  pub headers_out : List (Bytes × Bytes)
  pub err_headers_out : List (Bytes × Bytes)

unfoldable pub pairs : Described → List (Bytes × Field)
pairs d =
    (codes "Hostname", string_field d.hostname)
    ∷ (codes "Document Root", string_field d.document_root)
    ∷ (codes "Request", string_field d.the_request)
    ∷ (codes "Method", string_field d.request_method)
    ∷ (codes "Status", number_field d.status)
    ∷ (codes "URI", string_field d.uri)
    ∷ (codes "Args", string_field d.args)
    ∷ (codes "Filename", string_field d.filename)
    ∷ (codes "Path", string_field d.path_info)
    ∷ (codes "Bytes Sent", number_field d.bytes_sent)
    ∷ (codes "Content Type", string_field d.content_type)
    ∷ (codes "Remote Host", string_field d.remote_host)
    ∷ (codes "Remote IP", string_field d.remote_ip)
    ∷ (codes "Protocol", string_field d.protocol)
    ∷ (codes "Proto Number", number_field d.proto_num)
    ∷ (codes "Status Line", string_field d.status_line)
    ∷ (codes "Method Number", number_field d.method_number)
    ∷ (codes "Handler", string_field d.handler)
    ∷ (codes "User", string_field d.user)
    ∷ (codes "Local Host", string_field d.local_host)
    ∷ (codes "Local IP", string_field d.local_ip)
    ∷ (codes "Assbackwards", number_field d.assbackwards)
    ∷ (codes "Proxy Req", number_field d.proxyreq)
    ∷ (codes "Header Only", number_field d.header_only)
    ∷ (codes "Allowed", number_field d.allowed)
    ∷ []

unfoldable pub pair_lines : List (Bytes × Field) → Bytes
unfolding format_pair field_text
pair_lines [] = []
pair_lines ((name, v) ∷ ps) = format_pair name (field_text v) ++ pair_lines ps

-- `out << head << table_string(t) << tail`.
unfoldable pub put_table :
    Bytes → Option (List (Bytes × Bytes)) → Bytes → Option Bytes → Option Bytes
unfolding table_string
put_table head t tail none = none
put_table head none tail (some out) = some out
put_table head (some t) tail (some out) = elim (table_string t) [
  | none ↦ none
  | some lines ↦ some (out ++ (head ++ (lines ++ tail)))
]

-- A table that is left out if it is empty.
unfoldable pub if_any : List (Bytes × Bytes) → Option (List (Bytes × Bytes))
if_any [] = none
if_any (e ∷ t) = some (e ∷ t)

unfoldable pub repr : Described → Option Bytes
unfolding put_table if_any pair_lines pairs
repr d = put_table (codes "Error Headers_out:\n\n") (if_any d.err_headers_out) (codes "\n") (
    put_table (codes "Headers out:\n\n") (if_any d.headers_out) (codes "\n") (
      put_table (codes "Notes:\n\n") (if_any d.notes) [] (
        put_table (codes "POST Parameters:\n\n") d.params [] (
          put_table (codes "Environment Variables:\n\n") (some d.subprocess_env) (codes "\n") (
            put_table (codes "Headers in:\n\n") (some d.headers_in) (codes "\n")
              (some (codes "Request:\n\n" ++ (pair_lines (pairs d) ++ codes "\n"))))))))
