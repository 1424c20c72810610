-- ===== src/Form.antt =====
-- src/request.cpp: how `Request` reads the body of a request and the tables of its parameters. The
-- methods of `Request` that return a field of the server's structure, or pass their arguments on to
-- the server, are left out.
pub mod Query
pub mod Reading
pub mod Partial
pub mod Line
pub mod Lines
pub mod Report
pub mod Cached
use mod_gate.Apr.{Apr}
use mod_gate.Base.{
  ℕ, zero, suc, ◌+◌, ◌-◌, Bool, true, false, not, ◌&&◌, List, [], ◌∷◌, ◌++◌, foldl, Option, none,
  some, Bytes, codes, equal, ℤ, pos, minus_one, int_eq, int_lt, ◌==◌, if◌then◌else◌, length,
  get_elem?, is_null,
}
use mod_gate.Decimal.{i32_text}
use mod_gate.Util.Decode.{url_decode, c_string}
use mod_gate.Util.Replace.{find_first}
use mod_gate.Util.Split.{split}

-- What `ap_get_client_block` yields: at least one byte, the end of the body (0), or a failure (-1).
pub data Block : Type 0 where
  block : ℕ → Bytes → Block
  end_of_body failed : Block

-- The server's functions on the body of a request. `Stream` is the state of the connection.
pub record Client : Type 1 where
  pub Stream : Type 0
  pub setup_client_block : Stream → Bool × Stream
  pub should_client_block : Stream → Bool × Stream
  pub get_client_block : ℕ → Stream → Block × Stream

-- `i->find("=")`, with the parts before and behind it.
unfoldable pub cut : ℕ → Bytes → Option (Bytes × Bytes)
cut d [] = none
cut d (c ∷ s) =
    let rest = cut d s in
    if c == d then some ([], s) else elim rest [ none ↦ none | some r ↦ some (c ∷ r.0, r.1) ]

-- The search for a text: `x.find(text) != string::npos`.
abbrev pub contains : Bytes → Bytes → Bool
contains text x = not (is_null (find_first text x))

abbrev pub form_type : Bytes
form_type = codes "application/x-www-form-urlencoded"

module _ (apr : Apr) where
  open apr use {Table, make, get, merge}

  -- The rest of a pair behind `=`; a pair with no value is skipped.
  abbrev pub merge_value : Table → Bytes → Bytes → Table
  merge_value t k [] = t
  merge_value t k (c ∷ v) = merge t (url_decode true k) (url_decode true (c ∷ v))

  abbrev pub merge_cut : Table → Option (Bytes × Bytes) → Table
  merge_cut t none = t
  merge_cut t (some p) = merge_value t p.0 p.1

  unfoldable pub merge_pair : Table → Bytes → Table
  unfolding cut
  merge_pair t pair = merge_cut t (cut b'=' pair)

  unfoldable pub parse_query_string : Bytes → Table → Table
  unfolding merge_pair
  parse_query_string text t = foldl merge_pair t (split text b'&' [])

module _ (apr : Apr) (client : Client) where
  open apr use {Table, make, get, merge}
  open client use {Stream, setup_client_block, should_client_block, get_client_block}

  -- The members of `Request` that these methods use, the fields of the server's structure that they
  -- read, and in `fed` the blocks that `content` has passed to its argument `fn`.
  pub record Reader : Type 0 where
    pub form_table : Option Table
    pub query_table : Option Table
    pub body : Bytes
    pub has_read_content : Bool
    pub has_setup_client_read : Bool
    pub error : Bytes
    pub stream : Stream
    pub fed : List Bytes
    pub args : Option Bytes
    pub method : Bytes
    pub headers_in : Table
    pub bytes_sent : ℤ
    pub max_content_length : ℤ

  -- On `_queries` and on `_req->args`.
  abbrev pub query_from : Option Table → Option Bytes → Reader → Table × Reader
  query_from (some t) a r = (t, r)
  query_from none none r = (make, record r { query_table = some make })
  query_from none (some a) r =
      let t = parse_query_string apr a make in (t, record r { query_table = some t })

  unfoldable pub queries : Reader → Table × Reader
  queries r = query_from r.query_table r.args r

  -- `none` is a fault: a string is constructed from NULL if there is no Content-Type.
  unfoldable pub has_form_data : Reader → Option Bool
  has_form_data r =
      if not (equal r.method (codes "POST"))
      then some false
      else elim (get r.headers_in (codes "Content-Type")) [
        | none ↦ none
        | some x ↦ some (contains form_type x)
      ]

  unfoldable pub setup_client_read : Reader → Bool × Reader
  setup_client_read r =
      let (set_up, s1) = setup_client_block r.stream in
      let (should, s2) = should_client_block s1 in
      if r.has_setup_client_read
      then (true, r)
      else if not set_up
      then (
        false,
        record r {
          has_setup_client_read = true;
          stream = s1;
          error = codes "Request::form_data(): setup_client_block failed.";
        },
      )
      else if not should
      then (
        false,
        record r {
          has_setup_client_read = true;
          stream = s2;
          error = codes "Request::form_data(): should_client_block failed.";
        },
      )
      else (true, record r { has_setup_client_read = true; stream = s2 })

  -- The body of the loop of `content`: the block goes to the caller, or behind the content.
  abbrev pub keep_block : Bool → Reader → Bytes → Reader
  keep_block true r b = record r { fed = r.fed ++ b ∷ [] }
  keep_block false r b = record r { body = r.body ++ b }

  -- One round of the loop, on the result of `get_client_block`; `again` is what the next rounds do.
  abbrev pub content_round :
      (Reader → Option Reader) → Bool → Reader → Block × Stream → Option Reader
  content_round again fn r (block c rest, s) =
      again (keep_block fn (record r { stream = s }) (c ∷ rest))
  content_round again fn r (end_of_body, s) = some (record r { stream = s })
  content_round again fn r (failed, s) = some (record r { stream = s })

  -- The loop, with fuel; the buffer takes 4095 bytes.
  unfoldable pub content_loop : ℕ → Bool → Reader → Option Reader
  content_loop zero fn r = none
  content_loop (suc fuel) fn r =
      content_round (λ q. content_loop fuel fn q) fn r (get_client_block 4095 r.stream)

  -- A body that is too long is noted, and read all the same.
  unfoldable pub check_length : Reader → Reader
  check_length r =
      if not (int_eq r.max_content_length minus_one) && int_lt r.max_content_length r.bytes_sent
      then record r {
        error = codes "Request::form_data(): exceded bytes_sent: " ++ i32_text r.max_content_length;
      }
      else r

  abbrev pub flag_read : Option Reader → Option Reader
  flag_read none = none
  flag_read (some r) = some (record r { has_read_content = true })

  -- `content`, for a caller that passes `fn` or not; it reads on if the content has been read.
  unfoldable pub content : ℕ → Bool → Reader → Option Reader
  unfolding check_length setup_client_read
  content fuel fn r =
      let (done, r') = setup_client_read (check_length r) in flag_read (content_loop fuel fn r')

  -- The table that `form_data` keeps and returns.
  abbrev keep_table : Reader → Table → Option Table × Reader
  keep_table r t = (some t, record r { form_table = some t })

  -- Behind `content()`.
  abbrev pub parse_content : Reader → Option Table × Reader
  parse_content r =
      let body' = r.body ++ 0 ∷ [] in
      keep_table (record r { body = body' }) (parse_query_string apr (c_string body') make)

  abbrev pub other_type : Reader → Bytes → Option Table × Reader
  other_type r content_type =
      keep_table (record r { error = codes "Request::form_data(): unsupported content type" })
        (merge make (codes "content-type") content_type)

  abbrev pub parsed : Option Reader → Option (Option Table × Reader)
  parsed none = none
  parsed (some r) = some (parse_content r)

  -- On whether the type is that of a form, and on the type.
  abbrev pub form_of_type : ℕ → Bool → Bytes → Reader → Option (Option Table × Reader)
  form_of_type fuel false content_type r = some (other_type r content_type)
  form_of_type fuel true content_type r = parsed (content fuel false r)

  -- On the result of `headers_in().get("Content-Type")`: NULL is returned if there is none.
  abbrev pub form_of_header : ℕ → Option Bytes → Reader → Option (Option Table × Reader)
  form_of_header fuel none r = some (none, r)
  form_of_header fuel (some content_type) r =
      form_of_type fuel (contains form_type content_type) content_type r

  -- On `_form_data`.
  abbrev pub form_from : ℕ → Option Table → Reader → Option (Option Table × Reader)
  form_from fuel (some t) r = some (some t, r)
  form_from fuel none r = form_of_header fuel (get r.headers_in (codes "Content-Type")) r

  unfoldable pub form_data : ℕ → Reader → Option (Option Table × Reader)
  unfolding content
  form_data fuel r = form_from fuel r.form_table r
