-- ===== src/Form/Line.antt =====
-- `read_line` and `read` of src/request.cpp.
use mod_gate.Apr.{Apr}
use mod_gate.Base.{
  ℕ, zero, suc, Bool, true, false, [], ◌∷◌, ◌++◌, Option, none, some, Bytes, ℤ, pos, minus_one,
  ◌==◌, if◌then◌else◌, length, get_elem?,
}
use mod_gate.Form.{Block, block, end_of_body, failed, Client, Reader, setup_client_read}

-- `content += buff`, where a NUL ends `buff`.
abbrev pub append_char : Bytes → ℕ → Bytes
append_char text zero = text
append_char text (suc c) = text ++ suc c ∷ []

-- `content[length - 2]`; there is no such byte for a text of one.
abbrev pub second_from : Bytes → ℕ → Option ℕ
second_from text zero = none
second_from text (suc zero) = none
second_from text (suc (suc n)) = get_elem? text n

abbrev pub second_last : Bytes → Option ℕ
second_last text = second_from text (length text)

module _ (apr : Apr) (client : Client) where
  open client use {Stream, get_client_block}

  -- What `read_line` comes to: a text, a read in front of the text, or the end of the fuel.
  pub data Line : Type 0 where
    line : Bytes → Reader apr client → Line
    fault out_of_fuel : Line

  -- `content[content.length() - 2] == '\r'`; `later` is what the next rounds do.
  abbrev pub line_end : Option ℕ → Bytes → Reader apr client → Line → Line
  line_end none text r later = fault
  line_end (some d) text r later = if d == b'\r' then line text r else later

  -- Behind `content += buff`.
  abbrev pub line_tail : (Bytes → Reader apr client → Line) → ℕ → Bytes → Reader apr client → Line
  line_tail again c text r =
      let later = again text r in
      if c == b'\n' then line_end (second_last text) text r later else later

  -- One round of the loop of `read_line`.
  abbrev pub line_round :
      (Bytes → Reader apr client → Line) → Bytes → Reader apr client → Block × Stream → Line
  line_round again text r (block c rest, s) =
      line_tail again c (append_char text c) (record r { stream = s })
  line_round again text r (end_of_body, s) =
      line text (record r { stream = s; has_read_content = true })
  line_round again text r (failed, s) = line text (record r { stream = s; has_read_content = true })

  -- The loop, with fuel.
  unfoldable pub line_loop : ℕ → Bytes → Reader apr client → Line
  line_loop zero text r = out_of_fuel
  line_loop (suc fuel) text r =
      line_round (λ t q. line_loop fuel t q) text r (get_client_block 1 r.stream)

  -- On `has_read_content`.
  abbrev pub line_from : Bool → ℕ → Reader apr client → Line
  line_from true fuel r = line [] r
  line_from false fuel r = let (done, r') = setup_client_read apr client r in line_loop fuel [] r'

  unfoldable pub read_line : ℕ → Reader apr client → Line
  unfolding setup_client_read line_loop
  read_line fuel r = line_from r.has_read_content fuel r

  -- The result, and what is written to the caller's buffer.
  unfoldable pub read : ℕ → Reader apr client → ℤ × Bytes × Reader apr client
  unfolding setup_client_read
  read len r =
      let (done, r') = setup_client_read apr client r in
      let (b, s) = get_client_block len r'.stream in
      if r.has_read_content then (minus_one, [], r) else elim b [
        | block c rest ↦ (pos (length (c ∷ rest)), c ∷ rest, record r' { stream = s })
        | end_of_body ↦ (pos 0, [], record r' { stream = s; has_read_content = true })
        | failed ↦ (minus_one, [], record r' { stream = s; has_read_content = true })
      ]
