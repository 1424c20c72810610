-- ===== src/Form/Lines.antt =====
-- What `read_line` of src/request.cpp returns.
use mod_gate.Apr.{Apr}
use mod_gate.Base.{
  ℕ, zero, suc, ◌+◌, ◌≡◌, ◌≢◌, ◌≤◌, ◌∙◌, refl, sym, ap, false, [], ◌∷◌, ◌++◌, append_assoc, some,
  Bytes, ◌==◌, arith, All, length, length-append, get_elem?,
}
use mod_gate.Form.Reading.{ClientLaws, Yields, piece, finish, setup-SameBody}
use mod_gate.Form.Line.{
  Line, line, fault, out_of_fuel, line_loop, line_round, line_tail, line_from, read_line,
  append_char, second_last, second_from,
}
use mod_gate.Form.{Block, block, Client, Reader, setup_client_read}

get_elem_behind : (t : Bytes) (a : ℕ) (u : Bytes) → get_elem? (t ++ (a ∷ u)) (length t) ≡ some a
get_elem_behind [] a u = refl
get_elem_behind (c ∷ t) a u = get_elem_behind t a u

second_last_lem : (t : Bytes) (a b : ℕ) → second_last ((t ++ a ∷ []) ++ b ∷ []) ≡ some a
second_last_lem t a b =
    let e : length ((t ++ a ∷ []) ++ b ∷ []) ≡ suc (suc (length t)) =
      omega (arith, length-append (t ++ a ∷ []) (b ∷ []), length-append t (a ∷ [])) in
    ap (second_from ((t ++ a ∷ []) ++ b ∷ [])) e
    ∙ rw (append_assoc t (a ∷ []) (b ∷ [])) (get_elem_behind t a (b ∷ []))

append_char_plain : (text : Bytes) (c : ℕ) → c ≢ 0 → append_char text c ≡ text ++ c ∷ []
append_char_plain text zero h = absurd (h refl)
append_char_plain text (suc c) h = refl

head_eq : (a b : ℕ) (s t : Bytes) → a ∷ s ≡ b ∷ t → a ≡ b
head_eq a b s t e = cc e

tail_eq : (a b : ℕ) (s t : Bytes) → a ∷ s ≡ b ∷ t → s ≡ t
tail_eq a b s t e = cc e

module _ (apr : Apr) (client : Client) (laws : ClientLaws client) where
  open laws use {bytes}

  -- What a read of one byte yields.
  One : ℕ → Bytes → Block × client.Stream → Type 0
  One c t o = (s' : client.Stream) × (o ≡ (block c [], s')) × (bytes s' ≡ t)

  one :
      (s : client.Stream) (c : ℕ) (t : Bytes) (o : Block × client.Stream)
      → bytes s ≡ c ∷ t
      → Yields client.Stream bytes 1 s o
      → One c t o
  unfolding One
  one s c t _ e (piece d [] s' le eb) =
      (s', rw (head_eq d c (bytes s') t (sym eb ∙ e)) refl, tail_eq d c (bytes s') t (sym eb ∙ e))
  one s c t _ e (piece d (x ∷ rest) s' le eb) = absurd (omega arith)
  one s c t _ e (finish s' eb) = cc (e, eb)

  -- The call has returned this text, and this is left of the body.
  Returned : Bytes → Bytes → Line apr client → Type 0
  Returned text rest (line t q) = (t ≡ text) × (bytes q.stream ≡ rest)
  Returned text rest fault = ⊥
  Returned text rest out_of_fuel = ⊥

  to_line :
      (text rest : Bytes) (o : Line apr client)
      → Returned text rest o
      → (q : Reader apr client) × (o ≡ line text q) × (bytes q.stream ≡ rest)
  unfolding Returned
  to_line text rest (line t q) (e, b) = (q, ap (λ u. line u q) e, b)
  to_line text rest fault h = elim h [ ]
  to_line text rest out_of_fuel h = elim h [ ]

  -- No byte ends the line or the string.
  abbrev pub Plain : Bytes → Type 0
  Plain = All (λ c. (c ≢ b'\n') × (c ≢ 0))

  next_byte :
      (fuel : ℕ) (text : Bytes) (c : ℕ) (t : Bytes) (r : Reader apr client)
      → bytes r.stream ≡ c ∷ t
      → (s' : client.Stream) × (bytes s' ≡ t)
        × (line_loop apr client (suc fuel) text r
            ≡ line_tail apr client
                (λ u q. line_loop apr client fuel u q)
                c
                (append_char text c)
                (record r { stream = s' }))
  unfolding line_loop One
  next_byte fuel text c t r e =
      let (s', eo, eb) =
        one r.stream c t (client.get_client_block 1 r.stream) e
          (laws.yields 1 r.stream (omega arith)) in
      (s', eb, ap (line_round apr client (λ u q. line_loop apr client fuel u q) text r) eo)

  line_tail_plain :
      (again : Bytes → Reader apr client → Line apr client) (c : ℕ) (text : Bytes)
      (r : Reader apr client)
      → c ≢ b'\n'
      → line_tail apr client again c text r ≡ again text r
  line_tail_plain again c text r h = let e : (c == b'\n') ≡ false = ground arith in rw e refl

  line_end_step :
      (fuel : ℕ) (text rest : Bytes) (r : Reader apr client)
      → bytes r.stream ≡ b'\n' ∷ rest
      → Returned
          ((text ++ b'\r' ∷ []) ++ b'\n' ∷ [])
          rest
          (line_loop apr client (suc fuel) (text ++ b'\r' ∷ []) r)
  unfolding Returned
  line_end_step fuel text rest r e =
      let (s', eb, el) = next_byte fuel (text ++ b'\r' ∷ []) b'\n' rest r e in
      rw (el, second_last_lem text b'\r' b'\n') (refl, eb)

  plain_step :
      (fuel : ℕ) (text : Bytes) (c : ℕ) (t : Bytes) (r : Reader apr client)
      → c ≢ b'\n'
      → c ≢ 0
      → bytes r.stream ≡ c ∷ t
      → (r' : Reader apr client) × (bytes r'.stream ≡ t)
        × (line_loop apr client (suc fuel) text r ≡ line_loop apr client fuel (text ++ c ∷ []) r')
  plain_step fuel text c t r h z e =
      let (s', eb, el) = next_byte fuel text c t r e in
      (
        record r { stream = s' },
        eb,
        el
            ∙ line_tail_plain (λ u q. line_loop apr client fuel u q) c (append_char text c)
                (record r { stream = s' }) h
            ∙ ap (λ u. line_loop apr client fuel u (record r { stream = s' }))
                (append_char_plain text c z),
      )

  line_rounds :
      (fuel : ℕ) (text l rest : Bytes) (r : Reader apr client)
      → Plain l
      → bytes r.stream ≡ l ++ (b'\r' ∷ b'\n' ∷ rest)
      → length l + 2 ≤ fuel
      → Returned (text ++ (l ++ (b'\r' ∷ b'\n' ∷ []))) rest (line_loop apr client fuel text r)
  line_rounds zero text l rest r plain e le = absurd (omega arith)
  line_rounds (suc zero) text l rest r plain e le = absurd (omega arith)
  line_rounds (suc (suc fuel)) text [] rest r plain e le =
      let (r', eb, el) =
        plain_step (suc fuel) text b'\r' (b'\n' ∷ rest) r (omega arith) (omega arith) e in
      rw (el, ← append_assoc text (b'\r' ∷ []) (b'\n' ∷ [])) (line_end_step fuel text rest r' eb)
  line_rounds (suc (suc fuel)) text (c ∷ l) rest r ((h, z), plain) e le =
      let (r', eb, el) = plain_step (suc fuel) text c (l ++ (b'\r' ∷ b'\n' ∷ rest)) r h z e in
      rw (el, ← append_assoc text (c ∷ []) (l ++ (b'\r' ∷ b'\n' ∷ [])))
        (line_rounds (suc fuel) (text ++ c ∷ []) l rest r' plain eb (omega arith))

  -- For a client none of whose reads fails and whose set-up leaves the body to be read: if the
  -- content has not been read to its end and the body begins with a line that ends in CR and
  -- LF and holds no LF and no NUL before, then `read_line` returns that line with its CR and LF
  -- after one round for each of its bytes, and leaves what stands behind it.
  pub read_line_lem :
      (fuel : ℕ) (l rest : Bytes) (r : Reader apr client)
      → r.has_read_content ≡ false
      → Plain l
      → bytes r.stream ≡ l ++ (b'\r' ∷ b'\n' ∷ rest)
      → length l + 2 ≤ fuel
      → (q : Reader apr client) × (read_line apr client fuel r ≡ line (l ++ (b'\r' ∷ b'\n' ∷ [])) q)
        × (bytes q.stream ≡ rest)
  unfolding read_line
  read_line_lem fuel l rest r fresh plain e le =
      let r' = (setup_client_read apr client r).1 in
      let k = setup-SameBody apr client laws r in
      let (q, el, eb) = to_line _ _ _ (line_rounds fuel [] l rest r' plain (k.same_bytes ∙ e) le) in
      (q, ap (λ b. line_from apr client b fuel r) fresh ∙ el, eb)

  -- If the content has not been read to its end and what is left of the body begins with LF, then
  -- `read_line` reads in front of its text.
  read_line_fault :
      (fuel : ℕ) (rest : Bytes) (r : Reader apr client)
      → r.has_read_content ≡ false
      → bytes r.stream ≡ b'\n' ∷ rest
      → read_line apr client (suc fuel) r ≡ fault
  unfolding read_line
  read_line_fault fuel rest r fresh e =
      let r' = (setup_client_read apr client r).1 in
      let k = setup-SameBody apr client laws r in
      let (s', eb, el) = next_byte fuel [] b'\n' rest r' (k.same_bytes ∙ e) in
      ap (λ b. line_from apr client b (suc fuel) r) fresh ∙ el
