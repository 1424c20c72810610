-- ===== src/Form/Reading.antt =====
-- What `content` of src/request.cpp reads from the client.
use mod_gate.Apr.{Apr}
use mod_gate.Base.{
  ℕ, zero, suc, ◌≡◌, ◌≤◌, ◌<◌, ◌∙◌, refl, sym, ap, inl, inr, true, false, not, ◌&&◌, List, [], ◌∷◌,
  ◌++◌, append_assoc, append-nil, Option, none, some, Bytes, arith, Bool-cases, length,
  length-append, int_eq, int_lt, minus_one,
}
use mod_gate.Form.{
  Block, block, end_of_body, Client, Reader, setup_client_read, content, content_loop,
  content_round, flag_read, check_length,
}

-- What `ap_get_client_block` documents: it yields what is left of the body, in pieces that fit the
-- buffer, and then the end. `bytes` is what is left.
pub data Yields (Stream : Type 0) (bytes : Stream → Bytes) (size : ℕ) (s : Stream)
    : Block × Stream → Type 0 where
  piece :
      (c : ℕ) (rest : Bytes) (s' : Stream)
      → length (c ∷ rest) ≤ size
      → bytes s ≡ (c ∷ rest) ++ bytes s'
      → Yields Stream bytes size s (block c rest, s')
  finish : (s' : Stream) → bytes s ≡ [] → Yields Stream bytes size s (end_of_body, s')

-- A client none of whose reads fails, and whose set-up, also one that fails, leaves the body to be read.
pub record ClientLaws (client : Client) : Type 0 where
  pub bytes : client.Stream → Bytes
  pub set_up : (s : client.Stream) → bytes (client.setup_client_block s).1 ≡ bytes s
  pub should : (s : client.Stream) → bytes (client.should_client_block s).1 ≡ bytes s
  pub yields :
      (size : ℕ) (s : client.Stream)
      → 0 < size
      → Yields client.Stream bytes size s (client.get_client_block size s)

module _ (apr : Apr) (client : Client) (laws : ClientLaws client) where
  open laws use {bytes}

  -- The content is `body`, it has been read to its end, and what is read next is no content.
  pub record IsRead (body : Bytes) (fed : List Bytes) (r : Reader apr client) : Type 0 where
    pub whole : r.body ≡ body
    pub same_fed : r.fed ≡ fed
    pub flagged : r.has_read_content ≡ true

  -- The state after the set-up differs in what is not content.
  pub record SameBody (r r' : Reader apr client) : Type 0 where
    pub same_body : r'.body ≡ r.body
    pub same_fed : r'.fed ≡ r.fed
    pub same_bytes : bytes r'.stream ≡ bytes r.stream

  pub setup-SameBody : (r : Reader apr client) → SameBody r (setup_client_read apr client r).1
  unfolding setup_client_read
  setup-SameBody r = elim (Bool-cases r.has_setup_client_read) [
    | inl e ↦ rw e (record { same_body = refl; same_fed = refl; same_bytes = refl })
    | inr e ↦ elim (Bool-cases (client.setup_client_block r.stream).0) [
      | inr f ↦
          rw (e, f)
            (record { same_body = refl; same_fed = refl; same_bytes = laws.set_up r.stream })
      | inl f ↦
          elim (Bool-cases (client.should_client_block (client.setup_client_block r.stream).1).0) [
            | inl g ↦
                rw (e, f, g)
                  (record {
                    same_body = refl;
                    same_fed = refl;
                    same_bytes = laws.should _ ∙ laws.set_up r.stream;
                  })
            | inr g ↦
                rw (e, f, g)
                  (record {
                    same_body = refl;
                    same_fed = refl;
                    same_bytes = laws.should _ ∙ laws.set_up r.stream;
                  })
          ]
    ]
  ]

  check-SameBody : (r : Reader apr client) → SameBody r (check_length apr client r)
  unfolding check_length
  check-SameBody r =
      elim (Bool-cases
        (not (int_eq r.max_content_length minus_one) && int_lt r.max_content_length r.bytes_sent)) [
          | inl e ↦ rw e (record { same_body = refl; same_fed = refl; same_bytes = refl })
          | inr e ↦ rw e (record { same_body = refl; same_fed = refl; same_bytes = refl })
        ]

  -- The loop's result, for a loop that collects.
  Looped : Reader apr client → Option (Reader apr client) → Type 0
  Looped r none = ⊥
  Looped r (some q) = (q.body ≡ r.body ++ bytes r.stream) × (q.fed ≡ r.fed)

  shifted :
      (r r' : Reader apr client) (b : Bytes) (o : Option (Reader apr client))
      → r'.body ≡ r.body ++ b
      → r'.fed ≡ r.fed
      → bytes r.stream ≡ b ++ bytes r'.stream
      → Looped r' o
      → Looped r o
  unfolding Looped
  shifted r r' b none eb ef es h = h
  shifted r r' b (some q) eb ef es (hb, hf) = (
    hb
        ∙ ap (λ x. x ++ bytes r'.stream) eb
        ∙ append_assoc r.body b (bytes r'.stream)
        ∙ ap (λ x. r.body ++ x) (sym es),
    hf ∙ ef,
  )

  -- What the rest of the loop does, for fewer bytes.
  abbrev Continues : ℕ → Type 0
  Continues fuel =
      (r : Reader apr client)
      → length (bytes r.stream) < fuel
      → Looped r (content_loop apr client fuel false r)

  round :
      (fuel : ℕ) (r : Reader apr client) (o : Block × client.Stream)
      → Continues fuel
      → length (bytes r.stream) < suc fuel
      → Yields client.Stream bytes 4095 r.stream o
      → Looped r (content_round apr client (λ q. content_loop apr client fuel false q) false r o)
  unfolding Looped
  round fuel r _ ih lt (piece c rest s' le eb) =
      let r' : Reader apr client = record r { stream = s'; body = r.body ++ c ∷ rest } in
      shifted r r' (c ∷ rest) _ refl refl eb
        (ih r' (omega (arith, ap length eb, length-append (c ∷ rest) (bytes s'))))
  round fuel r _ ih lt (finish s' eb) = rw eb (sym (append-nil r.body), refl)

  content_loop-Looped : (fuel : ℕ) → Continues fuel
  unfolding content_loop
  content_loop-Looped zero r lt = absurd (omega arith)
  content_loop-Looped (suc fuel) r lt =
      round fuel r (client.get_client_block 4095 r.stream) (content_loop-Looped fuel) lt
        (laws.yields 4095 r.stream (omega arith))

  joined : {x x' y y' : Bytes} → x ≡ x' → y ≡ y' → x ++ y ≡ x' ++ y'
  joined e f = rw (e, f) refl

  finished :
      (r : Reader apr client) (o : Option (Reader apr client)) (body : Bytes) (fed : List Bytes)
      → r.body ++ bytes r.stream ≡ body
      → r.fed ≡ fed
      → Looped r o
      → (q : Reader apr client) × (flag_read apr client o ≡ some q) × IsRead body fed q
  unfolding Looped
  finished r none body fed eb ef h = elim h [ ]
  finished r (some q) body fed eb ef (hb, hf) = (
    record q { has_read_content = true },
    refl,
    record { whole = hb ∙ eb; same_fed = hf ∙ ef; flagged = refl },
  )

  -- For a client whose set-up leaves the body as it is and none of whose reads fails: `content`, called
  -- without a function, ends within one round more than there are bytes left of
  -- the body, and has appended all these bytes to what it had, in order, whatever the lengths of
  -- the blocks, and whether or not the set-up succeeds and the limit is passed.
  pub content_lem :
      (fuel : ℕ) (r : Reader apr client)
      → length (bytes r.stream) < fuel
      → (q : Reader apr client) × (content apr client fuel false r ≡ some q)
        × IsRead (r.body ++ bytes r.stream) r.fed q
  unfolding content
  content_lem fuel r lt =
      let checked = check_length apr client r in
      let ready = (setup_client_read apr client checked).1 in
      let a = check-SameBody r in
      let b = setup-SameBody checked in
      finished ready _ (r.body ++ bytes r.stream) r.fed
        (joined (b.same_body ∙ a.same_body) (b.same_bytes ∙ a.same_bytes)) (b.same_fed ∙ a.same_fed)
        (content_loop-Looped fuel ready
          (omega (arith, ap length b.same_bytes, ap length a.same_bytes)))
