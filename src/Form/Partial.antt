-- ===== src/Form/Partial.antt =====
-- What `content` of src/request.cpp reads from a client whose reads can fail.
use mod_gate.Apr.{Apr}
use mod_gate.Base.{
  ℕ, zero, suc, ◌≡◌, ◌≤◌, ◌<◌, ◌∙◌, ◌⊎◌, refl, sym, ap, inl, inr, true, false, [], ◌∷◌, ◌++◌,
  append_assoc, append-nil, Option, none, some, Bytes, arith, length, length-append,
}
use mod_gate.Form.{
  Block, block, end_of_body, failed, Client, Reader, setup_client_read, content, content_loop,
  content_round, flag_read, check_length,
}

-- What `ap_get_client_block` documents, with what it has still to deliver before and behind: bytes that
-- fit the buffer, the end, or a failure, which can come at any time.
pub data Delivers (Stream : Type 0) (bytes : Stream → Bytes) (size : ℕ) (s : Stream)
    : Block × Stream → Type 0 where
  delivered :
      (c : ℕ) (rest : Bytes) (s' : Stream)
      → length (c ∷ rest) ≤ size
      → bytes s ≡ (c ∷ rest) ++ bytes s'
      → Delivers Stream bytes size s (block c rest, s')
  at_end : (s' : Stream) → bytes s ≡ [] → Delivers Stream bytes size s (end_of_body, s')
  broken : (s' : Stream) → Delivers Stream bytes size s (failed, s')

pub record DeliveryLaws (client : Client) : Type 0 where
  pub bytes : client.Stream → Bytes
  pub delivers :
      (size : ℕ) (s : client.Stream)
      → 0 < size
      → Delivers client.Stream bytes size s (client.get_client_block size s)

module _ (apr : Apr) (client : Client) (laws : DeliveryLaws client) where
  open laws use {bytes}
  open client use {Stream, get_client_block}

  -- Either nothing of the body is left, or a read at the place where it is left has failed.
  abbrev pub Ends : Bytes → Type 0
  Ends left =
      (left ≡ []) ⊎ ((s s' : Stream) × (bytes s ≡ left) × (get_client_block 4095 s ≡ (failed, s')))

  -- What a loop that collects does from a state on.
  abbrev pub Took : Reader apr client → Option (Reader apr client) → Type 0
  Took r none = ⊥
  Took r (some q) =
      (taken left : Bytes) × (bytes r.stream ≡ taken ++ left)
      × (q.body ≡ r.body ++ taken)
      × (q.fed ≡ r.fed)
      × (q.error ≡ r.error)
      × Ends left

  abbrev Continues : ℕ → Type 0
  Continues fuel =
      (r : Reader apr client)
      → length (bytes r.stream) < fuel
      → Took r (content_loop apr client fuel false r)

  -- A block that is kept before the rest is taken.
  further :
      (r r' : Reader apr client) (b : Bytes) (o : Option (Reader apr client))
      → r'.body ≡ r.body ++ b
      → r'.fed ≡ r.fed
      → r'.error ≡ r.error
      → bytes r.stream ≡ b ++ bytes r'.stream
      → Took r' o
      → Took r o
  further r r' b none eb ef ee es h = h
  further r r' b (some q) eb ef ee es (taken, left, split, hb, hf, he, ends) = (
    b ++ taken,
    left,
    es ∙ ap (λ x. b ++ x) split ∙ sym (append_assoc b taken left),
    hb ∙ ap (λ x. x ++ taken) eb ∙ append_assoc r.body b taken,
    hf ∙ ef,
    he ∙ ee,
    ends,
  )

  one_round :
      (fuel : ℕ) (r : Reader apr client) (o : Block × Stream)
      → Continues fuel
      → length (bytes r.stream) < suc fuel
      → get_client_block 4095 r.stream ≡ o
      → Delivers Stream bytes 4095 r.stream o
      → Took r (content_round apr client (λ q. content_loop apr client fuel false q) false r o)
  one_round fuel r _ ih lt e (delivered c rest s' le eb) =
      let r' : Reader apr client = record r { stream = s'; body = r.body ++ c ∷ rest } in
      further r r' (c ∷ rest) _ refl refl refl eb
        (ih r' (omega (arith, ap length eb, length-append (c ∷ rest) (bytes s'))))
  one_round fuel r _ ih lt e (at_end s' eb) =
      ([], [], eb, sym (append-nil r.body), refl, refl, inl refl)
  one_round fuel r _ ih lt e (broken s') =
      ([], bytes r.stream, refl, sym (append-nil r.body), refl, refl, inr (r.stream, s', refl, e))

  loop_took : (fuel : ℕ) → Continues fuel
  unfolding content_loop
  loop_took zero r lt = absurd (omega arith)
  loop_took (suc fuel) r lt =
      one_round fuel r (get_client_block 4095 r.stream) (loop_took fuel) lt refl
        (laws.delivers 4095 r.stream (omega arith))

  setup_keeps :
      (r : Reader apr client)
      → ((setup_client_read apr client r).1.body ≡ r.body)
        × ((setup_client_read apr client r).1.fed ≡ r.fed)
  unfolding setup_client_read
  setup_keeps r = ground arith

  check_keeps :
      (r : Reader apr client)
      → ((check_length apr client r).body ≡ r.body) × ((check_length apr client r).fed ≡ r.fed)
  unfolding check_length
  check_keeps r = ground arith

  -- The state in which `content` begins to read: behind the test of the length and the set-up.
  abbrev pub ready : Reader apr client → Reader apr client
  ready r = (setup_client_read apr client (check_length apr client r)).1

  -- A result of `content`.
  abbrev pub Content : Reader apr client → Option (Reader apr client) → Type 0
  Content r none = ⊥
  Content r (some q) =
      (q.has_read_content ≡ true)
      × ((taken left : Bytes) × (bytes (ready r).stream ≡ taken ++ left)
          × (q.body ≡ r.body ++ taken)
          × (q.fed ≡ r.fed)
          × (q.error ≡ (ready r).error)
          × Ends left)

  flagged :
      (r : Reader apr client) (o : Option (Reader apr client))
      → Took (ready r) o
      → Content r (flag_read apr client o)
  flagged r none h = h
  flagged r (some q) (taken, left, split, hb, hf, he, ends) =
      let (cb, cf) = check_keeps r in
      let (sb, sf) = setup_keeps (check_length apr client r) in
      (refl, (taken, left, split, hb ∙ ap (λ x. x ++ taken) (sb ∙ cb), hf ∙ sf ∙ cf, he, ends))

  -- `content`, called without a function, ends within one round more than the client has bytes to
  -- deliver behind the set-up, whether or not the set-up succeeds, the limit is passed or a read
  -- fails. It has appended the bytes that the client delivered before the first failure, in order, and
  -- all of them if no read failed; it has called no function, has kept the error of the set-up and
  -- of the test of the length, and has set the flag, so that a failure cannot be told from the end.
  pub content_partial :
      (fuel : ℕ) (r : Reader apr client)
      → length (bytes (ready r).stream) < fuel
      → Content r (content apr client fuel false r)
  unfolding content
  content_partial fuel r lt = flagged r _ (loop_took fuel (ready r) lt)
