-- ===== src/Form/Report/Sending.antt =====
-- src/request.cpp: send_file.
use mod_gate.Base.{
  ℕ, ◌+◌, ◌-◌, ◌%◌, ◌^◌, ◌≡◌, ◌≢◌, refl, true, not, Bytes, ℤ, pos, negsuc, ltb, ◌==◌, if◌then◌else◌,
  arith, ==_iff, Bool-cases, inl, inr, ◌⊎◌,
}
use mod_gate.FileInfo.{FileInfo, StatCalls, stat}

-- An `apr_size_t` that is returned as an `int`.
unfoldable pub to_int : ℕ → ℤ
to_int n = let m = n % 2 ^ 32 in if ltb m (2 ^ 31) then pos m else negsuc (2 ^ 32 - m - 1)

-- The server's functions on files.
pub record FileSystem : Type 1 where
  pub calls : StatCalls
  pub File : Type 0
  pub file_open : Bytes → calls.World → ℕ × File × calls.World
  pub send_fd : File → ℕ → calls.World → ℕ × ℕ × calls.World
  pub file_close : File → calls.World → calls.World

module _ (fs : FileSystem) where
  open fs use {calls, File, file_open, send_fd, file_close}
  open calls use {World, apr_reg, finfo_min}

  -- The file of a size, on what `apr_file_open` yields; what `sent` holds is returned whatever the
  -- result of `ap_send_fd`.
  unfoldable pub send_opened : ℕ → ℕ × File × World → ℤ × World
  unfolding to_int
  send_opened size (rc, file, w) =
      let (rc', sent, w') = send_fd file size w in
      if not (rc == 0) then (negsuc 0, w) else (to_int sent, file_close file w')

  -- On what `stat` yields: a valid regular file is sent.
  unfoldable pub send_stat : Bytes → FileInfo → World → ℤ × World
  unfolding send_opened
  send_stat path f w =
      if not f.is_valid
      then (negsuc 0, w)
      else if not (f.info.filetype == apr_reg)
      then (negsuc 0, w)
      else send_opened f.info.file_size (file_open path w)

  unfoldable pub send_file : Bytes → World → ℤ × World
  unfolding send_stat stat
  send_file path w = send_stat path (stat calls path finfo_min w) w

  -- What the server documents of its files: how many are open.
  pub record FileLaws : Type 0 where
    pub opens : World → ℕ
    pub open_ok :
        (path : Bytes) (w : World)
        → (file_open path w).0 ≡ 0
        → opens (file_open path w).2 ≡ opens w + 1
    pub open_failed :
        (path : Bytes) (w : World) → (file_open path w).0 ≢ 0 → opens (file_open path w).2 ≡ opens w
    pub sent_open : (f : File) (n : ℕ) (w : World) → opens (send_fd f n w).2 ≡ opens w
    pub closed : (f : File) (w : World) → opens (file_close f w) ≡ opens w - 1

  -- The path names a regular file, and it can be opened.
  abbrev pub Sendable : Bytes → FileInfo → World → Type 0
  Sendable path f w = (f.is_valid ≡ true) × (f.info.filetype ≡ apr_reg) × ((file_open path w).0 ≡ 0)

  -- What `ap_send_fd` puts into `sent` for the whole file.
  abbrev pub sent_size : Bytes → FileInfo → World → ℕ
  sent_size path f w = let (rc, file, w') = file_open path w in (send_fd file f.info.file_size w').1

  module _ (laws : FileLaws) where
    open laws use {opens, open_ok, open_failed, sent_open, closed}

    abbrev pub Fine : Bytes → FileInfo → World → ℤ × World → Type 0
    Fine path f w (answer, w') =
        (opens w' ≡ opens w)
        × ((Sendable path f w × (answer ≡ to_int (sent_size path f w)))
            ⊎ ((¬ Sendable path f w) × (answer ≡ negsuc 0)))

    send_stat-Fine : (path : Bytes) (f : FileInfo) (w : World) → Fine path f w (send_stat path f w)
    unfolding send_stat send_opened
    send_stat-Fine path f w = elim (Bool-cases f.is_valid) [
      | inr e ↦ rw e (refl, inr ((λ s. cc (s.0)), refl))
      | inl v ↦ elim (Bool-cases (f.info.filetype == apr_reg)) [
        | inr e ↦ rw (v, e) (refl, inr ((λ s. cc ((==_iff _ _).1 s.1, e)), refl))
        | inl t ↦ elim (Bool-cases ((file_open path w).0 == 0)) [
          | inr e ↦
              let failed : (file_open path w).0 ≢ 0 = λ z. cc ((==_iff _ _).1 z, e) in
              rw (v, t, e) (open_failed path w failed, inr ((λ s. failed s.2), refl))
          | inl o ↦
              let (rc, file, w') = file_open path w in
              let opened = (==_iff rc 0).0 o in
              rw (v, t, o)
                (
                  omega (
                    arith,
                    open_ok path w opened,
                    sent_open file f.info.file_size w',
                    closed file (send_fd file f.info.file_size w').2,
                  ),
                  inl ((refl, (==_iff _ _).0 t, opened), refl),
                )
        ]
      ]
    ]

    -- A file is sent exactly if the path names a regular file that can be opened, and the answer is then
    -- what the server stores in `sent` for its whole size, as an `int`; otherwise the answer is -1. On
    -- every way as many files are open behind the call as before it.
    pub send_file_lem :
        (path : Bytes) (w : World) → Fine path (stat calls path finfo_min w) w (send_file path w)
    unfolding send_file
    send_file_lem path w = send_stat-Fine path (stat calls path finfo_min w) w
