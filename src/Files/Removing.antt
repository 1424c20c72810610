-- ===== src/Files/Removing.antt =====
-- What `rmdir` of src/apr.cpp removes.
use mod_gate.Base.{
  ℕ, suc, zero, ◌≡◌, ◌⊎◌, true, false, not, Option, none, some, Bytes, ◌==◌, if◌then◌else◌,
}
use mod_gate.Files.{Files, Entry, is_dot, full_path, Statics}

-- The bytes of a destroyed string are still there when they are read: C++ does not promise it.
module _ (fs : Files) (kept : (p : Bytes) → fs.stale p ≡ p) where
  open fs use {World, Dir, dir_open, dir_read, dir_close, dir_remove, file_remove, is_enoent}

  -- From `w` the next entry of the directory is passed by, or is a file that is removed, so that `v` is
  -- left.
  abbrev pub Passes : Bytes → Dir → World → World → Type 0
  Passes path d w v =
      (e : Entry) × (w1 : World) × (dir_read d w ≡ (0, e, w1))
      × (((is_dot e ≡ true) × (w1 ≡ v))
          ⊎ ((is_dot e ≡ false)
              × (e.is_dir ≡ false)
              × (file_remove (full_path (λ p. p) path e.name) w1 ≡ (0, v))))

  -- So it goes for `n` entries.
  abbrev pub Passed : Bytes → Dir → ℕ → World → World → Type 0
  Passed path d zero w w' = w ≡ w'
  Passed path d (suc n) w w' = (v : World) × Passes path d w v × Passed path d n v w'

  abbrev more : ℕ → ℕ → ℕ
  more zero k = k
  more (suc n) k = suc (more n k)

  abbrev statics : ℕ → ℕ → World → Statics fs
  statics a p w = record { apr_status = a; pools = p; world = w }

  -- A result is the status that the code keeps.
  abbrev Agrees : Option (ℕ × Statics fs) → Type 0
  Agrees none = Unit
  Agrees (some (rc, s)) = rc ≡ s.apr_status

  -- A status that is kept: a failure is the result, and a success goes on.
  abbrev checked : (Statics fs → ℕ × Statics fs) → Statics fs → ℕ × Statics fs
  checked rest s = if not (s.apr_status == 0) then (s.apr_status, s) else rest s
