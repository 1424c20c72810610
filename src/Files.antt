-- ===== src/Files.antt =====
-- src/apr.cpp: the wrappers of files, directories and paths. The life of the library is in `Life`.
pub mod Removing
use mod_gate.Base.{
  ℕ, suc, zero, ◌+◌, ◌-◌, Bool, true, false, not, ◌&&◌, ◌||◌, [], ◌∷◌, ◌++◌, List, Option, none,
  some, Bytes, codes, equal, ℤ, pos, negsuc, int_eq, ◌==◌, if◌then◌else◌,
}

-- An entry of a directory: whether it is a directory, and its name, which APR sets.
pub record Entry : Type 0 where
  pub is_dir : Bool
  pub name : Bytes

-- What the code calls of APR. `World` is the state of the file system and of the open directories; a
-- status is a number, 0 for APR_SUCCESS. `stale` is what a pointer into the bytes of a string reads once
-- the string has been destroyed, which C++ leaves open.
pub record Files : Type 1 where
  pub World : Type 0
  pub Dir : Type 0
  pub dir_open : Bytes → World → ℕ × Dir × World
  pub dir_read : Dir → World → ℕ × Entry × World
  pub dir_close : Dir → World → ℕ × World
  pub dir_remove : Bytes → World → ℕ × World
  pub dir_make_recursive : Bytes → ℤ → World → ℕ × World
  pub file_copy : Bytes → Bytes → World → ℕ × World
  pub file_rename : Bytes → Bytes → World → ℕ × World
  pub file_remove : Bytes → World → ℕ × World
  pub is_enoent : ℕ → Bool
  pub eexist : ℕ
  pub owner_all : ℤ
  pub stale : Bytes → Bytes

-- "." and "..", where the type is read first.
unfoldable pub is_dot : Entry → Bool
is_dot e = e.is_dir && (equal e.name (codes ".") || equal e.name (codes ".."))

-- The path of an entry. The code keeps a pointer into a string that is destroyed at the end of the
-- statement, so that it is read by `stale`.
unfoldable pub full_path : (Bytes → Bytes) → Bytes → Bytes → Bytes
full_path stale path [] = stale (path ++ codes "/")
full_path stale path (c ∷ entry) =
    if c == b'/' then c ∷ entry else stale (path ++ (b'/' ∷ c ∷ entry))

-- An empty path is the current directory.
unfoldable pub directory_path : Bytes → Bytes
directory_path [] = codes "."
directory_path (c ∷ path) = c ∷ path

module _ (fs : Files) where
  open fs use {World, Dir, dir_open, dir_read, dir_close, dir_remove, file_remove, is_enoent}

  -- The static `apr_status`, the pools that `rmdir` has created and not destroyed, and the world.
  pub record Statics : Type 0 where
    pub apr_status : ℕ
    pub pools : ℕ
    pub world : World

  unfoldable pub at_status : Statics → ℕ × World → Statics
  at_status s (rc, w) = record s { apr_status = rc; world = w }

  unfoldable pub subpool_create : Statics → Statics
  subpool_create s = record s { pools = s.pools + 1 }

  unfoldable pub subpool_destroy : Statics → Statics
  subpool_destroy s = record s { pools = s.pools - 1 }

  -- How the loop over a directory ends: with a return from within, behind its last round, or without
  -- fuel.
  pub data Scan : Type 0 where
    returns : Statics → Scan
    read_out : Statics → Scan
    unfinished : Scan

  -- The removal of a subdirectory, with its result; `none` if it does not end.
  abbrev pub Removal : Type 0
  Removal = Bytes → Statics → Option (ℕ × Statics)

  -- Behind the recursive call, whose result is compared with `false`: a success returns, and a failure
  -- goes on.
  unfoldable pub after_subdirectory : (Statics → Scan) → Option (ℕ × Statics) → Scan
  after_subdirectory more none = unfinished
  after_subdirectory more (some (rc, s)) = elim (rc == 0) [ true ↦ returns s | false ↦ more s ]

  unfoldable pub after_file : (Statics → Scan) → Statics → Scan
  unfolding subpool_destroy
  after_file more s = elim (s.apr_status == 0) [
    | true ↦ more s
    | false ↦ returns (subpool_destroy s)
  ]

  -- The body of the loop on an entry.
  unfoldable pub remove_entry : Removal → Bytes → (Statics → Scan) → Entry → Statics → Scan
  unfolding after_subdirectory after_file
  remove_entry removal path more e s = elim (is_dot e) [
    | true ↦ more s
    | false ↦ elim e.is_dir [
      | true ↦ after_subdirectory more (removal (full_path fs.stale path e.name) s)
      | false ↦ after_file more (at_status s (file_remove (full_path fs.stale path e.name) s.world))
    ]
  ]

  -- A round, on what `apr_dir_read` yields.
  unfoldable pub scan_round :
      Removal → Bytes → (Statics → Scan) → Statics → ℕ × Entry × World → Scan
  unfolding remove_entry
  scan_round removal path more s (rc, e, w) =
      let s' = at_status s (rc, w) in
      elim (rc == 0) [ false ↦ read_out s' | true ↦ remove_entry removal path more e s' ]

  -- The loop, with fuel for its rounds.
  unfoldable pub scan : ℕ → Removal → Bytes → Dir → Statics → Scan
  unfolding scan_round
  scan zero removal path this_dir s = unfinished
  scan (suc rounds) removal path this_dir s =
      scan_round removal path (scan rounds removal path this_dir) s (dir_read this_dir s.world)

  unfoldable pub remove_directory : Bytes → Statics → ℕ × Statics
  remove_directory path s =
      let s' = at_status s (dir_remove path s.world) in
      if not (s'.apr_status == 0) then (s'.apr_status, s') else (0, s')

  unfoldable pub close_directory : Bytes → Dir → Statics → ℕ × Statics
  unfolding remove_directory
  close_directory path this_dir s =
      let s' = at_status s (dir_close this_dir s.world) in
      if not (s'.apr_status == 0) then (s'.apr_status, s') else remove_directory path s'

  -- From the end of the loop on.
  unfoldable pub rmdir_end : Bytes → Dir → Scan → Option (ℕ × Statics)
  unfolding close_directory subpool_destroy
  rmdir_end path this_dir unfinished = none
  rmdir_end path this_dir (returns s) = some (s.apr_status, s)
  rmdir_end path this_dir (read_out s) =
      let s' = subpool_destroy s in
      some (
        if not (is_enoent s'.apr_status)
        then (s'.apr_status, s')
        else close_directory path this_dir s')

  -- On what `apr_dir_open` yields, with the loop that follows.
  unfoldable pub rmdir_opened :
      (Dir → Statics → Scan) → Bytes → Statics → ℕ × Dir × World → Option (ℕ × Statics)
  unfolding rmdir_end subpool_create
  rmdir_opened loop path s (rc, this_dir, w) =
      let s' = at_status s (rc, w) in
      if not (rc == 0)
      then some (rc, s')
      else rmdir_end path this_dir (loop this_dir (subpool_create s'))

  -- `rmdir`, with fuel for the depth of directories and for the rounds of each loop.
  unfoldable pub rmdir : ℕ → ℕ → Removal
  unfolding rmdir_opened
  rmdir zero rounds path s = none
  rmdir (suc depth) rounds path s =
      let path' = directory_path path in
      rmdir_opened (scan rounds (rmdir depth rounds) path') path' s (dir_open path' s.world)

  unfoldable pub mkdir : Bytes → ℤ → Statics → ℕ × Statics
  mkdir path perms s =
      let perms' = if int_eq perms (negsuc 0) then fs.owner_all else perms in
      let s' = at_status s (fs.dir_make_recursive path perms' s.world) in
      if (s'.apr_status == 0) || (s'.apr_status == fs.eexist) then (0, s') else (s'.apr_status, s')

  -- 1 for success.
  unfoldable pub cp : Bytes → Bytes → Statics → ℕ × Statics
  cp source_path dest_path s =
      let s' = at_status s (fs.file_copy source_path dest_path s.world) in
      if s'.apr_status == 0 then (1, s') else (0, s')

  unfoldable pub mv : Bytes → Bytes → Statics → ℕ × Statics
  mv source_path dest_path s =
      let (rc, w) = fs.file_rename source_path dest_path s.world in (rc, record s { world = w })

  unfoldable pub rm : Bytes → Statics → ℕ × Statics
  rm source_path s = let (rc, w) = file_remove source_path s.world in (rc, record s { world = w })
