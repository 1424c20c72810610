-- ===== src/Tests/Trees.antt =====
-- A file system of two small trees.
use mod_gate.Base.{
  ℕ, true, false, List, [], ◌∷◌, ◌++◌, Bytes, codes, pos, equal, ◌==◌, if◌then◌else◌,
}
use mod_gate.Files.{Files, Entry, Statics}

abbrev file : Bytes → Entry
file name = record { is_dir = false; name = name }

abbrev directory : Bytes → Entry
directory name = record { is_dir = true; name = name }

-- The directory `/t` with a file, a subdirectory and another file; every other one has one file.
abbrev children : Bytes → List Entry
children path =
    if equal path (codes "/t")
    then file (codes "a") ∷ directory (codes "sub") ∷ file (codes "b") ∷ []
    else directory (codes ".") ∷ file (codes "x") ∷ []

-- What is still to be read of each open directory, the last opened first, and what has been removed.
pub record Disk : Type 0 where
  pub unread : List (Bytes × List Entry)
  pub gone : List Bytes

abbrev read_next : List (Bytes × List Entry) → Disk → ℕ × Entry × Disk
read_next [] w = (2, file [], w)
read_next ((path, []) ∷ ds) w = (2, file [], w)
read_next ((path, e ∷ es) ∷ ds) w = (0, e, record w { unread = (path, es) ∷ ds })

abbrev closed : List (Bytes × List Entry) → List (Bytes × List Entry)
closed [] = []
closed (d ∷ ds) = ds

abbrev vanish : Bytes → Disk → ℕ × Disk
vanish path w = (0, record w { gone = w.gone ++ path ∷ [] })

abbrev disk : Files
disk = record {
  stale = λ p. p;
  World = Disk;
  Dir = Bytes;
  dir_open = λ path w. (0, path, record w { unread = (path, children path) ∷ w.unread });
  dir_read = λ d w. read_next w.unread w;
  dir_close = λ d w. (0, record w { unread = closed w.unread });
  dir_remove = vanish;
  dir_make_recursive = λ path perms w. (0, w);
  file_copy = λ a b w. (0, w);
  file_rename = λ a b w. (0, w);
  file_remove = vanish;
  is_enoent = λ rc. rc == 2;
  eexist = 17;
  owner_all = pos 1792;
}

abbrev untouched : Disk
untouched = record { unread = []; gone = [] }

abbrev start : Statics disk
start = record { apr_status = 0; pools = 0; world = untouched }

abbrev flat : Bytes
flat = codes "/f"

abbrev reading : Bytes → List Entry → List Bytes → Disk
reading path es gone = record { unread = (path, es) ∷ []; gone = gone }

all_gone : Disk
all_gone = record { unread = []; gone = codes "/f/x" ∷ codes "/f" ∷ [] }

abbrev tree : Bytes
tree = codes "/t"

abbrev tree_entries : List Entry
tree_entries = file (codes "a") ∷ directory (codes "sub") ∷ file (codes "b") ∷ []

abbrev past_file : Disk
past_file = reading tree (directory (codes "sub") ∷ file (codes "b") ∷ []) (codes "/t/a" ∷ [])

abbrev past_directory : Disk
past_directory = reading tree (file (codes "b") ∷ []) (codes "/t/a" ∷ [])

abbrev left : Statics disk
left = record {
  apr_status = 0;
  pools = 1;
  world =
      reading tree (file (codes "b") ∷ []) (codes "/t/a" ∷ codes "/t/sub/x" ∷ codes "/t/sub" ∷ []);
}
