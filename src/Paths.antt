-- ===== src/Paths.antt =====
-- src/apr.cpp: subpools, the current directory, and the functions on paths.
pub mod Pools
use mod_gate.Base.{
  ℕ, ◌+◌, Bool, true, false, List, [], ◌∷◌, Option, none, some, Bytes, ◌==◌, if◌then◌else◌,
}

-- The pools that live, and the number of the next one. A pool is told by its number.
pub record Memory : Type 0 where
  pub live : List ℕ
  pub fresh : ℕ

-- What a `char*` holds: no value yet, or a string that APR has allocated in a pool, or a literal.
pub data Pointer : Type 0 where
  uninitialised : Pointer
  allocated : ℕ → Bytes → Pointer
  literal : Bytes → Pointer

abbrev pub lives : ℕ → List ℕ → Bool
lives p [] = false
lives p (q ∷ qs) = if p == q then true else lives p qs

abbrev pub without : ℕ → List ℕ → List ℕ
without p [] = []
without p (q ∷ qs) = if p == q then qs else q ∷ without p qs

-- `string(path)`; `none` is the use of a pointer with no value, or into a pool that is gone.
unfoldable pub to_string : Pointer → Memory → Option Bytes
to_string uninitialised m = none
to_string (allocated p s) m = if lives p m.live then some s else none
to_string (literal s) m = some s

-- `subpool::subpool` and `subpool::~subpool`.
unfoldable pub pool_create : Memory → ℕ × Memory
pool_create m = (m.fresh, record { live = m.fresh ∷ m.live; fresh = m.fresh + 1 })

unfoldable pub pool_destroy : ℕ → Memory → Memory
pool_destroy p m = record m { live = without p m.live }

-- The functions of APR: the status, and the string that they store if they store one; the Boolean tells
-- APR_FILEPATH_TRUENAME from APR_FILEPATH_NATIVE.
pub record PathCalls : Type 0 where
  pub filepath_get : ℕ × Option Bytes
  pub filepath_root : Bytes → Bool → ℕ × Option Bytes
  pub filepath_merge : Bytes → Bytes → ℕ × Option Bytes
  pub erelative : ℕ

-- What a pointer holds behind a call that allocates in `p`.
abbrev pub stored : Pointer → ℕ → Option Bytes → Pointer
stored before p none = before
stored before p (some s) = allocated p s

-- `if (*add_path == '/') add_path++`.
unfoldable pub skip_slash : Bytes → Bytes
skip_slash [] = []
skip_slash (c ∷ path) = if c == b'/' then path else c ∷ path

module _ (apr : PathCalls) where
  open apr use {filepath_get, filepath_root, filepath_merge, erelative}

  unfoldable pub cwd : Memory → Option Bytes × Memory
  unfolding to_string pool_create pool_destroy
  cwd m =
      let (s, m') = pool_create m in
      let path = stored uninitialised s filepath_get.1 in (to_string path m', pool_destroy s m')

  unfoldable pub path_is_relative : Bytes → Memory → Bool × Memory
  unfolding pool_create pool_destroy
  path_is_relative path m =
      let (s, m') = pool_create m in
      let (rc, root) = filepath_root path true in (rc == erelative, pool_destroy s m')

  unfoldable pub path_merge : Bytes → Bytes → Memory → Option Bytes × Memory
  unfolding to_string pool_create pool_destroy skip_slash
  path_merge root_path add_path m =
      let (s, m') = pool_create m in
      let (rc, merged) = filepath_merge root_path (skip_slash add_path) in
      (to_string (stored uninitialised s merged) m', pool_destroy s m')

  unfoldable pub path_root : Bytes → Memory → Option Bytes × Memory
  unfolding to_string pool_create pool_destroy
  path_root path m =
      let (s, m') = pool_create m in
      let (rc, root) = filepath_root path false in
      (to_string (stored (literal []) s root) m', pool_destroy s m')
