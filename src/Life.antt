-- ===== src/Life.antt =====
-- src/apr.cpp: the life of the APR library. The wrappers of files, directories and paths are left out.
pub mod Balance
use mod_gate.Base.{ℕ, ◌+◌, ◌-◌, ◌%◌, ◌^◌, Bool, true, false, ◌==◌, if◌then◌else◌}

-- `refcount`, an unsigned int; whether the library has been initialized; how many times `atexit` will
-- call `apr_terminate`; how many global pools are there; and whether `apr_pool` has been set.
pub record Life : Type 0 where
  pub refcount : ℕ
  pub initialized : Bool
  pub at_exit : ℕ
  pub open_pools : ℕ
  pub pool_set : Bool

-- The statics of the file, before any call.
abbrev pub fresh : Life
fresh = record { refcount = 0; initialized = false; at_exit = 0; open_pools = 0; pool_set = false }

abbrev pub set_up : Life → Life
set_up s = record s {
  initialized = true;
  at_exit = s.at_exit + 1;
  open_pools = s.open_pools + 1;
  pool_set = true;
}

abbrev pub counted : Life → ℕ → Life
counted s n = record s { refcount = n }

unfoldable pub init : Life → Life
init s =
    let n = (s.refcount + 1) % 2 ^ 32 in
    if s.refcount == 0 then counted (set_up s) n else counted s n

-- The pool is destroyed with the last reference; `apr_pool` keeps the pointer.
unfoldable pub destroy : Life → Life
destroy s =
    let n = (s.refcount + 2 ^ 32 - 1) % 2 ^ 32 in
    if n == 0 then record s { refcount = n; open_pools = s.open_pools - 1 } else counted s n
