-- ===== src/FileInfo.antt =====
-- src/apr.cpp: `file_info`, the result of `stat`.
use Prim.Native.Nat.{bit_and, bit_or}
use mod_gate.Base.{
  ℕ, Bool, true, false, not, ◌&&◌, Option, none, Bytes, ℤ, pos, ◌==◌, if◌then◌else◌,
}

-- `apr_finfo_t`; `mask` is its field `valid`, which tells the fields that APR has set.
pub record Finfo : Type 0 where
  pub mask : ℕ
  pub filetype : ℕ
  pub user : ℕ
  pub group : ℕ
  pub device : ℕ
  pub inode : ℕ
  pub nlink : ℤ
  pub protection : ℤ
  pub file_size : ℕ
  pub csize : ℕ
  pub atime : ℤ
  pub ctime : ℤ
  pub mtime : ℤ
  pub file_name : Option Bytes
  pub fname : Option Bytes

-- `memset(&_stat, 0, …)`.
unfoldable pub zeroed : Finfo
zeroed = record {
  mask = 0;
  filetype = 0;
  user = 0;
  group = 0;
  device = 0;
  inode = 0;
  nlink = pos 0;
  protection = pos 0;
  file_size = 0;
  csize = 0;
  atime = pos 0;
  ctime = pos 0;
  mtime = pos 0;
  file_name = none;
  fname = none;
}

-- `apr_stat` on a structure, and constants of APR; APR_SUCCESS is 0.
pub record StatCalls : Type 1 where
  pub World : Type 0
  pub apr_stat : Finfo → Bytes → ℕ → World → ℕ × Finfo
  pub apr_incomplete : ℕ
  pub finfo_min : ℕ
  pub finfo_link : ℕ
  pub finfo_ident : ℕ
  pub finfo_name : ℕ
  pub apr_reg : ℕ

-- `_valid` and `_stat`.
pub record FileInfo : Type 0 where
  pub is_valid : Bool
  pub info : Finfo

-- `valid(int flag)`: one of the flags is enough.
unfoldable pub valid_flag : ℕ → FileInfo → Bool
valid_flag flag f = not (bit_and f.info.mask flag == 0)

module _ (calls : StatCalls) where
  open calls use {World, apr_stat, apr_incomplete, finfo_min, finfo_link, finfo_ident, finfo_name}

  unfoldable pub file_info : Bytes → ℕ → World → FileInfo
  unfolding zeroed
  file_info filename want_flags w =
      let flags = bit_or (bit_or (bit_or want_flags finfo_min) finfo_link) finfo_ident in
      let (ret, info) = apr_stat zeroed filename flags w in
      record {
        is_valid = if not (ret == 0) && not (ret == apr_incomplete) then false else true;
        info = info;
      }

  unfoldable pub stat : Bytes → ℕ → World → FileInfo
  unfolding file_info
  stat filename want_flags w = file_info filename want_flags w

  unfoldable pub name : FileInfo → Option Bytes
  unfolding valid_flag
  name f = if valid_flag finfo_name f then f.info.file_name else none
