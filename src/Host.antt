-- ===== src/Host.antt =====
-- What the module asks of the C library and of the operating system.
pub mod Address
use mod_gate.Base.{ℕ, ◌+◌, ◌*◌, ◌/◌, ◌%◌, ◌^◌, ◌<◌, Bool, Option, [], ◌∷◌, ◌++◌, Bytes}
use mod_gate.Endian.Words.{little_endian, big_endian, swapped}

pub data ByteOrder : Type 0 where
  little big : ByteOrder

-- The four bytes of a `struct in_addr`, in the order of memory: network byte order.
pub record InAddr : Type 0 where
  pub first_byte : ℕ
  pub second_byte : ℕ
  pub third_byte : ℕ
  pub fourth_byte : ℕ

abbrev pub in_addr_bytes : InAddr → Bytes
in_addr_bytes a = a.first_byte ∷ a.second_byte ∷ a.third_byte ∷ a.fourth_byte ∷ []

-- The process id, the byte order of the machine, `access(path, R_OK) == 0`, and
-- `inet_pton(AF_INET, …)`, which yields an address exactly if it returns 1.
pub record Host : Type 0 where
  pub pid : ℕ
  pub order : ByteOrder
  pub readable : Bytes → Bool
  pub inet_pton : Bytes → Option InAddr

-- A word of the machine, read from memory.
unfoldable pub load_u32 : ByteOrder → Bytes → ℕ
load_u32 little m = little_endian m
load_u32 big m = big_endian m

-- `htonl` of the C library: it reverses the bytes of a word on a little-endian machine only.
unfoldable pub htonl : ByteOrder → ℕ → ℕ
htonl little x =
    x % 256 * 2 ^ 24 + x / 2 ^ 8 % 256 * 2 ^ 16 + x / 2 ^ 16 % 256 * 2 ^ 8 + x / 2 ^ 24 % 256
htonl big x = x

-- `htonl(ipvalue.s_addr)`.
unfoldable pub host_address : ByteOrder → InAddr → ℕ
unfolding load_u32 htonl
host_address order a = htonl order (load_u32 order (in_addr_bytes a))
