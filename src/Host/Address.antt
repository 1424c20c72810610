-- ===== src/Host/Address.antt =====
-- The number that an address is looked up by.
use mod_gate.Base.{◌+◌, ◌*◌, ◌^◌, ◌<◌, ◌≡◌, arith}
use mod_gate.Host.{ByteOrder, little, big, InAddr, host_address}

-- Each part of the address is a byte.
pub record IsInAddr (a : InAddr) : Type 0 where
  pub first_fits : a.first_byte < 256
  pub second_fits : a.second_byte < 256
  pub third_fits : a.third_byte < 256
  pub fourth_fits : a.fourth_byte < 256

-- `htonl(ipvalue.s_addr)` is the number whose base-256 digits are the four parts of the dotted
-- address, from left to right, on a machine of either byte order, and fits 32 bits.
pub host_address-dotted :
    (order : ByteOrder) (a : InAddr)
    → IsInAddr a
    → (host_address order a
        ≡ ((a.first_byte * 256 + a.second_byte) * 256 + a.third_byte) * 256 + a.fourth_byte)
      × (host_address order a < 2 ^ 32)
unfolding host_address
host_address-dotted little a h = omega arith
host_address-dotted big a h = omega arith

-- Two addresses are looked up by the same number only if all their parts are the same.
pub host_address-injective :
    (order : ByteOrder) (a b : InAddr)
    → IsInAddr a
    → IsInAddr b
    → host_address order a ≡ host_address order b
    → (a.first_byte ≡ b.first_byte)
      × (a.second_byte ≡ b.second_byte)
      × (a.third_byte ≡ b.third_byte)
      × (a.fourth_byte ≡ b.fourth_byte)
host_address-injective order a b ha hb e =
    omega (arith, host_address-dotted order a ha, host_address-dotted order b hb)
