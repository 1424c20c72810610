-- ===== src/Endian.antt =====
-- src/endian.cpp: `swap_endian`, with its static buffer, and the words that it swaps.
pub mod Words
use mod_gate.Base.{
  ℕ, List, [], ◌∷◌, ◌++◌, Bytes, Option, none, some, ◌==◌, if◌then◌else◌, get_elem?, drop,
}

-- `*((char*)addr + i)`; memory is the list of bytes from `addr` on, and a read behind it yields
-- no defined value: 0 stands for it.
abbrev at : Bytes → ℕ → ℕ
at m i = elim (get_elem? m i) [ none ↦ 0 | some b ↦ b ]

-- The buffer after the call, which is what the call returns a pointer to. The first argument is
-- its content before the call: the buffer is static, and a size with no case leaves it alone.
unfoldable pub swap_endian : Bytes → Bytes → ℕ → Bytes
swap_endian buf addr size =
    if size == 2
    then at addr 1 ∷ at addr 0 ∷ drop 2 buf
    else if size == 4
    then at addr 3 ∷ at addr 2 ∷ at addr 1 ∷ at addr 0 ∷ drop 4 buf
    else if size == 8
    then at addr 7
      ∷ at addr 6
      ∷ at addr 5
      ∷ at addr 4
      ∷ at addr 3
      ∷ at addr 2
      ∷ at addr 1
      ∷ at addr 0
      ∷ drop 8 buf
    else if size == 16
    then at addr 15
      ∷ at addr 14
      ∷ at addr 13
      ∷ at addr 12
      ∷ at addr 11
      ∷ at addr 10
      ∷ at addr 9
      ∷ at addr 8
      ∷ at addr 7
      ∷ at addr 6
      ∷ at addr 5
      ∷ at addr 4
      ∷ at addr 3
      ∷ at addr 2
      ∷ at addr 1
      ∷ at addr 0
      ∷ drop 16 buf
    else buf
