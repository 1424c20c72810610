-- ===== src/Apr/Table/Bounds.antt =====
-- Where the iterator of src/apr_table.cpp stands, and what it reads there.
use mod_gate.Base.{
  ℕ, zero, suc, ◌<◌, ◌≡◌, ◌≢◌, refl, true, List, [], ◌∷◌, none, Bytes, ℤ, pos, negsuc, length,
  get_elem?, arith, foldl, All,
}
use mod_gate.Apr.Table.{Iterator, fault, bind, seek, key, value, rewind, first, last, next, prev}

-- Before the first element, or at one.
abbrev pub InRange : ℤ → ℕ → Type 0
InRange (pos i) n = i < n
InRange (negsuc zero) n = Unit
InRange (negsuc (suc i)) n = ⊥

abbrev pub IsValid : Iterator → Type 0
IsValid it = InRange it.position (length it.header)

-- The methods that move the iterator.
pub data Move : Type 0 where
  to_next to_prev to_first to_last to_start : Move
  to_index : ℤ → Move

unfoldable pub move : Iterator → Move → Iterator
unfolding next prev first last rewind seek
move it to_next = (next it).0
move it to_prev = (prev it).0
move it to_first = (first it).0
move it to_last = (last it).0
move it to_start = (rewind it).0
move it (to_index i) = (seek it i).0

-- `seek` is not called with an index below -1.
abbrev pub IsLegal : Move → Type 0
IsLegal (to_index (negsuc (suc i))) = ⊥
IsLegal _ = Unit

move_at :
    (h : List (Bytes × Bytes)) (i : ℤ) (m : Move)
    → InRange i (length h)
    → IsLegal m
    → IsValid (move (record { header = h; position = i }) m)
unfolding move
move_at h (pos zero) (to_index (pos k)) v l = ground arith
move_at h (pos (suc i)) (to_index (pos k)) v l = ground arith
move_at h (pos zero) (to_index (negsuc zero)) v l = ground arith
move_at h (pos (suc i)) (to_index (negsuc zero)) v l = ground arith
move_at h (pos zero) (to_index (negsuc (suc k))) v l = elim l [ ]
move_at h (pos (suc i)) (to_index (negsuc (suc k))) v l = elim l [ ]
move_at h (pos zero) _ v l = ground arith
move_at h (pos (suc i)) _ v l = ground arith
move_at h (negsuc zero) (to_index (pos k)) v l = ground arith
move_at h (negsuc zero) (to_index (negsuc zero)) v l = ground arith
move_at h (negsuc zero) (to_index (negsuc (suc k))) v l = elim l [ ]
move_at h (negsuc zero) _ v l = ground arith
move_at h (negsuc (suc i)) _ v l = elim v [ ]

moves_IsValid :
    (ms : List Move) (it : Iterator) → IsValid it → All IsLegal ms → IsValid (foldl move it ms)
moves_IsValid [] it v l = v
moves_IsValid (m ∷ ms) it v (l, ls) =
    moves_IsValid ms (move it m) (move_at it.header it.position m v l) ls

get_elem?-some : (h : List (Bytes × Bytes)) (i : ℕ) → i < length h → get_elem? h i ≢ none
get_elem?-some [] i v = elim v [ ]
get_elem?-some (e ∷ h) zero v = λ c. cc
get_elem?-some (e ∷ h) (suc i) v = get_elem?-some h i (omega arith)

read_at :
    (h : List (Bytes × Bytes)) (i : ℤ)
    → InRange i (length h)
    → (key (record { header = h; position = i }) ≢ fault)
      × (value (record { header = h; position = i }) ≢ fault)
unfolding key value
read_at h (pos i) v = (ground (arith, get_elem?-some h i), ground (arith, get_elem?-some h i))
read_at h (negsuc zero) v = (ground arith, ground arith)
read_at h (negsuc (suc i)) v = elim v [ ]

-- An iterator that has been bound to a table's elements and then moved in any way, with no `seek`
-- below -1, is before the first element or at one, and reads neither a key nor a value from outside
-- of the array.
pub moves-IsValid :
    (h : List (Bytes × Bytes)) (ms : List Move)
    → All IsLegal ms
    → IsValid (foldl move (bind h) ms)
      × (key (foldl move (bind h) ms) ≢ fault)
      × (value (foldl move (bind h) ms) ≢ fault)
unfolding bind
moves-IsValid h ms l =
    let it = foldl move (bind h) ms in
    let v : IsValid it = moves_IsValid ms (bind h) tt l in
    let (k, d) = read_at it.header it.position v in (v, k, d)

-- `seek` does not refuse a negative index: below -1 it leaves the iterator where both reads are
-- outside of the array.
seek_negative :
    (h : List (Bytes × Bytes)) (k : ℕ)
    → ((seek (bind h) (negsuc (suc k))).1 ≡ true)
      × (key (seek (bind h) (negsuc (suc k))).0 ≡ fault)
      × (value (seek (bind h) (negsuc (suc k))).0 ≡ fault)
unfolding seek bind key value
seek_negative h k = (refl, ground arith, ground arith)
