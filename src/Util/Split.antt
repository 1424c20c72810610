-- ===== src/Util/Split.antt =====
-- `split` of src/util.cpp.
pub mod Laws
use mod_gate.Base.{ℕ, List, [], ◌∷◌, ◌++◌, Bytes, ◌==◌, if◌then◌else◌}

-- `while (std::getline(ss, item, delim)) elems.push_back(item)`, a byte of the stream at a time.
-- `item` is what the current `getline` has extracted. At the end of the stream `getline` fails, and
-- the loop ends, if it has extracted nothing: an item that a delimiter ends is pushed even if it is
-- empty, and the rest behind the last delimiter only if it is not.
unfoldable pub split_loop : Bytes → ℕ → List Bytes → Bytes → List Bytes
split_loop [] delim elems [] = elems
split_loop [] delim elems (c ∷ item) = elems ++ (c ∷ item) ∷ []
split_loop (c ∷ s) delim elems item =
    let next = split_loop s delim (elems ++ item ∷ []) [] in
    let more = split_loop s delim elems (item ++ c ∷ []) in if c == delim then next else more

unfoldable pub split : Bytes → ℕ → List Bytes → List Bytes
unfolding split_loop
split s delim elems = split_loop s delim elems []
