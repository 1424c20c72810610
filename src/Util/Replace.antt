-- ===== src/Util/Replace.antt =====
-- The template `replace` of src/util.hpp, at `std::string`.
pub mod Laws
use mod_gate.Base.{
  ℕ, zero, suc, ◌+◌, Bool, true, false, ◌&&◌, List, [], ◌∷◌, ◌++◌, Option, none, some, Bytes, ◌==◌,
  if◌then◌else◌, length, drop,
}

-- Does the text begin with the pattern?
unfoldable pub starts : Bytes → Bytes → Bool
starts [] s = true
starts (p ∷ ps) [] = false
starts (p ∷ ps) (c ∷ s) = p == c && starts ps s

abbrev pub behind : ℕ → Option (Bytes × Bytes) → Option (Bytes × Bytes)
behind c none = none
behind c (some (before, after)) = some (c ∷ before, after)

-- `source.find(find, pos)` on the text from `pos` on: what stands before the first occurrence, and
-- what stands behind it.
unfoldable pub find_first : Bytes → Bytes → Option (Bytes × Bytes)
unfolding starts
find_first find [] = if starts find [] then some ([], drop (length find) []) else none
find_first find (c ∷ s) =
    let later = behind c (find_first find s) in
    if starts find (c ∷ s) then some ([], drop (length find) (c ∷ s)) else later

-- The loop, with fuel: `done` is the text before `pos`, `rest` the text from there on. `none` means
-- that the fuel ran out.
unfoldable pub replace_loop : ℕ → Bytes → Bytes → Bytes → Bytes → ℕ → Option (Bytes × ℕ)
replace_loop zero find rep done rest num = none
replace_loop (suc fuel) find rep done rest num = elim (find_first find rest) [
  | none ↦ some (done ++ rest, num)
  | some (before, after) ↦ replace_loop fuel find rep (done ++ (before ++ rep)) after (num + 1)
]

-- The new text, and the number of replacements that the function returns.
unfoldable pub replace : ℕ → Bytes → Bytes → Bytes → Option (Bytes × ℕ)
replace fuel source find rep = replace_loop fuel find rep [] source 0
