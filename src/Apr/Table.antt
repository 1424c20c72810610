-- ===== src/Apr/Table.antt =====
-- src/apr_table.cpp: the iterator over the elements of a table, and `join`. The other methods of
-- `table` pass their arguments on to APR.
use mod_gate.Base.{
  ℕ, zero, suc, ◌+◌, ◌-◌, Bool, true, false, ◌&&◌, not, List, [], ◌∷◌, ◌++◌, Option, none, some,
  Bytes, ℤ, pos, negsuc, sub_ℕ, int_eq, int_lt, int_suc, int_pred, minus_one, ◌==◌, ltb,
  if◌then◌else◌, length, get_elem?,
}
pub mod Bounds
pub mod Walk

-- `_h`, the array that the iterator is bound to, as its elements, and `_i`.
pub record Iterator : Type 0 where
  pub header : List (Bytes × Bytes)
  pub position : ℤ

-- What a pointer read yields: the string, NULL, or no defined value.
pub data Read : Type 0 where
  null : Read
  text : Bytes → Read
  fault : Read

-- `iterator(const table&)`, `rebind` and `operator=(const apr_array_header_t*)`.
unfoldable pub bind : List (Bytes × Bytes) → Iterator
bind h = record { header = h; position = minus_one }

unfoldable pub index : Iterator → ℤ
index it = it.position

unfoldable pub seek : Iterator → ℤ → Iterator × Bool
seek it idx =
    if int_lt idx (pos (length it.header))
    then (record it { position = idx }, true)
    else (it, false)

-- `table::operator[](i32)`.
unfoldable pub at_index : List (Bytes × Bytes) → ℤ → Iterator
unfolding bind seek
at_index h idx = (seek (bind h) idx).0

-- `elts[_i]`; an index outside of the array is a fault.
unfoldable pub entry_at : List (Bytes × Bytes) → ℤ → Option (Bytes × Bytes)
entry_at h (pos i) = get_elem? h i
entry_at h (negsuc i) = none

abbrev pub read_key : Option (Bytes × Bytes) → Read
read_key none = fault
read_key (some e) = text e.0

abbrev pub read_data : Option (Bytes × Bytes) → Read
read_data none = fault
read_data (some e) = text e.1

unfoldable pub key : Iterator → Read
unfolding entry_at
key it =
    if not (int_eq it.position minus_one) then read_key (entry_at it.header it.position) else null

-- The method `data`.
unfoldable pub value : Iterator → Read
unfolding entry_at
value it =
    if not (int_eq it.position minus_one) then read_data (entry_at it.header it.position) else null

unfoldable pub rewind : Iterator → Iterator × Bool
rewind it = (record it { position = minus_one }, true)

unfoldable pub first : Iterator → Iterator × Bool
first it = (if ltb 0 (length it.header) then record it { position = pos 0 } else it, true)

unfoldable pub last : Iterator → Iterator × Bool
last it =
    if ltb 0 (length it.header)
    then (record it { position = sub_ℕ (length it.header) 1 }, true)
    else (it, false)

unfoldable pub next : Iterator → Iterator × Bool
next it =
    if int_eq it.position (sub_ℕ (length it.header) 1)
    then (it, false)
    else if ltb 0 (length it.header)
    then (record it { position = int_suc it.position }, true)
    else (it, false)

unfoldable pub prev : Iterator → Iterator × Bool
prev it =
    let i = int_pred it.position in
    if not (int_eq it.position minus_one)
    then (record it { position = i }, not (int_lt i (pos 0)))
    else (it, false)

-- `strm << i.key() << "=" << i.data()`; writing a NULL or an undefined pointer is a fault.
abbrev pub shown : Read → Read → Option Bytes
shown (text k) (text v) = some (k ++ (b'=' ∷ v))
shown _ _ = none

-- The loop of `join`, with fuel; `none` is a fault or the end of the fuel.
unfoldable pub join_loop : ℕ → Iterator → Bytes → Bytes → Option Bytes
join_loop zero it sep out = none
join_loop (suc fuel) it sep out =
    let (it', more) = next it in
    let mark = if int_lt (index it') (sub_ℕ (length it'.header) 1) then sep else [] in
    elim more [
      | false ↦ some out
      | true ↦ elim (shown (key it') (value it')) [
        | none ↦ none
        | some pair ↦ join_loop fuel it' sep (out ++ (pair ++ mark))
      ]
    ]

unfoldable pub join : ℕ → List (Bytes × Bytes) → Bytes → Option Bytes
join fuel elts sep = join_loop fuel (bind elts) sep []

-- `while (i.next()) body(i.key(), i.data())` with a body that changes `S`, with fuel; `none` is a
-- fault or the end of the fuel.
abbrev pub visit : {S : Type 0} → (S → Bytes → Bytes → S) → S → Read → Read → Option S
visit body s (text k) (text v) = some (body s k v)
visit body s _ _ = none

unfoldable pub each : {S : Type 0} → ℕ → Iterator → (S → Bytes → Bytes → S) → S → Option S
each zero it body s = none
each (suc fuel) it body s =
    let (it', more) = next it in
    elim more [
      | false ↦ some s
      | true ↦ elim (visit body s (key it') (value it')) [
        | none ↦ none
        | some s' ↦ each fuel it' body s'
      ]
    ]
