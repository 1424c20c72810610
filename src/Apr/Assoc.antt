-- ===== src/Apr/Assoc.antt =====
-- An APR of association lists, newest first, which behaves as documented: the laws can be met, and
-- tests can run.
use mod_gate.Apr.{Apr, AprLaws, or_else, last_value}
use mod_gate.Base.{
  Bool, true, false, List, [], ◌∷◌, ◌++◌, Option, none, some, ◌≡◌, refl, sym, ap, ◌∙◌, Bytes, equal,
  equal_iff, same_key, if◌then◌else◌, All, Bool-cases, inl, inr,
}
use mod_gate.Apr.Values.{last_value-append}
use mathlib.Core.List.{reverse, reverse-append}

abbrev pub assoc_get {ℓ} :
    {V : Type ℓ} → (Bytes → Bytes → Bool) → List (Bytes × V) → Bytes → Option V
assoc_get same [] k = none
assoc_get same ((j, v) ∷ t) k = if same j k then some v else assoc_get same t k

-- A value added to a key: the old value, a comma, and the new one.
abbrev pub merged_value : Option Bytes → Bytes → Bytes
merged_value none v = v
merged_value (some w) v = w ++ (b',' ∷ b' ' ∷ v)

abbrev pub without : Bytes → List (Bytes × Bytes) → List (Bytes × Bytes)
without k [] = []
without k ((j, v) ∷ t) = if same_key j k then without k t else (j, v) ∷ without k t

abbrev pub drop_key {ℓ} : {V : Type ℓ} → Bytes → List (Bytes × V) → List (Bytes × V)
drop_key k [] = []
drop_key k ((j, v) ∷ t) = let rest = drop_key k t in if equal k j then rest else (j, v) ∷ rest

-- The newest entry of each key.
abbrev pub assoc_entries {ℓ} : {V : Type ℓ} → List (Bytes × V) → List (Bytes × V)
assoc_entries [] = []
assoc_entries ((k, v) ∷ t) = (k, v) ∷ drop_key k (assoc_entries t)

abbrev pub assoc : Apr
assoc = record {
  Table = List (Bytes × Bytes);
  make = [];
  elts = reverse;
  get = assoc_get same_key;
  set = λ t k v. (k, v) ∷ t;
  add = λ t k v. t ++ (k, v) ∷ [];
  merge = λ t k v. (k, merged_value (assoc_get same_key t k) v) ∷ without k t;
  unset = λ t k. without k t;
  clear = λ t. [];
  overlay = λ a b. b ++ a;
  compress_set = λ t. t;
  Hash = λ V. List (Bytes × V);
  hash_make = [];
  hash_get = assoc_get equal;
  hash_set = λ h k v. (k, v) ∷ h;
  hash_entries = assoc_entries;
}

last_value_one :
    (j v k : Bytes) → last_value k ((j, v) ∷ []) ≡ (if same_key j k then some v else none)
last_value_one j v k = refl

or_else-if :
    (b : Bool) (v : Bytes) (o : Option Bytes)
    → (if b then some v else o) ≡ or_else (if b then some v else none) o
or_else-if true v o = refl
or_else-if false v o = refl

assoc_get-last_value :
    (t : List (Bytes × Bytes)) (k : Bytes) → assoc_get same_key t k ≡ last_value k (reverse t)
assoc_get-last_value [] k = refl
assoc_get-last_value ((j, v) ∷ t) k =
    or_else-if (same_key j k) v (assoc_get same_key t k)
    ∙ ap (or_else (if same_key j k then some v else none)) (assoc_get-last_value t k)
    ∙ sym (
        ap (last_value k) (reverse-append ((j, v) ∷ []) t)
        ∙ last_value-append k (reverse t) ((j, v) ∷ []))

equal_refl : (k : Bytes) → equal k k ≡ true
equal_refl k = (equal_iff k k).1 refl

module _ {V : Type 0} where
  assoc_get-drop_key :
      (t : List (Bytes × V)) (k : Bytes) (v : V) (es : List (Bytes × V))
      → All (λ e. assoc_get equal t e.0 ≡ some e.1) es
      → All (λ e. assoc_get equal ((k, v) ∷ t) e.0 ≡ some e.1) (drop_key k es)
  assoc_get-drop_key t k v [] h = tt
  assoc_get-drop_key t k v ((j, u) ∷ es) (h, hs) = elim (Bool-cases (equal k j)) [
    | inl e ↦ rw e (assoc_get-drop_key t k v es hs)
    | inr e ↦ rw e (rw e h, assoc_get-drop_key t k v es hs)
  ]

  assoc_get-assoc_entries :
      (t : List (Bytes × V)) → All (λ e. assoc_get equal t e.0 ≡ some e.1) (assoc_entries t)
  assoc_get-assoc_entries [] = tt
  assoc_get-assoc_entries ((k, v) ∷ t) = (
    rw (equal_refl k) refl,
    assoc_get-drop_key t k v (assoc_entries t) (assoc_get-assoc_entries t),
  )

pub assoc_laws : AprLaws assoc
assoc_laws = record {
  get-make = λ k. refl;
  get-set = λ t k v j. refl;
  hash_get-hash_make = λ V k. refl;
  hash_get-hash_set = λ V h k v j. refl;
  elts-overlay = λ a b. reverse-append b a;
  get-compress_set = assoc_get-last_value;
  last_value-compress_set = λ t k. refl;
  hash_get-hash_entries = λ V h. assoc_get-assoc_entries h;
}
