-- ===== src/Apr.antt =====
-- The Apache Portable Runtime as the module uses it: its tables and hashes are not part of the
-- sources, so that their operations are a parameter, with the laws that APR documents.
pub mod Table
pub mod Handles
pub mod Values
pub mod Assoc
use mod_gate.Base.{
  ℕ, Bool, List, [], ◌∷◌, ◌++◌, Option, none, some, ◌≡◌, ◌≢◌, Bytes, equal, same_key, if◌then◌else◌,
  All,
}

-- `apr_table_t` holds pairs of strings in order; its keys are compared without regard to case.
-- `apr_hash_t` maps strings to pointers; a key is compared byte by byte.
pub record Apr : Type 1 where
  pub Table : Type 0
  pub make : Table
  pub elts : Table → List (Bytes × Bytes)
  pub get : Table → Bytes → Option Bytes
  pub set : Table → Bytes → Bytes → Table
  pub add : Table → Bytes → Bytes → Table
  pub merge : Table → Bytes → Bytes → Table
  pub unset : Table → Bytes → Table
  pub clear : Table → Table
  pub overlay : Table → Table → Table
  pub compress_set : Table → Table
  pub Hash : Type 0 → Type 0
  pub hash_make : {V : Type 0} → Hash V
  pub hash_get : {V : Type 0} → Hash V → Bytes → Option V
  pub hash_set : {V : Type 0} → Hash V → Bytes → V → Hash V
  pub hash_entries : {V : Type 0} → Hash V → List (Bytes × V)

abbrev pub or_else : Option Bytes → Option Bytes → Option Bytes
or_else none b = b
or_else (some v) b = some v

-- The value of the last element with this key.
abbrev pub last_value : Bytes → List (Bytes × Bytes) → Option Bytes
last_value k [] = none
last_value k ((j, v) ∷ es) = or_else (last_value k es) (if same_key j k then some v else none)

-- The documented behaviour that theorems about the module name as a hypothesis.
pub record AprLaws (apr : Apr) : Type 1 where
  pub get-make : (k : Bytes) → apr.get apr.make k ≡ none
  pub get-set :
      (t : apr.Table) (k v j : Bytes)
      → apr.get (apr.set t k v) j ≡ (if same_key k j then some v else apr.get t j)
  pub hash_get-hash_make : (V : Type 0) (k : Bytes) → apr.hash_get (apr.hash_make {V = V}) k ≡ none
  pub hash_get-hash_set :
      (V : Type 0) (h : apr.Hash V) (k : Bytes) (v : V) (j : Bytes)
      → apr.hash_get (apr.hash_set h k v) j ≡ (if equal k j then some v else apr.hash_get h j)
  pub elts-overlay : (a b : apr.Table) → apr.elts (apr.overlay a b) ≡ apr.elts a ++ apr.elts b
  pub get-compress_set :
      (t : apr.Table) (k : Bytes) → apr.get (apr.compress_set t) k ≡ last_value k (apr.elts t)
  pub last_value-compress_set :
      (t : apr.Table) (k : Bytes)
      → last_value k (apr.elts (apr.compress_set t)) ≡ last_value k (apr.elts t)
  pub hash_get-hash_entries :
      (V : Type 0) (h : apr.Hash V) → All (λ e. apr.hash_get h e.0 ≡ some e.1) (apr.hash_entries h)
