-- ===== src/Apr/Handles/Sharing.antt =====
-- Which objects of the class `table` of src/apr_table.cpp share their elements.
use mod_gate.Apr.{Apr}
use mod_gate.Apr.Handles.{
  TableObject, Tables, put, table_assign, table_set, table_add, table_merge, table_unset,
  table_clear, begin,
}
use mod_gate.Base.{
  ℕ, ◌≡◌, refl, ap, ◌∙◌, List, [], ◌∷◌, Bytes, ◌==◌, if◌then◌else◌, arith, foldl, Bool-cases, inl,
  inr,
}

-- A call of a method that changes a table.
pub data Write : Type 0 where
  set_write : Bytes → Bytes → Write
  add_write : Bytes → Bytes → Write
  merge_write : Bytes → Bytes → Write
  unset_write : Bytes → Write
  clear_write : Write

module _ (apr : Apr) where
  open apr use {Table, make, elts}

  abbrev pub write : Tables apr → TableObject × Write → Tables apr
  write ts (this, set_write k v) = table_set apr this k v ts
  write ts (this, add_write k v) = table_add apr this k v ts
  write ts (this, merge_write k v) = table_merge apr this k v ts
  write ts (this, unset_write k) = table_unset apr this k ts
  write ts (this, clear_write) = table_clear apr this ts

  -- What APR makes of the call.
  abbrev pub meaning : Table → Write → Table
  meaning t (set_write k v) = apr.set t k v
  meaning t (add_write k v) = apr.add t k v
  meaning t (merge_write k v) = apr.merge t k v
  meaning t (unset_write k) = apr.unset t k
  meaning t clear_write = apr.clear t

  -- The calls on the objects that have the pointer of `this`, in order.
  abbrev pub own : TableObject → List (TableObject × Write) → List Write
  own this [] = []
  own this ((that, w) ∷ ws) = if this.handle == that.handle then w ∷ own this ws else own this ws

  write_lem :
      (ts : Tables apr) (that : TableObject) (w : Write) (h : ℕ)
      → (write ts (that, w)).at h
        ≡ (if h == that.handle then meaning (ts.at that.handle) w else ts.at h)
  unfolding table_set table_add table_merge table_unset table_clear put
  write_lem ts that (set_write k v) h = refl
  write_lem ts that (add_write k v) h = refl
  write_lem ts that (merge_write k v) h = refl
  write_lem ts that (unset_write k) h = refl
  write_lem ts that clear_write h = refl

  writes_lem :
      (this : TableObject) (ws : List (TableObject × Write)) (ts : Tables apr)
      → (foldl write ts ws).at this.handle ≡ foldl meaning (ts.at this.handle) (own this ws)
  writes_lem this [] ts = refl
  writes_lem this ((that, w) ∷ ws) ts =
      let rest = writes_lem this ws (write ts (that, w)) in
      let one = write_lem ts that w this.handle in
      elim (Bool-cases (this.handle == that.handle)) [
        | inl e ↦
            let same : this.handle ≡ that.handle = ground arith in
            rest ∙ rw (e, one, e, ap ts.at same) refl
        | inr e ↦ rest ∙ rw (e, one, e) refl
      ]

  -- After any changes through any objects, an object has the elements that APR makes of the changes
  -- through the objects with its pointer, in order; those through others leave no trace in it. An
  -- object that it is assigned to has the same elements.
  begin-writes :
      (this that : TableObject) (ws : List (TableObject × Write)) (ts : Tables apr)
      → (begin apr this (foldl write ts ws)
          ≡ elts (foldl meaning (ts.at this.handle) (own this ws)))
        × (begin apr (table_assign that this) (foldl write ts ws)
            ≡ elts (foldl meaning (ts.at this.handle) (own this ws)))
  unfolding begin table_assign
  begin-writes this that ws ts = (ap elts (writes_lem this ws ts), ap elts (writes_lem this ws ts))
