-- ===== src/Apr/Handles.antt =====
-- src/apr_table.cpp: the class `table`, a pointer to a table of APR. Two objects with one pointer are
-- two names of one table. The methods whose names end in n store the caller's strings instead of
-- copies, which makes no difference to strings that do not change.
pub mod Sharing
use mod_gate.Apr.{Apr}
use mod_gate.Base.{ℕ, ◌+◌, ◌%◌, ◌^◌, List, Option, Bytes, ◌==◌, if◌then◌else◌, length}

-- An object of the class.
pub record TableObject : Type 0 where
  pub handle : ℕ

-- `operator=(const table& t)`, of which nothing remains of the object that it changes.
unfoldable pub table_assign : TableObject → TableObject → TableObject
table_assign this t = record this { handle = t.handle }

module _ (apr : Apr) where
  open apr use {Table, make, elts, get, set, add, merge, unset, clear}

  -- The tables at their addresses; `apr_table_make` takes the address `fresh`.
  pub record Tables : Type 0 where
    pub fresh : ℕ
    pub at : ℕ → Table

  unfoldable pub put : ℕ → Table → Tables → Tables
  put h t ts = record ts { at = λ a. if a == h then t else ts.at a }

  -- `table(apr_pool_t*)`.
  unfoldable pub table_make : Tables → TableObject × Tables
  unfolding put
  table_make ts =
      (record { handle = ts.fresh }, put ts.fresh make (record ts { fresh = ts.fresh + 1 }))

  unfoldable pub table_get : TableObject → Bytes → Tables → Option Bytes
  table_get this key ts = get (ts.at this.handle) key

  unfoldable pub begin : TableObject → Tables → List (Bytes × Bytes)
  begin this ts = elts (ts.at this.handle)

  -- `nelts`, as a `u32`.
  unfoldable pub size : TableObject → Tables → ℕ
  unfolding begin
  size this ts = length (begin this ts) % 2 ^ 32

  unfoldable pub table_set : TableObject → Bytes → Bytes → Tables → Tables
  table_set this key val ts = put this.handle (set (ts.at this.handle) key val) ts

  unfoldable pub table_add : TableObject → Bytes → Bytes → Tables → Tables
  table_add this key val ts = put this.handle (add (ts.at this.handle) key val) ts

  unfoldable pub table_merge : TableObject → Bytes → Bytes → Tables → Tables
  table_merge this key val ts = put this.handle (merge (ts.at this.handle) key val) ts

  unfoldable pub table_unset : TableObject → Bytes → Tables → Tables
  table_unset this key ts = put this.handle (unset (ts.at this.handle) key) ts

  unfoldable pub table_clear : TableObject → Tables → Tables
  table_clear this ts = put this.handle (clear (ts.at this.handle)) ts
