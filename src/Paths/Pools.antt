-- ===== src/Paths/Pools.antt =====
-- The pools of the functions on paths of src/apr.cpp.
use mod_gate.Base.{
  ◌≡◌, refl, ◌∙◌, Bool, true, false, List, [], ◌∷◌, Option, none, some, Bytes, ◌==◌, if◌then◌else◌,
  arith, ap, map,
}
use mod_gate.Paths.{
  Memory, PathCalls, cwd, path_is_relative, path_merge, path_root, skip_slash, stored, Pointer,
  without, to_string, pool_create, pool_destroy, uninitialised, literal,
}

-- A call of one of the functions, and what it returns.
pub data Call : Type 0 where
  cwd_call : Call
  relative_call : Bytes → Call
  merge_call : Bytes → Bytes → Call
  root_call : Bytes → Call

pub data Answer : Type 0 where
  text : Bytes → Answer
  flag : Bool → Answer
  undefined : Answer

abbrev pub answer_text : Option Bytes → Answer
answer_text none = undefined
answer_text (some s) = text s

module _ (apr : PathCalls) where
  abbrev pub call : Call → Memory → Answer × Memory
  call cwd_call m = let (s, m') = cwd apr m in (answer_text s, m')
  call (relative_call p) m = let (b, m') = path_is_relative apr p m in (flag b, m')
  call (merge_call r a) m = let (s, m') = path_merge apr r a m in (answer_text s, m')
  call (root_call p) m = let (s, m') = path_root apr p m in (answer_text s, m')

  -- What APR makes of the call.
  abbrev pub meant : Call → Answer
  meant cwd_call = answer_text apr.filepath_get.1
  meant (relative_call p) = flag ((apr.filepath_root p true).0 == apr.erelative)
  meant (merge_call r []) = answer_text (apr.filepath_merge r []).1
  meant (merge_call r (c ∷ a)) =
      answer_text (apr.filepath_merge r (if c == b'/' then a else c ∷ a)).1
  meant (root_call p) = elim (apr.filepath_root p false).1 [ none ↦ text [] | some s ↦ text s ]

  abbrev pub calls : List Call → Memory → List Answer × Memory
  calls [] m = ([], m)
  calls (c ∷ cs) m = let (a, m') = call c m in let (rest, m'') = calls cs m' in (a ∷ rest, m'')

  -- A subpool is gone behind the call that made it, and what it held is read before.
  module _ (m : Memory) where
    again : without m.fresh (m.fresh ∷ m.live) ≡ m.live
    again = ground arith

    pub read_back :
        (before : Pointer) (o : Option Bytes)
        → to_string (stored before m.fresh o) (pool_create m).1
          ≡ elim o [ none ↦ to_string before (pool_create m).1 | some s ↦ some s ]
    unfolding to_string pool_create
    read_back before none = refl
    read_back before (some s) = ground arith

  own_text :
      (m : Memory) (o : Option Bytes)
      → answer_text (to_string (stored uninitialised m.fresh o) (pool_create m).1) ≡ answer_text o
  unfolding to_string
  own_text m none = refl
  own_text m (some s) = ap answer_text (read_back m uninitialised (some s))

  root_text :
      (m : Memory) (o : Option Bytes)
      → answer_text (to_string (stored (literal []) m.fresh o) (pool_create m).1)
        ≡ elim o [ none ↦ text [] | some s ↦ text s ]
  unfolding to_string
  root_text m none = refl
  root_text m (some s) = ap answer_text (read_back m (literal []) (some s))

  call_lem : (c : Call) (m : Memory) → ((call c m).0 ≡ meant c) × ((call c m).1.live ≡ m.live)
  unfolding cwd path_is_relative path_merge path_root skip_slash pool_create pool_destroy
  call_lem cwd_call m = (own_text m apr.filepath_get.1, again m)
  call_lem (relative_call p) m = (refl, again m)
  call_lem (merge_call r []) m = (own_text m (apr.filepath_merge r []).1, again m)
  call_lem (merge_call r (c ∷ a)) m =
      (own_text m (apr.filepath_merge r (if c == b'/' then a else c ∷ a)).1, again m)
  call_lem (root_call p) m = (root_text m (apr.filepath_root p false).1, again m)

  -- Any sequence of calls of the functions on paths answers with what APR makes of the paths, a slash
  -- at the front of the path that is added left out, and leaves the pools that lived before it: each
  -- call destroys the pool that it makes, and reads the string in it before. The answer has no value
  -- exactly where APR stores no string and the code has put none there: the current directory and the
  -- merge of two paths.
  pub calls_lem :
      (cs : List Call) (m : Memory)
      → ((calls cs m).0 ≡ map meant cs) × ((calls cs m).1.live ≡ m.live)
  calls_lem [] m = (refl, refl)
  calls_lem (c ∷ cs) m =
      let (a, l) = call_lem c m in let (r, ls) = calls_lem cs (call c m).1 in (cc (a, r), ls ∙ l)
