-- ===== src/Tests/Shared.antt =====
-- Two objects of one table of APR and an object of another, and calls of the functions on paths.
use mod_gate.Apr.Assoc.{assoc}
use mod_gate.Apr.Handles.Sharing.{Write, set_write, unset_write, write}
use mod_gate.Apr.Handles.{TableObject, Tables, table_assign, table_get, table_set, table_unset, put}
use mod_gate.Base.{
  refl, ◌≡◌, List, [], ◌∷◌, none, some, codes, foldl, map, equal, same_key, lower, if◌then◌else◌,
}
use mod_gate.Paths.Pools.{
  Call, cwd_call, relative_call, merge_call, root_call, calls, meant, calls_lem,
}
use mod_gate.Paths.{Memory, PathCalls}

abbrev notes : TableObject
notes = record { handle = 1 }

abbrev headers : TableObject
headers = record { handle = 2 }

abbrev unset_table : TableObject
unset_table = record { handle = 0 }

abbrev empty_tables : Tables assoc
empty_tables = record { fresh = 3; at = λ a. [] }

abbrev writes : List (TableObject × Write)
writes =
    (notes, set_write (codes "Gate") (codes "ads"))
    ∷ (headers, set_write (codes "Host") (codes "example.org"))
    ∷ (table_assign unset_table notes, set_write (codes "Gate") (codes "ip"))
    ∷ (headers, unset_write (codes "Host"))
    ∷ []

-- A current directory, and paths that are joined by a slash.
abbrev unix : PathCalls
unix = record {
  filepath_get = (0, some (codes "/srv"));
  filepath_root = λ path b. if equal path (codes "a") then (20, none) else (0, some (codes "/"));
  filepath_merge =
      λ root path. if equal path (codes "") then (1, none) else (0, some (codes "/srv/a"));
  erelative = 20;
}

abbrev no_pools : Memory
no_pools = record { live = []; fresh = 5 }

abbrev path_calls : List Call
path_calls =
    cwd_call
    ∷ relative_call (codes "a")
    ∷ merge_call (codes "/srv") (codes "/a")
    ∷ root_call (codes "a")
    ∷ merge_call (codes "/srv") (codes "/")
    ∷ []

calls_lem_example :
    ((calls unix path_calls no_pools).0 ≡ map (meant unix) path_calls)
    × ((calls unix path_calls no_pools).1.live ≡ [])
calls_lem_example = calls_lem unix path_calls no_pools

shared_value :
    table_get assoc notes (codes "Gate") (foldl (write assoc) empty_tables writes)
    ≡ some (codes "ip")
unfolding table_get table_assign table_set table_unset put equal same_key lower
shared_value = refl
