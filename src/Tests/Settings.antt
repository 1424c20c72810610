-- ===== src/Tests/Settings.antt =====
-- Directives, options and statements of one server.
use mod_gate.Apr.Assoc.{assoc, assoc_laws}
use mod_gate.Apr.Table.Bounds.{to_next, to_index, move, IsValid, moves-IsValid}
use mod_gate.Apr.Table.{fault, bind, key, value}
use mod_gate.Base.{◌≡◌, ◌≢◌, refl, List, [], ◌∷◌, none, some, Bytes, codes, pos, arith, foldl, ◌++◌}
use mod_gate.Config.Merge.{merge_dir_conf_lem, nested_value, innermost}
use mod_gate.Config.{
  Settings, DirConfig, Directive, gate_database, run_directive, not_registered, merge_dir_conf,
  set_gate_filter_database, gate_handler_config, gate_filter_set_params, set_param,
}
use mod_gate.Life.Balance.{start, after_init, after_destroy, Pooled, Reached-Pooled}
use mod_gate.Life.{fresh, init, destroy}
use mod_gate.Sqlite.Handles.{Call, call_prepare, call_step, lifetime, lifetime_handles}
use mod_gate.Tests.Store.{Store, store, store_laws}

abbrev unset : Settings assoc
unset = record {
  server = record { handler = none; default_database = none; options = []; handlers = [] };
  directory = record { dir = some (codes "/"); options = [] };
  environment = [];
}

abbrev undeclared : Directive assoc
undeclared = gate_database (some (codes "ads")) (some (codes "/db"))

refused : (run_directive assoc none unset undeclared).1 ≡ some (not_registered (codes "ads"))
unfolding run_directive set_gate_filter_database gate_filter_set_params set_param
    gate_handler_config
refused = refl

abbrev outer : DirConfig assoc
outer = record { dir = some (codes "/"); options = (codes "Colour", codes "red") ∷ [] }

abbrev inner : DirConfig assoc
inner = record { dir = some (codes "/shop"); options = (codes "colour", codes "blue") ∷ [] }

abbrev innermost_dir : DirConfig assoc
innermost_dir = record { dir = some (codes "/shop/cart"); options = [] }

merge_dir_conf_lem_example :
    (assoc.get
        (foldl (merge_dir_conf assoc) outer (inner ∷ innermost_dir ∷ [])).options
        (codes "COLOUR")
      ≡ nested_value assoc assoc_laws (codes "COLOUR") (outer ∷ inner ∷ innermost_dir ∷ []))
    × ((foldl (merge_dir_conf assoc) outer (inner ∷ innermost_dir ∷ [])).dir
        ≡ (innermost assoc assoc_laws inner (innermost_dir ∷ [])).dir)
merge_dir_conf_lem_example =
    merge_dir_conf_lem assoc assoc_laws outer inner (innermost_dir ∷ []) (codes "COLOUR")

abbrev two : List (Bytes × Bytes)
two = (codes "a", codes "1") ∷ (codes "b", codes "2") ∷ []

abbrev values : List Bytes → Bytes → Bytes → List Bytes
values s k v = s ++ v ∷ []

moves-IsValid_example :
    IsValid (foldl move (bind two) (to_next ∷ to_index (pos 1) ∷ to_next ∷ []))
    × (key (foldl move (bind two) (to_next ∷ to_index (pos 1) ∷ to_next ∷ [])) ≢ fault)
    × (value (foldl move (bind two) (to_next ∷ to_index (pos 1) ∷ to_next ∷ [])) ≢ fault)
moves-IsValid_example =
    moves-IsValid two (to_next ∷ to_index (pos 1) ∷ to_next ∷ []) (tt, (tt, (tt, tt)))

abbrev empty : Store
empty = record { rows = []; current = none; open_dbs = 1; open_stmts = 0 }

abbrev calls : List Call
calls = call_prepare (codes "SELECT 1") [] ∷ call_prepare (codes "SELECT 2") [] ∷ call_step ∷ []

lifetime_handles_example :
    ((lifetime store tt calls empty).open_stmts ≡ 0)
    × ((lifetime store tt calls empty).open_dbs ≡ 1)
unfolding store_laws
lifetime_handles_example = lifetime_handles store store_laws tt calls empty

Reached-Pooled_example : Pooled (destroy (init (init fresh))) 1
Reached-Pooled_example = Reached-Pooled (destroy (init (init fresh))) 1 (
    after_destroy (init (init fresh)) 1
      (after_init (init fresh) 1 (after_init fresh 0 start (omega arith)) (omega arith)))
