-- ===== src/Config.antt =====
-- src/mod_gate.c and src/common.c: the configuration that the server keeps for the module, and the
-- handlers of its directives.
pub mod Laws
pub mod Merge
pub mod Refinement
use mod_gate.Apr.{Apr}
use mod_gate.Base.{
  ℕ, Bool, true, false, ◌||◌, List, [], ◌∷◌, ◌++◌, Option, none, some, Bytes, codes, equal, is_null,
  if◌then◌else◌,
}

-- The names under which options are stored.
unfoldable pub gate_key : Bytes
gate_key = codes "Gate"

unfoldable pub database_key : Bytes
database_key = codes "GateDatabase"

unfoldable pub default_database_key : Bytes
default_database_key = codes "GateDefaultDatabase"

-- `%s` of APR's formatter: it writes "(null)" for a NULL pointer.
unfoldable pub printed : Option Bytes → Bytes
printed none = codes "(null)"
printed (some s) = s

unfoldable pub not_provided : Option Bytes → Option Bytes → Bytes
unfolding printed
not_provided handler val =
    codes "Handler "
    ++ (printed handler ++ (b' ' ∷ (printed val ++ codes " arguments not provided")))

unfoldable pub not_registered : Bytes → Bytes
not_registered handler = codes "Handler " ++ (handler ++ codes " is not registered")

module _ (apr : Apr) where
  open apr use {Table, make, get, set, overlay, compress_set, Hash, hash_make, hash_get, hash_set}

  -- `gate_config`. The outer hash holds pointers to the inner ones, and is their only owner: a write
  -- through such a pointer is modelled as a write of the inner hash at its name.
  pub record GateConfig : Type 0 where
    pub handler : Option Bytes
    pub default_database : Option Bytes
    pub options : Table
    pub handlers : Hash (Hash Bytes)

  -- `gate_dir_config`.
  pub record DirConfig : Type 0 where
    pub dir : Option Bytes
    pub options : Table

  -- What the directives change: the configuration of the server and that of the directory, and the
  -- environment of the process, the last `setenv` first.
  pub record Settings : Type 0 where
    pub server : GateConfig
    pub directory : DirConfig
    pub environment : List (Bytes × Bytes)

  unfoldable pub create_config : GateConfig
  create_config = record {
    handler = none;
    default_database = none;
    options = make;
    handlers = hash_make;
  }

  unfoldable pub create_dir_conf : Option Bytes → DirConfig
  create_dir_conf dir = record { dir = dir; options = make }

  unfoldable pub merge_dir_conf : DirConfig → DirConfig → DirConfig
  merge_dir_conf dir_current dir_new = record {
    dir = dir_new.dir;
    options = compress_set (overlay dir_current.options dir_new.options);
  }

  abbrev pub set_server_option : Settings → Bytes → Bytes → Settings
  set_server_option st k v = record st {
    server = record (st.server) { options = set st.server.options k v };
  }

  abbrev pub set_dir_option : Settings → Bytes → Bytes → Settings
  set_dir_option st k v = record st {
    directory = record (st.directory) { options = set st.directory.options k v };
  }

  -- Every handler of a directive returns the new settings and an error message, or NULL. `place` is
  -- what `ap_check_cmd_context(parms, NOT_IN_DIR_LOC_FILE)` returns: NULL outside of a directory.
  unfoldable pub set_gate_default_database :
      Option Bytes → Settings → Option Bytes → Settings × Option Bytes
  set_gate_default_database place st none = (st, none)
  set_gate_default_database place st (some arg) =
      if is_null place
      then (record st { server = record (st.server) { default_database = some arg } }, none)
      else (set_dir_option st database_key arg, none)

  unfoldable pub set_gate_config_var :
      Option Bytes → Settings → Option Bytes → Bytes → Settings × Option Bytes
  set_gate_config_var place st none arg2 = (st, none)
  set_gate_config_var place st (some arg1) arg2 =
      if is_null place
      then (set_server_option st arg1 arg2, none)
      else (set_dir_option st arg1 arg2, none)

  unfoldable pub set_gate_env_var : Settings → Option Bytes → Option Bytes → Settings × Option Bytes
  set_gate_env_var st none arg2 = (st, none)
  set_gate_env_var st (some arg1) none = (st, none)
  set_gate_env_var st (some arg1) (some arg2) =
      (record st { environment = (arg1, arg2) ∷ st.environment }, none)

  unfoldable pub set_gate_filter : Option Bytes → Settings → Option Bytes → Settings × Option Bytes
  set_gate_filter place st none = (st, none)
  set_gate_filter place st (some arg) =
      if is_null place
      then (record st { server = record (st.server) { handler = some arg } }, none)
      else (set_dir_option st gate_key arg, none)

  abbrev pub set_handlers : Settings → Hash (Hash Bytes) → Settings
  set_handlers st hs = record st { server = record (st.server) { handlers = hs } }

  unfoldable pub set_gate_filter_declare :
      Option Bytes → Settings → Option Bytes → Settings × Option Bytes
  set_gate_filter_declare place st none = (st, none)
  set_gate_filter_declare place st (some arg) =
      if is_null place
      then if is_null (hash_get st.server.handlers arg)
        then (set_handlers st (hash_set st.server.handlers arg hash_make), place)
        else (st, place)
      else (st, place)

  -- The write through the pointer `h_config` that the lookup has returned.
  unfoldable pub set_param :
      Settings → Bytes → Bytes → Bytes → Option (Hash Bytes) → Settings × Option Bytes
  set_param st k handler val none = (st, some (not_registered handler))
  set_param st k handler val (some h_config) =
      (set_handlers st (hash_set st.server.handlers handler (hash_set h_config k val)), none)

  unfoldable pub gate_filter_set_params :
      Option Bytes → Settings → Bytes → Option Bytes → Option Bytes → Settings × Option Bytes
  unfolding set_param
  gate_filter_set_params place st k none val = (st, some (not_provided none val))
  gate_filter_set_params place st k (some handler) none =
      (st, some (not_provided (some handler) none))
  gate_filter_set_params (some errmsg) st k (some handler) (some val) = (st, some errmsg)
  gate_filter_set_params none st k (some handler) (some val) =
      set_param st k handler val (hash_get st.server.handlers handler)

  unfoldable pub set_gate_filter_config :
      Option Bytes → Settings → Option Bytes → Bytes → Option Bytes → Settings × Option Bytes
  unfolding gate_filter_set_params
  set_gate_filter_config place st handler k val = gate_filter_set_params place st k handler val

  unfoldable pub set_gate_filter_database :
      Option Bytes → Settings → Option Bytes → Option Bytes → Settings × Option Bytes
  unfolding gate_filter_set_params
  set_gate_filter_database place st arg1 arg2 =
      gate_filter_set_params place st database_key arg1 arg2

  -- `gate_handler_config` of src/common.c: the settings of a declared handler.
  unfoldable pub gate_handler_config : GateConfig → Bytes → Option (Hash Bytes)
  gate_handler_config cfg name = hash_get cfg.handlers name

  -- The entries of `mod_gate_cmds`, with the arguments that the server passes.
  pub data Directive : Type 0 where
    gate_default_database : Option Bytes → Directive
    gate : Option Bytes → Directive
    gate_config_var : Option Bytes → Bytes → Directive
    gate_env : Option Bytes → Option Bytes → Directive
    gate_declare : Option Bytes → Directive
    gate_database : Option Bytes → Option Bytes → Directive
    gate_filter_config : Option Bytes → Bytes → Option Bytes → Directive

  unfoldable pub run_directive : Option Bytes → Settings → Directive → Settings × Option Bytes
  run_directive place st (gate_default_database arg) = set_gate_default_database place st arg
  run_directive place st (gate arg) = set_gate_filter place st arg
  run_directive place st (gate_config_var arg1 arg2) = set_gate_config_var place st arg1 arg2
  run_directive place st (gate_env arg1 arg2) = set_gate_env_var st arg1 arg2
  run_directive place st (gate_declare arg) = set_gate_filter_declare place st arg
  run_directive place st (gate_database arg1 arg2) = set_gate_filter_database place st arg1 arg2
  run_directive place st (gate_filter_config handler k val) =
      set_gate_filter_config place st handler k val
