-- ===== src/Gate/Child.antt =====
-- The hooks of src/mod_gate.c and the life of a child process of the server: gate_child_init_hook,
-- gate_child_shutdown, gate_handler, and gate_init_module of src/module.cpp.
pub mod Serving
use mod_gate.Apr.{Apr}
use mod_gate.Base.{ℕ, List, [], ◌∷◌, ◌++◌, Bytes, codes}
use mod_gate.Decimal.{u32_text}
use mod_gate.Gate.Serve.{Answer, gate_request_handler}
use mod_gate.Gate.{Request, Level, notice}
use mod_gate.Host.{Host}
use mod_gate.Sqlite.{Sqlite}

-- The functions that the module registers for the end of a pool.
pub data Cleanup : Type 0 where
  child_shutdown : Cleanup

-- The hooks that the module registers, with their places.
pub data Hook : Type 0 where
  gate_child_init_hook_middle : Hook
  gate_handler_first : Hook

unfoldable pub register_hooks : List Hook → List Hook
register_hooks hooks = hooks ++ (gate_child_init_hook_middle ∷ gate_handler_first ∷ [])

unfoldable pub gate_shutdown_module : ℕ
gate_shutdown_module = 0

-- APR_SUCCESS, whatever `gate_shutdown_module` returns.
unfoldable pub gate_child_shutdown : ℕ
gate_child_shutdown = 0

module _ (apr : Apr) (sq : Sqlite) (host : Host) where
  open sq use {World}

  -- A child process: its lines of the log, the cleanups of its pool, and its databases.
  pub record Child : Type 0 where
    pub log : List (Level × Bytes)
    pub cleanups : List Cleanup
    pub world : World

  unfoldable pub startup_line : Bytes
  startup_line = codes "mod_gate[" ++ (u32_text host.pid ++ codes "]: startup_module")

  unfoldable pub gate_init_module : Child → Child
  gate_init_module c = record c { log = c.log ++ (notice, startup_line) ∷ [] }

  unfoldable pub gate_child_init_hook : Child → Child
  unfolding gate_init_module
  gate_child_init_hook c =
      let c' = gate_init_module c in record c' { cleanups = child_shutdown ∷ c'.cleanups }

  -- A request that the server gives to the module's handler.
  unfoldable pub gate_handler : Request apr → Child → Answer × Request apr × Child
  gate_handler r c =
      let (answer, r', w) = gate_request_handler apr sq host r c.world in
      (answer, r', record c { world = w })
