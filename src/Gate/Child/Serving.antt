-- ===== src/Gate/Child/Serving.antt =====
-- The child processes of src/mod_gate.c over the requests that they serve.
use mod_gate.Apr.{Apr, AprLaws}
use mod_gate.Base.{◌≡◌, ◌≢◌, refl, ◌∙◌, List, [], ◌∷◌, All}
use mod_gate.Gate.Child.{
  Child, child_shutdown, startup_line, gate_init_module, gate_child_init_hook, gate_handler,
}
use mod_gate.Gate.Serve.Answers.{Expected, answers-Expected}
use mod_gate.Gate.Serve.Handles.{gate_request_handler_handles}
use mod_gate.Gate.Serve.{Answer, crash}
use mod_gate.Gate.{Request, notice}
use mod_gate.Host.{Host}
use mod_gate.Sqlite.Laws.{SqliteLaws}
use mod_gate.Sqlite.{Sqlite}

module _ (apr : Apr) (sq : Sqlite) (host : Host) (laws : SqliteLaws sq) where
  open sq use {World}
  open laws use {stmts, dbs}

  abbrev pub begun : World → Child apr sq host
  begun w = record { log = []; cleanups = []; world = w }

  -- The states of a child that begins in the world `w`, with the answers that it has given, the last
  -- one first. A request that faults ends the child, and is not answered. Between two requests other
  -- modules and processes change the world, but not what is open in it.
  pub data Reached (w : World) : List Answer → Child apr sq host → Type 0 where
    started : stmts w ≡ 0 → Reached w [] (gate_child_init_hook apr sq host (begun w))
    served :
        (answers : List Answer) (c : Child apr sq host) (r : Request apr)
        → Reached w answers c
        → (gate_handler apr sq host r c).0 ≢ crash
        → Reached w ((gate_handler apr sq host r c).0 ∷ answers) (gate_handler apr sq host r c).2
    elsewhere :
        (answers : List Answer) (c : Child apr sq host) (w' : World)
        → Reached w answers c
        → stmts w' ≡ stmts c.world
        → dbs w' ≡ dbs c.world
        → Reached w answers (record c { world = w' })

  -- What holds of a child at any time.
  pub record Serves (w : World) (answers : List Answer) (c : Child apr sq host) : Type 0 where
    pub no_stmts : stmts c.world ≡ 0
    pub same_dbs : dbs c.world ≡ dbs w
    pub one_startup : c.log ≡ (notice, startup_line apr sq host) ∷ []
    pub one_cleanup : c.cleanups ≡ child_shutdown ∷ []
    pub all_expected : All Expected answers

  -- A child that serves any requests, in any order and whatever else changes the databases between
  -- them, until one faults, gives each an answer that the server expects (DECLINED, OK or 1), has no
  -- statement open behind a request and as many connections as it began with, has written the one
  -- line of its start, and has registered its shutdown once. It begins with no statement open.
  pub Reached-Serves :
      AprLaws apr
      → (w : World) (answers : List Answer) (c : Child apr sq host) → Reached w answers c
      → Serves w answers c
  unfolding gate_child_init_hook gate_init_module gate_handler
  Reached-Serves fine w _ _ (started s) = record {
    no_stmts = s;
    same_dbs = refl;
    one_startup = refl;
    one_cleanup = refl;
    all_expected = tt;
  }
  Reached-Serves fine w _ _ (served answers c r before no_fault) =
      let s = Reached-Serves fine w answers c before in
      let (none_open, same) = gate_request_handler_handles apr sq host laws r c.world s.no_stmts in
      record {
        no_stmts = none_open;
        same_dbs = same ∙ s.same_dbs;
        one_startup = s.one_startup;
        one_cleanup = s.one_cleanup;
        all_expected = (answers-Expected apr sq host fine r c.world no_fault, s.all_expected);
      }
  Reached-Serves fine w _ _ (elsewhere answers c w' before es ed) =
      let s = Reached-Serves fine w answers c before in
      record {
        no_stmts = es ∙ s.no_stmts;
        same_dbs = ed ∙ s.same_dbs;
        one_startup = s.one_startup;
        one_cleanup = s.one_cleanup;
        all_expected = s.all_expected;
      }
