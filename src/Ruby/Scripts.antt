-- ===== src/Ruby/Scripts.antt =====
-- What scripts can do with the classes of src/ruby_sqlite.cpp and src/ruby_sqlite_stmt.cpp: sequences of
-- calls, and of the collector's calls of the deallocators.
pub mod Held
use mod_gate.Base.{ℕ, ◌+◌, ◌≡◌, [], ◌∷◌, ◌++◌, List, Option, none, some, Bytes}
use mod_gate.Host.{Host}
use mod_gate.Ruby.Database.{Connection, ConnCall, conn_call, conn_deallocator, conn_init}
use mod_gate.Ruby.Rows.{m_step, stmt_deallocator}
use mod_gate.Ruby.{Statement, Value, statement_object, Mruby, Columns}
use mod_gate.Sqlite.{Sqlite, Outcome, returned, thrown}

module _ (sq : Sqlite) (mrb : Mruby sq) (more : Columns sq mrb.Float) (host : Host)
    (file : Bytes) where
  open sq use {World, Stmt}
  open mrb use {Float}

  -- The objects of the two classes that the collector has not freed.
  pub record Vm : Type 0 where
    pub world : World
    pub conns : List (Connection sq)
    pub stmts : List (Statement Stmt)

  -- The statement that a call has made, if it has made one.
  abbrev pub made : Outcome (Value Float Stmt) → List (Statement Stmt)
  made (returned (statement_object s)) = s ∷ []
  made _ = []

  unfoldable pub after_call :
      List (Connection sq)
      → Connection sq
      → List (Connection sq)
      → List (Statement Stmt)
      → ConnCall sq mrb more host file
      → World
      → Vm
  unfolding conn_call
  after_call pre c post stmts call w =
      let (reply, c', w') = conn_call sq mrb more host file call c w in
      record { world = w'; conns = pre ++ (c' ∷ post); stmts = made reply ++ stmts }

  -- One step of a script or of the collector, on an object between others. `malloc` is what the memory
  -- holds that `DB.new` takes for a connection and does not set.
  pub data Step (malloc : World → Connection sq) : Vm → Vm → Type 0 where
    create :
        {w : World} {conns : List (Connection sq)} {stmts : List (Statement Stmt)}
        → Step malloc
            (record { world = w; conns = conns; stmts = stmts })
            (record {
              world = (conn_init sq (malloc w) none w).1;
              conns = (conn_init sq (malloc w) none w).0 ∷ conns;
              stmts = stmts;
            })
    initialize :
        {w : World} (pre : List (Connection sq)) (c : Connection sq) (post : List (Connection sq))
        {stmts : List (Statement Stmt)}
        → Step malloc
            (record { world = w; conns = pre ++ (c ∷ post); stmts = stmts })
            (record {
              world = (conn_init sq (malloc w) (some c) w).1;
              conns = pre ++ ((conn_init sq (malloc w) (some c) w).0 ∷ post);
              stmts = stmts;
            })
    call :
        {w : World} (pre : List (Connection sq)) (c : Connection sq) (post : List (Connection sq))
        {stmts : List (Statement Stmt)} (method : ConnCall sq mrb more host file)
        → Step malloc
            (record { world = w; conns = pre ++ (c ∷ post); stmts = stmts })
            (after_call pre c post stmts method w)
    advance :
        {w : World} {conns : List (Connection sq)} (pre : List (Statement Stmt))
        (s : Statement Stmt) (post : List (Statement Stmt))
        → Step malloc
            (record { world = w; conns = conns; stmts = pre ++ (s ∷ post) })
            (record {
              world = (m_step sq mrb more file s w).1;
              conns = conns;
              stmts = pre ++ (s ∷ post);
            })
    free_connection :
        {w : World} (pre : List (Connection sq)) (c : Connection sq) (post : List (Connection sq))
        {stmts : List (Statement Stmt)}
        → Step malloc
            (record { world = w; conns = pre ++ (c ∷ post); stmts = stmts })
            (record { world = conn_deallocator sq c w; conns = pre ++ post; stmts = stmts })
    free_statement :
        {w : World} {conns : List (Connection sq)} (pre : List (Statement Stmt))
        (s : Statement Stmt) (post : List (Statement Stmt))
        → Step malloc
            (record { world = w; conns = conns; stmts = pre ++ (s ∷ post) })
            (record { world = stmt_deallocator sq s w; conns = conns; stmts = pre ++ post })

  -- The states that scripts lead to from an interpreter without objects.
  pub data Reached (malloc : World → Connection sq) (w : World) : Vm → Type 0 where
    begun : {vm : Vm} → vm ≡ record { world = w; conns = []; stmts = [] } → Reached malloc w vm
    later : {vm vm' : Vm} → Reached malloc w vm → Step malloc vm vm' → Reached malloc w vm'
