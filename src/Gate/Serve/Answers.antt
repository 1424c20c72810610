-- ===== src/Gate/Serve/Answers.antt =====
-- The answers of the request handler of src/module.cpp.
use mod_gate.Apr.{Apr, AprLaws}
use mod_gate.Base.{
  ◌++◌, codes, ◌≢◌, ◌≡◌, ◌⊎◌, refl, inl, inr, Bool, true, false, Option, none, some, Bytes, ℤ, pos,
  int_eq, ◌==◌, ℕ, Bool-cases,
}
use mod_gate.Config.{gate_key}
use mod_gate.Gate.Configured.{noted, found}
use mod_gate.Gate.Serve.{
  Answer, declined, ok, code, crash, not_connected, connect, database_file, apply_row, row_answer,
  read_rows, run_query, look_up, look_up_address, serve_connection, serve_file, serve,
  serve_configured, gate_request_handler,
}
use mod_gate.Gate.{
  Request, crit, logged, log_message, formatted, message_text, note_handler,
  gate_request_init_configuration, gate_request_get_handler,
}
use mod_gate.Host.{Host, InAddr}
use mod_gate.Sqlite.{Sqlite, Query, Outcome, returned, thrown, sqlite_row, step}

-- The answers that the server expects, and the code of a failed connection.
abbrev pub Expected : Answer → Type 0
Expected a = (a ≡ declined) ⊎ ((a ≡ ok) ⊎ (a ≡ code 1))

module _ (apr : Apr) (sq : Sqlite) (host : Host) where
  open sq use {World, Db}

  -- Without a failed connection.
  abbrev pub Looked : Answer → Type 0
  Looked a = (a ≡ declined) ⊎ (a ≡ ok)

  as-Expected : (a : Answer) → Looked a → Expected a
  as-Expected a (inl e) = inl e
  as-Expected a (inr e) = inr (inl e)

  apply_row-Looked :
      (r : Request apr) (id http_code : ℤ) → Looked (apply_row apr sq host r id http_code).0
  unfolding apply_row
  apply_row-Looked r id http_code = elim (Bool-cases (int_eq http_code (pos 200))) [
    | inl e ↦ rw e (inl refl)
    | inr e ↦ rw e (inr refl)
  ]

  row_answer-Looked :
      (rc : ℕ) (q : Query sq) (w : World) (r : Request apr)
      → Looked (row_answer apr sq host rc q w r).0
  unfolding row_answer
  row_answer-Looked rc q w r = elim (Bool-cases (rc == sqlite_row)) [
    | inl e ↦ rw e (apply_row-Looked r (sq.column_int q.stmt w 0) (sq.column_int q.stmt w 1))
    | inr e ↦ rw e (inl refl)
  ]

  read_rows-Looked :
      (o : Outcome (Unit {0})) (q : Query sq) (r : Request apr) (w : World)
      → Looked (read_rows apr sq host o q r w).0
  unfolding read_rows
  read_rows-Looked (thrown what) q r w = inr refl
  read_rows-Looked (returned u) q r w =
      let (rc, q', w') = step sq q w in row_answer-Looked rc q' w' r

  look_up_address-Looked :
      (db : Db) (a : Option InAddr) (r : Request apr) (w : World)
      → Looked (look_up_address apr sq host db a r w).0
  unfolding look_up_address run_query
  look_up_address-Looked db none r w = inl refl
  look_up_address-Looked db (some a) r w = read_rows-Looked _ _ r _

  -- A database at `path` cannot be opened, and the text that says so is no text but a format: it has a
  -- percent sign that reads an argument.
  abbrev pub Misread : Bytes → World → Type 0
  Misread path w =
      (e : Bytes) × ((connect apr sq host path w).0 ≡ thrown e)
      × (formatted (message_text apr host (codes "FATAL ERROR: " ++ e)) ≡ none)

  -- On the file of the database that is asked.
  abbrev Answered : Option Bytes → World → Answer → Type 0
  Answered none w a = a ≡ declined
  Answered (some path) w a = Expected a ⊎ (a ≡ crash) × Misread path w

  not_connected-Answered :
      (o : Option Bytes) (r : Request apr) (w : World)
      → ((not_connected apr sq host (logged apr host r crit o) r w).0 ≡ code 1)
        ⊎ (((not_connected apr sq host (logged apr host r crit o) r w).0 ≡ crash) × (o ≡ none))
  unfolding not_connected
  not_connected-Answered none r w = inr (refl, refl)
  not_connected-Answered (some line) r w = inl refl

  serve_connection-Answered :
      (path : Bytes) (o : Outcome Db) (r : Request apr) (w w' : World)
      → (connect apr sq host path w).0 ≡ o
      → Answered (some path) w (serve_connection apr sq host o r w').0
  unfolding serve_connection look_up log_message
  serve_connection-Answered path (thrown e) r w w' h =
      elim (not_connected-Answered (formatted (message_text apr host (codes "FATAL ERROR: " ++ e)))
        r w') [ inl a ↦ inl (inr (inr a)) | inr (a, n) ↦ inr (a, (e, h, n)) ]
  serve_connection-Answered path (returned db) r w w' h =
      inl (as-Expected _ (look_up_address-Looked db (host.inet_pton r.remote_ip) r w'))

  serve_file-Answered :
      (path : Option Bytes) (r : Request apr) (w : World)
      → Answered path w (serve_file apr sq host path r w).0
  unfolding serve_file
  serve_file-Answered none r w = refl
  serve_file-Answered (some path) r w =
      serve_connection-Answered path (connect apr sq host path w).0 r w
        (connect apr sq host path w).1 refl

  -- The answer of a request with these settings.
  abbrev pub Settled : Request apr × Bool → World → Answer → Type 0
  Settled (r', b) w a =
      Expected a
      ⊎ ((b ≡ true)
          × (a ≡ crash)
          × ((path : Bytes) × (database_file (gate_request_get_handler apr host r').0 ≡ some path)
              × Misread path w))

  settle :
      (r' : Request apr) (f : Option Bytes) (w : World) (a : Answer)
      → database_file (gate_request_get_handler apr host r').0 ≡ f
      → Answered f w a
      → Settled (r', true) w a
  settle r' none w a e h = inl (inl h)
  settle r' (some path) w a e (inl h) = inl h
  settle r' (some path) w a e (inr (c, m)) = inr (refl, c, (path, e, m))

  serve_configured-Settled :
      (o : Request apr × Bool) (r : Request apr) (w : World)
      → Settled o w (serve_configured apr sq host (some o) r w).0
  unfolding serve_configured serve
  serve_configured-Settled (r', true) r w =
      let (path, r'') = gate_request_get_handler apr host r' in
      settle r' (database_file path) w _ refl (serve_file-Answered (database_file path) r'' w)
  serve_configured-Settled (r', false) r w = inl (inl refl)

  module _ (laws : AprLaws apr) where
    -- Every request is answered or ends in one fault, whatever the settings, the notes, the address and
    -- the database: the configuration's loops end with settings, and the answer is DECLINED, OK or, for
    -- a database that cannot be opened, 1, unless these settings are accepted and the text about the
    -- database that they choose, which cannot be opened, has a percent sign and is taken for a format.
    pub gate_request_handler_answers :
        (r : Request apr) (w : World)
        → (o : Request apr × Bool) × (gate_request_init_configuration apr host r ≡ some o)
          × Settled o w (gate_request_handler apr sq host r w).0
    unfolding gate_request_handler
    gate_request_handler_answers r w =
        let found_all = found apr laws host r (apr.get (noted apr laws host r) gate_key) refl in
        (
          note_handler apr host (record r { notes = noted apr laws host r })
              (apr.get (noted apr laws host r) gate_key),
          found_all,
          rw (gate_request_handler, found_all) (serve_configured-Settled _ r w),
        )

    -- An answer that is no fault is one that the server expects.
    pub answers-Expected :
        (r : Request apr) (w : World)
        → (gate_request_handler apr sq host r w).0 ≢ crash
        → Expected (gate_request_handler apr sq host r w).0
    answers-Expected r w fine =
        let (o, c, s) = gate_request_handler_answers r w in
        elim s [ inl e ↦ e | inr (b, a, m) ↦ absurd (fine a) ]
