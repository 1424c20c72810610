-- ===== src/Gate/Chosen.antt =====
-- Which filter database the request handler of src/module.cpp opens, and when it opens none.
use mod_gate.Apr.{Apr, AprLaws, last_value}
use mod_gate.Base.{
  ◌≡◌, refl, ◌∙◌, Bool, true, false, not, Option, none, some, Bytes, is_null, if◌then◌else◌, All,
}
use mod_gate.Config.{gate_handler_config, gate_key, database_key, default_database_key}
use mod_gate.Gate.Configured.{
  noted, effective, set_all, get-set_all, get-noted, found, IsReadable, accepted_settings,
  note_settings-IsReadable,
}
use mod_gate.Gate.Serve.{
  declined, database_file, serve_file, serve, serve_configured, gate_request_handler,
}
use mod_gate.Gate.{
  Request, gate_request_init_configuration, path_of, note_database, note_handler,
  gate_request_get_handler, note,
}
use mod_gate.Host.{Host}
use mod_gate.Sqlite.{Sqlite}

module _ (apr : Apr) (sq : Sqlite) (host : Host) (laws : AprLaws apr) where
  open apr use {get, hash_get, hash_entries}
  open sq use {World}

  -- The request with the notes that the configuration leaves.
  abbrev pub configured : Request apr → Request apr
  configured r = record r { notes = noted apr laws host r }

  pub handler_from :
      (r : Request apr) (w : World) (h : Option Bytes)
      → effective apr laws r gate_key ≡ h
      → gate_request_handler apr sq host r w
        ≡ serve_configured apr sq host (some (note_handler apr host (configured r) h)) r w
  unfolding gate_request_handler
  handler_from r w h e = rw (found apr laws host r h (get-noted apr laws host r gate_key ∙ e)) refl

  nothing_chosen :
      (r : Request apr) (w : World)
      → get r.notes gate_key ≡ none
      → serve apr sq host r w ≡ (
        declined,
        note_database apr host r (
            if not (is_null (get r.notes database_key))
            then get r.notes default_database_key
            else r.server_config.default_database),
        w,
      )
  unfolding serve gate_request_get_handler serve_file database_file
  nothing_chosen r w e = rw (gate_request_get_handler, e) refl

  quiet :
      (r : Request apr) (d : Option Bytes)
      → ((note_database apr host r d).body ≡ r.body)
        × ((note_database apr host r d).log ≡ r.log)
        × ((note_database apr host r d).status ≡ r.status)
  unfolding note
  quiet r none = (refl, refl, refl)
  quiet r (some d) = (refl, refl, refl)

  -- A request for which neither an option nor a note that it came with names a filter goes on: the
  -- handler answers DECLINED, opens no database, and writes nothing, whatever default databases the
  -- server and the directory have.
  pub gate_request_handler_unnamed :
      (r : Request apr) (w : World)
      → effective apr laws r gate_key ≡ none
      → ((gate_request_handler apr sq host r w).0 ≡ declined)
        × ((gate_request_handler apr sq host r w).2 ≡ w)
        × ((gate_request_handler apr sq host r w).1.body ≡ r.body)
        × ((gate_request_handler apr sq host r w).1.log ≡ r.log)
        × ((gate_request_handler apr sq host r w).1.status ≡ r.status)
  unfolding serve_configured note_handler
  gate_request_handler_unnamed r w e =
      rw
        (
          handler_from r w none e,
          nothing_chosen (configured r) w (get-noted apr laws host r gate_key ∙ e),
        )
        (let (b, l, s) = quiet (configured r) _ in (refl, refl, b, l, s))

  -- The notes behind the settings of the handler.
  abbrev pub with_settings : Request apr → apr.Hash Bytes → Request apr
  with_settings r h_config = record r {
    notes = set_all apr laws (noted apr laws host r) (hash_entries h_config);
  }

  served :
      (r : Request apr) (w : World) (name : Bytes) (h_config : apr.Hash Bytes)
      → get r.notes gate_key ≡ some name
      → gate_handler_config apr r.server_config name ≡ some h_config
      → serve apr sq host r w
        ≡ serve_file apr sq host
            (database_file (path_of apr host (hash_get h_config database_key)))
            r
            w
  unfolding serve gate_request_get_handler
  served r w name h_config e f = rw (gate_request_get_handler, e, f) refl

  -- The configuration of a request whose options name a declared filter with readable databases.
  pub init_chosen :
      (r : Request apr) (name : Bytes) (h_config : apr.Hash Bytes)
      → effective apr laws r gate_key ≡ some name
      → gate_handler_config apr r.server_config name ≡ some h_config
      → All (IsReadable apr laws host) (hash_entries h_config)
      → gate_request_init_configuration apr host r ≡ some (with_settings r h_config, true)
  unfolding note_handler
  init_chosen r name h_config e f readable =
      found apr laws host r (some name) (get-noted apr laws host r gate_key ∙ e)
      ∙ rw
          (
            note_handler,
            f,
            accepted_settings apr laws host (hash_entries h_config) (configured r) readable,
          )
          refl

  -- The filter that is then found.
  pub get_chosen :
      (r : Request apr) (name : Bytes) (h_config : apr.Hash Bytes)
      → effective apr laws r gate_key ≡ some name
      → gate_handler_config apr r.server_config name ≡ some h_config
      → last_value gate_key (hash_entries h_config) ≡ none
      → gate_request_get_handler apr host (with_settings r h_config)
        ≡ (path_of apr host (hash_get h_config database_key), with_settings r h_config)
  unfolding gate_request_get_handler
  get_chosen r name h_config e f other =
      rw
        (
          gate_request_get_handler,
          get-set_all apr laws (hash_entries h_config) (noted apr laws host r) gate_key,
          other,
          get-noted apr laws host r gate_key,
          e,
          f,
        )
        refl

  -- A request whose options name a declared filter is served from the database that the filter's
  -- `GateDatabase` names, if every database among its settings is readable and none of them is called
  -- `Gate`; the notes then hold all the settings.
  pub gate_request_handler_chosen :
      (r : Request apr) (w : World) (name : Bytes) (h_config : apr.Hash Bytes)
      → effective apr laws r gate_key ≡ some name
      → gate_handler_config apr r.server_config name ≡ some h_config
      → All (IsReadable apr laws host) (hash_entries h_config)
      → last_value gate_key (hash_entries h_config) ≡ none
      → gate_request_handler apr sq host r w
        ≡ serve_file apr sq host
            (database_file (path_of apr host (hash_get h_config database_key)))
            (with_settings r h_config)
            w
  unfolding serve_configured note_handler
  gate_request_handler_chosen r w name h_config e f readable other =
      rw
        (
          handler_from r w (some name) e,
          note_handler,
          f,
          accepted_settings apr laws host (hash_entries h_config) (configured r) readable,
          served (with_settings r h_config) w name h_config
              (get-set_all apr laws (hash_entries h_config) (noted apr laws host r) gate_key
                ∙ rw (other, get-noted apr laws host r gate_key) e)
              f,
        )
        refl

  refuse : (b : Bool) → ¬ (b ≡ true) → b ≡ false
  refuse true h = absurd (h refl)
  refuse false h = refl

  refused :
      (o : Request apr × Bool) (r : Request apr) (w : World)
      → o.1 ≡ false
      → ((serve_configured apr sq host (some o) r w).0 ≡ declined)
        × ((serve_configured apr sq host (some o) r w).2 ≡ w)
  unfolding serve_configured
  refused (q, true) r w e = cc e
  refused (q, false) r w e = (refl, refl)

  -- If a database among the settings of the filter is not readable, the request goes on: the handler
  -- answers DECLINED, and opens no database.
  pub gate_request_handler_unreadable :
      (r : Request apr) (w : World) (name : Bytes) (h_config : apr.Hash Bytes)
      → effective apr laws r gate_key ≡ some name
      → gate_handler_config apr r.server_config name ≡ some h_config
      → ¬ All (IsReadable apr laws host) (hash_entries h_config)
      → ((gate_request_handler apr sq host r w).0 ≡ declined)
        × ((gate_request_handler apr sq host r w).2 ≡ w)
  unfolding note_handler
  gate_request_handler_unreadable r w name h_config e f unreadable =
      rw (handler_from r w (some name) e, note_handler, f)
        (refused _ r w (
          refuse _ (λ b.
            unreadable (
              (note_settings-IsReadable apr laws host (hash_entries h_config) (configured r)).0
                b))))
