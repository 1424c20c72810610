-- ===== src/Gate/Installed.antt =====
-- From the directives of src/mod_gate.c to the requests of src/module.cpp: a server that is configured
-- with one filter.
pub mod Stopping
use mathlib.Core.Option.{some_inj}
use mod_gate.Apr.{Apr, AprLaws, last_value}
use mod_gate.Base.{
  ◌≡◌, refl, sym, ap, ◌∙◌, Bool, true, false, List, [], ◌∷◌, Option, none, some, Bytes, equal,
  equal_iff, same_key, lower, map, All, if◌then◌else◌,
}
use mod_gate.Config.Laws.{hash_get-hash_set_self}
use mod_gate.Config.Refinement.{run_directives}
use mod_gate.Config.{
  Settings, Directive, gate, gate_declare, gate_database, run_directive, create_config,
  create_dir_conf, set_gate_filter, set_gate_filter_declare, set_gate_filter_database,
  gate_filter_set_params, set_param, gate_handler_config, gate_key, database_key,
}
use mod_gate.Gate.Chosen.{with_settings, gate_request_handler_chosen}
use mod_gate.Gate.Configured.{effective, IsReadable}
use mod_gate.Gate.Serve.{serve_file, database_file, gate_request_handler}
use mod_gate.Gate.{Request, path_of}
use mod_gate.Host.{Host}
use mod_gate.Sqlite.{Sqlite}

module _ (apr : Apr) where
  -- The settings before the first directive.
  abbrev pub initial : Option Bytes → Settings apr
  initial dir = record {
    server = create_config apr;
    directory = create_dir_conf apr dir;
    environment = [];
  }

  -- The directives of a filter: its name, its database, and its use for the server.
  abbrev pub filter_directives : Bytes → Bytes → List (Option Bytes × Directive apr)
  filter_directives name path =
      (none, gate_declare (some name))
      ∷ (none, gate_database (some name) (some path))
      ∷ (none, gate (some name))
      ∷ []

  -- The settings of the filter.
  abbrev pub filter_hash : Bytes → apr.Hash Bytes
  filter_hash path = apr.hash_set apr.hash_make database_key path

  abbrev pub installed : Option Bytes → Bytes → Bytes → Settings apr
  installed dir name path = record {
    server = record {
      handler = some name;
      default_database = none;
      options = apr.make;
      handlers =
          apr.hash_set (apr.hash_set apr.hash_make name apr.hash_make) name (filter_hash path);
    };
    directory = record { dir = dir; options = apr.make };
    environment = [];
  }

module _ (apr : Apr) (laws : AprLaws apr) where
  pub install :
      (dir : Option Bytes) (name path : Bytes)
      → run_directives apr (filter_directives apr name path) (initial apr dir)
        ≡ (installed apr dir name path, none)
  unfolding run_directives run_directive set_gate_filter set_gate_filter_declare
      set_gate_filter_database gate_filter_set_params set_param create_config create_dir_conf
  install dir name path =
      rw
        (
          laws.hash_get-hash_make,
          hash_get-hash_set_self apr laws (apr.Hash Bytes) apr.hash_make name apr.hash_make,
        )
        refl

  which :
      (b : Bool) (e : Bytes × Bytes) (path : Bytes)
      → (b ≡ true → e.0 ≡ database_key)
      → (if b then some path else none) ≡ some e.1
      → (e.0 ≡ database_key) × (e.1 ≡ path)
  which true e path t h = (t refl, sym (some_inj.0 h))
  which false e path t h = cc h

  only_database :
      (path : Bytes) (e : Bytes × Bytes)
      → apr.hash_get (filter_hash apr path) e.0 ≡ some e.1
      → (e.0 ≡ database_key) × (e.1 ≡ path)
  only_database path e h =
      which (equal database_key e.0) e path (λ t. sym ((equal_iff database_key e.0).0 t))
        (sym (
            laws.hash_get-hash_set Bytes apr.hash_make database_key path e.0
            ∙ ap (λ o. if equal database_key e.0 then some path else o)
                (laws.hash_get-hash_make Bytes e.0))
          ∙ h)

  gate_apart : (k : Bytes) → k ≡ database_key → same_key k gate_key ≡ false
  unfolding gate_key database_key same_key
  gate_apart k h = rw h refl

  same_gate : same_key gate_key gate_key ≡ true
  unfolding same_key
  same_gate = (equal_iff (map lower gate_key) (map lower gate_key)).1 refl

  names_filter :
      (r : Request apr) (name : Bytes)
      → apr.get r.dir_config.options gate_key ≡ none
      → r.server_config.handler ≡ some name
      → effective apr laws r gate_key ≡ some name
  unfolding effective
  names_filter r name free chosen = rw (same_gate, free, chosen) refl

  module _ (host : Host) where
    filter_hash-IsReadable :
        (path : Bytes) (es : List (Bytes × Bytes))
        → host.readable path ≡ true
        → All (λ e. apr.hash_get (filter_hash apr path) e.0 ≡ some e.1) es
        → All (IsReadable apr laws host) es × (last_value gate_key es ≡ none)
    filter_hash-IsReadable path [] r h = (tt, refl)
    filter_hash-IsReadable path (e ∷ es) r (h, hs) =
        let (k, v) = only_database path e h in
        let (readable, other) = filter_hash-IsReadable path es r hs in
        ((λ _. ap host.readable v ∙ r, readable), rw (other, gate_apart e.0 k) refl)

    -- What the configuration of a request finds at a server with the filter.
    pub record Finds (r : Request apr) (name path : Bytes) : Type 0 where
      pub named : effective apr laws r gate_key ≡ some name
      pub handled : gate_handler_config apr r.server_config name ≡ some (filter_hash apr path)
      pub databases : All (IsReadable apr laws host) (apr.hash_entries (filter_hash apr path))
      pub other : last_value gate_key (apr.hash_entries (filter_hash apr path)) ≡ none
      pub database : apr.hash_get (filter_hash apr path) database_key ≡ some path

    pub installed-Finds :
        (dir : Option Bytes) (name path : Bytes) (r : Request apr)
        → host.readable path ≡ true
        → r.server_config
          ≡ (run_directives apr (filter_directives apr name path) (initial apr dir)).0.server
        → apr.get r.dir_config.options gate_key ≡ none
        → Finds r name path
    unfolding gate_handler_config
    installed-Finds dir name path r readable server free =
        let config : r.server_config ≡ (installed apr dir name path).server =
          server ∙ ap (λ o. o.0.server) (install dir name path) in
        let (databases, other) =
          filter_hash-IsReadable path (apr.hash_entries (filter_hash apr path)) readable
            (laws.hash_get-hash_entries Bytes (filter_hash apr path)) in
        record {
          named = names_filter r name free (ap (λ c. c.handler) config);
          handled =
              ap (λ c. gate_handler_config apr c name) config
              ∙ hash_get-hash_set_self apr laws (apr.Hash Bytes) _ name (filter_hash apr path);
          databases = databases;
          other = other;
          database = hash_get-hash_set_self apr laws Bytes apr.hash_make database_key path;
        }

    module _ (sq : Sqlite) where
      -- A filter that is declared, given a database and chosen by the directives of the server, none of
      -- which is refused, serves every request whose directory does not name another one: if the
      -- database is readable then the handler opens it, whatever notes the request came with.
      pub installed_filter :
          (dir : Option Bytes) (name path : Bytes) (r : Request apr) (w : sq.World)
          → host.readable path ≡ true
          → r.server_config
            ≡ (run_directives apr (filter_directives apr name path) (initial apr dir)).0.server
          → apr.get r.dir_config.options gate_key ≡ none
          → ((run_directives apr (filter_directives apr name path) (initial apr dir)).1 ≡ none)
            × (gate_request_handler apr sq host r w
                ≡ serve_file apr sq host
                    (database_file path)
                    (with_settings apr sq host laws r (filter_hash apr path))
                    w)
      installed_filter dir name path r w readable server free =
          let f = installed-Finds dir name path r readable server free in
          (
            ap (λ o. o.1) (install dir name path),
            gate_request_handler_chosen apr sq host laws r w name (filter_hash apr path) f.named
                  f.handled f.databases f.other
                ∙ ap
                    (λ (o : Option Bytes).
                      serve_file apr sq host (database_file (path_of apr host o))
                        (with_settings apr sq host laws r (filter_hash apr path)) w)
                    f.database,
          )
