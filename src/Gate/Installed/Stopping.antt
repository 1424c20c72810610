-- ===== src/Gate/Installed/Stopping.antt =====
-- From the directives of src/mod_gate.c to the answers of src/module.cpp, through the table of a
-- filter's database.
use mod_gate.Apr.{Apr, AprLaws}
use mod_gate.Base.{
  ◌≡◌, ◌≢◌, ap, ◌∙◌, true, false, List, [], Option, none, some, Bytes, pos, int_eq, All,
}
use mod_gate.Config.Refinement.{run_directives}
use mod_gate.Config.{gate_key}
use mod_gate.Gate.Chosen.{with_settings, init_chosen, get_chosen}
use mod_gate.Gate.Installed.{initial, filter_directives, filter_hash, installed-Finds}
use mod_gate.Gate.Serve.Blocking.{Reaches, Names, gate_request_handler_stops}
use mod_gate.Gate.Serve.Lookup.{matches, IsRange, marked}
use mod_gate.Gate.Serve.Rows.{IpRow, at_least, at_most, where_text, Among, Answers}
use mod_gate.Gate.Serve.{gate_request_handler, ok}
use mod_gate.Gate.{Request, path_of}
use mod_gate.Host.{Host, InAddr, host_address}
use mod_gate.Sqlite.Laws.{SqliteLaws}
use mod_gate.Sqlite.{Sqlite}

module _ (apr : Apr) (laws : AprLaws apr) (host : Host) (sq : Sqlite) where
  -- What a request meets at a server with the filter, up to the table: the database is readable and
  -- opens, the directory names no other filter, and the client's address is `a`.
  pub record Meets (dir : Option Bytes) (name path : Bytes) (r : Request apr) (w : sq.World)
      (a : InAddr) : Type 0 where
    pub readable : host.readable path ≡ true
    pub server :
        r.server_config
        ≡ (run_directives apr (filter_directives apr name path) (initial apr dir)).0.server
    pub free : apr.get r.dir_config.options gate_key ≡ none
    pub path_ne_nil : path ≢ []
    pub opens : (sq.db_open path w).0 ≡ 0
    pub address : host.inet_pton r.remote_ip ≡ some a

  abbrev settled : Request apr → Bytes → Request apr
  settled r path = with_settings apr sq host laws r (filter_hash apr path)

  -- Such a request is looked up in the database of the filter.
  unfoldable reaching :
      (dir : Option Bytes) (name path : Bytes) (r : Request apr) (w : sq.World) (a : InAddr)
      → Meets dir name path r w a
      → Reaches apr sq host r w (settled r path) a
  reaching dir name path r w a m =
      let f = installed-Finds apr laws host dir name path r m.readable m.server m.free in
      record {
        configured = settled r path;
        init =
            init_chosen apr sq host laws r name (filter_hash apr path) f.named f.handled
              f.databases;
        path = path;
        path_ne_nil = m.path_ne_nil;
        chosen =
            get_chosen apr sq host laws r name (filter_hash apr path) f.named f.handled f.other
            ∙ ap (λ (o : Option Bytes). (path_of apr host o, settled r path)) f.database;
        opens = m.opens;
        address = m.address;
      }

  -- A filter that the directives of the server declare, give a database and choose stops the addresses
  -- of its table: if the database holds ranges whose codes are not 200, and a row names the client's
  -- address alone, then the handler answers OK and sets the status of the request to the code of a
  -- row that names the address alone. The database is readable and opens, and the directory names
  -- no other filter.
  pub installed_stops :
      (closing : SqliteLaws sq) (dir : Option Bytes) (name path : Bytes) (r : Request apr)
      (w : sq.World) (a : InAddr) (rows : List IpRow) (x : IpRow)
      → Meets dir name path r w a
      → Answers sq
          (sq.db_open path w).1
          (sq.db_open path w).2
          (where_text at_least (host_address host.order a) at_most (host_address host.order a))
          rows
          (matches (host_address host.order a))
      → All IsRange rows
      → All (λ y. int_eq y.http_code (pos 200) ≡ false) rows
      → Among x rows
      → Names (host_address host.order a) x
      → ((gate_request_handler apr sq host r w).0 ≡ ok)
        × ((y : IpRow) × Among y rows
            × Names (host_address host.order a) y
            × ((gate_request_handler apr sq host r w).1
                ≡ marked apr sq host (with_settings apr sq host laws r (filter_hash apr path)) y))
  unfolding reaching
  installed_stops closing dir name path r w a rows x m answers ranges codes among names =
      gate_request_handler_stops apr sq host closing r (settled r path) w a rows x
        (reaching dir name path r w a m) answers ranges codes among names
