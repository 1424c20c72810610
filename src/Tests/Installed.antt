-- ===== src/Tests/Installed.antt =====
-- A server that is configured from its directives.
use mod_gate.Apr.Assoc.{assoc, assoc_laws}
use mod_gate.Base.{
  Bool, ◌≡◌, ◌≢◌, inl, arith, refl, sym, ap, lower, same_key, List, [], ◌∷◌, Option, none, some,
  Bytes, codes, equal,
}
use mod_gate.Config.Refinement.{View, run_directives, run_directives-meanings, meanings, view}
use mod_gate.Config.{
  Settings, Directive, gate, gate_declare, gate_database, gate_config_var, gate_filter_config,
  gate_key,
}
use mod_gate.Gate.Chosen.{with_settings}
use mod_gate.Gate.Installed.{
  initial, filter_directives, filter_hash, installed, installed_filter, install,
}
use mod_gate.Gate.Installed.Stopping.{Meets, installed_stops}
use mod_gate.Gate.Serve.Lookup.{matches, marked}
use mod_gate.Gate.Serve.Blocking.{Names}
use mod_gate.Gate.Serve.Rows.{IpRow, at_least, at_most, where_text, Among, Answers, hit}
use mod_gate.Host.{little, host_address, load_u32, htonl}
use mod_gate.Decimal.{u32_text, digits, read_digits}
use mod_gate.Gate.Serve.Answers.{Settled, gate_request_handler_answers}
use mod_gate.Gate.Serve.{gate_request_handler, ok, serve_file, database_file}
use mod_gate.Gate.{Request, formatted, gate_request_init_configuration}
use mod_gate.Tests.Site.{
  machine, filtered, world, rows, readable_db, loopback, blocked_row, named_row,
}
use mod_gate.Tests.Store.{store, store_laws}

abbrev ads : Bytes
ads = codes "ads"

-- A filter, an option of a directory, and a setting of a filter that is not declared.
abbrev lines : List (Option Bytes × Directive assoc)
lines =
    (none, gate_declare (some ads))
    ∷ (none, gate_database (some ads) (some (codes "/db")))
    ∷ (some (codes "not here"), gate_config_var (some (codes "Colour")) (codes "red"))
    ∷ (none, gate_filter_config (some (codes "other")) (codes "k") (some (codes "v")))
    ∷ (none, gate (some ads))
    ∷ []

run_directives-meanings_example :
    ◌≡◌ {A = View × Option Bytes}
      (
        view assoc (run_directives assoc lines (initial assoc none)).0,
        (run_directives assoc lines (initial assoc none)).1,
      )
      (meanings assoc lines (view assoc (initial assoc none)))
run_directives-meanings_example =
    run_directives-meanings assoc assoc_laws lines (initial assoc none)

abbrev configured : Settings assoc
configured = installed assoc none ads (codes "/db")

abbrev client : Request assoc
client = record filtered { server_config = configured.server }

from_directives :
    client.server_config
    ≡ (run_directives assoc
        (filter_directives assoc ads (codes "/db"))
        (initial assoc none)).0.server
from_directives = sym (ap (λ o. o.0.server) (install assoc assoc_laws none ads (codes "/db")))

no_other : assoc.get client.dir_config.options gate_key ≡ none
unfolding gate_key equal same_key lower
no_other = refl

installed_filter_example :
    ((run_directives assoc (filter_directives assoc ads (codes "/db")) (initial assoc none)).1
      ≡ none)
    × (gate_request_handler assoc store machine client (world rows)
        ≡ serve_file assoc store machine
            (database_file (codes "/db"))
            (with_settings assoc store machine assoc_laws client (filter_hash assoc (codes "/db")))
            (world rows))
installed_filter_example =
    installed_filter assoc assoc_laws machine store none ads (codes "/db") client (world rows)
      readable_db from_directives no_other

gate_request_handler_answers_example :
    (o : Request assoc × Bool) × (gate_request_init_configuration assoc machine filtered ≡ some o)
    × Settled assoc store machine o
        (world rows)
        (gate_request_handler assoc store machine filtered (world rows)).0
gate_request_handler_answers_example =
    gate_request_handler_answers assoc store machine assoc_laws filtered (world rows)

-- A percent sign in the path of a database is taken for a directive.
misread : formatted (codes "100%sure") ≡ none
unfolding formatted
misread = refl

doubled : formatted (codes "100%%") ≡ some (codes "100%")
unfolding formatted
doubled = refl

path_given : codes "/db" ≢ []
path_given e = ground arith

client_address : machine.inet_pton client.remote_ip ≡ some loopback
unfolding equal
client_address = refl

client-Meets :
    Meets assoc assoc_laws machine store none ads
      (codes "/db")
      client
      (world (blocked_row ∷ []))
      loopback
client-Meets = record {
  readable = readable_db;
  server = from_directives;
  free = no_other;
  path_ne_nil = path_given;
  opens = refl;
  address = client_address;
}

table-Answers :
    Answers store
      (store.db_open (codes "/db") (world (blocked_row ∷ []))).1
      (store.db_open (codes "/db") (world (blocked_row ∷ []))).2
      (where_text at_least (host_address little loopback) at_most (host_address little loopback))
      (blocked_row ∷ [])
      (matches (host_address little loopback))
unfolding host_address load_u32 htonl where_text u32_text digits read_digits
table-Answers = hit blocked_row (inl refl) refl refl refl refl refl

installed_stops_example :
    ((gate_request_handler assoc store machine client (world (blocked_row ∷ []))).0 ≡ ok)
    × ((y : IpRow) × Among y (blocked_row ∷ [])
        × Names (host_address little loopback) y
        × ((gate_request_handler assoc store machine client (world (blocked_row ∷ []))).1
            ≡ marked assoc store machine
                (with_settings assoc store machine assoc_laws client
                  (filter_hash assoc (codes "/db")))
                y))
installed_stops_example =
    installed_stops assoc assoc_laws machine store store_laws none ads (codes "/db") client
      (world (blocked_row ∷ [])) loopback (blocked_row ∷ []) blocked_row client-Meets table-Answers
      ((2130706433, 2130706433, refl, refl, omega arith), tt) (refl, tt) (inl refl) named_row
