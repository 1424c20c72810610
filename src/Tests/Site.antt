-- ===== src/Tests/Site.antt =====
-- A server with one filter, requests to it, and the databases that answer them.
use mod_gate.Apr.Assoc.{assoc, assoc_laws}
use mod_gate.Apr.{last_value}
use mod_gate.Apr.Table.{each, bind, next, key, value, entry_at}
use mod_gate.Base.{
  ◌≡◌, refl, inl, inr, true, List, [], ◌∷◌, Option, none, some, Bytes, codes, pos, if◌then◌else◌,
  equal, lower, same_key, arith, All,
}
use mod_gate.Config.{
  GateConfig, DirConfig, gate_key, database_key, default_database_key, gate_handler_config,
}
use mod_gate.Decimal.{read_digits, u32_text, digits}
use mod_gate.Gate.Chosen.{with_settings}
use mod_gate.Gate.Configured.{effective, noted, IsReadable}
use mod_gate.Gate.Serve.Blocking.{Reaches, AnswersAt, Names}
use mod_gate.Gate.Serve.Rows.{IpRow, int, where_text, hit, miss}
use mod_gate.Gate.{
  Request, gate_request_init_configuration, gate_request_get_handler, note_handler, note_settings,
  note, merge_var, merge_from,
}
use mod_gate.Host.{Host, InAddr, little, host_address, load_u32, htonl}
use mod_gate.Tests.Store.{Store, store, store_laws}

abbrev pub loopback : InAddr
loopback = record { first_byte = 127; second_byte = 0; third_byte = 0; fourth_byte = 1 }

abbrev pub machine : Host
machine = record {
  pid = 7;
  order = little;
  readable = λ path. equal path (codes "/db");
  inet_pton = λ s. if equal s (codes "127.0.0.1") then some loopback else none;
}

abbrev pub server : Option Bytes → Bytes → GateConfig assoc
server handler path = record {
  handler = handler;
  default_database = some (codes "/db");
  options = [];
  handlers = (codes "ads", (codes "GateDatabase", path) ∷ []) ∷ [];
}

abbrev pub directory : DirConfig assoc
directory = record { dir = some (codes "/"); options = (codes "Colour", codes "red") ∷ [] }

abbrev pub request : Option Bytes → Bytes → Request assoc
request handler path = record {
  notes = [];
  headers_in = [];
  server_config = server handler path;
  dir_config = directory;
  remote_ip = codes "127.0.0.1";
  status = pos 0;
  body = [];
  log = [];
}

abbrev pub filtered : Request assoc
filtered = request (some (codes "ads")) (codes "/db")

abbrev pub blocked_row : IpRow
blocked_row = record {
  id = pos 1;
  start = int 2130706433;
  end = int 2130706433;
  http_code = pos 403;
}

abbrev pub range_row : IpRow
range_row = record { id = pos 2; start = int 2130706432; end = int 2130706687; http_code = pos 403 }

abbrev pub world : List IpRow → Store
world rows = record { rows = rows; current = none; open_dbs = 0; open_stmts = 0 }

-- The request that is looked up.
abbrev pub settled : Request assoc
settled =
    with_settings assoc store machine assoc_laws filtered ((codes "GateDatabase", codes "/db") ∷ [])

pub runs : gate_request_init_configuration assoc machine filtered ≡ some (settled, true)
unfolding gate_request_init_configuration noted each bind next key value entry_at merge_var
    merge_from gate_key database_key default_database_key equal same_key lower note_handler
    note_settings note gate_handler_config
runs = refl

pub picks : gate_request_get_handler assoc machine settled ≡ (codes "/db", settled)
unfolding gate_request_get_handler noted merge_var merge_from gate_key database_key
    default_database_key equal same_key lower gate_handler_config
picks = refl

pub reaches :
    (rows : List IpRow) → Reaches assoc store machine filtered (world rows) settled loopback
unfolding equal
reaches rows = record {
  configured = settled;
  init = runs;
  path = codes "/db";
  path_ne_nil = λ e. ground arith;
  chosen = picks;
  opens = refl;
  address = refl;
}

abbrev pub rows : List IpRow
rows = range_row ∷ blocked_row ∷ []

pub answers : AnswersAt assoc store machine store_laws (reaches rows) rows
unfolding reaches host_address load_u32 htonl where_text u32_text digits read_digits
answers = hit blocked_row (inr (inl refl)) refl refl refl refl refl

pub answers_one :
    AnswersAt assoc store machine store_laws (reaches (blocked_row ∷ [])) (blocked_row ∷ [])
unfolding reaches host_address load_u32 htonl where_text u32_text digits read_digits
answers_one = hit blocked_row (inl refl) refl refl refl refl refl

pub answers_none :
    AnswersAt assoc store machine store_laws (reaches (range_row ∷ [])) (range_row ∷ [])
unfolding reaches host_address load_u32 htonl where_text u32_text digits read_digits
answers_none = miss (refl, tt) refl (omega arith)

pub named_row : Names (host_address little loopback) blocked_row
unfolding host_address load_u32 htonl
named_row = (refl, refl)

abbrev pub misplaced : Request assoc
misplaced = request (some (codes "ads")) (codes "/gone")

abbrev pub agent : List (Bytes × Bytes)
agent = (codes "User-Agent", codes "crawler") ∷ []

pub no_name : effective assoc assoc_laws (request none (codes "/db")) gate_key ≡ none
unfolding effective gate_key default_database_key equal same_key lower
no_name = refl

pub one_name : effective assoc assoc_laws filtered gate_key ≡ some (codes "ads")
unfolding effective gate_key default_database_key equal same_key lower
one_name = refl

pub one_name_misplaced : effective assoc assoc_laws misplaced gate_key ≡ some (codes "ads")
unfolding effective gate_key default_database_key equal same_key lower
one_name_misplaced = refl

pub declared_filter :
    gate_handler_config assoc filtered.server_config (codes "ads")
    ≡ some ((codes "GateDatabase", codes "/db") ∷ [])
unfolding gate_handler_config equal
declared_filter = refl

pub declared_misplaced :
    gate_handler_config assoc misplaced.server_config (codes "ads")
    ≡ some ((codes "GateDatabase", codes "/gone") ∷ [])
unfolding gate_handler_config equal
declared_misplaced = refl

pub readable_db : machine.readable (codes "/db") ≡ true
unfolding equal
readable_db = refl

pub no_gate_setting : last_value gate_key ((codes "GateDatabase", codes "/db") ∷ []) ≡ none
unfolding gate_key equal same_key lower
no_gate_setting = refl

pub gone : ¬ All (IsReadable assoc assoc_laws machine) ((codes "GateDatabase", codes "/gone") ∷ [])
unfolding database_key equal
gone h = cc (h.0 refl)
