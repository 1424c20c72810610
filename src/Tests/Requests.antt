-- ===== src/Tests/Requests.antt =====
-- Requests to a server with one filter.
use mod_gate.Apr.Assoc.{assoc, assoc_laws}
use mod_gate.Base.{◌≡◌, refl, inl, [], ◌∷◌, none, some, Bytes, codes, pos, equal, arith}
use mod_gate.Config.{gate_key, database_key}
use mod_gate.Gate.Chosen.{
  gate_request_handler_unnamed, gate_request_handler_chosen, gate_request_handler_unreadable,
  configured,
}
use mod_gate.Gate.Configured.{gate_request_init_configuration_lem, effective, noted}
use mod_gate.Gate.Serve.Blocking.{
  Names, gate_request_handler-Verdict, gate_request_handler_stops, gate_request_handler_ranges,
}
use mod_gate.Gate.Serve.Lookup.{Verdict, marked}
use mod_gate.Gate.Serve.Rows.{IpRow, Among}
use mod_gate.Gate.Serve.{gate_request_handler, ok, declined, serve_file, database_file}
use mod_gate.Gate.{gate_request_init_configuration, path_of, note_handler}
use mod_gate.Host.{little, host_address}
use mod_gate.Tests.Store.{store, store_laws}
use mod_gate.Tests.Site.{
  loopback, machine, request, filtered, blocked_row, range_row, world, settled, reaches, rows,
  answers, answers_one, answers_none, named_row, misplaced, no_name, one_name, one_name_misplaced,
  declared_filter, declared_misplaced, readable_db, no_gate_setting, gone,
}

gate_request_handler-Verdict_example :
    Verdict assoc store machine
      (host_address little loopback)
      rows
      settled
      (gate_request_handler assoc store machine filtered (world rows)).1
      (gate_request_handler assoc store machine filtered (world rows)).0
gate_request_handler-Verdict_example =
    gate_request_handler-Verdict assoc store machine store_laws filtered settled (world rows)
      loopback rows (reaches rows) answers

gate_request_handler_stops_example :
    ((gate_request_handler assoc store machine filtered (world (blocked_row ∷ []))).0 ≡ ok)
    × ((y : IpRow) × Among y (blocked_row ∷ [])
        × Names (host_address little loopback) y
        × ((gate_request_handler assoc store machine filtered (world (blocked_row ∷ []))).1
            ≡ marked assoc store machine settled y))
gate_request_handler_stops_example =
    gate_request_handler_stops assoc store machine store_laws filtered settled
      (world (blocked_row ∷ [])) loopback (blocked_row ∷ []) blocked_row
      (reaches (blocked_row ∷ [])) answers_one
      ((2130706433, 2130706433, refl, refl, omega arith), tt) (refl, tt) (inl refl) named_row

gate_request_handler_ranges_example :
    ((gate_request_handler assoc store machine filtered (world (range_row ∷ []))).0 ≡ declined)
    × ((gate_request_handler assoc store machine filtered (world (range_row ∷ []))).1 ≡ settled)
gate_request_handler_ranges_example =
    gate_request_handler_ranges assoc store machine store_laws filtered settled
      (world (range_row ∷ [])) loopback (range_row ∷ []) (reaches (range_row ∷ [])) answers_none
      ((2130706432, 2130706687, refl, refl, omega arith), tt)

gate_request_handler_unnamed_example :
    ((gate_request_handler assoc store machine (request none (codes "/db")) (world rows)).0
      ≡ declined)
    × ((gate_request_handler assoc store machine (request none (codes "/db")) (world rows)).2
        ≡ world rows)
    × ((gate_request_handler assoc store machine (request none (codes "/db")) (world rows)).1.body
        ≡ [])
    × ((gate_request_handler assoc store machine (request none (codes "/db")) (world rows)).1.log
        ≡ [])
    × ((gate_request_handler assoc store machine (request none (codes "/db")) (world rows)).1.status
        ≡ pos 0)
gate_request_handler_unnamed_example =
    gate_request_handler_unnamed assoc store machine assoc_laws (request none (codes "/db"))
      (world rows) no_name

gate_request_handler_chosen_example :
    gate_request_handler assoc store machine filtered (world rows)
    ≡ serve_file assoc store machine
        (database_file (path_of assoc machine (some (codes "/db"))))
        settled
        (world rows)
unfolding equal database_key
gate_request_handler_chosen_example =
    gate_request_handler_chosen assoc store machine assoc_laws filtered (world rows) (codes "ads")
      ((codes "GateDatabase", codes "/db") ∷ []) one_name declared_filter (λ e. readable_db, tt)
      no_gate_setting

gate_request_handler_unreadable_example :
    ((gate_request_handler assoc store machine misplaced (world rows)).0 ≡ declined)
    × ((gate_request_handler assoc store machine misplaced (world rows)).2 ≡ world rows)
gate_request_handler_unreadable_example =
    gate_request_handler_unreadable assoc store machine assoc_laws misplaced (world rows)
      (codes "ads") ((codes "GateDatabase", codes "/gone") ∷ []) one_name_misplaced
      declared_misplaced gone

gate_request_init_configuration_lem_example :
    ((k : Bytes)
      → assoc.get (noted assoc assoc_laws machine filtered) k
        ≡ effective assoc assoc_laws filtered k)
    × (gate_request_init_configuration assoc machine filtered
        ≡ some (
            note_handler assoc machine
              (configured assoc store machine assoc_laws filtered)
              (effective assoc assoc_laws filtered gate_key)))
gate_request_init_configuration_lem_example =
    gate_request_init_configuration_lem assoc assoc_laws machine filtered
