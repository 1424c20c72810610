-- ===== src/Tests/Children.antt =====
-- A child process that serves two requests.
use mod_gate.Apr.Assoc.{assoc, assoc_laws}
use mod_gate.Base.{◌≢◌, refl, inl, arith, List, [], ◌∷◌, none, codes}
use mod_gate.Gate.Child.Serving.{Reached, started, served, elsewhere, begun, Serves, Reached-Serves}
use mod_gate.Gate.Child.{Child, gate_child_init_hook, gate_handler}
use mod_gate.Gate.Chosen.{gate_request_handler_unnamed}
use mod_gate.Gate.Serve.Blocking.{gate_request_handler_stops}
use mod_gate.Gate.Serve.{Answer, crash}
use mod_gate.Gate.{Request}
use mod_gate.Tests.Site.{
  machine, filtered, request, world, blocked_row, settled, loopback, reaches, answers_one,
  named_row, no_name,
}
use mod_gate.Tests.Store.{store, store_laws}

-- A request without a filter.
abbrev unnamed : Request assoc
unnamed = request none (codes "/db")

abbrev young : Child assoc store machine
young = gate_child_init_hook assoc store machine (begun assoc store machine store_laws (world []))

-- The rows are written by another process.
abbrev told : Child assoc store machine
told = record young { world = world (blocked_row ∷ []) }

abbrev first_served : Child assoc store machine
first_served = (gate_handler assoc store machine filtered told).2

abbrev second_served : Child assoc store machine
second_served = (gate_handler assoc store machine unnamed first_served).2

abbrev both_answers : List Answer
both_answers =
    (gate_handler assoc store machine unnamed first_served).0
    ∷ (gate_handler assoc store machine filtered told).0
    ∷ []

-- The first request is stopped by the row, the second one declined.
first_no_fault : (gate_handler assoc store machine filtered told).0 ≢ crash
unfolding gate_handler
first_no_fault = λ h.
    let (stopped, rest) =
      gate_request_handler_stops assoc store machine store_laws filtered settled
        (world (blocked_row ∷ [])) loopback (blocked_row ∷ []) blocked_row
        (reaches (blocked_row ∷ [])) answers_one
        ((2130706433, 2130706433, refl, refl, omega arith), tt) (refl, tt) (inl refl) named_row in
    cc (stopped, h)

second_no_fault : (gate_handler assoc store machine unnamed first_served).0 ≢ crash
unfolding gate_handler
second_no_fault = λ h.
    let (passed, a, b, c, d) =
      gate_request_handler_unnamed assoc store machine assoc_laws unnamed first_served.world
        no_name in
    cc (passed, h)

two_requests : Reached assoc store machine store_laws (world []) both_answers second_served
unfolding store_laws gate_child_init_hook
two_requests =
    served _ first_served unnamed
      (served _ told filtered
        (elsewhere _ young (world (blocked_row ∷ [])) (started refl) refl refl) first_no_fault)
      second_no_fault

Reached-Serves_example : Serves assoc store machine store_laws (world []) both_answers second_served
Reached-Serves_example =
    Reached-Serves assoc store machine store_laws assoc_laws (world []) both_answers second_served
      two_requests
