-- ===== src/Tests/Servers.antt =====
-- A server with two virtual hosts, and one without any.
use mod_gate.Base.{ℕ, ◌+◌, ◌<◌, ◌≤◌, ◌≡◌, ◌≢◌, refl, none, some, arith}
use mod_gate.Server.Chain.{links, records}
use mod_gate.Server.Lifetime.{destroy-construct, assign_leaks}
use mod_gate.Server.{
  ServerRec, last_server, server_before, Heap, done, fault, construct, destroy, servers, assign,
  write, copy,
}

-- Told apart by their ports.
abbrev hosts : ServerRec ℕ
hosts = server_before 80 (server_before 8080 (last_server 8081))

abbrev alone : ServerRec ℕ
alone = last_server 443

-- Two objects on the stack, at the addresses 0 and 1.
abbrev blank : Heap ℕ
blank = record { fresh = 2; cell = λ a. none }

destroy-construct_example :
    (servers 3 0 (construct 0 hosts blank) ≡ some (records hosts))
    × ((h' : Heap ℕ) × (destroy 3 0 (construct 0 hosts blank) ≡ done h')
        × ((a : ℕ) → h'.cell a ≡ none))
destroy-construct_example =
    destroy-construct 3 0 hosts blank (omega arith) (omega arith) refl (λ a le. refl)

assign_leaks_example :
    (servers 1 0 (assign 0 alone (construct 0 hosts blank)) ≡ some (records alone))
    × ((h' : Heap ℕ) × (destroy 1 0 (assign 0 alone (construct 0 hosts blank)) ≡ done h')
        × ((a : ℕ) → 2 ≤ a → a < 2 + links hosts → h'.cell a ≢ none))
assign_leaks_example = assign_leaks 1 0 hosts alone blank (omega arith) (omega arith)

-- The object at 1 is a copy of that at 0, and both end.
two_ends :
    (h1 h2 : Heap ℕ) × (copy 1 0 (construct 0 hosts blank) ≡ done h1)
    × (destroy 3 1 h1 ≡ done h2)
    × (destroy 3 0 h2 ≡ fault)
unfolding copy construct destroy write
two_ends = (_, _, refl, refl, refl)
