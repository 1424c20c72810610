-- ===== src/Server.antt =====
-- src/server.cpp and src/server.h: the class `Server`, which wraps the chain of the server's
-- `server_rec` in a chain of its own.
pub mod Chain
pub mod Lifetime
use mod_gate.Base.{ℕ, suc, zero, ◌+◌, Option, none, some, ◌==◌, if◌then◌else◌, List, [], ◌∷◌}

-- A `server_rec` and what its `next` points to; `F` is what else it holds.
pub data ServerRec (F : Type 0) : Type 0 where
  last_server : F → ServerRec F
  server_before : F → ServerRec F → ServerRec F

module _ {F : Type 0} where
  abbrev pub next_rec : ServerRec F → Option (ServerRec F)
  next_rec (last_server f) = none
  next_rec (server_before f r) = some r

-- `_sr` and `_next`.
pub record Server (F : Type 0) : Type 0 where
  pub sr : Option (ServerRec F)
  pub next : Option ℕ

-- The objects at their addresses, on the stack or in the free store; `new` takes the address `fresh`,
-- and no address twice.
pub record Heap (F : Type 0) : Type 0 where
  pub fresh : ℕ
  pub cell : ℕ → Option (Server F)

-- `fault` is the use of an address that holds no object.
pub data Run (F : Type 0) : Type 0 where
  done : Heap F → Run F
  fault : Run F
  out_of_fuel : Run F

module _ {F : Type 0} where
  unfoldable pub write : ℕ → Option (Server F) → Heap F → Heap F
  write p o h = record h { cell = λ a. if a == p then o else h.cell a }

  -- `Server::Server(s)` on the storage at `this`. The object is written at the end, when the
  -- followers have been made by `new Server(s->next)`.
  unfoldable pub construct : ℕ → ServerRec F → Heap F → Heap F
  construct this (last_server f) h =
      write this (some (record { sr = some (last_server f); next = none })) h
  construct this (server_before f r) h =
      let h' = construct h.fresh r (record h { fresh = h.fresh + 1 }) in
      write this (some (record { sr = some (server_before f r); next = some h.fresh })) h'

  -- `new Server(s->next)` or NULL.
  unfoldable pub new_next : Option (ServerRec F) → Heap F → Option ℕ × Heap F
  unfolding construct
  new_next none h = (none, h)
  new_next (some r) h = (some h.fresh, construct h.fresh r (record h { fresh = h.fresh + 1 }))

  -- `operator=(sr)`; what `_next` held is not looked at.
  unfoldable pub assign : ℕ → ServerRec F → Heap F → Heap F
  unfolding new_next
  assign this sr h =
      let (p, h') = new_next (next_rec sr) h in
      write this (some (record { sr = some sr; next = p })) h'

  -- The copy that the compiler defines: both fields.
  unfoldable pub copy : ℕ → ℕ → Heap F → Run F
  copy this that h = elim (h.cell that) [ none ↦ fault | some o ↦ done (write this (some o) h) ]

  -- The end of an object: the destructor sets `_sr` to NULL and deletes `_next`, and then the storage
  -- is given back.
  unfoldable pub destroy : ℕ → ℕ → Heap F → Run F
  destroy zero this h = out_of_fuel
  destroy (suc fuel) this h = elim (h.cell this) [
    | none ↦ fault
    | some o ↦ elim o.next [
      | none ↦ done (write this none h)
      | some p ↦ elim (destroy fuel p (write this (some (record o { sr = none })) h)) [
        | done h' ↦ done (write this none h')
        | fault ↦ fault
        | out_of_fuel ↦ out_of_fuel
      ]
    ]
  ]

  -- The servers that a caller reads from an object on by `next()`, with fuel; `none` is a fault or the
  -- end of the fuel.
  unfoldable pub servers : ℕ → ℕ → Heap F → Option (List (Option (ServerRec F)))
  servers zero this h = none
  servers (suc fuel) this h = elim (h.cell this) [
    | none ↦ none
    | some o ↦ elim o.next [
      | none ↦ some (o.sr ∷ [])
      | some p ↦ elim (servers fuel p h) [ none ↦ none | some rs ↦ some (o.sr ∷ rs) ]
    ]
  ]
