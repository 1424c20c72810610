-- ===== src/Gate/Configured.antt =====
-- What `gate_request_init_configuration` (src/module.cpp) leaves in the notes of a request.
use mod_gate.Apr.Table.Walk.{each-foldl}
use mod_gate.Apr.{Apr, AprLaws, or_else, last_value}
use mod_gate.Base.{
  suc, ◌≡◌, refl, sym, ap, ◌∙◌, ◌↔◌, inl, inr, Bool, true, false, List, [], ◌∷◌, Option, none, some,
  foldl, length, Bytes, equal, same_key, equal_iff, lower, map, arith, if◌then◌else◌, All,
  Bool-cases,
}
use mod_gate.Config.{gate_key, database_key, default_database_key}
use mod_gate.Gate.{
  Request, copy_notes, merge_var, note_settings, note_handler, gate_request_init_configuration,
  note, merge_from,
}
use mod_gate.Host.{Host}

or_else_if :
    (a b : Option Bytes) (same : Bool) (v : Bytes)
    → or_else a (if same then some v else b) ≡ or_else (or_else a (if same then some v else none)) b
or_else_if (some x) b true v = refl
or_else_if (some x) b false v = refl
or_else_if none b true v = refl
or_else_if none b false v = refl

module _ (apr : Apr) (laws : AprLaws apr) where
  open apr use {Table, elts, get, set}

  abbrev pub set_all : Table → List (Bytes × Bytes) → Table
  set_all t es = foldl (λ s e. set s e.0 e.1) t es

  pub get-set_all :
      (es : List (Bytes × Bytes)) (t : Table) (k : Bytes)
      → get (set_all t es) k ≡ or_else (last_value k es) (get t k)
  get-set_all [] t k = refl
  get-set_all ((j, v) ∷ es) t k =
      get-set_all es (set t j v) k
      ∙ ap (or_else (last_value k es)) (laws.get-set t j v k)
      ∙ or_else_if (last_value k es) (get t k) (same_key j k) v

  copy_notes_lem :
      (host : Host) (from t : Table) → copy_notes apr host from t ≡ some (set_all t (elts from))
  copy_notes_lem host from t = each-foldl (suc (length (elts from))) (elts from) set t (omega arith)

  get-merge_from :
      (t : Table) (name : Bytes) (own server : Option Bytes) (k : Bytes)
      → get (merge_from apr t name own server) k
        ≡ (if same_key name k then or_else (or_else own server) (get t k) else get t k)
  unfolding merge_from
  get-merge_from t name (some v) server k = laws.get-set t name v k
  get-merge_from t name none (some v) k = laws.get-set t name v k
  get-merge_from t name none none k = elim (Bool-cases (same_key name k)) [
    | inl e ↦ rw e refl
    | inr e ↦ rw e refl
  ]

  -- The value that the notes have for a key after the two copies: the directory's last one, or else the
  -- server's, or else the one that the request came with.
  abbrev pub copied : Request apr → Bytes → Option Bytes
  copied r k =
      or_else (last_value k (elts r.dir_config.options))
        (or_else (last_value k (elts r.server_config.options)) (get r.notes k))

  -- The value of a key when `gate_request_init_configuration` looks for the handler.
  unfoldable pub effective : Request apr → Bytes → Option Bytes
  effective r k =
      if same_key gate_key k
      then or_else (or_else (get r.dir_config.options gate_key) r.server_config.handler)
          (copied r k)
      else if same_key default_database_key k
      then or_else
          (or_else (get r.dir_config.options default_database_key) r.server_config.default_database)
          (copied r k)
      else copied r k

  -- The notes then.
  unfoldable pub noted : Host → Request apr → Table
  noted host r =
      (merge_var apr r.dir_config
        (merge_var apr r.dir_config
          (set_all (set_all r.notes (elts r.server_config.options)) (elts r.dir_config.options))
          default_database_key r.server_config.default_database).0
        gate_key r.server_config.handler).0

  keys_apart : (k : Bytes) → same_key gate_key k ≡ true → same_key default_database_key k ≡ false
  unfolding gate_key default_database_key same_key
  keys_apart k h = rw (sym ((equal_iff (map lower gate_key) (map lower k)).0 h)) refl

  pub get-noted : (host : Host) (r : Request apr) (k : Bytes) → get (noted host r) k ≡ effective r k
  unfolding noted effective merge_var
  get-noted host r k = elim (Bool-cases (same_key gate_key k)) [
    | inl e ↦ rw (get-merge_from, get-merge_from, get-set_all, get-set_all, e, keys_apart k e) refl
    | inr e ↦ rw (get-merge_from, get-merge_from, get-set_all, get-set_all, e) refl
  ]

  pub found :
      (host : Host) (r : Request apr) (h : Option Bytes)
      → get (noted host r) gate_key ≡ h
      → gate_request_init_configuration apr host r
        ≡ some (note_handler apr host (record r { notes = noted host r }) h)
  unfolding noted gate_request_init_configuration merge_var note_handler
  found host r none e =
      rw
        (
          gate_request_init_configuration,
          copy_notes_lem host r.server_config.options r.notes,
          copy_notes_lem host r.dir_config.options (set_all r.notes (elts r.server_config.options)),
          e,
        )
        refl
  found host r (some v) e =
      rw
        (
          gate_request_init_configuration,
          copy_notes_lem host r.server_config.options r.notes,
          copy_notes_lem host r.dir_config.options (set_all r.notes (elts r.server_config.options)),
          e,
        )
        refl

  -- The configuration of a request ends and faults nowhere. Before it looks for the handler, the
  -- notes have for each key the option of the directory that was set last, or else that of the
  -- server, or else the value that they came with; for `Gate` and `GateDefaultDatabase` the
  -- directory's option comes first, then the handler or the default database of the server, and
  -- then that value. The handler is the one that `Gate` names then.
  pub gate_request_init_configuration_lem :
      (host : Host) (r : Request apr)
      → ((k : Bytes) → get (noted host r) k ≡ effective r k)
        × (gate_request_init_configuration apr host r
            ≡ some
                (note_handler apr host (record r { notes = noted host r }) (effective r gate_key)))
  gate_request_init_configuration_lem host r =
      (get-noted host r, found host r (effective r gate_key) (get-noted host r gate_key))

  -- The entry's database, if it is one, is readable.
  abbrev pub IsReadable : Host → Bytes × Bytes → Type 0
  IsReadable host e = e.0 ≡ database_key → host.readable e.1 ≡ true

  note_settings_step :
      (host : Host) (k v : Bytes) (es : List (Bytes × Bytes)) (r : Request apr)
      → ((note_settings apr host es (note apr r k v)).1 ≡ true) ↔ All (IsReadable host) es
      → ((note_settings apr host ((k, v) ∷ es) r).1 ≡ true) ↔ All (IsReadable host) ((k, v) ∷ es)
  unfolding note_settings
  note_settings_step host k v es r ih = elim (Bool-cases (equal k database_key)) [
    | inl e ↦ elim (Bool-cases (host.readable v)) [
      | inl f ↦ rw (e, f) (λ b. (λ q. refl, ih.0 b), λ c. ih.1 c.1)
      | inr f ↦ rw (e, f) (λ b. cc b, λ c. cc (c.0 ((equal_iff k database_key).0 e)))
    ]
    | inr e ↦ rw e (λ b. (λ q. cc ((equal_iff k database_key).1 q), ih.0 b), λ c. ih.1 c.1)
  ]

  pub note_settings-IsReadable :
      (host : Host) (es : List (Bytes × Bytes)) (r : Request apr)
      → ((note_settings apr host es r).1 ≡ true) ↔ All (IsReadable host) es
  unfolding note_settings
  note_settings-IsReadable host [] r = (λ e. tt, λ u. refl)
  note_settings-IsReadable host ((k, v) ∷ es) r =
      note_settings_step host k v es r (note_settings-IsReadable host es (note apr r k v))

  -- A handler is accepted exactly if every database among its settings is readable; then all its settings are in the notes, and
  -- nothing else of the request has changed.
  pub accepted_settings :
      (host : Host) (es : List (Bytes × Bytes)) (r : Request apr)
      → All (IsReadable host) es
      → note_settings apr host es r ≡ (record r { notes = set_all r.notes es }, true)
  unfolding note_settings
  accepted_settings host [] r h = refl
  accepted_settings host ((k, v) ∷ es) r (h, hs) = elim (Bool-cases (equal k database_key)) [
    | inl e ↦
        rw (e, h ((equal_iff k database_key).0 e), accepted_settings host es (note apr r k v) hs)
          (unfold note in refl)
    | inr e ↦ rw (e, accepted_settings host es (note apr r k v) hs) (unfold note in refl)
  ]
