-- ===== src/Gate.antt =====
-- src/module.cpp: the configuration of a request and the choice of its filter database. The request
-- handler is in `Serve`.
pub mod Configured
pub mod Chosen
pub mod Installed
pub mod Serve
pub mod Child
use mod_gate.Apr.Table.{bind, each}
use mod_gate.Apr.{Apr}
use mod_gate.Base.{
  ℕ, suc, ◌+◌, ◌==◌, Bool, true, false, not, List, [], ◌∷◌, ◌++◌, Option, none, some, Bytes, codes,
  equal, is_null, ℤ, pos, if◌then◌else◌, length,
}
use mod_gate.Config.{
  GateConfig, DirConfig, gate_handler_config, gate_key, database_key, default_database_key,
}
use mod_gate.Decimal.{u32_text}
use mod_gate.Host.{Host}

pub data Level : Type 0 where
  crit warning notice : Level

module _ (apr : Apr) where
  open apr use {Table, make, elts, get, set, Hash, hash_get, hash_entries}

  -- What the module reads and writes of a `request_rec`: `body` is what it has sent to the client and
  -- `log` what it has written to the server's log, both in order.
  pub record Request : Type 0 where
    pub notes : Table
    pub headers_in : Table
    pub server_config : GateConfig apr
    pub dir_config : DirConfig apr
    pub remote_ip : Bytes
    pub status : ℤ
    pub body : List Bytes
    pub log : List (Level × Bytes)

  unfoldable pub rputs : Request → Bytes → Request
  rputs r s = record r { body = r.body ++ s ∷ [] }

  unfoldable pub log_line : Request → Level → Bytes → Request
  log_line r level s = record r { log = r.log ++ (level, s) ∷ [] }

  unfoldable pub note : Request → Bytes → Bytes → Request
  note r k v = record r { notes = set r.notes k v }

  -- `merge_var`, on the table that it changes; the flag is its result.
  unfoldable pub merge_from : Table → Bytes → Option Bytes → Option Bytes → Table
  merge_from t var_name (some v) server_config = set t var_name v
  merge_from t var_name none (some v) = set t var_name v
  merge_from t var_name none none = t

  unfoldable pub merge_var : DirConfig apr → Table → Bytes → Option Bytes → Table × Bool
  unfolding merge_from
  merge_var dir_cfg t var_name server_config =
      let t' = merge_from t var_name (get dir_cfg.options var_name) server_config in
      (t', not (is_null (get t' var_name)))

abbrev put_front : ℕ → Option Bytes → Option Bytes
put_front c none = none
put_front c (some s) = some (c ∷ s)

-- What a printing function writes for a format when it is given no arguments: "%%" is a percent sign;
-- any other directive reads an argument that was not passed, which is a fault, `none`.
unfoldable pub formatted : Bytes → Option Bytes
formatted [] = some []
formatted (c ∷ []) = if c == b'%' then none else some (c ∷ [])
formatted (c ∷ d ∷ s) =
    let behind_two = formatted s in
    let behind_one = formatted (d ∷ s) in
    if c == b'%' then if d == b'%' then put_front c behind_two else none else put_front c behind_one

module _ (apr : Apr) (host : Host) where
  open apr use {Table, elts, get, set, Hash, hash_get, hash_entries}

  unfoldable pub gate_log_error : Request apr → Level → Bytes → Request apr
  unfolding rputs log_line
  gate_log_error r level msg =
      let strm = codes "ModGate: " ++ msg in
      log_line apr (rputs apr r strm) level
        (codes "mod_gate[" ++ (u32_text host.pid ++ (codes "] : " ++ strm)))

  abbrev pub message_text : Bytes → Bytes
  message_text message = codes "mod_gate[" ++ (u32_text host.pid ++ (codes "]: " ++ message))

  abbrev pub logged : Request apr → Level → Option Bytes → Option (Request apr)
  logged r level none = none
  logged r level (some line) = some (log_line apr r level line)

  -- The text is passed as the format; `none` is the fault of a format that reads an argument.
  unfoldable pub log_message : Request apr → Level → Bytes → Option (Request apr)
  unfolding log_line formatted
  log_message r level message = logged r level (formatted (message_text message))

  unfoldable pub unreadable : Bytes
  unreadable = codes "GateDefaultDatabase unreadable or does not exists."

  -- The loop over the settings of a handler; the flag is false if it returns -1.
  unfoldable pub note_settings : List (Bytes × Bytes) → Request apr → Request apr × Bool
  unfolding note
  note_settings [] r = (r, true)
  note_settings ((k, v) ∷ es) r =
      let r' = note apr r k v in
      let rest = note_settings es r' in
      if equal k database_key
      then if not (host.readable v) then (gate_log_error r' crit unreadable, false) else rest
      else rest

  -- The settings of the handler that the notes name, if there is such a handler.
  unfoldable pub note_handler : Request apr → Option Bytes → Request apr × Bool
  note_handler r none = (r, true)
  note_handler r (some name) = elim (gate_handler_config apr r.server_config name) [
    | none ↦ (r, true)
    | some h_config ↦ note_settings (hash_entries h_config) r
  ]

  abbrev pub copy_notes : Table → Table → Option Table
  copy_notes from notes = each (suc (length (elts from))) (bind (elts from)) set notes

  -- `gate_request_init_configuration`: false if it returns -1; `none` if a loop faults.
  unfoldable pub gate_request_init_configuration : Request apr → Option (Request apr × Bool)
  gate_request_init_configuration r = elim (copy_notes r.server_config.options r.notes) [
    | none ↦ none
    | some t1 ↦ elim (copy_notes r.dir_config.options t1) [
      | none ↦ none
      | some t2 ↦
          let (t3, found) =
            merge_var apr r.dir_config t2 default_database_key r.server_config.default_database in
          let (t4, chosen) = merge_var apr r.dir_config t3 gate_key r.server_config.handler in
          let r' = record r { notes = t4 } in
          some (if chosen then note_handler r' (get t4 gate_key) else (r', true))
    ]
  ]

  -- The path that `Handler(const char*)` keeps: empty for NULL.
  abbrev pub path_of : Option Bytes → Bytes
  path_of none = []
  path_of (some path) = path

  abbrev pub note_database : Request apr → Option Bytes → Request apr
  note_database r none = r
  note_database r (some path) = note apr r database_key path

  -- `gate_request_get_handler`: the path of the handler that it returns, and the request.
  unfoldable pub gate_request_get_handler : Request apr → Bytes × Request apr
  unfolding note
  gate_request_get_handler r = elim (get r.notes gate_key) [
    | some name ↦ elim (gate_handler_config apr r.server_config name) [
      | some h_config ↦ (path_of (hash_get h_config database_key), r)
      | none ↦ ([], r)
    ]
    | none ↦
        let database =
          if not (is_null (get r.notes database_key))
          then get r.notes default_database_key
          else r.server_config.default_database in
        ([], note_database r database)
  ]
