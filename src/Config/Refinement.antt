-- ===== src/Config/Refinement.antt =====
-- The settings of src/mod_gate.c as functions, and the directives on them.
use mathlib.Core.Path.{fun_ext}
use mathlib.Core.Option
use mod_gate.Apr.{Apr, AprLaws}
use mod_gate.Base.{
  Bool, true, false, List, [], ◌∷◌, Option, none, some, ◌≡◌, refl, ap, ◌∙◌, Bytes, equal, same_key,
  if◌then◌else◌,
}
use mod_gate.Config.{
  Settings, Directive, gate_default_database, gate, gate_config_var, gate_env, gate_declare,
  gate_database, gate_filter_config, run_directive, set_gate_default_database, set_gate_config_var,
  set_gate_env_var, set_gate_filter, set_gate_filter_declare, set_param, gate_filter_set_params,
  set_gate_filter_config, set_gate_filter_database, gate_key, database_key, not_registered,
  not_provided, set_handlers, set_server_option, set_dir_option,
}

-- What the rest of the module can read of the settings, without tables and hashes.
pub record View : Type 0 where
  pub handler : Option Bytes
  pub default_database : Option Bytes
  pub server_option : Bytes → Option Bytes
  pub filter : Bytes → Option (Bytes → Option Bytes)
  pub dir : Option Bytes
  pub dir_option : Bytes → Option Bytes
  pub environment : List (Bytes × Bytes)

-- A function changed at a key, where keys are compared by `same`.
abbrev pub changed {ℓ} :
    {A : Type ℓ} → (Bytes → Bytes → Bool) → (Bytes → Option A) → Bytes → A → Bytes → Option A
changed same f k v j = if same k j then some v else f j

abbrev pub option_value : Option Bytes → View → Bytes → Bytes → View
option_value none s k v = record s { server_option = changed same_key s.server_option k v }
option_value (some place) s k v = record s { dir_option = changed same_key s.dir_option k v }

abbrev pub declared : Option (Bytes → Option Bytes) → View → Bytes → View
declared (some f) s name = s
declared none s name = record s { filter = changed equal s.filter name (λ j. none) }

abbrev pub filter_value :
    Option (Bytes → Option Bytes) → View → Bytes → Bytes → Bytes → View × Option Bytes
filter_value none s name k v = (s, some (not_registered name))
filter_value (some f) s name k v =
    (record s { filter = changed equal s.filter name (changed equal f k v) }, none)

abbrev pub filter_setting :
    Option Bytes → View → Option Bytes → Bytes → Option Bytes → View × Option Bytes
filter_setting place s (some name) k (some v) = elim place [
  | none ↦ filter_value (s.filter name) s name k v
  | some message ↦ (s, some message)
]
filter_setting place s none k v = (s, some (not_provided none v))
filter_setting place s (some name) k none = (s, some (not_provided (some name) none))

-- A message ends the reading.
abbrev pub go_on {ℓ} : {S : Type ℓ} → (S → S × Option Bytes) → S × Option Bytes → S × Option Bytes
go_on rest (s, none) = rest s
go_on rest (s, some message) = (s, some message)

module _ (apr : Apr) where
  -- What each directive means.
  abbrev pub meaning : Option Bytes → View → Directive apr → View × Option Bytes
  meaning place s (gate_default_database none) = (s, none)
  meaning none s (gate_default_database (some arg)) =
      (record s { default_database = some arg }, none)
  meaning (some m) s (gate_default_database (some arg)) =
      (option_value (some m) s database_key arg, none)
  meaning place s (gate none) = (s, none)
  meaning none s (gate (some arg)) = (record s { handler = some arg }, none)
  meaning (some m) s (gate (some arg)) = (option_value (some m) s gate_key arg, none)
  meaning place s (gate_config_var none v) = (s, none)
  meaning place s (gate_config_var (some k) v) = (option_value place s k v, none)
  meaning place s (gate_env (some k) (some v)) =
      (record s { environment = (k, v) ∷ s.environment }, none)
  meaning place s (gate_env (some k) none) = (s, none)
  meaning place s (gate_env none v) = (s, none)
  meaning place s (gate_declare none) = (s, none)
  meaning none s (gate_declare (some name)) = (declared (s.filter name) s name, none)
  meaning (some m) s (gate_declare (some name)) = (s, some m)
  meaning place s (gate_database name path) = filter_setting place s name database_key path
  meaning place s (gate_filter_config name k v) = filter_setting place s name k v

  abbrev pub hash_view : apr.Hash Bytes → Bytes → Option Bytes
  hash_view h k = apr.hash_get h k

  abbrev pub filters_view : apr.Hash (apr.Hash Bytes) → Bytes → Option (Bytes → Option Bytes)
  filters_view hs name = Option.map hash_view (apr.hash_get hs name)

  -- What the settings of the module say, whatever the representation of tables and hashes.
  abbrev pub view : Settings apr → View
  view st = record {
    handler = st.server.handler;
    default_database = st.server.default_database;
    server_option = apr.get st.server.options;
    filter = filters_view st.server.handlers;
    dir = st.directory.dir;
    dir_option = apr.get st.directory.options;
    environment = st.environment;
  }

  abbrev pub seen : Settings apr × Option Bytes → View × Option Bytes
  seen r = (view r.0, r.1)

  -- The directives of a file up to the first that is refused, whose message ends the reading.
  unfoldable pub run_directives :
      List (Option Bytes × Directive apr) → Settings apr → Settings apr × Option Bytes
  run_directives [] st = (st, none)
  run_directives ((place, d) ∷ ds) st = go_on (run_directives ds) (run_directive apr place st d)

  abbrev pub meanings : List (Option Bytes × Directive apr) → View → View × Option Bytes
  meanings [] s = (s, none)
  meanings ((place, d) ∷ ds) s = go_on (meanings ds) (meaning place s d)

module _ (apr : Apr) (laws : AprLaws apr) where
  with_server : Settings apr → (Bytes → Option Bytes) → View × Option Bytes
  with_server st f = (record (view apr st) { server_option = f }, none)

  map-if :
      (b : Bool) (v : apr.Hash Bytes) (o : Option (apr.Hash Bytes))
      → Option.map (hash_view apr) (if b then some v else o)
        ≡ (if b then some (hash_view apr v) else Option.map (hash_view apr) o)
  map-if true v o = refl
  map-if false v o = refl

  filters_view-set :
      (hs : apr.Hash (apr.Hash Bytes)) (name : Bytes) (h : apr.Hash Bytes)
      (f : Bytes → Option Bytes)
      → hash_view apr h ≡ f
      → filters_view apr (apr.hash_set hs name h) ≡ changed equal (filters_view apr hs) name f
  filters_view-set hs name h f e = fun_ext (λ j.
      ap (Option.map (hash_view apr)) (laws.hash_get-hash_set (apr.Hash Bytes) hs name h j)
      ∙ map-if (equal name j) h (apr.hash_get hs j)
      ∙ ap (λ g. if equal name j then some g else filters_view apr hs j) e)

  hash_view-set :
      (h : apr.Hash Bytes) (k v : Bytes)
      → hash_view apr (apr.hash_set h k v) ≡ changed equal (hash_view apr h) k v
  hash_view-set h k v = fun_ext (laws.hash_get-hash_set Bytes h k v)

  server_option-set :
      (st : Settings apr) (k v : Bytes) (m : Option Bytes)
      → seen apr (set_server_option apr st k v, m) ≡ (option_value none (view apr st) k v, m)
  server_option-set st k v m =
      ap (λ (f : Bytes → Option Bytes). (record (view apr st) { server_option = f }, m))
        (fun_ext (laws.get-set st.server.options k v))

  dir_option-set :
      (st : Settings apr) (place k v : Bytes) (m : Option Bytes)
      → seen apr (set_dir_option apr st k v, m) ≡ (option_value (some place) (view apr st) k v, m)
  dir_option-set st place k v m =
      ap (λ (f : Bytes → Option Bytes). (record (view apr st) { dir_option = f }, m))
        (fun_ext (laws.get-set st.directory.options k v))

  handlers-set :
      (st : Settings apr) (name : Bytes) (h : apr.Hash Bytes) (f : Bytes → Option Bytes)
      (m : Option Bytes)
      → hash_view apr h ≡ f
      → seen apr (set_handlers apr st (apr.hash_set st.server.handlers name h), m) ≡ (
        record (view apr st) {
          filter = changed equal (filters_view apr st.server.handlers) name f;
        },
        m,
      )
  handlers-set st name h f m e =
      ap (λ (g : Bytes → Option (Bytes → Option Bytes)). (record (view apr st) { filter = g }, m))
        (filters_view-set st.server.handlers name h f e)

  set_param-meaning :
      (st : Settings apr) (name k v : Bytes) (h : Option (apr.Hash Bytes))
      → seen apr (set_param apr st k name v h)
        ≡ filter_value (Option.map (hash_view apr) h) (view apr st) name k v
  unfolding set_param
  set_param-meaning st name k v none = refl
  set_param-meaning st name k v (some h) =
      handlers-set st name (apr.hash_set h k v) _ none (hash_view-set h k v)

  set_params-meaning :
      (place : Option Bytes) (st : Settings apr) (k : Bytes) (name v : Option Bytes)
      → seen apr (gate_filter_set_params apr place st k name v)
        ≡ filter_setting place (view apr st) name k v
  unfolding gate_filter_set_params
  set_params-meaning none st k (some name) (some v) = set_param-meaning st name k v _
  set_params-meaning (some m) st k (some name) (some v) = refl
  set_params-meaning none st k none v = refl
  set_params-meaning (some m) st k none v = refl
  set_params-meaning none st k (some name) none = refl
  set_params-meaning (some m) st k (some name) none = refl

  declare-meaning :
      (st : Settings apr) (name : Bytes) (o : Option (apr.Hash Bytes))
      → apr.hash_get st.server.handlers name ≡ o
      → seen apr (set_gate_filter_declare apr none st (some name))
        ≡ (declared (Option.map (hash_view apr) o) (view apr st) name, none)
  unfolding set_gate_filter_declare
  declare-meaning st name none e = rw e (
      handlers-set st name apr.hash_make (λ j. none) none (fun_ext (laws.hash_get-hash_make Bytes)))
  declare-meaning st name (some h) e = rw e refl

  -- One directive does to the settings what it means.
  run_directive-meaning :
      (place : Option Bytes) (st : Settings apr) (d : Directive apr)
      → seen apr (run_directive apr place st d) ≡ meaning apr place (view apr st) d
  unfolding run_directive set_gate_default_database set_gate_config_var set_gate_env_var
      set_gate_filter set_gate_filter_declare set_gate_filter_config set_gate_filter_database
  run_directive-meaning none st (gate_default_database none) = refl
  run_directive-meaning (some m) st (gate_default_database none) = refl
  run_directive-meaning none st (gate_default_database (some arg)) = refl
  run_directive-meaning (some m) st (gate_default_database (some arg)) =
      dir_option-set st m database_key arg none
  run_directive-meaning none st (gate none) = refl
  run_directive-meaning (some m) st (gate none) = refl
  run_directive-meaning none st (gate (some arg)) = refl
  run_directive-meaning (some m) st (gate (some arg)) = dir_option-set st m gate_key arg none
  run_directive-meaning none st (gate_config_var none v) = refl
  run_directive-meaning (some m) st (gate_config_var none v) = refl
  run_directive-meaning none st (gate_config_var (some k) v) = server_option-set st k v none
  run_directive-meaning (some m) st (gate_config_var (some k) v) = dir_option-set st m k v none
  run_directive-meaning none st (gate_env (some k) (some v)) = refl
  run_directive-meaning (some m) st (gate_env (some k) (some v)) = refl
  run_directive-meaning none st (gate_env (some k) none) = refl
  run_directive-meaning (some m) st (gate_env (some k) none) = refl
  run_directive-meaning none st (gate_env none v) = refl
  run_directive-meaning (some m) st (gate_env none v) = refl
  run_directive-meaning none st (gate_declare none) = refl
  run_directive-meaning (some m) st (gate_declare none) = refl
  run_directive-meaning none st (gate_declare (some name)) = declare-meaning st name _ refl
  run_directive-meaning (some m) st (gate_declare (some name)) = refl
  run_directive-meaning place st (gate_database name path) =
      set_params-meaning place st database_key name path
  run_directive-meaning place st (gate_filter_config name k v) =
      set_params-meaning place st k name v

  go_on-seen :
      (ds : List (Option Bytes × Directive apr)) (r : Settings apr × Option Bytes)
      → ((st : Settings apr) → seen apr (run_directives apr ds st) ≡ meanings apr ds (view apr st))
      → seen apr (go_on (run_directives apr ds) r) ≡ go_on (meanings apr ds) (seen apr r)
  go_on-seen ds (st, none) ih = ih st
  go_on-seen ds (st, some message) ih = refl

  -- The directives of a configuration, each at its place, do together what they mean one by one: the
  -- settings after them, and the message of the first one that is refused, are those of the
  -- specification, in which the tables and hashes are functions.
  pub run_directives-meanings :
      (ds : List (Option Bytes × Directive apr)) (st : Settings apr)
      → (view apr (run_directives apr ds st).0, (run_directives apr ds st).1)
        ≡ meanings apr ds (view apr st)
  unfolding run_directives
  run_directives-meanings [] st = refl
  run_directives-meanings ((place, d) ∷ ds) st =
      go_on-seen ds (run_directive apr place st d) (run_directives-meanings ds)
      ∙ ap (go_on (meanings apr ds)) (run_directive-meaning place st d)
