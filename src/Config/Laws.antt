-- ===== src/Config/Laws.antt =====
-- What the directives of src/mod_gate.c do to the settings, over any APR that behaves as documented.
use mathlib.Core.Option.{some_inj}
use mod_gate.Apr.{Apr, AprLaws}
use mod_gate.Base.{
  true, Option, none, some, ◌≡◌, refl, sym, ◌∙◌, Bytes, equal, equal_iff, arith, Option-cases, inl,
  inr,
}
use mod_gate.Config.{
  Settings, Directive, gate_database, gate_filter_config, run_directive, set_gate_default_database,
  set_gate_config_var, set_gate_env_var, set_gate_filter, set_gate_filter_declare, set_param,
  gate_filter_set_params, set_gate_filter_config, set_gate_filter_database, gate_handler_config,
  database_key,
}

module _ (apr : Apr) where
  set_param_error :
      (st : Settings apr) (k handler val : Bytes) (h : Option (apr.Hash Bytes)) {e : Bytes}
      → (set_param apr st k handler val h).1 ≡ some e
      → (set_param apr st k handler val h).0 ≡ st
  unfolding set_param
  set_param_error st k handler val none h = refl
  set_param_error st k handler val (some c) h = cc

  -- A directive that is refused changes nothing: whichever it is, wherever it stands and whatever its
  -- arguments, if it returns an error message then the settings are what they were.
  run_directive_error :
      (place : Option Bytes) (st : Settings apr) (d : Directive apr) {e : Bytes}
      → (run_directive apr place st d).1 ≡ some e
      → (run_directive apr place st d).0 ≡ st
  unfolding run_directive set_gate_default_database set_gate_config_var set_gate_env_var
      set_gate_filter set_gate_filter_declare gate_filter_set_params set_gate_filter_config
      set_gate_filter_database
  run_directive_error none st (gate_database (some handler) (some val)) h =
      set_param_error st database_key handler val _ h
  run_directive_error none st (gate_filter_config (some handler) k (some val)) h =
      set_param_error st k handler val _ h
  run_directive_error _ st _ h = ground arith

  -- Outside of a directory the directory's configuration is as it was, inside of one the server's.
  abbrev pub Untouched : Option Bytes → Settings apr → Settings apr → Type 0
  Untouched none st st' = st'.directory ≡ st.directory
  Untouched (some errmsg) st st' = st'.server ≡ st.server

  set_param_untouched :
      (st : Settings apr) (k handler val : Bytes) (h : Option (apr.Hash Bytes))
      → (set_param apr st k handler val h).0.directory ≡ st.directory
  unfolding set_param
  set_param_untouched st k handler val none = refl
  set_param_untouched st k handler val (some c) = refl

  -- A directive changes the configuration of the place where it stands only: outside of a directory
  -- the directory's configuration stays as it is, inside of one that of the server does.
  run_directive-Untouched :
      (place : Option Bytes) (st : Settings apr) (d : Directive apr)
      → Untouched place st (run_directive apr place st d).0
  unfolding run_directive set_gate_default_database set_gate_config_var set_gate_env_var
      set_gate_filter set_gate_filter_declare gate_filter_set_params set_gate_filter_config
      set_gate_filter_database
  run_directive-Untouched none st (gate_database (some handler) (some val)) =
      set_param_untouched st database_key handler val _
  run_directive-Untouched none st (gate_filter_config (some handler) k (some val)) =
      set_param_untouched st k handler val _
  run_directive-Untouched none st _ = ground arith
  run_directive-Untouched (some p) st _ = ground arith

module _ (apr : Apr) (laws : AprLaws apr) where
  -- What a declaration outside of a directory leads to: an accepted directive, and a handler of that
  -- name, with the settings that it had before if it was declared already.
  pub record Declares (st st' : Settings apr) (name : Bytes) (h : apr.Hash Bytes) : Type 0 where
    pub found : apr.hash_get st'.server.handlers name ≡ some h
    pub kept : (c : apr.Hash Bytes) → apr.hash_get st.server.handlers name ≡ some c → h ≡ c

  equal_refl : (a : Bytes) → equal a a ≡ true
  equal_refl a = (equal_iff a a).1 refl

  pub hash_get-hash_set_self :
      (V : Type 0) (h : apr.Hash V) (k : Bytes) (v : V)
      → apr.hash_get (apr.hash_set h k v) k ≡ some v
  hash_get-hash_set_self V h k v = rw (laws.hash_get-hash_set, equal_refl k)

  declare :
      (st : Settings apr) (name : Bytes)
      → (h : apr.Hash Bytes) × ((set_gate_filter_declare apr none st (some name)).1 ≡ none)
        × Declares st (set_gate_filter_declare apr none st (some name)).0 name h
  unfolding set_gate_filter_declare
  declare st name = elim (Option-cases (apr.hash_get st.server.handlers name)) [
    | inl e ↦ (
      apr.hash_make,
      rw e,
      rw e (record {
        found = hash_get-hash_set_self (apr.Hash Bytes) st.server.handlers name apr.hash_make;
        kept = λ c h. cc;
      }),
    )
    | inr (c, e) ↦ (c, rw e, rw e (record { found = e; kept = λ d h. some_inj.0 (sym e ∙ h) }))
  ]

  -- A handler that is declared and then given a database, both outside of a directory, is found under
  -- its name with that database; neither directive is refused.
  declare_database :
      (st : Settings apr) (name path : Bytes)
      → (h : apr.Hash Bytes) × ((set_gate_filter_declare apr none st (some name)).1 ≡ none)
        × ((set_gate_filter_database apr none
              (set_gate_filter_declare apr none st (some name)).0
              (some name)
              (some path)).1
            ≡ none)
        × (gate_handler_config apr
              (set_gate_filter_database apr none
                (set_gate_filter_declare apr none st (some name)).0
                (some name)
                (some path)).0.server
              name
            ≡ some h)
        × (apr.hash_get h database_key ≡ some path)
  unfolding set_gate_filter_database gate_handler_config
  declare_database st name path =
      let (h, accepted, d) = declare st name in
      (
        apr.hash_set h database_key path,
        accepted,
        rw d.found,
        rw d.found (hash_get-hash_set_self (apr.Hash Bytes) _ name _),
        hash_get-hash_set_self Bytes h database_key path,
      )
