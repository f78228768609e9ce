-- ===== src/Config/Priority.antt =====
-- Which source of a value `_processArg` of utils/config/index.js takes.
use rainbow_bridge_cli.Base.{
  String, Bool, true, false, Option, none, some, if◌then◌else◌, ◌≡◌, refl, Bool-cases, inl, inr,
  ◌===◌, is_some, eq_iff, arith, ◌||◌,
}
use rainbow_bridge_cli.Base.Dict
use rainbow_bridge_cli.Base.Io.{Outcome, ok, exit}
use rainbow_bridge_cli.Config.{
  OptionValue, truthy, Param, RainbowConfig, Configstore, ChangeCase, pick, process_arg,
  maybe_get_param, remember, set_value, given,
}

-- The first defined of the sources, in the order environment, argument, file, default.
unfoldable pub first_source :
    {S : Type 0}
    → Configstore S
    → Option OptionValue
    → Option OptionValue
    → String
    → S
    → Option OptionValue
    → Option OptionValue
first_source store from_env value key s previous =
    if truthy from_env
    then from_env
    else if truthy value
    then value
    else if store.has key s
    then store.get key s
    else previous

-- Whether one of the sources has a value.
unfoldable pub has_source :
    {S : Type 0}
    → Configstore S
    → Option OptionValue
    → Option OptionValue
    → String
    → S
    → Option OptionValue
    → Bool
has_source store from_env value key s previous =
    truthy from_env || (truthy value || (store.has key s || truthy previous))

given_if :
    (b : Bool) (p : Param) (o : Option Param) (v : Option OptionValue)
    → given (if b then some p else o) v ≡ (if b then p.value else given o v)
given_if true p o v = refl
given_if false p o v = refl

source :
    (a b c d : Bool) (w x y z : Param)
    → (a || (b || (c || d))) ≡ true
    → (p : Param) × ((if a
          then some w
          else if b
          then some x
          else if c
          then some y
          else if d
          then some z
          else none)
        ≡ some p)
source true b c d w x y z h = (w, refl)
source false true c d w x y z h = (x, refl)
source false false true d w x y z h = (y, refl)
source false false false true w x y z h = (z, refl)
source false false false false w x y z h = absurd cc

module _ {S : Type 0} (store : Configstore S) (cases : ChangeCase) where
  pub pick-first_source :
      (from_env value : Option OptionValue) (key : String) (s : S) (previous : Option OptionValue)
      (p : Param)
      → pick store cases from_env value key s previous ≡ some p
      → p.value ≡ first_source store from_env value key s previous
  unfolding pick first_source
  pick-first_source from_env value key s previous p h = ground arith

  lookup-set_value :
      (name other : String) (p : Param) (c : RainbowConfig S)
      → maybe_get_param store cases other (set_value name p c)
        ≡ (if name === other then p.value else maybe_get_param store cases other c)
  unfolding maybe_get_param
  lookup-set_value name other p c =
      rw (Dict.lookup-insert name other p c.param_values)
        (given_if (name === other) p (Dict.lookup other c.param_values) _)

  exits_ok :
      (c : RainbowConfig S) (v : Option OptionValue)
      (o : Outcome (Option OptionValue × RainbowConfig S))
      → o ≡ exit 1
      → o ≡ ok (v, c)
      → ⊥
  exits_ok c v o e h = cc

  -- A name that `remember` has returned a value for, has a value.
  remember-known :
      (name : String) (o : Option Param) (c c' : RainbowConfig S) (v : Option OptionValue)
      → remember name o c ≡ ok (v, c')
      → is_some (Dict.lookup name c'.param_values) ≡ true
  remember-known name none c c' v h = absurd cc
  remember-known name (some p) c c' v h =
      let e : c' ≡ set_value name p c = cc in
      rw e (rw (Dict.lookup-insert name name p c.param_values) (rw ((eq_iff name name).1 refl)))

  pick-HasSource :
      (from_env value : Option OptionValue) (key : String) (s : S) (previous : Option OptionValue)
      → has_source store from_env value key s previous ≡ true
      → (p : Param) × (pick store cases from_env value key s previous ≡ some p)
  unfolding pick has_source
  pick-HasSource from_env value key s previous h =
      source (truthy from_env) (truthy value) (store.has key s) (truthy previous) _ _ _ _ h

  -- If the parameter has no value yet and the environment, the argument, the file or the default
  -- has one, then processing an argument returns the first of these and makes it the value of the
  -- parameter, whatever the file says, and changes no other parameter's value.
  pub process_arg-first_source :
      (environment : String → Option OptionValue) (name : String)
      (value previous : Option OptionValue) (c : RainbowConfig S)
      → Dict.lookup name c.param_values ≡ none
      → has_source store
          (environment (cases.constant_case name))
          value
          (cases.camel_case name)
          c.config_file
          previous
        ≡ true
      → (v : Option OptionValue) × (c' : RainbowConfig S) × (process_arg store cases environment
            name value previous c
          ≡ ok (v, c'))
        × (v
            ≡ first_source store
                (environment (cases.constant_case name))
                value
                (cases.camel_case name)
                c.config_file
                previous)
        × ((other : String)
            → maybe_get_param store cases other c'
              ≡ (if name === other then v else maybe_get_param store cases other c))
  unfolding process_arg
  process_arg-first_source environment name value previous c fresh h =
      let (p, e) =
        pick-HasSource (environment (cases.constant_case name)) value (cases.camel_case name)
          c.config_file previous h in
      (
        p.value,
        set_value name p c,
        rw fresh (rw e),
        pick-first_source _ _ _ _ _ p e,
        λ other. lookup-set_value name other p c,
      )

  -- A parameter that has been processed once is refused the second time, whatever the value.
  pub process_arg-twice :
      (environment : String → Option OptionValue) (name : String)
      (value previous : Option OptionValue) (c c' : RainbowConfig S) (v : Option OptionValue)
      → process_arg store cases environment name value previous c ≡ ok (v, c')
      → (environment' : String → Option OptionValue) (value' previous' : Option OptionValue)
      → process_arg store cases environment' name value' previous' c' ≡ exit 1
  unfolding process_arg
  process_arg-twice environment name value previous c c' v h environment' value' previous' =
      elim (Bool-cases (is_some (Dict.lookup name c.param_values))) [
        | inl e ↦ absurd (exits_ok c' v (exit 1) refl (rw e at h))
        | inr e ↦ known_twice (remember-known name _ c c' v (rw e at h))
      ]
    where
      known_twice :
          is_some (Dict.lookup name c'.param_values) ≡ true
          → process_arg store cases environment' name value' previous' c' ≡ exit 1
      known_twice k = rw k
