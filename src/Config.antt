-- ===== src/Config.antt =====
-- `RainbowConfig` of utils/config/index.js: where the tool's options come from and where it keeps
-- them. Its state is a record that every operation takes and returns.
pub mod Priority
pub mod Saved
use rainbow_bridge_cli.Base.{
  ℕ, String, Bool, true, false, Option, none, some, List, [], ◌∷◌, ◌==◌, ◌===◌, is_some,
  if◌then◌else◌,
}
use rainbow_bridge_cli.Base.Dict
use rainbow_bridge_cli.Base.Dict.{Dict}
use rainbow_bridge_cli.Base.Io.{Outcome, ok, err, exit, js_error}
use rainbow_bridge_cli.Base.Sync.{◌>>=◌}

-- The values of options. `none` in place of a value is `undefined`.
pub data OptionValue : Type 0 where
  null : OptionValue
  text : String → OptionValue
  number : ℕ → OptionValue

abbrev pub truthy : Option OptionValue → Bool
truthy none = false
truthy (some null) = false
truthy (some (text s)) = if s === "" then false else true
truthy (some (number n)) = if n == 0 then false else true

pub data ParamType : Type 0 where
  env arg config default : ParamType

pub record Param : Type 0 where
  pub value : Option OptionValue
  pub param_type : ParamType

pub record Declaration : Type 0 where
  pub description : String
  pub default_value : Option OptionValue
  pub no_config : Bool

-- The state: `S` is the type of the configuration file's contents.
pub record RainbowConfig (S : Type 0) : Type 0 where
  pub param_values : Dict Param
  pub param_declarations : Dict Declaration
  pub config_file : S

-- `Configstore` of the package configstore. `get` of a key that is absent is `undefined`.
pub record Configstore (S : Type 0) : Type 0 where
  pub has : String → S → Bool
  pub get : String → S → Option OptionValue
  pub set : String → Option OptionValue → S → S

-- The functions of the package change-case.
pub record ChangeCase : Type 0 where
  pub param_case : String → String
  pub snake_case : String → String
  pub camel_case : String → String
  pub constant_case : String → String

-- One call of commander's `option`: the flag's name, its placeholder and description, the option
-- that its callback processes, and its default.
pub record CommandOption : Type 0 where
  pub flag : String
  pub placeholder : String
  pub description : String
  pub option : String
  pub default_value : Option OptionValue

-- The default parameter '' stands for `undefined`.
abbrev pub or_empty : Option OptionValue → Option OptionValue
or_empty none = some (text "")
or_empty (some v) = some v

-- A declaration's default, where `undefined` and a missing declaration count as null.
abbrev pub or_null : Option OptionValue → Option OptionValue
or_null none = some null
or_null (some v) = some v

abbrev pub declared_default : Option Declaration → Option OptionValue
declared_default none = some null
declared_default (some d) = or_null d.default_value

abbrev pub require : Option OptionValue → Outcome (Option OptionValue)
require (some null) = err (js_error "Parameter must be specified.")
require (some (text s)) = ok (some (text s))
require (some (number n)) = ok (some (number n))
require none = ok none

-- A null default is registered as `undefined`.
abbrev pub undefined_if_null : Option OptionValue → Option OptionValue
undefined_if_null (some null) = none
undefined_if_null (some (text s)) = some (text s)
undefined_if_null (some (number n)) = some (number n)
undefined_if_null none = none

abbrev pub registered_default : Option OptionValue → Declaration → Option OptionValue
registered_default (some null) d = undefined_if_null d.default_value
registered_default (some (text s)) d = some (text s)
registered_default (some (number n)) d = some (number n)
registered_default none d = none

abbrev pub given : Option Param → Option OptionValue → Option OptionValue
given (some p) v = p.value
given none v = v

abbrev pub set_value : {S : Type 0} → String → Param → RainbowConfig S → RainbowConfig S
set_value name p c = record c { param_values = Dict.insert name p c.param_values }

module _ {S : Type 0} where
  -- declareOption
  unfoldable pub declare_option :
      String → String → Option OptionValue → Bool → RainbowConfig S → RainbowConfig S
  declare_option name description default_value no_config c = record c {
    param_declarations =
        Dict.insert name
          (record {
            description = description;
            default_value = or_empty default_value;
            no_config = no_config;
          })
          c.param_declarations;
  }

  -- setParam
  unfoldable pub set_param : String → Option OptionValue → RainbowConfig S → RainbowConfig S
  set_param name value = set_value name (record { value = value; param_type = config })

  -- The last step of `_processArg`: it remembers the value and returns it.
  abbrev pub remember :
      String → Option Param → RainbowConfig S → Outcome (Option OptionValue × RainbowConfig S)
  remember name none c = exit 1
  remember name (some p) c = ok (p.value, set_value name p c)

  -- setParam for each entry that a command's handler returns
  unfoldable pub set_params :
      (String → String) → Dict (Option OptionValue) → RainbowConfig S → RainbowConfig S
  set_params param_case [] c = c
  set_params param_case ((k, v) ∷ d) c = set_params param_case d (set_param (param_case k) v c)

module _ {S : Type 0} (store : Configstore S) (cases : ChangeCase) where
  abbrev pub configured : String → S → Option Declaration → Option OptionValue
  configured key s d = if store.has key s then store.get key s else declared_default d

  -- maybeGetParam
  unfoldable pub maybe_get_param : String → RainbowConfig S → Option OptionValue
  maybe_get_param name c =
      given (Dict.lookup name c.param_values)
        (configured (cases.camel_case name) c.config_file (Dict.lookup name c.param_declarations))

  -- getParam
  unfoldable pub get_param : String → RainbowConfig S → Outcome (Option OptionValue)
  get_param name c = require (maybe_get_param name c)

  -- Where a value comes from, in the order of the tests of `_processArg`.
  unfoldable pub pick :
      Option OptionValue → Option OptionValue → String → S → Option OptionValue → Option Param
  pick from_env value key s previous =
      if truthy from_env
      then some (record { value = from_env; param_type = env })
      else if truthy value
      then some (record { value = value; param_type = arg })
      else if store.has key s
      then some (record { value = store.get key s; param_type = config })
      else if truthy previous
      then some (record { value = previous; param_type = default })
      else none

  -- _processArg: the value that it returns, and the new configuration.
  unfoldable pub process_arg :
      (String → Option OptionValue)
      → String
      → Option OptionValue
      → Option OptionValue
      → RainbowConfig S
      → Outcome (Option OptionValue × RainbowConfig S)
  process_arg environment name value previous c =
      if is_some (Dict.lookup name c.param_values)
      then exit 1
      else remember name
          (pick (environment (cases.constant_case name)) value (cases.camel_case name) c.config_file
            previous)
          c

  -- The loop of saveConfig
  unfoldable pub write_params : Dict Param → S → S
  write_params [] s = s
  write_params ((name, p) ∷ d) s = write_params d (store.set (cases.camel_case name) p.value s)

  -- saveConfig
  unfoldable pub save_config : RainbowConfig S → RainbowConfig S
  save_config c = record c { config_file = write_params c.param_values c.config_file }

  -- One option of addOptions. Reading a field of a missing declaration throws.
  unfoldable pub command_option :
      String → RainbowConfig S → Option Declaration → Outcome CommandOption
  command_option option c none =
      err (record (js_error "Cannot read property of undefined") { name = "TypeError" })
  command_option option c (some d) = ok (record {
    flag = cases.param_case option;
    placeholder = cases.snake_case option;
    description = d.description;
    option = option;
    default_value = registered_default (maybe_get_param (cases.param_case option) c) d;
  })

  -- addOptions: the calls of `option` that it makes, in order.
  unfoldable pub add_options : List String → RainbowConfig S → Outcome (List CommandOption)
  add_options [] c = ok []
  add_options (option ∷ options) c = do
    first ← command_option option c (Dict.lookup option c.param_declarations)
    rest ← add_options options c
    ok (first ∷ rest)

  -- The action that addOptions installs, after the handler has returned an object.
  unfoldable pub keep_values : Dict (Option OptionValue) → RainbowConfig S → RainbowConfig S
  keep_values [] c = c
  keep_values (v ∷ vs) c = save_config (set_params cases.param_case (v ∷ vs) c)
