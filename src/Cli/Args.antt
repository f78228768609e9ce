-- ===== src/Cli/Args.antt =====
-- What the handlers of cli/index.js do to the values of their options.
use rainbow_bridge_cli.Base.{String, ◌<>◌, ◌===◌, Option, none, some, List, [], ◌∷◌, if◌then◌else◌}
use rainbow_bridge_cli.Base.Dict
use rainbow_bridge_cli.Base.Dict.{Dict}
use rainbow_bridge_cli.Base.Io.{Outcome, ok}
use rainbow_bridge_cli.Base.Sync.{◌>>=◌}
use rainbow_bridge_cli.Config.{OptionValue, text, RainbowConfig, Configstore, ChangeCase, get_param}

-- The values that a handler is given or returns. `none` in place of a value is `undefined`.
abbrev pub Args : Type 0
Args = Dict (Option OptionValue)

-- { ...base, ...args }
unfoldable pub spread : Args → Args → Args
spread base [] = base
spread base ((k, v) ∷ args) = spread (Dict.insert k v base) args

-- An object without a field: what is left in `{ field, ...rest }`.
unfoldable pub without : String → Args → Args
without k [] = []
without k ((j, v) ∷ args) = if j === k then without k args else (j, v) ∷ without k args

abbrev pub field : Option (Option OptionValue) → Option OptionValue
field none = none
field (some v) = v

-- args[name]
abbrev pub get : String → Args → Option OptionValue
get name args = field (Dict.lookup name args)

-- Positional arguments under their names. Commander sees to it that none of them is missing.
abbrev pub named : List String → List String → Args
named [] vs = []
named (n ∷ ns) [] = []
named (n ∷ ns) (v ∷ vs) = (n, some (text v)) ∷ named ns vs

abbrev pub last : List String → String
last [] = ""
last (v ∷ []) = v
last (v ∷ w ∷ vs) = last (w ∷ vs)

-- A name from the command line, or "", which counts as no name.
abbrev pub name_of : Option OptionValue → String
name_of (some (text s)) = s
name_of _ = ""

abbrev pub eth_address : String → String
eth_address token = "eth-" <> (token <> "-address")

abbrev pub near_account : String → String
near_account token = "near-" <> (token <> "-account")

-- What deploy-token returns for the configuration file.
unfoldable pub token_values : (String → String) → String → String → Args → Args
token_values capital_case token address info =
    spread
      (("near" <> (capital_case token <> "Account"), get "nearTokenAccount" info)
        ∷ ("eth" <> (capital_case token <> "Address"), some (text address))
        ∷ [])
      (without "nearTokenAccount" (without "ethTokenAddress" info))

abbrev pub deployed : (String → String) → List String → Option Args → Option Args
deployed capital_case (token ∷ address ∷ rest) (some info) =
    some (token_values capital_case token address info)
deployed capital_case values info = none

module _ {S : Type 0} (store : Configstore S) (cases : ChangeCase) where
  -- args.<name> = RainbowConfig.getParam(<option>)
  unfoldable pub look_up : String → String → RainbowConfig S → Args → Outcome Args
  look_up name option c args = get_param store cases option c >>= λ v. ok (Dict.insert name v args)

  unfoldable pub bind_address : String → RainbowConfig S → Args → Outcome Args
  bind_address token c args =
      if token === "" then ok args else look_up "ethErc20Address" (eth_address token) c args

  unfoldable pub bind_token : String → RainbowConfig S → Args → Outcome Args
  bind_token token c args =
      if token === ""
      then ok args
      else (look_up "ethErc20Address" (eth_address token) c args >>= λ found.
          look_up "nearErc20Account" (near_account token) c found)
