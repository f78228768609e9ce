-- ===== src/Examples/Config.antt =====
-- A run of the tool with one option that the configuration file and an argument give.
use rainbow_bridge_cli.Base.{
  String, [], ◌∷◌, Option, none, some, true, false, ◌≡◌, refl, ◌===◌, if◌then◌else◌, is_some, Bool,
}
use rainbow_bridge_cli.Base.Dict
use rainbow_bridge_cli.Base.Dict.{Dict}
use rainbow_bridge_cli.Base.Io.{ok}
use rainbow_bridge_cli.Config.{
  OptionValue, text, arg, RainbowConfig, Configstore, ChangeCase, process_arg, maybe_get_param,
  save_config,
}
use rainbow_bridge_cli.Config.Priority.{process_arg-first_source, first_source, has_source}
use rainbow_bridge_cli.Config.Saved.{
  restart-save_config, restart, KeepsEntries, Distinct, Apart, Defined,
}

abbrev pub File : Type 0
File = Dict OptionValue

pub set_entry : String → Option OptionValue → File → File
set_entry k none s = s
set_entry k (some v) s = Dict.insert k v s

abbrev pub store : Configstore File
store = record { has = λ k s. is_some (Dict.lookup k s); get = Dict.lookup; set = set_entry }

pub store-KeepsEntries : KeepsEntries store
unfolding set_entry
store-KeepsEntries = record {
  get_set = λ k j v s. Dict.lookup-insert k j v s;
  has_set = λ k j v s. rw (Dict.lookup-insert k j v s) (if_is_some (k === j) v (Dict.lookup j s));
}
  where
    if_is_some :
        (b : Bool) (v : OptionValue) (o : Option OptionValue)
        → is_some (if b then some v else o) ≡ (if b then true else is_some o)
    if_is_some true v o = refl
    if_is_some false v o = refl

camel : String → String
camel s = if s === "eth-node-url" then "ethNodeUrl" else s

constant : String → String
constant s = if s === "eth-node-url" then "ETH_NODE_URL" else s

abbrev cases : ChangeCase
cases = record {
  param_case = λ s. s;
  snake_case = λ s. s;
  camel_case = camel;
  constant_case = constant;
}

abbrev saved : RainbowConfig File
saved = record {
  param_values = [];
  param_declarations = [];
  config_file = ("ethNodeUrl", text "ws://localhost:9545") ∷ [];
}

abbrev nothing : String → Option OptionValue
nothing s = none

process_arg-first_source_example :
    (v : Option OptionValue) × (c' : RainbowConfig File) × (process_arg store cases nothing
        "eth-node-url"
        (some (text "wss://mainnet"))
        none
        saved
      ≡ ok (v, c'))
    × (v
        ≡ first_source store none
            (some (text "wss://mainnet"))
            (camel "eth-node-url")
            saved.config_file
            none)
    × ((other : String)
        → maybe_get_param store cases other c'
          ≡ (if "eth-node-url" === other then v else maybe_get_param store cases other saved))
unfolding Dict.lookup has_source
process_arg-first_source_example =
    process_arg-first_source store cases nothing "eth-node-url" (some (text "wss://mainnet")) none
      saved refl refl

abbrev processed : RainbowConfig File
processed = record saved {
  param_values =
      ("eth-node-url", record { value = some (text "wss://mainnet"); param_type = arg }) ∷ [];
}

restart-save_config_example :
    maybe_get_param store cases "eth-node-url" (restart (save_config store cases processed))
    ≡ maybe_get_param store cases "eth-node-url" processed
unfolding Distinct Apart Defined Dict.lookup
restart-save_config_example =
    restart-save_config store cases store-KeepsEntries "eth-node-url"
      (record { value = some (text "wss://mainnet"); param_type = arg }) (text "wss://mainnet")
      processed (tt, tt) ((text "wss://mainnet", refl), tt) refl refl
