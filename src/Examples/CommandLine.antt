-- ===== src/Examples/CommandLine.antt =====
-- cli/index.js with a fixed configuration, and the commands for the token factory.
use rainbow_bridge_cli.Base.{
  String, ◌<>◌, some, List, [], ◌∷◌, ◌≡◌, refl, ◌===◌, if◌then◌else◌, Option,
}
use rainbow_bridge_cli.Base.Dict
use rainbow_bridge_cli.Base.Io.{ok, Io, resolve}
use rainbow_bridge_cli.Base.Io.Rules.{Returns}
use rainbow_bridge_cli.Config.{
  OptionValue, text, RainbowConfig, ChangeCase, CommandOption, set_params,
}
use rainbow_bridge_cli.Config.Saved.{restart, Distinct, Apart, Defined}
use rainbow_bridge_cli.Cli.{Target, deploy}
use rainbow_bridge_cli.Cli.Args.{Args, bind_token}
use rainbow_bridge_cli.Cli.Handlers.{action}
use rainbow_bridge_cli.Cli.Setup.{declarations, commands, setup}
use rainbow_bridge_cli.Cli.Declared.{RegistersAll, setup-RegistersAll}
use rainbow_bridge_cli.Cli.Tokens.{info_values, TokenNames, deploy-bind_token}
use rainbow_bridge_cli.TokenFactory.{
  World, FactoryArgs, TokenInfo, remove_0x, init_near_token_factory,
}
use rainbow_bridge_cli.TokenFactory.Deployed.{
  Initialized, Added, Names, init_near_token_factory-Deployed,
}
use rainbow_bridge_cli.Examples.Accounts.{accounts}
use rainbow_bridge_cli.Examples.Config.{File, store, store-KeepsEntries}

param : String → String
param s =
    if s === "nearErc20Account"
    then "near-erc20-account"
    else if s === "ethErc20Address"
    then "eth-erc20-address"
    else if s === "nearTokenFactorySk"
    then "near-token-factory-sk"
    else s

capital : String → String
capital s = if s === "erc20" then "Erc20" else s

abbrev cases : ChangeCase
cases = record {
  param_case = param;
  snake_case = λ s. s;
  camel_case = λ s. s;
  constant_case = λ s. s;
}

abbrev fresh : RainbowConfig File
fresh = record { param_values = []; param_declarations = []; config_file = [] }

abbrev join : String → String → String
join a b = a <> ("/" <> b)

setup-RegistersAll_example :
    (rss : List (List CommandOption)) × (setup store cases join "cli" fresh ≡ ok rss)
    × RegistersAll cases (declarations join "cli") commands rss
setup-RegistersAll_example = setup-RegistersAll store cases join "cli" fresh

abbrev info : TokenInfo
info = record {
  near_token_factory_sk = "ed25519:s";
  near_token_account = "ab.factory";
  eth_token_address = "0xab";
}

abbrev run : Target → List String → Args → Io String (Option Args)
run target positional args t = (ok (some (info_values info)), t)

names : TokenNames cases capital "erc20"
unfolding param capital
names = record {
  account = refl;
  address = refl;
  secret = refl;
  account_key = refl;
  address_key = refl;
  account_apart = refl;
  address_apart = refl;
  pair_apart = refl;
}

deploy-bind_token_example :
    (next : RainbowConfig File) × (action store cases capital run deploy
        ("erc20" ∷ "0xab" ∷ [])
        []
        fresh
        []
      ≡ (ok next, []))
    × (bind_token store cases "erc20" (restart next) []
        ≡ ok (
            Dict.insert "nearErc20Account"
              (some (text "ab.factory"))
              (Dict.insert "ethErc20Address" (some (text "0xab")) [])))
unfolding Distinct Apart Defined set_params rainbow_bridge_cli.Config.set_param
    rainbow_bridge_cli.Cli.Args.token_values rainbow_bridge_cli.Cli.Args.spread
    rainbow_bridge_cli.Cli.Args.without Dict.insert Dict.lookup param capital
deploy-bind_token_example =
    deploy-bind_token cases capital "erc20" "0xab" info names store store-KeepsEntries run [] []
      fresh [] [] refl refl ((refl, (refl, tt)), ((refl, tt), (tt, tt)))
      ((text "ab.factory", refl), ((text "0xab", refl), ((text "ed25519:s", refl), tt)))

abbrev world : World
world = record {
  accounts = accounts;
  key_pair = λ sk. ok "ed25519:k";
  new_factory = λ _ _ _. resolve tt;
  deploy_bridge_token = λ _ _. resolve tt;
}

abbrev factory_args : FactoryArgs
factory_args = record {
  near_master_account = "a";
  near_master_sk = "ed25519:s";
  near_token_factory_account = "factory";
  near_token_factory_sk = "";
  near_token_factory_init_balance = 5;
  near_prover_account = "prover";
  eth_locker_address = "0xcd";
  eth_erc20_address = "0xab";
}

init_near_token_factory-Deployed_example :
    Returns
      (λ info u.
        Initialized world "prover" (remove_0x "0xcd") u
        × (Added world (remove_0x "0xab") u × Names world factory_args info))
      (init_near_token_factory world factory_args [])
init_near_token_factory-Deployed_example = init_near_token_factory-Deployed world factory_args []
