-- ===== src/Cli/Tokens.antt =====
-- A token that deploy-token has deployed is found by its name in the next run of the tool.
use rainbow_bridge_cli.Base.{
  String, ◌<>◌, ◌≡◌, refl, ◌∙◌, ◌===◌, false, some, [], ◌∷◌, Option, eq_iff, List,
}
use rainbow_bridge_cli.Base.Dict
use rainbow_bridge_cli.Base.Io.{ok, Io}
use rainbow_bridge_cli.Config.{
  OptionValue, text, config, Param, keep_values, get_param, RainbowConfig, Configstore, ChangeCase,
  maybe_get_param, set_params, set_param, save_config,
}
use rainbow_bridge_cli.Config.Saved.{KeepsEntries, Distinct, Defined, restart, restart-save_config}
use rainbow_bridge_cli.Cli.{Target, deploy_token, deploy}
use rainbow_bridge_cli.Cli.Args.{
  Args, spread, without, named, eth_address, near_account, token_values, look_up, bind_token,
}
use rainbow_bridge_cli.Cli.Handlers.{handle, action}
use rainbow_bridge_cli.TokenFactory.{TokenInfo}

-- The object that DeployToken.execute returns.
abbrev pub info_values : TokenInfo → Args
info_values i =
    ("nearTokenFactorySk", some (text i.near_token_factory_sk))
    ∷ ("nearTokenAccount", some (text i.near_token_account))
    ∷ ("ethTokenAddress", some (text i.eth_token_address))
    ∷ []

-- How change-case spells the options of a token, and that they differ from the factory's key.
pub record TokenNames (cases : ChangeCase) (capital_case : String → String) (token : String)
    : Type 0 where
  pub account : cases.param_case ("near" <> (capital_case token <> "Account")) ≡ near_account token
  pub address : cases.param_case ("eth" <> (capital_case token <> "Address")) ≡ eth_address token
  pub secret : cases.param_case "nearTokenFactorySk" ≡ "near-token-factory-sk"
  pub account_key : (("near" <> (capital_case token <> "Account")) === "nearTokenFactorySk") ≡ false
  pub address_key : (("eth" <> (capital_case token <> "Address")) === "nearTokenFactorySk") ≡ false
  pub account_apart : ("near-token-factory-sk" === near_account token) ≡ false
  pub address_apart : ("near-token-factory-sk" === eth_address token) ≡ false
  pub pair_apart : (eth_address token === near_account token) ≡ false

abbrev kept : OptionValue → Param
kept v = record { value = some v; param_type = config }

module _ (cases : ChangeCase) (capital_case : String → String) (token : String) (address : String)
    (info : TokenInfo) (names : TokenNames cases capital_case token) where
  abbrev values : Args
  values = token_values capital_case token address (info_values info)

  -- The values of the command in the order in which they are set.
  values_lem :
      values
      ≡ ("near" <> (capital_case token <> "Account"), some (text info.near_token_account))
        ∷ ("eth" <> (capital_case token <> "Address"), some (text address))
        ∷ ("nearTokenFactorySk", some (text info.near_token_factory_sk))
        ∷ []
  unfolding token_values spread without Dict.insert Dict.lookup
  values_lem = simp (names.account_key, names.address_key) refl

  module _ {S : Type 0} where
    account-kept :
        (c : RainbowConfig S)
        → Dict.lookup (near_account token) (set_params cases.param_case values c).param_values
          ≡ some (kept (text info.near_token_account))
    unfolding set_params set_param
    account-kept c =
        rw
          (
            values_lem,
            names.account,
            names.address,
            names.secret,
            Dict.lookup-insert "near-token-factory-sk" (near_account token),
            names.account_apart,
            Dict.lookup-insert (eth_address token) (near_account token),
            names.pair_apart,
            Dict.lookup-insert (near_account token) (near_account token),
            (eq_iff (near_account token) (near_account token)).1 refl,
          )
          refl

    address-kept :
        (c : RainbowConfig S)
        → Dict.lookup (eth_address token) (set_params cases.param_case values c).param_values
          ≡ some (kept (text address))
    unfolding set_params set_param
    address-kept c =
        rw
          (
            values_lem,
            names.account,
            names.address,
            names.secret,
            Dict.lookup-insert "near-token-factory-sk" (eth_address token),
            names.address_apart,
            Dict.lookup-insert (eth_address token) (eth_address token),
            (eq_iff (eth_address token) (eth_address token)).1 refl,
          )
          refl

  module _ {S E : Type 0} (store : Configstore S) (laws : KeepsEntries store)
      (run : Target → List String → Args → Io E (Option Args)) where
    -- The configuration that the command leaves.
    abbrev after_deploy : RainbowConfig S → RainbowConfig S
    after_deploy c = save_config store cases (set_params cases.param_case values c)

    action-deploys :
        (args : Args) (c : RainbowConfig S) (t u : List E)
        → run deploy_token []
            (spread (named ("tokenName" ∷ "ethTokenAddress" ∷ []) (token ∷ address ∷ [])) args)
            t
          ≡ (ok (some (info_values info)), u)
        → action store cases capital_case run deploy (token ∷ address ∷ []) args c t
          ≡ (ok (after_deploy c), u)
    unfolding action handle keep_values
    action-deploys args c t u h = rw (h, values_lem) refl

    -- A parameter that the command has set, in the next run.
    restarted :
        (name : String) (v : OptionValue) (c : RainbowConfig S)
        → Distinct cases.camel_case (set_params cases.param_case values c).param_values
        → Defined (set_params cases.param_case values c).param_values
        → Dict.lookup name (set_params cases.param_case values c).param_values ≡ some (kept v)
        → maybe_get_param store cases name (restart (after_deploy c)) ≡ some v
    unfolding maybe_get_param
    restarted name v c x y h =
        restart-save_config store cases laws name (kept v) v (set_params cases.param_case values c)
          x y h refl
        ∙ rw h refl

    -- If deploy-token has deployed a token, its name is not empty, change-case spells the token's
    -- options as they are read, and no two parameters have the same key in the file, then the tool's
    -- next run looks up exactly the account and the address of that token for a transfer by its name.
    pub deploy-bind_token :
        (args found : Args) (c : RainbowConfig S) (t u : List E)
        → (token === "") ≡ false
        → run deploy_token []
            (spread (named ("tokenName" ∷ "ethTokenAddress" ∷ []) (token ∷ address ∷ [])) args)
            t
          ≡ (ok (some (info_values info)), u)
        → Distinct cases.camel_case (set_params cases.param_case values c).param_values
        → Defined (set_params cases.param_case values c).param_values
        → (next : RainbowConfig S) × (action store cases capital_case run deploy
              (token ∷ address ∷ [])
              args
              c
              t
            ≡ (ok next, u))
          × (bind_token store cases token (restart next) found
              ≡ ok (
                  Dict.insert "nearErc20Account"
                    (some (text info.near_token_account))
                    (Dict.insert "ethErc20Address" (some (text address)) found)))
    unfolding bind_token look_up get_param
    deploy-bind_token args found c t u n h x y = (
      after_deploy c,
      action-deploys args c t u h,
      rw
          (
            n,
            restarted (eth_address token) (text address) c x y (address-kept c),
            restarted (near_account token) (text info.near_token_account) c x y (account-kept c),
          )
          refl,
    )
