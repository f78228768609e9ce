-- ===== src/Cli/Handlers.antt =====
-- The handlers of the commands of cli/index.js, and the action that `addOptions` installs around them.
use rainbow_bridge_cli.Base.{String, Option, none, some, List, [], ◌∷◌}
use rainbow_bridge_cli.Base.Io.{Io, pure, lift, ◌>>=◌}
use rainbow_bridge_cli.Config.{RainbowConfig, Configstore, ChangeCase, keep_values}
use rainbow_bridge_cli.Cli.{
  Target, deploy_token, Handler, execute, deploy, transfer, plain_call, token_call,
}
use rainbow_bridge_cli.Cli.Args.{
  Args, spread, without, get, named, last, name_of, deployed, bind_address, bind_token,
}

-- `run` is the function that a command calls.
module _ {S : Type 0} (store : Configstore S) (cases : ChangeCase) (capital_case : String → String)
    {E : Type 0} (run : Target → List String → Args → Io E (Option Args)) where
  -- A handler that awaits the function and returns nothing.
  abbrev pub run_only : Target → Args → Io E (Option Args)
  run_only target args = run target [] args >>= λ result. pure none

  -- The handler of a command, with the positional arguments and the options.
  unfoldable pub handle : Handler → List String → Args → RainbowConfig S → Io E (Option Args)
  handle (execute target) values args c = run target values args
  handle deploy values args c =
      run deploy_token [] (spread (named ("tokenName" ∷ "ethTokenAddress" ∷ []) values) args)
      >>= λ info. pure (deployed capital_case values info)
  handle (transfer target) values args c =
      lift (bind_token store cases (name_of (get "tokenName" args)) c (without "tokenName" args))
      >>= run target []
  handle (plain_call names target) values args c =
      run_only target (spread (named names values) args)
  handle (token_call names target) values args c =
      lift (bind_address store cases (last values) c args) >>= λ bound.
      run_only target (spread (named names values) bound)

  abbrev pub keep : RainbowConfig S → Option Args → Io E (RainbowConfig S)
  keep c none = pure c
  keep c (some values) = pure (keep_values store cases values c)

  -- The action that `addOptions` installs: the configuration after the command.
  unfoldable pub action : Handler → List String → Args → RainbowConfig S → Io E (RainbowConfig S)
  action handler values args c = handle handler values args c >>= keep c
