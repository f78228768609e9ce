-- ===== src/Cli/Setup.antt =====
-- What cli/index.js registers when it starts: the options and the commands, and that they fit.
use rainbow_bridge_cli.Base.{String, Option, none, some, List, [], ◌∷◌, ◌++◌, ◌===◌, if◌then◌else◌}
use rainbow_bridge_cli.Base.Io.{Outcome, ok}
use rainbow_bridge_cli.Base.Sync.{◌>>=◌}
use rainbow_bridge_cli.Config.{
  RainbowConfig, Configstore, ChangeCase, CommandOption, declare_option, add_options,
}
use rainbow_bridge_cli.Cli.{OptionCall, Command}
use rainbow_bridge_cli.Cli.Options.{
  bridge_options, token_options, contract_options, service_options,
}
use rainbow_bridge_cli.Cli.Commands.{general_commands, start_commands, stop_commands, dump_commands}
use rainbow_bridge_cli.Cli.Deployments.{init_commands, user_commands}
use rainbow_bridge_cli.Cli.Testing.{transfer_commands, testing_commands, danger_commands}

abbrev pub declarations : (String → String → String) → String → List OptionCall
declarations join dir =
    bridge_options join dir
    ++ token_options join dir
    ++ contract_options join dir
    ++ service_options join dir

abbrev pub commands : List Command
commands =
    general_commands ++ start_commands ++ stop_commands ++ init_commands ++ user_commands
    ++ transfer_commands ++ testing_commands ++ danger_commands ++ dump_commands

module _ {S : Type 0} where
  unfoldable pub declare_all : List OptionCall → RainbowConfig S → RainbowConfig S
  declare_all [] c = c
  declare_all (d ∷ ds) c =
      declare_all ds (declare_option d.name d.description d.default_value d.no_config c)

-- The first declaration of an option.
unfoldable pub find_call : String → List OptionCall → Option OptionCall
find_call name [] = none
find_call name (d ∷ ds) = if d.name === name then some d else find_call name ds

module _ {S : Type 0} (store : Configstore S) (cases : ChangeCase) where
  unfoldable pub add_commands : List Command → RainbowConfig S → Outcome (List (List CommandOption))
  add_commands [] c = ok []
  add_commands (command ∷ rest) c = do
    first ← add_options store cases command.options c
    others ← add_commands rest c
    ok (first ∷ others)

  -- The whole program up to the parsing of the arguments: the options of each command.
  unfoldable pub setup :
      (String → String → String) → String → RainbowConfig S → Outcome (List (List CommandOption))
  setup join dir c = add_commands commands (declare_all (declarations join dir) c)
