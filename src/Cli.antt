-- ===== src/Cli.antt =====
-- cli/index.js: the options that are declared, the commands with their options, and the handlers
-- that run a command. The functions that carry out the commands are parameters here; some of them
-- have modules of their own.
pub mod Options
pub mod Commands
pub mod Deployments
pub mod Testing
pub mod Setup
pub mod Declared
pub mod Tokens
pub mod Args
pub mod Handlers
use rainbow_bridge_cli.Base.{String, Bool, Option, List}
use rainbow_bridge_cli.Config.{OptionValue}

-- One call of `declareOption`. A default that is left out is `none`.
pub record OptionCall : Type 0 where
  pub name : String
  pub description : String
  pub default_value : Option OptionValue
  pub no_config : Bool

-- The functions that carry out the commands.
pub data Target : Type 0 where
  prepare status start_local_near_node start_ganache_node start_eth2near_relay start_near2eth_relay
        start_watchdog stop_managed_process init_near_contracts init_eth_ed25519 init_eth_client
        init_eth_prover init_near_token_factory deploy_token init_eth_locker init_eth_erc20
        eth_to_near_find_proof transfer_to_near transfer_from_near mint_erc20
        get_address_by_secret_key get_erc20_balance get_client_block_height_hash eth_to_near_approve
        eth_to_near_lock near_to_eth_unlock danger_submit_invalid_near_block danger_deploy_my_erc20
        eth_dump near_dump :
      Target

-- How a command's handler calls its function.
pub data Handler : Type 0 where
  -- the function itself is the handler
  execute : Target → Handler
  -- the handler of deploy-token
  deploy : Handler
  -- the handler that looks up both addresses of the token in the options
  transfer : Target → Handler
  -- the handler that adds the positional arguments under these names to the options
  plain_call : List String → Target → Handler
  -- the same, with the name of the token as the last positional argument
  token_call : List String → Target → Handler

-- What one call of `addOptions` is given, and what commander is told before. `usage` is the name of
-- the command with its positional arguments, `flags` are options of the command alone.
pub record Command : Type 0 where
  pub group : Option String
  pub usage : String
  pub description : Option String
  pub flags : List (String × String)
  pub handler : Handler
  pub options : List String
