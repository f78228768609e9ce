-- ===== src/Cli/Commands.antt =====
-- The commands of cli/index.js that run the bridge: what each call of `addOptions` is given.
use rainbow_bridge_cli.Base.{some, none, List, [], ◌∷◌}
use rainbow_bridge_cli.Cli.{
  Command, execute, eth_dump, near_dump, prepare, start_eth2near_relay, start_ganache_node,
  start_local_near_node, start_near2eth_relay, start_watchdog, status, stop_managed_process,
}

-- General-purpose commands
abbrev pub general_commands : List Command
general_commands =
    record {
      group = none;
      usage = "prepare";
      description = none;
      flags = [];
      handler = execute prepare;
      options = "core-src" ∷ [];
    }
    ∷ record {
      group = none;
      usage = "status";
      description = none;
      flags = [];
      handler = execute status;
      options =
          "near-network-id" ∷ "near-node-url" ∷ "near-master-account" ∷ "near-master-sk"
          ∷ "near-client-account" ∷ "near-client-sk" ∷ "near-prover-account" ∷ "near-prover-sk"
          ∷ "eth-node-url" ∷ "eth-master-sk" ∷ [];
    }
    ∷ []

-- start: the node, a local chain, and the services
abbrev pub start_commands : List Command
start_commands =
    record {
      group = some "start";
      usage = "near-node";
      description = none;
      flags = [];
      handler = execute start_local_near_node;
      options = [];
    }
    ∷ record {
      group = some "start";
      usage = "ganache";
      description = none;
      flags = [];
      handler = execute start_ganache_node;
      options = [];
    }
    ∷ record {
      group = some "start";
      usage = "eth2near-relay";
      description = none;
      flags = [];
      handler = execute start_eth2near_relay;
      options =
          "near-master-account" ∷ "near-master-sk" ∷ "near-client-account" ∷ "near-network-id"
          ∷ "near-node-url" ∷ "eth-node-url" ∷ "daemon" ∷ [];
    }
    ∷ record {
      group = some "start";
      usage = "near2eth-relay";
      description = none;
      flags = [];
      handler = execute start_near2eth_relay;
      options =
          "eth-node-url" ∷ "eth-master-sk" ∷ "near-node-url" ∷ "near-network-id"
          ∷ "eth-client-abi-path" ∷ "eth-client-address" ∷ "near2eth-relay-min-delay"
          ∷ "near2eth-relay-max-delay" ∷ "near2eth-relay-error-delay" ∷ "eth-gas-multiplier"
          ∷ "daemon" ∷ [];
    }
    ∷ record {
      group = some "start";
      usage = "bridge-watchdog";
      description = none;
      flags = [];
      handler = execute start_watchdog;
      options =
          "eth-node-url" ∷ "eth-master-sk" ∷ "eth-client-abi-path" ∷ "eth-client-address"
          ∷ "watchdog-delay" ∷ "watchdog-error-delay" ∷ "daemon" ∷ [];
    }
    ∷ []

-- stop
abbrev pub stop_commands : List Command
stop_commands =
    record {
      group = some "stop";
      usage = "all";
      description = none;
      flags = [];
      handler = execute stop_managed_process;
      options = [];
    }
    ∷ record {
      group = some "stop";
      usage = "near-node";
      description = none;
      flags = [];
      handler = execute stop_managed_process;
      options = [];
    }
    ∷ record {
      group = some "stop";
      usage = "ganache";
      description = none;
      flags = [];
      handler = execute stop_managed_process;
      options = [];
    }
    ∷ record {
      group = some "stop";
      usage = "eth2near-relay";
      description = none;
      flags = [];
      handler = execute stop_managed_process;
      options = [];
    }
    ∷ record {
      group = some "stop";
      usage = "near2eth-relay";
      description = none;
      flags = [];
      handler = execute stop_managed_process;
      options = [];
    }
    ∷ record {
      group = some "stop";
      usage = "bridge-watchdog";
      description = none;
      flags = [];
      handler = execute stop_managed_process;
      options = [];
    }
    ∷ []

-- dumps of blocks
abbrev pub dump_commands : List Command
dump_commands =
    record {
      group = none;
      usage = "eth-dump <kind_of_data>";
      description = none;
      flags =
          ("--path <path>", "Dir path to dump eth data")
          ∷ (
            "--start-block <start_block>",
            "Start block number (inclusive), default to be 4.3K blocks away from start block",
          )
          ∷ ("--end-block <end_block>", "End block number (inclusive), default to be latest block")
          ∷ [];
      handler = execute eth_dump;
      options = "eth-node-url" ∷ [];
    }
    ∷ record {
      group = none;
      usage = "near-dump <kind_of_data>";
      description = none;
      flags =
          ("--path <path>", "Dir path to dump near data")
          ∷ ("--num-blocks <num_blocks>", "Number of blocks to dump, default: 100")
          ∷ [];
      handler = execute near_dump;
      options = "near-node-url" ∷ [];
    }
    ∷ []
