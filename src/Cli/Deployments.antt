-- ===== src/Cli/Deployments.antt =====
-- The commands of cli/index.js that deploy contracts.
use rainbow_bridge_cli.Base.{some, none, List, [], ◌∷◌}
use rainbow_bridge_cli.Cli.{
  Command, execute, deploy, plain_call, eth_to_near_find_proof, init_eth_client, init_eth_ed25519,
  init_eth_erc20, init_eth_locker, init_eth_prover, init_near_contracts, init_near_token_factory,
}

-- The contracts of the bridge
abbrev pub init_commands : List Command
init_commands =
    record {
      group = none;
      usage = "init-near-contracts";
      description =
          some "Deploys and initializes Near Client and Near Prover contracts to NEAR blockchain.";
      flags = [];
      handler = execute init_near_contracts;
      options =
          "near-network-id" ∷ "near-node-url" ∷ "eth-node-url" ∷ "near-master-account"
          ∷ "near-master-sk" ∷ "near-client-account" ∷ "near-client-sk"
          ∷ "near-client-contract-path" ∷ "near-client-init-balance" ∷ "near-client-validate-ethash"
          ∷ "near-client-trusted-signer" ∷ "near-prover-account" ∷ "near-prover-sk"
          ∷ "near-prover-contract-path" ∷ "near-prover-init-balance" ∷ [];
    }
    ∷ record {
      group = none;
      usage = "init-eth-ed25519";
      description =
          some "Deploys and initializes ED25519 Solidity contract. It replaces missing precompile.";
      flags = [];
      handler = execute init_eth_ed25519;
      options =
          "eth-node-url" ∷ "eth-master-sk" ∷ "eth-ed25519-abi-path" ∷ "eth-ed25519-bin-path"
          ∷ "eth-gas-multiplier" ∷ [];
    }
    ∷ record {
      group = none;
      usage = "init-eth-client";
      description = some "Deploys and initializes EthClient.";
      flags = [];
      handler = execute init_eth_client;
      options =
          "eth-node-url" ∷ "eth-master-sk" ∷ "eth-client-abi-path" ∷ "eth-client-bin-path"
          ∷ "eth-ed25519-address" ∷ "eth-client-lock-eth-amount" ∷ "eth-client-lock-duration"
          ∷ "eth-client-replace-duration" ∷ "eth-gas-multiplier" ∷ [];
    }
    ∷ record {
      group = none;
      usage = "init-eth-prover";
      description = some "Deploys and initializes EthProver.";
      flags = [];
      handler = execute init_eth_prover;
      options =
          "eth-node-url" ∷ "eth-master-sk" ∷ "eth-prover-abi-path" ∷ "eth-prover-bin-path"
          ∷ "eth-client-address" ∷ "eth-gas-multiplier" ∷ [];
    }
    ∷ []

-- The token connector
abbrev pub user_commands : List Command
user_commands =
    record {
      group = none;
      usage = "init-near-token-factory";
      description =
          some
            "Deploys and initializes token factory to NEAR blockchain. Requires locker on Ethereum side.";
      flags = [];
      handler = execute init_near_token_factory;
      options =
          "near-node-url" ∷ "near-network-id" ∷ "near-master-account" ∷ "near-master-sk"
          ∷ "near-prover-account" ∷ "near-token-factory-account" ∷ "near-token-factory-sk"
          ∷ "near-token-factory-contract-path" ∷ "near-token-factory-init-balance"
          ∷ "eth-locker-address" ∷ "eth-erc20-address" ∷ [];
    }
    ∷ record {
      group = none;
      usage = "deploy-token <token_name> <eth_token_address>";
      description = some "Deploys and initializes token on NEAR.";
      flags = [];
      handler = deploy;
      options =
          "near-node-url" ∷ "near-network-id" ∷ "near-master-account" ∷ "near-master-sk"
          ∷ "near-token-factory-account" ∷ "near-token-factory-sk" ∷ [];
    }
    ∷ record {
      group = none;
      usage = "init-eth-locker";
      description =
          some
            "Deploys and initializes locker contract on Ethereum blockchain. Requires mintable fungible token on Near side.";
      flags = [];
      handler = execute init_eth_locker;
      options =
          "near-token-factory-account" ∷ "eth-node-url" ∷ "eth-master-sk" ∷ "eth-locker-abi-path"
          ∷ "eth-locker-bin-path" ∷ "eth-prover-address" ∷ "eth-gas-multiplier" ∷ [];
    }
    ∷ record {
      group = none;
      usage = "init-eth-erc20";
      description = some "Deploys and initializes ERC20 contract on Ethereum blockchain.";
      flags = [];
      handler = execute init_eth_erc20;
      options =
          "eth-node-url" ∷ "eth-master-sk" ∷ "eth-erc20-abi-path" ∷ "eth-erc20-bin-path"
          ∷ "eth-gas-multiplier" ∷ [];
    }
    ∷ record {
      group = none;
      usage = "eth-to-near-find-proof <locked_event>";
      description = some "Get eth-to-near proof by locked event.";
      flags = [];
      handler = plain_call ("lockedEventRaw" ∷ []) eth_to_near_find_proof;
      options = "eth-node-url" ∷ [];
    }
    ∷ []
