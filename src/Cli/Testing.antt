-- ===== src/Cli/Testing.antt =====
-- The commands of cli/index.js for tests.
use rainbow_bridge_cli.Base.{some, none, List, [], ◌∷◌}
use rainbow_bridge_cli.Cli.{
  Command, execute, transfer, plain_call, token_call, danger_deploy_my_erc20,
  danger_submit_invalid_near_block, eth_to_near_approve, eth_to_near_lock,
  get_address_by_secret_key, get_client_block_height_hash, get_erc20_balance, mint_erc20,
  near_to_eth_unlock, transfer_from_near, transfer_to_near,
}

-- Transfers of tokens
abbrev pub transfer_commands : List Command
transfer_commands =
    record {
      group = some "TESTING";
      usage = "transfer-eth-erc20-to-near";
      description = none;
      flags =
          ("--amount <amount>", "Amount of ERC20 tokens to transfer")
          ∷ (
            "--eth-sender-sk <eth_sender_sk>",
            "The secret key of the Ethereum account that will be sending ERC20 token.",
          )
          ∷ (
            "--near-receiver-account <near_receiver_account>",
            "The account on NEAR blockchain that will be receiving the minted token.",
          )
          ∷ (
            "--token-name <token_name>",
            "Specific ERC20 token that is already bound by `deploy-token`.",
          )
          ∷ [];
      handler = transfer transfer_to_near;
      options =
          "eth-erc20-address" ∷ "near-erc20-account" ∷ "eth-node-url" ∷ "eth-erc20-abi-path"
          ∷ "eth-locker-address" ∷ "eth-locker-abi-path" ∷ "near-node-url" ∷ "near-network-id"
          ∷ "near-token-factory-account" ∷ "near-client-account" ∷ "near-master-account"
          ∷ "near-master-sk" ∷ [];
    }
    ∷ record {
      group = some "TESTING";
      usage = "transfer-eth-erc20-from-near";
      description = none;
      flags =
          ("--amount <amount>", "Amount of ERC20 tokens to transfer")
          ∷ (
            "--near-sender-account <near_sender_account>",
            "Near account that will be sending fungible token.",
          )
          ∷ (
            "--near-sender-sk <near_sender_sk>",
            "The secret key of Near account that will be sending the fungible token.",
          )
          ∷ (
            "--eth-receiver-address <eth_receiver_address>",
            "The account that will be receiving the token on Ethereum side.",
          )
          ∷ (
            "--token-name <token_name>",
            "Specific ERC20 token that is already bound by `deploy-token`.",
          )
          ∷ [];
      handler = transfer transfer_from_near;
      options =
          "eth-erc20-address" ∷ "near-erc20-account" ∷ "near-node-url" ∷ "near-network-id"
          ∷ "near-token-factory-account" ∷ "eth-node-url" ∷ "eth-master-sk" ∷ "eth-erc20-abi-path"
          ∷ "eth-locker-address" ∷ "eth-locker-abi-path" ∷ "eth-client-abi-path"
          ∷ "eth-client-address" ∷ "eth-prover-abi-path" ∷ "eth-prover-address"
          ∷ "eth-gas-multiplier" ∷ [];
    }
    ∷ []

-- Single steps of transfers
abbrev pub testing_commands : List Command
testing_commands =
    record {
      group = some "TESTING";
      usage = "mint-erc20-tokens <eth_account_address> <amount> <token_name>";
      description = some "Mint ERC20 test token for specific account address";
      flags = [];
      handler = token_call ("ethAccountAddress" ∷ "amount" ∷ []) mint_erc20;
      options = "eth-node-url" ∷ "eth-erc20-address" ∷ "eth-erc20-abi-path" ∷ [];
    }
    ∷ record {
      group = some "TESTING";
      usage = "get-account-address <eth_secret_key>";
      description = some "Get account address accessible by its secret key on Ethereum.";
      flags = [];
      handler = plain_call ("ethSecretKey" ∷ []) get_address_by_secret_key;
      options = "eth-node-url" ∷ [];
    }
    ∷ record {
      group = some "TESTING";
      usage = "get-erc20-balance <eth_account_address> <token_name>";
      description = some "Get ERC20 balance on Ethereum for specific token (e.g. erc20).";
      flags = [];
      handler = token_call ("ethAccountAddress" ∷ []) get_erc20_balance;
      options = "eth-node-url" ∷ "eth-erc20-address" ∷ "eth-erc20-abi-path" ∷ [];
    }
    ∷ record {
      group = some "TESTING";
      usage = "get-client-block-height-hash";
      description = some "Get last block height available on Eth client.";
      flags = [];
      handler = plain_call [] get_client_block_height_hash;
      options =
          "eth-node-url" ∷ "eth-master-sk" ∷ "eth-client-abi-path" ∷ "eth-client-address" ∷ [];
    }
    ∷ record {
      group = some "TESTING";
      usage = "eth-to-near-approve <eth_account_address> <amount> <token_name>";
      description = some "Approve ERC20 token to lock";
      flags = [];
      handler = token_call ("ethAccountAddress" ∷ "amount" ∷ []) eth_to_near_approve;
      options =
          "eth-node-url" ∷ "eth-erc20-address" ∷ "eth-erc20-abi-path" ∷ "eth-locker-address" ∷ [];
    }
    ∷ record {
      group = some "TESTING";
      usage = "eth-to-near-lock <eth_account_address> <near_account_name> <amount> <token_name>";
      description = some "Lock ERC20 tokens";
      flags = [];
      handler =
          token_call ("ethAccountAddress" ∷ "nearAccountName" ∷ "amount" ∷ []) eth_to_near_lock;
      options =
          "eth-node-url" ∷ "eth-erc20-address" ∷ "eth-locker-abi-path" ∷ "eth-locker-address" ∷ [];
    }
    ∷ record {
      group = some "TESTING";
      usage = "near-to-eth-unlock <block_height> <proof>";
      description = some "Unlock ERC20 tokens";
      flags = [];
      handler = plain_call ("blockHeight" ∷ "proof" ∷ []) near_to_eth_unlock;
      options =
          "eth-node-url" ∷ "eth-master-sk" ∷ "eth-locker-abi-path" ∷ "eth-locker-address"
          ∷ "eth-gas-multiplier" ∷ [];
    }
    ∷ []

-- Dangerous commands
abbrev pub danger_commands : List Command
danger_commands =
    record {
      group = some "DANGER";
      usage = "submit_invalid_near_block";
      description =
          some "Fetch latest near block, randomly mutate one byte and submit to NearBridge";
      flags = [];
      handler = execute danger_submit_invalid_near_block;
      options =
          "eth-node-url" ∷ "eth-master-sk" ∷ "near-node-url" ∷ "near-network-id"
          ∷ "eth-client-abi-path" ∷ "eth-client-address" ∷ "near2eth-relay-min-delay"
          ∷ "near2eth-relay-max-delay" ∷ "near2eth-relay-error-delay" ∷ "eth-gas-multiplier" ∷ [];
    }
    ∷ record {
      group = some "DANGER";
      usage = "deploy_test_erc20";
      description = some "Deploys MyERC20";
      flags = [];
      handler = execute danger_deploy_my_erc20;
      options = "eth-node-url" ∷ "eth-master-sk" ∷ "eth-erc20-abi-path" ∷ "eth-gas-multiplier" ∷ [];
    }
    ∷ []
