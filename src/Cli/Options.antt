-- ===== src/Cli/Options.antt =====
-- The options that cli/index.js declares: the calls of `declareOption`, in their order.
use rainbow_bridge_cli.Base.{String, ◌<>◌, some, true, false, none, List, [], ◌∷◌}
use rainbow_bridge_cli.Config.{OptionValue, text, number}
use rainbow_bridge_cli.Cli.{OptionCall}

-- declareOption(name, description)
abbrev option : String → String → OptionCall
option name description = record {
  name = name;
  description = description;
  default_value = none;
  no_config = false;
}

-- declareOption(name, description, defaultValue)
abbrev option_or : String → String → OptionValue → OptionCall
option_or name description default_value = record (option name description) {
  default_value = some default_value;
}

-- declareOption(name, description, defaultValue, true)
abbrev unsaved_option : String → String → OptionValue → OptionCall
unsaved_option name description default_value = record (option_or name description default_value) {
  no_config = true;
}

-- `path.join` of Node.js, of two parts, and the directory of the file.
module _ (join : String → String → String) (bridge_src_dir : String) where
  abbrev libs_sol_src_dir : String
  libs_sol_src_dir = join bridge_src_dir "../node_modules/rainbow-bridge-sol"

  abbrev libs_rs_src_dir : String
  libs_rs_src_dir = join bridge_src_dir "../node_modules/rainbow-bridge-rs"

  abbrev libs_tc_src_dir : String
  libs_tc_src_dir = join bridge_src_dir "../node_modules/rainbow-token-connector"

  -- The nodes, the accounts, and the contracts on NEAR.
  abbrev pub bridge_options : List OptionCall
  bridge_options =
      option "near-network-id"
        "The identifier of the NEAR network that the given NEAR node is expected to represent."
      ∷ option "near-node-url" "The URL of the NEAR node."
      ∷ option "eth-node-url" "The URL of the Ethereum node."
      ∷ option "near-master-account" (
          "The account of the master account on NEAR blockchain that can be used to deploy and initialize the test contracts."
          <> " This account will also own the initial supply of the fungible tokens.")
      ∷ option "near-master-sk" "The secret key of the master account on NEAR blockchain."
      ∷ option "eth-master-sk" "The secret key of the master account on Ethereum blockchain."
      ∷ option_or "near-client-account"
          "The account of the Near Client contract that can be used to accept ETH headers."
          (text "rainbow_bridge_eth_on_near_client")
      ∷ option "near-client-sk"
          "The secret key of the Near Client account. If not specified will use master SK."
      ∷ option_or "near-client-contract-path"
          "The path to the Wasm file containing the Near Client contract."
          (text (join libs_rs_src_dir "res/eth_client.wasm"))
      ∷ option_or "near-client-init-balance"
          "The initial balance of Near Client contract in femtoNEAR."
          (text "100000000000000000000000000")
      ∷ option_or "near-client-validate-ethash"
          "Whether validate ethash of submitted eth block, should set to true on mainnet and false on PoA testnets"
          (text "true")
      ∷ option_or "near-client-trusted-signer"
          "When non empty, deploy as trusted-signer mode where only tursted signer can submit blocks to client"
          (text "")
      ∷ option_or "near-prover-account"
          "The account of the Near Prover contract that can be used to accept ETH headers."
          (text "rainbow_bridge_eth_on_near_prover")
      ∷ option "near-prover-sk"
          "The secret key of the Near Prover account. If not specified will use master SK."
      ∷ option_or "near-prover-contract-path"
          "The path to the Wasm file containing the Near Prover contract."
          (text (join libs_rs_src_dir "res/eth_prover.wasm"))
      ∷ option_or "near-prover-init-balance"
          "The initial balance of Near Prover contract in femtoNEAR."
          (text "100000000000000000000000000")
      ∷ unsaved_option "daemon" "Whether the process should be launched as a daemon." (text "true")
      ∷ option_or "core-src" "Path to the nearcore source. It will be downloaded if not provided."
          (text "")
      ∷ option_or "eth-gas-multiplier"
          "How many times more in Ethereum gas are we willing to overpay." (text "1")
      ∷ []

  -- The token factory, the locker and the token.
  abbrev pub token_options : List OptionCall
  token_options =
      option_or "near-token-factory-account"
        "The account of the token factory contract that will be used to mint tokens locked on Ethereum."
        (text "neartokenfactory")
      ∷ option "near-token-factory-sk"
          "The secret key of the token factory account. If not specified will use master SK."
      ∷ option_or "near-token-factory-contract-path"
          "The path to the Wasm file containing the token factory contract."
          (text (join libs_tc_src_dir "res/bridge_token_factory.wasm"))
      ∷ option_or "near-token-factory-init-balance"
          "The initial balance of token factory contract in yoctoNEAR."
          (text "1000000000000000000000000000")
      ∷ option "eth-locker-address" "ETH address of the locker contract."
      ∷ option_or "eth-locker-abi-path"
          "Path to the .abi file defining Ethereum locker contract. This contract works in pair with mintable fungible token on NEAR blockchain."
          (text (join libs_tc_src_dir "res/BridgeTokenFactory.full.abi"))
      ∷ option_or "eth-locker-bin-path"
          "Path to the .bin file defining Ethereum locker contract. This contract works in pair with mintable fungible token on NEAR blockchain."
          (text (join libs_tc_src_dir "res/BridgeTokenFactory.full.bin"))
      ∷ option "eth-erc20-address" "ETH address of the ERC20 contract."
      ∷ option_or "eth-erc20-abi-path" "Path to the .abi file defining Ethereum ERC20 contract."
          (text (join libs_tc_src_dir "res/TToken.full.abi"))
      ∷ option_or "eth-erc20-bin-path" "Path to the .bin file defining Ethereum ERC20 contract."
          (text (join libs_tc_src_dir "res/TToken.full.bin"))
      ∷ []

  -- The contracts on Ethereum.
  abbrev pub contract_options : List OptionCall
  contract_options =
      option "eth-ed25519-address" "ETH address of the ED25519 contract."
      ∷ option_or "eth-ed25519-abi-path" "Path to the .abi file defining Ethereum ED25519 contract."
          (text (join libs_sol_src_dir "nearbridge/dist/Ed25519.full.abi"))
      ∷ option_or "eth-ed25519-bin-path" "Path to the .bin file defining Ethereum ED25519 contract."
          (text (join libs_sol_src_dir "nearbridge/dist/Ed25519.full.bin"))
      ∷ option_or "eth-client-lock-eth-amount"
          "Amount of Ether that should be temporarily locked when submitting a new header to EthClient, in wei."
          (text "100000000000000000000")
      ∷ option_or "eth-client-lock-duration"
          "The challenge window during which anyone can challenge an incorrect ED25519 signature of the Near block, in EthClient, in seconds."
          (number 14400)
      ∷ option_or "eth-client-replace-duration"
          "Minimum time difference required to replace a block during challenge period, in EthClient, in seconds."
          (number 18000)
      ∷ option "eth-client-address" "ETH address of the EthClient contract."
      ∷ option_or "eth-client-abi-path" "Path to the .abi file defining Ethereum Client contract."
          (text (join libs_sol_src_dir "nearbridge/dist/NearBridge.full.abi"))
      ∷ option_or "eth-client-bin-path" "Path to the .bin file defining Ethereum Client contract."
          (text (join libs_sol_src_dir "nearbridge/dist/NearBridge.full.bin"))
      ∷ option "eth-prover-address" "ETH address of the EthProver contract."
      ∷ option_or "eth-prover-abi-path" "Path to the .abi file defining Ethereum Prover contract."
          (text (join libs_sol_src_dir "nearprover/dist/NearProver.full.abi"))
      ∷ option_or "eth-prover-bin-path" "Path to the .bin file defining Ethereum Prover contract."
          (text (join libs_sol_src_dir "nearprover/dist/NearProver.full.bin"))
      ∷ []

  -- The delays of the services, and the account of the token.
  abbrev pub service_options : List OptionCall
  service_options =
      option_or "near2eth-relay-min-delay"
        "Minimum number of seconds to wait if the relay can't submit a block right away." (text "1")
      ∷ option_or "near2eth-relay-max-delay"
          "Maximum number of seconds to wait if the relay can't submit a block right away."
          (text "600")
      ∷ option_or "near2eth-relay-error-delay"
          "Number of seconds to wait before retrying if there is an error." (text "1")
      ∷ option_or "watchdog-delay" "Number of seconds to wait after validating all signatures."
          (text "300")
      ∷ option_or "watchdog-error-delay"
          "Number of seconds to wait before retrying if there is an error." (text "1")
      ∷ option "near-erc20-account" "Must be declared before set"
      ∷ []
