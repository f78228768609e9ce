-- ===== src/Deployment.antt =====
-- cli/init/eth-contracts.js: the contracts on Ethereum are deployed, and their addresses kept in the
-- configuration. Files, keys and web3 are parameters.
pub mod Deploys
use rainbow_bridge_cli.Base.{
  ℕ, ◌*◌, ◌^◌, String, ◌<>◌, ◌===◌, starts_with, Bool, ◌||◌, Option, none, some, List, [], ◌∷◌,
  if◌then◌else◌,
}
use rainbow_bridge_cli.Base.Bytes.{Bytes}
use rainbow_bridge_cli.Base.Io.{
  Outcome, Reply, Io, pure, process_exit, call, catch, lift, ◌>>=◌, ◌>>◌,
}
use rainbow_bridge_cli.Config.{OptionValue, text}
use rainbow_bridge_cli.Cli.Args.{Args}

-- An argument of a constructor.
pub data Argument : Type 0 where
  address : String → Argument
  amount : ℕ → Argument
  buffer : Bytes → Argument

pub record Deployment : Type 0 where
  pub code : String
  pub arguments : List Argument
  pub sender : String
  pub gas : ℕ
  pub gas_price : ℕ

pub data DeployEvent : Type 0 where
  get_gas_price : DeployEvent
  deployed : Deployment → DeployEvent

abbrev pub Trace : Type 0
Trace = List DeployEvent

pub record World : Type 0 where
  -- key.toLowerCase()
  pub lower : String → String
  -- the address of privateKeyToAccount
  pub account : String → Outcome String
  -- the contract of an ABI file, and the content of a file with code
  pub abi : String → Outcome (Unit {0})
  pub bin : String → Outcome String
  -- new BN(text)
  pub bn : String → Outcome ℕ
  -- Buffer.from(text, 'utf8')
  pub utf8 : String → Bytes
  pub gas_price : Trace → Reply ℕ
  -- the address of the new contract
  pub deploy : Deployment → Trace → Reply String

-- What the initializer is given. A path that is missing is "".
pub record Request : Type 0 where
  pub arguments : List Argument
  pub gas : ℕ
  pub eth_master_sk : String
  pub eth_contract_abi_path : String
  pub eth_contract_bin_path : String
  pub eth_gas_multiplier : String

-- normalizeEthKey
unfoldable pub normalize_eth_key : (String → String) → String → String
normalize_eth_key lower key = if starts_with (lower key) "0x" then lower key else "0x" <> lower key

module _ (w : World) where
  abbrev pub deployment : Request → String → String → ℕ → ℕ → Deployment
  deployment r sender code gas_price multiplier = record {
    code = "0x" <> code;
    arguments = r.arguments;
    sender = sender;
    gas = r.gas;
    gas_price = gas_price * multiplier;
  }

  abbrev pub send : Deployment → Io DeployEvent String
  send d = call (deployed d) (w.deploy d)

  abbrev pub send_at : Request → String → String → ℕ → Io DeployEvent String
  send_at r sender code gas_price = lift (w.bn r.eth_gas_multiplier) >>= λ multiplier.
      send (deployment r sender code gas_price multiplier)

  abbrev pub send_code : Request → String → String → Io DeployEvent String
  send_code r sender code = call get_gas_price w.gas_price >>= send_at r sender code

  abbrev pub send_from : Request → String → Io DeployEvent String
  send_from r sender =
      (lift (w.abi r.eth_contract_abi_path) >> lift (w.bin r.eth_contract_bin_path))
      >>= send_code r sender

  abbrev pub deploy_contract : Request → Io DeployEvent (Option String)
  deploy_contract r =
      (lift (w.account (normalize_eth_key w.lower r.eth_master_sk)) >>= send_from r) >>= λ a.
      pure (some (normalize_eth_key w.lower a))

  -- EthContractInitializer.execute: the address, or `none` for null.
  unfoldable pub initialize : Request → Io DeployEvent (Option String)
  initialize r =
      if (r.eth_contract_abi_path === "") || (r.eth_contract_bin_path === "")
      then pure none
      else catch (deploy_contract r) (λ e. pure none)

  abbrev pub address_or_exit : String → Option String → Io DeployEvent Args
  address_or_exit key none = process_exit 1
  address_or_exit key (some a) = pure ((key, some (text a)) ∷ [])

  -- What the five commands have in common.
  abbrev pub keep_address : String → Request → Io DeployEvent Args
  keep_address key r = initialize r >>= address_or_exit key

-- The arguments of the commands: the paths of the contract, and what its constructor takes.
pub record ContractArgs : Type 0 where
  pub eth_master_sk : String
  pub abi_path : String
  pub bin_path : String
  pub eth_gas_multiplier : String

abbrev pub request : ContractArgs → ℕ → List Argument → Request
request a gas arguments = record {
  arguments = arguments;
  gas = gas;
  eth_master_sk = a.eth_master_sk;
  eth_contract_abi_path = a.abi_path;
  eth_contract_bin_path = a.bin_path;
  eth_gas_multiplier = a.eth_gas_multiplier;
}

module _ (w : World) (a : ContractArgs) where
  -- InitEthEd25519.execute
  unfoldable pub init_ed25519 : Io DeployEvent Args
  init_ed25519 = keep_address w "ethEd25519Address" (request a 5000000 [])

  -- InitEthErc20.execute
  unfoldable pub init_erc20 : Io DeployEvent Args
  init_erc20 = keep_address w "ethErc20Address" (request a 3000000 [])

  -- InitEthLocker.execute, with nearTokenFactoryAccount and ethProverAddress
  unfoldable pub init_locker : String → String → Io DeployEvent Args
  init_locker factory prover =
      keep_address w "ethLockerAddress"
        (request a 5000000 (buffer (w.utf8 factory) ∷ address prover ∷ []))

  abbrev pub client_arguments : String → ℕ → ℕ → ℕ → List Argument
  client_arguments ed25519 lock_amount lock_duration replace_duration =
      address ed25519
      ∷ amount lock_amount
      ∷ amount lock_duration
      ∷ amount (replace_duration * 10 ^ 9)
      ∷ []

  -- InitEthClient.execute, with ethEd25519Address and the three numbers
  unfoldable pub init_client : String → String → String → String → Io DeployEvent Args
  init_client ed25519 lock_eth_amount lock_duration replace_duration = do
    lock ← lift (w.bn lock_eth_amount)
    duration ← lift (w.bn lock_duration)
    replace ← lift (w.bn replace_duration)
    keep_address w "ethClientAddress"
        (request a 5000000 (client_arguments ed25519 lock duration replace))

  -- InitEthProver.execute, with ethClientAddress
  unfoldable pub init_prover : String → Io DeployEvent Args
  init_prover client = keep_address w "ethProverAddress" (request a 3000000 (address client ∷ []))
