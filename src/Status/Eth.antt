-- ===== src/Status/Eth.antt =====
-- `EthContracts`, `EthStatus` and `ServicesStatus` of cli/commands/status.js.
use rainbow_bridge_cli.Base.{
  String, ◌<>◌, ◌===◌, starts_with, Bool, true, false, Option, none, some, List, [], ◌∷◌,
  if◌then◌else◌,
}
use Prim.Native.String.{slice, len}
use rainbow_bridge_cli.Base.Io.{Io, pure, throw, call, try, lift, ◌>>=◌}
use rainbow_bridge_cli.Status.{
  fine, info, failure, Status, explained, judged, unknown, StatusEvent, get_protocol_version,
  get_block_number, get_accounts, describe, World, given, no_options,
}

-- The paths of the ABI files and the addresses.
pub record ContractOptions : Type 0 where
  pub eth_ed25519_abi_path : String
  pub eth_ed25519_address : String
  pub eth_erc20_abi_path : String
  pub eth_erc20_address : String
  pub eth_locker_abi_path : String
  pub eth_locker_address : String
  pub eth_client_abi_path : String
  pub eth_client_address : String
  pub eth_prover_abi_path : String
  pub eth_prover_abi_address : String

pub record EthContracts : Type 0 where
  pub ed25519 : Status
  pub erc20 : Status
  pub locker : Status
  pub client : Status
  pub prover : Status

pub record EthOptions : Type 0 where
  pub eth_node_url : String
  pub eth_master_sk : String

pub record EthStatus : Type 0 where
  pub network_location : Status
  pub network_connection : Status
  pub network_last_block : Status
  pub master_account : Status
  pub master_key : Status
  pub contracts : Option EthContracts

pub record ServicesStatus : Type 0 where
  pub eth2near_relay : Status
  pub near2eth_relay : Status
  pub watchdog : Status

-- accounts.includes(address)
unfoldable pub lists : String → List String → Bool
lists a [] = false
lists a (x ∷ xs) = if x === a then true else lists a xs

abbrev pub joined : List String → String
joined [] = ""
joined (s ∷ []) = s
joined (s ∷ r ∷ rest) = s <> (", " <> joined (r ∷ rest))

-- The loop of processArgs: each argument that begins with two dashes, with the one after it.
unfoldable pub flags : List String → List String
flags [] = []
flags (a ∷ []) = []
flags (a ∷ b ∷ args) =
    let rest = flags (b ∷ args) in
    if starts_with a "--" then (slice a 2 (len a) <> ("=" <> b)) ∷ rest else rest

-- processArgs
unfoldable pub process_args : List String → String
process_args args = joined (flags args)

module _ (w : World) where
  abbrev pub matched : String → String → Status
  matched address found =
      if found === address
      then explained found fine "deployed"
      else explained address failure "invalid"

  -- checkContract
  unfoldable pub check_contract : String → String → Io StatusEvent Status
  check_contract abi_path address =
      if given abi_path
      then if given address
        then try (lift (w.contract abi_path address)) (λ found. pure (matched address found))
            (λ e. pure (explained "unknown" failure "internal error"))
        else pure (explained "unknown" failure "contract not found")
      else pure (explained "unknown" failure "abi not found")

  -- EthContracts.init, with the second parameter, or `none` if it is left out.
  unfoldable pub eth_contracts_init : Option ContractOptions → Io StatusEvent EthContracts
  eth_contracts_init none = throw no_options
  eth_contracts_init (some o) =
      check_contract o.eth_ed25519_abi_path o.eth_ed25519_address >>= λ ed25519.
      check_contract o.eth_erc20_abi_path o.eth_erc20_address >>= λ erc20.
      check_contract o.eth_locker_abi_path o.eth_locker_address >>= λ locker.
      check_contract o.eth_client_abi_path o.eth_client_address >>= λ client.
      check_contract o.eth_prover_abi_path o.eth_prover_abi_address >>= λ prover. pure (record {
        ed25519 = ed25519;
        erc20 = erc20;
        locker = locker;
        client = client;
        prover = prover;
      })

  -- What is known before the node is asked, and without a node.
  abbrev pub basic : EthOptions → EthStatus
  basic o = record {
    network_location = unknown;
    network_connection = unknown;
    network_last_block = unknown;
    master_account = explained "unknown" info "not verified";
    master_key =
        if given o.eth_master_sk then judged (w.normalize o.eth_master_sk) info else unknown;
    contracts = none;
  }

  abbrev pub unreachable : EthOptions → EthStatus → EthStatus
  unreachable o s = record s {
    network_connection = explained o.eth_node_url failure "unreachable";
    network_last_block = unknown;
  }

  abbrev pub located : EthStatus → String → EthStatus
  located s chain = record s {
    network_location = judged (if given chain then chain else "local") info;
  }

  abbrev pub answered : EthOptions → EthStatus → String × String → EthStatus
  answered o s (version, last_block) = record s {
    network_connection = explained o.eth_node_url fine ("version " <> version);
    network_last_block = judged last_block fine;
  }

  abbrev pub ask_node : Io StatusEvent (String × String)
  ask_node = call get_protocol_version w.protocol_version >>= λ version.
      call get_block_number w.block_number >>= λ last_block. pure (version, last_block)

  abbrev pub check_node : EthOptions → EthStatus → Io StatusEvent EthStatus
  check_node o s = try ask_node (λ a. pure (answered o s a)) (λ e. pure (unreachable o s))

  abbrev pub master_checked : EthStatus → String → Bool → EthStatus
  master_checked s address true = record s {
    master_account = explained address fine "valid";
    master_key = record s.master_key { verdict = fine };
  }
  master_checked s address false = record s {
    master_account = explained address failure "invalid";
    master_key = record s.master_key { verdict = failure };
  }

  abbrev pub ask_accounts : EthOptions → Io StatusEvent (String × List String)
  ask_accounts o = lift (w.address (w.normalize o.eth_master_sk)) >>= λ address.
      call get_accounts w.get_accounts >>= λ accounts. pure (address, accounts)

  abbrev pub check_master : EthOptions → EthStatus → Io StatusEvent EthStatus
  check_master o s =
      try (ask_accounts o)
        (λ (address, accounts). pure (master_checked s address (lists address accounts)))
        (λ e. pure s)

  -- An exception here is one for the whole node.
  abbrev pub check_contracts : EthOptions → EthStatus → Io StatusEvent EthStatus
  check_contracts o s =
      try (eth_contracts_init none) (λ c. pure (record s { contracts = some c }))
        (λ e. pure (unreachable o (record s { network_location = unknown })))

  abbrev pub check_all : EthOptions → String → Io StatusEvent EthStatus
  check_all o chain =
      (check_node o (located (basic o) chain) >>= check_master o) >>= check_contracts o

  -- EthStatus.init
  unfoldable pub eth_init : EthOptions → Io StatusEvent EthStatus
  eth_init o =
      if given o.eth_node_url
      then try (lift (w.web3 o.eth_node_url)) (check_all o) (λ e. pure (unreachable o (basic o)))
      else pure (basic o)

  abbrev pub process_status : List (List String) → Status
  process_status [] = explained "unknown" failure "unreachable"
  process_status (args ∷ rest) = explained "running" fine (process_args args)

  -- running
  unfoldable pub running : String → Io StatusEvent Status
  running service =
      try (call (describe service) (w.describe service)) (λ ps. pure (process_status ps))
        (λ e. pure (explained "unknown" failure "internal error"))

  -- ServicesStatus.init
  unfoldable pub services_init : Io StatusEvent ServicesStatus
  services_init = running "eth2near-relay" >>= λ eth2near_relay.
      running "near2eth-relay" >>= λ near2eth_relay. running "bridge-watchdog" >>= λ watchdog.
      pure (record {
        eth2near_relay = eth2near_relay;
        near2eth_relay = near2eth_relay;
        watchdog = watchdog;
      })
