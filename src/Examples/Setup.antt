-- ===== src/Examples/Setup.antt =====
-- The commands of cli/init and cli/commands/status.js, against fixed nodes.
use rainbow_bridge_cli.Base.{
  ℕ, List, String, ◌≡◌, refl, true, false, some, none, [], ◌∷◌, zero, suc, arith, length, ◌==◌,
  ◌===◌, if◌then◌else◌,
}
use rainbow_bridge_cli.Base.Io.{ok, resolve}
use rainbow_bridge_cli.Base.Io.Rules.{Returns}
use rainbow_bridge_cli.RobustWeb3.{Block}
use rainbow_bridge_cli.Config.{text}
use rainbow_bridge_cli.Cli.Args.{Args}
use rainbow_bridge_cli.Deployment
use rainbow_bridge_cli.Deployment.{address, ContractArgs, request, init_client, init_prover}
use rainbow_bridge_cli.EthOnNear
use rainbow_bridge_cli.EthOnNear.Schemas.{Hex, client_schema}
use rainbow_bridge_cli.EthOnNear.Headers.{IsCode, every_none, every_more, input_value}
use rainbow_bridge_cli.EthOnNear.Submitted.{IsDag, input_of-Typed}
use rainbow_bridge_cli.Eth2Near.Blocks
use rainbow_bridge_cli.Eth2Near.Blocks.{DagBlock, BlockInput, input_of}
use rainbow_bridge_cli.Borsh.Types.{name}
use rainbow_bridge_cli.Borsh.Typed.{Typed}
use rainbow_bridge_cli.Base.Bytes.{Bytes}
use rainbow_bridge_cli.EthOnNear.{first_root, last_root, init_near_contracts}
use rainbow_bridge_cli.EthOnNear.Initialized.{Inits, Checked}
use rainbow_bridge_cli.EthOnNear.Deployed.{init_near_contracts-Unvalidated}
use rainbow_bridge_cli.Status
use rainbow_bridge_cli.Status.Near.{NearOptions, near_init}
use rainbow_bridge_cli.Status.Eth.{EthOptions, eth_init}
use rainbow_bridge_cli.Status.Reports.{NearUnreachable, EthUnreachable, status-Unreachable}
use rainbow_bridge_cli.Examples.Accounts.{accounts}
use rainbow_bridge_cli.Examples.Web3.{delays, slow_node}

abbrev eth_world : Deployment.World
eth_world = record {
  lower = λ s. s;
  account = λ sk. ok "0xa";
  abi = λ path. ok tt;
  bin = λ path. ok "6001";
  bn = λ s. ok 3;
  utf8 = λ s. 8 ∷ [];
  gas_price = λ _. resolve 40;
  deploy = λ d _. resolve "0xc";
}

abbrev contract_args : ContractArgs
contract_args = record {
  eth_master_sk = "0x5";
  abi_path = "c.abi";
  bin_path = "c.bin";
  eth_gas_multiplier = "1";
}

root : ℕ → String
root zero = first_root
root (suc epoch) = last_root

abbrev eth_block : Block
eth_block = record { number = 7; hash = "0x7"; timestamp = 1; transactions = []; header = [] }

abbrev near_world : EthOnNear.World ℕ
near_world = record {
  client_accounts = accounts;
  prover_accounts = accounts;
  eth = record slow_node { block = λ _ _. resolve (some eth_block) };
  block_to_rlp = λ b. ok [];
  key_pair = λ sk. ok "ed25519:k";
  balance = λ s. 5;
  access_key_init = λ _ _. resolve tt;
  initialized = λ _. resolve false;
  init_client = λ _ _. resolve tt;
  dag_merkle_root = λ epoch _. resolve (root epoch);
  init_prover = λ _ _. resolve tt;
}

abbrev near_args : Args
near_args = ("nearClientAccount", some (text "client")) ∷ []

init_near_contracts-Unvalidated_example :
    Inits
      (λ input. input.validate_ethash ≡ false)
      (init_near_contracts delays near_world near_args []).1
    × Returns (λ _ u. Checked near_world u) (init_near_contracts delays near_world near_args [])
unfolding rainbow_bridge_cli.Base.Dict.lookup
init_near_contracts-Unvalidated_example =
    init_near_contracts-Unvalidated delays near_world near_args refl

abbrev status_world : Status.World
status_world = record {
  accounts = accounts;
  request = λ _ _. resolve ("1.0", "12");
  key_pair = λ sk. ok tt;
  boo = λ _ _. resolve tt;
  web3 = λ url. ok "";
  protocol_version = λ _. resolve "0x40";
  block_number = λ _. resolve "7";
  address = λ sk. ok "0xa";
  normalize = λ s. s;
  get_accounts = λ _. resolve ("0xa" ∷ []);
  contract = λ abi a. ok a;
  describe = λ _ _. resolve [];
}

abbrev near_options : NearOptions
near_options = record {
  near_network_id = "local";
  near_node_url = "http://localhost:3030";
  near_master_account = "a";
  near_master_sk = "ed25519:s";
  near_client_account = "";
  near_client_sk = "";
  near_prover_account = "";
  near_prover_sk = "";
}

abbrev eth_options : EthOptions
eth_options = record { eth_node_url = "ws://localhost:9545"; eth_master_sk = "0x5" }

status-Unreachable_example :
    Returns
      (λ s u. NearUnreachable status_world near_options s)
      (near_init status_world near_options [])
    × Returns
        (λ s u. EthUnreachable status_world eth_options s)
        (eth_init status_world eth_options [])
status-Unreachable_example =
    status-Unreachable status_world near_options eth_options [] refl refl refl

abbrev zeros : ℕ → Bytes
zeros zero = []
zeros (suc n) = 0 ∷ zeros n

-- Only the texts of 64 and of 16 zeros matter here.
abbrev hex : Hex
hex = record {
  to_bytes = λ s. ok (if s === "node" then zeros 64 else zeros 16);
  to_hex = λ b. if length b == 64 then "node" else "leaf";
}

node_IsCode : IsCode hex 64 "node"
node_IsCode = record { code = zeros 64; size = refl; read = refl; spelled = refl }

leaf_IsCode : IsCode hex 16 "leaf"
leaf_IsCode = record { code = zeros 16; size = refl; read = refl; spelled = refl }

abbrev web3_hex : Blocks.Hex
web3_hex = record {
  pad_left = λ s n. if n == 64 then "no" else "leaf";
  substr_2 = λ s. "de";
  hex_to_bytes = λ s. ok (249 ∷ 2 ∷ []);
}

abbrev dag : DagBlock
dag = record {
  header_rlp = "0xf902";
  elements = "a" ∷ "b" ∷ "c" ∷ "d" ∷ [];
  merkle_proofs = "p" ∷ "q" ∷ [];
  proof_length = 2;
}

abbrev quads : List ((String × String) × (String × String))
quads = (("a", "b"), ("c", "d")) ∷ []

dag-IsDag : IsDag web3_hex hex dag (249 ∷ 2 ∷ []) quads
dag-IsDag = record {
  header_read = refl;
  header_short = omega arith;
  header_bytes = every_more (omega arith) (every_more (omega arith) every_none);
  grouped = refl;
  quads_short = omega arith;
  joined_codes = every_more node_IsCode (every_more node_IsCode every_none);
  leaves_short = omega arith;
  leaf_codes = every_more leaf_IsCode (every_more leaf_IsCode every_none);
}

input_of-Typed_example :
    (i : BlockInput) × (input_of web3_hex dag ≡ ok i)
    × Typed (client_schema hex) 5 (name "addBlockHeaderInput") (input_value i)
input_of-Typed_example = input_of-Typed web3_hex hex dag (249 ∷ 2 ∷ []) quads dag-IsDag
