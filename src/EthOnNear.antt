-- ===== src/EthOnNear.antt =====
-- The two contracts on NEAR that follow Ethereum: their schemas and methods, and the initialization
-- of eth2near/eth2near-block-relay/eth-on-near-client.js and eth-on-near-prover.js, which
-- cli/init/near-contracts.js runs after it has created the accounts. Nodes, contracts and packages
-- are parameters.
pub mod Schemas
pub mod Headers
pub mod Submitted
pub mod Initialized
pub mod Deployed
use rainbow_bridge_cli.Base.{
  ℕ, String, ◌===◌, Bool, true, false, ◌&&◌, Option, none, some, List, [], ◌∷◌, includes,
  if◌then◌else◌,
}
use rainbow_bridge_cli.Base.Bytes.{Bytes}
use rainbow_bridge_cli.Base.Io.{
  JsError, Outcome, Reply, Io, pure, throw, process_exit, call, catch, lift, ◌>>=◌, ◌>>◌,
}
use rainbow_bridge_cli.Base.Io.Within.{Part, within}
use rainbow_bridge_cli.Accounts.{AccountEvent, NearAccounts, verify_account, maybe_create_account}
use rainbow_bridge_cli.RobustWeb3.{
  Block, Web3Event, EthNode, Delays, robust_block_number, robust_block,
}
use rainbow_bridge_cli.Config.{OptionValue, text}
use rainbow_bridge_cli.Cli.Args.{Args, get, name_of}

-- The input of the client's `init`. Its other fields are constants.
pub record InitInput : Type 0 where
  pub validate_ethash : Bool
  pub first_header : Bytes
  pub trusted_signer : Option String

pub data InitEvent (D : Type 0) : Type 0 where
  account : AccountEvent → InitEvent D
  web3 : Web3Event D → InitEvent D
  -- accessKeyInit of the contract of an account
  access_key_init : String → InitEvent D
  -- the methods of the client
  initialized : InitEvent D
  init_client : InitInput → InitEvent D
  dag_merkle_root : ℕ → InitEvent D
  -- `init` of the prover
  init_prover : String → InitEvent D

abbrev pub Trace : Type 0 → Type 0
Trace D = List (InitEvent D)

pub record World (D : Type 0) : Type 0 where
  -- the accounts, where deployContract takes the contract of the client or of the prover
  pub client_accounts : NearAccounts
  pub prover_accounts : NearAccounts
  pub eth : EthNode D
  -- web3BlockToRlp
  pub block_to_rlp : Block → Outcome Bytes
  -- the public key of KeyPair.fromString
  pub key_pair : String → Outcome String
  -- the balance of a text
  pub balance : String → ℕ
  pub access_key_init : String → Trace D → Reply (Unit {0})
  pub initialized : Trace D → Reply Bool
  pub init_client : InitInput → Trace D → Reply (Unit {0})
  pub dag_merkle_root : ℕ → Trace D → Reply String
  pub init_prover : String → Trace D → Reply (Unit {0})

abbrev account_of : {D : Type 0} → InitEvent D → Option AccountEvent
account_of (account e) = some e
account_of _ = none

abbrev web3_of : {D : Type 0} → InitEvent D → Option (Web3Event D)
web3_of (web3 e) = some e
web3_of _ = none

abbrev pub account_part : {D : Type 0} → Part AccountEvent (InitEvent D)
account_part = record { embed = account; project = account_of }

abbrev pub web3_part : {D : Type 0} → Part (Web3Event D) (InitEvent D)
web3_part = record { embed = web3; project = web3_of }

abbrev pub first_root : String
first_root = "0x55b891e842e58f58956a847cbbf67821"

abbrev pub last_root : String
last_root = "0x4aa6ca6ebef942d8766065b2e590fd32"

-- value || null
abbrev pub or_null : String → Option String
or_null s = if s === "" then none else some s

abbrev pub or_master : String → String → String
or_master sk master = if sk === "" then master else sk

-- An option's text, or "" if it is not there.
abbrev pub option : String → Args → String
option name args = name_of (get name args)

module _ {D : Type 0} (delays : Delays D) (w : World D) where
  abbrev pub key_init : String → Io (InitEvent D) (Unit {0})
  key_init id = call (access_key_init id) (w.access_key_init id)

  abbrev pub ask_initialized : Io (InitEvent D) Bool
  ask_initialized = catch (call initialized w.initialized) (λ e. pure false)

  abbrev pub send_init : Bool → Option String → Bytes → Io (InitEvent D) (Unit {0})
  send_init validate_ethash trusted_signer block_rlp =
      let input : InitInput = record {
        validate_ethash = validate_ethash;
        first_header = block_rlp;
        trusted_signer = trusted_signer;
      } in
      call (init_client input) (w.init_client input)

  abbrev pub read_header : Io (InitEvent D) Bytes
  read_header = within web3_part (robust_block_number delays w.eth) >>= λ last_block_number.
      within web3_part (robust_block delays w.eth (some last_block_number)) >>= λ block.
      lift (w.block_to_rlp block)

  abbrev pub unless_initialized : Bool → Option String → Bool → Io (InitEvent D) (Unit {0})
  unless_initialized validate_ethash trusted_signer is_initialized =
      if is_initialized then pure tt else (read_header >>= send_init validate_ethash trusted_signer)

  abbrev pub check_roots : String → String → Io (InitEvent D) (Unit {0})
  check_roots first last =
      if (first === first_root) && (last === last_root) then pure tt else process_exit 1

  abbrev pub ask_root : ℕ → Io (InitEvent D) String
  ask_root epoch = call (dag_merkle_root epoch) (w.dag_merkle_root epoch)

  abbrev pub read_roots : Io (InitEvent D) (Unit {0})
  read_roots = ask_root 0 >>= λ first. ask_root 511 >>= λ last. check_roots first last

  -- maybeInitialize of the client of an account
  unfoldable pub maybe_initialize_client :
      String → Bool → Option String → Io (InitEvent D) (Unit {0})
  maybe_initialize_client id validate_ethash trusted_signer =
      ((key_init id >> ask_initialized) >>= unless_initialized validate_ethash trusted_signer)
      >> read_roots

  abbrev pub unless_already : JsError → Io (InitEvent D) (Unit {0})
  unless_already e =
      if includes e.message "The contract is already initialized" then pure tt else throw e

  -- maybeInitialize of the prover of an account, with the client's account
  unfoldable pub maybe_initialize_prover : String → String → Io (InitEvent D) (Unit {0})
  maybe_initialize_prover id client =
      key_init id >> catch (call (init_prover client) (w.init_prover client)) unless_already

  abbrev pub create : NearAccounts → String → String → String → Io (InitEvent D) (Unit {0})
  create accounts id pk balance =
      within account_part (maybe_create_account accounts id pk (w.balance balance))

  abbrev pub verify : String → Io (InitEvent D) Bool
  verify id = within account_part (verify_account w.client_accounts id)

  -- The accounts with their contracts.
  abbrev pub create_accounts : Args → String → String → Io (InitEvent D) Bool
  create_accounts args client_pk prover_pk =
      (((verify (option "nearMasterAccount" args)
            >> create w.client_accounts (option "nearClientAccount" args) client_pk
                (option "nearClientInitBalance" args))
          >> verify (option "nearClientAccount" args))
        >> create w.prover_accounts (option "nearProverAccount" args) prover_pk
            (option "nearProverInitBalance" args))
      >> verify (option "nearProverAccount" args)

  abbrev pub client_sk : Args → String
  client_sk args = or_master (option "nearClientSk" args) (option "nearMasterSk" args)

  abbrev pub prover_sk : Args → String
  prover_sk args = or_master (option "nearProverSk" args) (option "nearMasterSk" args)

  abbrev pub prepare_accounts : Args → Io (InitEvent D) Bool
  prepare_accounts args = lift (w.key_pair (client_sk args)) >>= λ client_pk.
      lift (w.key_pair (prover_sk args)) >>= λ prover_pk.
      lift (w.key_pair (option "nearMasterSk" args)) >>= λ master_pk.
      create_accounts args client_pk prover_pk

  -- The call of the client's maybeInitialize, with the options as they are read.
  abbrev pub initialize_client : Args → Io (InitEvent D) (Unit {0})
  initialize_client args =
      maybe_initialize_client (option "nearClientAccount" args)
        (option "nearClientValidateEthhash" args === "true")
        (or_null (option "nearClientTrustedSigner" args))

  abbrev pub kept_keys : Args → Args
  kept_keys args =
      ("nearClientSk", some (text (client_sk args)))
      ∷ ("nearProverSk", some (text (prover_sk args)))
      ∷ []

  -- InitNearContracts.execute
  unfoldable pub init_near_contracts : Args → Io (InitEvent D) Args
  init_near_contracts args =
      ((prepare_accounts args >> initialize_client args)
        >> maybe_initialize_prover (option "nearProverAccount" args)
            (option "nearClientAccount" args))
      >> pure (kept_keys args)
