-- ===== src/TokenFactory.antt =====
-- The token factory on NEAR: testing/transfer-eth-erc20/deploy-token.js deploys a token, and
-- cli/init/near-token-factory.js the factory with its first token. The node, the contract and the
-- keys of near-api-js are parameters.
pub mod Deployed
use rainbow_bridge_cli.Base.{
  ℕ, Bool, String, ◌<>◌, ◌===◌, starts_with, Option, some, [], ◌∷◌, List, if◌then◌else◌,
}
use Prim.Native.String.{slice, len}
use rainbow_bridge_cli.Base.Io.{
  Outcome, Reply, Io, pure, process_exit, call, catch, lift, ◌>>=◌, ◌>>◌,
}
use rainbow_bridge_cli.Base.Io.Within.{Part, within}
use rainbow_bridge_cli.Accounts.{AccountEvent, NearAccounts, verify_account, maybe_create_account}

pub data FactoryEvent : Type 0 where
  account : AccountEvent → FactoryEvent
  -- `new` of the factory: the prover's account and the locker's address
  new_factory : String → String → FactoryEvent
  deploy_bridge_token : String → FactoryEvent

abbrev pub Trace : Type 0
Trace = List FactoryEvent

abbrev account_of : FactoryEvent → Option AccountEvent
account_of (account e) = some e
account_of _ = Option.none

abbrev pub account_part : Part AccountEvent FactoryEvent
account_part = record { embed = account; project = account_of }

pub record World : Type 0 where
  pub accounts : NearAccounts
  -- the public key of KeyPair.fromString
  pub key_pair : String → Outcome String
  pub new_factory : String → String → Trace → Reply (Unit {0})
  pub deploy_bridge_token : String → Trace → Reply (Unit {0})

-- The arguments of DeployToken.execute. A key that is not specified is "".
pub record TokenArgs : Type 0 where
  pub token_name : String
  pub eth_token_address : String
  pub near_master_account : String
  pub near_master_sk : String
  pub near_token_factory_account : String
  pub near_token_factory_sk : String

pub record TokenInfo : Type 0 where
  pub near_token_factory_sk : String
  pub near_token_account : String
  pub eth_token_address : String

-- What InitNearTokenFactory.execute returns.
pub record FactoryInfo : Type 0 where
  pub near_erc20_account : String
  pub eth_erc20_address : String
  pub near_token_factory_sk : String

-- The arguments of InitNearTokenFactory.execute
pub record FactoryArgs : Type 0 where
  pub near_master_account : String
  pub near_master_sk : String
  pub near_token_factory_account : String
  pub near_token_factory_sk : String
  pub near_token_factory_init_balance : ℕ
  pub near_prover_account : String
  pub eth_locker_address : String
  pub eth_erc20_address : String

-- remove0x
unfoldable pub remove_0x : String → String
remove_0x value = if starts_with value "0x" then slice value 2 (len value) else value

-- The key of the factory, or the master's.
abbrev pub or_master : String → String → String
or_master sk master = if sk === "" then master else sk

abbrev pub token_info : TokenArgs → TokenInfo
token_info a = record {
  near_token_factory_sk = or_master a.near_token_factory_sk a.near_master_sk;
  near_token_account = remove_0x a.eth_token_address <> ("." <> a.near_token_factory_account);
  eth_token_address = a.eth_token_address;
}

-- The arguments with which the factory's command deploys its token.
abbrev pub first_token : FactoryArgs → TokenArgs
first_token a = record {
  token_name = "erc20";
  eth_token_address = a.eth_erc20_address;
  near_master_account = a.near_master_account;
  near_master_sk = a.near_master_sk;
  near_token_factory_account = a.near_token_factory_account;
  near_token_factory_sk = or_master a.near_token_factory_sk a.near_master_sk;
}

-- The token's account and address under the names of the bridge's first token.
abbrev pub factory_info : TokenInfo → FactoryInfo
factory_info info = record {
  near_erc20_account = info.near_token_account;
  eth_erc20_address = info.eth_token_address;
  near_token_factory_sk = info.near_token_factory_sk;
}

module _ (w : World) where
  abbrev pub verify : String → Io FactoryEvent Bool
  verify id = within account_part (verify_account w.accounts id)

  -- The call that adds a token.
  abbrev pub add_token : String → Io FactoryEvent (Unit {0})
  add_token address =
      catch (call (deploy_bridge_token address) (w.deploy_bridge_token address))
        (λ e. process_exit 1)

  abbrev pub read_keys : String → String → Io FactoryEvent String
  read_keys master sk = lift (w.key_pair master) >> lift (w.key_pair sk)

  -- DeployToken.execute
  unfoldable pub deploy_token : TokenArgs → Io FactoryEvent TokenInfo
  deploy_token a =
      (((read_keys a.near_master_sk (or_master a.near_token_factory_sk a.near_master_sk)
            >> verify a.near_master_account)
          >> verify a.near_token_factory_account)
        >> add_token (remove_0x a.eth_token_address))
      >> pure (token_info a)

  -- The account of the factory with its contract.
  abbrev pub create_factory : FactoryArgs → String → Io FactoryEvent (Unit {0})
  create_factory a pk =
      verify a.near_master_account
      >> within account_part (
          maybe_create_account w.accounts a.near_token_factory_account pk
            a.near_token_factory_init_balance)

  abbrev pub initialize_factory : FactoryArgs → Io FactoryEvent (Unit {0})
  initialize_factory a =
      catch
        (call (new_factory a.near_prover_account (remove_0x a.eth_locker_address))
          (w.new_factory a.near_prover_account (remove_0x a.eth_locker_address)))
        (λ e. process_exit 1)

  abbrev pub prepare_factory : FactoryArgs → String → Io FactoryEvent (Unit {0})
  prepare_factory a pk = lift (w.key_pair a.near_master_sk) >> create_factory a pk

  -- InitNearTokenFactory.execute
  unfoldable pub init_near_token_factory : FactoryArgs → Io FactoryEvent FactoryInfo
  init_near_token_factory a =
      ((lift (w.key_pair (or_master a.near_token_factory_sk a.near_master_sk))
          >>= prepare_factory a)
        >> initialize_factory a)
      >> deploy_token (first_token a)
      >>= λ info. pure (factory_info info)
