-- ===== src/ToNear/Events.antt =====
-- What a transfer does: the transfer log and the events of testing/transfer-eth-erc20/to-near.js,
-- and what answers them.
use rainbow_bridge_cli.Base.{ℕ, String, Bool, Option, none, some, List}
use rainbow_bridge_cli.Base.Bytes.{Bytes}
use rainbow_bridge_cli.Base.Io.{Reply, Outcome}
use rainbow_bridge_cli.Base.Io.Within.{Part}
use rainbow_bridge_cli.Accounts.{AccountEvent, NearAccounts}
use rainbow_bridge_cli.RobustWeb3.{Block, Web3Event, EthNode, Log, Receipt}
use rainbow_bridge_cli.RobustWeb3.Events.{Event, Entry}
use rainbow_bridge_cli.Extractor.{Packages, Proof, ProofLocker}

-- `transaction.events.Locked`: one event, an array, or `none` for `undefined`.
abbrev pub LockedEntry : Type 0
LockedEntry = Option Entry

-- `finished` with the fields that are recorded beside it. `other` is any other value of `finished`.
pub data TransferLog : Type 0 where
  empty : TransferLog
  approved : TransferLog
  locked : LockedEntry → TransferLog
  -- proof, log, txLogIndex, receipt, lockedEvent, block
  found : Proof → Log → ℕ → Receipt → LockedEntry → Block → TransferLog
  -- proofLocker, newOwnerId
  safe : ProofLocker → String → TransferLog
  other : TransferLog

pub data TransferEvent (D : Type 0) : Type 0 where
  -- recordTransferLog
  recorded : TransferLog → TransferEvent D
  -- verifyAccount, RobustWeb3 and the extractor
  account : AccountEvent → TransferEvent D
  web3 : Web3Event D → TransferEvent D
  -- accessKeyInit, and balanceOf of the token on Ethereum
  access_key_init balance_of : TransferEvent D
  -- last_block_number and block_hash_safe of the client on NEAR
  last_block_number : TransferEvent D
  block_hash_safe : ℕ → TransferEvent D
  -- get_balance of the token on NEAR, and deposit of the factory
  get_balance : String → TransferEvent D
  deposited : ProofLocker → TransferEvent D
  -- sleep in milliseconds
  slept : ℕ → TransferEvent D

abbrev pub Trace : Type 0 → Type 0
Trace D = List (TransferEvent D)

pub record World (D : Type 0) : Type 0 where
  pub accounts : NearAccounts
  pub eth : EthNode D
  -- the decoding of logs by the ABI of the token and of the locker
  pub decode_erc20 : Log → Outcome Event
  pub decode_locker : Log → Outcome Event
  -- lockedEvent.returnValues.accountId
  pub account_id : Event → String
  pub packages : Packages
  pub access_key_init : Trace D → Reply (Unit {0})
  pub balance_of : Trace D → Reply ℕ
  pub last_block_number : Trace D → Reply ℕ
  -- whether the hash is not null
  pub block_hash_safe : ℕ → Trace D → Reply Bool
  pub get_balance : String → Trace D → Reply ℕ
  pub deposit : ProofLocker → Trace D → Reply (Unit {0})

-- The arguments of the command, and the encodings of the calls of `approve` and `lockToken`.
pub record Args : Type 0 where
  pub near_master_account : String
  pub eth_sender_account : String
  pub eth_erc20_address : String
  pub eth_locker_address : String
  pub approve_call : Outcome Bytes
  pub lock_call : Outcome Bytes

abbrev account_of : {D : Type 0} → TransferEvent D → Option AccountEvent
account_of (account e) = some e
account_of _ = none

abbrev web3_of : {D : Type 0} → TransferEvent D → Option (Web3Event D)
web3_of (web3 e) = some e
web3_of _ = none

abbrev pub account_part : {D : Type 0} → Part AccountEvent (TransferEvent D)
account_part = record { embed = account; project = account_of }

abbrev pub web3_part : {D : Type 0} → Part (Web3Event D) (TransferEvent D)
web3_part = record { embed = web3; project = web3_of }
