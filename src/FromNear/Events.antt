-- ===== src/FromNear/Events.antt =====
-- What a transfer does: the events of testing/transfer-eth-erc20/from-near.js, and what answers them.
use rainbow_bridge_cli.Base.{ℕ, String, Option, none, some, List}
use rainbow_bridge_cli.Base.Bytes.{Bytes}
use rainbow_bridge_cli.Base.Io.{Reply, Outcome}
use rainbow_bridge_cli.Base.Io.Within.{Part}
use rainbow_bridge_cli.Near.Node.{NearEvent, NearNode}
use rainbow_bridge_cli.Accounts.{AccountEvent, NearAccounts}
use rainbow_bridge_cli.RobustWeb3.{Web3Event, EthNode, Log}
use rainbow_bridge_cli.RobustWeb3.Events.{Event}
use rainbow_bridge_cli.Borshify.OutcomeProof.{OutcomeProof}
use rainbow_bridge_cli.FromNear.Log.{TransferLog, NearBlock}

-- The bridge contract's state and the hash, in base 58, of the block at its height.
pub record ClientState : Type 0 where
  pub current_height : ℕ
  pub next_valid_at : ℕ

pub data TransferEvent (D : Type 0) : Type 0 where
  -- recordTransferLog
  recorded : TransferLog → TransferEvent D
  -- signAndSendTransaction, verifyAccount and RobustWeb3
  near : NearEvent → TransferEvent D
  account : AccountEvent → TransferEvent D
  web3 : Web3Event D → TransferEvent D
  -- findAccessKey, and get_balance on NEAR
  find_access_key get_balance : TransferEvent D
  -- the block with a hash, or the last final one
  near_block : Option String → TransferEvent D
  -- bridgeState, blockHashes and lockDuration of the bridge contract
  bridge_state lock_duration : TransferEvent D
  block_hash : ℕ → TransferEvent D
  -- light_client_proof, of a transaction or of a receipt, against a block of the client
  transaction_proof receipt_proof : String → String → TransferEvent D
  -- proveOutcome of the prover, and balanceOf
  prove_outcome : Bytes → ℕ → TransferEvent D
  balance_of gas_price : TransferEvent D
  -- sleep in milliseconds, and the pauses of `backoff`
  slept : ℕ → TransferEvent D
  paused : D → TransferEvent D

abbrev pub Trace : Type 0 → Type 0
Trace D = List (TransferEvent D)

pub record World (D : Type 0) : Type 0 where
  pub near : NearNode
  pub accounts : NearAccounts
  pub eth : EthNode D
  -- the nonce of the access key; an account without a key is a rejection
  pub access_key : Trace D → Reply ℕ
  pub balance : Trace D → Reply ℕ
  pub near_block : Option String → Trace D → Reply NearBlock
  pub bridge_state : Trace D → Reply ClientState
  pub block_hash : ℕ → Trace D → Reply String
  pub lock_duration : Trace D → Reply ℕ
  pub transaction_proof : String → String → Trace D → Reply OutcomeProof
  pub receipt_proof : String → String → Trace D → Reply OutcomeProof
  pub prove_outcome : Bytes → ℕ → Trace D → Reply (Unit {0})
  pub balance_of : Trace D → Reply ℕ
  pub gas_price : Trace D → Reply ℕ
  pub decode : Log → Outcome Event

-- The arguments of the command, and the encoding of a call of `unlockToken`.
pub record Args : Type 0 where
  pub sender : String
  pub eth_account : String
  pub locker : String
  pub gas_multiplier : ℕ
  pub unlock_call : Bytes → ℕ → Outcome Bytes

abbrev near_of : {D : Type 0} → TransferEvent D → Option NearEvent
near_of (near e) = some e
near_of _ = none

abbrev account_of : {D : Type 0} → TransferEvent D → Option AccountEvent
account_of (account e) = some e
account_of _ = none

abbrev web3_of : {D : Type 0} → TransferEvent D → Option (Web3Event D)
web3_of (web3 e) = some e
web3_of _ = none

abbrev pub near_part : {D : Type 0} → Part NearEvent (TransferEvent D)
near_part = record { embed = near; project = near_of }

abbrev pub account_part : {D : Type 0} → Part AccountEvent (TransferEvent D)
account_part = record { embed = account; project = account_of }

abbrev pub web3_part : {D : Type 0} → Part (Web3Event D) (TransferEvent D)
web3_part = record { embed = web3; project = web3_of }
