-- ===== src/RobustWeb3.antt =====
-- The class `RobustWeb3` of utils/robust.js: calls of an Ethereum node that are tried again, and
-- `callContract`, which sends a transaction until it is mined. The node, web3 and the ABI of the
-- contracts are parameters; delays are JavaScript numbers of a type `D`.
pub mod Events
pub mod Sends
pub mod Answers
pub mod Mining
pub mod Survival
pub mod CallContract
use rainbow_bridge_cli.Base.{ℕ, String, Bool, Option, none, some, List, ◌===◌, if◌then◌else◌}
use rainbow_bridge_cli.Base.Io.{
  JsError, to_string, js_error, Reply, Io, pure, throw, call, emit, try, ◌>>=◌, ◌>>◌,
}
use rainbow_bridge_cli.Retry.{backoff}

-- A block of the chain with the fields that the tool reads, and its header.
pub record Block : Type 0 where
  pub number : ℕ
  pub hash : String
  pub timestamp : ℕ
  pub transactions : List String
  pub header : List ℕ

-- A log of a receipt, before it is decoded.
pub record Log : Type 0 where
  pub log_index : ℕ
  pub payload : List ℕ

pub record Receipt : Type 0 where
  pub transaction_hash : String
  pub transaction_index : ℕ
  pub block_number : ℕ
  -- `none` if it is no array
  pub logs : Option (List Log)
  pub payload : List ℕ

-- A transaction as `callContract` builds it.
pub record Tx : Type 0 where
  pub sender : String
  pub to : String
  pub gas : ℕ
  pub gas_price : ℕ
  pub nonce : ℕ
  pub input : List ℕ

pub data Web3Event (D : Type 0) : Type 0 where
  get_block_number get_gas_price set_provider : Web3Event D
  -- getBlock, where `none` is 'latest'
  get_block : Option ℕ → Web3Event D
  get_receipt : String → Web3Event D
  get_transaction_count : String → Web3Event D
  -- web3.eth.call
  view_call : Tx → Web3Event D
  send_transaction : Tx → Web3Event D
  slept : D → Web3Event D

abbrev pub Trace : Type 0 → Type 0
Trace D = List (Web3Event D)

pub record EthNode (D : Type 0) : Type 0 where
  pub block_number : Trace D → Reply ℕ
  -- `none` is null
  pub block : Option ℕ → Trace D → Reply (Option Block)
  pub receipt : String → Trace D → Reply (Option Receipt)
  pub gas_price : Trace D → Reply ℕ
  pub transaction_count : String → Trace D → Reply ℕ
  pub view_call : Tx → Trace D → Reply (Unit {0})
  pub send : Tx → Trace D → Reply Receipt

-- The numbers DELAY and BACKOFF, and their product.
pub record Delays (D : Type 0) : Type 0 where
  pub product : D → D → D
  pub delay : D
  pub wait : D

abbrev pub retries : ℕ
retries = 10

-- e.toString() === 'Error: connection not open'
abbrev pub is_disconnected : JsError → Bool
is_disconnected e = to_string e === "Error: connection not open"

module _ {D : Type 0} (delays : Delays D) (node : EthNode D) where
  abbrev pub backoff_10 : {A : Type 0} → Io (Web3Event D) A → Io (Web3Event D) A
  backoff_10 fn = backoff delays.product delays.wait slept retries fn delays.delay delays.wait

  -- What the methods do with an exception: a new provider if the connection is gone.
  abbrev pub reconnect_and_throw : {A : Type 0} → JsError → Io (Web3Event D) A
  reconnect_and_throw e = if is_disconnected e then (emit set_provider >> throw e) else throw e

  unfoldable pub robust_block_number : Io (Web3Event D) ℕ
  robust_block_number =
      backoff_10 (try (call get_block_number node.block_number) pure reconnect_and_throw)

  -- web3.eth.getBlock, where null is an exception
  abbrev pub block_or_throw : Option Block → Io (Web3Event D) Block
  block_or_throw none = throw (js_error "web3.eth.getBlock returns null")
  block_or_throw (some b) = pure b

  unfoldable pub robust_block : Option ℕ → Io (Web3Event D) Block
  robust_block b =
      backoff_10
        (try (call (get_block b) (node.block b) >>= block_or_throw) pure reconnect_and_throw)

  unfoldable pub robust_receipt : String → Io (Web3Event D) (Option Receipt)
  robust_receipt t =
      backoff_10 (try (call (get_receipt t) (node.receipt t)) pure reconnect_and_throw)
