-- ===== src/Near2Eth.antt =====
-- The loop of near2eth/near2eth-block-relay/index.js: it hands NEAR's light client blocks to the
-- bridge contract on Ethereum. The two nodes and the contract are parameters.
pub mod Delay
pub mod Initialize
pub mod Relays
pub mod Turn
use rainbow_bridge_cli.Base.{
  ℕ, zero, suc, ◌+◌, ◌*◌, ◌%◌, String, Bool, true, false, Option, none, some, List, [], ◌∷◌, ◌==◌,
  ◌||◌, ◌&&◌, ltb, length, if◌then◌else◌,
}
use rainbow_bridge_cli.Base.Bytes.{Bytes}
use rainbow_bridge_cli.Base.Int.{ℤ, pos, sub_ℕ, leb_ℤ, min_ℤ, max_ℤ, div_ℤ}
use rainbow_bridge_cli.Base.Io.Within.{Part, within}
use rainbow_bridge_cli.RobustWeb3.{Web3Event, EthNode, Delays, Block, robust_block}
use rainbow_bridge_cli.Borshify.{Codec, InnerLite, LightClientBlock, borshify}
use rainbow_bridge_cli.Base.Io.{
  JsError, js_error, Reply, ok, Io, pure, throw, process_exit, call, emit, catch, lift, ◌>>=◌, ◌>>◌,
}

-- The fields of `bridgeState` that are read.
pub record BridgeState : Type 0 where
  pub current_height : ℕ
  pub next_timestamp : ℕ
  pub next_valid_at : ℕ

pub data RelayEvent (D : Type 0) : Type 0 where
  bridge_state replace_duration lock_eth_amount balance_of gas_price : RelayEvent D
  -- RobustWeb3
  web3 : Web3Event D → RelayEvent D
  -- blockHashes(height)
  block_hash : ℕ → RelayEvent D
  -- next_light_client_block, for a hash
  next_block : String → RelayEvent D
  -- deposit, with its value and gas price
  deposit : ℕ → ℕ → RelayEvent D
  -- addLightClientBlock, with its gas price
  add_block : Bytes → ℕ → RelayEvent D
  -- sleep, in seconds
  slept : ℤ → RelayEvent D

abbrev pub Trace : Type 0 → Type 0
Trace D = List (RelayEvent D)

abbrev web3_of : {D : Type 0} → RelayEvent D → Option (Web3Event D)
web3_of (web3 e) = some e
web3_of _ = none

abbrev pub web3_part : {D : Type 0} → Part (Web3Event D) (RelayEvent D)
web3_part = record { embed = web3; project = web3_of }

pub record Chains (D : Type 0) : Type 0 where
  pub bridge_state : Trace D → Reply BridgeState
  -- the hash in base 58
  pub block_hash : ℕ → Trace D → Reply String
  -- `none` is null
  pub next_block : String → Trace D → Reply (Option LightClientBlock)
  pub replace_duration : Trace D → Reply ℕ
  pub lock_eth_amount : Trace D → Reply ℕ
  pub balance_of : Trace D → Reply ℕ
  pub gas_price : Trace D → Reply ℕ
  pub deposit : ℕ → ℕ → Trace D → Reply (Unit {0})
  pub add_block : Bytes → ℕ → Trace D → Reply (Unit {0})
  pub eth : EthNode D
  -- Math.floor(length * Math.random()), for the buffer's length
  pub random_index : ℕ → Trace D → ℕ

pub record Options : Type 0 where
  pub submit_invalid_block : Bool
  pub min_delay : ℕ
  pub max_delay : ℕ
  pub error_delay : ℕ
  pub eth_gas_multiplier : ℕ

abbrev pub replace_delay : BridgeState → ℕ → LightClientBlock → ℤ
replace_delay s duration b = sub_ℕ (s.next_timestamp + duration) b.inner_lite.timestamp

-- The two tests before a block is submitted.
unfoldable pub should_submit : BridgeState → ℕ → LightClientBlock → Bool
should_submit s duration b =
    ltb s.current_height b.inner_lite.height
    && (s.next_valid_at == 0 || leb_ℤ (replace_delay s duration b) (pos 0))

-- The delay in seconds while a block waits to become valid, where `now` is the time of the latest
-- block on Ethereum.
unfoldable pub candidate_delay : Options → BridgeState → ℕ → LightClientBlock → ℕ → ℤ
candidate_delay o s duration b now =
    max_ℤ
      (min_ℤ (min_ℤ (pos o.max_delay) (sub_ℕ s.next_valid_at now))
        (div_ℤ (replace_delay s duration b) 1000000000))
      (pos o.min_delay)

unfoldable pub idle_delay : Options → ℤ
idle_delay o = max_ℤ (pos o.max_delay) (pos o.min_delay)

-- borshBlock[index] += 1
abbrev pub bump : ℕ → Bytes → Bytes
bump i [] = []
bump zero (b ∷ bs) = ((b + 1) % 256) ∷ bs
bump (suc i) (b ∷ bs) = b ∷ bump i bs

module _ {D : Type 0} (delays : Delays D) (chains : Chains D) (codec : Codec) (o : Options) where
  abbrev pub deposit_at : ℕ → ℕ → Io (RelayEvent D) (Unit {0})
  deposit_at amount gas =
      call (deposit amount (gas * o.eth_gas_multiplier))
        (chains.deposit amount (gas * o.eth_gas_multiplier))

  -- The deposit of a stake, if the sender has none.
  abbrev pub deposit_stake : ℕ → ℕ → Io (RelayEvent D) (Unit {0})
  deposit_stake amount balance =
      if balance == 0 then (call gas_price chains.gas_price >>= deposit_at amount) else pure tt

  -- The bytes that are sent: with `submitInvalidBlock`, one of them is changed.
  abbrev pub payload : Bytes → Io (RelayEvent D) Bytes
  payload b =
      if o.submit_invalid_block
      then (λ t. lift (ok (bump (chains.random_index (length b) t) b)) t)
      else pure b

  abbrev pub add_at : Bytes → ℕ → Io (RelayEvent D) (Unit {0})
  add_at b gas =
      call (add_block b (gas * o.eth_gas_multiplier))
        (chains.add_block b (gas * o.eth_gas_multiplier))

  abbrev pub send_bytes : Bytes → Io (RelayEvent D) (Unit {0})
  send_bytes b = call gas_price chains.gas_price >>= add_at b

  abbrev pub send_payload : Bytes → Io (RelayEvent D) (Unit {0})
  send_payload b = payload b >>= send_bytes

  -- After the block has been sent.
  abbrev pub finish : Unit {0} → Io (RelayEvent D) (Unit {0})
  finish u = if o.submit_invalid_block then process_exit 0 else pure tt

  abbrev pub send_block : LightClientBlock → Unit {0} → Io (RelayEvent D) (Unit {0})
  send_block b u = (lift (borshify codec b) >>= send_payload) >>= finish

  abbrev pub with_balance : LightClientBlock → ℕ → ℕ → Io (RelayEvent D) (Unit {0})
  with_balance b amount balance = deposit_stake amount balance >>= send_block b

  abbrev pub with_stake : LightClientBlock → ℕ → Io (RelayEvent D) (Unit {0})
  with_stake b amount = call balance_of chains.balance_of >>= with_balance b amount

  unfoldable pub submit : LightClientBlock → Io (RelayEvent D) (Unit {0})
  submit b = call lock_eth_amount chains.lock_eth_amount >>= with_stake b

  abbrev pub read_latest : Io (RelayEvent D) Block
  read_latest = within web3_part (robust_block delays chains.eth none)

  abbrev pub sleep_until : BridgeState → ℕ → LightClientBlock → Block → Io (RelayEvent D) (Unit {0})
  sleep_until s duration b latest = emit (slept (candidate_delay o s duration b latest.timestamp))

  unfoldable pub wait : BridgeState → ℕ → LightClientBlock → Io (RelayEvent D) (Unit {0})
  wait s duration b =
      if s.next_valid_at == 0
      then emit (slept (idle_delay o))
      else (read_latest >>= sleep_until s duration b)

  -- Reading a field of null throws.
  unfoldable pub act : BridgeState → Option LightClientBlock → ℕ → Io (RelayEvent D) (Unit {0})
  act s none duration = throw (js_error "Cannot read property 'inner_lite' of null")
  act s (some b) duration = if should_submit s duration b then submit b else wait s duration b

  abbrev pub with_block : BridgeState → Option LightClientBlock → Io (RelayEvent D) (Unit {0})
  with_block s b = call replace_duration chains.replace_duration >>= act s b

  abbrev pub with_hash : BridgeState → String → Io (RelayEvent D) (Unit {0})
  with_hash s hash = call (next_block hash) (chains.next_block hash) >>= with_block s

  abbrev pub with_state : BridgeState → Io (RelayEvent D) (Unit {0})
  with_state s =
      call (block_hash s.current_height) (chains.block_hash s.current_height) >>= with_hash s

  abbrev pub rest_after_error : JsError → Io (RelayEvent D) (Unit {0})
  rest_after_error e = emit (slept (pos o.error_delay))

  -- One turn of the loop.
  unfoldable pub turn : Io (RelayEvent D) (Unit {0})
  turn = catch (call bridge_state chains.bridge_state >>= with_state) rest_after_error

  -- `runInternal`, up to its `n`-th turn
  unfoldable pub run_internal : ℕ → Io (RelayEvent D) (Unit {0})
  run_internal zero = pure tt
  run_internal (suc n) = turn >> run_internal n
