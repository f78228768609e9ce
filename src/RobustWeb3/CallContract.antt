-- ===== src/RobustWeb3/CallContract.antt =====
-- `callContract` of the class `RobustWeb3` of utils/robust.js. The encoding of the call and the
-- decoding of a log are parameters, which may throw.
pub mod Resending
pub mod Prices
pub mod Rounds
use rainbow_bridge_cli.Base.{
  ℕ, zero, suc, ◌+◌, ◌*◌, String, Bool, true, false, Option, none, some, List, [], ◌∷◌, ltb, ◌===◌,
  includes, if◌then◌else◌,
}
use rainbow_bridge_cli.Base.Doubling.{max_gas_price}
use rainbow_bridge_cli.Base.Io.{
  JsError, js_error, Outcome, Io, starved, pure, throw, call, emit, catch, try, lift, with_timeout,
  ◌>>=◌, ◌>>◌,
}
use rainbow_bridge_cli.RobustWeb3.{
  Log, Receipt, Tx, Web3Event, get_gas_price, set_provider, get_transaction_count, view_call,
  send_transaction, EthNode, is_disconnected,
}
use rainbow_bridge_cli.RobustWeb3.Events.{Event, Mined, mined_case}

-- The arguments: `gas_price` is `none` where `options.gasPrice` is falsy, and `input` is what
-- encodeABI gives.
pub record Request : Type 0 where
  pub sender : String
  pub to : String
  pub gas : ℕ
  pub gas_price : Option ℕ
  pub input : Outcome (List ℕ)

abbrev pub slow_tx_error_msg : String
slow_tx_error_msg = "transaction not executed within 5 minutes"

abbrev pub unfinished : JsError
unfinished = js_error "Cannot finish txn within 1e13 gas"

abbrev pub price_of : Option ℕ → ℕ → ℕ
price_of (some p) gas_price = p
price_of none gas_price = gas_price

abbrev pub tx_of : Request → ℕ → ℕ → List ℕ → Tx
tx_of r gas_price nonce input = record {
  sender = r.sender;
  to = r.to;
  gas = r.gas;
  gas_price = price_of r.gas_price gas_price;
  nonce = nonce;
  input = input;
}

-- How the loop goes on after an exception.
pub data Next : Type 0 where
  double_price : Next
  next_nonce : Next
  reconnect : Next
  give_up : Next

unfoldable pub next_of : JsError → Next
next_of e =
    if e.message === slow_tx_error_msg
    then double_price
    else if includes e.message "the tx doesn't have the correct nonce"
    then next_nonce
    else if is_disconnected e
    then reconnect
    else give_up

-- The view call, whose exceptions are only printed, and the transaction itself.
abbrev pub send_tx : {D : Type 0} → EthNode D → Tx → Io (Web3Event D) Receipt
send_tx node tx = do
  catch (call (view_call tx) (node.view_call tx)) (λ e. pure tt)
  call (send_transaction tx) (λ t. with_timeout slow_tx_error_msg (node.send tx t))

module _ {D : Type 0} (node : EthNode D) (decode : Log → Outcome Event) (r : Request) where
  -- The body of `try`.
  abbrev pub try_once : ℕ → ℕ → Io (Web3Event D) Mined
  try_once gas_price nonce =
      (lift r.input >>= λ input. send_tx node (tx_of r gas_price nonce input)) >>= λ receipt.
      lift (mined_case decode receipt receipt.logs)

  abbrev pub go_on :
      (ℕ → ℕ → Io (Web3Event D) Mined) → ℕ → ℕ → JsError → Next → Io (Web3Event D) Mined
  go_on loop gas_price nonce e double_price = loop (gas_price * 2) nonce
  go_on loop gas_price nonce e next_nonce = loop gas_price (nonce + 1)
  go_on loop gas_price nonce e reconnect = emit set_provider >> loop gas_price nonce
  go_on loop gas_price nonce e give_up = throw e

  -- The loop, up to its `n`-th round.
  unfoldable pub send_loop : ℕ → ℕ → ℕ → Io (Web3Event D) Mined
  send_loop zero gas_price nonce = starved
  send_loop (suc n) gas_price nonce =
      if ltb gas_price max_gas_price
      then try (try_once gas_price nonce) pure
          (λ e. go_on (send_loop n) gas_price nonce e (next_of e))
      else throw unfinished

  unfoldable pub call_contract : ℕ → Io (Web3Event D) Mined
  call_contract n = do
    gas_price ← call get_gas_price node.gas_price
    nonce ← call (get_transaction_count r.sender) (node.transaction_count r.sender)
    send_loop n gas_price nonce
