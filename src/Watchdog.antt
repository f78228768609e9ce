-- ===== src/Watchdog.antt =====
-- near2eth/watchdog/index.js: it checks the signatures of the light client block that the bridge
-- contract on Ethereum holds, and challenges the first wrong one.
pub mod Challenge
pub mod Pass
use rainbow_bridge_cli.Base.{
  ℕ, zero, suc, ◌+◌, ◌*◌, String, Bool, true, false, List, ◌==◌, ◌===◌, ◌||◌, ltb, if◌then◌else◌,
}
use rainbow_bridge_cli.Base.Doubling.{max_gas_price}
use rainbow_bridge_cli.Base.Io.{
  JsError, Reply, Outcome, Io, starved, pure, throw, call, emit, try, catch, with_timeout, ◌>>=◌,
  ◌>>◌,
}

-- The transaction that calls `challenge`, with the fields that vary.
pub record ChallengeTx : Type 0 where
  pub index : ℕ
  pub gas_price : ℕ
  pub nonce : ℕ

-- The fields of `bridgeState` that are read.
pub record BridgeState : Type 0 where
  pub next_valid_at : ℕ
  pub num_block_producers : ℕ

pub data WatchdogEvent : Type 0 where
  bridge_state : WatchdogEvent
  -- checkBlockProducerSignatureInHead(i)
  check_signature : ℕ → WatchdogEvent
  gas_price : WatchdogEvent
  transaction_count : WatchdogEvent
  -- sendSignedTransaction
  send_challenge : ChallengeTx → WatchdogEvent
  -- sleep, in milliseconds
  slept : ℕ → WatchdogEvent

abbrev pub Trace : Type 0
Trace = List WatchdogEvent

-- The Ethereum node with the bridge contract.
pub record EthNode : Type 0 where
  pub bridge_state : Trace → Reply BridgeState
  pub check_signature : ℕ → Trace → Reply Bool
  pub gas_price : Trace → Reply ℕ
  pub transaction_count : Trace → Reply ℕ
  pub send : ChallengeTx → Trace → Reply (Unit {0})

abbrev pub slow_tx_error_msg : String
slow_tx_error_msg = "transaction not executed within 5 minutes"

-- !e.reason || !e.signature
abbrev pub unexplained : JsError → Bool
unexplained e = (e.reason === "") || (e.signature === "")

-- What follows an exception of the sending: `loop` at the doubled price, or the exception.
abbrev pub resent : Io WatchdogEvent (Unit {0}) → JsError → Io WatchdogEvent (Unit {0})
resent loop e = if e.message === slow_tx_error_msg then loop else throw e

-- What follows the answer on a signature.
abbrev pub after_check :
    Io WatchdogEvent (Unit {0}) → Io WatchdogEvent (Unit {0}) → Bool → Io WatchdogEvent (Unit {0})
after_check next challenged result = if result then next else challenged

-- What follows an exception of the check.
abbrev pub after_revert : Io WatchdogEvent (Unit {0}) → JsError → Io WatchdogEvent (Unit {0})
after_revert next e = if unexplained e then throw e else next

-- Forty-four doublings of a price of at least 1 reach the bound of the price.
abbrev pub enough_rounds : ℕ
enough_rounds = 45

module _ (node : EthNode) where
  abbrev pub send_once : ℕ → ℕ → ℕ → Io WatchdogEvent (Unit {0})
  send_once price nonce i =
      let tx : ChallengeTx = record { index = i; gas_price = price; nonce = nonce } in
      call (send_challenge tx) (λ t. with_timeout slow_tx_error_msg (node.send tx t))

  -- The loop that sends the challenge, with the gas price doubled after each timeout.
  unfoldable pub send_challenges : ℕ → ℕ → ℕ → ℕ → Io WatchdogEvent (Unit {0})
  send_challenges zero price nonce i = starved
  send_challenges (suc n) price nonce i =
      if ltb price max_gas_price
      then try (send_once price nonce i) (λ _. pure tt)
          (resent (send_challenges n (price * 2) nonce i))
      else pure tt

  abbrev pub challenge_at : ℕ → ℕ → Io WatchdogEvent (Unit {0})
  challenge_at i price = do
    nonce ← call transaction_count node.transaction_count
    send_challenges enough_rounds price nonce i

  unfoldable pub challenge : ℕ → Io WatchdogEvent (Unit {0})
  challenge i = catch (call gas_price node.gas_price >>= challenge_at i) (λ err. pure tt)

  -- The loop over the signatures from the `i`-th on, `n` of them.
  unfoldable pub check_signatures : ℕ → ℕ → Io WatchdogEvent (Unit {0})
  check_signatures zero i = pure tt
  check_signatures (suc n) i =
      try (call (check_signature i) (node.check_signature i))
        (after_check (check_signatures n (i + 1)) (challenge i))
        (after_revert (check_signatures n (i + 1)))

  unfoldable pub check_block : BridgeState → Io WatchdogEvent (Unit {0})
  check_block s = if s.next_valid_at == 0 then pure tt else check_signatures s.num_block_producers 0

  abbrev pub check_and_sleep : ℕ → BridgeState → Io WatchdogEvent (Unit {0})
  check_and_sleep delay s = do check_block s; emit (slept (delay * 1000))

  -- One turn of `while (true)`.
  unfoldable pub pass : ℕ → ℕ → Io WatchdogEvent (Unit {0})
  pass delay error_delay =
      catch (call bridge_state node.bridge_state >>= check_and_sleep delay)
        (λ e. emit (slept (error_delay * 1000)))

  -- `run`, up to its `n`-th turn.
  unfoldable pub run : ℕ → ℕ → ℕ → Io WatchdogEvent (Unit {0})
  run zero delay error_delay = pure tt
  run (suc n) delay error_delay = do pass delay error_delay; run n delay error_delay
