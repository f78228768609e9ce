-- ===== src/RobustWeb3/Sends.antt =====
-- Which transactions the methods of `RobustWeb3` of utils/robust.js send.
use rainbow_bridge_cli.Base.{
  String, ℕ, zero, suc, ◌+◌, ◌*◌, ◌≡◌, refl, Option, none, some, List, ◌∷◌, ltb,
}
use rainbow_bridge_cli.Base.Doubling.{max_gas_price}
use rainbow_bridge_cli.Base.Io.{
  JsError, Outcome, ok, Io, pure, throw, call, emit, catch, try, lift, ◌>>=◌, ◌>>◌,
}
use rainbow_bridge_cli.Base.Io.Rules.{bind_trace, try_trace, catch_trace, if_trace}
use rainbow_bridge_cli.Base.Io.Within.{Extends, same, more}
use rainbow_bridge_cli.Retry.Traces.{backoff_trace}
use rainbow_bridge_cli.RobustWeb3.{
  Block, Log, Tx, Web3Event, get_gas_price, get_block, get_transaction_count, set_provider,
  view_call, send_transaction, slept, Trace, EthNode, Delays, is_disconnected, block_or_throw,
  reconnect_and_throw, robust_block, robust_receipt, get_receipt, backoff_10,
}
use rainbow_bridge_cli.RobustWeb3.Events.{Event}
use rainbow_bridge_cli.RobustWeb3.CallContract.{
  Request, tx_of, unfinished, Next, double_price, next_nonce, reconnect, give_up, next_of, send_tx,
  try_once, go_on, send_loop, call_contract,
}

-- It is no transaction.
abbrev pub Sendless : {D : Type 0} → Web3Event D → Type 0
Sendless (send_transaction tx) = ⊥
Sendless _ = Unit

-- If it is a transaction, then it is the one that the request asks for, at any price and nonce.
pub record Asked (r : Request) (tx : Tx) : Type 0 where
  pub sender : tx.sender ≡ r.sender
  pub to : tx.to ≡ r.to
  pub input : r.input ≡ ok tx.input

abbrev pub Asks : {D : Type 0} → Request → Web3Event D → Type 0
Asks r (send_transaction tx) = Asked r tx
Asks r _ = Unit

module _ {D : Type 0} (delays : Delays D) (node : EthNode D) (t : Trace D) where
  abbrev R : Trace D → Type 0
  R = Extends Sendless t

  -- A reading that sends nothing sends nothing when it is tried again, with new providers.
  retried-R :
      {A : Type 0} (m : Io (Web3Event D) A) (u : Trace D)
      → ((v : Trace D) → R v → R (m v).1)
      → R u
      → R (backoff_10 delays node (try m pure (reconnect_and_throw delays node)) u).1
  retried-R m u k h =
      backoff_trace delays.product delays.wait slept R
        (try m pure (reconnect_and_throw delays node)) 10 delays.delay delays.wait u
        (λ v g.
          try_trace R m pure (reconnect_and_throw delays node) v (k v g) (λ _ _. k v g)
            (λ e _.
              if_trace R (is_disconnected e) (emit set_provider >> throw e) (throw e) _
                (more tt (k v g)) (k v g)))
        (λ d v g. more tt g) h

  pub robust_receipt-keeps :
      (hash : String) (u : Trace D) → R u → R (robust_receipt delays node hash u).1
  unfolding robust_receipt
  robust_receipt-keeps hash u h =
      retried-R (call (get_receipt hash) (node.receipt hash)) u (λ v g. more tt g) h

  pub robust_block-keeps : (b : Option ℕ) (u : Trace D) → R u → R (robust_block delays node b u).1
  unfolding robust_block
  robust_block-keeps b u h =
      retried-R (call (get_block b) (node.block b) >>= block_or_throw delays node) u
        (λ v g.
          bind_trace R (call (get_block b) (node.block b)) (block_or_throw delays node) v
            (more tt g) (λ o _. checked o v g))
        h
    where
      checked :
          (o : Option Block) (v : Trace D)
          → R v
          → R (block_or_throw delays node o (get_block b ∷ v)).1
      checked none v g = more tt g
      checked (some x) v g = more tt g

module _ {D : Type 0} (delays : Delays D) (node : EthNode D) where
  pub robust_block-Sendless :
      (b : Option ℕ) (t : Trace D) → Extends Sendless t (robust_block delays node b t).1
  robust_block-Sendless b t = robust_block-keeps delays node t b t same

module _ {D : Type 0} (node : EthNode D) (decode : Log → Outcome Event) (r : Request) where
  module _ (t : Trace D) where
    abbrev P : Trace D → Type 0
    P = Extends (Asks r) t

    send_tx-Asks :
        (gas_price nonce : ℕ) (input : List ℕ) (u : Trace D)
        → r.input ≡ ok input
        → P u
        → P (send_tx node (tx_of r gas_price nonce input) u).1
    send_tx-Asks gas_price nonce input u e h =
        bind_trace P (catch (call (view_call tx) (node.view_call tx)) (λ x. pure tt)) _ u viewed
          (λ _ _. more (record { sender = refl; to = refl; input = e }) viewed)
      where
        tx : Tx
        tx = tx_of r gas_price nonce input

        viewed : P (catch (call (view_call tx) (node.view_call tx)) (λ x. pure tt) u).1
        viewed =
            catch_trace P (call (view_call tx) (node.view_call tx)) (λ x. pure tt) u (more tt h)
              (λ _ _. more tt h)

    try_once-Asks :
        (gas_price nonce : ℕ) (u : Trace D) → P u → P (try_once node decode r gas_price nonce u).1
    try_once-Asks gas_price nonce u h =
        bind_trace P (lift r.input >>= λ input. send_tx node (tx_of r gas_price nonce input)) _ u
          sent (λ _ _. sent)
      where
        sent : P ((lift r.input >>= λ input. send_tx node (tx_of r gas_price nonce input)) u).1
        sent =
            bind_trace P (lift r.input) _ u h (λ input e. send_tx-Asks gas_price nonce input u e h)

    send_loop-Asks :
        (n gas_price nonce : ℕ) (u : Trace D)
        → P u
        → P (send_loop node decode r n gas_price nonce u).1
    unfolding send_loop
    send_loop-Asks zero gas_price nonce u h = h
    send_loop-Asks (suc n) gas_price nonce u h =
        if_trace P (ltb gas_price max_gas_price)
          (try (try_once node decode r gas_price nonce) pure
            (λ e. go_on node decode r (send_loop node decode r n) gas_price nonce e (next_of e)))
          (throw unfinished) u
          (try_trace P (try_once node decode r gas_price nonce) pure _ u tried (λ _ _. tried)
            (λ e _. resumed (λ g k v. send_loop-Asks n g k v) e (next_of e) _ tried))
          h
      where
        tried : P (try_once node decode r gas_price nonce u).1
        tried = try_once-Asks gas_price nonce u h

        resumed :
            ((g k : ℕ) (v : Trace D) → P v → P (send_loop node decode r n g k v).1)
            → (e : JsError) (next : Next) (v : Trace D) → P v
            → P (go_on node decode r (send_loop node decode r n) gas_price nonce e next v).1
        resumed k e double_price v q = k (gas_price * 2) nonce v q
        resumed k e next_nonce v q = k gas_price (nonce + 1) v q
        resumed k e reconnect v q = k gas_price nonce (set_provider ∷ v) (more tt q)
        resumed k e give_up v q = q

  pub call_contract-Asks :
      (n : ℕ) (t : Trace D) → Extends (Asks r) t (call_contract node decode r n t).1
  unfolding call_contract
  call_contract-Asks n t =
      bind_trace (Extends (Asks r) t) (call get_gas_price node.gas_price) _ t (more tt same) λ g _.
        bind_trace (Extends (Asks r) t)
          (call (get_transaction_count r.sender) (node.transaction_count r.sender)) _ _
          (more tt (more tt same)) λ k _. send_loop-Asks t n g k _ (more tt (more tt same))
