-- ===== src/RobustWeb3/Mining.antt =====
-- What `callContract` of utils/robust.js returns comes from a transaction that the node has mined.
use rainbow_bridge_cli.Base.{ℕ, zero, suc, ◌+◌, ◌*◌, ◌≡◌, refl, ◌∷◌, ltb, String}
use rainbow_bridge_cli.Base.Doubling.{max_gas_price}
use rainbow_bridge_cli.Base.Io.{
  JsError, Outcome, ok, Reply, resolve, reject, pending, with_timeout, pure, throw, call, catch,
  try, lift, ◌>>=◌,
}
use rainbow_bridge_cli.Base.Io.Rules.{
  Returns, Returns-at, bind-Returns, Returns-map, bind_after, try-Returns, if_Returns, call-Returns,
  lift-Returns,
}
use rainbow_bridge_cli.RobustWeb3.{
  Log, Receipt, Tx, get_gas_price, get_transaction_count, set_provider, view_call, send_transaction,
  Trace, EthNode,
}
use rainbow_bridge_cli.RobustWeb3.Events.{Event, Mined, mined_case}
use rainbow_bridge_cli.RobustWeb3.Sends.{Asked}
use rainbow_bridge_cli.RobustWeb3.CallContract.{
  Request, tx_of, slow_tx_error_msg, unfinished, Next, double_price, next_nonce, reconnect, give_up,
  next_of, send_tx, try_once, go_on, send_loop, call_contract,
}

resolve_in_time :
    {A : Type 0} {a : A} (m : String) (r : Reply A) → with_timeout m r ≡ resolve a → r ≡ resolve a
resolve_in_time m (resolve b) e = e
resolve_in_time m (reject x) e = e
resolve_in_time m pending e = cc

module _ {D : Type 0} (node : EthNode D) (decode : Log → Outcome Event) (r : Request) where
  -- The node gave a receipt for a transaction of the request, and this is what its logs are decoded
  -- to.
  pub record MinedBy (m : Mined) : Type 0 where
    pub tx : Tx
    pub asked : Asked r tx
    pub receipt : Receipt
    pub before : Trace D
    pub given : node.send tx before ≡ resolve receipt
    pub decoded : mined_case decode receipt receipt.logs ≡ ok m

  abbrev Q : Mined → Trace D → Type 0
  Q m u = MinedBy m

  sent-Q :
      (tx : Tx) (t : Trace D)
      → Asked r tx
      → Returns (λ x u. (v : Trace D) × (node.send tx v ≡ resolve x)) (send_tx node tx t)
  sent-Q tx t a =
      bind-Returns (λ x u. (v : Trace D) × (node.send tx v ≡ resolve x))
        (catch (call (view_call tx) (node.view_call tx)) (λ e. pure tt)) _ t
        (λ _ _.
          call-Returns _ (send_transaction tx)
            (λ v. with_timeout slow_tx_error_msg (node.send tx v)) _
            (λ x e. (_, resolve_in_time slow_tx_error_msg (node.send tx _) e)))

  try_once-Q : (price nonce : ℕ) (t : Trace D) → Returns Q (try_once node decode r price nonce t)
  try_once-Q price nonce t =
      bind_after Sent Q (lift r.input >>= λ input. send_tx node (tx_of r price nonce input)) _ t
        (bind-Returns Sent (lift r.input) _ t (λ input e.
          let a : Asked r (tx_of r price nonce input) = record {
            sender = refl;
            to = refl;
            input = e;
          } in
          Returns-map {Q = Sent} _ (sent-Q (tx_of r price nonce input) t a)
            (λ x u (v, g). (tx_of r price nonce input, a, v, g))))
        (λ x u (tx, a, v, g).
          lift-Returns Q (mined_case decode x x.logs) u
            (λ m e. record { tx = tx; asked = a; receipt = x; before = v; given = g; decoded = e }))
    where
      Sent : Receipt → Trace D → Type 0
      Sent x u = (tx : Tx) × Asked r tx × (v : Trace D) × (node.send tx v ≡ resolve x)

  send_loop-Q :
      (n price nonce : ℕ) (t : Trace D) → Returns Q (send_loop node decode r n price nonce t)
  unfolding send_loop
  send_loop-Q zero price nonce t = tt
  send_loop-Q (suc n) price nonce t =
      if_Returns Q (ltb price max_gas_price)
        (try (try_once node decode r price nonce) pure
          (λ e. go_on node decode r (send_loop node decode r n) price nonce e (next_of e)))
        (throw unfinished) t
        (λ _.
          try-Returns Q (try_once node decode r price nonce) pure _ t
            (λ m e. Returns-at Q _ (try_once-Q price nonce t) e)
            (λ e _. resumed (send_loop-Q n) e (next_of e) _))
        (λ _. tt)
    where
      resumed :
          ((p k : ℕ) (v : Trace D) → Returns Q (send_loop node decode r n p k v))
          → (e : JsError) (next : Next) (v : Trace D)
          → Returns Q (go_on node decode r (send_loop node decode r n) price nonce e next v)
      resumed h e double_price v = h (price * 2) nonce v
      resumed h e next_nonce v = h price (nonce + 1) v
      resumed h e reconnect v = h price nonce (set_provider ∷ v)
      resumed h e give_up v = tt

  pub call_contract-MinedBy :
      (n : ℕ) (t : Trace D) → Returns (λ m _. MinedBy m) (call_contract node decode r n t)
  unfolding call_contract
  call_contract-MinedBy n t = bind-Returns Q (call get_gas_price node.gas_price) _ t λ g _.
      bind-Returns Q (call (get_transaction_count r.sender) (node.transaction_count r.sender)) _ _
        λ k _. send_loop-Q n g k _
