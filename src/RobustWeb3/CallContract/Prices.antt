-- ===== src/RobustWeb3/CallContract/Prices.antt =====
-- At which prices and with which nonces `callContract` of utils/robust.js sends its transaction.
use rainbow_bridge_cli.Base.{
  ℕ, zero, suc, ◌+◌, ◌*◌, ◌<◌, ◌≡◌, refl, ◌⊎◌, inl, inr, true, some, List, [], ◌∷◌, ltb, arith,
}
use rainbow_bridge_cli.Base.Doubling.{max_gas_price}
use rainbow_bridge_cli.Base.Io.{
  JsError, js_error, Outcome, ok, err, hangs, Reply, resolve, reject, pending, Io, pure, throw,
  call, try, lift, with_timeout, ◌>>=◌,
}
use rainbow_bridge_cli.Base.Io.Rules.{bind_trace, try_trace, if_trace_by}
use rainbow_bridge_cli.RobustWeb3.{
  Log, Receipt, Tx, Web3Event, get_gas_price, get_transaction_count, set_provider, view_call,
  send_transaction, Trace, EthNode,
}
use rainbow_bridge_cli.RobustWeb3.Events.{Event, Mined, mined_case}
use rainbow_bridge_cli.RobustWeb3.CallContract.{
  Request, tx_of, slow_tx_error_msg, unfinished, Next, double_price, next_nonce, reconnect, give_up,
  next_of, send_tx, try_once, go_on, send_loop, call_contract,
}
use rainbow_bridge_cli.RobustWeb3.CallContract.Resending.{
  doubled, renumbered, repeated, Fails, refused, too_slow, undecoded, Resends, over, last, again,
  tx_of-IsTx, Why, next_of-Why,
}

-- The transactions that a trace sends, the latest first.
abbrev pub sent : {D : Type 0} → Trace D → List Tx
sent [] = []
sent (send_transaction tx ∷ t) = tx ∷ sent t
sent (_ ∷ t) = sent t

below : (price : ℕ) → ltb price max_gas_price ≡ true → price < max_gas_price
below price e = ground arith

module _ {D : Type 0} (node : EthNode D) (decode : Log → Outcome Event) (r : Request)
    (input : List ℕ) where
  abbrev loop : ℕ → ℕ → ℕ → Io (Web3Event D) Mined
  loop = send_loop node decode r

  -- A round that throws has sent its transaction.
  abbrev Round : ℕ → ℕ → Trace D → Outcome Mined → Trace D → Type 0
  Round price nonce t o u =
      ((o ≡ hangs) × (sent u ≡ sent t))
      ⊎ ((sent u ≡ tx_of r price nonce input ∷ sent t)
          × ((e : JsError) → o ≡ err e → Fails node decode (tx_of r price nonce input) e))

  abbrev decoded : Tx → Io (Web3Event D) Mined
  decoded tx = send_tx node tx >>= λ receipt. lift (mined_case decode receipt receipt.logs)

  send_tx-Round :
      (price nonce : ℕ) (t : Trace D)
      → Round price nonce t
          (decoded (tx_of r price nonce input) t).0
          (decoded (tx_of r price nonce input) t).1
  send_tx-Round price nonce t = viewed (node.view_call tx (view_call tx ∷ t)) refl
    where
      tx : Tx
      tx = tx_of r price nonce input

      mined :
          sent
            ((call (send_transaction tx) (λ v. with_timeout slow_tx_error_msg (node.send tx v))
                >>= λ receipt. lift (mined_case decode receipt receipt.logs))
              (view_call tx ∷ t)).1
          ≡ tx ∷ sent t
      mined =
          bind_trace (λ u. sent u ≡ tx ∷ sent t)
            (call (send_transaction tx) (λ v. with_timeout slow_tx_error_msg (node.send tx v))) _
            (view_call tx ∷ t) refl (λ _ _. refl)

      after_view : Io (Web3Event D) Mined
      after_view =
          call (send_transaction tx) (λ v. with_timeout slow_tx_error_msg (node.send tx v))
          >>= λ receipt. lift (mined_case decode receipt receipt.logs)

      fails :
          (v : Reply Receipt)
          → node.send tx (send_transaction tx ∷ view_call tx ∷ t) ≡ v
          → (e : JsError) → (after_view (view_call tx ∷ t)).0 ≡ err e
          → Fails node decode tx e
      fails (resolve receipt) q e h = undecoded _ q (simp q at h)
      fails (reject x) q e h =
          let same : x ≡ e = (let g = simp q at h in cc) in
          refused (send_transaction tx ∷ view_call tx ∷ t) (rw (← same) q)
      fails pending q e h =
          let same : js_error slow_tx_error_msg ≡ e = (let g = simp q at h in cc) in
          rw (← same) (too_slow _ q)

      viewed :
          (v : Reply (Unit {0}))
          → node.view_call tx (view_call tx ∷ t) ≡ v
          → Round price nonce t (decoded tx t).0 (decoded tx t).1
      viewed (resolve a) e = inr (simp e mined, simp e (fails _ refl))
      viewed (reject x) e = inr (simp e mined, simp e (fails _ refl))
      viewed pending e = inl (simp e, simp e)

  module _ (encoded : r.input ≡ ok input) where
    try_once-Round :
        (price nonce : ℕ) (t : Trace D)
        → Round price nonce t
            (try_once node decode r price nonce t).0
            (try_once node decode r price nonce t).1
    try_once-Round price nonce t = simp encoded (send_tx-Round price nonce t)

    resumed :
        (f : ℕ → ℕ → Io (Web3Event D) Mined) (price nonce : ℕ) (e : JsError) (next : Next)
        (t u : Trace D)
        → ((p k : ℕ) (v : Trace D) → Resends node decode r input p k (sent v) (sent (f p k v).1))
        → price < max_gas_price
        → sent u ≡ tx_of r price nonce input ∷ sent t
        → Fails node decode (tx_of r price nonce input) e
        → Why e next
        → Resends node decode r input price nonce
            (sent t)
            (sent (go_on node decode r f price nonce e next u).1)
    resumed f price nonce e double_price t u h p s x y =
        again p (tx_of-IsTx r price nonce input) x (doubled y refl)
          (rw s at (h (price * 2) nonce u))
    resumed f price nonce e next_nonce t u h p s x y =
        again p (tx_of-IsTx r price nonce input) x (renumbered y.0 y.1 refl)
          (rw s at (h price (nonce + 1) u))
    resumed f price nonce e reconnect t u h p s x y =
        again p (tx_of-IsTx r price nonce input) x (repeated y)
          (rw s at (h price nonce (set_provider ∷ u)))
    resumed f price nonce e give_up t u h p s x y = rw s (last p (tx_of-IsTx r price nonce input))

    -- However the node answers and however many rounds are run, `callContract` sends only the
    -- transaction that it was asked for.
    send_loop-Resends :
        (n price nonce : ℕ) (t : Trace D)
        → Resends node decode r input price nonce (sent t) (sent (loop n price nonce t).1)
    unfolding send_loop
    send_loop-Resends zero price nonce t = over
    send_loop-Resends (suc n) price nonce t =
        if_trace_by P (ltb price max_gas_price)
          (try (try_once node decode r price nonce) pure
            (λ e. go_on node decode r (loop n) price nonce e (next_of e)))
          (throw unfinished) t
          (λ lt.
            tried (λ p k v. send_loop-Resends n p k v) (below price lt)
              (try_once-Round price nonce t))
          (λ _. over)
      where
        P : Trace D → Type 0
        P u = Resends node decode r input price nonce (sent t) (sent u)

        tried :
            ((p k : ℕ) (v : Trace D)
              → Resends node decode r input p k (sent v) (sent (loop n p k v).1))
            → price < max_gas_price
            → Round price nonce t
                (try_once node decode r price nonce t).0
                (try_once node decode r price nonce t).1
            → P
                (try
                  (try_once node decode r price nonce)
                  pure
                  (λ e. go_on node decode r (loop n) price nonce e (next_of e))
                  t).1
        tried h lt (inl (z, s)) = simp z (rw s over)
        tried h lt (inr (s, x)) =
            try_trace P (try_once node decode r price nonce) pure _ t
              (rw s (last lt (tx_of-IsTx r price nonce input)))
              (λ _ _. rw s (last lt (tx_of-IsTx r price nonce input)))
              (λ e q. resumed (loop n) price nonce e (next_of e) t _ h lt s (x e q) (next_of-Why e))

    -- If the call is encoded to `input`, then however the node answers and however many rounds are
    -- run, a loop that starts at the node's gas price and nonce sends the transaction of the request,
    -- at its own price if it has one, and sends it again only after it has failed: at twice the price
    -- if it has not been mined within five minutes, with the next nonce if the exception says that the
    -- nonce is not correct, and as before if the connection was not open; and no price that
    -- `callContract` counts reaches 1e13.
    pub call_contract-Resends :
        (n price nonce : ℕ) (t : Trace D)
        → node.gas_price (get_gas_price ∷ t) ≡ resolve price
        → node.transaction_count r.sender (get_transaction_count r.sender ∷ get_gas_price ∷ t)
          ≡ resolve nonce
        → Resends node decode r input price nonce
            (sent t)
            (sent (call_contract node decode r n t).1)
    unfolding call_contract
    call_contract-Resends n price nonce t g c =
        simp (g, c)
          (send_loop-Resends n price nonce (get_transaction_count r.sender ∷ get_gas_price ∷ t))

-- All transactions from the list `l` to the list `l'` have the price `p`.
pub data Priced (p : ℕ) (l : List Tx) : List Tx → Type 0 where
  here : Priced p l l
  more : {tx : Tx} {l' : List Tx} → tx.gas_price ≡ p → Priced p l l' → Priced p l (tx ∷ l')

Resends-Priced :
    {D : Type 0} {node : EthNode D} {decode : Log → Outcome Event} {r : Request} {input : List ℕ}
    {p price nonce : ℕ} {l m l' : List Tx}
    → r.gas_price ≡ some p
    → Resends node decode r input price nonce m l'
    → Priced p l m
    → Priced p l l'
Resends-Priced fixed over h = h
Resends-Priced fixed (last lt x) h = more (x.fixed_price _ fixed) h
Resends-Priced fixed (again lt x e f rest) h =
    Resends-Priced fixed rest (more (x.fixed_price _ fixed) h)

module _ {D : Type 0} (node : EthNode D) (decode : Log → Outcome Event) (r : Request)
    (input : List ℕ) where
  -- Where the caller gives a gas price, every transaction is sent at that price, also after the
  -- price that is counted has been doubled.
  pub call_contract-Priced :
      (n price nonce p : ℕ) (t : Trace D)
      → r.input ≡ ok input
      → r.gas_price ≡ some p
      → node.gas_price (get_gas_price ∷ t) ≡ resolve price
      → node.transaction_count r.sender (get_transaction_count r.sender ∷ get_gas_price ∷ t)
        ≡ resolve nonce
      → Priced p (sent t) (sent (call_contract node decode r n t).1)
  call_contract-Priced n price nonce p t encoded fixed g c =
      Resends-Priced fixed (call_contract-Resends node decode r input encoded n price nonce t g c)
        here
