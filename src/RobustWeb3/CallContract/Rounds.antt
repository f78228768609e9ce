-- ===== src/RobustWeb3/CallContract/Rounds.antt =====
-- How many rounds `callContract` of utils/robust.js takes.
use rainbow_bridge_cli.Base.{
  ℕ, zero, suc, ◌*◌, ◌≤◌, ◌≡◌, refl, ◌⊎◌, inl, inr, false, Option, none, some, List, [], ◌∷◌, ltb,
  arith,
}
use rainbow_bridge_cli.Base.Doubling.{doubled, max_gas_price, enough_doublings}
use rainbow_bridge_cli.Base.Io.{
  JsError, js_error, Outcome, ok, err, exit, hangs, out_of_fuel, Reply, resolve, reject, pending,
  Io, pure, throw, call, try, lift, with_timeout, ◌>>=◌,
}
use rainbow_bridge_cli.Base.Io.Rules.{settle-ok}
use rainbow_bridge_cli.Base.Io.Survival.{
  IsAlive, settle-IsAlive, bind-IsAlive, try-IsAlive, if-IsAlive,
}
use rainbow_bridge_cli.RobustWeb3.{
  Log, Receipt, Tx, Web3Event, get_gas_price, get_transaction_count, view_call, send_transaction,
  Trace, EthNode,
}
use rainbow_bridge_cli.RobustWeb3.Events.{Event, Mined, mined_case, decode_all}
use rainbow_bridge_cli.RobustWeb3.CallContract.{
  Request, tx_of, slow_tx_error_msg, unfinished, double_price, give_up, next_of, send_tx, try_once,
  go_on, send_loop, call_contract,
}

-- The exception makes the loop double the price or give up: it is about neither the nonce nor the
-- connection.
abbrev pub EndsOrDoubles : JsError → Type 0
EndsOrDoubles e = (next_of e ≡ double_price) ⊎ (next_of e ≡ give_up)

-- It is an exception of that kind, or none.
abbrev Good : {A : Type 0} → Outcome A → Type 0
Good (ok a) = Unit
Good (err e) = EndsOrDoubles e
Good (exit n) = ⊥
Good hangs = Unit
Good out_of_fuel = ⊥

Good-IsAlive : {A : Type 0} (o : Outcome A) → Good o → IsAlive o
Good-IsAlive (err e) g = tt
Good-IsAlive (ok a) g = tt
Good-IsAlive (exit n) g = g
Good-IsAlive hangs g = tt
Good-IsAlive out_of_fuel g = g

Good-err : {A : Type 0} {e : JsError} (o : Outcome A) → Good o → o ≡ err e → EndsOrDoubles e
Good-err {e = e} (err x) g h = let q : x ≡ e = cc in rw (← q) g
Good-err (ok a) g h = cc
Good-err (exit n) g h = cc
Good-err hangs g h = cc
Good-err out_of_fuel g h = cc

timeout-EndsOrDoubles : EndsOrDoubles (js_error slow_tx_error_msg)
unfolding next_of
timeout-EndsOrDoubles = inl refl

not_below : (price : ℕ) → max_gas_price ≤ price → ltb price max_gas_price ≡ false
not_below price e = ground arith

module _ {D : Type 0} (node : EthNode D) (decode : Log → Outcome Event) (r : Request) where
  -- Every log can be decoded.
  abbrev pub Decodes : Type 0
  Decodes = (l : Log) → (ev : Event) × (decode l ≡ ok ev)

  -- The node does not answer that the nonce is wrong or that the connection is gone.
  abbrev pub StaysConnected : Type 0
  StaysConnected =
      (tx : Tx) (t : Trace D) (e : JsError) → node.send tx t ≡ reject e → EndsOrDoubles e

  decode_all-ok : Decodes → (ls : List Log) → (evs : List Event) × (decode_all decode ls ≡ ok evs)
  unfolding decode_all
  decode_all-ok d [] = ([], refl)
  decode_all-ok d (l ∷ ls) = both (d l) (decode_all-ok d ls)
    where
      both :
          ((ev : Event) × (decode l ≡ ok ev))
          → ((evs : List Event) × (decode_all decode ls ≡ ok evs))
          → (evs : List Event) × (decode_all decode (l ∷ ls) ≡ ok evs)
      both (ev, e) (evs, f) = (ev ∷ evs, rw e (rw f))

  mined_case-Good :
      Decodes → (receipt : Receipt) (ls : Option (List Log)) → Good (mined_case decode receipt ls)
  mined_case-Good d receipt none = tt
  mined_case-Good d receipt (some ls) = decoded (decode_all-ok d ls)
    where
      decoded :
          ((evs : List Event) × (decode_all decode ls ≡ ok evs))
          → Good (mined_case decode receipt (some ls))
      decoded (evs, e) = rw e tt

  module _ (input : List ℕ) (encoded : r.input ≡ ok input) (d : Decodes)
      (connected : StaysConnected) where
    sent-Good :
        (tx : Tx) (t : Trace D)
        → Good
            ((call (send_transaction tx) (λ v. with_timeout slow_tx_error_msg (node.send tx v))
                >>= λ receipt. lift (mined_case decode receipt receipt.logs))
              t).0
    sent-Good tx t = answered (node.send tx (send_transaction tx ∷ t)) refl
      where
        answered :
            (a : Reply Receipt)
            → node.send tx (send_transaction tx ∷ t) ≡ a
            → Good
                ((call (send_transaction tx) (λ v. with_timeout slow_tx_error_msg (node.send tx v))
                    >>= λ receipt. lift (mined_case decode receipt receipt.logs))
                  t).0
        answered (resolve receipt) e = simp e (mined_case-Good d receipt receipt.logs)
        answered (reject x) e = simp e (connected tx _ x e)
        answered pending e = simp e timeout-EndsOrDoubles

    try_once-Good : (price nonce : ℕ) (t : Trace D) → Good (try_once node decode r price nonce t).0
    try_once-Good price nonce t = simp encoded (viewed (node.view_call tx (view_call tx ∷ t)) refl)
      where
        tx : Tx
        tx = tx_of r price nonce input

        viewed :
            (a : Reply (Unit {0}))
            → node.view_call tx (view_call tx ∷ t) ≡ a
            → Good
                ((send_tx node tx >>= λ receipt. lift (mined_case decode receipt receipt.logs)) t).0
        viewed (resolve x) e = simp e (sent-Good tx (view_call tx ∷ t))
        viewed (reject x) e = simp e (sent-Good tx (view_call tx ∷ t))
        viewed pending e = simp e tt

    next-IsAlive :
        (f : ℕ → ℕ → Io (Web3Event D) Mined) (price nonce : ℕ) (e : JsError) (u : Trace D)
        → EndsOrDoubles e
        → IsAlive (f (price * 2) nonce u).0
        → IsAlive (go_on node decode r f price nonce e (next_of e) u).0
    next-IsAlive f price nonce e u (inl h) p = simp h p
    next-IsAlive f price nonce e u (inr h) p = simp h tt

    send_loop-IsAlive :
        (k price nonce : ℕ) (t : Trace D)
        → max_gas_price ≤ doubled k price
        → IsAlive (send_loop node decode r (suc k) price nonce t).0
    unfolding send_loop
    send_loop-IsAlive zero price nonce t h = rw (not_below price h) tt
    send_loop-IsAlive (suc k) price nonce t h =
        if-IsAlive (ltb price max_gas_price)
          (try (try_once node decode r price nonce) pure
            (λ e. go_on node decode r (send_loop node decode r (suc k)) price nonce e (next_of e)))
          (throw unfinished) t
          (λ _.
            try-IsAlive (try_once node decode r price nonce) pure _ t
              (Good-IsAlive _ (try_once-Good price nonce t)) (λ _ _. tt)
              (λ e p.
                next-IsAlive (send_loop node decode r (suc k)) price nonce e _
                  (Good-err _ (try_once-Good price nonce t) p)
                  (send_loop-IsAlive k (price * 2) nonce _ h)))
          (λ _. tt)

    -- If the call can be encoded and every log decoded, and the node quotes a gas price other than
    -- zero and never answers that the nonce is wrong or that the connection is gone, then forty-five
    -- rounds are enough: `callContract` returns, throws or waits for an answer, however often the
    -- node lets the five minutes pass.
    pub call_contract-IsAlive :
        (t : Trace D)
        → ((p : ℕ) → node.gas_price (get_gas_price ∷ t) ≡ resolve p → 1 ≤ p)
        → IsAlive (call_contract node decode r 45 t).0
    unfolding call_contract
    call_contract-IsAlive t charges =
        bind-IsAlive (call get_gas_price node.gas_price) _ t (settle-IsAlive {A = ℕ} _) λ p e.
          bind-IsAlive (call (get_transaction_count r.sender) (node.transaction_count r.sender)) _ _
            (settle-IsAlive {A = ℕ} _)
            λ k _. send_loop-IsAlive 44 p k _ (enough_doublings p (charges p (settle-ok _ e)))
