-- ===== src/RobustWeb3/CallContract/Resending.antt =====
-- When `callContract` of utils/robust.js sends its transaction again, and at which price and with which
-- nonce.
use rainbow_bridge_cli.Base.{
  ℕ, ◌+◌, ◌*◌, ◌<◌, ◌≡◌, refl, true, false, none, some, List, ◌∷◌, ◌===◌, includes, Bool-cases, inl,
  inr, if◌then◌else◌,
}
use rainbow_bridge_cli.Base.Doubling.{max_gas_price}
use rainbow_bridge_cli.Base.Io.{
  JsError, to_string, js_error, Outcome, err, resolve, reject, pending,
}
use rainbow_bridge_cli.RobustWeb3.{Log, Receipt, Tx, Trace, EthNode, is_disconnected}
use rainbow_bridge_cli.RobustWeb3.Events.{Event, mined_case}
use rainbow_bridge_cli.RobustWeb3.CallContract.{
  Request, tx_of, slow_tx_error_msg, Next, double_price, next_nonce, reconnect, give_up, next_of,
}

-- How the price and the nonce of one round follow from those of the round before, and from the
-- exception that ended it.
pub data Follows (e : JsError) (price nonce : ℕ) : ℕ → ℕ → Type 0 where
  doubled :
      {p : ℕ}
      → (e.message === "transaction not executed within 5 minutes") ≡ true
      → p ≡ price * 2
      → Follows e price nonce p nonce
  renumbered :
      {k : ℕ}
      → (e.message === "transaction not executed within 5 minutes") ≡ false
      → includes e.message "the tx doesn't have the correct nonce" ≡ true
      → k ≡ nonce + 1
      → Follows e price nonce price k
  repeated :
      (to_string e === "Error: connection not open") ≡ true → Follows e price nonce price nonce

-- The transaction of the request, at its own price if it has one.
pub record IsTx (r : Request) (price nonce : ℕ) (input : List ℕ) (tx : Tx) : Type 0 where
  pub sender : tx.sender ≡ r.sender
  pub to : tx.to ≡ r.to
  pub gas : tx.gas ≡ r.gas
  pub nonce_used : tx.nonce ≡ nonce
  pub input_used : tx.input ≡ input
  pub own_price : r.gas_price ≡ none → tx.gas_price ≡ price
  pub fixed_price : (p : ℕ) → r.gas_price ≡ some p → tx.gas_price ≡ p

module _ {D : Type 0} (node : EthNode D) (decode : Log → Outcome Event) where
  -- With which exceptions a transaction fails: the node's own, none within five minutes, or that of
  -- the decoding of its logs.
  pub data Fails (tx : Tx) : JsError → Type 0 where
    refused : {e : JsError} (t : Trace D) → node.send tx t ≡ reject e → Fails tx e
    too_slow :
        (t : Trace D)
        → node.send tx t ≡ pending
        → Fails tx (js_error "transaction not executed within 5 minutes")
    undecoded :
        {e : JsError} {receipt : Receipt} (t : Trace D)
        → node.send tx t ≡ resolve receipt
        → mined_case decode receipt receipt.logs ≡ err e
        → Fails tx e

  -- The transaction of the request is sent again and again, each time after it has failed, with the
  -- price and the nonce that follow, and each price below the bound.
  pub data Resends (r : Request) (input : List ℕ) : ℕ → ℕ → List Tx → List Tx → Type 0 where
    over : {price nonce : ℕ} {l : List Tx} → Resends r input price nonce l l
    last :
        {price nonce : ℕ} {tx : Tx} {l : List Tx}
        → price < max_gas_price
        → IsTx r price nonce input tx
        → Resends r input price nonce l (tx ∷ l)
    again :
        {price nonce price' nonce' : ℕ} {tx : Tx} {e : JsError} {l l' : List Tx}
        → price < max_gas_price
        → IsTx r price nonce input tx
        → Fails tx e
        → Follows e price nonce price' nonce'
        → Resends r input price' nonce' (tx ∷ l) l'
        → Resends r input price nonce l l'

pub tx_of-IsTx :
    (r : Request) (price nonce : ℕ) (input : List ℕ)
    → IsTx r price nonce input (tx_of r price nonce input)
tx_of-IsTx r price nonce input = record {
  sender = refl;
  to = refl;
  gas = refl;
  nonce_used = refl;
  input_used = refl;
  own_price = λ h. simp h;
  fixed_price = λ p h. simp h;
}

-- What the way on says of the exception.
abbrev pub Why : JsError → Next → Type 0
Why e double_price = (e.message === slow_tx_error_msg) ≡ true
Why e next_nonce =
    ((e.message === slow_tx_error_msg) ≡ false)
    × (includes e.message "the tx doesn't have the correct nonce" ≡ true)
Why e reconnect = is_disconnected e ≡ true
Why e give_up = Unit

pub next_of-Why : (e : JsError) → Why e (next_of e)
unfolding next_of
next_of-Why e = elim (Bool-cases (e.message === slow_tx_error_msg)) [
  | inl p ↦ rw p p
  | inr p ↦ rw p (numbered p)
]
  where
    linked : Why e (if is_disconnected e then reconnect else give_up)
    linked = elim (Bool-cases (is_disconnected e)) [ inl q ↦ rw q q | inr q ↦ rw q tt ]

    numbered :
        (e.message === slow_tx_error_msg) ≡ false
        → Why e (
            if includes e.message "the tx doesn't have the correct nonce"
            then next_nonce
            else if is_disconnected e
            then reconnect
            else give_up)
    numbered p = elim (Bool-cases (includes e.message "the tx doesn't have the correct nonce")) [
      | inl q ↦ rw q (p, q)
      | inr q ↦ rw q linked
    ]
