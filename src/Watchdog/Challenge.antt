-- ===== src/Watchdog/Challenge.antt =====
-- The challenge of near2eth/watchdog/index.js: how often it is sent, and at which prices.
use rainbow_bridge_cli.Base.{
  ℕ, zero, suc, ◌*◌, ◌≤◌, ◌<◌, ◌≡◌, ◌∷◌, ◌===◌, ltb, arith, Bool-cases, inl, inr, true, false,
}
use rainbow_bridge_cli.Base.Doubling.{doubled, max_gas_price}
use rainbow_bridge_cli.Base.Io.{throw, pure, try}
use rainbow_bridge_cli.Base.Io.Rules.{try_trace, if_trace}
use rainbow_bridge_cli.Base.Io.Survival.{IsAlive, settle-IsAlive, try-IsAlive, if-IsAlive}
use rainbow_bridge_cli.Watchdog.{
  send_challenge, Trace, EthNode, slow_tx_error_msg, send_challenges, send_once, resent,
}

-- From `t` to `u`, nothing happens but that one challenge is sent again and again, with the same
-- nonce, each time at twice the price, and always below the bound.
pub data Escalates (nonce i : ℕ) : ℕ → Trace → Trace → Type 0 where
  over : {price : ℕ} {t : Trace} → Escalates nonce i price t t
  sent :
      {price : ℕ} {t u : Trace}
      → price < max_gas_price
      → Escalates nonce i
          (price * 2)
          (send_challenge (record { index = i; gas_price = price; nonce = nonce }) ∷ t)
          u
      → Escalates nonce i price t u

below : (price : ℕ) → ltb price max_gas_price ≡ true → price < max_gas_price
below price e = ground arith

not_below : (price : ℕ) → max_gas_price ≤ price → ltb price max_gas_price ≡ false
not_below price e = ground arith

module _ (node : EthNode) where
  -- However the node answers and however many rounds are run, the challenge is sent with one nonce,
  -- first at the price that was asked for, then at twice the price before, and at no price that
  -- reaches 1e13.
  pub send_challenges-Escalates :
      (n price nonce i : ℕ) (t : Trace)
      → Escalates nonce i price t (send_challenges node n price nonce i t).1
  unfolding send_challenges
  send_challenges-Escalates zero price nonce i t = over
  send_challenges-Escalates (suc n) price nonce i t = elim (Bool-cases (ltb price max_gas_price)) [
    | inl e ↦ rw e (
        try_trace (Escalates nonce i price t) (send_once node price nonce i) (λ _. pure tt)
          (resent (send_challenges node n (price * 2) nonce i)) t (sent (below price e) over)
          (λ _ _. sent (below price e) over)
          (λ x _.
            if_trace (Escalates nonce i price t) (x.message === slow_tx_error_msg)
              (send_challenges node n (price * 2) nonce i) (throw x) _
              (sent (below price e) (send_challenges-Escalates n (price * 2) nonce i _))
              (sent (below price e) over)))
    | inr e ↦ rw e over
  ]

  -- From a price that reaches 1e13 after `k` doublings, `k + 1` rounds are enough, however the node
  -- answers: the loop returns, throws or waits for an answer.
  pub send_challenges-IsAlive :
      (k price nonce i : ℕ) (t : Trace)
      → max_gas_price ≤ doubled k price
      → IsAlive (send_challenges node (suc k) price nonce i t).0
  unfolding send_challenges
  send_challenges-IsAlive zero price nonce i t h = rw (not_below price h) tt
  send_challenges-IsAlive (suc k) price nonce i t h =
      if-IsAlive (ltb price max_gas_price)
        (try (send_once node price nonce i) (λ _. pure tt)
          (resent (send_challenges node (suc k) (price * 2) nonce i)))
        (pure tt) t
        (λ _.
          try-IsAlive (send_once node price nonce i) (λ _. pure tt)
            (resent (send_challenges node (suc k) (price * 2) nonce i)) t
            (settle-IsAlive {A = Unit {0}} _) (λ _ _. tt)
            (λ x _.
              if-IsAlive (x.message === slow_tx_error_msg)
                (send_challenges node (suc k) (price * 2) nonce i) (throw x) _
                (λ _. send_challenges-IsAlive k (price * 2) nonce i _ h) (λ _. tt)))
        (λ _. tt)
