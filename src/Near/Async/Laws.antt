-- ===== src/Near/Async/Laws.antt =====
-- What `txnStatus` and `signAndSendTransactionAsync` of utils/borsh.js do to the node.
use rainbow_bridge_cli.Base.{
  ℕ, zero, suc, ◌+◌, ◌≡◌, refl, true, String, Option, none, some, ◌∷◌, Bool-cases, inl, inr,
  if◌then◌else◌, arith,
}
use rainbow_bridge_cli.Base.Io.{JsError, Outcome, ok, err, resolve, reject, pure, throw, call}
use rainbow_bridge_cli.Base.Io.Rules.{
  Returns, try-Returns, Returns-ok, bind_trace, try_trace, if_trace,
}
use rainbow_bridge_cli.Near.Node.{
  TxResult, is_final, is_defined, Trace, node_status, signing, broadcast, tx_status, slept,
  NearNode,
}
use rainbow_bridge_cli.Near.SendTx.Nonces.{Fresh}
use rainbow_bridge_cli.Near.Async.{
  broadcast_signed, sign_with, sign_and_send_async, poll_status, success_or_throw, failure_error,
  txn_status,
}

-- From `t` to `u`, nothing happens but that the status of one transaction is asked for, at most `n`
-- times, with pauses of one length.
pub data Polls (tx_hash : String) (wait : ℕ) : ℕ → Trace → Trace → Type 0 where
  over : {n : ℕ} {t : Trace} → Polls tx_hash wait n t t
  asked :
      {n : ℕ} {t u : Trace}
      → Polls tx_hash wait n (tx_status tx_hash ∷ t) u
      → Polls tx_hash wait (suc n) t u
  paused :
      {n : ℕ} {t u : Trace} → Polls tx_hash wait n (slept wait ∷ t) u → Polls tx_hash wait n t u

module _ (node : NearNode) where
  poll_status-Polls :
      (n wait : ℕ) (tx_hash : String) (result : Option TxResult) (t : Trace)
      → Polls tx_hash wait n t (poll_status node n tx_hash wait result t).1
  unfolding poll_status
  poll_status-Polls zero wait tx_hash result t = over
  poll_status-Polls (suc n) wait tx_hash result t =
      try_trace (Polls tx_hash wait (suc n) t) (call (tx_status tx_hash) (node.tx_status tx_hash)) _
        _ t (asked over)
        (λ r _.
          if_trace (Polls tx_hash wait (suc n) t) (is_final r) (pure (some r)) _ _ (asked over)
            (asked (poll_status-Polls n wait tx_hash (some r) (tx_status tx_hash ∷ t))))
        (λ e _.
          asked
            (paused (poll_status-Polls n wait tx_hash result (slept wait ∷ tx_status tx_hash ∷ t))))

  -- However the node answers, `txnStatus` does nothing but ask for the status of its transaction, at
  -- most `retries` times, and pause.
  pub txn_status-Polls :
      (retries wait : ℕ) (tx_hash : String) (t : Trace)
      → Polls tx_hash wait retries t (txn_status node tx_hash retries wait t).1
  unfolding txn_status
  txn_status-Polls retries wait tx_hash t =
      bind_trace (Polls tx_hash wait retries t) (poll_status node retries tx_hash wait none)
        (success_or_throw node tx_hash) t (poll_status-Polls retries wait tx_hash none t)
        (λ o _. judged o (poll_status-Polls retries wait tx_hash none t))
    where
      judged :
          {u : Trace} (o : Option TxResult)
          → Polls tx_hash wait retries t u
          → Polls tx_hash wait retries t (success_or_throw node tx_hash o u).1
      judged none p = p
      judged {u} (some r) p =
          if_trace (Polls tx_hash wait retries t) (is_defined r.success_value) (pure r)
            (throw (failure_error r.failure)) u p p

  -- The node's answer ends the loop of `txnStatus`.
  abbrev pub Final : String → TxResult → Trace → Type 0
  Final tx_hash r t =
      (node.tx_status tx_hash (tx_status tx_hash ∷ t) ≡ resolve r) × (is_final r ≡ true)

  -- The trace of `k` polls that were rejected, each with its pause, the latest first.
  abbrev pub rejections : String → ℕ → ℕ → Trace → Trace
  rejections tx_hash wait zero t = t
  rejections tx_hash wait (suc k) t = rejections tx_hash wait k (slept wait ∷ tx_status tx_hash ∷ t)

  -- The first `k` polls are rejected.
  abbrev pub Rejected : String → ℕ → ℕ → Trace → Type 0
  Rejected tx_hash wait zero t = Unit
  Rejected tx_hash wait (suc k) t =
      ((e : JsError) × (node.tx_status tx_hash (tx_status tx_hash ∷ t) ≡ reject e))
      × Rejected tx_hash wait k (slept wait ∷ tx_status tx_hash ∷ t)

  poll_status-first :
      (k n wait : ℕ) (tx_hash : String) (r : TxResult) (result : Option TxResult) (t : Trace)
      → Rejected tx_hash wait k t
      → Final tx_hash r (rejections tx_hash wait k t)
      → poll_status node (k + suc n) tx_hash wait result t
        ≡ (ok (some r), tx_status tx_hash ∷ rejections tx_hash wait k t)
  unfolding poll_status
  poll_status-first zero n wait tx_hash r result t h (e, f) =
      let z : 0 + suc n ≡ suc n = omega arith in rw z (rw e (rw f))
  poll_status-first (suc k) n wait tx_hash r result t ((x, p), h) g =
      let z : suc k + suc n ≡ suc (k + suc n) = omega arith in
      rw z (
        rw p (poll_status-first k n wait tx_hash r result (slept wait ∷ tx_status tx_hash ∷ t) h g))

  -- If the first `k` polls are rejected and the next one, which the number of retries allows, brings
  -- a final result, then `txnStatus` polls no more: it returns that result if it has a
  -- `SuccessValue`, and else throws its failure.
  pub txn_status-first :
      (k n wait : ℕ) (tx_hash : String) (r : TxResult) (t : Trace)
      → Rejected tx_hash wait k t
      → Final tx_hash r (rejections tx_hash wait k t)
      → txn_status node tx_hash (k + suc n) wait t ≡ (
        (if is_defined r.success_value then ok r else err (failure_error r.failure)),
        tx_status tx_hash ∷ rejections tx_hash wait k t,
      )
  unfolding txn_status
  txn_status-first k n wait tx_hash r t h g = elim (Bool-cases (is_defined r.success_value)) [
    | inl e ↦ rw (poll_status-first k n wait tx_hash r none t h g) (rw e)
    | inr e ↦ rw (poll_status-first k n wait tx_hash r none t h g) (rw e)
  ]

  -- Where `signAndSendTransactionAsync` comes to an end, with a hash or an error, the nonce in the
  -- access key has grown by the number of transactions that were signed, and these were signed with
  -- the nonces between, in increasing order and each once.
  pub sign_and_send_async-Fresh :
      (nonce : ℕ) (t u : Trace) (r : Outcome String) (nonce' : ℕ)
      → sign_and_send_async node nonce t ≡ (ok (r, nonce'), u)
      → Fresh nonce t nonce' u
  unfolding sign_and_send_async
  sign_and_send_async-Fresh nonce t u r nonce' e =
      Returns-ok Q
        (try-Returns Q (call node_status node.status) (sign_with node nonce) _ t (λ h _. signs h)
          (λ x _. idle))
        e
    where
      Q : Outcome String × ℕ → Trace → Type 0
      Q (r, k) u = Fresh nonce t k u

      idle : Fresh nonce t nonce (node_status ∷ t)
      idle = record { signed = 0; counted = omega arith; nonces = refl }

      once : (h : String) → Fresh nonce t (nonce + 1) (signing (nonce + 1) h ∷ node_status ∷ t)
      once h = record { signed = 1; counted = refl; nonces = refl }

      signs : (h : String) → Returns Q (sign_with node nonce h (node_status ∷ t))
      signs h =
          try-Returns Q (call (signing (nonce + 1) h) (node.sign (nonce + 1) h))
            (broadcast_signed node (nonce + 1)) _ (node_status ∷ t)
            (λ tx _.
              try-Returns Q (call (broadcast tx) (node.send tx)) _ _ _
                (λ _ _. record { signed = 1; counted = refl; nonces = refl })
                (λ _ _. record { signed = 1; counted = refl; nonces = refl }))
            (λ _ _. once h)
