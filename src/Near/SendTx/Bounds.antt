-- ===== src/Near/SendTx/Bounds.antt =====
-- How often `signAndSendTransaction` hands a transaction to the node.
use rainbow_bridge_cli.Base.{
  ℕ, zero, suc, ◌+◌, ◌*◌, ◌≤◌, ◌≡◌, refl, ◌∙◌, String, Option, none, some, ◌∷◌, arith,
}
use rainbow_bridge_cli.Base.Io.{JsError, Outcome, Io, call}
use rainbow_bridge_cli.Base.Io.Rules.{try_trace, bind_trace, if_trace}
use rainbow_bridge_cli.Near.Node.{
  SignedTx, TxResult, is_final, node_status, signing, Trace, NearEvent, broadcast, tx_status, slept,
  NearNode, count_broadcasts, signed_nonces,
}
use rainbow_bridge_cli.Near.SendTx.{
  Send, send_txn, resend, sign_and_send, Verdict, finished, again, failed, crashed, poll,
  attempt_send, await_result, after_send, round, conclude, send_loop, sign_and_send_transaction,
  retry_tx_status, begin,
}

-- Neither broadcasts nor signatures.
pub record Quiet (t t' : Trace) : Type 0 where
  pub broadcasts : count_broadcasts t' ≡ count_broadcasts t
  pub nonces : signed_nonces t' ≡ signed_nonces t

Quiet-trans : {a b c : Trace} → Quiet a b → Quiet b c → Quiet a c
Quiet-trans p q = record { broadcasts = q.broadcasts ∙ p.broadcasts; nonces = q.nonces ∙ p.nonces }

module _ (node : NearNode) (tx : SignedTx) where
  pub poll-Quiet :
      (n j : ℕ) (result : Option TxResult) (msg : String) (t : Trace)
      → Quiet t (poll node n j tx result msg t).1
  unfolding poll
  poll-Quiet zero j result msg t = record { broadcasts = refl; nonces = refl }
  poll-Quiet (suc n) j result msg t =
      try_trace (Quiet t) (call (tx_status tx.hash) (node.tx_status tx.hash)) _ _ t
        (record { broadcasts = refl; nonces = refl })
        (λ r e.
          if_trace (Quiet t) (is_final r) _ _ _ (record { broadcasts = refl; nonces = refl })
            (Quiet-trans (record { broadcasts = refl; nonces = refl })
              (poll-Quiet n (j + 1) (some r) msg (tx_status tx.hash ∷ t))))
        (λ x e.
          Quiet-trans (record { broadcasts = refl; nonces = refl })
            (poll-Quiet n (j + 1) result x.message (slept ((j + 1) * 500) ∷ tx_status tx.hash ∷ t)))

abbrev AtMost : ℕ → Trace → Trace → Type 0
AtMost k t t' = count_broadcasts t' ≤ count_broadcasts t + k

conclude_trace :
    (P : Trace → Type 0) (loop : Send → Io NearEvent (Outcome TxResult × ℕ)) (v : Verdict)
    (t : Trace)
    → P t
    → ((s : Send) → P (loop s t).1)
    → P (conclude loop v t).1
unfolding conclude
conclude_trace P loop (again s) t p q = q s
conclude_trace P loop (finished r k) t p q = p
conclude_trace P loop (failed m k) t p q = p
conclude_trace P loop (crashed k) t p q = p

module _ (node : NearNode) where
  send_txn_bound :
      (tx : SignedTx) (s s' : Send) (t : Trace) → AtMost 1 t (send_txn node tx s s' t).1
  unfolding send_txn
  send_txn_bound tx s s' t =
      try_trace (AtMost 1 t) (call (broadcast tx) (node.send tx)) _ _ t (omega arith)
        (λ _ e. omega arith) (λ _ e. omega arith)

  sign_and_send_bound : (s : Send) (t : Trace) → AtMost 1 t (sign_and_send node s t).1
  unfolding sign_and_send
  sign_and_send_bound s t =
      try_trace (AtMost 1 t) (call node_status node.status) _ _ t (omega arith)
        (λ h _.
          try_trace (AtMost 1 t) (call (signing (s.nonce + 1) h) (node.sign (s.nonce + 1) h)) _ _ _
            (omega arith) (λ tx _. send_txn_bound tx _ _ _) (λ _ _. omega arith))
        (λ _ _. omega arith)

  attempt_send_bound : (s : Send) (t : Trace) → AtMost 1 t (attempt_send node s t).1
  unfolding attempt_send
  attempt_send_bound s t =
      if_trace (AtMost 1 t) s.resend_last _ _ t (resend_bound s.last_tx) (sign_and_send_bound s t)
    where
      resend_bound : (o : Option SignedTx) → AtMost 1 t (resend node o s t).1
      resend_bound none = omega arith
      resend_bound (some tx) = send_txn_bound tx _ _ t

  pub after_send-Quiet :
      (c : Option JsError) (s : Send) (t : Trace) → Quiet t (after_send node c s t).1
  unfolding after_send await_result
  after_send-Quiet (some e) s t = record { broadcasts = refl; nonces = refl }
  after_send-Quiet none s t = waits s.last_tx
    where
      waits : (o : Option SignedTx) → Quiet t (await_result node s o t).1
      waits none = record { broadcasts = refl; nonces = refl }
      waits (some tx) =
          bind_trace (Quiet t) (poll node retry_tx_status 0 tx none s.error_msg) _ t
            (poll-Quiet node tx retry_tx_status 0 none s.error_msg t)
            (λ r _. poll-Quiet node tx retry_tx_status 0 none s.error_msg t)

  round_bound : (s : Send) (t : Trace) → AtMost 1 t (round node s t).1
  unfolding round
  round_bound s t =
      bind_trace (AtMost 1 t) (attempt_send node s) _ t (attempt_send_bound s t) (λ (s', c) _.
        omega (
          arith,
          attempt_send_bound s t,
          (after_send-Quiet c s' (attempt_send node s t).1).broadcasts,
        ))

  send_loop_bound : (n : ℕ) (s : Send) (t : Trace) → AtMost n t (send_loop node n s t).1
  unfolding send_loop
  send_loop_bound zero s t = omega arith
  send_loop_bound (suc n) s t =
      bind_trace (AtMost (suc n) t) (round node s) _ t (omega (arith, round_bound s t)) (λ v _.
        conclude_trace (AtMost (suc n) t) (send_loop node n) v _ (omega (arith, round_bound s t))
          (λ s'. omega (arith, round_bound s t, send_loop_bound n s' (round node s t).1)))

  -- One call hands at most ten transactions to the node, however the node answers.
  pub sign_and_send_bounded :
      (nonce : ℕ) (t : Trace)
      → count_broadcasts (sign_and_send_transaction node nonce t).1 ≤ count_broadcasts t + 10
  unfolding sign_and_send_transaction
  sign_and_send_bounded nonce t = send_loop_bound 10 (begin nonce) t
