-- ===== src/Near/SendTx/Results.antt =====
-- What `signAndSendTransaction` returns, and what it does after each kind of answer.
use rainbow_bridge_cli.Base.{
  ℕ, zero, suc, ◌+◌, ◌≡◌, refl, String, true, false, Option, none, some, includes, ◌∷◌, Bool-cases,
  inl, inr,
}
use rainbow_bridge_cli.Base.Io.{JsError, Outcome, ok, resolve, reject, call}
use rainbow_bridge_cli.Base.Io.Rules.{try_trace, Returns, bind-Returns, bind_after, Returns-ok}
use rainbow_bridge_cli.Near.Node.{
  SignedTx, TxResult, is_defined, Trace, node_status, signing, broadcast, slept, NearNode,
  signed_nonces,
}
use rainbow_bridge_cli.Near.SendTx.{
  Send, resend, sign_and_send, Verdict, finished, again, failed, crashed, judge_failure, poll,
  attempt_send, await_result, after_send, judge, round, conclude, send_loop,
  sign_and_send_transaction, retry_tx_status, begin,
}

-- A round that ends the call with a result has one with a `SuccessValue`.
abbrev Succeeds : Verdict → Type 0
Succeeds (finished r k) = is_defined r.success_value ≡ true
Succeeds _ = Unit

abbrev pub HasValue : Outcome TxResult × ℕ → Type 0
HasValue (ok r, k) = is_defined r.success_value ≡ true
HasValue _ = Unit

judge-Succeeds : (s : Send) (r : Option TxResult × String) → Succeeds (judge s r)
unfolding judge
judge-Succeeds s (none, msg) = tt
judge-Succeeds s (some r, msg) = elim (Bool-cases (is_defined r.success_value)) [
  | inl p ↦ rw p p
  | inr p ↦ rw p (fails r.failure)
]
  where
    fails : (o : Option String) → Succeeds (judge_failure o (record s { error_msg = msg }))
    fails none = tt
    fails (some m) = elim (Bool-cases (includes m "Transaction nonce")) [
      | inl p ↦ rw p tt
      | inr p ↦ rw p tt
    ]

module _ (node : NearNode) where
  round-Succeeds : (s : Send) (t : Trace) → Returns (λ v u. Succeeds v) (round node s t)
  unfolding round after_send await_result
  round-Succeeds s t =
      bind-Returns (λ v u. Succeeds v) (attempt_send node s) _ t
        λ (s', c) e. sent s' c (attempt_send node s t).1
    where
      waits :
          (s' : Send) (o : Option SignedTx) (u : Trace)
          → Returns (λ v u. Succeeds v) (await_result node s' o u)
      waits s' none u = tt
      waits s' (some tx) u =
          bind-Returns (λ v u. Succeeds v) (poll node retry_tx_status 0 tx none s'.error_msg) _ u
            λ r e. judge-Succeeds s' r

      sent :
          (s' : Send) (c : Option JsError) (u : Trace)
          → Returns (λ v u. Succeeds v) (after_send node c s' u)
      sent s' none u = waits s' s'.last_tx u
      sent s' (some e) u = tt

  send_loop-HasValue :
      (n : ℕ) (s : Send) (t : Trace) → Returns (λ r u. HasValue r) (send_loop node n s t)
  unfolding send_loop
  send_loop-HasValue zero s t = tt
  send_loop-HasValue (suc n) s t =
      bind_after (λ v u. Succeeds v) (λ r u. HasValue r) (round node s) _ t (round-Succeeds s t)
        λ v u h. concluded v u h (λ s'. send_loop-HasValue n s' u)
    where
      concluded :
          (v : Verdict) (u : Trace)
          → Succeeds v
          → ((s' : Send) → Returns (λ r u. HasValue r) (send_loop node n s' u))
          → Returns (λ r u. HasValue r) (conclude (send_loop node n) v u)
      concluded (again s') u h k = k s'
      concluded (finished r m) u h k = h
      concluded (failed x m) u h k = tt
      concluded (crashed m) u h k = tt

  pub sign_and_send-HasValue :
      (nonce : ℕ) (t : Trace) → Returns (λ r u. HasValue r) (sign_and_send_transaction node nonce t)
  unfolding sign_and_send_transaction
  sign_and_send-HasValue nonce t = send_loop-HasValue 10 (begin nonce) t

  -- A result that the call returns has a `SuccessValue`.
  pub sign_and_send-success :
      (nonce nonce' : ℕ) (t u : Trace) (r : TxResult)
      → sign_and_send_transaction node nonce t ≡ (ok (ok r, nonce'), u)
      → is_defined r.success_value ≡ true
  sign_and_send-success nonce nonce' t u r e =
      Returns-ok (λ r u. HasValue r) (sign_and_send-HasValue nonce t) e

  -- If a round has sent `tx` and no poll of its status has brought a result, then the round asks for
  -- another one with the same nonce, and the next round hands `tx` itself to the node again and does
  -- nothing else before it polls.
  pub resends_unanswered :
      (s s' : Send) (t u v : Trace) (tx : SignedTx) (msg : String)
      → attempt_send node s t ≡ (ok (s', none), u)
      → s'.last_tx ≡ some tx
      → poll node retry_tx_status 0 tx none s'.error_msg u ≡ (ok (none, msg), v)
      → (s'' : Send) × (round node s t ≡ (ok (again s''), v))
        × (s''.nonce ≡ s'.nonce)
        × ((attempt_send node s'' v).1 ≡ broadcast tx ∷ v)
  resends_unanswered s s' t u v tx msg sent last unanswered = (
    record s' { error_msg = msg; resend_last = true },
    (unfold round after_send await_result judge in rw sent (rw last (rw unanswered))),
    refl,
    (unfold attempt_send resend in
        rw last (
          try_trace (λ w. w ≡ broadcast tx ∷ v) (call (broadcast tx) (node.send tx)) _ _ v refl
            (λ _ _. refl) (λ _ _. refl))),
  )

  -- If handing over a transaction fails, then the next round does not hand it over again: if the node
  -- tells its status, another transaction is signed, with the next nonce.
  pub resigns_after_failed_broadcast :
      (s : Send) (t : Trace) (block_hash next_hash : String) (tx : SignedTx) (e : JsError)
      → s.resend_last ≡ false
      → node.status (node_status ∷ t) ≡ resolve block_hash
      → node.sign (s.nonce + 1) block_hash (signing (s.nonce + 1) block_hash ∷ node_status ∷ t)
        ≡ resolve tx
      → node.send tx (broadcast tx ∷ signing (s.nonce + 1) block_hash ∷ node_status ∷ t) ≡ reject e
      → node.status (
          node_status
          ∷ slept 500
          ∷ broadcast tx
          ∷ signing (s.nonce + 1) block_hash
          ∷ node_status
          ∷ t)
        ≡ resolve next_hash
      → (s' : Send) × (u : Trace) × (round node s t ≡ (ok (again s'), u))
        × (signed_nonces (attempt_send node s' u).1
            ≡ (s.nonce + 1 + 1) ∷ (s.nonce + 1) ∷ signed_nonces t)
  resigns_after_failed_broadcast s t block_hash next_hash tx e fresh status sign send next = (
    record s { error_msg = e.message; last_tx = some tx; nonce = s.nonce + 1 },
    slept 500 ∷ broadcast tx ∷ signing (s.nonce + 1) block_hash ∷ node_status ∷ t,
    (unfold round after_send attempt_send sign_and_send in
        rw fresh (rw status (rw sign (rw send)))),
    (unfold attempt_send sign_and_send in
        rw fresh (
          rw next (
            try_trace (λ w. signed_nonces w ≡ (s.nonce + 1 + 1) ∷ (s.nonce + 1) ∷ signed_nonces t)
              (call (signing (s.nonce + 1 + 1) next_hash) (node.sign (s.nonce + 1 + 1) next_hash)) _
              _ _ refl
              (λ tx' _.
                try_trace
                  (λ w. signed_nonces w ≡ (s.nonce + 1 + 1) ∷ (s.nonce + 1) ∷ signed_nonces t)
                  (call (broadcast tx') (node.send tx')) _ _ _ refl (λ _ _. refl) (λ _ _. refl))
              (λ _ _. refl)))),
  )
