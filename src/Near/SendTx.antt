-- ===== src/Near/SendTx.antt =====
-- `signAndSendTransaction` of utils/robust.js.
pub mod Bounds
pub mod Nonces
pub mod Results
use rainbow_bridge_cli.Base.{
  ℕ, zero, suc, ◌+◌, ◌*◌, String, Bool, true, false, Option, none, some, includes, if◌then◌else◌,
}
use rainbow_bridge_cli.Base.Io.{
  JsError, Outcome, ok, err, Io, js_error, pure, throw, call, emit, try, ◌>>=◌, ◌>>◌,
}
use rainbow_bridge_cli.Near.Node.{
  SignedTx, TxResult, is_defined, is_final, NearEvent, node_status, signing, broadcast, tx_status,
  slept, NearNode,
}

-- The variables of the loop, and the nonce of the access key, which the caller shares.
pub record Send : Type 0 where
  pub error_msg : String
  pub resend_last : Bool
  pub last_tx : Option SignedTx
  pub nonce : ℕ

abbrev pub begin : ℕ → Send
begin nonce = record { error_msg = ""; resend_last = false; last_tx = none; nonce = nonce }

abbrev pub retry_send_tx : ℕ
retry_send_tx = 10

abbrev pub retry_tx_status : ℕ
retry_tx_status = 10

abbrev pub undefined_includes : JsError
undefined_includes = record (js_error "Cannot read property 'includes' of undefined") {
  name = "TypeError";
}

-- What a round decides, with the nonce that it leaves.
pub data Verdict : Type 0 where
  finished : TxResult → ℕ → Verdict
  -- `continue`
  again : Send → Verdict
  -- `break`, with the message that is thrown
  failed : String → ℕ → Verdict
  -- errorMsg.includes, where errorMsg is undefined
  crashed : ℕ → Verdict

judge_failure : Option String → Send → Verdict
judge_failure none s = crashed s.nonce
judge_failure (some m) s =
    if includes m "Transaction nonce" then again (record s { error_msg = m }) else failed m s.nonce

judge_result : TxResult → Send → Verdict
unfolding judge_failure
judge_result r s =
    if is_defined r.success_value then finished r s.nonce else judge_failure r.failure s

-- What follows the inner loop.
judge : Send → Option TxResult × String → Verdict
unfolding judge_result
judge s (none, msg) = again (record s { error_msg = msg; resend_last = true })
judge s (some r, msg) = judge_result r (record s { error_msg = msg })

-- After a round: `loop` is what follows in the outer loop.
conclude :
    (Send → Io NearEvent (Outcome TxResult × ℕ)) → Verdict → Io NearEvent (Outcome TxResult × ℕ)
conclude loop (finished r nonce) = pure (ok r, nonce)
conclude loop (again s) = loop s
conclude loop (failed m nonce) = pure (err (js_error m), nonce)
conclude loop (crashed nonce) = pure (err undefined_includes, nonce)

module _ (node : NearNode) where
  -- await sendTxnAsync()
  send_txn : SignedTx → Send → Send → Io NearEvent (Send × Option JsError)
  send_txn tx sent not_sent =
      try (call (broadcast tx) (node.send tx)) (λ _. pure (sent, none))
        (λ e. pure (not_sent, some e))

  resend : Option SignedTx → Send → Io NearEvent (Send × Option JsError)
  unfolding send_txn
  resend none s = pure (s, some (js_error "sendTxnAsync is not a function"))
  resend (some tx) s = send_txn tx (record s { resend_last = false }) s

  sign_and_send : Send → Io NearEvent (Send × Option JsError)
  unfolding send_txn
  sign_and_send s =
      try (call node_status node.status)
        (λ block_hash.
          let s' = record s { nonce = s.nonce + 1 } in
          try (call (signing (s.nonce + 1) block_hash) (node.sign (s.nonce + 1) block_hash))
            (λ tx. send_txn tx (record s' { last_tx = some tx }) (record s' { last_tx = some tx }))
            (λ e. pure (s', some e)))
        (λ e. pure (s, some e))

  -- The first `try` of a round: the state that it leaves, and the exception that it caught.
  unfoldable pub attempt_send : Send → Io NearEvent (Send × Option JsError)
  unfolding resend sign_and_send
  attempt_send s = if s.resend_last then resend s.last_tx s else sign_and_send s

  -- The inner loop: the last result and the last error message.
  unfoldable pub poll :
      ℕ → ℕ → SignedTx → Option TxResult → String → Io NearEvent (Option TxResult × String)
  poll zero j tx result msg = pure (result, msg)
  poll (suc n) j tx result msg =
      try (call (tx_status tx.hash) (node.tx_status tx.hash))
        (λ r.
          let rest = poll n (j + 1) tx (some r) msg in
          if is_final r then pure (some r, msg) else rest)
        (λ e. do emit (slept ((j + 1) * 500)); poll n (j + 1) tx result e.message)

  await_result : Send → Option SignedTx → Io NearEvent Verdict
  await_result s none = pure (again s)
  await_result s (some tx) = do r ← poll retry_tx_status 0 tx none s.error_msg; pure (judge s r)

  pub after_send : Option JsError → Send → Io NearEvent Verdict
  after_send (some e) s = do emit (slept 500); pure (again (record s { error_msg = e.message }))
  after_send none s = await_result s s.last_tx

  -- One round of the outer loop.
  pub round : Send → Io NearEvent Verdict
  round s = do (s', caught) ← attempt_send s; after_send caught s'

  -- The outcome, beside the nonce that it leaves in the access key.
  pub send_loop : ℕ → Send → Io NearEvent (Outcome TxResult × ℕ)
  unfolding conclude
  send_loop zero s = pure (err (js_error s.error_msg), s.nonce)
  send_loop (suc n) s = do v ← round s; conclude (send_loop n) v

  unfoldable pub sign_and_send_transaction : ℕ → Io NearEvent (Outcome TxResult × ℕ)
  unfolding send_loop round attempt_send after_send await_result poll judge
  sign_and_send_transaction nonce = send_loop retry_send_tx (begin nonce)
