-- ===== src/Near/Async.antt =====
-- `signAndSendTransactionAsync` and `txnStatus` of utils/borsh.js: a transaction is handed to the
-- node, and its status is asked for later.
pub mod Laws
use rainbow_bridge_cli.Base.{ℕ, zero, suc, ◌+◌, String, Option, none, some, ◌<>◌, if◌then◌else◌}
use rainbow_bridge_cli.Base.Io.{
  JsError, js_error, Outcome, ok, err, Io, pure, throw, call, emit, try, ◌>>=◌, ◌>>◌,
}
use rainbow_bridge_cli.Near.Node.{
  SignedTx, TxResult, is_final, is_defined, NearEvent, node_status, signing, broadcast, tx_status,
  slept, NearNode,
}

-- new Error(JSON.stringify(status.Failure)), where JSON.stringify(undefined) is undefined
abbrev pub failure_error : Option String → JsError
failure_error none = js_error ""
failure_error (some m) = js_error m

-- The error of a transaction without a status. The seconds in its message are left out.
abbrev pub unfinished : String → JsError
unfinished tx_hash = js_error ("Transaction " <> (tx_hash <> " didn't finish"))

module _ (node : NearNode) where
  abbrev pub broadcast_signed : ℕ → SignedTx → Io NearEvent (Outcome String × ℕ)
  broadcast_signed nonce tx =
      try (call (broadcast tx) (node.send tx)) (λ _. pure (ok tx.hash, nonce))
        (λ e. pure (err e, nonce))

  abbrev pub sign_with : ℕ → String → Io NearEvent (Outcome String × ℕ)
  sign_with nonce block_hash =
      try (call (signing (nonce + 1) block_hash) (node.sign (nonce + 1) block_hash))
        (broadcast_signed (nonce + 1)) (λ e. pure (err e, nonce + 1))

  -- signAndSendTransactionAsync: the transaction's hash or the exception, beside the nonce that is
  -- left in the access key.
  unfoldable pub sign_and_send_async : ℕ → Io NearEvent (Outcome String × ℕ)
  sign_and_send_async nonce =
      try (call node_status node.status) (sign_with nonce) (λ e. pure (err e, nonce))

  -- The loop of `txnStatus`: the last result.
  unfoldable pub poll_status : ℕ → String → ℕ → Option TxResult → Io NearEvent (Option TxResult)
  poll_status zero tx_hash wait result = pure result
  poll_status (suc n) tx_hash wait result =
      try (call (tx_status tx_hash) (node.tx_status tx_hash))
        (λ r.
          let rest = poll_status n tx_hash wait (some r) in
          if is_final r then pure (some r) else rest)
        (λ e. emit (slept wait) >> poll_status n tx_hash wait result)

  abbrev pub success_or_throw : String → Option TxResult → Io NearEvent TxResult
  success_or_throw tx_hash none = throw (unfinished tx_hash)
  success_or_throw tx_hash (some r) =
      if is_defined r.success_value then pure r else throw (failure_error r.failure)

  -- txnStatus
  unfoldable pub txn_status : String → ℕ → ℕ → Io NearEvent TxResult
  txn_status tx_hash retries wait =
      poll_status retries tx_hash wait none >>= success_or_throw tx_hash
