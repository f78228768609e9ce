-- ===== src/Examples/Near.antt =====
-- Runs of `signAndSendTransaction` and of the retry loops against fixed nodes.
use rainbow_bridge_cli.Base.{ℕ, ◌*◌, ◌≤◌, [], ◌∷◌, none, some, true, ◌≡◌, refl, inl, arith}
use rainbow_bridge_cli.Base.Io.{js_error, ok, err, resolve, reject, Io}
use rainbow_bridge_cli.Retry.{backoff}
use rainbow_bridge_cli.Retry.Attempts.{backoff_attempts, FailsSlowly, here}
use rainbow_bridge_cli.Near.Node.{
  SignedTx, TxResult, is_defined, Trace, node_status, signing, broadcast, tx_status, slept,
  NearNode, count_broadcasts,
}
use rainbow_bridge_cli.Near.SendTx.{
  Send, begin, attempt_send, poll, round, again, sign_and_send_transaction,
}
use rainbow_bridge_cli.Near.SendTx.Bounds.{sign_and_send_bounded}
use rainbow_bridge_cli.Near.SendTx.Nonces.{sign_and_send-Fresh, Fresh}
use rainbow_bridge_cli.Near.SendTx.Results.{sign_and_send-success, resends_unanswered}

abbrev pub tx : SignedTx
tx = record { hash = "h"; encoded = [] }

abbrev pub done : TxResult
done = record { receipt_ids = []; receipts_outcome = []; success_value = some ""; failure = none }

-- A node that runs each transaction at once.
abbrev pub prompt : NearNode
prompt = record {
  status = λ _. resolve "b";
  sign = λ _ _ _. resolve tx;
  send = λ _ _. resolve tt;
  tx_status = λ _ _. resolve done;
}

abbrev pub prompt_trace : Trace
prompt_trace = tx_status "h" ∷ broadcast tx ∷ signing 6 "b" ∷ node_status ∷ []

sign_and_send_bounded_example : count_broadcasts (sign_and_send_transaction prompt 5 []).1 ≤ 10
sign_and_send_bounded_example = sign_and_send_bounded prompt 5 []

sign_and_send-Fresh_example : Fresh 5 [] 6 prompt_trace
unfolding sign_and_send_transaction
sign_and_send-Fresh_example = sign_and_send-Fresh prompt 5 [] prompt_trace (ok done) 6 refl

sign_and_send-success_example : is_defined (some "") ≡ true
unfolding sign_and_send_transaction
sign_and_send-success_example = sign_and_send-success prompt 5 6 [] prompt_trace done refl

-- A node that takes transactions and never tells their status.
abbrev mute : NearNode
mute = record prompt { tx_status = λ _ _. reject (js_error "unknown") }

abbrev sent : Trace
sent = broadcast tx ∷ signing 6 "b" ∷ node_status ∷ []

abbrev after : Send
after = record (begin 6) { last_tx = some tx }

abbrev polled : Trace
polled =
    slept 5000
    ∷ tx_status "h"
    ∷ slept 4500
    ∷ tx_status "h"
    ∷ slept 4000
    ∷ tx_status "h"
    ∷ slept 3500
    ∷ tx_status "h"
    ∷ slept 3000
    ∷ tx_status "h"
    ∷ slept 2500
    ∷ tx_status "h"
    ∷ slept 2000
    ∷ tx_status "h"
    ∷ slept 1500
    ∷ tx_status "h"
    ∷ slept 1000
    ∷ tx_status "h"
    ∷ slept 500
    ∷ tx_status "h"
    ∷ sent

resends_unanswered_example :
    (s'' : Send) × (round mute (begin 5) [] ≡ (ok (again s''), polled))
    × (s''.nonce ≡ 6)
    × ((attempt_send mute s'' polled).1 ≡ broadcast tx ∷ polled)
unfolding attempt_send poll
resends_unanswered_example =
    resends_unanswered mute (begin 5) after [] sent polled tx "unknown" refl refl refl

-- An action that fails on its first call.
data Tick : Type 0 where
  called paused : Tick

flaky : Io Tick ℕ
flaky [] = (err (js_error "busy"), called ∷ [])
flaky (e ∷ t) = (ok 3, called ∷ e ∷ t)

pause : ℕ → Tick
pause d = paused

backoff_attempts_example :
    backoff ◌*◌ 2 pause 5 flaky 500 2 [] ≡ (ok 3, called ∷ pause 500 ∷ called ∷ [])
unfolding flaky
backoff_attempts_example =
    backoff_attempts ◌*◌ 2 pause flaky 5 (ok 3) (FailsSlowly.again (js_error "busy") refl here)
      (omega arith) (inl tt) refl
