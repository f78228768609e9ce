-- ===== src/FromNear/Stages.antt =====
-- In which order testing/transfer-eth-erc20/from-near.js finishes its stages, and with what.
use rainbow_bridge_cli.Base.{ℕ, ◌<◌, ◌≡◌, String, true, Option, none, some, [], ◌∷◌}
use rainbow_bridge_cli.Base.Io.{
  Outcome, ok, err, exit, hangs, out_of_fuel, Reply, resolve, Io, call, catch, ◌>>=◌,
}
use rainbow_bridge_cli.Base.Io.Within.{within, within_trace, within-Extends, within-Returns, own}
use rainbow_bridge_cli.Base.Bytes.{Bytes}
use rainbow_bridge_cli.Base.Io.Rules.{
  bind_trace, catch_trace, Returns, Returns-at, Returns-same, bind-Returns,
}
use rainbow_bridge_cli.Retry.Traces.{backoff_trace}
use rainbow_bridge_cli.Near.Node.{TxResult, is_defined}
use rainbow_bridge_cli.Near.Node
use rainbow_bridge_cli.Near.SendTx.{sign_and_send_transaction}
use rainbow_bridge_cli.Near.SendTx.Results.{HasValue, sign_and_send-HasValue}
use rainbow_bridge_cli.RobustWeb3.{
  Tx, Web3Event, get_block_number, get_gas_price, set_provider, get_block, get_receipt,
  get_transaction_count, view_call, send_transaction, Delays, robust_block,
}
use rainbow_bridge_cli.RobustWeb3.Sends.{Sendless, robust_block-Sendless}
use rainbow_bridge_cli.Borshify.{Codec}
use rainbow_bridge_cli.Borshify.OutcomeProof.{OutcomeProof, borshify_outcome_proof}
use rainbow_bridge_cli.FromNear.Log.{
  TransferLog, IdType, NearBlock, transaction, receipt, empty, withdrawn, found, waited, proved,
}
use rainbow_bridge_cli.FromNear.Events.{
  TransferEvent, recorded, near, web3, find_access_key, get_balance, paused, ClientState, Trace,
  World, Args, near_part, web3_part,
}
use rainbow_bridge_cli.FromNear.{
  locate_receipt, read_balance, call_withdraw, withdraw, record_withdraw, withdraw_with, log_of,
  show_retry_and_exit,
}

module _ {D : Type 0} (w : World D) where
  -- The node's answer to the request of a proof.
  abbrev pub proof_of : IdType → String → String → Trace D → Reply OutcomeProof
  proof_of transaction id hash = w.transaction_proof id hash
  proof_of receipt id hash = w.receipt_proof id hash

  -- signAndSendTransaction has ended so.
  abbrev pub Signed : Outcome TxResult × ℕ → Type 0
  Signed r = (nonce : ℕ) × (t : Node.Trace) × ((sign_and_send_transaction w.near nonce t).0 ≡ ok r)

  -- The node has given this block for a hash, or as its last final one.
  abbrev pub GivesNear : Option String → NearBlock → Type 0
  GivesNear hash b = (t : Trace D) × (w.near_block hash t ≡ resolve b)

  -- The bridge contract has had its head at this height, and has given the hash for it.
  pub record IsHead (hash : String) (height : ℕ) : Type 0 where
    pub state : ClientState
    pub at_state : Trace D
    pub state_given : w.bridge_state at_state ≡ resolve state
    pub at_height : state.current_height ≡ height
    pub at_hash : Trace D
    pub hash_given : w.block_hash height at_hash ≡ resolve hash

  -- How the log may change: by one stage, with what that stage has found out. The result of the
  -- transaction comes first; then its receipt, the hash of that receipt's block, and a final block
  -- above it; then the hash and the height of a head of the bridge contract above that block; and
  -- then the node's proof of the receipt against this hash, beside the height.
  pub data Step : TransferLog → TransferLog → Type 0 where
    withdrew :
        {tx : TxResult} (nonce : ℕ)
        → is_defined tx.success_value ≡ true
        → Signed (ok tx, nonce)
        → Step empty (withdrawn tx)
    located :
        {tx : TxResult} {id hash : String} {b : NearBlock} (of_receipt : NearBlock)
        → locate_receipt tx ≡ ok (id, hash)
        → GivesNear (some hash) of_receipt
        → GivesNear none b
        → of_receipt.height < b.height
        → Step (withdrawn tx) (found hash id b receipt)
    available :
        {h hash i : String} {b : NearBlock} {k : IdType} {m : ℕ}
        → b.height < m
        → IsHead hash m
        → Step (found h i b k) (waited hash k i m)
    proven :
        {hash i : String} {k : IdType} {m : ℕ} {p : OutcomeProof} (t : Trace D)
        → proof_of k i hash t ≡ resolve p
        → Step (waited hash k i m) (proved p m)

module _ {D : Type 0} (delays : Delays D) (w : World D) (codec : Codec) (args : Args)
    (before : TransferLog) (n : ℕ) where
  abbrev pub log : Trace D → TransferLog
  log = log_of delays w codec args before n

  -- While the log is `l`, the transaction unlocks what is proved there: it goes to the locker, and
  -- calls `unlockToken` with the proof and the height of the log.
  pub data Unlocks : TransferLog → Tx → Type 0 where
    unlocks :
        {p : OutcomeProof} {m : ℕ} {tx : Tx} (proof : Bytes)
        → borshify_outcome_proof codec p ≡ ok proof
        → args.unlock_call proof m ≡ ok tx.input
        → tx.to ≡ args.locker
        → tx.sender ≡ args.eth_account
        → Unlocks (proved p m) tx

  -- Every log that was written is one step after the log before it, NEAR transactions were only signed
  -- and sent while the log was empty, and transactions on Ethereum only while it held a proof, which
  -- they unlock.
  abbrev pub Steps : Trace D → Type 0
  Steps [] = Unit
  Steps (recorded l ∷ t) = Step w (log t) l × Steps t
  Steps (near e ∷ t) = (log t ≡ empty) × Steps t
  Steps (web3 (send_transaction tx) ∷ t) = Unlocks (log t) tx × Steps t
  Steps (_ ∷ t) = Steps t

  -- It is so, and the log is `l`.
  abbrev pub At : TransferLog → Trace D → Type 0
  At l t = (log t ≡ l) × Steps t

  module _ (l : TransferLog) where
    pub read_balance-At : (t : Trace D) → At l t → At l (read_balance delays w codec args t).1
    read_balance-At t h =
        backoff_trace delays.product delays.wait paused (At l) (call get_balance w.balance) 10
          delays.delay delays.wait t (λ u g. g) (λ d u g. g) h

    web3-At : (f : Web3Event D) (u : Trace D) → Sendless f → At l u → At l (web3 f ∷ u)
    web3-At (send_transaction tx) u q g = absurd q
    web3-At get_block_number u q g = g
    web3-At get_gas_price u q g = g
    web3-At set_provider u q g = g
    web3-At (get_block b) u q g = g
    web3-At (get_receipt r) u q g = g
    web3-At (get_transaction_count a) u q g = g
    web3-At (view_call tx) u q g = g
    web3-At (Web3Event.slept d) u q g = g

    pub robust_block-At :
        (b : Option ℕ) (t : Trace D)
        → At l t
        → At l (within web3_part (robust_block delays w.eth b) t).1
    robust_block-At b t h =
        within-Extends web3_part Sendless (At l) (robust_block delays w.eth b) t
          (robust_block-Sendless delays w.eth b (own web3_part t)) web3-At h

    pub guarded :
        (m : Io (TransferEvent D) (Unit {0})) (t : Trace D)
        → Steps (m t).1
        → Steps (catch m (show_retry_and_exit delays w codec args) t).1
    guarded m t h = catch_trace Steps m (show_retry_and_exit delays w codec args) t h (λ e _. h)

  call_withdraw-At : (t : Trace D) → At empty t → At empty (call_withdraw delays w codec args t).1
  call_withdraw-At t h =
      bind_trace (At empty) (call find_access_key w.access_key)
        (λ nonce. within near_part (sign_and_send_transaction w.near nonce)) t h
        (λ nonce _.
          within_trace near_part (At empty) (sign_and_send_transaction w.near nonce)
            (find_access_key ∷ t) (λ f u g. (g.0, g)) h)

  -- What a transaction has ended with, and a `SuccessValue` if there is a result.
  abbrev Value : Outcome TxResult × ℕ → Type 0
  Value r = HasValue r × Signed w r

  call_withdraw-Value :
      (t : Trace D) → Returns (λ r u. Value r) (call_withdraw delays w codec args t)
  call_withdraw-Value t =
      bind-Returns (λ r u. Value r) (call find_access_key w.access_key) _ t
        (λ nonce _. within-Returns near_part Value (sign_and_send_transaction w.near nonce) _ (
          Returns-same (λ r u. Value r) (sign_and_send_transaction w.near nonce _)
            (λ r e. (
              Returns-at (λ r u. HasValue r) (sign_and_send_transaction w.near nonce _)
                  (sign_and_send-HasValue w.near nonce _) e,
              (nonce, _, e),
            ))))

  record_withdraw-Steps :
      (r : Outcome TxResult × ℕ) (u : Trace D)
      → At empty u
      → Value r
      → Steps (record_withdraw delays w codec args r u).1
  record_withdraw-Steps (ok tx, nonce) u (e, s) v = (rw e (withdrew nonce v.0 v.1), s)
  record_withdraw-Steps (err x, nonce) u (e, s) v = s
  record_withdraw-Steps (exit k, nonce) u (e, s) v = s
  record_withdraw-Steps (hangs, nonce) u (e, s) v = s
  record_withdraw-Steps (out_of_fuel, nonce) u (e, s) v = s

  pub withdraw-Steps : (t : Trace D) → At empty t → Steps (withdraw delays w codec args t).1
  unfolding withdraw
  withdraw-Steps t h =
      guarded empty (read_balance delays w codec args >>= withdraw_with delays w codec args) t (
        bind_trace Steps (read_balance delays w codec args) (withdraw_with delays w codec args) t
          read.1
          λ old_balance _.
            bind_trace Steps (call_withdraw delays w codec args)
              (record_withdraw delays w codec args) middle (call_withdraw-At middle read).1
              λ r e.
                record_withdraw-Steps r (call_withdraw delays w codec args middle).1
                  (call_withdraw-At middle read)
                  (Returns-at (λ r u. Value r) (call_withdraw delays w codec args middle)
                    (call_withdraw-Value middle) e))
    where
      middle : Trace D
      middle = (read_balance delays w codec args t).1

      read : At empty middle
      read = read_balance-At empty t h
