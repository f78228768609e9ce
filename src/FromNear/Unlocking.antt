-- ===== src/FromNear/Unlocking.antt =====
-- What the last stage of testing/transfer-eth-erc20/from-near.js sends.
use rainbow_bridge_cli.Base.{ℕ, ◌≡◌, ◌∷◌}
use rainbow_bridge_cli.Base.Bytes.{Bytes}
use rainbow_bridge_cli.Base.Io.{ok, pure, call, lift, ◌>>=◌, ◌>>◌}
use rainbow_bridge_cli.Base.Io.Within.{within-Extends, own}
use rainbow_bridge_cli.Base.Io.Rules.{bind_trace, catch_trace}
use rainbow_bridge_cli.RobustWeb3.{
  Web3Event, get_block_number, get_gas_price, set_provider, get_block, get_receipt,
  get_transaction_count, view_call, send_transaction, Delays,
}
use rainbow_bridge_cli.RobustWeb3.Sends.{Asks, call_contract-Asks}
use rainbow_bridge_cli.RobustWeb3.CallContract.{call_contract}
use rainbow_bridge_cli.Borshify.{Codec}
use rainbow_bridge_cli.Borshify.OutcomeProof.{OutcomeProof, borshify_outcome_proof}
use rainbow_bridge_cli.FromNear.Log.{TransferLog, proved}
use rainbow_bridge_cli.FromNear.Events.{
  web3, prove_outcome, gas_price, Trace, World, Args, web3_part,
}
use rainbow_bridge_cli.FromNear.{
  unlock, unlock_with, send_unlock, call_unlock, read_erc20, unlock_request, show_retry_and_exit,
}
use rainbow_bridge_cli.FromNear.Stages
use rainbow_bridge_cli.FromNear.Stages.{unlocks, withdraw-Steps}

module _ {D : Type 0} (delays : Delays D) (w : World D) (codec : Codec) (args : Args)
    (before : TransferLog) (n : ℕ) where
  module _ (p : OutcomeProof) (m : ℕ) where
    -- The steps are right, and the log is the proof.
    abbrev AtProof : Trace D → Type 0
    AtProof = Stages.At delays w codec args before n (proved p m)

    web3-AtProof :
        (proof : Bytes) (gas : ℕ)
        → borshify_outcome_proof codec p ≡ ok proof
        → (f : Web3Event D) (u : Trace D) → Asks (unlock_request delays w codec args proof m gas) f
        → AtProof u
        → AtProof (web3 f ∷ u)
    web3-AtProof proof gas e (send_transaction tx) u q (at, s) =
        (at, (rw at (unlocks proof e q.input q.to q.sender), s))
    web3-AtProof proof gas e get_block_number u q g = g
    web3-AtProof proof gas e get_gas_price u q g = g
    web3-AtProof proof gas e set_provider u q g = g
    web3-AtProof proof gas e (get_block b) u q g = g
    web3-AtProof proof gas e (get_receipt r) u q g = g
    web3-AtProof proof gas e (get_transaction_count a) u q g = g
    web3-AtProof proof gas e (view_call tx) u q g = g
    web3-AtProof proof gas e (Web3Event.slept d) u q g = g

    send_unlock-AtProof :
        (proof : Bytes) (old_balance : ℕ) (u : Trace D)
        → borshify_outcome_proof codec p ≡ ok proof
        → AtProof u
        → AtProof (send_unlock delays w codec args n m proof old_balance u).1
    send_unlock-AtProof proof old_balance u e h =
        bind_trace AtProof
          ((call gas_price w.gas_price >>= call_unlock delays w codec args n proof m)
            >> read_erc20 delays w codec args)
          (λ _. pure tt) u read (λ _ _. read)
      where
        called :
            AtProof ((call gas_price w.gas_price >>= call_unlock delays w codec args n proof m) u).1
        called =
            bind_trace AtProof (call gas_price w.gas_price)
              (call_unlock delays w codec args n proof m) u h
              λ gas _.
                within-Extends web3_part (Asks (unlock_request delays w codec args proof m gas))
                  AtProof
                  (call_contract w.eth w.decode (unlock_request delays w codec args proof m gas) n)
                  (gas_price ∷ u)
                  (call_contract-Asks w.eth w.decode
                    (unlock_request delays w codec args proof m gas) n
                    (own web3_part (gas_price ∷ u)))
                  (web3-AtProof proof gas e) h

        read :
            AtProof
              (((call gas_price w.gas_price >>= call_unlock delays w codec args n proof m)
                  >> read_erc20 delays w codec args)
                u).1
        read =
            bind_trace AtProof
              (call gas_price w.gas_price >>= call_unlock delays w codec args n proof m)
              (λ _. read_erc20 delays w codec args) u called (λ _ _. called)

    pub unlock-AtProof : (t : Trace D) → AtProof t → AtProof (unlock delays w codec args n p m t).1
    unfolding unlock
    unlock-AtProof t h =
        catch_trace AtProof
          (lift (borshify_outcome_proof codec p) >>= unlock_with delays w codec args n m)
          (show_retry_and_exit delays w codec args) t tried (λ _ _. tried)
      where
        checked :
            (proof : Bytes)
            → AtProof
                ((call (prove_outcome proof m) (w.prove_outcome proof m)
                    >> read_erc20 delays w codec args)
                  t).1
        checked proof =
            bind_trace AtProof (call (prove_outcome proof m) (w.prove_outcome proof m))
              (λ _. read_erc20 delays w codec args) t h (λ _ _. h)

        tried :
            AtProof
              ((lift (borshify_outcome_proof codec p) >>= unlock_with delays w codec args n m) t).1
        tried =
            bind_trace AtProof (lift (borshify_outcome_proof codec p))
              (unlock_with delays w codec args n m) t h
              λ proof e.
                bind_trace AtProof
                  (call (prove_outcome proof m) (w.prove_outcome proof m)
                    >> read_erc20 delays w codec args)
                  (send_unlock delays w codec args n m proof) t (checked proof)
                  (λ old_balance _. send_unlock-AtProof proof old_balance _ e (checked proof))
