-- ===== src/Near2Eth/Turn.antt =====
-- A turn of the relay of near2eth/near2eth-block-relay/index.js: what it sends, and that it goes on.
use rainbow_bridge_cli.Base.{ℕ, zero, suc, ◌≡◌, ◌==◌, false, Option, none, some, String}
use rainbow_bridge_cli.Base.Io.{call, emit, pure, lift, ◌>>=◌}
use rainbow_bridge_cli.Base.Io.Survival.{
  IsAlive, IsCalm, settle-IsAlive, bind-IsAlive, bind-IsCalm, if-IsAlive, catch-IsCalm,
}
use rainbow_bridge_cli.Base.Io.Within.{within-IsAlive}
use rainbow_bridge_cli.RobustWeb3.{Delays, robust_block}
use rainbow_bridge_cli.RobustWeb3.Survival.{robust_block-IsAlive}
use rainbow_bridge_cli.Borshify.{Codec, LightClientBlock, borshify}
use rainbow_bridge_cli.Borshify.Survival.{Answers, borshify-IsAlive}
use rainbow_bridge_cli.Near2Eth.{
  bridge_state, block_hash, next_block, replace_duration, lock_eth_amount, balance_of, gas_price,
  slept, web3_part, Trace, Chains, Options, BridgeState, read_latest, should_submit, deposit_at,
  deposit_stake, payload, add_at, send_bytes, send_payload, finish, send_block, with_balance,
  with_stake, submit, sleep_until, wait, act, with_block, with_hash, with_state, rest_after_error,
  turn, run_internal, idle_delay,
}

module _ {D : Type 0} (delays : Delays D) (chains : Chains D) (codec : Codec) (o : Options) where
  module _ (answers : Answers codec) (honest : o.submit_invalid_block ≡ false) where
    send_block-IsAlive :
        (b : LightClientBlock) (u : Unit {0}) (t : Trace D)
        → IsAlive (send_block delays chains codec o b u t).0
    send_block-IsAlive b u t =
        bind-IsAlive (lift (borshify codec b) >>= send_payload delays chains codec o)
          (finish delays chains codec o) t
          (bind-IsAlive (lift (borshify codec b)) (send_payload delays chains codec o) t
            (borshify-IsAlive codec answers b)
            λ p _.
              bind-IsAlive (payload delays chains codec o p) (send_bytes delays chains codec o) _
                (rw honest tt)
                λ q _.
                  bind-IsAlive (call gas_price chains.gas_price) (add_at delays chains codec o q) _
                    (settle-IsAlive {A = ℕ} _) λ g _. settle-IsAlive {A = Unit {0}} _)
          (λ _ _. rw honest tt)

    deposit_stake-IsAlive :
        (amount balance : ℕ) (t : Trace D)
        → IsAlive (deposit_stake delays chains codec o amount balance t).0
    deposit_stake-IsAlive amount balance t =
        if-IsAlive (balance == 0)
          (call gas_price chains.gas_price >>= deposit_at delays chains codec o amount) (pure tt) t
          (λ _.
            bind-IsAlive (call gas_price chains.gas_price) (deposit_at delays chains codec o amount)
              t (settle-IsAlive {A = ℕ} _) λ g _. settle-IsAlive {A = Unit {0}} _)
          (λ _. tt)

    submit-IsAlive :
        (b : LightClientBlock) (t : Trace D) → IsAlive (submit delays chains codec o b t).0
    unfolding submit
    submit-IsAlive b t =
        bind-IsAlive (call lock_eth_amount chains.lock_eth_amount)
          (with_stake delays chains codec o b) t (settle-IsAlive {A = ℕ} _)
          λ amount _.
            bind-IsAlive (call balance_of chains.balance_of)
              (with_balance delays chains codec o b amount) _ (settle-IsAlive {A = ℕ} _)
              λ balance _.
                bind-IsAlive (deposit_stake delays chains codec o amount balance)
                  (send_block delays chains codec o b) _ (deposit_stake-IsAlive amount balance _)
                  λ u _. send_block-IsAlive b u _

    wait-IsAlive :
        (s : BridgeState) (duration : ℕ) (b : LightClientBlock) (t : Trace D)
        → IsAlive (wait delays chains codec o s duration b t).0
    unfolding wait
    wait-IsAlive s duration b t =
        if-IsAlive (s.next_valid_at == 0) (emit (slept (idle_delay o)))
          (read_latest delays chains codec o >>= sleep_until delays chains codec o s duration b) t
          (λ _. tt)
          (λ _.
            bind-IsAlive (read_latest delays chains codec o)
              (sleep_until delays chains codec o s duration b) t
              (within-IsAlive web3_part (robust_block delays chains.eth none) t
                (robust_block-IsAlive delays chains.eth none _))
              λ _ _. tt)

    act-IsAlive :
        (s : BridgeState) (b : Option LightClientBlock) (duration : ℕ) (t : Trace D)
        → IsAlive (act delays chains codec o s b duration t).0
    unfolding act
    act-IsAlive s none duration t = tt
    act-IsAlive s (some b) duration t =
        if-IsAlive (should_submit s duration b) (submit delays chains codec o b)
          (wait delays chains codec o s duration b) t (λ _. submit-IsAlive b t)
          (λ _. wait-IsAlive s duration b t)

    turn-IsCalm : (t : Trace D) → IsCalm (turn delays chains codec o t).0
    unfolding turn
    turn-IsCalm t =
        catch-IsCalm (call bridge_state chains.bridge_state >>= with_state delays chains codec o)
          (rest_after_error delays chains codec o) t
          (bind-IsAlive (call bridge_state chains.bridge_state) (with_state delays chains codec o) t
            (settle-IsAlive {A = BridgeState} _)
            λ s _.
              bind-IsAlive (call (block_hash s.current_height) (chains.block_hash s.current_height))
                (with_hash delays chains codec o s) _ (settle-IsAlive {A = String} _)
                λ hash _.
                  bind-IsAlive (call (next_block hash) (chains.next_block hash))
                    (with_block delays chains codec o s) _
                    (settle-IsAlive {A = Option LightClientBlock} _)
                    λ b _.
                      bind-IsAlive (call replace_duration chains.replace_duration)
                        (act delays chains codec o s b) _ (settle-IsAlive {A = ℕ} _)
                        λ duration _. act-IsAlive s b duration _)
          (λ _ _. tt)

    -- Where bs58 and bn.js return or throw, and unless it is told to submit an invalid block, the
    -- relay does not throw or leave the program in any number of turns, whatever the two chains
    -- answer.
    pub run_internal-IsCalm :
        (n : ℕ) (t : Trace D) → IsCalm (run_internal delays chains codec o n t).0
    unfolding run_internal
    run_internal-IsCalm zero t = tt
    run_internal-IsCalm (suc n) t =
        bind-IsCalm (turn delays chains codec o) (λ _. run_internal delays chains codec o n) t
          (turn-IsCalm t) (λ _ _. run_internal-IsCalm n _)
