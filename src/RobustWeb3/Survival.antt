-- ===== src/RobustWeb3/Survival.antt =====
-- The methods of `RobustWeb3` of utils/robust.js that read the chain do not end the program.
use rainbow_bridge_cli.Base.{ℕ, Option, none, some}
use rainbow_bridge_cli.Base.Io.{pure, throw, call, emit, try, ◌>>=◌, ◌>>◌}
use rainbow_bridge_cli.Base.Io.Survival.{
  IsAlive, settle-IsAlive, bind-IsAlive, try-IsAlive, if-IsAlive,
}
use rainbow_bridge_cli.Retry.Traces.{backoff-IsAlive}
use rainbow_bridge_cli.RobustWeb3.{
  Block, get_block, set_provider, slept, Trace, EthNode, Delays, is_disconnected, block_or_throw,
  reconnect_and_throw, robust_block,
}

module _ {D : Type 0} (delays : Delays D) (node : EthNode D) where
  pub robust_block-IsAlive : (b : Option ℕ) (t : Trace D) → IsAlive (robust_block delays node b t).0
  unfolding robust_block
  robust_block-IsAlive b t =
      backoff-IsAlive delays.product delays.wait slept
        (try (call (get_block b) (node.block b) >>= block_or_throw delays node) pure
          (reconnect_and_throw delays node))
        10 delays.delay delays.wait t
        λ u.
          try-IsAlive (call (get_block b) (node.block b) >>= block_or_throw delays node) pure
            (reconnect_and_throw delays node) u
            (bind-IsAlive (call (get_block b) (node.block b)) (block_or_throw delays node) u
              (settle-IsAlive {A = Option Block} _) (λ o _. checked o _))
            (λ _ _. tt)
            (λ e _.
              if-IsAlive (is_disconnected e) (emit set_provider >> throw e) (throw e) _ (λ _. tt)
                (λ _. tt))
    where
      checked : (o : Option Block) (v : Trace D) → IsAlive (block_or_throw delays node o v).0
      checked none v = tt
      checked (some x) v = tt
