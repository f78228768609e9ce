-- ===== src/Eth2Near/Handing.antt =====
-- In which order submitBlock of eth2near/eth2near-block-relay/index.js hands over blocks.
use rainbow_bridge_cli.Base.{String, Option, none, some, List, [], ◌∷◌, ◌≡◌, refl}
use rainbow_bridge_cli.Base.Io.{ok, Reply, resolve, pure, lift, ◌>>=◌}
use rainbow_bridge_cli.Base.Io.Rules.{Returns, Returns-at, bind-Returns, bind_trace}
use rainbow_bridge_cli.RobustWeb3.{Delays}
use rainbow_bridge_cli.Eth2Near.Blocks.{DagBlock, BlockInput, input_of}
use rainbow_bridge_cli.Eth2Near.{
  add_block_header, Trace, Chains, add_header, then_rest, submit_block, submit_blocks,
}
use rainbow_bridge_cli.Eth2Near.Quiet.{submitted}

module _ {D : Type 0} (delays : Delays D) (chains : Chains D) where
  -- The first few of the blocks are handed over, in order.
  pub data Handed : List (Option DagBlock) → List BlockInput → List BlockInput → Type 0 where
    stop : {ds : List (Option DagBlock)} {l : List BlockInput} → Handed ds l l
    next :
        {d : DagBlock} {ds : List (Option DagBlock)} {i : BlockInput} {l l' : List BlockInput}
        → input_of chains.hex d ≡ ok i
        → Handed ds (i ∷ l) l'
        → Handed (some d ∷ ds) l l'

  pub submit_blocks-Handed :
      (ds : List (Option DagBlock)) (t : Trace D)
      → Handed ds (submitted t) (submitted (submit_blocks delays chains ds t).1)
  unfolding submit_blocks submit_block
  submit_blocks-Handed [] t = stop
  submit_blocks-Handed (none ∷ ds) t = stop
  submit_blocks-Handed (some d ∷ ds) t =
      bind_trace P (lift (input_of chains.hex d) >>= add_header delays chains)
        (then_rest delays chains (submit_blocks delays chains ds)) t given
        λ h p. went h _ (added p) (submit_blocks-Handed ds)
    where
      P : Trace D → Type 0
      P u = Handed (some d ∷ ds) (submitted t) (submitted u)

      given : P ((lift (input_of chains.hex d) >>= add_header delays chains) t).1
      given =
          bind_trace P (lift (input_of chains.hex d)) (add_header delays chains) t stop
            (λ i e. next e stop)

      Added : Trace D → Type 0
      Added u = (i : BlockInput) × (input_of chains.hex d ≡ ok i) × (submitted u ≡ i ∷ submitted t)

      added :
          {h : String}
          → ((lift (input_of chains.hex d) >>= add_header delays chains) t).0 ≡ ok h
          → Added ((lift (input_of chains.hex d) >>= add_header delays chains) t).1
      added p =
          Returns-at (λ h u. Added u)
            ((lift (input_of chains.hex d) >>= add_header delays chains) t)
            (bind-Returns (λ h u. Added u) (lift (input_of chains.hex d)) (add_header delays chains)
              t (λ i e. bind_free i e (chains.add_block_header i (add_block_header i ∷ t)) refl))
            p
        where
          bind_free :
              (i : BlockInput)
              → input_of chains.hex d ≡ ok i
              → (r : Reply String) → chains.add_block_header i (add_block_header i ∷ t) ≡ r
              → Returns (λ h u. Added u) (add_header delays chains i t)
          bind_free i e (resolve h) q = rw q (i, e, refl)
          bind_free i e (Reply.reject x) q = rw q tt
          bind_free i e Reply.pending q = rw q tt

      went :
          (h : String) (u : Trace D)
          → Added u
          → ((v : Trace D)
              → Handed ds (submitted v) (submitted (submit_blocks delays chains ds v).1))
          → P (then_rest delays chains (submit_blocks delays chains ds) h u).1
      went h u (i, e, q) rest =
          bind_trace P (submit_blocks delays chains ds) (λ hs. pure (h ∷ hs)) u later (λ _ _. later)
        where
          later : P (submit_blocks delays chains ds u).1
          later = next e (rw q at (rest u))
