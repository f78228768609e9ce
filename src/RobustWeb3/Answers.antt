-- ===== src/RobustWeb3/Answers.antt =====
-- What the reading methods of `RobustWeb3` of utils/robust.js return comes from the node.
use rainbow_bridge_cli.Base.{ℕ, String, ◌≡◌, Option, none, some, ◌∷◌}
use rainbow_bridge_cli.Base.Io.{Io, resolve, pure, throw, call, emit, try, ◌>>=◌, ◌>>◌}
use rainbow_bridge_cli.Base.Io.Rules.{
  Returns, bind-Returns, try-Returns, if_Returns, settle-ok, Returns-at, call-Returns,
}
use rainbow_bridge_cli.Retry.Traces.{backoff-Returns}
use rainbow_bridge_cli.RobustWeb3.{
  Block, Receipt, Web3Event, get_block, get_receipt, set_provider, slept, Trace, EthNode, Delays,
  is_disconnected, reconnect_and_throw, block_or_throw, robust_block, robust_receipt, backoff_10,
}

module _ {D : Type 0} (node : EthNode D) where
  -- The node has answered so, at some time.
  abbrev pub GivesReceipt : String → Option Receipt → Type 0
  GivesReceipt hash r = (v : Trace D) × (node.receipt hash v ≡ resolve r)

  abbrev pub GivesBlock : Option ℕ → Block → Type 0
  GivesBlock n b = (v : Trace D) × (node.block n v ≡ resolve (some b))

module _ {D : Type 0} (delays : Delays D) (node : EthNode D) where
  retried-Returns :
      {A : Type 0} (Q : A → Type 0) (m : Io (Web3Event D) A) (t : Trace D)
      → ((u : Trace D) → Returns (λ a _. Q a) (m u))
      → Returns
          (λ a _. Q a)
          (backoff_10 delays node (try m pure (reconnect_and_throw delays node)) t)
  retried-Returns Q m t f =
      backoff-Returns delays.product delays.wait slept Q
        (try m pure (reconnect_and_throw delays node)) 10 delays.delay delays.wait t
        λ u.
          try-Returns (λ a _. Q a) m pure (reconnect_and_throw delays node) u
            (λ a e. Returns-at (λ a _. Q a) (m u) (f u) e)
            (λ e _.
              if_Returns (λ a _. Q a) (is_disconnected e) (emit set_provider >> throw e) (throw e) _
                (λ _. tt) (λ _. tt))

  pub robust_receipt-Gives :
      (hash : String) (t : Trace D)
      → Returns (λ r _. GivesReceipt node hash r) (robust_receipt delays node hash t)
  unfolding robust_receipt
  robust_receipt-Gives hash t =
      retried-Returns (GivesReceipt node hash) (call (get_receipt hash) (node.receipt hash)) t λ u.
        call-Returns (λ r _. GivesReceipt node hash r) (get_receipt hash) (node.receipt hash) u
          (λ r e. (_, e))

  pub robust_block-Gives :
      (n : Option ℕ) (t : Trace D)
      → Returns (λ b _. GivesBlock node n b) (robust_block delays node n t)
  unfolding robust_block
  robust_block-Gives n t =
      retried-Returns (GivesBlock node n)
        (call (get_block n) (node.block n) >>= block_or_throw delays node) t
        λ u.
          bind-Returns (λ b _. GivesBlock node n b) (call (get_block n) (node.block n))
            (block_or_throw delays node) u (λ o e. given o _ (settle-ok _ e))
    where
      given :
          (o : Option Block) (u : Trace D)
          → node.block n (get_block n ∷ u) ≡ resolve o
          → Returns (λ b _. GivesBlock node n b) (block_or_throw delays node o (get_block n ∷ u))
      given none u e = tt
      given (some b) u e = (_, e)
