-- ===== src/Eth2Near/Headers.antt =====
-- Which headers the relay of eth2near/eth2near-block-relay/index.js hands to the client.
use rainbow_bridge_cli.Base.{
  ℕ, ◌+◌, ◌-◌, ◌≤◌, ◌<◌, Option, List, ◌∷◌, length, ltb, ◌≡◌, refl, ◌∙◌, ◌⊎◌, inl, inr, arith,
}
use rainbow_bridge_cli.Base.Io.{ok, resolve, Io, pure, call, emit, ◌>>=◌}
use rainbow_bridge_cli.Base.Io.Rules.{
  settle-ok, Returns, Returns-at, bind-Returns, bind_trace, try_trace, catch_trace, if_trace_by,
}
use rainbow_bridge_cli.Base.Io.Within.{within, within_trace}
use rainbow_bridge_cli.RobustWeb3.{Delays, robust_block_number}
use rainbow_bridge_cli.Eth2Near.Blocks.{DagBlock}
use rainbow_bridge_cli.Eth2Near.{
  RelayEvent, last_block_number, slept, Trace, web3_part, Chains, end_block, backtrack, get_blocks,
  submit_blocks, wait_all, submit_and_wait, submit_range, submit_or_sleep, read_numbers, relay_from,
  turn,
}
use rainbow_bridge_cli.Eth2Near.Search.{Known, AllRelayed, backtrack-Known, get_blocks-Relayed}
use rainbow_bridge_cli.Eth2Near.Quiet.{
  submitted, wait_all-submitted, get_blocks-submitted, backtrack-submitted,
}
use rainbow_bridge_cli.Eth2Near.Handing.{Handed, submit_blocks-Handed}

module _ {D : Type 0} (delays : Delays D) (chains : Chains D) where
  -- In a turn, nothing was handed to the client, or headers of blocks that follow one that the client
  -- knows, in order: at most ten blocks, and none above the chain's last one.
  pub record Hands (t u : Trace D) : Type 0 where
    pub last : ℕ
    pub chain : ℕ
    pub head : ℕ
    pub blocks : List (Option DagBlock)
    pub client : chains.last_block_number (last_block_number ∷ t) ≡ resolve last
    pub back : head ≤ last
    pub known : Known delays chains head
    pub relayed : AllRelayed delays chains (head + 1) blocks
    pub few : length blocks ≤ 10
    pub below : head + length blocks ≤ chain
    pub measured :
        (within web3_part (robust_block_number delays chains.eth) (last_block_number ∷ t)).0
        ≡ ok chain
    pub handed : Handed delays chains blocks (submitted t) (submitted u)

  abbrev pub HandsAtMost : Trace D → Trace D → Type 0
  HandsAtMost t u = (submitted u ≡ submitted t) ⊎ Hands t u

  end_block-few : (client chain : ℕ) → end_block client chain - client ≤ 10
  unfolding end_block
  end_block-few client chain = ground arith

  end_block-below :
      (client chain : ℕ) → client < chain → client + (end_block client chain - client) ≤ chain
  unfolding end_block
  end_block-below client chain h = ground (arith, h)

  -- What `submit_range` does to the headers.
  abbrev Ranges : ℕ → ℕ → Trace D → Trace D → Type 0
  Ranges client chain t u =
      (submitted u ≡ submitted t)
      ⊎ ((ds : List (Option DagBlock)) × (length ds ≡ end_block client chain - client)
          × AllRelayed delays chains (client + 1) ds
          × Handed delays chains ds (submitted t) (submitted u))

  submit_range-Ranges :
      (client chain : ℕ) (t : Trace D)
      → Ranges client chain t (submit_range delays chains client chain t).1
  unfolding submit_range
  submit_range-Ranges client chain t =
      catch_trace (Ranges client chain t) (read >>= submit_and_wait delays chains) (λ e. pure tt) t
        tried (λ _ _. tried)
    where
      read : Io (RelayEvent D) (List (Option DagBlock))
      read = get_blocks delays chains (end_block client chain - client) (client + 1)

      idle : submitted (read t).1 ≡ submitted t
      idle = get_blocks-submitted delays chains (end_block client chain - client) (client + 1) t

      handed_over :
          (ds : List (Option DagBlock))
          → Handed delays chains ds
              (submitted t)
              (submitted (submit_blocks delays chains ds (read t).1).1)
      handed_over ds = rw idle at (submit_blocks-Handed delays chains ds (read t).1)

      facts :
          {ds : List (Option DagBlock)}
          → (read t).0 ≡ ok ds
          → (length ds ≡ end_block client chain - client) × AllRelayed delays chains (client + 1) ds
      facts p =
          Returns-at
            (λ ds u.
              (length ds ≡ end_block client chain - client)
              × AllRelayed delays chains (client + 1) ds)
            (read t)
            (get_blocks-Relayed delays chains (end_block client chain - client) (client + 1) t) p

      tried : Ranges client chain t ((read >>= submit_and_wait delays chains) t).1
      tried =
          bind_trace (Ranges client chain t) read (submit_and_wait delays chains) t (inl idle)
            λ ds p.
              let f = facts p in
              bind_trace (Ranges client chain t) (submit_blocks delays chains ds)
                (wait_all delays chains) (read t).1 (inr (ds, f.0, f.1, handed_over ds))
                (λ hs _. inr (
                  ds,
                  f.0,
                  f.1,
                  rw
                      (wait_all-submitted delays chains hs
                        (submit_blocks delays chains ds (read t).1).1)
                      (handed_over ds),
                ))

  abbrev Numbers : Trace D → ℕ × ℕ → Type 0
  Numbers t (client, chain) =
      (chains.last_block_number (last_block_number ∷ t) ≡ resolve client)
      × ((within web3_part (robust_block_number delays chains.eth) (last_block_number ∷ t)).0
          ≡ ok chain)

  read_numbers-Numbers :
      (t : Trace D) → Returns (λ cn u. Numbers t cn) (read_numbers delays chains t)
  read_numbers-Numbers t =
      bind-Returns (λ cn u. Numbers t cn) (call last_block_number chains.last_block_number) _ t
        λ client p.
          bind-Returns (λ cn u. Numbers t cn)
            (within web3_part (robust_block_number delays chains.eth)) _ (last_block_number ∷ t)
            λ chain q. (settle-ok _ p, q)

  read_numbers-submitted : (t : Trace D) → submitted (read_numbers delays chains t).1 ≡ submitted t
  read_numbers-submitted t =
      bind_trace (λ u. submitted u ≡ submitted t) (call last_block_number chains.last_block_number)
        _ t refl
        λ client _.
          bind_trace (λ u. submitted u ≡ submitted t)
            (within web3_part (robust_block_number delays chains.eth)) _ (last_block_number ∷ t)
            measured (λ _ _. measured)
    where
      measured :
          submitted
            (within web3_part (robust_block_number delays chains.eth) (last_block_number ∷ t)).1
          ≡ submitted t
      measured =
          within_trace web3_part (λ u. submitted u ≡ submitted t)
            (robust_block_number delays chains.eth) (last_block_number ∷ t) (λ f u g. g) refl

  relay_from-Hands :
      (k client chain : ℕ) (t u : Trace D)
      → Numbers t (client, chain)
      → submitted u ≡ submitted t
      → HandsAtMost t (relay_from delays chains k (client, chain) u).1
  relay_from-Hands k client chain t u n e =
      bind_trace (HandsAtMost t) (backtrack delays chains k client)
        (submit_or_sleep delays chains chain) u (inl idle)
        λ head p.
          if_trace_by (HandsAtMost t) (ltb head chain) (submit_range delays chains head chain)
            (emit (slept 10000)) _
            (λ y.
              handed_by head p (ground arith)
                (submit_range-Ranges head chain (backtrack delays chains k client u).1))
            (λ _. inl idle)
    where
      v : Trace D
      v = (backtrack delays chains k client u).1

      idle : submitted v ≡ submitted t
      idle = backtrack-submitted delays chains k client u ∙ e

      handed_by :
          (head : ℕ)
          → (backtrack delays chains k client u).0 ≡ ok head
          → head < chain
          → Ranges head chain v (submit_range delays chains head chain v).1
          → HandsAtMost t (submit_range delays chains head chain v).1
      handed_by head p lt (inl q) = inl (q ∙ idle)
      handed_by head p lt (inr (ds, l, r, h)) =
          let (back, known) =
            Returns-at (λ m u. (m ≤ client) × Known delays chains m)
              (backtrack delays chains k client u) (backtrack-Known delays chains k client u) p in
          inr (record {
            last = client;
            chain = chain;
            head = head;
            blocks = ds;
            client = n.0;
            back = back;
            known = known;
            relayed = r;
            few = rw l (end_block-few head chain);
            below = rw l (end_block-below head chain lt);
            measured = n.1;
            handed = rw idle at h;
          })

  -- However the chains answer and however many rounds the search has, a turn of the relay hands
  -- nothing to the client, or headers of at most ten blocks, in order and none left out before
  -- another: the blocks, as the node gives them, that follow one whose hash the client knows. That
  -- one is at most the client's last block, and none is above the last block of the chain.
  pub turn-Hands : (k : ℕ) (t : Trace D) → HandsAtMost t (turn delays chains k t).1
  unfolding turn
  turn-Hands k t =
      try_trace (HandsAtMost t) (read_numbers delays chains) (relay_from delays chains k)
        (λ e. pure tt) t (inl (read_numbers-submitted t))
        (λ (client, chain) p.
          relay_from-Hands k client chain t _
            (Returns-at (λ cn u. Numbers t cn) (read_numbers delays chains t)
              (read_numbers-Numbers t) p)
            (read_numbers-submitted t))
        (λ e _. inl (read_numbers-submitted t))
