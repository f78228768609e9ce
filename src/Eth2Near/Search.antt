-- ===== src/Eth2Near/Search.antt =====
-- The block from which the relay of eth2near/eth2near-block-relay/index.js goes on, and the blocks that
-- it reads.
use rainbow_bridge_cli.Base.{
  ℕ, zero, suc, ◌+◌, ◌≤◌, String, true, Option, none, some, List, [], ◌∷◌, length, ◌≡◌, refl, arith,
}
use rainbow_bridge_cli.Base.Io.{
  Outcome, ok, err, exit, hangs, out_of_fuel, resolve, pure, call, catch, ◌>>=◌,
}
use rainbow_bridge_cli.Base.Io.Rules.{
  settle-ok, Returns, Returns-at, try-Returns, bind-Returns, if_Returns, bind_after,
}
use rainbow_bridge_cli.RobustWeb3.{Delays, Block}
use rainbow_bridge_cli.Eth2Near.Blocks.{DagBlock}
use rainbow_bridge_cli.Eth2Near.{
  known_hashes, ethash_proof, Trace, Chains, is_known, read_block, compare, check_known, step_back,
  found_or, backtrack, parse_block, get_parse_block, get_blocks,
}

module _ {D : Type 0} (delays : Delays D) (chains : Chains D) where
  -- The node has given a block of this number with a hash that the client knows.
  pub record Known (n : ℕ) : Type 0 where
    pub block : Block
    pub hashes : List String
    pub read_at : Trace D
    pub asked_at : Trace D
    pub given : (read_block delays chains n read_at).0 ≡ ok block
    pub answered : chains.known_hashes n asked_at ≡ resolve hashes
    pub known : is_known block.hash hashes ≡ true

  -- The block of this number, as the node gave it and the relayer of ethashproof put it.
  pub record Relayed (n : ℕ) (d : DagBlock) : Type 0 where
    pub block : Block
    pub read_at : Trace D
    pub put_at : Trace D
    pub given : (read_block delays chains n read_at).0 ≡ ok block
    pub put : chains.ethash_proof block put_at ≡ resolve d

  abbrev pub RelayedIf : ℕ → Option DagBlock → Type 0
  RelayedIf n none = Unit
  RelayedIf n (some d) = Relayed n d

  -- The blocks with the numbers from `n` on.
  abbrev pub AllRelayed : ℕ → List (Option DagBlock) → Type 0
  AllRelayed n [] = Unit
  AllRelayed n (d ∷ ds) = RelayedIf n d × AllRelayed (n + 1) ds

  check_known-Known :
      (n : ℕ) (t : Trace D) → Returns (λ b u. b ≡ true → Known n) (check_known delays chains n t)
  check_known-Known n t =
      bind-Returns (λ b u. b ≡ true → Known n) (read_block delays chains n)
        (compare delays chains n) t
        λ block p.
          bind-Returns (λ b u. b ≡ true → Known n) (call (known_hashes n) (chains.known_hashes n)) _
            _
            λ hashes q e. record {
              block = block;
              hashes = hashes;
              read_at = t;
              asked_at = _;
              given = p;
              answered = settle-ok _ q;
              known = e;
            }

  -- If the search returns a number, then it is at most the one that the search began with, and the
  -- node has given a block of that number whose hash the client knows.
  pub backtrack-Known :
      (k n : ℕ) (t : Trace D) → Returns (λ m u. (m ≤ n) × Known m) (backtrack delays chains k n t)
  unfolding backtrack
  backtrack-Known zero n t = tt
  backtrack-Known (suc k) n t =
      try-Returns Q (check_known delays chains n)
        (found_or delays chains (backtrack delays chains k) n) (λ e. backtrack delays chains k n) t
        (λ b p.
          if_Returns Q b (pure n) (step_back delays chains (backtrack delays chains k) n) _
            (λ e. (
              omega arith,
              Returns-at (λ b u. b ≡ true → Known n) (check_known delays chains n t)
                  (check_known-Known n t) p e,
            ))
            (λ _. stepped n _ (λ m u. backtrack-Known k m u)))
        (λ e _. backtrack-Known k n _)
    where
      Q : ℕ → Trace D → Type 0
      Q m u = (m ≤ n) × Known m

      lower :
          {a b : ℕ}
          → a ≤ b
          → (r : Outcome ℕ × Trace D) → Returns (λ m u. (m ≤ a) × Known m) r
          → Returns (λ m u. (m ≤ b) × Known m) r
      lower h (ok m, u) (l, x) = (omega (arith, h, l), x)
      lower h (err e, u) x = tt
      lower h (exit c, u) x = tt
      lower h (hangs, u) x = tt
      lower h (out_of_fuel, u) x = tt

      stepped :
          (m : ℕ) (u : Trace D)
          → ((m : ℕ) (u : Trace D)
              → Returns (λ l u. (l ≤ m) × Known l) (backtrack delays chains k m u))
          → Returns
              (λ l u. (l ≤ m) × Known l)
              (step_back delays chains (backtrack delays chains k) m u)
      stepped zero u h = tt
      stepped (suc m) u h = lower (omega arith) (backtrack delays chains k m u) (h m u)

  get_parse_block-Relayed :
      (n : ℕ) (t : Trace D) → Returns (λ d u. RelayedIf n d) (get_parse_block delays chains n t)
  unfolding get_parse_block
  get_parse_block-Relayed n t =
      caught ((read_block delays chains n >>= parse_block delays chains) t) tried
    where
      tried :
          Returns
            (λ d u. RelayedIf n d)
            ((read_block delays chains n >>= parse_block delays chains) t)
      tried =
          bind-Returns (λ d u. RelayedIf n d) (read_block delays chains n)
            (parse_block delays chains) t
            λ b p.
              bind-Returns (λ d u. RelayedIf n d) (call (ethash_proof b) (chains.ethash_proof b)) _
                _
                λ d q. record { block = b; read_at = t; put_at = _; given = p; put = settle-ok _ q }

      caught :
          (r : Outcome (Option DagBlock) × Trace D)
          → Returns (λ d u. RelayedIf n d) r
          → Returns (λ d u. RelayedIf n d) (catch (λ _. r) (λ e. pure none) t)
      caught (ok d, u) h = h
      caught (err e, u) h = tt
      caught (exit c, u) h = tt
      caught (hangs, u) h = tt
      caught (out_of_fuel, u) h = tt

  pub get_blocks-Relayed :
      (k n : ℕ) (t : Trace D)
      → Returns (λ ds u. (length ds ≡ k) × AllRelayed n ds) (get_blocks delays chains k n t)
  unfolding get_blocks
  get_blocks-Relayed zero n t = (refl, tt)
  get_blocks-Relayed (suc k) n t =
      bind_after (λ d u. RelayedIf n d) Q (get_parse_block delays chains n) _ t
        (get_parse_block-Relayed n t)
        λ d u x.
          bind_after (λ ds u. (length ds ≡ k) × AllRelayed (n + 1) ds) Q
            (get_blocks delays chains k (n + 1)) _ u (get_blocks-Relayed k (n + 1) u)
            λ ds v (l, y). (omega (arith, l), (x, y))
    where
      Q : List (Option DagBlock) → Trace D → Type 0
      Q ds u = (length ds ≡ suc k) × AllRelayed n ds
