-- ===== src/Eth2Near/Quiet.antt =====
-- What the relay of eth2near/eth2near-block-relay/index.js does without handing over a header.
use rainbow_bridge_cli.Base.{ℕ, zero, suc, ◌+◌, String, none, some, List, [], ◌∷◌, ◌≡◌, refl, ◌∙◌}
use rainbow_bridge_cli.Base.Io.{pure, call, ◌>>=◌}
use rainbow_bridge_cli.Base.Io.Rules.{bind_trace, try_trace, catch_trace, if_trace}
use rainbow_bridge_cli.Base.Io.Within.{within, within_trace}
use rainbow_bridge_cli.Near.Async.{txn_status}
use rainbow_bridge_cli.RobustWeb3.{Delays, robust_block}
use rainbow_bridge_cli.Eth2Near.Blocks.{BlockInput}
use rainbow_bridge_cli.Eth2Near.{
  known_hashes, ethash_proof, add_block_header, Trace, web3_part, near_part, Chains, is_known,
  read_block, compare, check_known, step_back, found_or, backtrack, parse_block, get_parse_block,
  get_blocks, wait_all,
}

-- The headers that were handed to the client, the latest first.
abbrev pub submitted : {D : Type 0} → Trace D → List BlockInput
submitted [] = []
submitted (add_block_header i ∷ t) = i ∷ submitted t
submitted (_ ∷ t) = submitted t

module _ {D : Type 0} (delays : Delays D) (chains : Chains D) where
  pub wait_all-submitted :
      (hs : List String) (t : Trace D) → submitted (wait_all delays chains hs t).1 ≡ submitted t
  unfolding wait_all
  wait_all-submitted [] t = refl
  wait_all-submitted (h ∷ hs) t =
      bind_trace (λ u. submitted u ≡ submitted t)
        (within near_part (txn_status chains.near h 10 2000)) (λ _. wait_all delays chains hs) t
        waited (λ _ _. wait_all-submitted hs _ ∙ waited)
    where
      waited : submitted (within near_part (txn_status chains.near h 10 2000) t).1 ≡ submitted t
      waited =
          within_trace near_part (λ u. submitted u ≡ submitted t) (txn_status chains.near h 10 2000)
            t (λ f u g. g) refl

  read_block-submitted :
      (n : ℕ) (t : Trace D) → submitted (read_block delays chains n t).1 ≡ submitted t
  read_block-submitted n t =
      within_trace web3_part (λ u. submitted u ≡ submitted t)
        (robust_block delays chains.eth (some n)) t (λ f u g. g) refl

  get_parse_block-submitted :
      (n : ℕ) (t : Trace D) → submitted (get_parse_block delays chains n t).1 ≡ submitted t
  unfolding get_parse_block
  get_parse_block-submitted n t =
      catch_trace (λ u. submitted u ≡ submitted t)
        (read_block delays chains n >>= parse_block delays chains) (λ e. pure none) t parsed
        (λ _ _. parsed)
    where
      parsed :
          submitted ((read_block delays chains n >>= parse_block delays chains) t).1 ≡ submitted t
      parsed =
          bind_trace (λ u. submitted u ≡ submitted t) (read_block delays chains n)
            (parse_block delays chains) t (read_block-submitted n t)
            λ b _.
              bind_trace (λ u. submitted u ≡ submitted t)
                (call (ethash_proof b) (chains.ethash_proof b)) (λ d. pure (some d)) _
                (read_block-submitted n t) (λ _ _. read_block-submitted n t)

  pub get_blocks-submitted :
      (k n : ℕ) (t : Trace D) → submitted (get_blocks delays chains k n t).1 ≡ submitted t
  unfolding get_blocks
  get_blocks-submitted zero n t = refl
  get_blocks-submitted (suc k) n t =
      bind_trace (λ u. submitted u ≡ submitted t) (get_parse_block delays chains n) _ t
        (get_parse_block-submitted n t)
        λ d _.
          bind_trace (λ u. submitted u ≡ submitted t) (get_blocks delays chains k (n + 1))
            (λ ds. pure (d ∷ ds)) _
            (get_blocks-submitted k (n + 1) _ ∙ get_parse_block-submitted n t)
            (λ ds _. get_blocks-submitted k (n + 1) _ ∙ get_parse_block-submitted n t)

  pub backtrack-submitted :
      (k n : ℕ) (t : Trace D) → submitted (backtrack delays chains k n t).1 ≡ submitted t
  unfolding backtrack
  backtrack-submitted zero n t = refl
  backtrack-submitted (suc k) n t =
      try_trace (λ u. submitted u ≡ submitted t) (check_known delays chains n)
        (found_or delays chains (backtrack delays chains k) n) (λ e. backtrack delays chains k n) t
        checked
        (λ b _.
          if_trace (λ u. submitted u ≡ submitted t) b (pure n)
            (step_back delays chains (backtrack delays chains k) n) _ checked
            (stepped n _ checked (λ m u. backtrack-submitted k m u)))
        (λ e _. backtrack-submitted k n _ ∙ checked)
    where
      checked : submitted (check_known delays chains n t).1 ≡ submitted t
      checked =
          bind_trace (λ u. submitted u ≡ submitted t) (read_block delays chains n)
            (compare delays chains n) t (read_block-submitted n t)
            λ b _.
              bind_trace (λ u. submitted u ≡ submitted t)
                (call (known_hashes n) (chains.known_hashes n))
                (λ hashes. pure (is_known b.hash hashes)) _ (read_block-submitted n t)
                (λ _ _. read_block-submitted n t)

      stepped :
          (m : ℕ) (u : Trace D)
          → submitted u ≡ submitted t
          → ((m : ℕ) (v : Trace D) → submitted (backtrack delays chains k m v).1 ≡ submitted v)
          → submitted (step_back delays chains (backtrack delays chains k) m u).1 ≡ submitted t
      stepped zero u e h = e
      stepped (suc m) u e h = h m u ∙ e
