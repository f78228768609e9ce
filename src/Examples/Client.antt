-- ===== src/Examples/Client.antt =====
-- The relay of eth2near/eth2near-block-relay/index.js on a chain whose blocks all have one hash.
use rainbow_bridge_cli.Base.{ℕ, String, ◌<>◌, some, List, [], ◌∷◌, ◌≡◌, refl, length}
use rainbow_bridge_cli.Base.Io.{ok, resolve}
use rainbow_bridge_cli.RobustWeb3.{Block}
use rainbow_bridge_cli.Eth2Near.{Chains, turn}
use rainbow_bridge_cli.Eth2Near.Blocks.{DagBlock, Hex, h512s}
use rainbow_bridge_cli.Eth2Near.Quiet.{submitted}
use rainbow_bridge_cli.Eth2Near.Headers.{HandsAtMost, turn-Hands}
use rainbow_bridge_cli.Examples.Near.{prompt}
use rainbow_bridge_cli.Examples.Web3.{delays, slow_node}

abbrev hex : Hex
hex = record { pad_left = λ s n. s; substr_2 = λ s. s; hex_to_bytes = λ s. ok (1 ∷ []) }

abbrev block : Block
block = record { number = 7; hash = "0xh"; timestamp = 9; transactions = []; header = [] }

abbrev dag : DagBlock
dag = record {
  header_rlp = "0x01";
  elements = "a" ∷ "b" ∷ "c" ∷ "d" ∷ [];
  merkle_proofs = "p" ∷ "q" ∷ [];
  proof_length = 2;
}

-- The client is two blocks behind.
abbrev chains : Chains ℕ
chains = record {
  last_block_number = λ _. resolve 5;
  known_hashes = λ _ _. resolve ("0xh" ∷ []);
  ethash_proof = λ _ _. resolve dag;
  add_block_header = λ _ _. resolve "h";
  eth = record slow_node { block = λ _ _. resolve (some block) };
  near = prompt;
  hex = hex;
}

turn-Hands_example : HandsAtMost delays chains [] (turn delays chains 3 []).1
turn-Hands_example = turn-Hands delays chains 3 []

turn-hands_two : length (submitted (turn delays chains 3 []).1) ≡ 2
unfolding turn rainbow_bridge_cli.Base.Io.Within.within
    rainbow_bridge_cli.RobustWeb3.robust_block_number rainbow_bridge_cli.Retry.backoff
    rainbow_bridge_cli.Eth2Near.backtrack rainbow_bridge_cli.RobustWeb3.robust_block
    rainbow_bridge_cli.Eth2Near.is_known rainbow_bridge_cli.Eth2Near.submit_range
    rainbow_bridge_cli.Eth2Near.get_blocks rainbow_bridge_cli.Eth2Near.end_block
    rainbow_bridge_cli.Eth2Near.get_parse_block rainbow_bridge_cli.Eth2Near.submit_blocks
    rainbow_bridge_cli.Eth2Near.submit_block rainbow_bridge_cli.Eth2Near.Blocks.input_of
    rainbow_bridge_cli.Eth2Near.Blocks.h512s rainbow_bridge_cli.Eth2Near.Blocks.h512s_from
    rainbow_bridge_cli.Eth2Near.wait_all rainbow_bridge_cli.Near.Async.txn_status
    rainbow_bridge_cli.Near.Async.poll_status
turn-hands_two = refl
