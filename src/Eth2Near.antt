-- ===== src/Eth2Near.antt =====
-- The loop of eth2near/eth2near-block-relay/index.js: it hands the headers of Ethereum's blocks to the
-- client contract on NEAR. That contract is the object that `initialize` is given; the relayer of
-- ethashproof is a program of its own.
pub mod Blocks
pub mod Search
pub mod Quiet
pub mod Handing
pub mod Headers
pub mod Pairs
use rainbow_bridge_cli.Base.{
  ℕ, zero, suc, ◌+◌, ◌-◌, min, String, Bool, true, false, Option, none, some, List, [], ◌∷◌, ◌===◌,
  ◌||◌, ltb, if◌then◌else◌,
}
use rainbow_bridge_cli.Base.Io.{
  JsError, js_error, Reply, Io, ok, hangs, starved, pure, throw, call, emit, catch, try, lift,
  ◌>>=◌, ◌>>◌,
}
use rainbow_bridge_cli.Base.Io.Within.{Part, within}
use rainbow_bridge_cli.Near.Node.{NearEvent, NearNode}
use rainbow_bridge_cli.Near.Async.{txn_status}
use rainbow_bridge_cli.RobustWeb3.{
  Web3Event, EthNode, Delays, Block, robust_block, robust_block_number,
}
use rainbow_bridge_cli.Eth2Near.Blocks.{DagBlock, BlockInput, Hex, input_of}

pub data RelayEvent (D : Type 0) : Type 0 where
  last_block_number : RelayEvent D
  known_hashes : ℕ → RelayEvent D
  -- ethashproof, for the RLP of a block
  ethash_proof : Block → RelayEvent D
  -- add_block_header_async
  add_block_header : BlockInput → RelayEvent D
  web3 : Web3Event D → RelayEvent D
  near : NearEvent → RelayEvent D
  -- sleep, in milliseconds
  slept : ℕ → RelayEvent D

abbrev pub Trace : Type 0 → Type 0
Trace D = List (RelayEvent D)

abbrev web3_of : {D : Type 0} → RelayEvent D → Option (Web3Event D)
web3_of (web3 e) = some e
web3_of _ = none

abbrev near_of : {D : Type 0} → RelayEvent D → Option NearEvent
near_of (near e) = some e
near_of _ = none

abbrev pub web3_part : {D : Type 0} → Part (Web3Event D) (RelayEvent D)
web3_part = record { embed = web3; project = web3_of }

abbrev pub near_part : {D : Type 0} → Part NearEvent (RelayEvent D)
near_part = record { embed = near; project = near_of }

pub record Chains (D : Type 0) : Type 0 where
  pub last_block_number : Trace D → Reply ℕ
  pub known_hashes : ℕ → Trace D → Reply (List String)
  -- a rejection where the header has no RLP or the output no JSON
  pub ethash_proof : Block → Trace D → Reply DagBlock
  -- the hash of the transaction
  pub add_block_header : BlockInput → Trace D → Reply String
  pub eth : EthNode D
  pub near : NearNode
  pub hex : Hex

abbrev pub max_submit_block : ℕ
max_submit_block = 10

-- clientHashes.find((x) => x === chainBlockHash), where a hash is no empty text
unfoldable pub is_known : String → List String → Bool
is_known hash [] = false
is_known hash (x ∷ xs) = (x === hash) || is_known hash xs

unfoldable pub end_block : ℕ → ℕ → ℕ
end_block client chain = if ltb client 5 then client + 1 else min (client + max_submit_block) chain

abbrev pub undefined_block : JsError
undefined_block = record (js_error "Cannot read property 'elements' of undefined") {
  name = "TypeError";
}

module _ {D : Type 0} (delays : Delays D) (chains : Chains D) where
  abbrev pub read_block : ℕ → Io (RelayEvent D) Block
  read_block n = within web3_part (robust_block delays chains.eth (some n))

  abbrev pub compare : ℕ → Block → Io (RelayEvent D) Bool
  compare n b =
      call (known_hashes n) (chains.known_hashes n) >>= λ hashes. pure (is_known b.hash hashes)

  -- Whether the client knows the block of this number.
  abbrev pub check_known : ℕ → Io (RelayEvent D) Bool
  check_known n = read_block n >>= compare n

  -- clientBlockNumber -= 1. Below block 0 the loop asks for a block that no chain has, for ever.
  abbrev pub step_back : (ℕ → Io (RelayEvent D) ℕ) → ℕ → Io (RelayEvent D) ℕ
  step_back loop zero t = (hangs, t)
  step_back loop (suc n) t = loop n t

  abbrev pub found_or : (ℕ → Io (RelayEvent D) ℕ) → ℕ → Bool → Io (RelayEvent D) ℕ
  found_or loop n known = if known then pure n else step_back loop n

  -- The loop that looks for a block that the client knows, up to its `k`-th round.
  unfoldable pub backtrack : ℕ → ℕ → Io (RelayEvent D) ℕ
  backtrack zero n = starved
  backtrack (suc k) n = try (check_known n) (found_or (backtrack k) n) (λ e. backtrack k n)

  abbrev pub parse_block : Block → Io (RelayEvent D) (Option DagBlock)
  parse_block b = call (ethash_proof b) (chains.ethash_proof b) >>= λ d. pure (some d)

  -- getParseBlock: an exception is printed, and the result is undefined.
  unfoldable pub get_parse_block : ℕ → Io (RelayEvent D) (Option DagBlock)
  get_parse_block n = catch (read_block n >>= parse_block) (λ e. pure none)

  -- The blocks from `i` on, `n` of them, one after the other.
  unfoldable pub get_blocks : ℕ → ℕ → Io (RelayEvent D) (List (Option DagBlock))
  get_blocks zero i = pure []
  get_blocks (suc n) i = get_parse_block i >>= λ d. get_blocks n (i + 1) >>= λ ds. pure (d ∷ ds)

  abbrev pub add_header : BlockInput → Io (RelayEvent D) String
  add_header i = call (add_block_header i) (chains.add_block_header i)

  -- submitBlock
  unfoldable pub submit_block : Option DagBlock → Io (RelayEvent D) String
  submit_block none = throw undefined_block
  submit_block (some d) = lift (input_of chains.hex d) >>= add_header

  abbrev pub then_rest : Io (RelayEvent D) (List String) → String → Io (RelayEvent D) (List String)
  then_rest rest h = rest >>= λ hs. pure (h ∷ hs)

  unfoldable pub submit_blocks : List (Option DagBlock) → Io (RelayEvent D) (List String)
  submit_blocks [] = pure []
  submit_blocks (d ∷ ds) = submit_block d >>= then_rest (submit_blocks ds)

  -- The statuses of the transactions, one after the other.
  unfoldable pub wait_all : List String → Io (RelayEvent D) (Unit {0})
  wait_all [] = pure tt
  wait_all (h ∷ hs) = within near_part (txn_status chains.near h 10 2000) >> wait_all hs

  abbrev pub submit_and_wait : List (Option DagBlock) → Io (RelayEvent D) (Unit {0})
  submit_and_wait ds = submit_blocks ds >>= wait_all

  -- The blocks above the client's.
  unfoldable pub submit_range : ℕ → ℕ → Io (RelayEvent D) (Unit {0})
  submit_range client chain =
      catch (get_blocks (end_block client chain - client) (client + 1) >>= submit_and_wait)
        (λ e. pure tt)

  abbrev pub submit_or_sleep : ℕ → ℕ → Io (RelayEvent D) (Unit {0})
  submit_or_sleep chain client =
      if ltb client chain then submit_range client chain else emit (slept 10000)

  -- The numbers of the client's last block and the chain's.
  abbrev pub read_numbers : Io (RelayEvent D) (ℕ × ℕ)
  read_numbers = call last_block_number chains.last_block_number >>= λ client.
      within web3_part (robust_block_number delays chains.eth) >>= λ chain. pure (client, chain)

  abbrev pub relay_from : ℕ → ℕ × ℕ → Io (RelayEvent D) (Unit {0})
  relay_from k (client, chain) = backtrack k client >>= submit_or_sleep chain

  -- A turn of the outer loop, with `k` rounds for the inner one.
  unfoldable pub turn : ℕ → Io (RelayEvent D) (Unit {0})
  turn k = try read_numbers (relay_from k) (λ e. pure tt)

  -- `run`, up to its `n`-th turn
  unfoldable pub run : ℕ → ℕ → Io (RelayEvent D) (Unit {0})
  run zero k = pure tt
  run (suc n) k = turn k >> run n k
