-- ===== src/Eth2Near/Blocks.antt =====
-- The arguments of `add_block_header`, as submitBlock of eth2near/eth2near-block-relay/index.js makes
-- them from the output of the ethashproof relayer.
use rainbow_bridge_cli.Base.{
  ℕ, ◌+◌, ◌*◌, ◌-◌, String, ◌<>◌, Option, none, some, List, [], ◌∷◌, map, take, drop, get_elem?,
}
use rainbow_bridge_cli.Base.Bytes.{Bytes}
use rainbow_bridge_cli.Base.Sync.{◌>>=◌}
use rainbow_bridge_cli.Base.Io.{JsError, js_error, Outcome, ok, err}

-- JSON.parse of the relayer's output
pub record DagBlock : Type 0 where
  pub header_rlp : String
  pub elements : List String
  pub merkle_proofs : List String
  pub proof_length : ℕ

-- The two nodes, where the second may be undefined, and the proof.
pub record DagNode : Type 0 where
  pub first : String
  pub second : Option String
  pub proof : List String

pub record BlockInput : Type 0 where
  pub block_header : Bytes
  pub dag_nodes : List DagNode

-- What web3.utils gives.
pub record Hex : Type 0 where
  pub pad_left : String → ℕ → String
  pub substr_2 : String → String
  pub hex_to_bytes : String → Outcome Bytes

module _ {A : Type 0} where
  -- filter((_, index) => index % 2 === 0)
  abbrev pub even_items : List A → List A
  even_items [] = []
  even_items (x ∷ []) = x ∷ []
  even_items (x ∷ y ∷ xs) = x ∷ even_items xs

  -- xs.slice(start, end)
  abbrev pub slice : ℕ → ℕ → List A → List A
  slice start end xs = take (end - start) (drop start xs)

abbrev pub not_padded : JsError
not_padded = record (js_error "Cannot read property 'toString' of undefined") { name = "TypeError" }

module _ (hex : Hex) where
  -- An element with its successor, which is undefined for the last one of an odd number.
  abbrev pub h512 : String → Option String → Outcome String
  h512 element none = err not_padded
  h512 element (some next) = ok (hex.pad_left element 64 <> hex.substr_2 (hex.pad_left next 64))

  -- map((element, index) => …), from an index on
  unfoldable pub h512s_from : List String → ℕ → List String → Outcome (List String)
  h512s_from elements index [] = ok []
  h512s_from elements index (x ∷ xs) = do
    h ← h512 x (get_elem? elements (index * 2 + 1))
    hs ← h512s_from elements (index + 1) xs
    ok (h ∷ hs)

  unfoldable pub h512s : List String → Outcome (List String)
  h512s elements = h512s_from elements 0 (even_items elements)

  abbrev pub proof_of : DagBlock → ℕ → List String
  proof_of block index =
      map (λ leaf. hex.pad_left leaf 32)
        (slice (index * block.proof_length) ((index + 1) * block.proof_length) block.merkle_proofs)

  unfoldable pub dag_nodes_from : DagBlock → List String → ℕ → List String → List DagNode
  dag_nodes_from block hs index [] = []
  dag_nodes_from block hs index (x ∷ xs) =
      record { first = x; second = get_elem? hs (index * 2 + 1); proof = proof_of block index }
      ∷ dag_nodes_from block hs (index + 1) xs

  unfoldable pub dag_nodes : DagBlock → List String → List DagNode
  dag_nodes block hs = dag_nodes_from block hs 0 (even_items hs)

  -- The arguments of add_block_header.
  unfoldable pub input_of : DagBlock → Outcome BlockInput
  input_of block = do
    hs ← h512s block.elements
    header ← hex.hex_to_bytes block.header_rlp
    ok (record { block_header = header; dag_nodes = dag_nodes block hs })
