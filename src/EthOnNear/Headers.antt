-- ===== src/EthOnNear/Headers.antt =====
-- The argument of add_block_header, which submitBlock of eth2near/eth2near-block-relay/index.js makes
-- and which the schema of eth-on-near-client.js describes.
use rainbow_bridge_cli.Base.{
  ℕ, String, ◌<◌, ◌^◌, ◌≡◌, refl, suc, Option, none, some, List, [], ◌∷◌, length, arith,
}
use rainbow_bridge_cli.Base.Bytes.{Bytes}
use rainbow_bridge_cli.Base.Io.{ok}
use rainbow_bridge_cli.Borsh.Types.{
  Value, undefined, seq, num, text, array, object, Items, nil, cons, field, end, length_items,
  FieldType, name, Schema, builtin,
}
use rainbow_bridge_cli.Borsh.Reader.Ahead.{read_fixed_array-Ahead}
use rainbow_bridge_cli.Borsh.Typed.{
  Codes, Typed, byte, many, fields, custom, TypedItems, empty, item, next, no_more,
}
use rainbow_bridge_cli.Eth2Near.Blocks.{DagNode, BlockInput}
use rainbow_bridge_cli.EthOnNear.Schemas.{Hex, hex_to_buffer, reader_to_hex, client_schema}

abbrev pub array_of : {A : Type 0} → (A → Value) → List A → Items
array_of f [] = nil
array_of f (x ∷ xs) = cons (f x) (array_of f xs)

abbrev pub text_of : Option String → Value
text_of none = undefined
text_of (some s) = text s

abbrev pub node_value : DagNode → Value
node_value n = object (
    field "dag_nodes" (array (cons (text n.first) (cons (text_of n.second) nil)))
      (field "proof" (array (array_of text n.proof)) end))

-- args
abbrev pub input_value : BlockInput → Value
input_value i = object (
    field "block_header" (array (array_of num i.block_header))
      (field "dag_nodes" (array (array_of node_value i.dag_nodes)) end))

-- Every item of a list has a property.
pub data Every {A : Type 0} (P : A → Type 0) : List A → Type 0 where
  every_none : Every P []
  every_more : {x : A} {xs : List A} → P x → Every P xs → Every P (x ∷ xs)

module _ (hex : Hex) where
  -- hexToBytes reads the text as so many bytes, and bytesToHex writes them as the same text.
  pub record IsCode (n : ℕ) (s : String) : Type 0 where
    pub code : Bytes
    pub size : length code ≡ n
    pub read : hex.to_bytes s ≡ ok code
    pub spelled : hex.to_hex code ≡ s

  -- Two nodes of 64 bytes each, and a proof of texts of 16 bytes.
  pub record IsNode (n : DagNode) : Type 0 where
    pub next_node : String
    pub first_code : IsCode 64 n.first
    pub second_some : n.second ≡ some next_node
    pub second_code : IsCode 64 next_node
    pub proof_short : length n.proof < 256 ^ 4
    pub proof_codes : Every (IsCode 16) n.proof

  pub record IsInput (i : BlockInput) : Type 0 where
    pub header_short : length i.block_header < 256 ^ 4
    pub header_bytes : Every (λ b. b < 256) i.block_header
    pub nodes_short : length i.dag_nodes < 256 ^ 4
    pub nodes : Every IsNode i.dag_nodes

length_items-array_of :
    {A : Type 0} (f : A → Value) (xs : List A) → length_items (array_of f xs) ≡ length xs
length_items-array_of f [] = refl
length_items-array_of f (x ∷ xs) = rw (length_items-array_of f xs)

module _ (schema : Schema) {d : ℕ} {t : FieldType} {A : Type 0} (P : A → Type 0) (f : A → Value)
    (typed : (x : A) → P x → Typed schema d t (f x)) where
  array_of-Items : {xs : List A} → Every P xs → TypedItems schema d t (array_of f xs)
  array_of-Items every_none = empty
  array_of-Items (every_more p ps) = item (typed _ p) (array_of-Items ps)

  array_of-Typed :
      {xs : List A}
      → length xs < 256 ^ 4
      → Every P xs
      → Typed schema (suc d) (seq t) (array (array_of f xs))
  array_of-Typed {xs} short ps =
      many (let e = length_items-array_of f xs in omega arith) (array_of-Items ps)

module _ (hex : Hex) where
  hash-Codes :
      {n : ℕ} {s : String}
      → IsCode hex n s
      → Codes (hex_to_buffer hex) (reader_to_hex hex n) (text s)
  unfolding hex_to_buffer reader_to_hex
  hash-Codes c = record {
    written = c.code;
    writes = c.read;
    reads = λ r rest h. rw (← c.size) (rw (read_fixed_array-Ahead r c.code rest h) (rw c.spelled));
  }

  h512-Typed :
      {d : ℕ} {s : String}
      → IsCode hex 64 s
      → Typed (client_schema hex) (suc d) (name "H512") (text s)
  unfolding builtin
  h512-Typed c = custom refl refl (hash-Codes c)

  h128-Typed :
      {d : ℕ} {s : String}
      → IsCode hex 16 s
      → Typed (client_schema hex) (suc d) (name "H128") (text s)
  unfolding builtin
  h128-Typed c = custom refl refl (hash-Codes c)

  node_value-Typed :
      {n : DagNode}
      → IsNode hex n
      → Typed (client_schema hex) 3 (name "DoubleNodeWithMerkleProof") (node_value n)
  unfolding builtin
  node_value-Typed h = fields refl refl (
      next refl refl
        (many (omega arith) (
          item (h512-Typed h.first_code)
            (item (rw h.second_some (h512-Typed h.second_code)) empty)))
        (next refl refl (array_of-Typed _ _ _ (λ x p. h128-Typed p) h.proof_short h.proof_codes)
          (no_more refl)))

  -- An argument of add_block_header for which `IsInput` holds has the type 'addBlockHeaderInput' of
  -- the client's schema, with types nested five deep.
  pub input_value-Typed :
      (i : BlockInput)
      → IsInput hex i
      → Typed (client_schema hex) 5 (name "addBlockHeaderInput") (input_value i)
  unfolding builtin
  input_value-Typed i h = fields refl refl (
      next refl refl (array_of-Typed _ _ _ (λ x p. byte refl p) h.header_short h.header_bytes) (
        next refl refl (array_of-Typed _ _ _ (λ x p. node_value-Typed p) h.nodes_short h.nodes)
          (no_more refl)))
