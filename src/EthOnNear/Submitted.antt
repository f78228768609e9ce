-- ===== src/EthOnNear/Submitted.antt =====
-- The arguments that submitBlock of eth2near/eth2near-block-relay/index.js makes have the type that
-- the schema of eth-on-near-client.js gives them.
use rainbow_bridge_cli.Base.{
  ℕ, String, zero, suc, ◌+◌, ◌*◌, ◌-◌, ◌<◌, ◌≤◌, ◌^◌, ◌≡◌, refl, List, [], ◌∷◌, ◌++◌, map, take,
  drop, length, append_assoc, arith,
}
use rainbow_bridge_cli.Base.Bytes.{Bytes}
use rainbow_bridge_cli.Base.Io.{ok}
use rainbow_bridge_cli.Borsh.Types.{name}
use rainbow_bridge_cli.Borsh.Typed.{Typed}
use rainbow_bridge_cli.Eth2Near.Blocks
use rainbow_bridge_cli.Eth2Near.Blocks.{
  DagBlock, DagNode, BlockInput, even_items, slice, h512s, proof_of, dag_nodes_from, dag_nodes,
  input_of,
}
use rainbow_bridge_cli.Eth2Near.Pairs.{flat, get_elem?-behind, index_next, joined, h512s-flat}
use rainbow_bridge_cli.EthOnNear.Schemas.{Hex, client_schema}
use rainbow_bridge_cli.EthOnNear.Headers.{
  Every, every_none, every_more, IsCode, IsNode, input_value, input_value-Typed,
}

module _ {A : Type 0} {P : A → Type 0} where
  Every-drop : (n : ℕ) {xs : List A} → Every P xs → Every P (drop n xs)
  Every-drop zero ps = ps
  Every-drop (suc n) every_none = every_none
  Every-drop (suc n) (every_more p ps) = Every-drop n ps

  Every-take : (n : ℕ) {xs : List A} → Every P xs → Every P (take n xs)
  Every-take zero ps = every_none
  Every-take (suc n) every_none = every_none
  Every-take (suc n) (every_more p ps) = every_more p (Every-take n ps)

Every-map :
    {A B : Type 0} (P : B → Type 0) (f : A → B) {xs : List A}
    → Every (λ x. P (f x)) xs
    → Every P (map f xs)
Every-map P f every_none = every_none
Every-map P f (every_more p ps) = every_more p (Every-map P f ps)

module _ {A : Type 0} where
  drop_short : (n : ℕ) (xs : List A) → length (drop n xs) ≤ length xs
  drop_short zero xs = omega arith
  drop_short (suc n) [] = omega arith
  drop_short (suc n) (x ∷ xs) = let h = drop_short n xs in omega arith

  take_short : (n : ℕ) (xs : List A) → length (take n xs) ≤ length xs
  take_short zero xs = omega arith
  take_short (suc n) [] = omega arith
  take_short (suc n) (x ∷ xs) = let h = take_short n xs in omega arith

  slice_short : (m n : ℕ) (xs : List A) → length (slice m n xs) ≤ length xs
  slice_short m n xs =
      let a = drop_short m xs in let b = take_short (n - m) (drop m xs) in omega arith

map_short : {A B : Type 0} (f : A → B) (xs : List A) → length (map f xs) ≡ length xs
map_short f [] = refl
map_short f (x ∷ xs) = rw (map_short f xs)

-- Both halves of a pair.
abbrev both : {A B : Type 0} → (A → B) → A × A → B × B
both f (a, b) = (f a, f b)

map-flat : {A B : Type 0} (f : A → B) (ps : List (A × A)) → map f (flat ps) ≡ flat (map (both f) ps)
map-flat f [] = refl
map-flat f ((a, b) ∷ ps) = rw (map-flat f ps)

module _ (web3 : Blocks.Hex) (hex : Hex) where
  -- The output of the relayer: four elements to a pair of nodes, each two of them 64 bytes once they
  -- are padded and joined, and leaves that are 16 bytes once they are padded.
  pub record IsDag (block : DagBlock) (header : Bytes)
      (quads : List ((String × String) × (String × String))) : Type 0 where
    pub header_read : web3.hex_to_bytes block.header_rlp ≡ ok header
    pub header_short : length header < 256 ^ 4
    pub header_bytes : Every (λ b. b < 256) header
    pub grouped : block.elements ≡ flat (flat quads)
    pub quads_short : length quads < 256 ^ 4
    pub joined_codes : Every (λ p. IsCode hex 64 (joined web3 p)) (flat quads)
    pub leaves_short : length block.merkle_proofs < 256 ^ 4
    pub leaf_codes : Every (λ s. IsCode hex 16 (web3.pad_left s 32)) block.merkle_proofs

  module _ (block : DagBlock) (short : length block.merkle_proofs < 256 ^ 4)
      (codes : Every (λ s. IsCode hex 16 (web3.pad_left s 32)) block.merkle_proofs) where
    proof_of-short : (index : ℕ) → length (proof_of web3 block index) < 256 ^ 4
    proof_of-short index =
        let m = index * block.proof_length in
        let n = (index + 1) * block.proof_length in
        let a = map_short (λ leaf. web3.pad_left leaf 32) (slice m n block.merkle_proofs) in
        let b = slice_short m n block.merkle_proofs in omega (arith, a, b, short)

    proof_of-codes : (index : ℕ) → Every (IsCode hex 16) (proof_of web3 block index)
    proof_of-codes index = Every-map _ _ (Every-take _ (Every-drop _ codes))

    dag_nodes_from-Nodes :
        (before : List String) (index : ℕ) (ps : List (String × String))
        → index * 2 ≡ length before
        → Every (IsCode hex 64) (flat ps)
        → Every
            (IsNode hex)
            (dag_nodes_from web3 block (before ++ flat ps) index (even_items (flat ps)))
    unfolding dag_nodes_from
    dag_nodes_from-Nodes before index [] h cs = every_none
    dag_nodes_from-Nodes before index ((a, b) ∷ ps) h (every_more c (every_more d cs)) =
        every_more
          (record {
            next_node = b;
            first_code = c;
            second_some = rw h (get_elem?-behind before a b (flat ps));
            second_code = d;
            proof_short = proof_of-short index;
            proof_codes = proof_of-codes index;
          })
          (rw append_assoc at (
            dag_nodes_from-Nodes (before ++ a ∷ b ∷ []) (index + 1) ps
              (index_next before a b index h) cs))

    length-dag_nodes_from :
        (hs : List String) (index : ℕ) (ps : List (String × String))
        → length (dag_nodes_from web3 block hs index (even_items (flat ps))) ≡ length ps
    unfolding dag_nodes_from
    length-dag_nodes_from hs index [] = refl
    length-dag_nodes_from hs index ((a, b) ∷ ps) = rw (length-dag_nodes_from hs (index + 1) ps)

  -- If hexToBytes reads the header as fewer than 2 ^ 32 bytes, each below 256, if the elements come in
  -- fours, fewer than 2 ^ 32 of them, of which each two neighbours, padded and joined, are the hex form
  -- of 64 bytes, and if fewer than 2 ^ 32 leaves, once padded, are the hex form of 16 bytes, then the
  -- arguments of add_block_header are made without an exception, and they have the type
  -- 'addBlockHeaderInput' of the client's schema, with types nested five deep.
  pub input_of-Typed :
      (block : DagBlock) (header : Bytes) (quads : List ((String × String) × (String × String)))
      → IsDag block header quads
      → (i : BlockInput) × (input_of web3 block ≡ ok i)
        × Typed (client_schema hex) 5 (name "addBlockHeaderInput") (input_value i)
  unfolding input_of dag_nodes
  input_of-Typed block header quads h =
      let ps = map (both (joined web3)) quads in
      let e : map (joined web3) (flat quads) ≡ flat ps = map-flat (joined web3) quads in
      let cs : Every (IsCode hex 64) (flat ps) =
        rw e at (Every-map (IsCode hex 64) (joined web3) h.joined_codes) in
      let i : BlockInput = record {
        block_header = header;
        dag_nodes = dag_nodes web3 block (flat ps);
      } in
      (
        i,
        rw h.grouped (rw (h512s-flat web3 (flat quads)) (rw h.header_read (rw e refl))),
        input_value-Typed hex i (record {
          header_short = h.header_short;
          header_bytes = h.header_bytes;
          nodes_short =
              (let a = length-dag_nodes_from block h.leaves_short h.leaf_codes (flat ps) 0 ps in
                let b = map_short (both (joined web3)) quads in
                let c = h.quads_short in omega arith);
          nodes = dag_nodes_from-Nodes block h.leaves_short h.leaf_codes [] 0 ps refl cs;
        }),
      )
