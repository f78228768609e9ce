-- ===== src/Extractor/Genuine.antt =====
-- What the extractor of eth2near/eth2near-block-relay/eth-proof-extractor.js returns comes from the
-- chain.
use rainbow_bridge_cli.Base.{ℕ, String, ◌≡◌, refl, ap, Option, none, some, List, [], ◌∷◌}
use rainbow_bridge_cli.Base.Bytes.{Bytes}
use rainbow_bridge_cli.Base.Io.{ok, resolve, pure, call, lift, ◌>>=◌}
use rainbow_bridge_cli.Base.Io.Rules.{Returns, bind_after, call-Returns, lift-Returns}
use rainbow_bridge_cli.Base.Sync.{bind-ok}
use rainbow_bridge_cli.RobustWeb3.{
  Block, Receipt, get_block, Trace, EthNode, Delays, robust_block, robust_receipt,
}
use rainbow_bridge_cli.RobustWeb3.Answers.{
  GivesReceipt, GivesBlock, robust_receipt-Gives, robust_block-Gives,
}
use rainbow_bridge_cli.Extractor.{
  Tree, Packages, Proof, LockedEvent, Extracted, hash_of, or_type_error, extract_receipt,
  block_receipts, put_receipts, build_trie, header_of, read_header, proof_from, extract_proof,
  with_proof, with_block, extract,
}

pub or_type_error-some : {A : Type 0} (o : Option A) (a : A) → or_type_error o ≡ ok a → o ≡ some a
or_type_error-some none a h = cc
or_type_error-some (some b) a h = let q : b ≡ a = cc in ap some q

module _ {D : Type 0} (node : EthNode D) (p : Packages) where
  -- The receipts that the node gave for the hashes.
  data Receipts : List String → List Receipt → Type 0 where
    none_asked : Receipts [] []
    one_more :
        {hash : String} {hashes : List String} {r : Receipt} {rs : List Receipt}
        → GivesReceipt node hash (some r)
        → Receipts hashes rs
        → Receipts (hash ∷ hashes) (r ∷ rs)

  -- The tree holds, for each of the hashes, the serialized receipt that the node gave for it, under
  -- its index in the block.
  pub data Holds : List String → Tree → Type 0 where
    holds_none : Holds [] []
    holds_more :
        {hash : String} {hashes : List String} {r : Receipt} {bytes : Bytes} {tree : Tree}
        → GivesReceipt node hash (some r)
        → p.receipt_data r ≡ ok bytes
        → Holds hashes tree
        → Holds (hash ∷ hashes) ((p.encode r.transaction_index, bytes) ∷ tree)

  -- The proof leads to this index in the tree of the block's receipts, and holds the header that the
  -- node gave for the block's number.
  pub record Leads (block : Block) (index : ℕ) (proof : Proof) : Type 0 where
    pub tree : Tree
    pub holds : Holds block.transactions tree
    pub path : p.find_path tree (p.encode index) ≡ ok proof.receipt_proof
    pub of_index : proof.tx_index ≡ index
    pub header_block : Block
    pub given : GivesBlock node (some block.number) header_block
    pub header : p.header_data header_block ≡ ok proof.header_rlp

  -- The receipt is that of the event's transaction, the block that of the receipt's number, and the
  -- proof leads to the receipt's index in that block.
  pub record Genuine (event : LockedEvent) (x : Extracted) : Type 0 where
    pub receipt_given : GivesReceipt node (hash_of event.transaction_hash) (some x.receipt)
    pub block_given : GivesBlock node (some x.receipt.block_number) x.block
    pub proves : Leads x.block x.receipt.transaction_index x.proof

module _ {D : Type 0} (delays : Delays D) (node : EthNode D) (p : Packages) where
  extract_receipt-Gives :
      (hash : String) (t : Trace D)
      → Returns (λ r _. GivesReceipt node hash (some r)) (extract_receipt delays node p hash t)
  extract_receipt-Gives hash t =
      bind_after (λ r _. GivesReceipt node hash r) (λ r _. GivesReceipt node hash (some r))
        (robust_receipt delays node hash) (λ r. lift (or_type_error r)) t
        (robust_receipt-Gives delays node hash t)
        (λ o u g. lift-Returns _ (or_type_error o) u (λ r e. rw (or_type_error-some o r e) at g))

  block_receipts-Receipts :
      (hashes : List String) (t : Trace D)
      → Returns (λ rs _. Receipts node p hashes rs) (block_receipts delays node p hashes t)
  unfolding block_receipts
  block_receipts-Receipts [] t = none_asked
  block_receipts-Receipts (hash ∷ hashes) t =
      bind_after (λ r _. GivesReceipt node hash (some r))
        (λ rs _. Receipts node p (hash ∷ hashes) rs) (extract_receipt delays node p hash)
        (λ r. block_receipts delays node p hashes >>= λ rs. pure (r ∷ rs)) t
        (extract_receipt-Gives hash t)
        (λ r u g.
          bind_after (λ rs _. Receipts node p hashes rs)
            (λ rs _. Receipts node p (hash ∷ hashes) rs) (block_receipts delays node p hashes)
            (λ rs. pure (r ∷ rs)) u (block_receipts-Receipts hashes u) (λ rs _ h. one_more g h))

  put_receipts-Holds :
      {hashes : List String} {rs : List Receipt} (tree : Tree)
      → Receipts node p hashes rs
      → put_receipts delays node p rs ≡ ok tree
      → Holds node p hashes tree
  unfolding put_receipts
  put_receipts-Holds tree none_asked e = let q : [] ≡ tree = cc in rw (← q) holds_none
  put_receipts-Holds tree (one_more {r = r} g h) e =
      let (d, q, e') = bind-ok (p.receipt_data r) _ e in
      let (rest, e2, e3) = bind-ok _ _ e' in
      let s : (p.encode r.transaction_index, d) ∷ rest ≡ tree = cc in
      rw (← s) (holds_more g q (put_receipts-Holds rest h e2))

  build_trie-Holds :
      (block : Block) (t : Trace D)
      → Returns (λ tree _. Holds node p block.transactions tree) (build_trie delays node p block t)
  unfolding build_trie
  build_trie-Holds block t =
      bind_after (λ rs _. Receipts node p block.transactions rs)
        (λ tree _. Holds node p block.transactions tree)
        (block_receipts delays node p block.transactions)
        (λ rs. lift (put_receipts delays node p rs)) t
        (block_receipts-Receipts block.transactions t)
        (λ rs u h.
          lift-Returns _ (put_receipts delays node p rs) u (λ tree e. put_receipts-Holds tree h e))

  extract_proof-Leads :
      (block : Block) (tree : Tree) (index : ℕ) (t : Trace D)
      → Holds node p block.transactions tree
      → Returns
          (λ proof _. Leads node p block index proof)
          (extract_proof delays node p block tree index t)
  unfolding extract_proof
  extract_proof-Leads block tree index t h =
      bind_after (λ stack _. p.find_path tree (p.encode index) ≡ ok stack)
        (λ proof _. Leads node p block index proof) (lift (p.find_path tree (p.encode index)))
        (proof_from delays node p block index) t
        (lift-Returns _ (p.find_path tree (p.encode index)) t (λ stack e. e))
        (λ stack u e.
          bind_after (λ header _. IsHeader header) (λ proof _. Leads node p block index proof)
            (read_header delays node p block.number) _ u (read u)
            (λ header _ (b, g, q). record {
              tree = tree;
              holds = h;
              path = e;
              of_index = refl;
              header_block = b;
              given = g;
              header = q;
            }))
    where
      IsHeader : Bytes → Type 0
      IsHeader header =
          (b : Block) × GivesBlock node (some block.number) b × (p.header_data b ≡ ok header)

      read :
          (u : Trace D)
          → Returns (λ header _. IsHeader header) (read_header delays node p block.number u)
      read u =
          bind_after (λ o _. (v : Trace D) × (node.block (some block.number) v ≡ resolve o))
            (λ header _. IsHeader header)
            (call (get_block (some block.number)) (node.block (some block.number)))
            (λ b. lift (header_of delays node p b)) u
            (call-Returns _ (get_block (some block.number)) (node.block (some block.number)) u
              (λ o e. (_, e)))
            (λ o w (v, e). lift-Returns _ (header_of delays node p o) w (λ header q.
              let (b, s, q') = bind-ok (or_type_error o) p.header_data q in
              (b, (v, (rw (or_type_error-some o b s) at e)), q')))

  pub extract-Genuine :
      (event : LockedEvent) (t : Trace D)
      → Returns (λ x _. Genuine node p event x) (extract delays node p event t)
  unfolding extract
  extract-Genuine event t =
      bind_after (λ r _. GivesReceipt node (hash_of event.transaction_hash) (some r))
        (λ x _. Genuine node p event x)
        (extract_receipt delays node p (hash_of event.transaction_hash)) (with_block delays node p)
        t (extract_receipt-Gives (hash_of event.transaction_hash) t)
        (λ r u g.
          bind_after (λ b _. GivesBlock node (some r.block_number) b)
            (λ x _. Genuine node p event x) (robust_block delays node (some r.block_number))
            (with_proof delays node p r) u (robust_block-Gives delays node (some r.block_number) u)
            (λ b v k.
              bind_after (λ proof _. Leads node p b r.transaction_index proof)
                (λ x _. Genuine node p event x)
                (build_trie delays node p b >>= λ tree.
                  extract_proof delays node p b tree r.transaction_index)
                _ v
                (bind_after (λ tree _. Holds node p b.transactions tree)
                  (λ proof _. Leads node p b r.transaction_index proof) (build_trie delays node p b)
                  _ v (build_trie-Holds b v)
                  (λ tree w h. extract_proof-Leads b tree r.transaction_index w h))
                (λ proof w l. record { receipt_given = g; block_given = k; proves = l })))
