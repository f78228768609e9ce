-- ===== src/Extractor/Reads.antt =====
-- The extractor of eth2near/eth2near-block-relay/eth-proof-extractor.js only reads the chain.
use rainbow_bridge_cli.Base.{ℕ, String, Option, List, [], ◌∷◌}
use rainbow_bridge_cli.Base.Io.{Io, pure, call, lift, ◌>>=◌}
use rainbow_bridge_cli.Base.Io.Rules.{bind_trace}
use rainbow_bridge_cli.Base.Io.Within.{Extends, more}
use rainbow_bridge_cli.RobustWeb3.{
  Block, Receipt, Web3Event, get_block, Trace, EthNode, Delays, robust_block, robust_receipt,
}
use rainbow_bridge_cli.RobustWeb3.Sends.{Sendless, robust_receipt-keeps, robust_block-keeps}
use rainbow_bridge_cli.Extractor.{
  Tree, Packages, Proof, LockedEvent, hash_of, or_type_error, extract_receipt, block_receipts,
  put_receipts, build_trie, header_of, read_header, proof_from, extract_proof, with_proof,
  with_block, extract,
}

module _ {D : Type 0} (delays : Delays D) (node : EthNode D) (p : Packages) (t : Trace D) where
  abbrev R : Trace D → Type 0
  R = Extends Sendless t

  extract_receipt-R :
      (hash : String) (u : Trace D) → R u → R (extract_receipt delays node p hash u).1
  extract_receipt-R hash u h =
      bind_trace R (robust_receipt delays node hash) (λ r. lift (or_type_error r)) u
        (robust_receipt-keeps delays node t hash u h)
        (λ _ _. robust_receipt-keeps delays node t hash u h)

  block_receipts-R :
      (hashes : List String) (u : Trace D) → R u → R (block_receipts delays node p hashes u).1
  unfolding block_receipts
  block_receipts-R [] u h = h
  block_receipts-R (hash ∷ hashes) u h =
      bind_trace R (extract_receipt delays node p hash)
        (λ r. block_receipts delays node p hashes >>= λ rs. pure (r ∷ rs)) u first
        (λ r _.
          let rest = block_receipts-R hashes _ first in
          bind_trace R (block_receipts delays node p hashes) (λ rs. pure (r ∷ rs)) _ rest
            (λ _ _. rest))
    where
      first : R (extract_receipt delays node p hash u).1
      first = extract_receipt-R hash u h

  build_trie-R : (block : Block) (u : Trace D) → R u → R (build_trie delays node p block u).1
  unfolding build_trie
  build_trie-R block u h =
      let read = block_receipts-R block.transactions u h in
      bind_trace R (block_receipts delays node p block.transactions)
        (λ rs. lift (put_receipts delays node p rs)) u read (λ _ _. read)

  extract_proof-R :
      (block : Block) (tree : Tree) (i : ℕ) (u : Trace D)
      → R u
      → R (extract_proof delays node p block tree i u).1
  unfolding extract_proof
  extract_proof-R block tree i u h =
      bind_trace R (lift (p.find_path tree (p.encode i))) (proof_from delays node p block i) u h
        (λ stack _. bind_trace R (read_header delays node p block.number) _ u read (λ _ _. read))
    where
      read : R (read_header delays node p block.number u).1
      read =
          bind_trace R
            (call (get_block (Option.some block.number)) (node.block (Option.some block.number)))
            (λ b. lift (header_of delays node p b)) u (more tt h) (λ _ _. more tt h)

  with_proof-R :
      (r : Receipt) (block : Block) (u : Trace D) → R u → R (with_proof delays node p r block u).1
  with_proof-R r block u h = bind_trace R proven _ u extracted (λ _ _. extracted)
    where
      proven : Io (Web3Event D) Proof
      proven = build_trie delays node p block >>= λ tree.
          extract_proof delays node p block tree r.transaction_index

      extracted : R (proven u).1
      extracted =
          let built = build_trie-R block u h in
          bind_trace R (build_trie delays node p block) _ u built
            (λ tree _. extract_proof-R block tree r.transaction_index _ built)

  pub extract-keeps :
      (event : LockedEvent) (u : Trace D) → R u → R (extract delays node p event u).1
  unfolding extract
  extract-keeps event u h =
      let first = extract_receipt-R (hash_of event.transaction_hash) u h in
      bind_trace R (extract_receipt delays node p (hash_of event.transaction_hash))
        (with_block delays node p) u first
        (λ r _.
          let second = robust_block-keeps delays node t (Option.some r.block_number) _ first in
          bind_trace R (robust_block delays node (Option.some r.block_number))
            (with_proof delays node p r) _ second (λ block _. with_proof-R r block _ second))
