-- ===== src/Extractor.antt =====
-- eth2near/eth2near-block-relay/eth-proof-extractor.js: the proof that a log stands in a block of
-- Ethereum. The serialization of web3 objects, the Merkle tree and RLP are parameters.
pub mod Search
pub mod Reads
pub mod Genuine
pub mod Printed
use rainbow_bridge_cli.Base.{
  ℕ, suc, String, Bool, Option, none, some, List, [], ◌∷◌, map, ◌==◌, if◌then◌else◌,
}
use rainbow_bridge_cli.Base.Bytes.{Bytes}
use rainbow_bridge_cli.Base.Io.{
  JsError, js_error, Outcome, ok, err, Io, pure, call, catch, lift, ◌>>=◌, ◌>>◌,
}
use rainbow_bridge_cli.Base.Sync.{◌>>=◌ as ◌>>='◌}
use rainbow_bridge_cli.RobustWeb3.{
  Block, Log, Receipt, Web3Event, get_block, EthNode, Delays, robust_block, robust_receipt,
}

-- A node of the tree, and the tree: what has been put under which path, the first put first.
abbrev pub Node : Type 0
Node = List Bytes

abbrev pub Tree : Type 0
Tree = List (Bytes × Bytes)

pub record Packages : Type 0 where
  -- Receipt.fromWeb3, Log.fromWeb3 and Header.fromWeb3, serialized
  pub receipt_data : Receipt → Outcome Bytes
  pub log_data : Log → Outcome Bytes
  pub header_data : Block → Outcome Bytes
  -- `encode` of eth-util-lite, and rlp.encode
  pub encode : ℕ → Bytes
  pub rlp_encode : Node → Bytes
  -- the nodes on the way to a path, from `findPath` and Proof.fromStack
  pub find_path : Tree → Bytes → Outcome (List Node)

pub record Proof : Type 0 where
  pub header_rlp : Bytes
  pub receipt_proof : List Node
  pub tx_index : ℕ

-- What the contracts on NEAR are given.
pub record ProofLocker : Type 0 where
  pub log_index : ℕ
  pub log_entry_data : Bytes
  pub receipt_index : ℕ
  pub receipt_data : Bytes
  pub header_data : Bytes
  pub proof : List Bytes

-- The fields of a `Locked` event that are read. A field that is absent is `none`.
pub record LockedEvent : Type 0 where
  pub transaction_hash : Option String
  pub log_index : Option ℕ

-- What is known of the event's transaction.
pub record Extracted : Type 0 where
  pub receipt : Receipt
  pub block : Block
  pub proof : Proof

abbrev pub type_error : JsError
type_error = record (js_error "Cannot read property of null") { name = "TypeError" }

-- `currentProvider.connection` of web3: an HTTP provider has none, and one may have no `close`.
pub data Connection : Type 0 where
  closable without_close absent : Connection

-- destroy
abbrev pub destroy : Connection → Outcome (Unit {0})
destroy absent = err type_error
destroy _ = ok tt

-- web3.currentProvider.connection.close()
abbrev pub close : Connection → Outcome (Unit {0})
close closable = ok tt
close _ = err type_error

abbrev pub or_type_error : {A : Type 0} → Option A → Outcome A
or_type_error none = err type_error
or_type_error (some a) = ok a

-- A hash that is `undefined` is asked for under that text.
abbrev pub hash_of : Option String → String
hash_of none = "undefined"
hash_of (some hash) = hash

abbrev pub same_index : Option ℕ → ℕ → Bool
same_index none i = Bool.false
same_index (some j) i = i == j

-- The loop over the receipt's logs: the log with the event's index, and its place in the receipt.
unfoldable pub search : ℕ → Option ℕ → List Log → Option (Log × ℕ)
search i index [] = none
search i index (log ∷ logs) =
    if same_index index log.log_index then some (log, i) else search (suc i) index logs

abbrev pub search_event : Option ℕ → List Log → Option (Log × ℕ)
search_event index logs = search 0 index logs

module _ {D : Type 0} (delays : Delays D) (node : EthNode D) (p : Packages) where
  -- extractReceipt, where the caller reads a field of the result
  abbrev pub extract_receipt : String → Io (Web3Event D) Receipt
  extract_receipt hash = robust_receipt delays node hash >>= λ r. lift (or_type_error r)

  -- The receipts of a block. They are asked for one after the other.
  unfoldable pub block_receipts : List String → Io (Web3Event D) (List Receipt)
  block_receipts [] = pure []
  block_receipts (t ∷ ts) = extract_receipt t >>= λ r. block_receipts ts >>= λ rs. pure (r ∷ rs)

  unfoldable pub put_receipts : List Receipt → Outcome Tree
  put_receipts [] = ok []
  put_receipts (r ∷ rs) = p.receipt_data r >>=' λ serialized_receipt.
      put_receipts rs >>=' λ tree. ok ((p.encode r.transaction_index, serialized_receipt) ∷ tree)

  -- buildTrie
  unfoldable pub build_trie : Block → Io (Web3Event D) Tree
  build_trie block = block_receipts block.transactions >>= λ rs. lift (put_receipts rs)

  abbrev pub proof_with : ℕ → List Node → Bytes → Proof
  proof_with transaction_index stack header = record {
    header_rlp = header;
    receipt_proof = stack;
    tx_index = transaction_index;
  }

  abbrev pub header_of : Option Block → Outcome Bytes
  header_of b = or_type_error b >>=' p.header_data

  abbrev pub read_header : ℕ → Io (Web3Event D) Bytes
  read_header number =
      call (get_block (some number)) (node.block (some number)) >>= λ b. lift (header_of b)

  abbrev pub proof_from : Block → ℕ → List Node → Io (Web3Event D) Proof
  proof_from block transaction_index stack =
      read_header block.number >>= λ header. pure (proof_with transaction_index stack header)

  -- extractProof
  unfoldable pub extract_proof : Block → Tree → ℕ → Io (Web3Event D) Proof
  extract_proof block tree transaction_index =
      lift (p.find_path tree (p.encode transaction_index)) >>= proof_from block transaction_index

  abbrev pub with_proof : Receipt → Block → Io (Web3Event D) Extracted
  with_proof receipt block =
      (build_trie block >>= λ tree. extract_proof block tree receipt.transaction_index) >>= λ proof.
      pure (record { receipt = receipt; block = block; proof = proof })

  abbrev pub with_block : Receipt → Io (Web3Event D) Extracted
  with_block receipt = robust_block delays node (some receipt.block_number) >>= with_proof receipt

  -- The four calls of the extractor for an event.
  unfoldable pub extract : LockedEvent → Io (Web3Event D) Extracted
  extract event = extract_receipt (hash_of event.transaction_hash) >>= with_block

-- The proof for the contracts, of a log at its place in the receipt.
unfoldable pub proof_locker : Packages → Receipt → Proof → Log → ℕ → Outcome ProofLocker
proof_locker p receipt proof log tx_log_index = p.log_data log >>=' λ log_entry_data.
    p.receipt_data receipt >>=' λ receipt_data. ok (record {
      log_index = tx_log_index;
      log_entry_data = log_entry_data;
      receipt_index = proof.tx_index;
      receipt_data = receipt_data;
      header_data = proof.header_rlp;
      proof = map p.rlp_encode proof.receipt_proof;
    })

module _ {D : Type 0} (delays : Delays D) (node : EthNode D) (p : Packages) where
  abbrev pub printed : Extracted → Option (Log × ℕ) → Outcome (Option (ℕ × ProofLocker))
  printed x none = ok none
  printed x (some (log, i)) =
      proof_locker p x.receipt x.proof log i >>=' λ l. ok (some (x.block.number, l))

  abbrev pub print_proof : Option ℕ → Extracted → Outcome (Option (ℕ × ProofLocker))
  print_proof index x =
      or_type_error x.receipt.logs >>=' λ logs. printed x (search_event index logs)

  module _ (c : Connection) where
    abbrev pub print_after : Option ℕ → Extracted → Outcome (Option (ℕ × ProofLocker))
    print_after index x = destroy c >>=' λ _. print_proof index x

    abbrev pub find_event : LockedEvent → Io (Web3Event D) (Option (ℕ × ProofLocker))
    find_event event = extract delays node p event >>= λ x. lift (print_after event.log_index x)

    -- The `try` of ethToNearFindProof, with the event that JSON.parse gives: what is printed, or
    -- `none` for a failure.
    unfoldable pub find_and_print :
        Outcome LockedEvent → Io (Web3Event D) (Option (ℕ × ProofLocker))
    find_and_print locked_event = catch (lift locked_event >>= find_event) (λ e. pure none)

    -- ethToNearFindProof
    unfoldable pub eth_to_near_find_proof :
        Outcome LockedEvent → Io (Web3Event D) (Option (ℕ × ProofLocker))
    eth_to_near_find_proof locked_event =
        find_and_print locked_event >>= λ o. lift (close c) >>= λ _. pure o
