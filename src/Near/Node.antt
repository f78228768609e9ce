-- ===== src/Near/Node.antt =====
-- The NEAR node and the signer as utils/robust.js and utils/borsh.js use them.
use rainbow_bridge_cli.Base.{
  ℕ, suc, String, Bool, true, false, Option, none, some, List, [], ◌∷◌, ◌||◌,
}
use rainbow_bridge_cli.Base.Io.{Reply}

-- A signed transaction: its hash and the encoded bytes.
pub record SignedTx : Type 0 where
  pub hash : String
  pub encoded : List ℕ

-- One of `receipts_outcome`.
pub record ReceiptOutcome : Type 0 where
  pub id : String
  pub success_receipt_id : Option String
  pub block_hash : String

-- The result of `txStatus`: `status`, with `Failure` as its JSON text, and the receipts of the
-- transaction's outcome.
pub record TxResult : Type 0 where
  pub receipt_ids : List String
  pub receipts_outcome : List ReceiptOutcome
  pub success_value : Option String
  pub failure : Option String

abbrev pub is_defined : Option String → Bool
is_defined none = false
is_defined (some s) = true

-- result.status.SuccessValue !== undefined || result.status.Failure !== undefined
abbrev pub is_final : TxResult → Bool
is_final r = is_defined r.success_value || is_defined r.failure

pub data NearEvent : Type 0 where
  -- provider.status()
  node_status : NearEvent
  -- signTransaction, with its nonce and block hash
  signing : ℕ → String → NearEvent
  -- sendJsonRpc('broadcast_tx_async')
  broadcast : SignedTx → NearEvent
  -- provider.txStatus, with the transaction's hash
  tx_status : String → NearEvent
  -- sleep, in milliseconds
  slept : ℕ → NearEvent

abbrev pub Trace : Type 0
Trace = List NearEvent

pub record NearNode : Type 0 where
  -- the hash of the latest block
  pub status : Trace → Reply String
  pub sign : ℕ → String → Trace → Reply SignedTx
  pub send : SignedTx → Trace → Reply (Unit {0})
  pub tx_status : String → Trace → Reply TxResult

-- How many transactions a trace hands to the node.
abbrev pub count_broadcasts : Trace → ℕ
count_broadcasts [] = 0
count_broadcasts (broadcast tx ∷ t) = suc (count_broadcasts t)
count_broadcasts (_ ∷ t) = count_broadcasts t

-- The nonces that were signed, the latest first.
abbrev pub signed_nonces : Trace → List ℕ
signed_nonces [] = []
signed_nonces (signing n h ∷ t) = n ∷ signed_nonces t
signed_nonces (_ ∷ t) = signed_nonces t
