-- ===== src/Borshify/OutcomeProof.antt =====
-- `borshifyOutcomeProof` of utils/borshify-proof.js: the proof of an outcome on NEAR as the bytes
-- that the prover on Ethereum reads.
use rainbow_bridge_cli.Base.{ℕ, String, Bool, List, [], ◌∷◌, length, if◌then◌else◌}
use rainbow_bridge_cli.Base.Bytes.{Bytes}
use rainbow_bridge_cli.Base.Io.{js_error, Outcome, ok, err}
use rainbow_bridge_cli.Borshify.Pieces.{concat, concat_map}
use rainbow_bridge_cli.Borshify.{Codec, InnerLite, borshify_inner_lite}

-- `is_right` is direction === 'Right'.
pub record PathItem : Type 0 where
  pub hash : String
  pub is_right : Bool

pub data ExecutionStatus : Type 0 where
  success_value : String → ExecutionStatus
  success_receipt_id : String → ExecutionStatus
  -- any other
  failure : ExecutionStatus

pub record ExecutionOutcome : Type 0 where
  -- the number of logs
  pub logs : ℕ
  pub receipt_ids : List String
  pub gas_burnt : ℕ
  pub tokens_burnt : ℕ
  pub executor_id : String
  pub status : ExecutionStatus

pub record OutcomeProof : Type 0 where
  pub proof : List PathItem
  pub block_hash : String
  pub id : String
  pub outcome : ExecutionOutcome
  -- block_header_lite
  pub prev_block_hash : String
  pub inner_rest_hash : String
  pub inner_lite : InnerLite
  pub block_proof : List PathItem

module _ (c : Codec) where
  unfoldable pub borshify_path_item : PathItem → Outcome Bytes
  borshify_path_item p = concat (c.decode58 p.hash ∷ ok ((if p.is_right then 1 else 0) ∷ []) ∷ [])

  -- statusToBuffer
  unfoldable pub status_to_buffer : ExecutionStatus → Outcome Bytes
  status_to_buffer (success_value v) =
      concat (ok (2 ∷ []) ∷ c.to_buffer (length (c.base64 v)) 4 ∷ ok (c.base64 v) ∷ [])
  status_to_buffer (success_receipt_id id) = concat (ok (3 ∷ []) ∷ c.decode58 id ∷ [])
  status_to_buffer failure = err (js_error "status not supported")

  unfoldable pub borshify_outcome : ExecutionOutcome → Outcome Bytes
  unfolding status_to_buffer
  borshify_outcome o = concat (
      c.to_buffer o.logs 4
      ∷ c.to_buffer (length o.receipt_ids) 4
      ∷ concat_map c.decode58 o.receipt_ids
      ∷ c.to_buffer o.gas_burnt 8
      ∷ c.to_buffer o.tokens_burnt 16
      ∷ c.to_buffer (c.js_length o.executor_id) 4
      ∷ ok (c.utf8 o.executor_id)
      ∷ status_to_buffer o.status
      ∷ [])

  unfoldable pub borshify_outcome_proof : OutcomeProof → Outcome Bytes
  unfolding borshify_path_item borshify_outcome borshify_inner_lite
  borshify_outcome_proof p = concat (
      c.to_buffer (length p.proof) 4
      ∷ concat_map borshify_path_item p.proof
      ∷ c.decode58 p.block_hash
      ∷ c.decode58 p.id
      ∷ borshify_outcome p.outcome
      ∷ c.to_buffer 0 4
      ∷ c.decode58 p.prev_block_hash
      ∷ c.decode58 p.inner_rest_hash
      ∷ borshify_inner_lite c p.inner_lite
      ∷ c.to_buffer (length p.block_proof) 4
      ∷ concat_map borshify_path_item p.block_proof
      ∷ [])
