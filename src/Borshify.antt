-- ===== src/Borshify.antt =====
-- `borshify` and `borshifyInitialValidators` of utils/borsh.js: a NEAR light client block and a list
-- of block producers as the bytes that the contracts on Ethereum read. bs58, bn.js and the encoding
-- of texts are parameters.
pub mod Pieces
pub mod OutcomeProof
pub mod Survival
pub mod NearDecoder
pub mod Validators
use rainbow_bridge_cli.Base.{
  ℕ, suc, String, Bool, Option, none, some, List, [], ◌∷◌, ◌++◌, ◌===◌, length, starts_with,
  if◌then◌else◌,
}
use rainbow_bridge_cli.Base.Bytes.{Bytes}
use rainbow_bridge_cli.Base.Io.{JsError, js_error, Outcome, ok, err}
use rainbow_bridge_cli.Borshify.Pieces.{concat, concat_map}

-- What other packages and the runtime give.
pub record Codec : Type 0 where
  -- bs58.decode, which throws on other characters
  pub decode58 : String → Outcome Bytes
  -- Web3.utils.toBN(n).toBuffer('le', length), which throws if `n` does not fit
  pub to_buffer : ℕ → ℕ → Outcome Bytes
  -- Buffer.from(text)
  pub utf8 : String → Bytes
  -- Buffer.from(text, 'base64')
  pub base64 : String → Bytes
  -- text.length
  pub js_length : String → ℕ
  -- text.substr(8)
  pub substr_8 : String → String

-- `inner_lite` of a block. Numbers are texts of digits in JavaScript.
pub record InnerLite : Type 0 where
  pub height : ℕ
  pub epoch_id : String
  pub next_epoch_id : String
  pub prev_state_root : String
  pub outcome_root : String
  -- absent from blocks of older nodes
  pub timestamp_nanosec : Option ℕ
  pub timestamp : ℕ
  pub next_bp_hash : String
  pub block_merkle_root : String

pub record BlockProducer : Type 0 where
  pub account_id : String
  pub public_key : String
  pub stake : ℕ

pub record LightClientBlock : Type 0 where
  pub prev_block_hash : String
  pub next_block_inner_hash : String
  pub inner_lite : InnerLite
  pub inner_rest_hash : String
  -- `none` is null
  pub next_bps : Option (List BlockProducer)
  -- a signature, or null
  pub approvals_after_next : List (Option String)

abbrev pub or_timestamp : Option ℕ → ℕ → ℕ
or_timestamp none t = t
or_timestamp (some n) t = n

-- inner_lite.timestamp_nanosec || inner_lite.timestamp
abbrev pub nanoseconds : InnerLite → ℕ
nanoseconds b = or_timestamp b.timestamp_nanosec b.timestamp

abbrev pub null_length : JsError
null_length = record (js_error "Cannot read property 'length' of null") { name = "TypeError" }

-- text.substr(0, 8) === 'ed25519:' ? Buffer.from([0]) : Buffer.from([1])
abbrev pub key_type : String → Bytes
key_type key = (if starts_with key "ed25519:" then 0 else 1) ∷ []

module _ (c : Codec) where
  unfoldable pub borshify_inner_lite : InnerLite → Outcome Bytes
  borshify_inner_lite b = concat (
      c.to_buffer b.height 8
      ∷ c.decode58 b.epoch_id
      ∷ c.decode58 b.next_epoch_id
      ∷ c.decode58 b.prev_state_root
      ∷ c.decode58 b.outcome_root
      ∷ c.to_buffer (nanoseconds b) 8
      ∷ c.decode58 b.next_bp_hash
      ∷ c.decode58 b.block_merkle_root
      ∷ [])

  unfoldable pub borshify_producer : BlockProducer → Outcome Bytes
  borshify_producer p = concat (
      c.to_buffer (c.js_length p.account_id) 4
      ∷ ok (c.utf8 p.account_id)
      ∷ ok (key_type p.public_key)
      ∷ c.decode58 (c.substr_8 p.public_key)
      ∷ c.to_buffer p.stake 16
      ∷ [])

  unfoldable pub borshify_approval : Option String → Outcome Bytes
  borshify_approval none = ok (0 ∷ [])
  borshify_approval (some signature) =
      concat (ok (1 ∷ []) ∷ ok (key_type signature) ∷ c.decode58 (c.substr_8 signature) ∷ [])

  unfoldable pub borshify_next_bps : Option (List BlockProducer) → Outcome Bytes
  borshify_next_bps none = err null_length
  borshify_next_bps (some ps) =
      concat (c.to_buffer (length ps) 4 ∷ concat_map borshify_producer ps ∷ [])

  unfoldable pub borshify : LightClientBlock → Outcome Bytes
  unfolding borshify_inner_lite borshify_producer borshify_approval borshify_next_bps
  borshify b = concat (
      c.decode58 b.prev_block_hash
      ∷ c.decode58 b.next_block_inner_hash
      ∷ borshify_inner_lite b.inner_lite
      ∷ c.decode58 b.inner_rest_hash
      ∷ ok (1 ∷ [])
      ∷ borshify_next_bps b.next_bps
      ∷ c.to_buffer (length b.approvals_after_next) 4
      ∷ concat_map borshify_approval b.approvals_after_next
      ∷ [])

  unfoldable pub borshify_initial_validators : List BlockProducer → Outcome Bytes
  unfolding borshify_producer
  borshify_initial_validators ps =
      concat (c.to_buffer (length ps) 4 ∷ concat_map borshify_producer ps ∷ [])
