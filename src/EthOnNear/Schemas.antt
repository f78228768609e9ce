-- ===== src/EthOnNear/Schemas.antt =====
-- The Borsh schemas and the methods of the two contracts on NEAR that follow Ethereum.
use rainbow_bridge_cli.Base.{
  ℕ, String, ◌===◌, false, Option, none, some, List, [], ◌∷◌, if◌then◌else◌,
}
use rainbow_bridge_cli.Base.Bytes.{Bytes}
use rainbow_bridge_cli.Base.Io.{JsError, js_error, Outcome, ok, err}
use rainbow_bridge_cli.Base.Sync.{◌>>=◌}
use rainbow_bridge_cli.Borsh.Types.{
  Value, bool, text, FieldType, name, seq, Reader, StructSchema, option, struct, function, Schema,
}
use rainbow_bridge_cli.Borsh.Serialize.{truthy}
use rainbow_bridge_cli.Borsh.Reader.{read_fixed_array}
use rainbow_bridge_cli.Contract.{Method}

-- hexToBytes and bytesToHex of web3
pub record Hex : Type 0 where
  pub to_bytes : String → Outcome Bytes
  pub to_hex : Bytes → String

abbrev pub not_hex : JsError
not_hex = js_error "Given value is not a valid hex string"

abbrev pub field : String → String → String × FieldType
field n t = (n, name t)

abbrev pub fields : String → String → String × FieldType
fields n t = (n, seq (name t))

module _ (hex : Hex) where
  -- hexToBuffer
  unfoldable pub hex_to_buffer : Value → Outcome Bytes
  hex_to_buffer (text s) = hex.to_bytes s
  hex_to_buffer v = err not_hex

  -- readerToHex
  unfoldable pub reader_to_hex : ℕ → Reader → Outcome (Value × Reader)
  reader_to_hex len r = do (b, r') ← read_fixed_array len r; ok (text (hex.to_hex b), r')

  unfoldable pub write_bool : Value → Outcome Bytes
  write_bool v = hex.to_bytes (if truthy v then "0x01" else "0x00")

  abbrev pub is_one : Value → Value
  is_one (text s) = bool (s === "0x01")
  is_one v = bool false

  unfoldable pub read_bool : Reader → Outcome (Value × Reader)
  read_bool r = do (v, r') ← reader_to_hex 1 r; ok (is_one v, r')

  abbrev pub hash : ℕ → StructSchema
  hash len = function hex_to_buffer (reader_to_hex len)

  -- borshSchema of the client
  abbrev pub client_schema : Schema
  client_schema =
      ("bool", function write_bool read_bool)
      ∷ (
        "initInput",
        struct (
            field "validate_ethash" "bool"
            ∷ field "dags_start_epoch" "u64"
            ∷ fields "dags_merkle_roots" "H128"
            ∷ fields "first_header" "u8"
            ∷ field "hashes_gc_threshold" "u64"
            ∷ field "finalized_gc_threshold" "u64"
            ∷ field "num_confirmations" "u64"
            ∷ field "trusted_signer" "?AccountId"
            ∷ []),
      )
      ∷ ("dagMerkleRootInput", struct (field "epoch" "u64" ∷ []))
      ∷ (
        "addBlockHeaderInput",
        struct (fields "block_header" "u8" ∷ fields "dag_nodes" "DoubleNodeWithMerkleProof" ∷ []),
      )
      ∷ (
        "DoubleNodeWithMerkleProof",
        struct (fields "dag_nodes" "H512" ∷ fields "proof" "H128" ∷ []),
      )
      ∷ ("H128", hash 16)
      ∷ ("H256", hash 32)
      ∷ ("H512", hash 64)
      ∷ ("?H256", option (name "H256"))
      ∷ ("?AccountId", option (name "string"))
      ∷ []

  -- borshSchema of the prover
  abbrev pub prover_schema : Schema
  prover_schema =
      ("initInput", struct (field "bridge_smart_contract" "string" ∷ []))
      ∷ (
        "assertEthbridgeHashInput",
        struct (field "block_number" "u64" ∷ field "expected_block_hash" "H256" ∷ []),
      )
      ∷ ("H256", hash 32)
      ∷ (
        "verifyLogEntry",
        struct (
            field "log_index" "u64"
            ∷ fields "log_entry_data" "u8"
            ∷ field "receipt_index" "u64"
            ∷ fields "receipt_data" "u8"
            ∷ fields "header_data" "u8"
            ∷ ("proof", seq (seq (name "u8")))
            ∷ field "skip_bridge_call" "bool"
            ∷ []),
      )
      ∷ []

abbrev pub method : String → Option FieldType → Option FieldType → Method
method n input output = record { name = n; input = input; output = output }

-- viewMethods and changeMethods of the client, and changeMethods of the prover
abbrev pub client_view_methods : List Method
client_view_methods =
    method "initialized" none (some (name "bool"))
    ∷ method "dag_merkle_root" (some (name "dagMerkleRootInput")) (some (name "H128"))
    ∷ method "last_block_number" none (some (name "u64"))
    ∷ method "block_hash" (some (name "u64")) (some (name "?H256"))
    ∷ method "known_hashes" (some (name "u64")) (some (seq (name "H256")))
    ∷ method "block_hash_safe" (some (name "u64")) (some (name "?H256"))
    ∷ []

abbrev pub client_change_methods : List Method
client_change_methods =
    method "init" (some (name "initInput")) none
    ∷ method "add_block_header" (some (name "addBlockHeaderInput")) none
    ∷ []

abbrev pub prover_change_methods : List Method
prover_change_methods =
    method "verify_log_entry" (some (name "verifyLogEntry")) (some (name "bool"))
    ∷ method "init" (some (name "initInput")) none
    ∷ method "assert_ethbridge_hash" (some (name "assertEthbridgeHashInput")) (some (name "bool"))
    ∷ []
