-- ===== src/FromNear/Log.antt =====
-- The transfer log of testing/transfer-eth-erc20/from-near.js.
use rainbow_bridge_cli.Base.{ℕ, String}
use rainbow_bridge_cli.Near.Node.{TxResult}
use rainbow_bridge_cli.Borshify.OutcomeProof.{OutcomeProof}

pub data IdType : Type 0 where
  transaction receipt : IdType

-- The fields of a NEAR block's header that are read.
pub record NearBlock : Type 0 where
  pub height : ℕ

-- `finished` with the fields that are recorded beside it. `other` is any other value of `finished`.
pub data TransferLog : Type 0 where
  empty : TransferLog
  withdrawn : TxResult → TransferLog
  -- txReceiptBlockHash, txReceiptId, outcomeBlock, idType
  found : String → String → NearBlock → IdType → TransferLog
  -- clientBlockHashB58, idType, txReceiptId, clientBlockHeight
  waited : String → IdType → String → ℕ → TransferLog
  -- proofRes, clientBlockHeight
  proved : OutcomeProof → ℕ → TransferLog
  other : TransferLog

-- How many stages are finished.
abbrev pub stage : TransferLog → ℕ
stage empty = 0
stage (withdrawn tx) = 1
stage (found h i b k) = 2
stage (waited h k i n) = 3
stage (proved p n) = 4
stage other = 5
