-- ===== src/Contract.antt =====
-- `BorshContract` of utils/borsh.js: the methods of a NEAR contract that takes and gives Borsh. A
-- view method is a query, which is tried again; a change method is a transaction.
pub mod Calls
use rainbow_bridge_cli.Base.{ℕ, String, Option, none, some, List, [], ◌∷◌}
use rainbow_bridge_cli.Base.Bytes.{Bytes}
use rainbow_bridge_cli.Base.Sync.{◌>>=◌ as ◌>>='◌}
use rainbow_bridge_cli.Base.Io.{
  JsError, js_error, Outcome, ok, err, exit, hangs, out_of_fuel, Reply, Io, pure, throw, call, lift,
  ◌>>=◌,
}
use rainbow_bridge_cli.Retry.{backoff}
use rainbow_bridge_cli.Near.Node.{TxResult, NearEvent, NearNode}
use rainbow_bridge_cli.Near.SendTx.{sign_and_send_transaction}
use rainbow_bridge_cli.Near.Async.{sign_and_send_async}
use rainbow_bridge_cli.RobustWeb3.{Delays}
use rainbow_bridge_cli.Borsh.Types.{Value, FieldType, Schema}
use rainbow_bridge_cli.Borsh.Serialize.{BinaryWriter, serialize}
use rainbow_bridge_cli.Borsh.Deserialize.{deserialize}

pub data QueryEvent (D : Type 0) : Type 0 where
  -- provider.query, with the method's name and its arguments
  query : String → Bytes → QueryEvent D
  paused : D → QueryEvent D

abbrev pub Trace : Type 0 → Type 0
Trace D = List (QueryEvent D)

-- The contract's account on the node. A transaction that calls a method is signed with that method
-- and its arguments.
pub record Node (D : Type 0) : Type 0 where
  -- the bytes of `result.result`, where none are the empty list
  pub query : String → Bytes → Trace D → Reply Bytes
  pub calling : String → Bytes → NearNode
  -- Buffer.from(text, 'base64')
  pub base64 : String → Bytes

-- What the codec is given, and how deep types nest.
pub record Coding : Type 0 where
  pub writer : BinaryWriter
  pub number : Bytes → ℕ
  pub schema : Schema
  pub depth : ℕ

pub record Method : Type 0 where
  pub name : String
  pub input : Option FieldType
  pub output : Option FieldType

abbrev pub no_buffer : JsError
no_buffer = record (js_error "The first argument must be of type string. Received undefined") {
  name = "TypeError";
}

module _ (coding : Coding) (m : Method) where
  unfoldable pub encode_args : Value → Outcome Bytes
  encode_args args = serialize coding.writer coding.schema coding.depth m.input args

  -- result.result && result.result.length > 0 && deserialize(…): `none` is a falsy result.
  unfoldable pub decode_result : Bytes → Outcome (Option Value)
  decode_result [] = ok none
  decode_result (b ∷ bs) =
      deserialize coding.number coding.schema coding.depth m.output (b ∷ bs) >>=' λ v. ok (some v)

  module _ {D : Type 0} (delays : Delays D) (node : Node D) where
    abbrev pub ask : Bytes → Io (QueryEvent D) Bytes
    ask b = call (query m.name b) (node.query m.name b)

    abbrev pub ask_often : Bytes → Io (QueryEvent D) Bytes
    ask_often b = backoff delays.product delays.wait paused 10 (ask b) delays.delay delays.wait

    -- A view method.
    unfoldable pub view_method : Value → Io (QueryEvent D) (Option Value)
    view_method args = (lift (encode_args args) >>= ask_often) >>= λ b. lift (decode_result b)

    -- getBorshTransactionLastResult
    unfoldable pub last_result : TxResult → Outcome Bytes
    last_result r = elim r.success_value [ none ↦ err no_buffer | some s ↦ ok (node.base64 s) ]

    unfoldable pub decode_last : Outcome TxResult → Outcome Value
    decode_last r =
        r >>=' last_result >>=' deserialize coding.number coding.schema coding.depth m.output

    abbrev pub send_change : ℕ → Outcome Bytes → Io NearEvent (Outcome Value × ℕ)
    send_change nonce (ok b) = sign_and_send_transaction (node.calling m.name b) nonce >>= λ (r, k).
        pure (decode_last r, k)
    send_change nonce (err e) = pure (err e, nonce)
    send_change nonce (exit n) = pure (exit n, nonce)
    send_change nonce hangs = pure (hangs, nonce)
    send_change nonce out_of_fuel = pure (out_of_fuel, nonce)

    -- A change method, beside the nonce that is left in the access key.
    unfoldable pub change_method : ℕ → Value → Io NearEvent (Outcome Value × ℕ)
    change_method nonce args = send_change nonce (encode_args args)

    abbrev pub send_async : ℕ → Outcome Bytes → Io NearEvent (Outcome String × ℕ)
    send_async nonce (ok b) = sign_and_send_async (node.calling m.name b) nonce
    send_async nonce (err e) = pure (err e, nonce)
    send_async nonce (exit n) = pure (exit n, nonce)
    send_async nonce hangs = pure (hangs, nonce)
    send_async nonce out_of_fuel = pure (out_of_fuel, nonce)

    -- The method with `_async` behind its name.
    unfoldable pub async_method : ℕ → Value → Io NearEvent (Outcome String × ℕ)
    async_method nonce args = send_async nonce (encode_args args)
