-- ===== src/Contract/Calls.antt =====
-- What passes between a caller and a contract through `BorshContract` of utils/borsh.js.
use rainbow_bridge_cli.Base.{ℕ, String, some, List, [], ◌∷◌, ◌≡◌, ◌≢◌, refl}
use rainbow_bridge_cli.Base.Bytes.{Bytes, le_value}
use rainbow_bridge_cli.Base.Io.{ok, resolve}
use rainbow_bridge_cli.Retry.{backoff}
use rainbow_bridge_cli.RobustWeb3.{Delays}
use rainbow_bridge_cli.Near.Node.{TxResult, NearEvent}
use rainbow_bridge_cli.Near.SendTx.{sign_and_send_transaction}
use rainbow_bridge_cli.Borsh.Types.{Value, FieldType}
use rainbow_bridge_cli.Borsh.Serialize.{IsBorsh, serialize}
use rainbow_bridge_cli.Borsh.Deserialize.{deserialize}
use rainbow_bridge_cli.Borsh.Typed.{Typed}
use rainbow_bridge_cli.Borsh.Whole.{deserialize-serialize}
use rainbow_bridge_cli.Contract.{
  query, Trace, Node, Coding, Method, encode_args, decode_result, view_method, decode_last,
  last_result, change_method,
}

module _ {D : Type 0} (delays : Delays D) (node : Node D) (coding : Coding)
    (lawful : IsBorsh coding.writer) (number_le : (b : Bytes) → coding.number b ≡ le_value b)
    (m : Method) {t t' : FieldType} {args result : Value} (input : m.input ≡ some t)
    (output : m.output ≡ some t') (typed_args : Typed coding.schema coding.depth t args)
    (typed_result : Typed coding.schema coding.depth t' result) where
  -- The bytes that stand for the arguments.
  abbrev pub ArgBytes : Bytes → Type 0
  ArgBytes b =
      (encode_args coding m args ≡ ok b)
      × (deserialize coding.number coding.schema coding.depth m.input b ≡ ok args)

  -- The bytes with which the contract answers the result.
  abbrev pub ResultBytes : Bytes → Type 0
  ResultBytes b = serialize coding.writer coding.schema coding.depth m.output result ≡ ok b

  encoded : (b : Bytes) × ArgBytes b
  encoded =
      let (b, p, q) =
        deserialize-serialize coding.writer lawful coding.number number_le coding.schema
          typed_args in
      (b, (unfold encode_args in rw input p, rw input q))

  decoded :
      (b : Bytes)
      → ResultBytes b
      → deserialize coding.number coding.schema coding.depth m.output b ≡ ok result
  decoded b e =
      let (b', p, q) =
        deserialize-serialize coding.writer lawful coding.number number_le coding.schema
          typed_result in
      same b' p q (rw output at e)
    where
      same :
          (b' : Bytes)
          → serialize coding.writer coding.schema coding.depth (some t') result ≡ ok b'
          → deserialize coding.number coding.schema coding.depth (some t') b' ≡ ok result
          → serialize coding.writer coding.schema coding.depth (some t') result ≡ ok b
          → deserialize coding.number coding.schema coding.depth m.output b ≡ ok result
      same b' p q e' = let f : b' ≡ b = cc in rw output (rw f at q)

  decode_result-back :
      (b : Bytes) → b ≢ [] → ResultBytes b → decode_result coding m b ≡ ok (some result)
  unfolding decode_result
  decode_result-back [] n e = absurd (n refl)
  decode_result-back (x ∷ b) n e = rw (decoded (x ∷ b) e)

  view-asked :
      (a b : Bytes) (u : Trace D)
      → encode_args coding m args ≡ ok a
      → node.query m.name a (query m.name a ∷ u) ≡ resolve b
      → decode_result coding m b ≡ ok (some result)
      → view_method coding m delays node args u ≡ (ok (some result), query m.name a ∷ u)
  unfolding view_method backoff
  view-asked a b u e f g = rw e (rw f (rw g))

  -- If the arguments and a result are described by the method's types, and the contract answers a
  -- query with the bytes of the arguments at once with the result's bytes, of which there is one at
  -- least, then a view method asks the contract once, with bytes that deserialize to the arguments,
  -- and returns that result.
  pub view_method-Answers :
      (b : Bytes) (u : Trace D)
      → ResultBytes b
      → b ≢ []
      → ((a : Bytes) → ArgBytes a → node.query m.name a (query m.name a ∷ u) ≡ resolve b)
      → (a : Bytes) × ArgBytes a
        × (view_method coding m delays node args u ≡ (ok (some result), query m.name a ∷ u))
  view_method-Answers b u e n answers =
      let (a, pq) = encoded in
      (a, pq, view-asked a b u pq.0 (answers a pq) (decode_result-back b n e))

  -- If the arguments and a result are described by the method's types, and the transaction that
  -- calls the method with the bytes of the arguments ends in a `SuccessValue` that stands for the
  -- result's bytes, then a change method returns that result, with the trace and the nonce that this
  -- transaction ends with.
  pub change_method-Answers :
      (b : Bytes) (s : String) (nonce : ℕ) (u : List NearEvent)
      → ResultBytes b
      → node.base64 s ≡ b
      → ((a : Bytes)
          → ArgBytes a
          → (v : List NearEvent) × (k : ℕ) × (r : TxResult) × (r.success_value ≡ some s)
            × (sign_and_send_transaction (node.calling m.name a) nonce u ≡ (ok (ok r, k), v)))
      → (a : Bytes) × ArgBytes a
        × (v : List NearEvent) × (k : ℕ) × (r : TxResult) × (sign_and_send_transaction
              (node.calling m.name a)
              nonce
              u
            ≡ (ok (ok r, k), v))
        × (change_method coding m delays node nonce args u ≡ (ok (ok result, k), v))
  unfolding change_method decode_last last_result
  change_method-Answers b s nonce u e base sent =
      let (a, pq) = encoded in
      let (v, k, r, f, g) = sent a pq in
      (a, pq, v, k, r, g, rw pq.0 (rw g (rw f (rw base (rw (decoded b e))))))
