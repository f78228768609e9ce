-- ===== src/Examples/Contract.antt =====
-- A contract behind `BorshContract` of utils/borsh.js that gives back what it is given, on a node that
-- runs each transaction at once.
use rainbow_bridge_cli.Base.{ℕ, some, List, [], ◌∷◌, ◌≡◌, ◌≢◌, refl}
use rainbow_bridge_cli.Base.Bytes.{Bytes, le_value, le_bytes}
use rainbow_bridge_cli.Base.Io.{js_error, ok, Reply, resolve, reject}
use rainbow_bridge_cli.Near.Node.{TxResult, NearEvent, Trace, tx_status, slept, NearNode}
use rainbow_bridge_cli.Near.SendTx.{sign_and_send_transaction}
use rainbow_bridge_cli.Near.Async.{txn_status}
use rainbow_bridge_cli.Near.Async.Laws.{txn_status-first}
use rainbow_bridge_cli.Borsh.Types.{name}
use rainbow_bridge_cli.Borsh.Serialize.{serialize, serialize_field}
use rainbow_bridge_cli.Contract.{query, Node, Coding, Method, view_method, change_method}
use rainbow_bridge_cli.Contract.Calls.{ArgBytes, view_method-Answers, change_method-Answers}
use rainbow_bridge_cli.Examples.Borsh.{
  write_byte, write_number, writer, writer-IsBorsh, schema, deposit, deposit-Typed,
}
use rainbow_bridge_cli.Examples.Near.{prompt, done}
use rainbow_bridge_cli.Examples.Web3.{delays}

-- A node that answers the second request for a status.
late : Trace → Reply TxResult
late (tx_status h ∷ []) = reject (js_error "timeout")
late _ = resolve done

abbrev slow : NearNode
slow = record prompt { tx_status = λ _ t. late t }

txn_status-first_example :
    txn_status slow "h" 10 2000 [] ≡ (ok done, tx_status "h" ∷ slept 2000 ∷ tx_status "h" ∷ [])
unfolding late
txn_status-first_example =
    txn_status-first slow 1 8 2000 "h" done [] ((js_error "timeout", refl), tt) (refl, refl)

abbrev coding : Coding
coding = record { writer = writer; number = le_value; schema = schema; depth = 3 }

abbrev echo : Method
echo = record { name = "echo"; input = some (name "Deposit"); output = some (name "Deposit") }

-- A flag, two bytes behind their number, and an amount of sixteen bytes.
abbrev deposit_bytes : Bytes
deposit_bytes = 1 ∷ 2 ∷ 0 ∷ 0 ∷ 0 ∷ 7 ∷ 255 ∷ 1 ∷ le_bytes 16 1000

abbrev contract : Node ℕ
contract = record {
  query = λ _ _ _. resolve deposit_bytes;
  calling = λ _ _. prompt;
  base64 = λ _. deposit_bytes;
}

nonempty : deposit_bytes ≢ []
nonempty e = cc

view_method-Answers_example :
    (a : Bytes) × ArgBytes delays contract coding writer-IsBorsh
      (λ b. refl)
      echo
      refl
      refl
      deposit-Typed
      deposit-Typed
      a
    × (view_method coding echo delays contract deposit []
        ≡ (ok (some deposit), query "echo" a ∷ []))
unfolding serialize serialize_field write_byte write_number le_bytes
view_method-Answers_example =
    view_method-Answers delays contract coding writer-IsBorsh (λ b. refl) echo refl refl
      deposit-Typed deposit-Typed deposit_bytes [] refl nonempty (λ a h. refl)

change_method-Answers_example :
    (a : Bytes) × ArgBytes delays contract coding writer-IsBorsh
      (λ b. refl)
      echo
      refl
      refl
      deposit-Typed
      deposit-Typed
      a
    × (v : List NearEvent) × (k : ℕ) × (r : TxResult) × (sign_and_send_transaction prompt 5 []
        ≡ (ok (ok r, k), v))
    × (change_method coding echo delays contract 5 deposit [] ≡ (ok (ok deposit, k), v))
unfolding serialize serialize_field write_byte write_number le_bytes sign_and_send_transaction
change_method-Answers_example =
    change_method-Answers delays contract coding writer-IsBorsh (λ b. refl) echo refl refl
      deposit-Typed deposit-Typed deposit_bytes "" 5 [] refl refl (λ a h. (_, _, done, refl, refl))
