-- ===== src/Examples/Web3.antt =====
-- `RobustWeb3` of utils/robust.js against fixed nodes.
use rainbow_bridge_cli.Base.{ℕ, ◌*◌, ◌≤◌, none, some, [], ◌∷◌, ◌≡◌, refl, arith}
use rainbow_bridge_cli.Base.Io.{JsError, Outcome, ok, Reply, resolve, reject, pending}
use rainbow_bridge_cli.Base.Io.Survival.{IsAlive}
use rainbow_bridge_cli.RobustWeb3.{Receipt, Log, Delays, EthNode}
use rainbow_bridge_cli.RobustWeb3.Events.{Event, Gathered, gather, gather_lem, no_events}
use rainbow_bridge_cli.RobustWeb3.CallContract.{Request, call_contract}
use rainbow_bridge_cli.RobustWeb3.CallContract.Prices.{
  sent, call_contract-Resends, Priced, call_contract-Priced,
}
use rainbow_bridge_cli.RobustWeb3.CallContract.Resending.{Resends}
use rainbow_bridge_cli.RobustWeb3.CallContract.Rounds.{call_contract-IsAlive}

abbrev pub mined : Receipt
mined = record {
  transaction_hash = "0x1";
  transaction_index = 0;
  block_number = 7;
  logs = some [];
  payload = [];
}

abbrev pub delays : Delays ℕ
delays = record { product = ◌*◌; delay = 500; wait = 2 }

-- A node that lets the five minutes pass.
abbrev pub slow_node : EthNode ℕ
slow_node = record {
  block_number = λ _. resolve 7;
  block = λ _ _. resolve none;
  receipt = λ _ _. resolve (some mined);
  gas_price = λ _. resolve 40;
  transaction_count = λ _ _. resolve 3;
  view_call = λ _ _. resolve tt;
  send = λ _ _. pending;
}

abbrev pub locked : Event
locked = record { name = "Locked"; log_index = 0; transaction_hash = "0x1" }

abbrev pub decode : Log → Outcome Event
decode l = ok locked

abbrev approve : Request
approve = record {
  sender = "0xa";
  to = "0xb";
  gas = 5000000;
  gas_price = none;
  input = ok (1 ∷ []);
}

abbrev unlock : Request
unlock = record approve { gas_price = some 80 }

call_contract-Resends_example :
    Resends slow_node decode approve
      (1 ∷ [])
      40
      3
      []
      (sent (call_contract slow_node decode approve 45 []).1)
call_contract-Resends_example =
    call_contract-Resends slow_node decode approve (1 ∷ []) refl 45 40 3 [] refl refl

call_contract-Priced_example : Priced 80 [] (sent (call_contract slow_node decode unlock 45 []).1)
call_contract-Priced_example =
    call_contract-Priced slow_node decode unlock (1 ∷ []) 45 40 3 80 [] refl refl refl refl

call_contract-IsAlive_example : IsAlive (call_contract slow_node decode approve 45 []).0
call_contract-IsAlive_example =
    call_contract-IsAlive slow_node decode approve (1 ∷ []) refl (λ l. (locked, refl))
      (λ tx t e h. never h) [] (λ p h. quoted p h)
  where
    never : {A : Type 0} {e : JsError} → ◌≡◌ {A = Reply Receipt} pending (reject e) → A
    never h = cc

    quoted : (p : ℕ) → ◌≡◌ {A = Reply ℕ} (resolve 40) (resolve p) → 1 ≤ p
    quoted p h = let q : 40 ≡ p = cc in omega (arith, q)

gather_lem_example : Gathered (locked ∷ locked ∷ []) (gather (locked ∷ locked ∷ []) no_events)
gather_lem_example = gather_lem (locked ∷ locked ∷ [])
