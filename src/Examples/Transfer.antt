-- ===== src/Examples/Transfer.antt =====
-- A transfer of testing/transfer-eth-erc20/from-near.js from its beginning, against fixed chains.
use rainbow_bridge_cli.Base.{
  ℕ, String, Bool, true, false, Option, none, some, List, [], ◌∷◌, ◌≡◌, refl,
}
use rainbow_bridge_cli.Base.Io.{Outcome, ok, exit, Reply, resolve}
use rainbow_bridge_cli.Near.Node.{NearNode, SignedTx, TxResult}
use rainbow_bridge_cli.Borshify.{Codec, InnerLite}
use rainbow_bridge_cli.Borshify.OutcomeProof.{OutcomeProof, success_value}
use rainbow_bridge_cli.FromNear.Log.{empty}
use rainbow_bridge_cli.FromNear.Events.{World, Args}
use rainbow_bridge_cli.FromNear.{execute}
use rainbow_bridge_cli.FromNear.Progress.{Steps, execute-Steps}
use rainbow_bridge_cli.Examples.Accounts.{accounts}
use rainbow_bridge_cli.Examples.Web3.{delays, slow_node, mined, decode}

-- An encoding that keeps only what is needed to tell pieces apart.
abbrev pub codec : Codec
codec = record {
  decode58 = λ s. ok (58 ∷ []);
  to_buffer = λ n w. ok (n ∷ []);
  utf8 = λ s. 8 ∷ [];
  base64 = λ s. 64 ∷ [];
  js_length = λ s. 1;
  substr_8 = λ s. s;
}

abbrev pub inner_lite : InnerLite
inner_lite = record {
  height = 20;
  epoch_id = "e";
  next_epoch_id = "n";
  prev_state_root = "p";
  outcome_root = "o";
  timestamp_nanosec = none;
  timestamp = 6;
  next_bp_hash = "b";
  block_merkle_root = "m";
}

abbrev outcome_proof : OutcomeProof
outcome_proof = record {
  proof = [];
  block_hash = "h";
  id = "receipt";
  outcome = record {
    logs = 0;
    receipt_ids = [];
    gas_burnt = 1;
    tokens_burnt = 2;
    executor_id = "token";
    status = success_value "";
  };
  prev_block_hash = "q";
  inner_rest_hash = "r";
  inner_lite = inner_lite;
  block_proof = [];
}

abbrev signed : SignedTx
signed = record { hash = "h"; encoded = [] }

abbrev withdrawal : TxResult
withdrawal = record {
  receipt_ids = "first" ∷ [];
  receipts_outcome =
      record { id = "first"; success_receipt_id = some "second"; block_hash = "b1" }
      ∷ record { id = "second"; success_receipt_id = none; block_hash = "b2" }
      ∷ [];
  success_value = some "";
  failure = none;
}

abbrev near_node : NearNode
near_node = record {
  status = λ _. resolve "b";
  sign = λ _ _ _. resolve signed;
  send = λ _ _. resolve tt;
  tx_status = λ _ _. resolve withdrawal;
}

abbrev height_of : Option String → ℕ
height_of none = 12
height_of (some h) = 11

abbrev world : World ℕ
world = record {
  near = near_node;
  accounts = accounts;
  eth = record slow_node { send = λ _ _. resolve mined };
  access_key = λ _. resolve 5;
  balance = λ _. resolve 100;
  near_block = λ h _. resolve (record { height = height_of h });
  bridge_state = λ _. resolve (record { current_height = 20; next_valid_at = 0 });
  block_hash = λ _ _. resolve "head";
  lock_duration = λ _. resolve 30;
  transaction_proof = λ _ _ _. resolve outcome_proof;
  receipt_proof = λ _ _ _. resolve outcome_proof;
  prove_outcome = λ _ _ _. resolve tt;
  balance_of = λ _. resolve 3;
  gas_price = λ _. resolve 40;
  decode = decode;
}

abbrev args : Args
args = record {
  sender = "a";
  eth_account = "0xa";
  locker = "0xb";
  gas_multiplier = 1;
  unlock_call = λ p h. ok (h ∷ p);
}

execute-Steps_example :
    Steps delays world codec args empty 45 (execute delays world codec args empty 45 []).1
execute-Steps_example = execute-Steps delays world codec args empty 45 [] tt

-- Nothing stops this transfer: it ends with the exit code 0.
execute-completes : (execute delays world codec args empty 45 []).0 ≡ exit 0
unfolding execute rainbow_bridge_cli.Base.Io.Within.within
    rainbow_bridge_cli.Accounts.verify_account rainbow_bridge_cli.FromNear.run_stages
    rainbow_bridge_cli.FromNear.stage_withdraw rainbow_bridge_cli.FromNear.withdraw
    rainbow_bridge_cli.Retry.backoff rainbow_bridge_cli.Near.SendTx.sign_and_send_transaction
    rainbow_bridge_cli.FromNear.stage_find rainbow_bridge_cli.FromNear.find_withdraw_in_block
    rainbow_bridge_cli.FromNear.locate_receipt rainbow_bridge_cli.FromNear.wait_final
    rainbow_bridge_cli.FromNear.stage_wait rainbow_bridge_cli.FromNear.wait_block
    rainbow_bridge_cli.FromNear.wait_client rainbow_bridge_cli.FromNear.stage_proof
    rainbow_bridge_cli.FromNear.get_proof rainbow_bridge_cli.FromNear.stage_unlock
    rainbow_bridge_cli.FromNear.unlock
    rainbow_bridge_cli.Borshify.OutcomeProof.borshify_outcome_proof
    rainbow_bridge_cli.RobustWeb3.CallContract.call_contract
    rainbow_bridge_cli.Borshify.Pieces.concat rainbow_bridge_cli.Borshify.Pieces.concat_map
    rainbow_bridge_cli.RobustWeb3.CallContract.send_loop
    rainbow_bridge_cli.RobustWeb3.Events.decode_all
execute-completes = refl
