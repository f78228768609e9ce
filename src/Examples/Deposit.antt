-- ===== src/Examples/Deposit.antt =====
-- A transfer of testing/transfer-eth-erc20/to-near.js from its beginning, against fixed chains.
use rainbow_bridge_cli.Base.{
  ℕ, String, Bool, true, false, Option, none, some, List, [], ◌∷◌, ◌≡◌, refl,
}
use rainbow_bridge_cli.Base.Io.{Outcome, ok, exit, Reply, resolve}
use rainbow_bridge_cli.Base.Io.Rules.{Returns}
use rainbow_bridge_cli.RobustWeb3.{Log, Receipt, Block, EthNode}
use rainbow_bridge_cli.Extractor.{
  Packages, LockedEvent, ProofLocker, type_error, search_event, closable, absent, find_and_print,
  eth_to_near_find_proof,
}
use rainbow_bridge_cli.Extractor.Search.{First, search_event-First}
use rainbow_bridge_cli.Extractor.Printed.{Printed, find_and_print-Printed}
use rainbow_bridge_cli.ToNear.Events.{World, Args, empty}
use rainbow_bridge_cli.ToNear.{execute}
use rainbow_bridge_cli.ToNear.Progress.{Steps, log, execute_to_near-Steps}
use rainbow_bridge_cli.ToNear.Protocol.{Protocol, phase, actions_of, execute-Protocol}
use rainbow_bridge_cli.Examples.Accounts.{accounts}
use rainbow_bridge_cli.Examples.Web3.{delays, slow_node, mined, decode}

abbrev packages : Packages
packages = record {
  receipt_data = λ r. ok (82 ∷ []);
  log_data = λ l. ok (76 ∷ []);
  header_data = λ b. ok (72 ∷ []);
  encode = λ n. n ∷ [];
  rlp_encode = λ bs. 0 ∷ [];
  find_path = λ tree path. ok [];
}

abbrev lock_log : Log
lock_log = record { log_index = 0; payload = [] }

abbrev lock_receipt : Receipt
lock_receipt = record mined { logs = some (lock_log ∷ []) }

abbrev lock_block : Block
lock_block = record {
  number = 7;
  hash = "0x7";
  timestamp = 1;
  transactions = "0x1" ∷ [];
  header = [];
}

abbrev node : EthNode ℕ
node = record slow_node {
  block = λ _ _. resolve (some lock_block);
  receipt = λ _ _. resolve (some lock_receipt);
  send = λ _ _. resolve lock_receipt;
}

abbrev world : World ℕ
world = record {
  accounts = accounts;
  eth = node;
  decode_erc20 = decode;
  decode_locker = decode;
  account_id = λ e. "receiver";
  packages = packages;
  access_key_init = λ _. resolve tt;
  balance_of = λ _. resolve 3;
  last_block_number = λ _. resolve 20;
  block_hash_safe = λ _ _. resolve true;
  get_balance = λ _ _. resolve 100;
  deposit = λ _ _. resolve tt;
}

abbrev args : Args
args = record {
  near_master_account = "a";
  eth_sender_account = "0xa";
  eth_erc20_address = "0xe";
  eth_locker_address = "0xb";
  approve_call = ok (1 ∷ []);
  lock_call = ok (2 ∷ []);
}

execute_to_near-Steps_example :
    Steps delays world args empty 45 (execute delays world args empty 45 []).1
execute_to_near-Steps_example = execute_to_near-Steps delays world args empty 45 [] tt

execute-Protocol_example :
    Protocol args
      (phase empty)
      (actions_of (execute delays world args empty 45 []).1)
      (phase (log delays world args empty 45 (execute delays world args empty 45 []).1))
execute-Protocol_example = execute-Protocol delays world args empty 45

-- Nothing stops this transfer: it ends with the exit code 0.
execute_to_near-completes : (execute delays world args empty 45 []).0 ≡ exit 0
unfolding execute rainbow_bridge_cli.Base.Io.Within.within
    rainbow_bridge_cli.Accounts.verify_account rainbow_bridge_cli.ToNear.run_stages
    rainbow_bridge_cli.ToNear.stage_approve rainbow_bridge_cli.ToNear.approve
    rainbow_bridge_cli.RobustWeb3.CallContract.call_contract
    rainbow_bridge_cli.RobustWeb3.CallContract.send_loop
    rainbow_bridge_cli.RobustWeb3.Events.decode_all rainbow_bridge_cli.ToNear.stage_lock
    rainbow_bridge_cli.ToNear.lock rainbow_bridge_cli.ToNear.locked_event
    rainbow_bridge_cli.ToNear.stage_proof rainbow_bridge_cli.ToNear.find_proof
    rainbow_bridge_cli.Base.Dict.lookup rainbow_bridge_cli.RobustWeb3.Events.gather
    rainbow_bridge_cli.RobustWeb3.Events.add_event rainbow_bridge_cli.Base.Dict.insert
    rainbow_bridge_cli.Extractor.block_receipts rainbow_bridge_cli.Extractor.build_trie
    rainbow_bridge_cli.Extractor.extract rainbow_bridge_cli.Extractor.extract_proof
    rainbow_bridge_cli.Extractor.proof_locker rainbow_bridge_cli.Extractor.put_receipts
    rainbow_bridge_cli.Extractor.search rainbow_bridge_cli.Retry.backoff
    rainbow_bridge_cli.RobustWeb3.Events.add_entry rainbow_bridge_cli.RobustWeb3.robust_block
    rainbow_bridge_cli.RobustWeb3.robust_receipt rainbow_bridge_cli.ToNear.deposit
    rainbow_bridge_cli.ToNear.stage_deposit rainbow_bridge_cli.ToNear.stage_safe
    rainbow_bridge_cli.ToNear.wait_block_safe rainbow_bridge_cli.ToNear.wait_safe
execute_to_near-completes = refl

search_event-First_example : First (some 0) (lock_log ∷ []) lock_log 0
unfolding rainbow_bridge_cli.Extractor.search
search_event-First_example = search_event-First (some 0) (lock_log ∷ []) lock_log 0 refl

abbrev locked_event : LockedEvent
locked_event = record { transaction_hash = some "0x1"; log_index = some 0 }

find_and_print-Printed_example :
    Returns
      (λ o u. Printed delays node packages closable locked_event o)
      (find_and_print delays node packages closable (ok locked_event) [])
find_and_print-Printed_example =
    find_and_print-Printed delays node packages closable locked_event []

-- The number and the index of what is printed.
abbrev shown : Outcome (Option (ℕ × ProofLocker)) → Option (ℕ × ℕ)
shown (ok (some (number, locker))) = some (number, locker.log_index)
shown _ = none

print_one :
    shown (find_and_print delays node packages closable (ok locked_event) []).0 ≡ some (7, 0)
unfolding find_and_print rainbow_bridge_cli.Extractor.extract rainbow_bridge_cli.Extractor.search
    rainbow_bridge_cli.RobustWeb3.robust_receipt rainbow_bridge_cli.RobustWeb3.robust_block
    rainbow_bridge_cli.Retry.backoff rainbow_bridge_cli.Extractor.build_trie
    rainbow_bridge_cli.Extractor.block_receipts rainbow_bridge_cli.Extractor.put_receipts
    rainbow_bridge_cli.Extractor.extract_proof rainbow_bridge_cli.Extractor.proof_locker
print_one = refl

-- Over HTTP the command fails in the end.
fail_over_http :
    (eth_to_near_find_proof delays node packages absent (ok locked_event) []).0
    ≡ Outcome.err type_error
unfolding eth_to_near_find_proof find_and_print rainbow_bridge_cli.Extractor.extract
    rainbow_bridge_cli.Extractor.search rainbow_bridge_cli.RobustWeb3.robust_receipt
    rainbow_bridge_cli.RobustWeb3.robust_block rainbow_bridge_cli.Retry.backoff
    rainbow_bridge_cli.Extractor.build_trie rainbow_bridge_cli.Extractor.block_receipts
    rainbow_bridge_cli.Extractor.put_receipts rainbow_bridge_cli.Extractor.extract_proof
    rainbow_bridge_cli.Extractor.proof_locker
fail_over_http = refl
