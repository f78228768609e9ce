-- ===== src/ToNear.antt =====
-- testing/transfer-eth-erc20/to-near.js: tokens are locked on Ethereum and deposited on NEAR, in
-- five stages. The log file holds the last stage that is finished, with what the next one needs.
-- Packages, contracts and nodes are parameters; `RobustWeb3` and the extractor run within the
-- transfer with events of their own.
pub mod Events
pub mod Stages
pub mod Waiting
pub mod Progress
pub mod Protocol
use rainbow_bridge_cli.Base.{ℕ, zero, suc, ◌*◌, String, Option, none, some, [], ◌∷◌, if◌then◌else◌}
use rainbow_bridge_cli.Base.Bytes.{Bytes}
use rainbow_bridge_cli.Base.Dict
use rainbow_bridge_cli.Base.Io.{
  JsError, Outcome, ok, err, Io, pure, starved, process_exit, call, emit, catch, lift, ◌>>=◌, ◌>>◌,
}
use rainbow_bridge_cli.Base.Io.Within.{within}
use rainbow_bridge_cli.Accounts.{verify_account}
use rainbow_bridge_cli.RobustWeb3.{Block, Delays, Log, Receipt}
use rainbow_bridge_cli.RobustWeb3.Events.{
  Event, Entry, Events as ReceiptEvents, Mined, single, many,
}
use rainbow_bridge_cli.RobustWeb3.CallContract.{Request, call_contract}
use rainbow_bridge_cli.Extractor.{
  LockedEvent, Proof, ProofLocker, Extracted, type_error, or_type_error, search_event, extract,
  proof_locker,
}
use rainbow_bridge_cli.ToNear.Events.{
  LockedEntry, TransferLog, empty, approved, locked, found, safe, TransferEvent, recorded,
  access_key_init, balance_of, last_block_number, block_hash_safe, get_balance, deposited, slept,
  Trace, World, Args, account_part, web3_part,
}

-- The fields of the event that the extractor reads. An array of events has none of them.
abbrev pub event_of : LockedEntry → Outcome LockedEvent
event_of none = err type_error
event_of (some (single e)) =
    ok (record { transaction_hash = some e.transaction_hash; log_index = some e.log_index })
event_of (some (many es)) = ok (record { transaction_hash = none; log_index = none })

-- transaction.events.Locked
unfoldable pub locked_event : Option ReceiptEvents → Outcome LockedEntry
locked_event none = err type_error
locked_event (some events) = ok (Dict.lookup "Locked" events.named)

-- lockedEvent.returnValues.accountId
abbrev pub owner_of : {D : Type 0} → World D → LockedEntry → Outcome String
owner_of w (some (single e)) = ok (w.account_id e)
owner_of w _ = err type_error

module _ {D : Type 0} (delays : Delays D) (w : World D) (args : Args) where
  -- showRetryAndExit
  abbrev pub show_retry_and_exit : {A : Type 0} → JsError → Io (TransferEvent D) A
  show_retry_and_exit e = process_exit 1

  abbrev pub record_log : TransferLog → Io (TransferEvent D) (Unit {0})
  record_log l = emit (recorded l)

  -- A call of a contract with five million gas, at the price of the node.
  abbrev pub request_to : String → Outcome Bytes → Request
  request_to address input = record {
    sender = args.eth_sender_account;
    to = address;
    gas = 5000000;
    gas_price = none;
    input = input;
  }

  abbrev pub approve_request : Request
  approve_request = request_to args.eth_erc20_address args.approve_call

  abbrev pub lock_request : Request
  lock_request = request_to args.eth_locker_address args.lock_call

  abbrev pub call_approve : ℕ → Io (TransferEvent D) Mined
  call_approve n = within web3_part (call_contract w.eth w.decode_erc20 approve_request n)

  abbrev pub call_lock : ℕ → Io (TransferEvent D) Mined
  call_lock n = within web3_part (call_contract w.eth w.decode_locker lock_request n)

  -- approve
  unfoldable pub approve : ℕ → Io (TransferEvent D) (Unit {0})
  approve n = catch (call_approve n >> record_log approved) show_retry_and_exit

  abbrev pub record_lock : Mined → Io (TransferEvent D) (Unit {0})
  record_lock transaction = lift (locked_event transaction.events) >>= λ e. record_log (locked e)

  -- lock
  unfoldable pub lock : ℕ → Io (TransferEvent D) (Unit {0})
  lock n = catch (call_lock n >>= record_lock) show_retry_and_exit

  abbrev pub record_found :
      LockedEntry → Extracted → Option (Log × ℕ) → Io (TransferEvent D) (Unit {0})
  record_found entry x none = process_exit 1
  record_found entry x (some (log, i)) = record_log (found x.proof log i x.receipt entry x.block)

  abbrev pub search_in : LockedEntry → LockedEvent → Extracted → Io (TransferEvent D) (Unit {0})
  search_in entry event x = lift (or_type_error x.receipt.logs) >>= λ logs.
      record_found entry x (search_event event.log_index logs)

  abbrev pub find_event : LockedEntry → LockedEvent → Io (TransferEvent D) (Unit {0})
  find_event entry event =
      within web3_part (extract delays w.eth w.packages event) >>= search_in entry event

  -- findProof
  unfoldable pub find_proof : LockedEntry → Io (TransferEvent D) (Unit {0})
  find_proof entry = lift (event_of entry) >>= find_event entry

  -- The loop for the client, up to its `n`-th round.
  unfoldable pub wait_safe : ℕ → ℕ → Io (TransferEvent D) (Unit {0})
  wait_safe zero block_number = starved
  wait_safe (suc n) block_number = do
    last ← call last_block_number w.last_block_number
    is_safe ← call (block_hash_safe block_number) (w.block_hash_safe block_number)
    if is_safe then pure tt else (emit (slept (10 * 1000)) >> wait_safe n block_number)

  abbrev pub record_safe : ℕ → Block → ProofLocker → String → Io (TransferEvent D) (Unit {0})
  record_safe n block locker owner = wait_safe n block.number >> record_log (safe locker owner)

  abbrev pub with_locker : ℕ → LockedEntry → Block → ProofLocker → Io (TransferEvent D) (Unit {0})
  with_locker n entry block locker = lift (owner_of w entry) >>= record_safe n block locker

  -- waitBlockSafe
  unfoldable pub wait_block_safe :
      ℕ → Proof → Log → ℕ → Receipt → LockedEntry → Block → Io (TransferEvent D) (Unit {0})
  wait_block_safe n proof log tx_log_index receipt entry block =
      lift (proof_locker w.packages receipt proof log tx_log_index) >>= with_locker n entry block

  abbrev pub read_balance : String → Io (TransferEvent D) ℕ
  read_balance owner = call (get_balance owner) (w.get_balance owner)

  abbrev pub send_deposit : ProofLocker → Io (TransferEvent D) (Unit {0})
  send_deposit locker = catch (call (deposited locker) (w.deposit locker)) show_retry_and_exit

  -- deposit
  unfoldable pub deposit : ProofLocker → String → Io (TransferEvent D) (Unit {0})
  deposit locker owner =
      ((read_balance owner >> send_deposit locker) >> read_balance owner) >> pure tt

  module _ (before : TransferLog) (n : ℕ) where
    -- The log file: what this run wrote last, or what stood there before.
    abbrev pub log_of : Trace D → TransferLog
    log_of [] = before
    log_of (recorded l ∷ t) = l
    log_of (_ ∷ t) = log_of t

    abbrev pub load_transfer_log : Io (TransferEvent D) TransferLog
    load_transfer_log t = (ok (log_of t), t)

    unfoldable pub stage_approve : TransferLog → Io (TransferEvent D) TransferLog
    stage_approve empty = (call balance_of w.balance_of >> approve n) >> load_transfer_log
    stage_approve l = pure l

    unfoldable pub stage_lock : TransferLog → Io (TransferEvent D) TransferLog
    stage_lock approved = lock n >> load_transfer_log
    stage_lock l = pure l

    unfoldable pub stage_proof : TransferLog → Io (TransferEvent D) TransferLog
    stage_proof (locked entry) = find_proof entry >> load_transfer_log
    stage_proof l = pure l

    unfoldable pub stage_safe : TransferLog → Io (TransferEvent D) TransferLog
    stage_safe (found proof log i receipt entry block) =
        wait_block_safe n proof log i receipt entry block >> load_transfer_log
    stage_safe l = pure l

    unfoldable pub stage_deposit : TransferLog → Io (TransferEvent D) (Unit {0})
    stage_deposit (safe locker owner) = deposit locker owner
    stage_deposit l = pure tt

    unfoldable pub run_stages : TransferLog → Io (TransferEvent D) (Unit {0})
    run_stages l =
        (((((pure l >>= stage_approve) >>= stage_lock) >>= stage_proof) >>= stage_safe)
          >>= stage_deposit)
        >> process_exit 0

    -- execute: the log is read first; the account is checked and its key looked up before the stages.
    unfoldable pub execute : Io (TransferEvent D) (Unit {0})
    execute = load_transfer_log >>= λ l.
        (within account_part (verify_account w.accounts args.near_master_account)
          >> call access_key_init w.access_key_init)
        >> run_stages l
