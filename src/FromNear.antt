-- ===== src/FromNear.antt =====
-- testing/transfer-eth-erc20/from-near.js: tokens are withdrawn on NEAR and unlocked on Ethereum, in
-- five stages. The log file holds the last stage that is finished, with what the next one needs.
-- Packages, contracts and nodes are parameters; the parts of the tool that the stages call run
-- within the transfer with events of their own.
pub mod Log
pub mod Events
pub mod Progress
pub mod Stages
pub mod Waiting
pub mod Unlocking
use rainbow_bridge_cli.Base.{
  ℕ, zero, suc, ◌-◌, ◌*◌, max, String, Option, none, some, List, [], ◌∷◌, leb, ltb, ◌==◌, ◌===◌,
  if◌then◌else◌,
}
use rainbow_bridge_cli.Base.Bytes.{Bytes}
use rainbow_bridge_cli.Base.Io.{
  JsError, js_error, Outcome, ok, Io, pure, throw, starved, process_exit, call, emit, catch, lift,
  ◌>>=◌, ◌>>◌,
}
use rainbow_bridge_cli.Base.Io.Within.{within}
use rainbow_bridge_cli.Retry.{backoff}
use rainbow_bridge_cli.Near.Node.{TxResult, ReceiptOutcome}
use rainbow_bridge_cli.Near.SendTx.{sign_and_send_transaction}
use rainbow_bridge_cli.Accounts.{verify_account}
use rainbow_bridge_cli.RobustWeb3.{Delays, Block, robust_block}
use rainbow_bridge_cli.RobustWeb3.Events.{Mined}
use rainbow_bridge_cli.RobustWeb3.CallContract.{Request, call_contract}
use rainbow_bridge_cli.Borshify.{Codec}
use rainbow_bridge_cli.Borshify.OutcomeProof.{OutcomeProof, borshify_outcome_proof}
use rainbow_bridge_cli.FromNear.Log.{
  TransferLog, IdType, NearBlock, transaction, receipt, empty, withdrawn, found, waited, proved,
  other,
}
use rainbow_bridge_cli.FromNear.Events.{
  TransferEvent, recorded, find_access_key, get_balance, near_block, bridge_state, lock_duration,
  block_hash, transaction_proof, receipt_proof, prove_outcome, balance_of, gas_price, slept, paused,
  ClientState, Trace, World, Args, near_part, account_part, web3_part,
}

-- receipts_outcome.find((el) => el.id === id)
unfoldable pub find_receipt : String → List ReceiptOutcome → Option ReceiptOutcome
find_receipt id [] = none
find_receipt id (r ∷ rs) = if r.id === id then some r else find_receipt id rs

abbrev pub many_receipts : JsError
many_receipts = js_error "Fungible token transaction call is expected to produce only one receipt"

abbrev pub invalid_tx : JsError
invalid_tx = js_error "Invalid tx withdraw"

abbrev pub second_receipt : List ReceiptOutcome → Option String → Option (String × String)
second_receipt rs none = none
second_receipt rs (some id) = elim (find_receipt id rs) [
  | none ↦ none
  | some r ↦ some (id, r.block_hash)
]

abbrev pub first_receipt : List ReceiptOutcome → Option ReceiptOutcome → Option (String × String)
first_receipt rs none = none
first_receipt rs (some r) = second_receipt rs r.success_receipt_id

abbrev pub or_invalid : Option (String × String) → Outcome (String × String)
or_invalid none = Outcome.err invalid_tx
or_invalid (some p) = ok p

-- The receipt of the second transaction and the hash of its block.
abbrev pub locate : List String → List ReceiptOutcome → Outcome (String × String)
locate [] rs = Outcome.err many_receipts
locate (id ∷ []) rs = or_invalid (first_receipt rs (find_receipt id rs))
locate (id ∷ id' ∷ ids) rs = Outcome.err many_receipts

unfoldable pub locate_receipt : TxResult → Outcome (String × String)
unfolding find_receipt
locate_receipt tx = locate tx.receipt_ids tx.receipts_outcome

module _ {D : Type 0} (delays : Delays D) (w : World D) (codec : Codec) (args : Args) where
  abbrev pub backoff_10 : {A : Type 0} → Io (TransferEvent D) A → Io (TransferEvent D) A
  backoff_10 fn = backoff delays.product delays.wait paused 10 fn delays.delay delays.wait

  -- showRetryAndExit
  abbrev pub show_retry_and_exit : {A : Type 0} → JsError → Io (TransferEvent D) A
  show_retry_and_exit e = process_exit 1

  abbrev pub read_balance : Io (TransferEvent D) ℕ
  read_balance = backoff_10 (call get_balance w.balance)

  -- nearJsonContractFunctionCall of utils/robust.js, for `withdraw`
  abbrev pub call_withdraw : Io (TransferEvent D) (Outcome TxResult × ℕ)
  call_withdraw = call find_access_key w.access_key >>= λ nonce.
      within near_part (sign_and_send_transaction w.near nonce)

  abbrev pub record_log : TransferLog → Io (TransferEvent D) (Unit {0})
  record_log l = emit (recorded l)

  abbrev pub record_withdraw : Outcome TxResult × ℕ → Io (TransferEvent D) (Unit {0})
  record_withdraw (result, nonce) = lift result >>= λ tx. record_log (withdrawn tx)

  abbrev pub withdraw_with : ℕ → Io (TransferEvent D) (Unit {0})
  withdraw_with old_balance = call_withdraw >>= record_withdraw

  -- withdraw
  unfoldable pub withdraw : Io (TransferEvent D) (Unit {0})
  withdraw = catch (read_balance >>= withdraw_with) show_retry_and_exit

  -- The loop for a final block above the receipt's, up to its `n`-th round.
  unfoldable pub wait_final : ℕ → NearBlock → Io (TransferEvent D) NearBlock
  wait_final zero receipt_block = starved
  wait_final (suc n) receipt_block = do
    block ← call (near_block none) (w.near_block none)
    if leb block.height receipt_block.height
        then (emit (slept 1000) >> wait_final n receipt_block)
        else pure block

  abbrev pub read_block : String → Io (TransferEvent D) NearBlock
  read_block hash = backoff_10 (call (near_block (some hash)) (w.near_block (some hash)))

  abbrev pub find_outcome : ℕ → String × String → NearBlock → Io (TransferEvent D) (Unit {0})
  find_outcome n (id, hash) receipt_block =
      backoff_10 (wait_final n receipt_block) >>= λ b. record_log (found hash id b receipt)

  abbrev pub find_block : ℕ → String × String → Io (TransferEvent D) (Unit {0})
  find_block n (id, hash) = read_block hash >>= find_outcome n (id, hash)

  -- findWithdrawInBlock
  unfoldable pub find_withdraw_in_block : ℕ → TxResult → Io (TransferEvent D) (Unit {0})
  find_withdraw_in_block n tx_withdraw =
      catch (lift (locate_receipt tx_withdraw) >>= find_block n) show_retry_and_exit

  -- `delay` in seconds, before the maximum with 1
  abbrev pub client_delay : ClientState → Io (TransferEvent D) ℕ
  client_delay s =
      if s.next_valid_at == 0
      then call lock_duration w.lock_duration
      else (within web3_part (robust_block delays w.eth none) >>= λ b.
          pure (s.next_valid_at - b.timestamp))

  abbrev pub sleep_seconds : ℕ → Io (TransferEvent D) (Unit {0})
  sleep_seconds delay = emit (slept (max delay 1 * 1000))

  -- The loop for the client, up to its `n`-th round: the hash and the height of its head.
  unfoldable pub wait_client : ℕ → NearBlock → Io (TransferEvent D) (String × ℕ)
  wait_client zero outcome_block = starved
  wait_client (suc n) outcome_block = do
    s ← call bridge_state w.bridge_state
    hash ← call (block_hash s.current_height) (w.block_hash s.current_height)
    if ltb outcome_block.height s.current_height
        then pure (hash, s.current_height)
        else ((client_delay s >>= sleep_seconds) >> wait_client n outcome_block)

  abbrev pub record_head : IdType → String → String × ℕ → Io (TransferEvent D) (Unit {0})
  record_head id_type id (hash, height) =
      read_balance >>= λ new_balance. record_log (waited hash id_type id height)

  -- waitBlock
  unfoldable pub wait_block : ℕ → NearBlock → IdType → String → Io (TransferEvent D) (Unit {0})
  wait_block n outcome_block id_type id =
      catch (wait_client n outcome_block >>= record_head id_type id) show_retry_and_exit

  abbrev pub light_client_proof : IdType → String → String → Io (TransferEvent D) OutcomeProof
  light_client_proof transaction id hash =
      call (transaction_proof id hash) (w.transaction_proof id hash)
  light_client_proof receipt id hash = call (receipt_proof id hash) (w.receipt_proof id hash)

  abbrev pub record_proof : ℕ → OutcomeProof → Io (TransferEvent D) (Unit {0})
  record_proof height proof_res = record_log (proved proof_res height)

  -- getProof
  unfoldable pub get_proof : String → IdType → String → ℕ → Io (TransferEvent D) (Unit {0})
  get_proof hash id_type id height =
      catch (light_client_proof id_type id hash >>= record_proof height) show_retry_and_exit

  -- The call of `unlockToken`, for `RobustWeb3`.
  abbrev pub unlock_request : Bytes → ℕ → ℕ → Request
  unlock_request proof height gas = record {
    sender = args.eth_account;
    to = args.locker;
    gas = 5000000;
    gas_price = some (gas * args.gas_multiplier);
    input = args.unlock_call proof height;
  }

  abbrev pub read_erc20 : Io (TransferEvent D) ℕ
  read_erc20 = call balance_of w.balance_of

  abbrev pub call_unlock : ℕ → Bytes → ℕ → ℕ → Io (TransferEvent D) Mined
  call_unlock n proof height gas =
      within web3_part (call_contract w.eth w.decode (unlock_request proof height gas) n)

  abbrev pub send_unlock : ℕ → ℕ → Bytes → ℕ → Io (TransferEvent D) (Unit {0})
  send_unlock n height proof old_balance =
      ((call gas_price w.gas_price >>= call_unlock n proof height) >> read_erc20) >> pure tt

  abbrev pub unlock_with : ℕ → ℕ → Bytes → Io (TransferEvent D) (Unit {0})
  unlock_with n height proof =
      (call (prove_outcome proof height) (w.prove_outcome proof height) >> read_erc20)
      >>= send_unlock n height proof

  -- unlock
  unfoldable pub unlock : ℕ → OutcomeProof → ℕ → Io (TransferEvent D) (Unit {0})
  unlock n proof_res height =
      catch (lift (borshify_outcome_proof codec proof_res) >>= unlock_with n height)
        show_retry_and_exit

  module _ (before : TransferLog) (n : ℕ) where
    -- The log file: what this run wrote last, or what stood there before.
    abbrev pub log_of : Trace D → TransferLog
    log_of [] = before
    log_of (recorded l ∷ t) = l
    log_of (_ ∷ t) = log_of t

    abbrev pub load_transfer_log : Io (TransferEvent D) TransferLog
    load_transfer_log t = (ok (log_of t), t)

    unfoldable pub stage_withdraw : TransferLog → Io (TransferEvent D) TransferLog
    stage_withdraw empty = withdraw >> load_transfer_log
    stage_withdraw l = pure l

    unfoldable pub stage_find : TransferLog → Io (TransferEvent D) TransferLog
    stage_find (withdrawn tx) = find_withdraw_in_block n tx >> load_transfer_log
    stage_find l = pure l

    unfoldable pub stage_wait : TransferLog → Io (TransferEvent D) TransferLog
    stage_wait (found h i b k) = wait_block n b k i >> load_transfer_log
    stage_wait l = pure l

    unfoldable pub stage_proof : TransferLog → Io (TransferEvent D) TransferLog
    stage_proof (waited h k i m) = get_proof h k i m >> load_transfer_log
    stage_proof l = pure l

    unfoldable pub stage_unlock : TransferLog → Io (TransferEvent D) (Unit {0})
    stage_unlock (proved p m) = unlock n p m
    stage_unlock l = pure tt

    unfoldable pub run_stages : Io (TransferEvent D) (Unit {0})
    run_stages =
        (((((load_transfer_log >>= stage_withdraw) >>= stage_find) >>= stage_wait) >>= stage_proof)
          >>= stage_unlock)
        >> process_exit 0

    -- execute: the account is checked and its key looked up before the stages.
    unfoldable pub execute : Io (TransferEvent D) (Unit {0})
    execute =
        (within account_part (verify_account w.accounts args.sender)
          >> call find_access_key w.access_key)
        >> run_stages
