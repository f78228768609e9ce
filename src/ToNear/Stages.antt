-- ===== src/ToNear/Stages.antt =====
-- In which order testing/transfer-eth-erc20/to-near.js finishes its stages, and with what.
use rainbow_bridge_cli.Base.{ℕ, ◌≡◌, refl, String, true, Option, none, some, List, [], ◌∷◌}
use rainbow_bridge_cli.Base.Io.{Outcome, ok, resolve, Io, catch, lift, ◌>>=◌, ◌>>◌}
use rainbow_bridge_cli.Base.Io.Within.{within, within-Extends, within-Returns, same, own}
use rainbow_bridge_cli.Base.Io.Rules.{bind_trace, catch_trace, Returns, Returns-at}
use rainbow_bridge_cli.RobustWeb3.{
  Block, Log, Receipt, Tx, Web3Event, get_block_number, get_gas_price, set_provider, get_block,
  get_receipt, get_transaction_count, view_call, send_transaction, Delays,
}
use rainbow_bridge_cli.RobustWeb3.Events.{Event, Mined}
use rainbow_bridge_cli.RobustWeb3.Mining.{MinedBy, call_contract-MinedBy}
use rainbow_bridge_cli.RobustWeb3.Sends.{Sendless, Asks, Asked, call_contract-Asks}
use rainbow_bridge_cli.RobustWeb3.CallContract.{Request, call_contract}
use rainbow_bridge_cli.Extractor.{
  LockedEvent, Proof, ProofLocker, Extracted, or_type_error, search_event, extract, proof_locker,
}
use rainbow_bridge_cli.Extractor.Reads.{extract-keeps}
use rainbow_bridge_cli.Extractor.Genuine.{Genuine, extract-Genuine, or_type_error-some}
use rainbow_bridge_cli.Extractor.Search.{First, search_event-First}
use rainbow_bridge_cli.ToNear.Events.{
  LockedEntry, TransferLog, empty, approved, locked, found, safe, TransferEvent, recorded, web3,
  deposited, Trace, World, Args, web3_part,
}
use rainbow_bridge_cli.ToNear.{
  event_of, locked_event, show_retry_and_exit, record_log, approve_request, lock_request,
  call_approve, call_lock, approve, record_lock, lock, record_found, search_in, find_event,
  find_proof, owner_of, log_of,
}

module _ {D : Type 0} (delays : Delays D) (w : World D) (args : Args) where
  -- How the log may change: by one stage, with what that stage has found out. An approval or a lock
  -- is recorded after the node has mined it, with the event of the lock; then the extracted proof of
  -- that event, with its receipt and block; and then, once the client has that block as safe, what is
  -- deposited.
  pub data Step : TransferLog → TransferLog → Type 0 where
    approves :
        {m : Mined}
        → MinedBy w.eth w.decode_erc20 (approve_request delays w args) m
        → Step empty approved
    locks :
        {m : Mined} {entry : LockedEntry}
        → MinedBy w.eth w.decode_locker (lock_request delays w args) m
        → locked_event m.events ≡ ok entry
        → Step approved (locked entry)
    finds :
        {entry : LockedEntry} {event : LockedEvent} {x : Extracted} {log : Log} {i : ℕ}
        {logs : List Log}
        → event_of entry ≡ ok event
        → Genuine w.eth w.packages event x
        → x.receipt.logs ≡ some logs
        → First event.log_index logs log i
        → Step (locked entry) (found x.proof log i x.receipt entry x.block)
    confirms :
        {entry : LockedEntry} {proof : Proof} {log : Log} {i : ℕ} {receipt : Receipt}
        {block : Block} {locker : ProofLocker} {owner : String} (t : Trace D)
        → w.block_hash_safe block.number t ≡ resolve true
        → proof_locker w.packages receipt proof log i ≡ ok locker
        → owner_of w entry ≡ ok owner
        → Step (found proof log i receipt entry block) (safe locker owner)

module _ {D : Type 0} (delays : Delays D) (w : World D) (args : Args) (before : TransferLog)
    (n : ℕ) where
  abbrev pub log : Trace D → TransferLog
  log = log_of delays w args before n

  -- What may be sent to Ethereum while the log is `l`: the approval first, and then the lock.
  pub data Sends : TransferLog → Tx → Type 0 where
    sends_approve : {tx : Tx} → Asked (approve_request delays w args) tx → Sends empty tx
    sends_lock : {tx : Tx} → Asked (lock_request delays w args) tx → Sends approved tx

  -- Every log that was written is one step after the log before it, transactions on Ethereum approve
  -- while the log was empty and lock while it was approved, and deposits hand over the proof of the log.
  abbrev pub Steps : Trace D → Type 0
  Steps [] = Unit
  Steps (recorded l ∷ t) = Step delays w args (log t) l × Steps t
  Steps (web3 (send_transaction tx) ∷ t) = Sends (log t) tx × Steps t
  Steps (deposited locker ∷ t) = ((owner : String) × (log t ≡ safe locker owner)) × Steps t
  Steps (_ ∷ t) = Steps t

  -- It is so, and the log is `l`.
  abbrev pub At : TransferLog → Trace D → Type 0
  At l t = (log t ≡ l) × Steps t

  module _ (l : TransferLog) where
    web3-At :
        (f : Web3Event D) (u : Trace D)
        → ((tx : Tx) → f ≡ send_transaction tx → Sends l tx)
        → At l u
        → At l (web3 f ∷ u)
    web3-At (send_transaction tx) u q (e, s) = (e, (rw e (q tx refl), s))
    web3-At get_block_number u q g = g
    web3-At get_gas_price u q g = g
    web3-At set_provider u q g = g
    web3-At (get_block b) u q g = g
    web3-At (get_receipt r) u q g = g
    web3-At (get_transaction_count a) u q g = g
    web3-At (view_call tx) u q g = g
    web3-At (Web3Event.slept d) u q g = g

    -- A call of a contract that the log allows.
    call-At :
        (decode : Log → Outcome Event) (r : Request) (t : Trace D)
        → ((tx : Tx) → Asked r tx → Sends l tx)
        → At l t
        → At l (within web3_part (call_contract w.eth decode r n) t).1
    call-At decode r t k h =
        within-Extends web3_part (Asks r) (At l) (call_contract w.eth decode r n) t
          (call_contract-Asks w.eth decode r n (own web3_part t))
          (λ f u q. web3-At f u (λ tx e. k tx (asked f tx e q))) h
      where
        asked : (f : Web3Event D) (tx : Tx) → f ≡ send_transaction tx → Asks r f → Asked r tx
        asked f tx e q = rw e at q

    extract-At :
        (event : LockedEvent) (t : Trace D)
        → At l t
        → At l (within web3_part (extract delays w.eth w.packages event) t).1
    extract-At event t h =
        within-Extends web3_part Sendless (At l) (extract delays w.eth w.packages event) t
          (extract-keeps delays w.eth w.packages (own web3_part t) event (own web3_part t) same)
          (λ f u q. web3-At f u (λ tx e. absurd (sends_none f tx e q))) h
      where
        sends_none : (f : Web3Event D) (tx : Tx) → f ≡ send_transaction tx → Sendless f → ⊥
        sends_none f tx e q = rw e at q

  guarded :
      (m : Io (TransferEvent D) (Unit {0})) (t : Trace D)
      → Steps (m t).1
      → Steps (catch m (show_retry_and_exit delays w args) t).1
  guarded m t h = catch_trace Steps m (show_retry_and_exit delays w args) t h (λ e _. h)

  pub approve-Steps : (t : Trace D) → At empty t → Steps (approve delays w args n t).1
  unfolding approve
  approve-Steps t h =
      guarded (call_approve delays w args n >> record_log delays w args approved) t (
        bind_trace Steps (call_approve delays w args n) (λ _. record_log delays w args approved) t
          called.1
          (λ m e.
            let a : MinedBy w.eth w.decode_erc20 (approve_request delays w args) m =
              Returns-at (λ m _. MinedBy w.eth w.decode_erc20 (approve_request delays w args) m)
                (call_approve delays w args n t) mined e in
            (rw called.0 (approves a), called.1)))
    where
      called : At empty (call_approve delays w args n t).1
      called =
          call-At empty w.decode_erc20 (approve_request delays w args) t (λ tx q. sends_approve q) h

      mined :
          Returns
            (λ m _. MinedBy w.eth w.decode_erc20 (approve_request delays w args) m)
            (call_approve delays w args n t)
      mined =
          within-Returns web3_part (MinedBy w.eth w.decode_erc20 (approve_request delays w args))
            (call_contract w.eth w.decode_erc20 (approve_request delays w args) n) t
            (call_contract-MinedBy w.eth w.decode_erc20 (approve_request delays w args) n
              (own web3_part t))

  pub lock-Steps : (t : Trace D) → At approved t → Steps (lock delays w args n t).1
  unfolding lock
  lock-Steps t h = guarded (call_lock delays w args n >>= record_lock delays w args) t (
      bind_trace Steps (call_lock delays w args n) (record_lock delays w args) t called.1
        (λ transaction e.
          let m : MinedBy w.eth w.decode_locker (lock_request delays w args) transaction =
            Returns-at (λ m _. MinedBy w.eth w.decode_locker (lock_request delays w args) m)
              (call_lock delays w args n t) mined e in
          bind_trace Steps (lift (locked_event transaction.events))
            (λ e. record_log delays w args (locked e)) _ called.1
            (λ _ q. (rw called.0 (locks m q), called.1))))
    where
      called : At approved (call_lock delays w args n t).1
      called =
          call-At approved w.decode_locker (lock_request delays w args) t (λ tx q. sends_lock q) h

      mined :
          Returns
            (λ m _. MinedBy w.eth w.decode_locker (lock_request delays w args) m)
            (call_lock delays w args n t)
      mined =
          within-Returns web3_part (MinedBy w.eth w.decode_locker (lock_request delays w args))
            (call_contract w.eth w.decode_locker (lock_request delays w args) n) t
            (call_contract-MinedBy w.eth w.decode_locker (lock_request delays w args) n
              (own web3_part t))

  pub find_proof-Steps :
      (entry : LockedEntry) (t : Trace D)
      → At (locked entry) t
      → Steps (find_proof delays w args entry t).1
  unfolding find_proof
  find_proof-Steps entry t h =
      bind_trace Steps (lift (event_of entry)) (find_event delays w args entry) t h.1 λ event e.
        let x : At (locked entry) (within web3_part (extract delays w.eth w.packages event) t).1 =
          extract-At (locked entry) event t h in
        bind_trace Steps (within web3_part (extract delays w.eth w.packages event))
          (search_in delays w args entry event) t x.1
          (λ ex q. searched event e ex (Returns-at _ _ (genuine event) q) _ x)
    where
      genuine :
          (event : LockedEvent)
          → Returns
              (λ x _. Genuine w.eth w.packages event x)
              (within web3_part (extract delays w.eth w.packages event) t)
      genuine event =
          within-Returns web3_part (Genuine w.eth w.packages event)
            (extract delays w.eth w.packages event) t
            (extract-Genuine delays w.eth w.packages event (own web3_part t))

      recorded-Steps :
          (event : LockedEvent)
          → event_of entry ≡ ok event
          → (x : Extracted) → Genuine w.eth w.packages event x
          → (logs : List Log) → x.receipt.logs ≡ some logs
          → (o : Option (Log × ℕ)) → search_event event.log_index logs ≡ o
          → (u : Trace D) → At (locked entry) u
          → Steps (record_found delays w args entry x o u).1
      recorded-Steps event e x y logs p none q u g = g.1
      recorded-Steps event e x y logs p (some (found_log, i)) q u g =
          (rw (g.0) (finds e y p (search_event-First event.log_index logs found_log i q)), g.1)

      searched :
          (event : LockedEvent)
          → event_of entry ≡ ok event
          → (x : Extracted) → Genuine w.eth w.packages event x
          → (u : Trace D) → At (locked entry) u
          → Steps (search_in delays w args entry event x u).1
      searched event e x y u g =
          bind_trace Steps (lift (or_type_error x.receipt.logs))
            (λ logs. record_found delays w args entry x (search_event event.log_index logs)) u g.1
            (λ logs p.
              recorded-Steps event e x y logs (or_type_error-some x.receipt.logs logs p)
                (search_event event.log_index logs) refl u g)
