-- ===== src/Extractor/Printed.antt =====
-- What ethToNearFindProof of eth2near/eth2near-block-relay/eth-proof-extractor.js prints.
use rainbow_bridge_cli.Base.{ℕ, ◌≡◌, refl, Option, none, some, List, map}
use rainbow_bridge_cli.Base.Io.{Outcome, ok, err, exit, hangs, out_of_fuel, pure, lift}
use rainbow_bridge_cli.Base.Sync.{◌>>=◌ as ◌>>='◌, bind-ok}
use rainbow_bridge_cli.Base.Io.Rules.{Returns, Returns-map, bind_after, catch-Returns}
use rainbow_bridge_cli.RobustWeb3.{Log, Trace, EthNode, Delays}
use rainbow_bridge_cli.Extractor.{
  Packages, ProofLocker, LockedEvent, Extracted, search_event, extract, proof_locker, Connection,
  closable, without_close, absent, printed, print_proof, print_after, find_event, find_and_print,
}
use rainbow_bridge_cli.Extractor.Genuine.{Genuine, extract-Genuine}
use rainbow_bridge_cli.Extractor.Search.{First, search_event-First}

module _ {D : Type 0} (delays : Delays D) (node : EthNode D) (p : Packages) where
  -- What is given to the contracts is that of this log at this place in the receipt, with the
  -- extracted proof.
  pub record Fits (x : Extracted) (log : Log) (index : ℕ) (locker : ProofLocker) : Type 0 where
    pub log_index : locker.log_index ≡ index
    pub log_entry : p.log_data log ≡ ok locker.log_entry_data
    pub receipt_index : locker.receipt_index ≡ x.receipt.transaction_index
    pub receipt_data : p.receipt_data x.receipt ≡ ok locker.receipt_data
    pub header_data : locker.header_data ≡ x.proof.header_rlp
    pub nodes : locker.proof ≡ map p.rlp_encode x.proof.receipt_proof

  -- The pair belongs to the first log, in the receipt of the event's transaction, that has the index
  -- of the event; the proof leads to that receipt in the block of the number.
  pub record Proves (event : LockedEvent) (number : ℕ) (locker : ProofLocker) : Type 0 where
    pub extracted : Extracted
    pub genuine : Genuine node p event extracted
    pub logs : List Log
    pub log : Log
    pub index : ℕ
    pub has_logs : extracted.receipt.logs ≡ some logs
    pub first : First event.log_index logs log index
    pub fits : Fits extracted log index locker
    pub of_block : number ≡ extracted.block.number

  abbrev pub IfPrinted : LockedEvent → Option (ℕ × ProofLocker) → Type 0
  IfPrinted event none = Unit
  IfPrinted event (some (number, locker)) = Proves event number locker

  proof_locker-Fits :
      (x : Extracted) (log : Log) (i : ℕ) (l : ProofLocker)
      → x.proof.tx_index ≡ x.receipt.transaction_index
      → proof_locker p x.receipt x.proof log i ≡ ok l
      → Fits x log i l
  unfolding proof_locker
  proof_locker-Fits x log i l same e =
      let (d, q, e') = bind-ok (p.log_data log) _ e in
      let (r, q', e2) = bind-ok (p.receipt_data x.receipt) _ e' in
      let s : record {
        log_index = i;
        log_entry_data = d;
        receipt_index = x.proof.tx_index;
        receipt_data = r;
        header_data = x.proof.header_rlp;
        proof = map p.rlp_encode x.proof.receipt_proof;
      }
          ≡ l =
        cc in
      rw (← s) (record {
        log_index = refl;
        log_entry = q;
        receipt_index = same;
        receipt_data = q';
        header_data = refl;
        nodes = refl;
      })

  module _ (event : LockedEvent) (x : Extracted) (genuine : Genuine node p event x)
      (logs : List Log) (t : Trace D) (e : x.receipt.logs ≡ some logs) where
    abbrev shown : Outcome ProofLocker → Outcome (Option (ℕ × ProofLocker))
    shown locker = locker >>=' λ l. ok (some (x.block.number, l))

    shown-Proves :
        (log : Log) (i : ℕ)
        → First event.log_index logs log i
        → (l : Outcome ProofLocker) → proof_locker p x.receipt x.proof log i ≡ l
        → Returns (λ o u. IfPrinted event o) (lift (shown l) t)
    shown-Proves log i f (ok l) h = record {
      extracted = x;
      genuine = genuine;
      logs = logs;
      log = log;
      index = i;
      has_logs = e;
      first = f;
      fits = proof_locker-Fits x log i l genuine.proves.of_index h;
      of_block = refl;
    }
    shown-Proves log i f (err y) h = tt
    shown-Proves log i f (exit y) h = tt
    shown-Proves log i f hangs h = tt
    shown-Proves log i f out_of_fuel h = tt

    printed-Proves :
        (o : Option (Log × ℕ))
        → search_event event.log_index logs ≡ o
        → Returns (λ o u. IfPrinted event o) (lift (printed delays node p x o) t)
    printed-Proves none h = tt
    printed-Proves (some (log, i)) h =
        shown-Proves log i (search_event-First event.log_index logs log i h)
          (proof_locker p x.receipt x.proof log i) refl

  print_proof-Proves :
      (event : LockedEvent) (x : Extracted) (t : Trace D)
      → Genuine node p event x
      → Returns (λ o u. IfPrinted event o) (lift (print_proof delays node p event.log_index x) t)
  print_proof-Proves event x t g = with_logs x.receipt.logs refl
    where
      with_logs :
          (o : Option (List Log))
          → x.receipt.logs ≡ o
          → Returns
              (λ o u. IfPrinted event o)
              (lift (print_proof delays node p event.log_index x) t)
      with_logs none e = simp e tt
      with_logs (some logs) e =
          simp e (printed-Proves event x g logs t e (search_event event.log_index logs) refl)

  -- A proof that is printed belongs to the event, and none is printed without a connection.
  abbrev pub Printed : Connection → LockedEvent → Option (ℕ × ProofLocker) → Type 0
  Printed c event o = IfPrinted event o × (c ≡ absent → o ≡ none)

  print_after-Printed :
      (c : Connection) (event : LockedEvent) (x : Extracted) (t : Trace D)
      → Genuine node p event x
      → Returns (λ o u. Printed c event o) (lift (print_after delays node p c event.log_index x) t)
  print_after-Printed closable event x t g =
      Returns-map {Q = λ o u. Printed closable event o} _ (print_proof-Proves event x t g)
        (λ o u h. (h, (λ e. cc)))
  print_after-Printed without_close event x t g =
      Returns-map {Q = λ o u. Printed without_close event o} _ (print_proof-Proves event x t g)
        (λ o u h. (h, (λ e. cc)))
  print_after-Printed absent event x t g = tt

  -- If the command prints a proof for an event, then it is that of the first log that has the event's
  -- index in the receipt that the node gave for the event's transaction: it names that log's place,
  -- holds the serialized log and receipt, and its nodes lead to the receipt's index in the tree of
  -- the receipts that the node gave for the transactions of the block; that block is the one that the
  -- node gave for the receipt's block number, its header stands in the proof, and its number beside
  -- it. Over a provider without a connection, as for HTTP, no proof is printed.
  pub find_and_print-Printed :
      (c : Connection) (event : LockedEvent) (t : Trace D)
      → Returns (λ o u. Printed c event o) (find_and_print delays node p c (ok event) t)
  unfolding find_and_print
  find_and_print-Printed c event t =
      catch-Returns (λ o u. Printed c event o) (find_event delays node p c event) (λ e. pure none) t
        (bind_after (λ x u. Genuine node p event x) (λ o u. Printed c event o)
          (extract delays node p event) (λ x. lift (print_after delays node p c event.log_index x))
          t (extract-Genuine delays node p event t) (λ x u g. print_after-Printed c event x u g))
        (λ e _. (tt, λ _. refl))
