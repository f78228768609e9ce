-- ===== src/ToNear/Protocol.antt =====
-- What testing/transfer-eth-erc20/to-near.js promises, without its data: a protocol of phases and
-- actions, which its runs refine.
use rainbow_bridge_cli.Base.{ℕ, String, ◌≡◌, List, [], ◌∷◌}
use rainbow_bridge_cli.Base.Bytes.{Bytes}
use rainbow_bridge_cli.Base.Io.{ok}
use rainbow_bridge_cli.RobustWeb3.{
  Tx, Web3Event, get_block_number, get_gas_price, set_provider, get_block, get_receipt,
  get_transaction_count, view_call, send_transaction, Delays,
}
use rainbow_bridge_cli.ToNear.Events.{
  TransferLog, empty, approved, locked, found, safe, other, recorded, account, web3,
  access_key_init, balance_of, last_block_number, block_hash_safe, get_balance, deposited, slept,
  Trace, World, Args,
}
use rainbow_bridge_cli.ToNear.{execute}
use rainbow_bridge_cli.ToNear.Stages
use rainbow_bridge_cli.ToNear.Stages.{
  Step, approves, locks, finds, confirms, Sends, sends_approve, sends_lock,
}
use rainbow_bridge_cli.ToNear.Progress.{execute_to_near-Steps}

pub data Phase : Type 0 where
  idle allowed escrowed proven final unknown : Phase

-- The actions that others can see, calls of contracts on Ethereum and deposits on NEAR, and the
-- changes of the phase.
pub data Action : Type 0 where
  called : String → Bytes → Action
  mint : Action
  enter : Phase → Action

-- The order of the phases.
pub data Follows : Phase → Phase → Type 0 where
  allow_first : Follows idle allowed
  then_escrow : Follows allowed escrowed
  then_prove : Follows escrowed proven
  then_confirm : Follows proven final

-- Tokens are allowed to the locker in the phase `idle` only, put into escrow in the phase `allowed`
-- only, and minted on NEAR in the phase `final` only; phases follow each other in their order. Actions
-- stand with the latest first, as in a trace.
pub data Protocol (args : Args) (start : Phase) : List Action → Phase → Type 0 where
  begin : Protocol args start [] start
  allows :
      {actions : List Action} {input : Bytes}
      → args.approve_call ≡ ok input
      → Protocol args start actions idle
      → Protocol args start (called args.eth_erc20_address input ∷ actions) idle
  escrows :
      {actions : List Action} {input : Bytes}
      → args.lock_call ≡ ok input
      → Protocol args start actions allowed
      → Protocol args start (called args.eth_locker_address input ∷ actions) allowed
  mints :
      {actions : List Action}
      → Protocol args start actions final
      → Protocol args start (mint ∷ actions) final
  enters :
      {actions : List Action} {from to : Phase}
      → Follows from to
      → Protocol args start actions from
      → Protocol args start (enter to ∷ actions) to

-- The phase of a log, and the actions of a run: what the protocol sees of them.
abbrev pub phase : TransferLog → Phase
phase empty = idle
phase approved = allowed
phase (locked entry) = escrowed
phase (found p o i r entry b) = proven
phase (safe locker owner) = final
phase other = unknown

abbrev pub actions_of : {D : Type 0} → Trace D → List Action
actions_of [] = []
actions_of (recorded l ∷ t) = enter (phase l) ∷ actions_of t
actions_of (web3 (send_transaction tx) ∷ t) = called tx.to tx.input ∷ actions_of t
actions_of (deposited locker ∷ t) = mint ∷ actions_of t
actions_of (_ ∷ t) = actions_of t

step-Follows :
    {D : Type 0} (delays : Delays D) (w : World D) (args : Args) {l k : TransferLog}
    → Step delays w args l k
    → Follows (phase l) (phase k)
step-Follows delays w args (approves m) = allow_first
step-Follows delays w args (locks m e) = then_escrow
step-Follows delays w args (finds e x p f) = then_prove
step-Follows delays w args (confirms t s p q) = then_confirm

module _ {D : Type 0} (delays : Delays D) (w : World D) (args : Args) (before : TransferLog)
    (n : ℕ) where
  abbrev log : Trace D → TransferLog
  log = Stages.log delays w args before n

  abbrev Follow : List Action → TransferLog → Type 0
  Follow actions l = Protocol args (phase before) actions (phase l)

  Sends-Protocol :
      {l : TransferLog} {tx : Tx} {actions : List Action}
      → Sends delays w args before n l tx
      → Follow actions l
      → Follow (called tx.to tx.input ∷ actions) l
  Sends-Protocol (sends_approve a) p = rw (a.to) (allows a.input p)
  Sends-Protocol (sends_lock a) p = rw (a.to) (escrows a.input p)

  Steps-Protocol :
      (t : Trace D) → Stages.Steps delays w args before n t → Follow (actions_of t) (log t)
  Steps-Protocol [] s = begin
  Steps-Protocol (recorded l ∷ t) (x, s) =
      enters (step-Follows delays w args x) (Steps-Protocol t s)
  Steps-Protocol (web3 (send_transaction tx) ∷ t) (x, s) = Sends-Protocol x (Steps-Protocol t s)
  Steps-Protocol (deposited locker ∷ t) ((owner, e), s) =
      let p : Follow (actions_of t) (safe locker owner) = rw e at (Steps-Protocol t s) in
      rw e (mints p)
  Steps-Protocol (web3 get_block_number ∷ t) s = Steps-Protocol t s
  Steps-Protocol (web3 get_gas_price ∷ t) s = Steps-Protocol t s
  Steps-Protocol (web3 set_provider ∷ t) s = Steps-Protocol t s
  Steps-Protocol (web3 (get_block b) ∷ t) s = Steps-Protocol t s
  Steps-Protocol (web3 (get_receipt r) ∷ t) s = Steps-Protocol t s
  Steps-Protocol (web3 (get_transaction_count a) ∷ t) s = Steps-Protocol t s
  Steps-Protocol (web3 (view_call tx) ∷ t) s = Steps-Protocol t s
  Steps-Protocol (web3 (Web3Event.slept d) ∷ t) s = Steps-Protocol t s
  Steps-Protocol (account e ∷ t) s = Steps-Protocol t s
  Steps-Protocol (access_key_init ∷ t) s = Steps-Protocol t s
  Steps-Protocol (balance_of ∷ t) s = Steps-Protocol t s
  Steps-Protocol (last_block_number ∷ t) s = Steps-Protocol t s
  Steps-Protocol (block_hash_safe b ∷ t) s = Steps-Protocol t s
  Steps-Protocol (get_balance o ∷ t) s = Steps-Protocol t s
  Steps-Protocol (slept d ∷ t) s = Steps-Protocol t s

  -- Every run of `execute`, from any log and however the chains answer, refines the protocol: its
  -- visible actions are a run of the protocol from the phase of the log that it finds to the phase of
  -- the log that it leaves.
  pub execute-Protocol :
      Protocol args
        (phase before)
        (actions_of (execute delays w args before n []).1)
        (phase (log (execute delays w args before n []).1))
  execute-Protocol =
      Steps-Protocol (execute delays w args before n []).1
        (execute_to_near-Steps delays w args before n [] tt)
