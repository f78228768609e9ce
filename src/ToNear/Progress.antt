-- ===== src/ToNear/Progress.antt =====
-- A whole run of testing/transfer-eth-erc20/to-near.js.
use rainbow_bridge_cli.Base.{ℕ, ◌≡◌, refl, ◌∷◌}
use rainbow_bridge_cli.Base.Io.{
  Outcome, ok, err, exit, hangs, out_of_fuel, Io, pure, process_exit, call, bind_case, ◌>>=◌, ◌>>◌,
}
use rainbow_bridge_cli.Base.Io.Within.{within, within_trace}
use rainbow_bridge_cli.Base.Io.Rules.{bind_trace, Returns, Returns-at}
use rainbow_bridge_cli.Accounts.{verify_account}
use rainbow_bridge_cli.RobustWeb3.{Delays}
use rainbow_bridge_cli.ToNear.Events.{
  TransferLog, empty, approved, locked, found, safe, TransferEvent, access_key_init, balance_of,
  Trace, World, Args, account_part,
}
use rainbow_bridge_cli.ToNear.{
  approve, lock, find_proof, wait_block_safe, load_transfer_log, stage_approve, stage_lock,
  stage_proof, stage_safe, stage_deposit, run_stages, execute,
}
use rainbow_bridge_cli.ToNear.Stages
use rainbow_bridge_cli.ToNear.Stages.{approve-Steps, lock-Steps, find_proof-Steps}
use rainbow_bridge_cli.ToNear.Waiting.{wait_block_safe-Steps, deposit-Steps}

module _ {D : Type 0} (delays : Delays D) (w : World D) (args : Args) (before : TransferLog)
    (n : ℕ) where
  abbrev pub Steps : Trace D → Type 0
  Steps = Stages.Steps delays w args before n

  abbrev pub log : Trace D → TransferLog
  log = Stages.log delays w args before n

  -- The steps are right, and what is returned is the log.
  abbrev Good : Outcome TransferLog × Trace D → Type 0
  Good r = Steps r.1 × Returns (λ l u. log u ≡ l) r

  bind-Good :
      (m : Io (TransferEvent D) TransferLog) (f : TransferLog → Io (TransferEvent D) TransferLog)
      (t : Trace D)
      → Good (m t)
      → ((l : TransferLog) (u : Trace D) → log u ≡ l → Steps u → Good (f l u))
      → Good ((m >>= f) t)
  bind-Good m f t h k = go (m t) h
    where
      go : (r : Outcome TransferLog × Trace D) → Good r → Good (bind_case f r.0 r.1)
      go (ok l, u) g = k l u g.1 g.0
      go (err e, u) g = (g.0, tt)
      go (exit c, u) g = (g.0, tt)
      go (hangs, u) g = (g.0, tt)
      go (out_of_fuel, u) g = (g.0, tt)

  -- A stage that keeps the steps right, and then reads the log.
  reload-Good :
      (m : Io (TransferEvent D) (Unit {0})) (t : Trace D)
      → Steps (m t).1
      → Good ((m >> load_transfer_log delays w args before n) t)
  reload-Good m t h = go (m t) h
    where
      go :
          (r : Outcome (Unit {0}) × Trace D)
          → Steps r.1
          → Good (bind_case (λ _. load_transfer_log delays w args before n) r.0 r.1)
      go (ok a, u) g = (g, refl)
      go (err e, u) g = (g, tt)
      go (exit c, u) g = (g, tt)
      go (hangs, u) g = (g, tt)
      go (out_of_fuel, u) g = (g, tt)

  stage_approve-Good :
      (l : TransferLog) (t : Trace D)
      → log t ≡ l
      → Steps t
      → Good (stage_approve delays w args before n l t)
  unfolding stage_approve
  stage_approve-Good empty t e s =
      reload-Good (call balance_of w.balance_of >> approve delays w args n) t (
        bind_trace Steps (call balance_of w.balance_of) (λ _. approve delays w args n) t s
          (λ _ _. approve-Steps delays w args before n (balance_of ∷ t) (e, s)))
  stage_approve-Good _ t e s = (s, e)

  stage_lock-Good :
      (l : TransferLog) (t : Trace D)
      → log t ≡ l
      → Steps t
      → Good (stage_lock delays w args before n l t)
  unfolding stage_lock
  stage_lock-Good approved t e s =
      reload-Good (lock delays w args n) t (lock-Steps delays w args before n t (e, s))
  stage_lock-Good _ t e s = (s, e)

  stage_proof-Good :
      (l : TransferLog) (t : Trace D)
      → log t ≡ l
      → Steps t
      → Good (stage_proof delays w args before n l t)
  unfolding stage_proof
  stage_proof-Good (locked entry) t e s =
      reload-Good (find_proof delays w args entry) t
        (find_proof-Steps delays w args before n entry t (e, s))
  stage_proof-Good _ t e s = (s, e)

  stage_safe-Good :
      (l : TransferLog) (t : Trace D)
      → log t ≡ l
      → Steps t
      → Good (stage_safe delays w args before n l t)
  unfolding stage_safe
  stage_safe-Good (found p o i r entry b) t e s =
      reload-Good (wait_block_safe delays w args n p o i r entry b) t
        (wait_block_safe-Steps delays w args before n p o i r entry b t (e, s))
  stage_safe-Good _ t e s = (s, e)

  stage_deposit-Steps :
      (l : TransferLog) (t : Trace D)
      → log t ≡ l
      → Steps t
      → Steps (stage_deposit delays w args before n l t).1
  unfolding stage_deposit
  stage_deposit-Steps (safe locker owner) t e s =
      deposit-Steps delays w args before n locker owner t (e, s)
  stage_deposit-Steps _ t e s = s

  abbrev two_stages : TransferLog → Io (TransferEvent D) TransferLog
  two_stages l =
      (pure l >>= stage_approve delays w args before n) >>= stage_lock delays w args before n

  abbrev four_stages : TransferLog → Io (TransferEvent D) TransferLog
  four_stages l =
      (two_stages l >>= stage_proof delays w args before n) >>= stage_safe delays w args before n

  four_stages-Good : (l : TransferLog) (t : Trace D) → log t ≡ l → Steps t → Good (four_stages l t)
  four_stages-Good l t e s =
      bind-Good (two_stages l >>= stage_proof delays w args before n)
        (stage_safe delays w args before n) t
        (bind-Good (two_stages l) (stage_proof delays w args before n) t
          (bind-Good (pure l >>= stage_approve delays w args before n)
            (stage_lock delays w args before n) t (stage_approve-Good l t e s) stage_lock-Good)
          stage_proof-Good)
        stage_safe-Good

  run_stages-Steps :
      (l : TransferLog) (t : Trace D)
      → log t ≡ l
      → Steps t
      → Steps (run_stages delays w args before n l t).1
  unfolding run_stages
  run_stages-Steps l t e s =
      bind_trace Steps (four_stages l >>= stage_deposit delays w args before n)
        (λ _. process_exit 0) t done (λ _ _. done)
    where
      good : Good (four_stages l t)
      good = four_stages-Good l t e s

      done : Steps ((four_stages l >>= stage_deposit delays w args before n) t).1
      done = bind_trace Steps (four_stages l) (stage_deposit delays w args before n) t good.0 λ k q.
          stage_deposit-Steps k (four_stages l t).1
            (Returns-at (λ l u. log u ≡ l) (four_stages l t) good.1 q) good.0

  -- If what was done so far went in order, then so does all that `execute` does, however the chains
  -- answer. Each log that it writes is one stage after the log before it: an approval and a lock are
  -- recorded once the node has mined them, the lock with its event; then comes the receipt that the
  -- node gave for that event's transaction, the block that it gave for the receipt's number, and a
  -- proof that leads to the receipt in that block; and then, once the client has called that block
  -- safe, what is made of that proof. It sends approvals only while the log is empty, and locks only
  -- while the log is approved, and it deposits only what the last of these logs holds.
  pub execute_to_near-Steps : (t : Trace D) → Steps t → Steps (execute delays w args before n t).1
  unfolding execute
  execute_to_near-Steps t s =
      bind_trace Steps checked (λ _. run_stages delays w args before n (log t)) t begun.1
        (λ _ _. run_stages-Steps (log t) _ begun.0 begun.1)
    where
      checked : Io (TransferEvent D) (Unit {0})
      checked =
          within account_part (verify_account w.accounts args.near_master_account)
          >> call access_key_init w.access_key_init

      AtStart : Trace D → Type 0
      AtStart = Stages.At delays w args before n (log t)

      verified :
          AtStart (within account_part (verify_account w.accounts args.near_master_account) t).1
      verified =
          within_trace account_part AtStart (verify_account w.accounts args.near_master_account) t
            (λ f u g. g) (refl, s)

      begun : AtStart (checked t).1
      begun =
          bind_trace AtStart
            (within account_part (verify_account w.accounts args.near_master_account))
            (λ _. call access_key_init w.access_key_init) t verified (λ _ _. verified)
