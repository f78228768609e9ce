-- ===== src/FromNear/Progress.antt =====
-- A whole run of testing/transfer-eth-erc20/from-near.js.
use rainbow_bridge_cli.Base.{ℕ, ◌≡◌, refl}
use rainbow_bridge_cli.Base.Io.{
  Outcome, ok, err, exit, hangs, out_of_fuel, Io, process_exit, call, bind_case, ◌>>=◌, ◌>>◌,
}
use rainbow_bridge_cli.Base.Io.Within.{within, within_trace}
use rainbow_bridge_cli.Base.Io.Rules.{bind_trace, Returns, Returns-at}
use rainbow_bridge_cli.Accounts.{verify_account}
use rainbow_bridge_cli.RobustWeb3.{Delays}
use rainbow_bridge_cli.Borshify.{Codec}
use rainbow_bridge_cli.FromNear.Log.{TransferLog, empty, withdrawn, found, waited, proved}
use rainbow_bridge_cli.FromNear.Events.{
  TransferEvent, find_access_key, Trace, World, Args, account_part,
}
use rainbow_bridge_cli.FromNear.{
  withdraw, find_withdraw_in_block, wait_block, get_proof, load_transfer_log, stage_withdraw,
  stage_find, stage_wait, stage_proof, stage_unlock, run_stages, execute,
}
use rainbow_bridge_cli.FromNear.Stages
use rainbow_bridge_cli.FromNear.Stages.{unlocks, withdraw-Steps}
use rainbow_bridge_cli.FromNear.Unlocking.{unlock-AtProof}
use rainbow_bridge_cli.FromNear.Waiting.{find_withdraw-Steps, wait_block-Steps, get_proof-Steps}

module _ {D : Type 0} (delays : Delays D) (w : World D) (codec : Codec) (args : Args)
    (before : TransferLog) (n : ℕ) where
  abbrev pub Steps : Trace D → Type 0
  Steps = Stages.Steps delays w codec args before n

  abbrev log : Trace D → TransferLog
  log = Stages.log delays w codec args before n

  -- The steps are right, and what is returned is the log.
  abbrev Good : Outcome TransferLog × Trace D → Type 0
  Good r = Steps r.1 × Returns (λ l u. log u ≡ l) r

  bind-Good :
      (m : Io (TransferEvent D) TransferLog) (f : TransferLog → Io (TransferEvent D) TransferLog)
      (t : Trace D)
      → Good (m t)
      → ((l : TransferLog) (u : Trace D) → log u ≡ l → Steps u → Good (f l u))
      → Good ((m >>= f) t)
  bind-Good m f t h k = go (m t) h
    where
      go : (r : Outcome TransferLog × Trace D) → Good r → Good (bind_case f r.0 r.1)
      go (ok l, u) g = k l u g.1 g.0
      go (err e, u) g = (g.0, tt)
      go (exit c, u) g = (g.0, tt)
      go (hangs, u) g = (g.0, tt)
      go (out_of_fuel, u) g = (g.0, tt)

  -- A stage that keeps the steps right, and then reads the log.
  reload-Good :
      (m : Io (TransferEvent D) (Unit {0})) (t : Trace D)
      → Steps (m t).1
      → Good ((m >> load_transfer_log delays w codec args before n) t)
  reload-Good m t h = go (m t) h
    where
      go :
          (r : Outcome (Unit {0}) × Trace D)
          → Steps r.1
          → Good (bind_case (λ _. load_transfer_log delays w codec args before n) r.0 r.1)
      go (ok a, u) g = (g, refl)
      go (err e, u) g = (g, tt)
      go (exit c, u) g = (g, tt)
      go (hangs, u) g = (g, tt)
      go (out_of_fuel, u) g = (g, tt)

  stage_withdraw-Good :
      (l : TransferLog) (t : Trace D)
      → log t ≡ l
      → Steps t
      → Good (stage_withdraw delays w codec args before n l t)
  unfolding stage_withdraw
  stage_withdraw-Good empty t e s =
      reload-Good (withdraw delays w codec args) t
        (withdraw-Steps delays w codec args before n t (e, s))
  stage_withdraw-Good _ t e s = (s, e)

  stage_find-Good :
      (l : TransferLog) (t : Trace D)
      → log t ≡ l
      → Steps t
      → Good (stage_find delays w codec args before n l t)
  unfolding stage_find
  stage_find-Good (withdrawn tx) t e s =
      reload-Good (find_withdraw_in_block delays w codec args n tx) t
        (find_withdraw-Steps delays w codec args before n tx t (e, s))
  stage_find-Good _ t e s = (s, e)

  stage_wait-Good :
      (l : TransferLog) (t : Trace D)
      → log t ≡ l
      → Steps t
      → Good (stage_wait delays w codec args before n l t)
  unfolding stage_wait
  stage_wait-Good (found h i b k) t e s =
      reload-Good (wait_block delays w codec args n b k i) t
        (wait_block-Steps delays w codec args before n h i b k t (e, s))
  stage_wait-Good _ t e s = (s, e)

  stage_proof-Good :
      (l : TransferLog) (t : Trace D)
      → log t ≡ l
      → Steps t
      → Good (stage_proof delays w codec args before n l t)
  unfolding stage_proof
  stage_proof-Good (waited h k i m) t e s =
      reload-Good (get_proof delays w codec args h k i m) t
        (get_proof-Steps delays w codec args before n h i k m t (e, s))
  stage_proof-Good _ t e s = (s, e)

  abbrev one_stage : Io (TransferEvent D) TransferLog
  one_stage =
      load_transfer_log delays w codec args before n >>= stage_withdraw delays w codec args before n

  abbrev two_stages : Io (TransferEvent D) TransferLog
  two_stages = one_stage >>= stage_find delays w codec args before n

  abbrev three_stages : Io (TransferEvent D) TransferLog
  three_stages = two_stages >>= stage_wait delays w codec args before n

  abbrev four_stages : Io (TransferEvent D) TransferLog
  four_stages = three_stages >>= stage_proof delays w codec args before n

  four_stages-Good : (t : Trace D) → Steps t → Good (four_stages t)
  four_stages-Good t s =
      bind-Good three_stages (stage_proof delays w codec args before n) t
        (bind-Good two_stages (stage_wait delays w codec args before n) t
          (bind-Good one_stage (stage_find delays w codec args before n) t
            (stage_withdraw-Good (log t) t refl s) stage_find-Good)
          stage_wait-Good)
        stage_proof-Good

  stage_unlock-Steps :
      (l : TransferLog) (t : Trace D)
      → log t ≡ l
      → Steps t
      → Steps (stage_unlock delays w codec args before n l t).1
  unfolding stage_unlock
  stage_unlock-Steps (proved p m) t e s =
      (unlock-AtProof delays w codec args before n p m t (e, s)).1
  stage_unlock-Steps _ t e s = s

  run_stages-Steps : (t : Trace D) → Steps t → Steps (run_stages delays w codec args before n t).1
  unfolding run_stages
  run_stages-Steps t s =
      bind_trace Steps (four_stages >>= stage_unlock delays w codec args before n)
        (λ _. process_exit 0) t done (λ _ _. done)
    where
      good : Good (four_stages t)
      good = four_stages-Good t s

      done : Steps ((four_stages >>= stage_unlock delays w codec args before n) t).1
      done =
          bind_trace Steps four_stages (stage_unlock delays w codec args before n) t good.0 λ l e.
            stage_unlock-Steps l (four_stages t).1
              (Returns-at (λ l u. log u ≡ l) (four_stages t) good.1 e) good.0

  -- If what was done so far went in order, then so does all that `execute` does, however the chains
  -- answer. Each log that it writes is one stage after the log before it: the result of the
  -- transaction on NEAR, with a `SuccessValue`; the receipt that the result names, with the hash of
  -- its block, and a final block that the node gave, above the block of that hash; the hash and the
  -- height of a head of the bridge contract, above that final block; and the proof that the node gave
  -- of the receipt against that hash, with the height. It signs and sends NEAR transactions only
  -- while the log is empty, and transactions on Ethereum only while the log holds a proof, which they
  -- hand to the locker with its height.
  pub execute-Steps : (t : Trace D) → Steps t → Steps (execute delays w codec args before n t).1
  unfolding execute
  execute-Steps t s =
      bind_trace Steps
        (within account_part (verify_account w.accounts args.sender)
          >> call find_access_key w.access_key)
        (λ _. run_stages delays w codec args before n) t begun (λ _ _. run_stages-Steps _ begun)
    where
      verified : Steps (within account_part (verify_account w.accounts args.sender) t).1
      verified =
          within_trace account_part Steps (verify_account w.accounts args.sender) t (λ f u g. g) s

      begun :
          Steps
            ((within account_part (verify_account w.accounts args.sender)
                >> call find_access_key w.access_key)
              t).1
      begun =
          bind_trace Steps (within account_part (verify_account w.accounts args.sender))
            (λ _. call find_access_key w.access_key) t verified (λ _ _. verified)
