-- ===== src/ToNear/Waiting.antt =====
-- The last stages of testing/transfer-eth-erc20/to-near.js: the wait for the client, and the deposit.
use rainbow_bridge_cli.Base.{ℕ, zero, suc, ◌*◌, ◌≡◌, ap, ◌∙◌, String, true, ◌∷◌}
use rainbow_bridge_cli.Base.Io.{ok, resolve, Io, call, emit, lift, pure, ◌>>◌}
use rainbow_bridge_cli.Base.Io.Rules.{
  settle-ok, bind_trace, catch_trace, Returns, Returns-at, bind-Returns, if_Returns, if_trace,
}
use rainbow_bridge_cli.RobustWeb3.{Block, Log, Receipt, Delays}
use rainbow_bridge_cli.Extractor.{Proof, ProofLocker, proof_locker}
use rainbow_bridge_cli.ToNear.Events.{
  LockedEntry, TransferLog, found, safe, TransferEvent, deposited, last_block_number,
  block_hash_safe, get_balance, slept, Trace, World, Args,
}
use rainbow_bridge_cli.ToNear.{
  show_retry_and_exit, record_log, wait_safe, owner_of, record_safe, with_locker, wait_block_safe,
  read_balance, send_deposit, deposit,
}
use rainbow_bridge_cli.ToNear.Stages
use rainbow_bridge_cli.ToNear.Stages.{confirms}

module _ {D : Type 0} (delays : Delays D) (w : World D) (args : Args) (before : TransferLog)
    (n : ℕ) where
  abbrev Steps : Trace D → Type 0
  Steps = Stages.Steps delays w args before n

  abbrev At : TransferLog → Trace D → Type 0
  At = Stages.At delays w args before n

  -- The client has answered that the block is safe.
  abbrev IsSafe : ℕ → Type 0
  IsSafe b = (t : Trace D) × (w.block_hash_safe b t ≡ resolve true)

  abbrev again : ℕ → ℕ → Io (TransferEvent D) (Unit {0})
  again k b = emit (slept (10 * 1000)) >> wait_safe delays w args k b

  wait_safe-At :
      (l : TransferLog) (k b : ℕ) (t : Trace D) → At l t → At l (wait_safe delays w args k b t).1
  unfolding wait_safe
  wait_safe-At l zero b t h = h
  wait_safe-At l (suc k) b t h =
      bind_trace (At l) (call last_block_number w.last_block_number) _ t h λ _ _.
        bind_trace (At l) (call (block_hash_safe b) (w.block_hash_safe b)) _ _ h
          λ is_safe _. if_trace (At l) is_safe (pure tt) (again k b) _ h (wait_safe-At l k b _ h)

  wait_safe-IsSafe :
      (k b : ℕ) (t : Trace D) → Returns (λ _ u. IsSafe b) (wait_safe delays w args k b t)
  unfolding wait_safe
  wait_safe-IsSafe zero b t = tt
  wait_safe-IsSafe (suc k) b t =
      bind-Returns (λ _ u. IsSafe b) (call last_block_number w.last_block_number) _ t
        λ _ _.
          bind-Returns (λ _ u. IsSafe b) (call (block_hash_safe b) (w.block_hash_safe b)) _ _
            λ is_safe e.
              if_Returns (λ _ u. IsSafe b) is_safe (pure tt) (again k b) _
                (λ q. (_, settle-ok (w.block_hash_safe b _) (e ∙ ap ok q)))
                (λ _. wait_safe-IsSafe k b _)

  module _ (proof : Proof) (log : Log) (i : ℕ) (receipt : Receipt) (entry : LockedEntry)
      (block : Block) where
    abbrev AtFound : Trace D → Type 0
    AtFound = At (found proof log i receipt entry block)

    record_safe-Steps :
        (locker : ProofLocker) (owner : String) (t : Trace D)
        → proof_locker w.packages receipt proof log i ≡ ok locker
        → owner_of w entry ≡ ok owner
        → AtFound t
        → Steps (record_safe delays w args n block locker owner t).1
    record_safe-Steps locker owner t p q h =
        let g : AtFound (wait_safe delays w args n block.number t).1 =
          wait_safe-At (found proof log i receipt entry block) n block.number t h in
        bind_trace Steps (wait_safe delays w args n block.number)
          (λ _. record_log delays w args (safe locker owner)) t g.1
          λ _ e.
            let (u, s) =
              Returns-at (λ _ u. IsSafe block.number) (wait_safe delays w args n block.number t)
                (wait_safe-IsSafe n block.number t) e in
            (rw g.0 (confirms u s p q), g.1)

    pub wait_block_safe-Steps :
        (t : Trace D)
        → AtFound t
        → Steps (wait_block_safe delays w args n proof log i receipt entry block t).1
    unfolding wait_block_safe
    wait_block_safe-Steps t h =
        bind_trace Steps (lift (proof_locker w.packages receipt proof log i))
          (with_locker delays w args n entry block) t h.1
          λ locker p.
            bind_trace Steps (lift (owner_of w entry)) (record_safe delays w args n block locker) t
              h.1 λ owner q. record_safe-Steps locker owner t p q h

  pub deposit-Steps :
      (locker : ProofLocker) (owner : String) (t : Trace D)
      → At (safe locker owner) t
      → Steps (deposit delays w args locker owner t).1
  unfolding deposit
  deposit-Steps locker owner t h =
      bind_trace Steps
        ((read_balance delays w args owner >> send_deposit delays w args locker)
          >> read_balance delays w args owner)
        (λ _. pure tt) t done (λ _ _. done)
    where
      sent : Steps ((read_balance delays w args owner >> send_deposit delays w args locker) t).1
      sent =
          bind_trace Steps (read_balance delays w args owner)
            (λ _. send_deposit delays w args locker) t h.1
            λ _ _.
              catch_trace Steps (call (deposited locker) (w.deposit locker))
                (show_retry_and_exit delays w args) (get_balance owner ∷ t) ((owner, h.0), h.1)
                (λ _ _. ((owner, h.0), h.1))

      done :
          Steps
            (((read_balance delays w args owner >> send_deposit delays w args locker)
                >> read_balance delays w args owner)
              t).1
      done =
          bind_trace Steps (read_balance delays w args owner >> send_deposit delays w args locker)
            (λ _. read_balance delays w args owner) t sent (λ _ _. sent)
