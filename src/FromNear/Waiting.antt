-- ===== src/FromNear/Waiting.antt =====
-- What the stages of testing/transfer-eth-erc20/from-near.js that wait for the chains record in the
-- log.
use rainbow_bridge_cli.Base.{
  ℕ, zero, suc, ◌<◌, ◌≡◌, refl, String, none, some, ◌∷◌, leb, ltb, ◌==◌, arith,
}
use rainbow_bridge_cli.Base.Io.{ok, pure, call, lift, ◌>>=◌, ◌>>◌}
use rainbow_bridge_cli.Base.Io.Within.{within}
use rainbow_bridge_cli.Base.Io.Rules.{
  bind_trace, if_trace, settle-ok, Returns, Returns-at, bind-Returns, if_Returns, call-Returns,
}
use rainbow_bridge_cli.Retry.Traces.{backoff_trace, backoff-Returns}
use rainbow_bridge_cli.Near.Node.{TxResult}
use rainbow_bridge_cli.RobustWeb3.{Delays, robust_block}
use rainbow_bridge_cli.Borshify.{Codec}
use rainbow_bridge_cli.FromNear.Log.{
  TransferLog, IdType, NearBlock, transaction, receipt, withdrawn, found, waited,
}
use rainbow_bridge_cli.FromNear.Events.{
  ClientState, near_block, bridge_state, lock_duration, block_hash, transaction_proof,
  receipt_proof, paused, Trace, World, Args, web3_part,
}
use rainbow_bridge_cli.FromNear.{
  locate_receipt, backoff_10, read_balance, wait_final, find_withdraw_in_block, client_delay,
  sleep_seconds, find_block, find_outcome, read_block, record_head, record_proof, record_log,
  wait_client, wait_block, light_client_proof, get_proof,
}
use rainbow_bridge_cli.FromNear.Stages
use rainbow_bridge_cli.FromNear.Stages.{
  GivesNear, IsHead, proof_of, withdrew, located, available, proven, read_balance-At,
  robust_block-At, guarded,
}

module _ {D : Type 0} (delays : Delays D) (w : World D) (codec : Codec) (args : Args)
    (before : TransferLog) (n : ℕ) where
  abbrev Steps : Trace D → Type 0
  Steps = Stages.Steps delays w codec args before n

  abbrev At : TransferLog → Trace D → Type 0
  At = Stages.At delays w codec args before n

  module _ (l : TransferLog) where
    wait_final-At :
        (k : ℕ) (b : NearBlock) (t : Trace D)
        → At l t
        → At l (wait_final delays w codec args k b t).1
    unfolding wait_final
    wait_final-At zero b t h = h
    wait_final-At (suc k) b t h =
        bind_trace (At l) (call (near_block none) (w.near_block none)) _ t h λ block _.
          if_trace (At l) (leb block.height b.height) _ (pure block) _ (wait_final-At k b _ h) h

    read_block-At :
        (hash : String) (t : Trace D) → At l t → At l (read_block delays w codec args hash t).1
    read_block-At hash t h =
        backoff_trace delays.product delays.wait paused (At l)
          (call (near_block (some hash)) (w.near_block (some hash))) 10 delays.delay delays.wait t
          (λ u g. g) (λ d u g. g) h

    backoff_final-At :
        (b : NearBlock) (t : Trace D)
        → At l t
        → At l (backoff_10 delays w codec args (wait_final delays w codec args n b) t).1
    backoff_final-At b t h =
        backoff_trace delays.product delays.wait paused (At l) (wait_final delays w codec args n b)
          10 delays.delay delays.wait t (wait_final-At n b) (λ d u g. g) h

    wait_client-At :
        (k : ℕ) (b : NearBlock) (t : Trace D)
        → At l t
        → At l (wait_client delays w codec args k b t).1
    unfolding wait_client
    wait_client-At zero b t h = h
    wait_client-At (suc k) b t h = bind_trace (At l) (call bridge_state w.bridge_state) _ t h λ s _.
        bind_trace (At l) (call (block_hash s.current_height) (w.block_hash s.current_height)) _
          (bridge_state ∷ t) h
          λ hash _.
            if_trace (At l) (ltb b.height s.current_height) (pure (hash, s.current_height))
              ((client_delay delays w codec args s >>= sleep_seconds delays w codec args)
                >> wait_client delays w codec args k b)
              (block_hash s.current_height ∷ bridge_state ∷ t) h
              (sleeps s (block_hash s.current_height ∷ bridge_state ∷ t) h (wait_client-At k b))
      where
        waits :
            (s : ClientState) (u : Trace D) → At l u → At l (client_delay delays w codec args s u).1
        waits s u g =
            if_trace (At l) (s.next_valid_at == 0) (call lock_duration w.lock_duration) _ u g (
              bind_trace (At l) (within web3_part (robust_block delays w.eth none)) _ u
                (robust_block-At delays w codec args before n l none u g)
                (λ _ _. robust_block-At delays w codec args before n l none u g))

        sleeps :
            (s : ClientState) (u : Trace D)
            → At l u
            → ((v : Trace D) → At l v → At l (wait_client delays w codec args k b v).1)
            → At l
                (((client_delay delays w codec args s >>= sleep_seconds delays w codec args)
                    >> wait_client delays w codec args k b)
                  u).1
        sleeps s u g next =
            bind_trace (At l)
              (client_delay delays w codec args s >>= sleep_seconds delays w codec args)
              (λ _. wait_client delays w codec args k b) u slept_well (λ _ _. next _ slept_well)
          where
            slept_well :
                At l
                  ((client_delay delays w codec args s >>= sleep_seconds delays w codec args) u).1
            slept_well =
                bind_trace (At l) (client_delay delays w codec args s)
                  (sleep_seconds delays w codec args) u (waits s u g) (λ _ _. waits s u g)

  wait_final-above :
      (k : ℕ) (b : NearBlock) (t : Trace D)
      → Returns
          (λ x _. GivesNear w none x × (b.height < x.height))
          (wait_final delays w codec args k b t)
  unfolding wait_final
  wait_final-above zero b t = tt
  wait_final-above (suc k) b t =
      bind-Returns R (call (near_block none) (w.near_block none)) _ t λ x e.
        if_Returns R (leb x.height b.height) _ (pure x) (near_block none ∷ t)
          (λ _. wait_final-above k b _) (λ q. ((_, settle-ok _ e), ground arith))
    where
      R : NearBlock → Trace D → Type 0
      R x u = GivesNear w none x × (b.height < x.height)

  backoff_final-above :
      (b : NearBlock) (t : Trace D)
      → Returns
          (λ x _. GivesNear w none x × (b.height < x.height))
          (backoff_10 delays w codec args (wait_final delays w codec args n b) t)
  backoff_final-above b t =
      backoff-Returns delays.product delays.wait paused
        (λ x. GivesNear w none x × (b.height < x.height)) (wait_final delays w codec args n b) 10
        delays.delay delays.wait t (wait_final-above n b)

  read_block-Gives :
      (hash : String) (t : Trace D)
      → Returns (λ x _. GivesNear w (some hash) x) (read_block delays w codec args hash t)
  read_block-Gives hash t =
      backoff-Returns delays.product delays.wait paused (GivesNear w (some hash))
        (call (near_block (some hash)) (w.near_block (some hash))) 10 delays.delay delays.wait t
        (λ u. call-Returns _ (near_block (some hash)) (w.near_block (some hash)) u (λ x e. (_, e)))

  pub find_withdraw-Steps :
      (tx : TxResult) (t : Trace D)
      → At (withdrawn tx) t
      → Steps (find_withdraw_in_block delays w codec args n tx t).1
  unfolding find_withdraw_in_block
  find_withdraw-Steps tx t h =
      guarded delays w codec args before n (withdrawn tx)
        (lift (locate_receipt tx) >>= find_block delays w codec args n) t
        (bind_trace Steps (lift (locate_receipt tx)) (find_block delays w codec args n) t h.1
          λ (id, hash) e.
            bind_trace Steps (read_block delays w codec args hash)
              (find_outcome delays w codec args n (id, hash)) t (read hash).1
              λ b q.
                bind_trace Steps
                  (backoff_10 delays w codec args (wait_final delays w codec args n b)) _
                  (asked hash) (waits hash b).1
                  λ b' q'.
                    let (g, lt) =
                      Returns-at (λ x _. GivesNear w none x × (b.height < x.height)) _
                        (backoff_final-above b (asked hash)) q' in
                    let given =
                      Returns-at (λ x _. GivesNear w (some hash) x) _ (read_block-Gives hash t) q in
                    (rw (waits hash b).0 (located b e given g lt), (waits hash b).1))
    where
      asked : String → Trace D
      asked hash = (read_block delays w codec args hash t).1

      read : (hash : String) → At (withdrawn tx) (asked hash)
      read hash = read_block-At (withdrawn tx) hash t h

      waits :
          (hash : String) (b : NearBlock)
          → At
              (withdrawn tx)
              (backoff_10 delays w codec args (wait_final delays w codec args n b) (asked hash)).1
      waits hash b = backoff_final-At (withdrawn tx) b (asked hash) (read hash)

  wait_client-above :
      (k : ℕ) (b : NearBlock) (t : Trace D)
      → Returns (λ r u. (b.height < r.1) × IsHead w r.0 r.1) (wait_client delays w codec args k b t)
  unfolding wait_client
  wait_client-above zero b t = tt
  wait_client-above (suc k) b t = bind-Returns Q (call bridge_state w.bridge_state) _ t λ s p.
      bind-Returns Q (call (block_hash s.current_height) (w.block_hash s.current_height)) _
        (bridge_state ∷ t)
        λ hash q.
          if_Returns Q (ltb b.height s.current_height) (pure (hash, s.current_height))
            ((client_delay delays w codec args s >>= sleep_seconds delays w codec args)
              >> wait_client delays w codec args k b)
            (block_hash s.current_height ∷ bridge_state ∷ t)
            (λ e. (
              ground arith,
              record {
                state = s;
                at_state = bridge_state ∷ t;
                state_given = settle-ok _ p;
                at_height = refl;
                at_hash = block_hash s.current_height ∷ bridge_state ∷ t;
                hash_given = settle-ok _ q;
              },
            ))
            (λ _.
              bind-Returns Q
                (client_delay delays w codec args s >>= sleep_seconds delays w codec args)
                (λ _. wait_client delays w codec args k b)
                (block_hash s.current_height ∷ bridge_state ∷ t) (λ _ _. wait_client-above k b _))
    where
      Q : String × ℕ → Trace D → Type 0
      Q r u = (b.height < r.1) × IsHead w r.0 r.1

  pub wait_block-Steps :
      (h i : String) (b : NearBlock) (k : IdType) (t : Trace D)
      → At (found h i b k) t
      → Steps (wait_block delays w codec args n b k i t).1
  unfolding wait_block
  wait_block-Steps h i b k t g =
      guarded delays w codec args before n (found h i b k)
        (wait_client delays w codec args n b >>= record_head delays w codec args k i) t
        (bind_trace Steps (wait_client delays w codec args n b)
          (record_head delays w codec args k i) t waits.1
          λ (hash, height) e.
            bind_trace Steps (read_balance delays w codec args)
              (λ new_balance. record_log delays w codec args (waited hash k i height)) middle read.1
              (λ _ _. let (lt, head) = above e in (rw read.0 (available lt head), read.1)))
    where
      middle : Trace D
      middle = (wait_client delays w codec args n b t).1

      waits : At (found h i b k) middle
      waits = wait_client-At (found h i b k) n b t g

      read : At (found h i b k) (read_balance delays w codec args middle).1
      read = read_balance-At delays w codec args before n (found h i b k) middle waits

      above :
          {r : String × ℕ}
          → (wait_client delays w codec args n b t).0 ≡ ok r
          → (b.height < r.1) × IsHead w r.0 r.1
      above e =
          Returns-at (λ r u. (b.height < r.1) × IsHead w r.0 r.1)
            (wait_client delays w codec args n b t) (wait_client-above n b t) e

  pub get_proof-Steps :
      (hash i : String) (k : IdType) (m : ℕ) (t : Trace D)
      → At (waited hash k i m) t
      → Steps (get_proof delays w codec args hash k i m t).1
  unfolding get_proof
  get_proof-Steps hash i transaction m t h =
      guarded delays w codec args before n (waited hash transaction i m)
        (light_client_proof delays w codec args transaction i hash
          >>= record_proof delays w codec args m)
        t
        (bind_trace Steps (call (transaction_proof i hash) (w.transaction_proof i hash))
          (record_proof delays w codec args m) t h.1
          (λ p e. (rw h.0 (proven (transaction_proof i hash ∷ t) (settle-ok _ e)), h.1)))
  get_proof-Steps hash i receipt m t h =
      guarded delays w codec args before n (waited hash receipt i m)
        (light_client_proof delays w codec args receipt i hash
          >>= record_proof delays w codec args m)
        t
        (bind_trace Steps (call (receipt_proof i hash) (w.receipt_proof i hash))
          (record_proof delays w codec args m) t h.1
          (λ p e. (rw h.0 (proven (receipt_proof i hash ∷ t) (settle-ok _ e)), h.1)))
