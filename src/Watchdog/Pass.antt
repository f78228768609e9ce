-- ===== src/Watchdog/Pass.antt =====
-- A turn of near2eth/watchdog/index.js: which signature it challenges, and that it goes on.
use rainbow_bridge_cli.Base.{
  ℕ, zero, suc, ◌+◌, ◌*◌, ◌≤◌, ◌≡◌, refl, ◌∷◌, ◌++◌, [], ◌==◌, arith, Bool, true, false,
  append_assoc,
}
use rainbow_bridge_cli.Base.Doubling.{enough_doublings}
use rainbow_bridge_cli.Base.Io.{ok, Reply, resolve, reject, pending, call, emit, throw, pure, ◌>>=◌}
use rainbow_bridge_cli.Base.Io.Rules.{settle-ok}
use rainbow_bridge_cli.Base.Io.Survival.{
  IsAlive, IsCalm, settle-IsAlive, try-IsAlive, bind-IsAlive, bind-IsCalm, if-IsAlive, catch-IsCalm,
  IsCalm-IsAlive,
}
use rainbow_bridge_cli.Watchdog.{
  check_signature, bridge_state, gas_price, transaction_count, Trace, EthNode, BridgeState,
  unexplained, send_challenges, challenge, challenge_at, check_and_sleep, after_check, after_revert,
  check_signatures, check_block, pass, run, slept, enough_rounds,
}
use rainbow_bridge_cli.Watchdog.Challenge.{send_challenges-IsAlive}

-- The calls that check `n` signatures from the `i`-th on, the latest first.
abbrev pub checks : ℕ → ℕ → Trace
checks i zero = []
checks i (suc n) = checks (i + 1) n ++ (check_signature i ∷ [])

-- The answer lets the loop go on: the signature is right, or the call was reverted with a reason.
abbrev pub Passes : Reply Bool → Type 0
Passes (resolve b) = b ≡ true
Passes (reject e) = unexplained e ≡ false
Passes pending = ⊥

module _ (node : EthNode) where
  -- `n` signatures in a row from the `i`-th on pass, after the trace `t`.
  unfoldable pub AllPass : ℕ → ℕ → Trace → Type 0
  AllPass zero i t = Unit
  AllPass (suc n) i t =
      Passes (node.check_signature i (check_signature i ∷ t))
      × AllPass n (i + 1) (check_signature i ∷ t)

  check_signatures-step :
      (n i : ℕ) (t : Trace)
      → Passes (node.check_signature i (check_signature i ∷ t))
      → check_signatures node (suc n) i t ≡ check_signatures node n (i + 1) (check_signature i ∷ t)
  unfolding check_signatures
  check_signatures-step n i t h = go (node.check_signature i (check_signature i ∷ t)) refl h
    where
      go :
          (r : Reply Bool)
          → node.check_signature i (check_signature i ∷ t) ≡ r
          → Passes r
          → check_signatures node (suc n) i t
            ≡ check_signatures node n (i + 1) (check_signature i ∷ t)
      go (resolve b) e p = rw e (rw p)
      go (reject x) e p = rw e (rw p)
      go pending e p = absurd p

  check_signatures-wrong :
      (n i : ℕ) (t : Trace)
      → node.check_signature i (check_signature i ∷ t) ≡ resolve false
      → check_signatures node (suc n) i t ≡ challenge node i (check_signature i ∷ t)
  unfolding check_signatures
  check_signatures-wrong n i t h = rw h

  -- Where `k` signatures from the `i`-th on pass and the next one is wrong, each of these is checked
  -- once and in order, and then that one is challenged; the rest are not looked at.
  pub check_signatures-first :
      (k n i : ℕ) (t : Trace)
      → AllPass k i t
      → node.check_signature (i + k) (check_signature (i + k) ∷ checks i k ++ t) ≡ resolve false
      → check_signatures node (k + suc n) i t
        ≡ challenge node (i + k) (check_signature (i + k) ∷ checks i k ++ t)
  unfolding AllPass
  check_signatures-first zero n i t a h =
      let e : i + 0 ≡ i = omega arith in
      let z : 0 + suc n ≡ suc n = omega arith in
      rw e (rw z (check_signatures-wrong n i t (rw e at h)))
  check_signatures-first (suc k) n i t (p, a) h =
      let e : i + suc k ≡ i + 1 + k = omega arith in
      let z : suc k + suc n ≡ suc (k + suc n) = omega arith in
      rw z (
        rw (check_signatures-step (k + suc n) i t p) (
          rw e (
            rw append_assoc (
              check_signatures-first k n (i + 1) (check_signature i ∷ t) a
                (rw append_assoc at (rw e at h))))))

  -- If every signature passes, each is checked once and in order, and nothing is sent.
  pub check_signatures-none :
      (k i : ℕ) (t : Trace) → AllPass k i t → check_signatures node k i t ≡ (ok tt, checks i k ++ t)
  unfolding AllPass
  check_signatures-none zero i t a = unfold check_signatures in refl
  check_signatures-none (suc k) i t (p, a) =
      rw (check_signatures-step k i t p)
        (rw (check_signatures-none k (i + 1) _ a) (rw append_assoc))

  -- The node never quotes a gas price of zero.
  abbrev pub ChargesGas : Type 0
  ChargesGas = (t : Trace) (p : ℕ) → node.gas_price t ≡ resolve p → 1 ≤ p

  module _ (charges : ChargesGas) where
    challenge-IsCalm : (i : ℕ) (t : Trace) → IsCalm (challenge node i t).0
    unfolding challenge
    challenge-IsCalm i t =
        catch-IsCalm (call gas_price node.gas_price >>= challenge_at node i) (λ err. pure tt) t
          (bind-IsAlive (call gas_price node.gas_price) (challenge_at node i) t
            (settle-IsAlive {A = ℕ} _)
            λ p e.
              bind-IsAlive (call transaction_count node.transaction_count)
                (λ nonce. send_challenges node enough_rounds p nonce i) _ (settle-IsAlive {A = ℕ} _)
                λ nonce _.
                  send_challenges-IsAlive node 44 p nonce i _
                    (enough_doublings p (charges _ p (settle-ok _ e))))
          (λ _ _. tt)

    check_signatures-IsAlive : (n i : ℕ) (t : Trace) → IsAlive (check_signatures node n i t).0
    unfolding check_signatures
    check_signatures-IsAlive zero i t = tt
    check_signatures-IsAlive (suc n) i t =
        try-IsAlive (call (check_signature i) (node.check_signature i))
          (after_check (check_signatures node n (i + 1)) (challenge node i))
          (after_revert (check_signatures node n (i + 1))) t (settle-IsAlive {A = Bool} _)
          (λ b _.
            if-IsAlive b (check_signatures node n (i + 1)) (challenge node i) _
              (λ _. check_signatures-IsAlive n (i + 1) _)
              (λ _. IsCalm-IsAlive _ (challenge-IsCalm i _)))
          (λ x _.
            if-IsAlive (unexplained x) (throw x) (check_signatures node n (i + 1)) _ (λ _. tt)
              (λ _. check_signatures-IsAlive n (i + 1) _))

    pass-IsCalm : (delay error_delay : ℕ) (t : Trace) → IsCalm (pass node delay error_delay t).0
    unfolding pass check_block
    pass-IsCalm delay error_delay t =
        catch-IsCalm (call bridge_state node.bridge_state >>= check_and_sleep node delay)
          (λ e. emit (slept (error_delay * 1000))) t
          (bind-IsAlive (call bridge_state node.bridge_state) (check_and_sleep node delay) t
            (settle-IsAlive {A = BridgeState} _)
            λ s _.
              bind-IsAlive (check_block node s) (λ _. emit (slept (delay * 1000))) _
                (if-IsAlive (s.next_valid_at == 0) (pure tt)
                  (check_signatures node s.num_block_producers 0) _ (λ _. tt)
                  (λ _. check_signatures-IsAlive s.num_block_producers 0 _))
                (λ _ _. tt))
          (λ _ _. tt)

    -- If the node never quotes a gas price of zero, then in any number of turns the watchdog does
    -- not throw, leave the program or run out of the rounds of the challenge, whatever else the
    -- node answers.
    pub run-IsCalm :
        (n delay error_delay : ℕ) (t : Trace) → IsCalm (run node n delay error_delay t).0
    unfolding run
    run-IsCalm zero delay error_delay t = tt
    run-IsCalm (suc n) delay error_delay t =
        bind-IsCalm (pass node delay error_delay) (λ _. run node n delay error_delay) t
          (pass-IsCalm delay error_delay t) (λ _ _. run-IsCalm n delay error_delay _)
