-- ===== src/Accounts/Attempts.antt =====
-- How often `maybeCreateAccount` of utils/helpers.js tries.
use rainbow_bridge_cli.Base.{ℕ, zero, suc, ◌+◌, ◌≤◌, String, Bool, [], ◌∷◌, includes, arith}
use rainbow_bridge_cli.Base.Io.{Io, pure, process_exit, call, lift, ◌>>=◌}
use rainbow_bridge_cli.Base.Io.Rules.{try_trace, bind_trace, if_trace}
use rainbow_bridge_cli.Accounts.{
  AccountEvent, fetch_state, create_account, deploy_contract, Trace, NearAccounts, already_exists,
  account_exists, create_loop, deploy_loop, or_exit, create_and_deploy, unless_exists,
  maybe_create_account, retry_nonce,
}

-- The attempts to create an account and to deploy a contract that a trace holds.
abbrev pub count_creations : Trace → ℕ
count_creations [] = 0
count_creations (create_account id key balance ∷ t) = suc (count_creations t)
count_creations (_ ∷ t) = count_creations t

abbrev pub count_deployments : Trace → ℕ
count_deployments [] = 0
count_deployments (deploy_contract id code ∷ t) = suc (count_deployments t)
count_deployments (_ ∷ t) = count_deployments t

-- At most `c` attempts to create and `d` to deploy.
pub record AtMost (c d : ℕ) (t u : Trace) : Type 0 where
  pub creations : count_creations u ≤ count_creations t + c
  pub deployments : count_deployments u ≤ count_deployments t + d

module _ (near : NearAccounts) (id key : String) (balance : ℕ) where
  create_loop-AtMost : (n : ℕ) (t : Trace) → AtMost n 0 t (create_loop near n id key balance t).1
  unfolding create_loop
  create_loop-AtMost zero t = omega arith
  create_loop-AtMost (suc n) t =
      try_trace (AtMost (suc n) 0 t)
        (call (create_account id key balance) (near.create id key balance)) _ _ t (omega arith)
        (λ _ _. omega arith)
        (λ x _.
          if_trace (AtMost (suc n) 0 t) (already_exists x) _ _ _ (omega arith)
            (omega (arith, create_loop-AtMost n (create_account id key balance ∷ t))))

  deploy_loop-AtMost : (n : ℕ) (t : Trace) → AtMost 0 n t (deploy_loop near n id t).1
  unfolding deploy_loop
  deploy_loop-AtMost zero t = omega arith
  deploy_loop-AtMost (suc n) t =
      try_trace (AtMost 0 (suc n) t) attempt _ _ t (omega (arith, once))
        (λ _ _. omega (arith, once))
        (λ x _.
          if_trace (AtMost 0 (suc n) t) (includes x.message "Transaction nonce") _ (process_exit 1)
            _ (omega (arith, once, deploy_loop-AtMost n (attempt t).1)) (omega (arith, once)))
    where
      attempt : Io AccountEvent (Unit {0})
      attempt = lift near.contract >>= λ code. call (deploy_contract id code) (near.deploy id code)

      once : AtMost 0 1 t (attempt t).1
      once =
          bind_trace (AtMost 0 1 t) (lift near.contract) _ t (omega arith) (λ code _. omega arith)

  or_exit-AtMost :
      (c d : ℕ) (t : Trace) (m : Io AccountEvent Bool)
      → AtMost c d t (m t).1
      → AtMost c d t ((m >>= or_exit near) t).1
  or_exit-AtMost c d t m h =
      bind_trace (AtMost c d t) m (or_exit near) t h
        (λ b _. if_trace (AtMost c d t) b (pure tt) (process_exit 1) _ h h)

  create_and_deploy-AtMost :
      (t : Trace) → AtMost 10 10 t (create_and_deploy near id key balance t).1
  create_and_deploy-AtMost t =
      bind_trace (AtMost 10 10 t) (create_loop near retry_nonce id key balance >>= or_exit near) _ t
        (omega (arith, first))
        λ _ _. omega (
          arith,
          first,
          or_exit-AtMost 0 10 middle (deploy_loop near retry_nonce id)
              (deploy_loop-AtMost retry_nonce middle),
        )
    where
      middle : Trace
      middle = ((create_loop near retry_nonce id key balance >>= or_exit near) t).1

      first : AtMost 10 0 t ((create_loop near retry_nonce id key balance >>= or_exit near) t).1
      first =
          or_exit-AtMost 10 0 t (create_loop near retry_nonce id key balance)
            (create_loop-AtMost retry_nonce t)

  -- One call of `maybeCreateAccount` tries at most ten times to create the account and at most ten
  -- times to deploy the contract, however the node answers.
  pub maybe_create_account-AtMost :
      (t : Trace) → AtMost 10 10 t (maybe_create_account near id key balance t).1
  unfolding maybe_create_account account_exists
  maybe_create_account-AtMost t =
      bind_trace (AtMost 10 10 t) (account_exists near id) (unless_exists near id key balance) t
        looked
        (λ b _.
          if_trace (AtMost 10 10 t) b (pure tt) (create_and_deploy near id key balance) _ looked
            (omega (arith, same, create_and_deploy-AtMost (account_exists near id t).1)))
    where
      same : AtMost 0 0 t (account_exists near id t).1
      same =
          try_trace (AtMost 0 0 t) (call (fetch_state id) (near.state id)) _ _ t (omega arith)
            (λ _ _. omega arith) (λ _ _. omega arith)

      looked : AtMost 10 10 t (account_exists near id t).1
      looked = omega (arith, same)
