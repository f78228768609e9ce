-- ===== src/Accounts/Create.antt =====
-- What `maybeCreateAccount` of utils/helpers.js has done when it returns.
use rainbow_bridge_cli.Base.{
  ℕ, zero, suc, String, Bool, true, false, List, ◌∷◌, ◌≡◌, refl, ◌⊎◌, inl, inr, includes,
}
use rainbow_bridge_cli.Base.Io.{
  JsError, ok, err, Io, Reply, resolve, reject, pending, settle, process_exit, call, lift, ◌>>=◌,
}
use rainbow_bridge_cli.Base.Io.Rules.{
  Returns, Returns-ok, Returns-at, Returns-map, try-Returns, bind-Returns, bind_after, if_Returns,
  settle-ok, bind_trace,
}
use rainbow_bridge_cli.Accounts.{
  AccountEvent, fetch_state, create_account, deploy_contract, Trace, NearAccounts, already_exists,
  account_exists, create_loop, deploy_loop, or_exit, create_and_deploy, maybe_create_account,
  retry_nonce,
}

settle-err : {A : Type 0} {e : JsError} (r : Reply A) → settle r ≡ err e → r ≡ reject e
settle-err (resolve a) h = cc
settle-err (reject x) h = cc
settle-err pending h = cc

module _ (near : NearAccounts) (id key : String) (balance : ℕ) where
  -- The trace holds an attempt to create the account that the node answered with success, or with
  -- the error that the account exists.
  pub data Created : Trace → Type 0 where
    created :
        {t : Trace}
        → near.create id key balance (create_account id key balance ∷ t) ≡ resolve tt
        → Created (create_account id key balance ∷ t)
    existed :
        {t : Trace} (e : JsError)
        → near.create id key balance (create_account id key balance ∷ t) ≡ reject e
        → already_exists e ≡ true
        → Created (create_account id key balance ∷ t)
    later : {t : Trace} (e : AccountEvent) → Created t → Created (e ∷ t)

  -- The last event of the trace deployed the contract.
  pub data Deployed : Trace → Type 0 where
    deployed :
        {t : Trace} (code : List ℕ)
        → near.contract ≡ ok code
        → near.deploy id code (deploy_contract id code ∷ t) ≡ resolve tt
        → Created t
        → Deployed (deploy_contract id code ∷ t)

  create_loop-Created :
      (n : ℕ) (t : Trace)
      → Returns (λ b u. b ≡ true → Created u) (create_loop near n id key balance t)
  unfolding create_loop
  create_loop-Created zero t = λ h. cc
  create_loop-Created (suc n) t =
      try-Returns Q (call (create_account id key balance) (near.create id key balance)) _ _ t
        (λ a e h. created (settle-ok _ e))
        (λ x e.
          if_Returns Q (already_exists x) _ _ _ (λ y h. existed x (settle-err _ e) y)
            (λ _. create_loop-Created n _))
    where
      Q : Bool → Trace → Type 0
      Q b u = b ≡ true → Created u

  deploy_loop-Deployed :
      (n : ℕ) (t : Trace)
      → Created t
      → Returns (λ b u. b ≡ true → Deployed u) (deploy_loop near n id t)
  unfolding deploy_loop
  deploy_loop-Deployed zero t c = λ h. cc
  deploy_loop-Deployed (suc n) t c =
      try-Returns Q attempt _ _ t (λ a e h. Returns-at (λ a u. Deployed u) (attempt t) succeeded e)
        (λ x e.
          if_Returns Q (includes x.message "Transaction nonce") _ (process_exit 1) _
            (λ _. deploy_loop-Deployed n _ kept) (λ _. tt))
    where
      Q : Bool → Trace → Type 0
      Q b u = b ≡ true → Deployed u

      attempt : Io AccountEvent (Unit {0})
      attempt = lift near.contract >>= λ code. call (deploy_contract id code) (near.deploy id code)

      kept : Created (attempt t).1
      kept = bind_trace Created (lift near.contract) _ t c (λ code _. later _ c)

      succeeded : Returns (λ a u. Deployed u) (attempt t)
      succeeded =
          bind-Returns (λ a u. Deployed u) (lift near.contract) _ t
            λ code e. settled code e (near.deploy id code (deploy_contract id code ∷ t)) refl
        where
          settled :
              (code : List ℕ)
              → near.contract ≡ ok code
              → (r : Reply (Unit {0})) → near.deploy id code (deploy_contract id code ∷ t) ≡ r
              → Returns (λ a u. Deployed u) (settle r, deploy_contract id code ∷ t)
          settled code e (resolve a) f = deployed code e f c
          settled code e (reject x) f = tt
          settled code e pending f = tt

  created_first :
      (t : Trace)
      → Returns
          (λ a u. Created u)
          ((create_loop near retry_nonce id key balance >>= or_exit near) t)
  created_first t =
      bind_after (λ b u. b ≡ true → Created u) (λ a u. Created u)
        (create_loop near retry_nonce id key balance) (or_exit near) t
        (create_loop-Created retry_nonce t) λ b u h. done b u h
    where
      done :
          (b : Bool) (u : Trace)
          → (b ≡ true → Created u)
          → Returns (λ a u. Created u) (or_exit near b u)
      done true u h = h refl
      done false u h = tt

  Deployed-then :
      (t : Trace)
      → Created t
      → Returns (λ a u. Deployed u) ((deploy_loop near retry_nonce id >>= or_exit near) t)
  Deployed-then t c =
      bind_after (λ b u. b ≡ true → Deployed u) (λ a u. Deployed u)
        (deploy_loop near retry_nonce id) (or_exit near) t (deploy_loop-Deployed retry_nonce t c)
        λ b u h. done b u h
    where
      done :
          (b : Bool) (u : Trace)
          → (b ≡ true → Deployed u)
          → Returns (λ a u. Deployed u) (or_exit near b u)
      done true u h = h refl
      done false u h = tt

  -- When `maybeCreateAccount` returns, then the account's state could be read at the start and nothing
  -- else was done, or the account was created, by an attempt of this call that the node answered with
  -- success or with the error that the account exists, and after that the contract was deployed.
  pub maybe_create_account_lem :
      (t u : Trace)
      → maybe_create_account near id key balance t ≡ (ok tt, u)
      → ((near.state id (fetch_state id ∷ t) ≡ resolve tt) × (u ≡ fetch_state id ∷ t)) ⊎ Deployed u
  unfolding maybe_create_account account_exists
  maybe_create_account_lem t u e = Returns-ok Q returned e
    where
      Q : Unit {0} → Trace → Type 0
      Q a u =
          ((near.state id (fetch_state id ∷ t) ≡ resolve tt) × (u ≡ fetch_state id ∷ t))
          ⊎ Deployed u

      absent : Returns Q (create_and_deploy near id key balance (fetch_state id ∷ t))
      absent =
          bind_after (λ a u. Created u) Q
            (create_loop near retry_nonce id key balance >>= or_exit near) _ (fetch_state id ∷ t)
            (created_first (fetch_state id ∷ t))
            λ a v c.
              Returns-map ((deploy_loop near retry_nonce id >>= or_exit near) v) (Deployed-then v c)
                (λ a w d. inr d)

      looked :
          (r : Reply (Unit {0}))
          → near.state id (fetch_state id ∷ t) ≡ r
          → Returns Q (maybe_create_account near id key balance t)
      looked (resolve a) p = simp p (inl (refl, refl))
      looked (reject x) p = simp p absent
      looked pending p = simp p tt

      returned : Returns Q (maybe_create_account near id key balance t)
      returned = looked (near.state id (fetch_state id ∷ t)) refl
