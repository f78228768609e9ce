-- ===== src/TokenFactory/Deployed.antt =====
-- What has been done once the commands for the token factory return.
use rainbow_bridge_cli.Base.{
  ◌≡◌, refl, String, ◌<>◌, ◌===◌, Bool, true, false, List, ◌∷◌, if◌then◌else◌,
}
use rainbow_bridge_cli.Base.Io.{
  Outcome, ok, err, exit, hangs, out_of_fuel, Reply, resolve, reject, pending, Io, process_exit,
  call, lift, pure, ◌>>=◌, ◌>>◌,
}
use rainbow_bridge_cli.Base.Io.Rules.{Returns, bind-Returns, bind_after, bind_trace, catch_trace}
use rainbow_bridge_cli.Base.Io.Within.{within_trace}
use rainbow_bridge_cli.Accounts.{verify_account}
use rainbow_bridge_cli.TokenFactory.{
  FactoryEvent, new_factory, deploy_bridge_token, Trace, World, TokenArgs, TokenInfo, FactoryInfo,
  FactoryArgs, factory_info, account_part, remove_0x, or_master, token_info, first_token, verify,
  add_token, read_keys, deploy_token, initialize_factory, prepare_factory, init_near_token_factory,
}

-- What holds of the trace holds beside what holds of the result.
also :
    {E A : Type 0} (P : List E → Type 0) (Q : A → List E → Type 0) (m : Outcome A × List E)
    → P m.1
    → Returns Q m
    → Returns (λ a u. P u × Q a u) m
also P Q (ok a, u) p q = (p, q)
also P Q (err e, u) p q = tt
also P Q (exit n, u) p q = tt
also P Q (hangs, u) p q = tt
also P Q (out_of_fuel, u) p q = tt

if-same : {A : Type 0} (b : Bool) (x : A) → (if b then x else x) ≡ x
if-same true x = refl
if-same false x = refl

module _ (w : World) where
  -- The last event is the call that adds the token of this address, and it has succeeded.
  pub data Added (address : String) : Trace → Type 0 where
    added :
        {t : Trace}
        → w.deploy_bridge_token address (deploy_bridge_token address ∷ t) ≡ resolve tt
        → Added address (deploy_bridge_token address ∷ t)

  -- The factory has been initialized with this prover and this locker.
  pub data Initialized (prover locker : String) : Trace → Type 0 where
    now :
        {t : Trace}
        → w.new_factory prover locker (new_factory prover locker ∷ t) ≡ resolve tt
        → Initialized prover locker (new_factory prover locker ∷ t)
    before :
        {t : Trace} {e : FactoryEvent}
        → Initialized prover locker t
        → Initialized prover locker (e ∷ t)

  add_token-Added :
      (address : String) (t : Trace) → Returns (λ _ u. Added address u) (add_token w address t)
  add_token-Added address t = returned (w.deploy_bridge_token address events) refl
    where
      events : Trace
      events = deploy_bridge_token address ∷ t

      returned :
          (r : Reply (Unit {0}))
          → w.deploy_bridge_token address events ≡ r
          → Returns (λ _ u. Added address u) (add_token w address t)
      returned (resolve a) e = simp e (added e)
      returned (reject x) e = simp e tt
      returned pending e = simp e tt

  initialize_factory-Initialized :
      (a : FactoryArgs) (t : Trace)
      → Returns
          (λ _ u. Initialized a.near_prover_account (remove_0x a.eth_locker_address) u)
          (initialize_factory w a t)
  initialize_factory-Initialized a t = returned (w.new_factory prover locker events) refl
    where
      prover : String
      prover = a.near_prover_account

      locker : String
      locker = remove_0x a.eth_locker_address

      events : Trace
      events = new_factory prover locker ∷ t

      returned :
          (r : Reply (Unit {0}))
          → w.new_factory prover locker events ≡ r
          → Returns (λ _ u. Initialized prover locker u) (initialize_factory w a t)
      returned (resolve x) e = simp e (now e)
      returned (reject x) e = simp e tt
      returned pending e = simp e tt

  -- A token is deployed, and the result says where.
  abbrev Deployed : TokenArgs → TokenInfo → Trace → Type 0
  Deployed a info u = Added (remove_0x a.eth_token_address) u × (info ≡ token_info a)

  abbrev pub verified_and_added : TokenArgs → Io FactoryEvent (Unit {0})
  verified_and_added a =
      ((read_keys w a.near_master_sk (or_master a.near_token_factory_sk a.near_master_sk)
          >> verify w a.near_master_account)
        >> verify w a.near_token_factory_account)
      >> add_token w (remove_0x a.eth_token_address)

  deploy_token-Deployed : (a : TokenArgs) (t : Trace) → Returns (Deployed a) (deploy_token w a t)
  unfolding deploy_token
  deploy_token-Deployed a t =
      bind_after (λ _ u. Added (remove_0x a.eth_token_address) u) (Deployed a)
        (verified_and_added a) (λ _. pure (token_info a)) t
        (bind-Returns (λ _ u. Added (remove_0x a.eth_token_address) u)
          ((read_keys w a.near_master_sk (or_master a.near_token_factory_sk a.near_master_sk)
              >> verify w a.near_master_account)
            >> verify w a.near_token_factory_account)
          (λ _. add_token w (remove_0x a.eth_token_address)) t
          (λ _ _. add_token-Added (remove_0x a.eth_token_address) _))
        (λ _ u h. (h, refl))

  module _ (prover locker : String) where
    abbrev Kept : Trace → Type 0
    Kept = Initialized prover locker

    verify-Kept : (id : String) (t : Trace) → Kept t → Kept (verify w id t).1
    verify-Kept id t h =
        within_trace account_part Kept (verify_account w.accounts id) t (λ f u g. before g) h

    deploy_token-Kept : (a : TokenArgs) (t : Trace) → Kept t → Kept (deploy_token w a t).1
    unfolding deploy_token
    deploy_token-Kept a t h =
        bind_trace Kept (verified_and_added a) (λ _. pure (token_info a)) t all (λ _ _. all)
      where
        keys : Io FactoryEvent String
        keys = read_keys w a.near_master_sk (or_master a.near_token_factory_sk a.near_master_sk)

        read : Kept (keys t).1
        read =
            bind_trace Kept (lift (w.key_pair a.near_master_sk))
              (λ _. lift (w.key_pair (or_master a.near_token_factory_sk a.near_master_sk))) t h
              (λ _ _. h)

        first : Kept ((keys >> verify w a.near_master_account) t).1
        first =
            bind_trace Kept keys (λ _. verify w a.near_master_account) t read
              (λ _ _. verify-Kept a.near_master_account _ read)

        second :
            Kept
              (((keys >> verify w a.near_master_account) >> verify w a.near_token_factory_account)
                t).1
        second =
            bind_trace Kept (keys >> verify w a.near_master_account)
              (λ _. verify w a.near_token_factory_account) t first
              (λ _ _. verify-Kept a.near_token_factory_account _ first)

        all : Kept (verified_and_added a t).1
        all =
            bind_trace Kept
              ((keys >> verify w a.near_master_account) >> verify w a.near_token_factory_account)
              (λ _. add_token w (remove_0x a.eth_token_address)) t second
              (λ _ _.
                catch_trace Kept
                  (call (deploy_bridge_token (remove_0x a.eth_token_address))
                    (w.deploy_bridge_token (remove_0x a.eth_token_address)))
                  (λ e. process_exit 1) _ (before second) (λ _ _. before second))

  -- The result of the factory's command: where its first token stands, and the key of the factory.
  pub record Names (a : FactoryArgs) (info : FactoryInfo) : Type 0 where
    pub account :
        info.near_erc20_account
        ≡ remove_0x a.eth_erc20_address <> ("." <> a.near_token_factory_account)
    pub address : info.eth_erc20_address ≡ a.eth_erc20_address
    pub own_key :
        (a.near_token_factory_sk === "") ≡ false
        → info.near_token_factory_sk ≡ a.near_token_factory_sk
    pub master_key :
        (a.near_token_factory_sk === "") ≡ true → info.near_token_factory_sk ≡ a.near_master_sk

  named : (a : FactoryArgs) → Names a (factory_info (token_info (first_token a)))
  named a = record {
    account = refl;
    address = refl;
    own_key = λ e. simp e;
    master_key = λ e. simp e (if-same (a.near_master_sk === "") a.near_master_sk);
  }

  -- If the command for the token factory returns, then the factory has been initialized with the
  -- prover and the locker, its last event is the successful call that adds the token, and its result
  -- holds the token's account, which is the address without 0x under the factory's account, the
  -- token's address as it was given, and the key of the factory, or the master's if there is none.
  pub init_near_token_factory-Deployed :
      (a : FactoryArgs) (t : Trace)
      → Returns
          (λ info u.
            Initialized a.near_prover_account (remove_0x a.eth_locker_address) u
            × (Added (remove_0x a.eth_erc20_address) u × Names a info))
          (init_near_token_factory w a t)
  unfolding init_near_token_factory
  init_near_token_factory-Deployed a t =
      bind_after (λ info u. Initialized prover locker u × Deployed (first_token a) info u)
        (λ info u.
          Initialized prover locker u × (Added (remove_0x a.eth_erc20_address) u × Names a info))
        ((prepared >> initialize_factory w a) >> deploy_token w (first_token a))
        (λ info. pure (factory_info info)) t
        (bind_after (λ _ u. Initialized prover locker u)
          (λ info u. Initialized prover locker u × Deployed (first_token a) info u)
          (prepared >> initialize_factory w a) (λ _. deploy_token w (first_token a)) t
          (bind-Returns (λ _ u. Initialized prover locker u) prepared (λ _. initialize_factory w a)
            t (λ _ _. initialize_factory-Initialized a _))
          (λ _ u h.
            also (Initialized prover locker) (Deployed (first_token a))
              (deploy_token w (first_token a) u)
              (deploy_token-Kept prover locker (first_token a) u h)
              (deploy_token-Deployed (first_token a) u)))
        (λ info u (h, (last, same)). (h, (last, rw same (named a))))
    where
      prover : String
      prover = a.near_prover_account

      locker : String
      locker = remove_0x a.eth_locker_address

      prepared : Io FactoryEvent (Unit {0})
      prepared =
          lift (w.key_pair (or_master a.near_token_factory_sk a.near_master_sk))
          >>= prepare_factory w a
