-- ===== src/Accounts.antt =====
-- utils/helpers.js: NEAR accounts are created, given a contract and checked. The node of near-api-js,
-- its key store and the file with the contract are parameters.
pub mod Attempts
pub mod Create
pub mod Verify
use rainbow_bridge_cli.Base.{
  ℕ, zero, suc, String, Bool, true, false, Option, none, some, List, [], ◌∷◌, ◌===◌, ◌||◌, includes,
  if◌then◌else◌,
}
use rainbow_bridge_cli.Base.Io.{
  JsError, js_error, Reply, Outcome, Io, pure, throw, process_exit, call, try, lift, ◌>>=◌, ◌>>◌,
}

pub data AccountEvent : Type 0 where
  -- account.fetchState()
  fetch_state : String → AccountEvent
  -- masterAccount.createAccount: the account, its public key and balance
  create_account : String → String → ℕ → AccountEvent
  -- account.deployContract
  deploy_contract : String → List ℕ → AccountEvent
  -- keyStore.getKey
  get_key : String → AccountEvent
  -- account.getAccessKeys()
  get_access_keys : String → AccountEvent

abbrev pub Trace : Type 0
Trace = List AccountEvent

pub record NearAccounts : Type 0 where
  pub state : String → Trace → Reply (Unit {0})
  pub create : String → String → ℕ → Trace → Reply (Unit {0})
  pub deploy : String → List ℕ → Trace → Reply (Unit {0})
  -- the public key of the pair in the key store, where `none` is null
  pub key : String → Trace → Reply (Option String)
  -- the public keys of the account
  pub access_keys : String → Trace → Reply (List String)
  -- fs.readFileSync of the contract's path
  pub contract : Outcome (List ℕ)

abbrev pub retry_nonce : ℕ
retry_nonce = 10

abbrev pub null_key : JsError
null_key = record (js_error "Cannot read property 'getPublicKey' of null") { name = "TypeError" }

-- keys.find: the callback reads the key of the store once for each key.
unfoldable pub has_key : Option String → List String → Bool
has_key k [] = false
has_key none (x ∷ xs) = false
has_key (some k) (x ∷ xs) = (x === k) || has_key (some k) xs

abbrev pub reads_null : Option String → List String → Bool
reads_null none (x ∷ xs) = true
reads_null k xs = false

-- e.type && e.type === 'AccountAlreadyExists'
abbrev pub already_exists : JsError → Bool
already_exists e = e.type === "AccountAlreadyExists"

module _ (near : NearAccounts) where
  -- accountExists
  unfoldable pub account_exists : String → Io AccountEvent Bool
  account_exists id = try (call (fetch_state id) (near.state id)) (λ _. pure true) (λ _. pure false)

  -- accountHasTheKey
  unfoldable pub account_has_the_key : String → Io AccountEvent Bool
  account_has_the_key id = do
    key ← call (get_key id) (near.key id)
    keys ← call (get_access_keys id) (near.access_keys id)
    if reads_null key keys then throw null_key else pure (has_key key keys)

  -- The loop that creates the account: whether it has been created.
  unfoldable pub create_loop : ℕ → String → String → ℕ → Io AccountEvent Bool
  create_loop zero id key balance = pure false
  create_loop (suc n) id key balance =
      try (call (create_account id key balance) (near.create id key balance)) (λ _. pure true)
        (λ e. if already_exists e then pure true else create_loop n id key balance)

  -- The loop that deploys the contract: whether it has been deployed.
  unfoldable pub deploy_loop : ℕ → String → Io AccountEvent Bool
  deploy_loop zero id = pure false
  deploy_loop (suc n) id =
      try (lift near.contract >>= λ code. call (deploy_contract id code) (near.deploy id code))
        (λ _. pure true)
        (λ e. if includes e.message "Transaction nonce" then deploy_loop n id else process_exit 1)

  abbrev pub or_exit : Bool → Io AccountEvent (Unit {0})
  or_exit done = if done then pure tt else process_exit 1

  abbrev pub create_and_deploy : String → String → ℕ → Io AccountEvent (Unit {0})
  create_and_deploy id key balance = (create_loop retry_nonce id key balance >>= or_exit) >>= λ _.
      (deploy_loop retry_nonce id >>= or_exit)

  abbrev pub unless_exists : String → String → ℕ → Bool → Io AccountEvent (Unit {0})
  unless_exists id key balance exists = if exists then pure tt else create_and_deploy id key balance

  -- maybeCreateAccount
  unfoldable pub maybe_create_account : String → String → ℕ → Io AccountEvent (Unit {0})
  unfolding account_exists create_loop deploy_loop
  maybe_create_account id key balance = account_exists id >>= unless_exists id key balance

  -- verifyAccount
  unfoldable pub verify_account : String → Io AccountEvent Bool
  unfolding account_exists account_has_the_key has_key
  verify_account id = do
    exists ← account_exists id
    or_exit exists
    has ← account_has_the_key id
    or_exit has
    pure true

  -- verifyAccountGently
  unfoldable pub verify_account_gently : String → Io AccountEvent Bool
  unfolding account_exists account_has_the_key has_key
  verify_account_gently id = do
    exists ← account_exists id
    if exists then account_has_the_key id else pure false
