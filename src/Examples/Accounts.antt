-- ===== src/Examples/Accounts.antt =====
-- utils/helpers.js against a node on which the account has to be created.
use rainbow_bridge_cli.Base.{true, some, [], ◌∷◌, ◌≡◌, refl, ◌⊎◌, if◌then◌else◌}
use rainbow_bridge_cli.Base.Io.{js_error, ok, exit, resolve, reject}
use rainbow_bridge_cli.Accounts.{
  fetch_state, create_account, deploy_contract, get_key, get_access_keys, Trace, NearAccounts,
  verify_account, verify_account_gently, maybe_create_account,
}
use rainbow_bridge_cli.Accounts.Create.{Deployed, maybe_create_account_lem}
use rainbow_bridge_cli.Accounts.Verify.{Verified, verify_account-Verified, verify_account-gently}

abbrev pub accounts : NearAccounts
accounts = record {
  state = λ _ _. resolve tt;
  create = λ _ _ _ _. resolve tt;
  deploy = λ _ _ _. resolve tt;
  key = λ _ _. resolve (some "ed25519:k");
  access_keys = λ _ _. resolve ("ed25519:j" ∷ "ed25519:k" ∷ []);
  contract = ok (0 ∷ []);
}

abbrev new_account : NearAccounts
new_account = record accounts { state = λ _ _. reject (js_error "does not exist") }

abbrev verified : Trace
verified = get_access_keys "a" ∷ get_key "a" ∷ fetch_state "a" ∷ []

verify_account-Verified_example : (true ≡ true) × Verified accounts "a" []
unfolding verify_account
verify_account-Verified_example = verify_account-Verified accounts "a" [] verified true refl

verify_account-gently_example :
    verify_account accounts "a" [] ≡ (if true then ok true else exit 1, verified)
unfolding verify_account_gently
verify_account-gently_example = verify_account-gently accounts "a" [] verified true refl

abbrev created : Trace
created = deploy_contract "a" (0 ∷ []) ∷ create_account "a" "k" 5 ∷ fetch_state "a" ∷ []

maybe_create_account_lem_example :
    ((new_account.state "a" (fetch_state "a" ∷ []) ≡ resolve tt) × (created ≡ fetch_state "a" ∷ []))
    ⊎ Deployed new_account "a" "k" 5 created
unfolding maybe_create_account
maybe_create_account_lem_example = maybe_create_account_lem new_account "a" "k" 5 [] created refl
