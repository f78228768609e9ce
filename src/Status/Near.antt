-- ===== src/Status/Near.antt =====
-- `NearContracts` and `NearStatus` of cli/commands/status.js.
use rainbow_bridge_cli.Base.{String, ◌<>◌, Bool, ◌&&◌, Option, none, some, includes, if◌then◌else◌}
use rainbow_bridge_cli.Base.Io.{JsError, Io, pure, throw, call, try, lift, ◌>>=◌, ◌>>◌}
use rainbow_bridge_cli.Base.Io.Within.{within}
use rainbow_bridge_cli.Accounts.{verify_account_gently}
use rainbow_bridge_cli.Status.{
  Verdict, fine, info, failure, Status, explained, judged, unknown, StatusEvent, request, boo,
  World, account_part, given, no_options,
}

-- The options of the contracts.
pub record ContractOptions : Type 0 where
  pub near_master_account : String
  pub near_client_account : String
  pub near_prover_account : String
  pub near_token_factory_account : String

-- A status that has not been set is `none`.
pub record NearContracts : Type 0 where
  pub client : Option Status
  pub prover : Option Status
  pub fun_token : Option Status

pub record NearOptions : Type 0 where
  pub near_network_id : String
  pub near_node_url : String
  pub near_master_account : String
  pub near_master_sk : String
  pub near_client_account : String
  pub near_client_sk : String
  pub near_prover_account : String
  pub near_prover_sk : String

pub record NearStatus : Type 0 where
  pub network_location : Status
  pub network_connection : Status
  pub network_last_block : Status
  pub master_account : Status
  pub master_key : Status
  pub client_account : Status
  pub client_key : Status
  pub prover_account : Status
  pub prover_key : Status
  pub near_client_account : Option Status
  pub near_prover_account : Option Status
  pub contracts : Option NearContracts

abbrev pub or_unknown : String → Status → Status → Status
or_unknown value status other = if given value then status else other

abbrev pub using_master : Status
using_master = explained "unknown" info "using data from master account"

-- The basic data, before the node is asked.
unfoldable pub basic : NearOptions → NearStatus
basic o = record {
  network_location = or_unknown o.near_network_id (judged o.near_network_id info) unknown;
  network_connection = unknown;
  network_last_block = unknown;
  master_account =
      or_unknown o.near_master_account (explained o.near_master_account info "not verified")
        unknown;
  master_key = or_unknown o.near_master_sk (judged o.near_master_sk info) unknown;
  client_account =
      or_unknown o.near_client_account (explained o.near_client_account info "not verified")
        using_master;
  client_key = or_unknown o.near_client_sk (judged o.near_client_sk info) using_master;
  prover_account =
      or_unknown o.near_prover_account (explained o.near_prover_account info "not verified")
        using_master;
  prover_key = or_unknown o.near_prover_sk (judged o.near_prover_sk info) using_master;
  near_client_account = none;
  near_prover_account = none;
  contracts = none;
}

-- A key's line with the verdict of its account's.
abbrev pub with_verdict : Status → Status → Status
with_verdict key account = record key { verdict = account.verdict }

-- What is known of a node that has been asked.
abbrev pub connected : NearOptions → NearStatus → Verdict → String → String → NearStatus
connected o s verdict explanation last_block = record s {
  network_connection = explained o.near_node_url verdict explanation;
  network_last_block = judged last_block verdict;
}

abbrev pub master_checked : NearOptions → NearStatus → Bool → NearStatus
master_checked o s valid =
    let status =
      if valid
      then explained o.near_master_account fine "valid"
      else explained o.near_master_account failure "invalid" in
    record s { master_account = status; master_key = with_verdict s.master_key status }

-- The two accounts are kept under names that nothing prints, and the keys get other verdicts.
abbrev pub client_checked : NearOptions → NearStatus → Bool → NearStatus
client_checked o s valid = record s {
  near_client_account = some (
      if valid
      then explained o.near_client_account fine "valid"
      else explained o.near_client_account failure "invalid");
  client_key = with_verdict s.client_key s.client_account;
}

abbrev pub prover_checked : NearOptions → NearStatus → Bool → NearStatus
prover_checked o s valid = record s {
  near_prover_account = some (
      if valid
      then explained o.near_prover_account fine "valid"
      else explained o.near_prover_account failure "invalid");
  prover_key = with_verdict s.prover_key s.prover_account;
}

module _ (w : World) where
  abbrev pub boo_failed : String → JsError → Io StatusEvent (Option Status)
  boo_failed contract e =
      if includes e.message "Contract method is not found"
      then pure (some (explained contract fine "deployed"))
      else pure (some (explained "unknown" info "not verified"))

  -- checkContract: `none` is `undefined`.
  unfoldable pub check_contract : String → Io StatusEvent (Option Status)
  check_contract contract =
      if given contract
      then try (call (boo contract) (w.boo contract)) (λ _. pure none) (boo_failed contract)
      else pure (some (explained "unknown" failure "contract not found"))

  abbrev pub check_contracts : ContractOptions → Io StatusEvent NearContracts
  check_contracts o = check_contract o.near_client_account >>= λ client.
      check_contract o.near_prover_account >>= λ prover.
      check_contract o.near_token_factory_account >>= λ fun_token.
      pure (record { client = client; prover = prover; fun_token = fun_token })

  -- NearContracts.init, with the second parameter, or `none` if it is left out.
  unfoldable pub near_contracts_init : Option ContractOptions → Io StatusEvent NearContracts
  near_contracts_init none = throw no_options
  near_contracts_init (some o) =
      if given o.near_master_account
      then check_contracts o
      else pure (record { client = none; prover = none; fun_token = none })

  -- request
  unfoldable pub ask_node : String → Io StatusEvent (Verdict × (String × String))
  ask_node url =
      try (call (request url) (w.request url)) (λ answer. pure (fine, answer))
        (λ e. pure (failure, ("unreachable", "unknown")))

  abbrev pub read_key : Bool → String → Io StatusEvent (Unit {0})
  read_key wanted sk = if wanted then lift (w.key_pair sk) else pure tt

  abbrev pub verify : String → Io StatusEvent Bool
  verify id = within account_part (verify_account_gently w.accounts id)

  abbrev pub has_client : NearOptions → Bool
  has_client o = given o.near_client_account && given o.near_client_sk

  abbrev pub has_prover : NearOptions → Bool
  has_prover o = given o.near_prover_account && given o.near_prover_sk

  abbrev pub check_client : NearOptions → NearStatus → Io StatusEvent NearStatus
  check_client o s =
      if has_client o
      then (verify o.near_client_account >>= λ valid. pure (client_checked o s valid))
      else pure s

  abbrev pub check_prover : NearOptions → NearStatus → Io StatusEvent NearStatus
  check_prover o s =
      if has_prover o
      then (verify o.near_prover_account >>= λ valid. pure (prover_checked o s valid))
      else pure s

  abbrev pub check_master : NearOptions → NearStatus → Io StatusEvent NearStatus
  check_master o s = verify o.near_master_account >>= λ valid. pure (master_checked o s valid)

  abbrev pub read_keys : NearOptions → Io StatusEvent (Unit {0})
  read_keys o =
      (lift (w.key_pair o.near_master_sk) >> read_key (has_client o) o.near_client_sk)
      >> read_key (has_prover o) o.near_prover_sk

  abbrev pub add_contracts : NearStatus → Io StatusEvent NearStatus
  add_contracts s = near_contracts_init none >>= λ c. pure (record s { contracts = some c })

  -- What is done with a node that answers, if there is a master account.
  unfoldable pub check_accounts : NearOptions → NearStatus → Io StatusEvent NearStatus
  check_accounts o s =
      (((read_keys o >> check_master o s) >>= check_client o) >>= check_prover o) >>= add_contracts

  abbrev pub after_request : NearOptions → Verdict × (String × String) → Io StatusEvent NearStatus
  after_request o (fine, (explanation, last_block)) =
      if given o.near_master_account && given o.near_master_sk
      then check_accounts o (connected o (basic o) fine explanation last_block)
      else pure (connected o (basic o) fine explanation last_block)
  after_request o (verdict, (explanation, last_block)) =
      pure (connected o (basic o) verdict explanation last_block)

  -- NearStatus.init
  unfoldable pub near_init : NearOptions → Io StatusEvent NearStatus
  near_init o =
      if given o.near_node_url
      then (ask_node (o.near_node_url <> "/status") >>= after_request o)
      else pure (basic o)
