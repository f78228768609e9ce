-- ===== src/Status.antt =====
-- The state that cli/commands/status.js collects and prints: what a line says, and what is asked.
pub mod Near
pub mod Eth
pub mod Command
pub mod Reports
use rainbow_bridge_cli.Base.{ℕ, String, Bool, Option, none, some, List, ◌===◌, not}
use rainbow_bridge_cli.Base.Io.{JsError, js_error, Outcome, Reply}
use rainbow_bridge_cli.Base.Io.Within.{Part}
use rainbow_bridge_cli.Accounts.{AccountEvent, NearAccounts}

pub data Verdict : Type 0 where
  fine info warn failure : Verdict

-- The class `Status`. An explanation that is null is "".
pub record Status : Type 0 where
  pub value : String
  pub verdict : Verdict
  pub explanation : String

-- new Status(value, verdict, explanation), new Status(value, verdict) and new Status(value)
abbrev pub explained : String → Verdict → String → Status
explained value verdict explanation = record {
  value = value;
  verdict = verdict;
  explanation = explanation;
}

abbrev pub judged : String → Verdict → Status
judged value verdict = explained value verdict ""

abbrev pub unknown : Status
unknown = judged "unknown" failure

-- The events of the command, and what answers them.
pub data StatusEvent : Type 0 where
  -- fetch of the status of the NEAR node
  request : String → StatusEvent
  account : AccountEvent → StatusEvent
  -- the method `boo` of a contract
  boo : String → StatusEvent
  get_protocol_version get_block_number get_accounts : StatusEvent
  -- ProcessManager.describe
  describe : String → StatusEvent

abbrev pub Trace : Type 0
Trace = List StatusEvent

pub record World : Type 0 where
  pub accounts : NearAccounts
  -- the version and the height of the last block, as texts
  pub request : String → Trace → Reply (String × String)
  -- KeyPair.fromString
  pub key_pair : String → Outcome (Unit {0})
  pub boo : String → Trace → Reply (Unit {0})
  -- new Web3 of a URL: the default chain, or "" for none
  pub web3 : String → Outcome String
  pub protocol_version : Trace → Reply String
  pub block_number : Trace → Reply String
  -- the address of privateKeyToAccount, of a normalized key
  pub address : String → Outcome String
  pub normalize : String → String
  pub get_accounts : Trace → Reply (List String)
  -- the address of a contract with the ABI of a file, made for an address
  pub contract : String → String → Outcome String
  -- the arguments of each process of a name
  pub describe : String → Trace → Reply (List (List String))

abbrev account_of : StatusEvent → Option AccountEvent
account_of (account e) = some e
account_of _ = none

abbrev pub account_part : Part AccountEvent StatusEvent
account_part = record { embed = account; project = account_of }

-- Whether an option is given.
abbrev pub given : String → Bool
given s = not (s === "")

-- What destructuring of a parameter that is left out throws.
abbrev pub no_options : JsError
no_options = record (js_error "Cannot destructure property of undefined") { name = "TypeError" }
