-- ===== src/Status/Command.antt =====
-- `StatusCommand` of cli/commands/status.js: what it prints.
use rainbow_bridge_cli.Base.{
  ℕ, zero, suc, ◌-◌, String, ◌<>◌, ◌===◌, Option, none, some, List, [], ◌∷◌, ◌++◌, if◌then◌else◌,
}
use Prim.Native.String.{count}
use rainbow_bridge_cli.Base.Io.{Io, pure, ◌>>=◌}
use rainbow_bridge_cli.Status.{
  Verdict, fine, info, warn, failure, Status, explained, StatusEvent, World,
}
use rainbow_bridge_cli.Status.Near.{NearContracts, NearOptions, NearStatus, near_init}
use rainbow_bridge_cli.Status.Eth.{
  EthContracts, EthOptions, EthStatus, ServicesStatus, eth_init, services_init,
}

-- What is printed: a header, the line of a field, which may have no status, and an empty line.
pub data Line : Type 0 where
  header : String → Line
  line : String → Option Status → Line
  footer : Line

-- The escape code of a verdict. `\x1B` stands for the escape character.
abbrev pub color : Verdict → String
color fine = "\\x1B[32m"
color info = "\\x1B[39m"
color warn = "\\x1B[33m"
color failure = "\\x1B[35m"

unfoldable pub spaces : ℕ → String
spaces zero = ""
spaces (suc n) = " " <> spaces n

abbrev pub or_missing : Option Status → Status
or_missing none = explained "unknown" failure "record not found"
or_missing (some s) = s

abbrev pub print_status : String → Status → List String
print_status field s =
    (field <> (":" <> spaces (49 - count field)))
    ∷ (color s.verdict <> s.value)
    ∷ ((if s.explanation === "" then "" else ("(" <> (s.explanation <> ")"))) <> "\\x1B[39m")
    ∷ []

-- printLine: what is handed to console.log. A line without a status is one of an unknown record.
unfoldable pub print_line : String → Option Status → List String
print_line field status = print_status field (or_missing status)

abbrev pub near_contract_lines : Option NearContracts → List Line
near_contract_lines none = line "Contracts" none ∷ []
near_contract_lines (some c) =
    line "fungible token" c.fun_token ∷ line "client" c.client ∷ line "prover" c.prover ∷ []

abbrev pub near_lines : NearStatus → List Line
near_lines s =
    header "NEAR node status"
      ∷ line "Location" (some s.network_location)
      ∷ line "Connection" (some s.network_connection)
      ∷ line "Latest block height" (some s.network_last_block)
      ∷ line "Bridge master account" (some s.master_account)
      ∷ line "Master account secret key" (some s.master_key)
      ∷ line "Account used for Client contract deployment" (some s.client_account)
      ∷ line "Client account secret key" (some s.client_key)
      ∷ line "Account used for Prover contract deployment" (some s.prover_account)
      ∷ line "Prover account secret key" (some s.prover_key)
      ∷ footer
      ∷ header "NEAR contracts status"
      ∷ near_contract_lines s.contracts
    ++ footer ∷ []

abbrev pub eth_contract_lines : Option EthContracts → List Line
eth_contract_lines none = line "Contracts" none ∷ []
eth_contract_lines (some c) =
    line "ed25519" (some c.ed25519)
    ∷ line "erc20" (some c.erc20)
    ∷ line "locker" (some c.locker)
    ∷ line "client" (some c.client)
    ∷ line "prover" (some c.prover)
    ∷ []

abbrev pub eth_lines : EthStatus → List Line
eth_lines s =
    header "ETH node status"
      ∷ line "Location" (some s.network_location)
      ∷ line "Connection" (some s.network_connection)
      ∷ line "Latest block height" (some s.network_last_block)
      ∷ line "Bridge master account" (some s.master_account)
      ∷ line "Master account secret key" (some s.master_key)
      ∷ footer
      ∷ header "ETH contracts status"
      ∷ eth_contract_lines s.contracts
    ++ footer ∷ []

abbrev pub service_lines : ServicesStatus → List Line
service_lines s =
    header "Services"
    ∷ line "ETH-2-NEAR relay" (some s.eth2near_relay)
    ∷ line "NEAR-2-ETH relay" (some s.near2eth_relay)
    ∷ line "Bridge Watchdog" (some s.watchdog)
    ∷ []

module _ (w : World) where
  abbrev pub collect : NearStatus → EthStatus → Io StatusEvent (List Line)
  collect near eth = services_init w >>= λ services.
      pure (near_lines near ++ eth_lines eth ++ service_lines services)

  abbrev pub then_eth : EthOptions → NearStatus → Io StatusEvent (List Line)
  then_eth o near = eth_init w o >>= collect near

  -- StatusCommand.execute: the lines that it prints.
  unfoldable pub status : NearOptions → EthOptions → Io StatusEvent (List Line)
  status near_options eth_options = near_init w near_options >>= then_eth eth_options
