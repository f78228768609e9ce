-- ===== src/Deployment/Deploys.antt =====
-- What the commands of cli/init/eth-contracts.js have deployed when they return.
use rainbow_bridge_cli.Base.{ℕ, ◌*◌, ◌^◌, ◌≡◌, String, Option, none, some, [], ◌∷◌}
use rainbow_bridge_cli.Base.Io.{ok, resolve}
use rainbow_bridge_cli.Config.{text}
use rainbow_bridge_cli.Cli.Args.{Args}
use rainbow_bridge_cli.Deployment.{
  address, amount, get_gas_price, deployed, Trace, World, Request, normalize_eth_key, deployment,
  ContractArgs, request,
}

module _ (w : World) where
  -- The last event has deployed the contract that is asked for: from the key's account, with the code
  -- of the file, at the price of the node times the multiplier; and it got this address.
  pub record Sent (r : Request) (got : String) (u : Trace) : Type 0 where
    pub sender : String
    pub code : String
    pub price : ℕ
    pub multiplier : ℕ
    pub before : Trace
    pub of_key : w.account (normalize_eth_key w.lower r.eth_master_sk) ≡ ok sender
    pub of_file : w.bin r.eth_contract_bin_path ≡ ok code
    pub of_node : w.gas_price (get_gas_price ∷ before) ≡ resolve price
    pub multiplied : w.bn r.eth_gas_multiplier ≡ ok multiplier
    pub last : u ≡ deployed (deployment w r sender code price multiplier) ∷ get_gas_price ∷ before
    pub answered : w.deploy (deployment w r sender code price multiplier) u ≡ resolve got

  abbrev SentSome : Request → Option String → Trace → Type 0
  SentSome r none u = Unit
  SentSome r (some a) u = (got : String) × Sent r got u × (a ≡ normalize_eth_key w.lower got)

  -- If it returns, then it has deployed the contract of the request, and returns nothing but its
  -- address, under the key.
  abbrev pub Keeps : String → Request → Args → Trace → Type 0
  Keeps key r values u =
      (got : String) × Sent r got u
      × (values ≡ (key, some (text (normalize_eth_key w.lower got))) ∷ [])

  -- The client has been deployed with the numbers that its three options hold.
  abbrev pub KeepsClient : ContractArgs → String → String → String → String → Args → Trace → Type 0
  KeepsClient a ed25519 lock_amount lock_duration replace_duration values u =
      (lock : ℕ) × (w.bn lock_amount ≡ ok lock)
      × ((duration : ℕ) × (w.bn lock_duration ≡ ok duration)
          × ((replace : ℕ) × (w.bn replace_duration ≡ ok replace)
              × Keeps "ethClientAddress"
                  (request a 5000000 (
                    address ed25519
                    ∷ amount lock
                    ∷ amount duration
                    ∷ amount (replace * 10 ^ 9)
                    ∷ []))
                  values u))
