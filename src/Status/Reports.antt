-- ===== src/Status/Reports.antt =====
-- What the command of cli/commands/status.js can report of the two nodes.
use rainbow_bridge_cli.Base.{String, ◌<>◌, ◌≡◌, refl, Bool, true, false, ◌&&◌, none, ◌∷◌}
use rainbow_bridge_cli.Base.Io.{Reply, resolve, reject, pending, lift, ◌>>=◌, ◌>>◌}
use rainbow_bridge_cli.Base.Io.Rules.{Returns, bind-Returns, bind_after, try-Returns, Returns-map}
use rainbow_bridge_cli.Status.{fine, failure, explained, unknown, request, Trace, World, given}
use rainbow_bridge_cli.Status.Near
use rainbow_bridge_cli.Status.Near.{
  NearOptions, NearStatus, near_contracts_init, read_keys, check_master, check_client, check_prover,
  add_contracts, check_accounts, after_request, near_init,
}
use rainbow_bridge_cli.Status.Eth
use rainbow_bridge_cli.Status.Eth.{
  EthOptions, EthStatus, eth_contracts_init, basic, unreachable, located, check_node,
  check_master as check_eth_master, check_contracts, check_all, eth_init,
}

module _ (w : World) where
  -- The check of the contracts throws, since its options are left out.
  check_accounts-throws :
      (o : NearOptions) (s : NearStatus) (t : Trace) → Returns (λ _ u. ⊥) (check_accounts w o s t)
  unfolding check_accounts near_contracts_init
  check_accounts-throws o s t =
      bind-Returns (λ _ u. ⊥)
        (((read_keys w o >> check_master w o s) >>= check_client w o) >>= check_prover w o)
        (add_contracts w) t (λ _ _. tt)

  -- The node is reported with this connection.
  abbrev pub NearUnreachable : NearOptions → NearStatus → Type 0
  NearUnreachable o s = s.network_connection ≡ explained o.near_node_url failure "unreachable"

  near_init-Unreachable :
      (o : NearOptions) (t : Trace)
      → given o.near_node_url ≡ true
      → (given o.near_master_account && given o.near_master_sk) ≡ true
      → Returns (λ s u. NearUnreachable o s) (near_init w o t)
  unfolding near_init Near.ask_node
  near_init-Unreachable o t h k = rw h (asked (w.request url events) refl)
    where
      url : String
      url = o.near_node_url <> "/status"

      events : Trace
      events = request url ∷ t

      reached : String → String → NearStatus
      reached version height = Near.connected o (Near.basic o) fine version height

      asked :
          (r : Reply (String × String))
          → w.request url events ≡ r
          → Returns (λ s u. NearUnreachable o s) ((Near.ask_node w url >>= after_request w o) t)
      asked (resolve (version, height)) e =
          simp (e, k)
            (Returns-map (check_accounts w o (reached version height) events)
              (check_accounts-throws o (reached version height) events) (λ s u b. absurd b))
      asked (reject x) e = simp e refl
      asked pending e = simp e tt

  abbrev pub EthUnreachable : EthOptions → EthStatus → Type 0
  EthUnreachable o s =
      (s.network_connection ≡ explained o.eth_node_url failure "unreachable")
      × (s.network_last_block ≡ unknown)
      × (s.contracts ≡ none)

  abbrev NoContracts : EthStatus → Trace → Type 0
  NoContracts s u = s.contracts ≡ none

  check_node-NoContracts :
      (o : EthOptions) (s : EthStatus) (t : Trace)
      → s.contracts ≡ none
      → Returns NoContracts (check_node w o s t)
  check_node-NoContracts o s t h =
      try-Returns NoContracts (Eth.ask_node w) _ _ t (λ _ _. h) (λ _ _. h)

  check_eth_master-NoContracts :
      (o : EthOptions) (s : EthStatus) (t : Trace)
      → s.contracts ≡ none
      → Returns NoContracts (check_eth_master w o s t)
  check_eth_master-NoContracts o s t h =
      try-Returns NoContracts (Eth.ask_accounts w o) _ _ t
        (λ (address, accounts) _. checked address (Eth.lists address accounts)) (λ _ _. h)
    where
      checked : (address : String) (b : Bool) → (Eth.master_checked w s address b).contracts ≡ none
      checked address true = h
      checked address false = h

  check_contracts-Unreachable :
      (o : EthOptions) (s : EthStatus) (t : Trace)
      → s.contracts ≡ none
      → Returns (λ s u. EthUnreachable o s) (check_contracts w o s t)
  unfolding eth_contracts_init
  check_contracts-Unreachable o s t h = (refl, refl, h)

  eth_init-Unreachable :
      (o : EthOptions) (t : Trace)
      → given o.eth_node_url ≡ true
      → Returns (λ s u. EthUnreachable o s) (eth_init w o t)
  unfolding eth_init
  eth_init-Unreachable o t h = rw h (
      try-Returns (λ s u. EthUnreachable o s) (lift (w.web3 o.eth_node_url)) (check_all w o) _ t
        (λ chain _.
          bind_after NoContracts (λ s u. EthUnreachable o s)
            (check_node w o (located w (basic w o) chain) >>= check_eth_master w o)
            (check_contracts w o) t
            (bind_after NoContracts NoContracts (check_node w o (located w (basic w o) chain))
              (check_eth_master w o) t
              (check_node-NoContracts o (located w (basic w o) chain) t refl)
              (λ s u q. check_eth_master-NoContracts o s u q))
            (λ s u q. check_contracts-Unreachable o s u q))
        (λ _ _. (refl, refl, refl)))

  -- However the nodes answer: where the node's URL, the master account and its key are given, the
  -- command returns for NEAR only if it reports the node as unreachable; and where the URL is given,
  -- it reports the node of Ethereum as unreachable, with no block and no contracts.
  pub status-Unreachable :
      (near : NearOptions) (eth : EthOptions) (t : Trace)
      → given near.near_node_url ≡ true
      → (given near.near_master_account && given near.near_master_sk) ≡ true
      → given eth.eth_node_url ≡ true
      → Returns (λ s u. NearUnreachable near s) (near_init w near t)
        × Returns (λ s u. EthUnreachable eth s) (eth_init w eth t)
  status-Unreachable near eth t h k q =
      (near_init-Unreachable near t h k, eth_init-Unreachable eth t q)
