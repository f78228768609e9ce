-- ===== src/EthOnNear/Initialized.antt =====
-- With what the client of eth2near/eth2near-block-relay/eth-on-near-client.js is initialized, and
-- what is known of it once cli/init/near-contracts.js returns.
use rainbow_bridge_cli.Base.{
  String, ◌≡◌, ◌===◌, eq_iff, Bool, true, false, ◌&&◌, Option, some, [], ◌∷◌, Bool-cases, inl, inr,
}
use rainbow_bridge_cli.Base.Bytes.{Bytes}
use rainbow_bridge_cli.Base.Io.{resolve, pure, process_exit, call, lift, ◌>>=◌, ◌>>◌}
use rainbow_bridge_cli.Base.Io.Within.{within, within_trace}
use rainbow_bridge_cli.Base.Io.Rules.{
  settle-ok, bind_trace, catch_trace, if_trace, Returns, bind-Returns, if_Returns,
}
use rainbow_bridge_cli.RobustWeb3.{Delays, robust_block_number, robust_block}
use rainbow_bridge_cli.EthOnNear.{
  InitInput, InitEvent, initialized, init_client, dag_merkle_root, Trace, World, web3_part,
  first_root, last_root, key_init, ask_initialized, send_init, read_header, unless_initialized,
  check_roots, ask_root, read_roots, maybe_initialize_client,
}

-- `Q` holds of what every `init` of the client was sent with.
abbrev pub Inits : {D : Type 0} → (InitInput → Type 0) → Trace D → Type 0
Inits Q [] = Unit
Inits Q (init_client input ∷ t) = Q input × Inits Q t
Inits Q (_ ∷ t) = Inits Q t

module _ {D : Type 0} (delays : Delays D) (w : World D) (Q : InitInput → Type 0) where
  abbrev P : Trace D → Type 0
  P = Inits Q

  read_header-P : (t : Trace D) → P t → P (read_header delays w t).1
  read_header-P t h =
      bind_trace P (within web3_part (robust_block_number delays w.eth)) _ t number λ n _.
        let block : P (within web3_part (robust_block delays w.eth (some n)) _).1 =
          within_trace web3_part P (robust_block delays w.eth (some n)) _ (λ f u g. g) number in
        bind_trace P (within web3_part (robust_block delays w.eth (some n)))
          (λ b. lift (w.block_to_rlp b)) _ block (λ _ _. block)
    where
      number : P (within web3_part (robust_block_number delays w.eth) t).1
      number = within_trace web3_part P (robust_block_number delays w.eth) t (λ f u g. g) h

  read_roots-P : (t : Trace D) → P t → P (read_roots delays w t).1
  read_roots-P t h = bind_trace P (ask_root delays w 0) _ t h λ first _.
      bind_trace P (ask_root delays w 511) (check_roots delays w first) _ h λ last _.
        if_trace P ((first === first_root) && (last === last_root)) (pure tt) (process_exit 1) _ h h

  module _ (id : String) (validate : Bool) (signer : Option String)
      (q : (header : Bytes)
        → Q (record {
          validate_ethash = validate;
          first_header = header;
          trusted_signer = signer;
        })) where
    pub maybe_initialize_client-P :
        (t : Trace D) → P t → P (maybe_initialize_client delays w id validate signer t).1
    unfolding maybe_initialize_client
    maybe_initialize_client-P t h =
        bind_trace P
          ((key_init delays w id >> ask_initialized delays w)
            >>= unless_initialized delays w validate signer)
          (λ _. read_roots delays w) t sent (λ _ _. read_roots-P _ sent)
      where
        asked : P ((key_init delays w id >> ask_initialized delays w) t).1
        asked =
            bind_trace P (key_init delays w id) (λ _. ask_initialized delays w) t h
              λ _ _. catch_trace P (call initialized w.initialized) (λ e. pure false) _ h (λ _ _. h)

        initialized-P :
            (b : Bool) (u : Trace D) → P u → P (unless_initialized delays w validate signer b u).1
        initialized-P true u g = g
        initialized-P false u g =
            let read = read_header-P u g in
            bind_trace P (read_header delays w) (send_init delays w validate signer) u read
              (λ header _. (q header, read))

        sent :
            P
              (((key_init delays w id >> ask_initialized delays w)
                  >>= unless_initialized delays w validate signer)
                t).1
        sent =
            bind_trace P (key_init delays w id >> ask_initialized delays w)
              (unless_initialized delays w validate signer) t asked (λ b _. initialized-P b _ asked)

module _ {D : Type 0} (w : World D) where
  -- The client has answered the requests for its first and its last root with the right ones.
  pub data Checked : Trace D → Type 0 where
    checked :
        {t : Trace D}
        → w.dag_merkle_root 0 (dag_merkle_root 0 ∷ t) ≡ resolve first_root
        → w.dag_merkle_root 511 (dag_merkle_root 511 ∷ dag_merkle_root 0 ∷ t) ≡ resolve last_root
        → Checked (dag_merkle_root 511 ∷ dag_merkle_root 0 ∷ t)
    before : {t : Trace D} {e : InitEvent D} → Checked t → Checked (e ∷ t)

  both :
      (a b : String)
      → ((a === first_root) && (b === last_root)) ≡ true
      → (a ≡ first_root) × (b ≡ last_root)
  both a b h = elim (Bool-cases (a === first_root)) [
    | inl p ↦ ((eq_iff a first_root).0 p, (eq_iff b last_root).0 (rw p at h))
    | inr p ↦ absurd (no (rw p at h))
  ]
    where
      no : false ≡ true → ⊥
      no h = cc

  module _ (delays : Delays D) where
    pub read_roots-Checked : (t : Trace D) → Returns (λ _ u. Checked u) (read_roots delays w t)
    read_roots-Checked t =
        bind-Returns (λ _ u. Checked u) (ask_root delays w 0) _ t
          λ first e.
            bind-Returns (λ _ u. Checked u) (ask_root delays w 511) (check_roots delays w first) _
              λ last f.
                if_Returns (λ _ u. Checked u) ((first === first_root) && (last === last_root))
                  (pure tt) (process_exit 1) _
                  (λ h.
                    let (p, q) = both first last h in
                    checked (rw p at (settle-ok (w.dag_merkle_root 0 (dag_merkle_root 0 ∷ t)) e)) (
                      rw q at (
                        settle-ok
                          (w.dag_merkle_root 511 (dag_merkle_root 511 ∷ dag_merkle_root 0 ∷ t)) f)))
                  (λ _. tt)
