-- ===== src/EthOnNear/Deployed.antt =====
-- A whole run of cli/init/near-contracts.js.
use rainbow_bridge_cli.Base.{String, ◌≡◌, ◌===◌, false, none, List, [], ◌∷◌, Bool, ap}
use rainbow_bridge_cli.Base.Io.{
  Outcome, ok, err, exit, hangs, out_of_fuel, Io, pure, call, lift, throw, ◌>>=◌, ◌>>◌,
}
use rainbow_bridge_cli.Base.Io.Within.{within, within_trace}
use rainbow_bridge_cli.Base.Io.Rules.{
  bind_trace, catch_trace, if_trace, Returns, bind-Returns, bind_after,
}
use rainbow_bridge_cli.Base.Tests.{includes}
use rainbow_bridge_cli.Accounts.{AccountEvent}
use rainbow_bridge_cli.RobustWeb3.{Delays}
use rainbow_bridge_cli.Cli.Args.{Args, get, name_of}
use rainbow_bridge_cli.EthOnNear.{
  InitEvent, account, access_key_init, init_prover, Trace, World, account_part, or_null, option,
  key_init, ask_initialized, unless_initialized, read_roots, maybe_initialize_client,
  unless_already, maybe_initialize_prover, create, verify, create_accounts, client_sk, prover_sk,
  prepare_accounts, initialize_client, kept_keys, init_near_contracts,
}
use rainbow_bridge_cli.EthOnNear.Initialized.{
  Inits, Checked, before, maybe_initialize_client-P, read_roots-Checked,
}

-- What holds of the trace after a run holds where the run returns.
returned :
    {E A : Type 0} (P : List E → Type 0) (m : Outcome A × List E) → P m.1 → Returns (λ _ u. P u) m
returned P (ok a, u) h = h
returned P (err e, u) h = tt
returned P (exit n, u) h = tt
returned P (hangs, u) h = tt
returned P (out_of_fuel, u) h = tt

module _ {D : Type 0} (delays : Delays D) (w : World D) where
  -- What no event on accounts and keys, and no `init` of the prover, changes.
  module _ (P : Trace D → Type 0)
      (of_account : (f : AccountEvent) (u : Trace D) → P u → P (account f ∷ u))
      (of_key : (id : String) (u : Trace D) → P u → P (access_key_init id ∷ u))
      (of_prover : (id : String) (u : Trace D) → P u → P (init_prover id ∷ u)) where
    part-P :
        {A : Type 0} (m : Io AccountEvent A) (t : Trace D) → P t → P (within account_part m t).1
    part-P m t h = within_trace account_part P m t of_account h

    prover-P :
        (id client : String) (t : Trace D)
        → P t
        → P (maybe_initialize_prover delays w id client t).1
    unfolding maybe_initialize_prover
    prover-P id client t h = bind_trace P (key_init delays w id) _ t (of_key id t h) λ _ _.
        let sent = of_prover client _ (of_key id t h) in
        catch_trace P (call (init_prover client) (w.init_prover client)) (unless_already delays w) _
          sent
          (λ e _.
            if_trace P (includes e.message "The contract is already initialized") (pure tt)
              (throw e) _ sent sent)

    create_accounts-P :
        (args : Args) (client_pk prover_pk : String) (t : Trace D)
        → P t
        → P (create_accounts delays w args client_pk prover_pk t).1
    create_accounts-P args client_pk prover_pk t h = fifth
      where
        m1 : Io (InitEvent D) Bool
        m1 = verify delays w (option "nearMasterAccount" args)

        m2 : Io (InitEvent D) (Unit {0})
        m2 =
            m1
            >> create delays w w.client_accounts (option "nearClientAccount" args) client_pk
                (option "nearClientInitBalance" args)

        m3 : Io (InitEvent D) Bool
        m3 = m2 >> verify delays w (option "nearClientAccount" args)

        m4 : Io (InitEvent D) (Unit {0})
        m4 =
            m3
            >> create delays w w.prover_accounts (option "nearProverAccount" args) prover_pk
                (option "nearProverInitBalance" args)

        first : P (m1 t).1
        first = part-P _ t h

        second : P (m2 t).1
        second = bind_trace P m1 _ t first (λ _ _. part-P _ _ first)

        third : P (m3 t).1
        third = bind_trace P m2 _ t second (λ _ _. part-P _ _ second)

        fourth : P (m4 t).1
        fourth = bind_trace P m3 _ t third (λ _ _. part-P _ _ third)

        fifth : P ((m4 >> verify delays w (option "nearProverAccount" args)) t).1
        fifth = bind_trace P m4 _ t fourth (λ _ _. part-P _ _ fourth)

    prepare_accounts-P : (args : Args) (t : Trace D) → P t → P (prepare_accounts delays w args t).1
    prepare_accounts-P args t h =
        bind_trace P (lift (w.key_pair (client_sk delays w args))) _ t h λ client_pk _.
          bind_trace P (lift (w.key_pair (prover_sk delays w args))) _ t h λ prover_pk _.
            bind_trace P (lift (w.key_pair (option "nearMasterSk" args))) _ t h
              λ _ _. create_accounts-P args client_pk prover_pk t h

  unvalidated :
      (args : Args)
      → get "nearClientValidateEthhash" args ≡ none
      → (option "nearClientValidateEthhash" args === "true") ≡ false
  unvalidated args h = ap (λ o. name_of o === "true") h

  abbrev Unvalidated : Trace D → Type 0
  Unvalidated = Inits (λ input. input.validate_ethash ≡ false)

  begun-Unvalidated :
      (args : Args)
      → get "nearClientValidateEthhash" args ≡ none
      → Unvalidated ((prepare_accounts delays w args >> initialize_client delays w args) []).1
  begun-Unvalidated args h =
      let prepared =
        prepare_accounts-P Unvalidated (λ _ _ g. g) (λ _ _ g. g) (λ _ _ g. g) args [] tt in
      bind_trace Unvalidated (prepare_accounts delays w args) (λ _. initialize_client delays w args)
        [] prepared
        (λ _ _.
          maybe_initialize_client-P delays w (λ input. input.validate_ethash ≡ false)
            (option "nearClientAccount" args) (option "nearClientValidateEthhash" args === "true")
            (or_null (option "nearClientTrustedSigner" args)) (λ header. unvalidated args h) _
            prepared)

  initialize_client-Checked :
      (args : Args) (t : Trace D) → Returns (λ _ u. Checked w u) (initialize_client delays w args t)
  unfolding maybe_initialize_client
  initialize_client-Checked args t =
      bind-Returns (λ _ u. Checked w u)
        ((key_init delays w (option "nearClientAccount" args) >> ask_initialized delays w)
          >>= unless_initialized delays w (option "nearClientValidateEthhash" args === "true")
              (or_null (option "nearClientTrustedSigner" args)))
        (λ _. read_roots delays w) t (λ _ _. read_roots-Checked w delays _)

  -- If the options hold no `nearClientValidateEthhash`, then however the nodes answer, every `init` of
  -- the client asks for no validation; and if the command returns, the client has answered with the
  -- right first and last root.
  pub init_near_contracts-Unvalidated :
      (args : Args)
      → get "nearClientValidateEthhash" args ≡ none
      → Inits (λ input. input.validate_ethash ≡ false) (init_near_contracts delays w args []).1
        × Returns (λ _ u. Checked w u) (init_near_contracts delays w args [])
  unfolding init_near_contracts
  init_near_contracts-Unvalidated args h = (
    bind_trace Unvalidated both (λ _. pure (kept_keys delays w args)) [] done (λ _ _. done),
    bind_after (λ _ u. Checked w u) (λ _ u. Checked w u) both (λ _. pure (kept_keys delays w args))
        []
        (bind_after (λ _ u. Checked w u) (λ _ u. Checked w u) begun prover []
          (bind-Returns (λ _ u. Checked w u) (prepare_accounts delays w args)
            (λ _. initialize_client delays w args) [] (λ _ _. initialize_client-Checked args _))
          (λ a u g. returned (Checked w) (prover a u) (
            prover-P (Checked w) (λ _ _ g. before g) (λ _ _ g. before g) (λ _ _ g. before g)
              (option "nearProverAccount" args) (option "nearClientAccount" args) u g)))
        (λ _ u g. g),
  )
    where
      begun : Io (InitEvent D) (Unit {0})
      begun = prepare_accounts delays w args >> initialize_client delays w args

      prover : Unit {0} → Io (InitEvent D) (Unit {0})
      prover _ =
          maybe_initialize_prover delays w (option "nearProverAccount" args)
            (option "nearClientAccount" args)

      both : Io (InitEvent D) (Unit {0})
      both = begun >>= prover

      done : Unvalidated (both []).1
      done = bind_trace Unvalidated begun prover [] (begun-Unvalidated args h) (λ _ _.
          prover-P Unvalidated (λ _ _ g. g) (λ _ _ g. g) (λ _ _ g. g)
            (option "nearProverAccount" args) (option "nearClientAccount" args) _
            (begun-Unvalidated args h))
