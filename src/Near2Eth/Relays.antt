-- ===== src/Near2Eth/Relays.antt =====
-- What a turn of the relay of near2eth/near2eth-block-relay/index.js hands to the contract.
use rainbow_bridge_cli.Base.{
  ℕ, ◌+◌, ◌≤◌, ◌<◌, ◌≡◌, refl, ap, ◌∙◌, ◌∷◌, List, [], ◌==◌, arith, true, false, inl, inr, ◌⊎◌,
  Option, none, some, String,
}
use rainbow_bridge_cli.Base.Bytes.{Bytes}
use rainbow_bridge_cli.Base.Io.{JsError, ok, resolve, call, emit, pure, process_exit, lift, ◌>>=◌}
use rainbow_bridge_cli.Base.Io.Rules.{bind_trace, catch_trace, if_trace, if_trace_by, settle-ok}
use rainbow_bridge_cli.Base.Io.Within.{within_trace}
use rainbow_bridge_cli.RobustWeb3.{Delays, robust_block}
use rainbow_bridge_cli.Borshify.{Codec, LightClientBlock, borshify}
use rainbow_bridge_cli.Near2Eth.{
  bridge_state, block_hash, next_block, replace_duration, lock_eth_amount, balance_of, gas_price,
  add_block, slept, web3_part, Trace, Chains, Options, BridgeState, read_latest, should_submit,
  deposit_at, deposit_stake, add_at, send_bytes, send_payload, finish, send_block, with_balance,
  with_stake, submit, sleep_until, wait, act, with_block, with_hash, with_state, rest_after_error,
  turn, idle_delay,
}

-- The blocks that were handed to the contract, the latest first.
abbrev pub added : {D : Type 0} → Trace D → List Bytes
added [] = []
added (add_block b g ∷ t) = b ∷ added t
added (_ ∷ t) = added t

submits :
    (s : BridgeState) (duration : ℕ) (b : LightClientBlock)
    → should_submit s duration b ≡ true
    → (s.current_height < b.inner_lite.height)
      × ((s.next_valid_at ≡ 0) ⊎ (s.next_timestamp + duration ≤ b.inner_lite.timestamp))
unfolding should_submit
submits s duration b h = ground arith

module _ {D : Type 0} (delays : Delays D) (chains : Chains D) (codec : Codec) (o : Options) where
  -- From `t` to `u`, one block was handed to the contract: one that the NEAR node gave for the hash
  -- that the contract gave of its head, serialized, higher than the contract's head, where no block
  -- waits in the contract or the duration that the contract gave for a replacement has passed.
  pub record Relays (t u : Trace D) : Type 0 where
    pub state : BridgeState
    pub block : LightClientBlock
    pub duration : ℕ
    pub hash : String
    pub bytes : Bytes
    pub asked : chains.bridge_state (bridge_state ∷ t) ≡ resolve state
    pub hashed :
        chains.block_hash state.current_height (block_hash state.current_height ∷ bridge_state ∷ t)
        ≡ resolve hash
    pub given :
        chains.next_block hash
          (next_block hash ∷ block_hash state.current_height ∷ bridge_state ∷ t)
        ≡ resolve (some block)
    pub timed :
        chains.replace_duration
          (replace_duration ∷ next_block hash ∷ block_hash state.current_height ∷ bridge_state ∷ t)
        ≡ resolve duration
    pub higher : state.current_height < block.inner_lite.height
    pub replaceable :
        (state.next_valid_at ≡ 0) ⊎ (state.next_timestamp + duration ≤ block.inner_lite.timestamp)
    pub serialized : borshify codec block ≡ ok bytes
    pub sent : added u ≡ bytes ∷ added t

  abbrev pub RelaysAtMost : Trace D → Trace D → Type 0
  RelaysAtMost t u = (added u ≡ added t) ⊎ Relays t u

  after_rest :
      (e : JsError) (t u : Trace D)
      → RelaysAtMost t u
      → RelaysAtMost t (rest_after_error delays chains codec o e u).1
  after_rest e t u (inl h) = inl h
  after_rest e t u (inr r) = inr (record {
    state = r.state;
    block = r.block;
    duration = r.duration;
    hash = r.hash;
    bytes = r.bytes;
    asked = r.asked;
    hashed = r.hashed;
    given = r.given;
    timed = r.timed;
    higher = r.higher;
    replaceable = r.replaceable;
    serialized = r.serialized;
    sent = r.sent;
  })

  deposit_stake-added :
      (amount balance : ℕ) (t : Trace D)
      → added (deposit_stake delays chains codec o amount balance t).1 ≡ added t
  deposit_stake-added amount balance t =
      if_trace (λ u. added u ≡ added t) (balance == 0)
        (call gas_price chains.gas_price >>= deposit_at delays chains codec o amount) (pure tt) t
        (bind_trace (λ u. added u ≡ added t) (call gas_price chains.gas_price)
          (deposit_at delays chains codec o amount) t refl (λ _ _. refl))
        refl

  wait-added :
      (s : BridgeState) (duration : ℕ) (b : LightClientBlock) (t : Trace D)
      → added (wait delays chains codec o s duration b t).1 ≡ added t
  unfolding wait
  wait-added s duration b t =
      if_trace (λ u. added u ≡ added t) (s.next_valid_at == 0) (emit (slept (idle_delay o)))
        (read_latest delays chains codec o >>= sleep_until delays chains codec o s duration b) t
        refl
        (bind_trace (λ u. added u ≡ added t) (read_latest delays chains codec o)
          (sleep_until delays chains codec o s duration b) t read (λ _ _. read))
    where
      read : added (read_latest delays chains codec o t).1 ≡ added t
      read =
          within_trace web3_part (λ u. added u ≡ added t) (robust_block delays chains.eth none) t
            (λ f u h. h) refl

  module _ (honest : o.submit_invalid_block ≡ false) where
    -- Sending a block hands over its bytes, or nothing.
    abbrev Sends : LightClientBlock → Trace D → Trace D → Type 0
    Sends b t u =
        (added u ≡ added t) ⊎ ((p : Bytes) × (borshify codec b ≡ ok p) × (added u ≡ p ∷ added t))

    send_bytes-Sends :
        (b : LightClientBlock) (p : Bytes) (t u : Trace D)
        → borshify codec b ≡ ok p
        → added u ≡ added t
        → Sends b t (send_bytes delays chains codec o p u).1
    send_bytes-Sends b p t u e h =
        bind_trace (Sends b t) (call gas_price chains.gas_price) (add_at delays chains codec o p) u
          (inl h) λ g _. inr (p, e, ap (λ x. p ∷ x) h)

    honest_payload :
        (p : Bytes) (u : Trace D)
        → send_payload delays chains codec o p u ≡ send_bytes delays chains codec o p u
    honest_payload p u = simp honest

    send_block-Sends :
        (b : LightClientBlock) (t u : Trace D)
        → added u ≡ added t
        → Sends b t (send_block delays chains codec o b tt u).1
    send_block-Sends b t u h =
        bind_trace (Sends b t) (lift (borshify codec b) >>= send_payload delays chains codec o)
          (finish delays chains codec o) u sent
          (λ _ _.
            if_trace (Sends b t) o.submit_invalid_block (process_exit 0) (pure tt) _ sent sent)
      where
        sent : Sends b t ((lift (borshify codec b) >>= send_payload delays chains codec o) u).1
        sent =
            bind_trace (Sends b t) (lift (borshify codec b)) (send_payload delays chains codec o) u
              (inl h) λ p e. rw (honest_payload p u) (send_bytes-Sends b p t u e h)

    submit-Sends :
        (b : LightClientBlock) (t u : Trace D)
        → added u ≡ added t
        → Sends b t (submit delays chains codec o b u).1
    unfolding submit
    submit-Sends b t u h =
        bind_trace (Sends b t) (call lock_eth_amount chains.lock_eth_amount)
          (with_stake delays chains codec o b) u (inl h)
          λ amount _.
            bind_trace (Sends b t) (call balance_of chains.balance_of)
              (with_balance delays chains codec o b amount) _ (inl h)
              λ balance _.
                bind_trace (Sends b t) (deposit_stake delays chains codec o amount balance)
                  (send_block delays chains codec o b) _
                  (inl (deposit_stake-added amount balance _ ∙ h))
                  λ _ _. send_block-Sends b t _ (deposit_stake-added amount balance _ ∙ h)

    -- Unless it is told to submit an invalid block, a turn of the relay hands nothing to the
    -- contract, or one block: the bytes of `borshify` for the block that the NEAR node gave in this
    -- turn for the contract's hash at its height, which is higher than that height, where no block
    -- waits in the contract to become valid or the block is later than the waiting one by at least the
    -- duration for a replacement that the contract gave in this turn.
    pub turn-Relays : (t : Trace D) → RelaysAtMost t (turn delays chains codec o t).1
    unfolding turn
    turn-Relays t =
        catch_trace (RelaysAtMost t)
          (call bridge_state chains.bridge_state >>= with_state delays chains codec o)
          (rest_after_error delays chains codec o) t tried (λ e _. after_rest e t _ tried)
      where
        acted :
            (s : BridgeState) (h : String) (d : ℕ) (b : Option LightClientBlock) (u : Trace D)
            → chains.bridge_state (bridge_state ∷ t) ≡ resolve s
            → chains.block_hash s.current_height (block_hash s.current_height ∷ bridge_state ∷ t)
              ≡ resolve h
            → chains.next_block h (next_block h ∷ block_hash s.current_height ∷ bridge_state ∷ t)
              ≡ resolve b
            → chains.replace_duration
                (replace_duration ∷ next_block h ∷ block_hash s.current_height ∷ bridge_state ∷ t)
              ≡ resolve d
            → added u ≡ added t
            → RelaysAtMost t (act delays chains codec o s b d u).1
        acted s h d none u p a q c e = unfold act in inl e
        acted s h d (some b) u p a q c e =
            unfold act in
            if_trace_by (RelaysAtMost t) (should_submit s d b) (submit delays chains codec o b)
              (wait delays chains codec o s d b) u
              (λ y. relayed (submits s d b y) (submit-Sends b t u e))
              (λ _. inl (wait-added s d b u ∙ e))
          where
            relayed :
                (s.current_height < b.inner_lite.height)
                  × ((s.next_valid_at ≡ 0) ⊎ (s.next_timestamp + d ≤ b.inner_lite.timestamp))
                → Sends b t (submit delays chains codec o b u).1
                → RelaysAtMost t (submit delays chains codec o b u).1
            relayed _ (inl z) = inl z
            relayed (y, z) (inr (x, w, v)) = inr (record {
              state = s;
              block = b;
              duration = d;
              hash = h;
              bytes = x;
              asked = p;
              hashed = a;
              given = q;
              timed = c;
              higher = y;
              replaceable = z;
              serialized = w;
              sent = v;
            })

        tried :
            RelaysAtMost t
              ((call bridge_state chains.bridge_state >>= with_state delays chains codec o) t).1
        tried =
            bind_trace (RelaysAtMost t) (call bridge_state chains.bridge_state)
              (with_state delays chains codec o) t (inl refl)
              λ s p.
                bind_trace (RelaysAtMost t)
                  (call (block_hash s.current_height) (chains.block_hash s.current_height))
                  (with_hash delays chains codec o s) _ (inl refl)
                  λ h a.
                    bind_trace (RelaysAtMost t) (call (next_block h) (chains.next_block h))
                      (with_block delays chains codec o s) _ (inl refl)
                      λ b q.
                        bind_trace (RelaysAtMost t) (call replace_duration chains.replace_duration)
                          (act delays chains codec o s b) _ (inl refl)
                          λ d c.
                            acted s h d b _ (settle-ok _ p) (settle-ok _ a) (settle-ok _ q)
                              (settle-ok _ c) refl
