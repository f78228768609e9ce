-- ===== src/Near2Eth/Initialize/Attempts.antt =====
-- The attempts of `initialize` of near2eth/near2eth-block-relay/index.js to initialize the contract.
use rainbow_bridge_cli.Base.{
  ℕ, zero, suc, ◌*◌, ◌/◌, none, ◌∷◌, ◌≡◌, refl, true, false, includes, Bool-cases, inl, inr,
}
use rainbow_bridge_cli.Base.Bytes.{Bytes}
use rainbow_bridge_cli.Base.Io.{
  JsError, Outcome, ok, exit, hangs, Reply, resolve, reject, pending, Io, pure, ◌>>=◌, ◌>>◌,
}
use rainbow_bridge_cli.Borshify.{Codec}
use rainbow_bridge_cli.Near2Eth.Initialize.{
  init_with_validators, gas_price, Trace, InitEvent, InitChains, is_underpriced, exit_on, raised,
  attempts, send_validators, init_validators,
}

-- The events of `n` attempts at rising prices, the latest first, on top of a trace.
abbrev pub rising : Bytes → ℕ → ℕ → Trace → Trace
rising b zero price t = t
rising b (suc n) price t = rising b n (price * 11 / 10) (init_with_validators b price ∷ t)

abbrev pub raised_by : ℕ → ℕ → ℕ
raised_by zero price = price
raised_by (suc n) price = raised_by n (price * 11 / 10)

module _ (chains : InitChains) (multiplier : ℕ) where
  -- The node answers each attempt with the error that it is underpriced.
  abbrev pub Underpriced : Type 0
  Underpriced =
      (b : Bytes) (price : ℕ) (t : Trace)
      → (e : JsError) × (chains.init_with_validators b price t ≡ reject e)
        × (is_underpriced e ≡ true)

  module _ (codec : Codec) (underpriced : Underpriced) where
    attempts-rising :
        (n : ℕ) (b : Bytes) (price : ℕ) (t : Trace)
        → attempts (send_validators chains codec multiplier b) n price t
          ≡ (ok (none, raised_by n price), rising b n price t)
    unfolding attempts
    attempts-rising zero b price t = refl
    attempts-rising (suc n) b price t =
        let (e, p, q) = underpriced b price (init_with_validators b price ∷ t) in
        rw p (rw q (attempts-rising n b (raised price) (init_with_validators b price ∷ t)))

    -- Ten attempts that are all underpriced end as a success would.
    pub init_validators-Underpriced :
        (b : Bytes) (g : ℕ) (t : Trace)
        → chains.gas_price (gas_price ∷ t) ≡ resolve g
        → init_validators chains codec multiplier b t
          ≡ (ok (raised_by 10 (g * multiplier)), rising b 10 (g * multiplier) (gas_price ∷ t))
    init_validators-Underpriced b g t p =
        rw p (rw (attempts-rising 10 b (g * multiplier) (gas_price ∷ t)))

module _ (chains : InitChains) (b : Bytes) where
  -- How at most `n` attempts end, from a price and a trace on: with no attempt left as with a success,
  -- with the price that is counted; with an exit after any other exception; and an underpriced attempt
  -- is followed by the others at eleven tenths of its price.
  pub data Attempted : ℕ → ℕ → Trace → Outcome ℕ × Trace → Type 0 where
    no_more : {price : ℕ} {t : Trace} → Attempted zero price t (ok price, t)
    succeeds :
        {n price : ℕ} {t : Trace}
        → chains.init_with_validators b price (init_with_validators b price ∷ t) ≡ resolve tt
        → Attempted (suc n) price t (ok price, init_with_validators b price ∷ t)
    waits :
        {n price : ℕ} {t : Trace}
        → chains.init_with_validators b price (init_with_validators b price ∷ t) ≡ pending
        → Attempted (suc n) price t (hangs, init_with_validators b price ∷ t)
    fails :
        {n price : ℕ} {t : Trace} {e : JsError}
        → chains.init_with_validators b price (init_with_validators b price ∷ t) ≡ reject e
        → includes e.message "replacement transaction underpriced" ≡ false
        → Attempted (suc n) price t (exit 1, init_with_validators b price ∷ t)
    raises :
        {n price : ℕ} {t : Trace} {e : JsError} {r : Outcome ℕ × Trace}
        → chains.init_with_validators b price (init_with_validators b price ∷ t) ≡ reject e
        → includes e.message "replacement transaction underpriced" ≡ true
        → Attempted n (price * 11 / 10) (init_with_validators b price ∷ t) r
        → Attempted (suc n) price t r

  module _ (codec : Codec) (multiplier : ℕ) where
    abbrev tried : ℕ → ℕ → Io InitEvent ℕ
    tried n price =
        attempts (send_validators chains codec multiplier b) n price >>= λ r. exit_on r >> pure r.1

    tried-Attempted : (n price : ℕ) (t : Trace) → Attempted n price t (tried n price t)
    unfolding attempts
    tried-Attempted zero price t = no_more
    tried-Attempted (suc n) price t =
        answered (chains.init_with_validators b price events) refl
          (tried-Attempted n (price * 11 / 10) events)
      where
        events : Trace
        events = init_with_validators b price ∷ t

        answered :
            (v : Reply (Unit {0}))
            → chains.init_with_validators b price events ≡ v
            → Attempted n (price * 11 / 10) events (tried n (price * 11 / 10) events)
            → Attempted (suc n) price t (tried (suc n) price t)
        answered (resolve x) p h = simp p (succeeds p)
        answered pending p h = simp p (waits p)
        answered (reject e) p h = elim (Bool-cases (is_underpriced e)) [
          | inl q ↦ simp (p, q) (raises p q h)
          | inr q ↦ simp (p, q) (fails p q)
        ]

    -- If the node answers with a gas price, then the step that initializes the contract with
    -- validators makes at most ten attempts, the first at that price times the multiplier. An attempt
    -- that succeeds ends it with its price; one that is underpriced is followed by the next one at
    -- eleven tenths of its price, rounded down; any other exception makes it exit; and after ten
    -- underpriced attempts it returns as after a success.
    pub init_validators-Attempted :
        (g : ℕ) (t : Trace)
        → chains.gas_price (gas_price ∷ t) ≡ resolve g
        → Attempted 10
            (g * multiplier)
            (gas_price ∷ t)
            (init_validators chains codec multiplier b t)
    init_validators-Attempted g t p = simp p (tried-Attempted 10 (g * multiplier) (gas_price ∷ t))
