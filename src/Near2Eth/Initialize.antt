-- ===== src/Near2Eth/Initialize.antt =====
-- `initialize` of near2eth/near2eth-block-relay/index.js, from the check whether the contract is
-- initialized on.
pub mod Attempts
use rainbow_bridge_cli.Base.{
  ℕ, zero, suc, ◌*◌, ◌/◌, String, Bool, Option, none, some, List, ◌∷◌, includes, if◌then◌else◌,
}
use rainbow_bridge_cli.Base.Bytes.{Bytes}
use rainbow_bridge_cli.Base.Io.{
  JsError, Reply, Io, starved, pure, process_exit, call, emit, catch, try, lift, ◌>>=◌, ◌>>◌,
}
use rainbow_bridge_cli.Borshify.{
  Codec, BlockProducer, LightClientBlock, borshify, borshify_initial_validators,
}

pub data InitEvent : Type 0 where
  is_initialized status gas_price : InitEvent
  -- provider.block, for a height
  head_block : ℕ → InitEvent
  -- EXPERIMENTAL_validators_ordered and next_light_client_block, for a hash
  validators next_block : String → InitEvent
  -- the two transactions, with their gas price
  init_with_validators init_with_block : Bytes → ℕ → InitEvent
  -- sleep, in milliseconds
  slept : ℕ → InitEvent

abbrev pub Trace : Type 0
Trace = List InitEvent

pub record InitChains : Type 0 where
  pub is_initialized : Trace → Reply Bool
  -- the height of the latest block
  pub status : Trace → Reply ℕ
  -- header.last_final_block
  pub head_block : ℕ → Trace → Reply String
  -- `none` is null
  pub validators : String → Trace → Reply (Option (List BlockProducer))
  pub next_block : String → Trace → Reply (Option LightClientBlock)
  pub gas_price : Trace → Reply ℕ
  pub init_with_validators : Bytes → ℕ → Trace → Reply (Unit {0})
  pub init_with_block : Bytes → ℕ → Trace → Reply (Unit {0})

abbrev pub is_underpriced : JsError → Bool
is_underpriced e = includes e.message "replacement transaction underpriced"

-- gasPrice.mul(11).div(10)
abbrev pub raised : ℕ → ℕ
raised price = price * 11 / 10

-- A loop of `n` attempts, where `send` makes one at a gas price: `err` and `gasPrice` after it.
unfoldable pub attempts : (ℕ → Io InitEvent (Unit {0})) → ℕ → ℕ → Io InitEvent (Option JsError × ℕ)
attempts send zero price = pure (none, price)
attempts send (suc n) price =
    try (send price) (λ _. pure (none, price))
      (λ e. if is_underpriced e then attempts send n (raised price) else pure (some e, price))

-- if (err) process.exit(1)
abbrev pub exit_on : Option JsError × ℕ → Io InitEvent (Unit {0})
exit_on (none, price) = pure tt
exit_on (some e, price) = process_exit 1

module _ (chains : InitChains) (codec : Codec) (multiplier : ℕ) where
  -- The loop that waits for the final block and its validators, up to its `n`-th round.
  unfoldable pub await_final : ℕ → String → Io InitEvent (List BlockProducer × LightClientBlock)
  await_final zero hash = starved
  await_final (suc n) hash = call (validators hash) (chains.validators hash) >>= λ vs. elim vs [
    | none ↦ emit (slept 300) >> await_final n hash
    | some ps ↦ call (next_block hash) (chains.next_block hash) >>= λ b. elim b [
      | none ↦ emit (slept 300) >> await_final n hash
      | some block ↦ pure (ps, block)
    ]
  ]

  abbrev pub send_validators : Bytes → ℕ → Io InitEvent (Unit {0})
  send_validators b price =
      call (init_with_validators b price) (chains.init_with_validators b price)

  -- Each attempt asks for the gas price again: the one that the loop counts is not used.
  abbrev pub send_block : Bytes → ℕ → Io InitEvent (Unit {0})
  send_block b price = call gas_price chains.gas_price >>= λ g.
      call (init_with_block b (g * multiplier)) (chains.init_with_block b (g * multiplier))

  abbrev pub init_validators : Bytes → Io InitEvent ℕ
  init_validators b = call gas_price chains.gas_price >>= λ g.
      attempts (send_validators b) 10 (g * multiplier) >>= λ r. exit_on r >> pure r.1

  abbrev pub init_block : LightClientBlock → ℕ → Io InitEvent (Unit {0})
  init_block block price =
      lift (borshify codec block) >>= λ b. attempts (send_block b) 10 price >>= exit_on

  abbrev pub init_contract : List BlockProducer × LightClientBlock → Io InitEvent (Unit {0})
  init_contract (ps, block) =
      lift (borshify_initial_validators codec ps) >>= init_validators >>= init_block block

  abbrev pub unless_initialized : ℕ → Bool → Io InitEvent (Unit {0})
  unless_initialized n done =
      if done
      then pure tt
      else (call status chains.status >>= λ height.
          call (head_block height) (chains.head_block height) >>= await_final n >>= init_contract)

  -- `n` rounds for the loop that waits.
  unfoldable pub initialize : ℕ → Io InitEvent (Unit {0})
  initialize n =
      catch (call is_initialized chains.is_initialized >>= unless_initialized n)
        (λ e. process_exit 1)
