-- ===== src/Examples/Relays.antt =====
-- near2eth/watchdog/index.js and near2eth/near2eth-block-relay/index.js against fixed chains.
use rainbow_bridge_cli.Base.{
  ℕ, ◌*◌, ◌≤◌, true, false, some, [], ◌∷◌, ◌==◌, if◌then◌else◌, ◌≡◌, refl, none, length, arith,
}
use rainbow_bridge_cli.Base.Int.{pos, ◌≤ℤ◌}
use rainbow_bridge_cli.Base.Io.{ok, Reply, resolve, pending}
use rainbow_bridge_cli.Base.Io.Survival.{IsCalm}
use rainbow_bridge_cli.Watchdog
use rainbow_bridge_cli.Watchdog.{
  ChallengeTx, WatchdogEvent, check_signature, challenge, check_signatures,
}
use rainbow_bridge_cli.Watchdog.Challenge.{Escalates, send_challenges-Escalates}
use rainbow_bridge_cli.Watchdog.Pass.{
  checks, ChargesGas, check_signatures-first, check_signatures-none, run-IsCalm,
}
use rainbow_bridge_cli.Borshify.{LightClientBlock}
use rainbow_bridge_cli.Borshify.Survival.{Answers}
use rainbow_bridge_cli.Base.Io.{reject, js_error}
use rainbow_bridge_cli.Near2Eth.Initialize.{
  InitChains, gas_price, attempts, init_validators, initialize,
}
use rainbow_bridge_cli.Near2Eth.Initialize.Attempts.{
  rising, raised_by, Underpriced, init_validators-Underpriced, Attempted, init_validators-Attempted,
}
use rainbow_bridge_cli.Examples.Transfer.{codec, inner_lite}
use rainbow_bridge_cli.Examples.Web3.{delays, slow_node}
use rainbow_bridge_cli.Near2Eth
use rainbow_bridge_cli.Near2Eth.{Chains, Options, candidate_delay, turn}
use rainbow_bridge_cli.Near2Eth.Delay.{candidate_delay-bounds}
use rainbow_bridge_cli.Near2Eth.Turn.{run_internal-IsCalm}
use rainbow_bridge_cli.Near2Eth.Relays.{added, RelaysAtMost, turn-Relays}

-- A contract with a wrong signature at the index 2, on a node that never mines in time.
abbrev forged : Watchdog.EthNode
forged = record {
  bridge_state = λ _. resolve (record { next_valid_at = 9; num_block_producers = 4 });
  check_signature = λ i _. resolve (if i == 2 then false else true);
  gas_price = λ _. resolve 40;
  transaction_count = λ _. resolve 7;
  send = λ _ _. pending;
}

send_challenges-Escalates_example :
    Escalates 7 2 40 [] (Watchdog.send_challenges forged 45 40 7 2 []).1
send_challenges-Escalates_example = send_challenges-Escalates forged 45 40 7 2 []

check_signatures-first_example :
    check_signatures forged 4 0 []
    ≡ challenge forged 2 (check_signature 2 ∷ check_signature 1 ∷ check_signature 0 ∷ [])
unfolding Watchdog.Pass.AllPass
check_signatures-first_example = check_signatures-first forged 2 1 0 [] (refl, (refl, tt)) refl

forged-ChargesGas : ChargesGas forged
forged-ChargesGas t p h = quoted h
  where
    quoted : ◌≡◌ {A = Reply ℕ} (resolve 40) (resolve p) → 1 ≤ p
    quoted h = let q : 40 ≡ p = cc in omega (arith, q)

run-IsCalm_example : IsCalm (Watchdog.run forged 2 300 30 []).0
run-IsCalm_example = run-IsCalm forged forged-ChargesGas 2 300 30 []

-- A light client block above the one that the contract holds.
abbrev block : LightClientBlock
block = record {
  prev_block_hash = "p";
  next_block_inner_hash = "i";
  inner_lite = record inner_lite { timestamp = 5000000000 };
  inner_rest_hash = "r";
  next_bps = some [];
  approvals_after_next = none ∷ [];
}

abbrev chains : Chains ℕ
chains = record {
  bridge_state =
      λ _. resolve (record { current_height = 10; next_timestamp = 0; next_valid_at = 0 });
  block_hash = λ _ _. resolve "head";
  next_block = λ _ _. resolve (some block);
  replace_duration = λ _. resolve 0;
  lock_eth_amount = λ _. resolve 100;
  balance_of = λ _. resolve 0;
  gas_price = λ _. resolve 40;
  deposit = λ _ _ _. resolve tt;
  add_block = λ _ _ _. resolve tt;
  eth = slow_node;
  random_index = λ _ _. 0;
}

codec-Answers : Answers codec
codec-Answers = record { decode58 = λ s. tt; to_buffer = λ n w. tt }

abbrev options : Options
options = record {
  submit_invalid_block = false;
  min_delay = 1;
  max_delay = 600;
  error_delay = 1;
  eth_gas_multiplier = 1;
}

abbrev waiting : Near2Eth.BridgeState
waiting = record { current_height = 10; next_timestamp = 3000000000; next_valid_at = 1060 }

candidate_delay-bounds_example :
    (pos 1 ≤ℤ candidate_delay options waiting 5000000000 block 1000)
    × (candidate_delay options waiting 5000000000 block 1000 ≤ℤ pos 600)
candidate_delay-bounds_example =
    candidate_delay-bounds options waiting 5000000000 block 1000 (omega arith)

run_internal-IsCalm_example : IsCalm (Near2Eth.run_internal delays chains codec options 3 []).0
run_internal-IsCalm_example =
    run_internal-IsCalm delays chains codec options codec-Answers refl 3 []

turn-Relays_example :
    RelaysAtMost delays chains codec options [] (turn delays chains codec options []).1
turn-Relays_example = turn-Relays delays chains codec options refl []

-- The block is sent, after a deposit.
turn-sends : length (added (turn delays chains codec options []).1) ≡ 1
unfolding turn Near2Eth.act Near2Eth.submit Near2Eth.should_submit
    rainbow_bridge_cli.Borshify.borshify rainbow_bridge_cli.Borshify.Pieces.concat
    rainbow_bridge_cli.Borshify.Pieces.concat_map
turn-sends = refl

-- A node that calls every transaction underpriced.
abbrev crowded : InitChains
crowded = record {
  is_initialized = λ _. resolve false;
  status = λ _. resolve 12;
  head_block = λ _ _. resolve "final";
  validators = λ _ _. resolve (some []);
  next_block = λ _ _. resolve (some block);
  gas_price = λ _. resolve 40;
  init_with_validators = λ _ _ _. reject (js_error "replacement transaction underpriced");
  init_with_block = λ _ _ _. reject (js_error "replacement transaction underpriced");
}

crowded-Underpriced : Underpriced crowded 1
unfolding rainbow_bridge_cli.Base.Tests.includes
crowded-Underpriced b price t = (js_error "replacement transaction underpriced", refl, refl)

init_validators-Attempted_example :
    Attempted crowded
      (7 ∷ [])
      10
      (40 * 1)
      (gas_price ∷ [])
      (init_validators crowded codec 1 (7 ∷ []) [])
init_validators-Attempted_example = init_validators-Attempted crowded (7 ∷ []) codec 1 40 [] refl

ten_attempts :
    init_validators crowded codec 1 (7 ∷ []) []
    ≡ (ok (raised_by 10 (40 * 1)), rising (7 ∷ []) 10 (40 * 1) (gas_price ∷ []))
ten_attempts = init_validators-Underpriced crowded 1 codec crowded-Underpriced (7 ∷ []) 40 [] refl

-- The contract is reported as initialized, and no transaction has succeeded.
initialize-crowded : (initialize crowded codec 1 5 []).0 ≡ ok tt
unfolding initialize attempts rainbow_bridge_cli.Near2Eth.Initialize.await_final
    rainbow_bridge_cli.Borshify.borshify_initial_validators rainbow_bridge_cli.Borshify.borshify
    rainbow_bridge_cli.Borshify.Pieces.concat rainbow_bridge_cli.Borshify.Pieces.concat_map
    rainbow_bridge_cli.Base.Tests.includes
initialize-crowded = refl
