-- ===== src/Near2Eth/Delay.antt =====
-- How long the relay of near2eth/near2eth-block-relay/index.js sleeps.
use rainbow_bridge_cli.Base.{ℕ, ◌≤◌, ◌+◌, arith}
use rainbow_bridge_cli.Base.Int.{ℤ, pos, ◌≤ℤ◌, sub_ℕ, max_ℤ, min_ℤ, div_ℤ}
use rainbow_bridge_cli.Borshify.{LightClientBlock}
use rainbow_bridge_cli.Near2Eth.{Options, BridgeState, candidate_delay, replace_delay}

min-below : (a b : ℤ) → min_ℤ a b ≤ℤ a
min-below a b = ground arith

min-below-second : (a b : ℤ) → min_ℤ a b ≤ℤ b
min-below-second a b = ground arith

below-max : (a b : ℤ) → b ≤ℤ max_ℤ a b
below-max a b = ground arith

max-below : (a b c : ℤ) → a ≤ℤ c → b ≤ℤ c → max_ℤ a b ≤ℤ c
max-below a b c h k = ground arith

≤ℤ-trans : (a b c : ℤ) → a ≤ℤ b → b ≤ℤ c → a ≤ℤ c
≤ℤ-trans a b c h k = omega (arith, h, k)

-- A minimum of three and a floor: it is at most each of the first two that the floor allows.
abbrev clamp : ℤ → ℤ → ℤ → ℤ → ℤ
clamp m d x y = max_ℤ (min_ℤ (min_ℤ d x) y) m

clamp-first : (m d x y : ℤ) → m ≤ℤ d → clamp m d x y ≤ℤ d
clamp-first m d x y h =
    max-below (min_ℤ (min_ℤ d x) y) m d
      (≤ℤ-trans (min_ℤ (min_ℤ d x) y) (min_ℤ d x) d (min-below (min_ℤ d x) y) (min-below d x)) h

clamp-second : (m d x y : ℤ) → m ≤ℤ x → clamp m d x y ≤ℤ x
clamp-second m d x y h =
    max-below (min_ℤ (min_ℤ d x) y) m x
      (≤ℤ-trans (min_ℤ (min_ℤ d x) y) (min_ℤ d x) x (min-below (min_ℤ d x) y)
        (min-below-second d x))
      h

-- Where the least delay is at most the greatest one, the sleep while a block waits to become valid
-- is between the two.
pub candidate_delay-bounds :
    (o : Options) (s : BridgeState) (duration : ℕ) (b : LightClientBlock) (now : ℕ)
    → o.min_delay ≤ o.max_delay
    → (pos o.min_delay ≤ℤ candidate_delay o s duration b now)
      × (candidate_delay o s duration b now ≤ℤ pos o.max_delay)
unfolding candidate_delay
candidate_delay-bounds o s duration b now h =
    let x = sub_ℕ s.next_valid_at now in
    let y = div_ℤ (replace_delay s duration b) 1000000000 in
    (
      below-max (min_ℤ (min_ℤ (pos o.max_delay) x) y) (pos o.min_delay),
      clamp-first (pos o.min_delay) (pos o.max_delay) x y (omega (arith, h)),
    )

-- Where the block becomes valid no sooner than the least delay from now, the relay does not sleep
-- past that time.
pub candidate_delay-valid :
    (o : Options) (s : BridgeState) (duration : ℕ) (b : LightClientBlock) (now : ℕ)
    → now + o.min_delay ≤ s.next_valid_at
    → candidate_delay o s duration b now ≤ℤ sub_ℕ s.next_valid_at now
unfolding candidate_delay
candidate_delay-valid o s duration b now h =
    clamp-second (pos o.min_delay) (pos o.max_delay) (sub_ℕ s.next_valid_at now)
      (div_ℤ (replace_delay s duration b) 1000000000) (ground (arith, h))
