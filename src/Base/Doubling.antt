-- ===== src/Base/Doubling.antt =====
-- Gas prices that are doubled after each timeout.
use Prim.Native.Nat.{ℕ, zero, suc, ◌*◌, ◌≤◌}
use native.Mathlib.Omega.{arith}

-- A price after `k` timeouts.
abbrev pub doubled : ℕ → ℕ → ℕ
doubled zero price = price
doubled (suc k) price = doubled k (price * 2)

-- 10000 * 1e9
abbrev pub max_gas_price : ℕ
max_gas_price = 10000000000000

-- Forty-four doublings of a price of at least 1 reach the bound.
pub enough_doublings : (price : ℕ) → 1 ≤ price → max_gas_price ≤ doubled 44 price
enough_doublings price h = omega (arith, h)
