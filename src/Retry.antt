-- ===== src/Retry.antt =====
-- `retry` and `backoff` of utils/robust.js, over any asynchronous function. Delays are JavaScript
-- numbers: their type `D` with its product is a parameter, and so is the constant BACKOFF.
pub mod Attempts
pub mod Traces
use rainbow_bridge_cli.Base.{ℕ, zero, suc}
use rainbow_bridge_cli.Base.Io.{Io, throw, catch, emit, ◌>>=◌, ◌>>◌}

-- const retry = (retries, fn) => fn().catch((err) => retries > 1 ? ... : Promise.reject(err))
unfoldable pub retry : {E A : Type 0} → ℕ → Io E A → Io E A
retry zero fn = catch fn throw
retry (suc zero) fn = catch fn throw
retry (suc (suc n)) fn = catch fn (λ _. retry (suc n) fn)

module _ {D E : Type 0} (product : D → D → D) (default_wait : D) (sleep : D → E) where
  -- The recursive call leaves `wait` out, so from the second pause on it is BACKOFF.
  unfoldable pub backoff : {A : Type 0} → ℕ → Io E A → D → D → Io E A
  backoff zero fn delay wait = catch fn throw
  backoff (suc zero) fn delay wait = catch fn throw
  backoff (suc (suc n)) fn delay wait =
      catch fn λ _. do emit (sleep delay); backoff (suc n) fn (product delay wait) default_wait
