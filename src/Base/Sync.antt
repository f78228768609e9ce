-- ===== src/Base/Sync.antt =====
-- Synchronous JavaScript functions that may throw.
use mathlib.Core.Path.{◌≡◌, refl}
use rainbow_bridge_cli.Base.Io.{Outcome, ok, err, exit, hangs, out_of_fuel}

module _ {A B : Type 0} where
  infixl 10 ◌>>=◌
  abbrev pub ◌>>=◌ : Outcome A → (A → Outcome B) → Outcome B
  ok a >>= f = f a
  err e >>= f = err e
  exit n >>= f = exit n
  hangs >>= f = hangs
  out_of_fuel >>= f = out_of_fuel

  -- The first step of what has a result has one.
  pub bind-ok :
      (m : Outcome A) (f : A → Outcome B) {b : B}
      → (m >>= f) ≡ ok b
      → (a : A) × (m ≡ ok a) × (f a ≡ ok b)
  bind-ok (ok a) f h = (a, refl, h)
  bind-ok (err e) f h = cc
  bind-ok (exit n) f h = cc
  bind-ok hangs f h = cc
  bind-ok out_of_fuel f h = cc
