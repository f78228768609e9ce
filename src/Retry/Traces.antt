-- ===== src/Retry/Traces.antt =====
-- What every attempt and every pause of `backoff` keeps is kept by the whole, and an attempt that does
-- not end the program makes a whole that does not.
use rainbow_bridge_cli.Base.{ℕ, zero, suc, List, ◌∷◌}
use rainbow_bridge_cli.Base.Io.{Io, throw}
use rainbow_bridge_cli.Base.Io.Rules.{catch_trace, catch-Returns, Returns}
use rainbow_bridge_cli.Base.Io.Survival.{IsAlive, catch-IsAlive}
use rainbow_bridge_cli.Retry.{backoff}

module _ {D E A : Type 0} (product : D → D → D) (default_wait : D) (sleep : D → E)
    (P : List E → Type 0) (fn : Io E A) where
  pub backoff_trace :
      (n : ℕ) (delay wait : D) (t : List E)
      → ((u : List E) → P u → P (fn u).1)
      → ((d : D) (u : List E) → P u → P (sleep d ∷ u))
      → P t
      → P (backoff product default_wait sleep n fn delay wait t).1
  unfolding backoff
  backoff_trace zero delay wait t f s h = catch_trace P fn throw t (f t h) (λ e _. f t h)
  backoff_trace (suc zero) delay wait t f s h = catch_trace P fn throw t (f t h) (λ e _. f t h)
  backoff_trace (suc (suc n)) delay wait t f s h =
      catch_trace P fn _ t (f t h)
        (λ e _. backoff_trace (suc n) (product delay wait) default_wait _ f s (s delay _ (f t h)))

module _ {D E A : Type 0} (product : D → D → D) (default_wait : D) (sleep : D → E)
    (fn : Io E A) where
  pub backoff-IsAlive :
      (n : ℕ) (delay wait : D) (t : List E)
      → ((u : List E) → IsAlive (fn u).0)
      → IsAlive (backoff product default_wait sleep n fn delay wait t).0
  unfolding backoff
  backoff-IsAlive zero delay wait t f = catch-IsAlive fn throw t (f t) (λ e. tt)
  backoff-IsAlive (suc zero) delay wait t f = catch-IsAlive fn throw t (f t) (λ e. tt)
  backoff-IsAlive (suc (suc n)) delay wait t f =
      catch-IsAlive fn _ t (f t)
        (λ e. backoff-IsAlive (suc n) (product delay wait) default_wait _ f)

module _ {D E A : Type 0} (product : D → D → D) (default_wait : D) (sleep : D → E) (Q : A → Type 0)
    (fn : Io E A) where
  -- What holds of the result of each attempt holds of the result of the whole.
  pub backoff-Returns :
      (n : ℕ) (delay wait : D) (t : List E)
      → ((u : List E) → Returns (λ a _. Q a) (fn u))
      → Returns (λ a _. Q a) (backoff product default_wait sleep n fn delay wait t)
  unfolding backoff
  backoff-Returns zero delay wait t f = catch-Returns (λ a _. Q a) fn throw t (f t) (λ e _. tt)
  backoff-Returns (suc zero) delay wait t f =
      catch-Returns (λ a _. Q a) fn throw t (f t) (λ e _. tt)
  backoff-Returns (suc (suc n)) delay wait t f =
      catch-Returns (λ a _. Q a) fn _ t (f t)
        (λ e _. backoff-Returns (suc n) (product delay wait) default_wait _ f)
