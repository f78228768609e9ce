-- ===== src/Base/Io/Within.antt =====
-- A part of the program with events of its own runs within a larger one: it sees its own events of
-- the trace, and its new events stand in the trace among the others.
use Prim.Native.Nat.{◌-◌}
use mathlib.Core.Path.{◌≡◌, refl, ap}
use mathlib.Core.Option.{Option, none, some}
use mathlib.Core.List.{List, [], ◌∷◌, ◌++◌, map}
use native.Mathlib.Omega.{arith}
use rainbow_bridge_cli.Base.Lists.{length, take, All, length-append}
use rainbow_bridge_cli.Base.Io.{Outcome, ok, err, exit, hangs, out_of_fuel, Io}
use rainbow_bridge_cli.Base.Io.Rules.{Returns}
use rainbow_bridge_cli.Base.Io.Survival.{IsAlive}

-- The second trace has new events on top of the first, and `Q` holds of each.
pub data Extends {F : Type 0} (Q : F → Type 0) (t : List F) : List F → Type 0 where
  same : Extends Q t t
  more : {f : F} {u : List F} → Q f → Extends Q t u → Extends Q t (f ∷ u)

-- What one type of events takes of another: its own, and how they stand in the larger one.
pub record Part (F E : Type 0) : Type 0 where
  pub embed : F → E
  pub project : E → Option F

abbrev pub keep {ℓ} : {A : Type ℓ} → Option A → List A → List A
keep none xs = xs
keep (some x) xs = x ∷ xs

module _ {F E : Type 0} (p : Part F E) where
  abbrev pub own : List E → List F
  own [] = []
  own (e ∷ t) = keep (p.project e) (own t)

  abbrev pub rejoin : {A : Type 0} → List E → Outcome A × List F → Outcome A × List E
  rejoin t (r, u) = (r, map p.embed (take (length u - length (own t)) u) ++ t)

  unfoldable pub within : {A : Type 0} → Io F A → Io E A
  within m t = rejoin t (m (own t))

  -- A property of traces that no event of the part changes is kept.
  pub within_trace :
      {A : Type 0} (P : List E → Type 0) (m : Io F A) (t : List E)
      → ((f : F) (u : List E) → P u → P (p.embed f ∷ u))
      → P t
      → P (within m t).1
  unfolding within
  within_trace P m t keeps h = grown (take (length (m (own t)).1 - length (own t)) (m (own t)).1)
    where
      grown : (fs : List F) → P (map p.embed fs ++ t)
      grown [] = h
      grown (f ∷ fs) = keeps f _ (grown fs)

  take_new : (fs t : List F) → take (length (fs ++ t) - length t) (fs ++ t) ≡ fs
  take_new fs t =
      let e : length (fs ++ t) - length t ≡ length fs = omega (arith, length-append fs t) in
      rw e (prefix fs)
    where
      prefix : (fs : List F) → take (length fs) (fs ++ t) ≡ fs
      prefix [] = refl
      prefix (f ∷ fs) = ap (λ x. f ∷ x) (prefix fs)

  new_of :
      {Q : F → Type 0} {t u : List F} → Extends Q t u → (fs : List F) × (u ≡ fs ++ t) × All Q fs
  new_of same = ([], refl, tt)
  new_of (more {f = f} q x) = let (fs, e, a) = new_of x in (f ∷ fs, ap (λ y. f ∷ y) e, (q, a))

  -- A property of traces that the new events keep.
  pub within-Extends :
      {A : Type 0} (Q : F → Type 0) (P : List E → Type 0) (m : Io F A) (t : List E)
      → Extends Q (own t) (m (own t)).1
      → ((f : F) (u : List E) → Q f → P u → P (p.embed f ∷ u))
      → P t
      → P (within m t).1
  unfolding within
  within-Extends Q P m t x keeps h = let (fs, e, a) = new_of x in rw e (rw take_new (grown fs a))
    where
      grown : (fs : List F) → All Q fs → P (map p.embed fs ++ t)
      grown [] a = h
      grown (f ∷ fs) (q, a) = keeps f _ q (grown fs a)

  -- What holds of the results of the part holds of those of the whole.
  pub within-Returns :
      {A : Type 0} (Q : A → Type 0) (m : Io F A) (t : List E)
      → Returns (λ a u. Q a) (m (own t))
      → Returns (λ a u. Q a) (within m t)
  unfolding within
  within-Returns {A} Q m t h = rejoined (m (own t)) h
    where
      rejoined :
          (r : Outcome A × List F) → Returns (λ a u. Q a) r → Returns (λ a u. Q a) (rejoin t r)
      rejoined (ok a, u) h = h
      rejoined (err e, u) h = tt
      rejoined (exit n, u) h = tt
      rejoined (hangs, u) h = tt
      rejoined (out_of_fuel, u) h = tt

  pub within-IsAlive :
      {A : Type 0} (m : Io F A) (t : List E) → IsAlive (m (own t)).0 → IsAlive (within m t).0
  unfolding within
  within-IsAlive m t h = h
