-- ===== src/Base/Io/Survival.antt =====
-- Actions that do not end the program: they return, throw or wait, but do not call `process.exit`
-- and do not run out of fuel.
use mathlib.Core.Path.{◌≡◌, refl}
use mathlib.Core.List.{List}
use mathlib.Core.Bool.{Bool, true, false}
use rainbow_bridge_cli.Base.Tests.{if◌then◌else◌}
use rainbow_bridge_cli.Base.Io.{
  JsError, Outcome, ok, err, exit, hangs, out_of_fuel, Reply, resolve, reject, pending, settle, Io,
  catch, catch_case, try, try_case, bind_case, ◌>>=◌,
}

abbrev pub IsAlive : {A : Type 0} → Outcome A → Type 0
IsAlive (ok a) = Unit
IsAlive (err e) = Unit
IsAlive (exit n) = ⊥
IsAlive hangs = Unit
IsAlive out_of_fuel = ⊥

-- It does not throw either.
abbrev pub IsCalm : {A : Type 0} → Outcome A → Type 0
IsCalm (ok a) = Unit
IsCalm (err e) = ⊥
IsCalm (exit n) = ⊥
IsCalm hangs = Unit
IsCalm out_of_fuel = ⊥

pub settle-IsAlive : {A : Type 0} (r : Reply A) → IsAlive (settle r)
settle-IsAlive (resolve a) = tt
settle-IsAlive (reject e) = tt
settle-IsAlive pending = tt

module _ {E A B : Type 0} where
  pub bind-IsAlive :
      (m : Io E A) (f : A → Io E B) (t : List E)
      → IsAlive (m t).0
      → ((a : A) → (m t).0 ≡ ok a → IsAlive (f a (m t).1).0)
      → IsAlive ((m >>= f) t).0
  bind-IsAlive m f t p q = go (m t).0 refl p
    where
      go : (o : Outcome A) → (m t).0 ≡ o → IsAlive o → IsAlive (bind_case f o (m t).1).0
      go (ok a) e k = q a e
      go (err x) e k = tt
      go (exit n) e k = k
      go hangs e k = tt
      go out_of_fuel e k = k

  pub bind-IsCalm :
      (m : Io E A) (f : A → Io E B) (t : List E)
      → IsCalm (m t).0
      → ((a : A) → (m t).0 ≡ ok a → IsCalm (f a (m t).1).0)
      → IsCalm ((m >>= f) t).0
  bind-IsCalm m f t p q = go (m t).0 refl p
    where
      go : (o : Outcome A) → (m t).0 ≡ o → IsCalm o → IsCalm (bind_case f o (m t).1).0
      go (ok a) e k = q a e
      go (err x) e k = k
      go (exit n) e k = k
      go hangs e k = tt
      go out_of_fuel e k = k

  pub try-IsAlive :
      (m : Io E A) (f : A → Io E B) (h : JsError → Io E B) (t : List E)
      → IsAlive (m t).0
      → ((a : A) → (m t).0 ≡ ok a → IsAlive (f a (m t).1).0)
      → ((e : JsError) → (m t).0 ≡ err e → IsAlive (h e (m t).1).0)
      → IsAlive (try m f h t).0
  try-IsAlive m f h t p q r = go (m t).0 refl p
    where
      go : (o : Outcome A) → (m t).0 ≡ o → IsAlive o → IsAlive (try_case f h o (m t).1).0
      go (ok a) e k = q a e
      go (err x) e k = r x e
      go (exit n) e k = k
      go hangs e k = tt
      go out_of_fuel e k = k

module _ {E A : Type 0} where
  pub catch-IsCalm :
      (m : Io E A) (h : JsError → Io E A) (t : List E)
      → IsAlive (m t).0
      → ((e : JsError) → (m t).0 ≡ err e → IsCalm (h e (m t).1).0)
      → IsCalm (catch m h t).0
  catch-IsCalm m h t p r = go (m t).0 refl p
    where
      go : (o : Outcome A) → (m t).0 ≡ o → IsAlive o → IsCalm (catch_case h o (m t).1).0
      go (ok a) e k = tt
      go (err x) e k = r x e
      go (exit n) e k = k
      go hangs e k = tt
      go out_of_fuel e k = k

  pub catch-IsAlive :
      (m : Io E A) (h : JsError → Io E A) (t : List E)
      → IsAlive (m t).0
      → ((e : JsError) → IsAlive (h e (m t).1).0)
      → IsAlive (catch m h t).0
  catch-IsAlive m h t p r = go (m t).0 p
    where
      go : (o : Outcome A) → IsAlive o → IsAlive (catch_case h o (m t).1).0
      go (ok a) k = tt
      go (err x) k = r x
      go (exit n) k = k
      go hangs k = tt
      go out_of_fuel k = k

  pub if-IsAlive :
      (b : Bool) (m n : Io E A) (t : List E)
      → (b ≡ true → IsAlive (m t).0)
      → (b ≡ false → IsAlive (n t).0)
      → IsAlive ((if b then m else n) t).0
  if-IsAlive true m n t p q = p refl
  if-IsAlive false m n t p q = q refl

pub IsCalm-IsAlive : {A : Type 0} (o : Outcome A) → IsCalm o → IsAlive o
IsCalm-IsAlive (ok a) k = tt
IsCalm-IsAlive (err e) k = tt
IsCalm-IsAlive (exit n) k = k
IsCalm-IsAlive hangs k = tt
IsCalm-IsAlive out_of_fuel k = k
