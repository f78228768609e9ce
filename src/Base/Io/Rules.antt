-- ===== src/Base/Io/Rules.antt =====
-- Rules for the traces and the results of composed actions.
use mathlib.Core.Path.{◌≡◌, refl, ap}
use mathlib.Core.List.{List, ◌∷◌}
use mathlib.Core.Bool.{Bool, true, false}
use rainbow_bridge_cli.Base.Tests.{if◌then◌else◌}
use rainbow_bridge_cli.Base.Io.{
  JsError, Reply, resolve, reject, pending, settle, Outcome, ok, err, exit, hangs, out_of_fuel, Io,
  call, lift, catch, catch_case, try, try_case, bind_case, ◌>>=◌,
}

pub settle-ok : {A : Type 0} {a : A} (r : Reply A) → settle r ≡ ok a → r ≡ resolve a
settle-ok (resolve b) e = cc
settle-ok (reject x) e = cc
settle-ok pending e = cc

module _ {E A B : Type 0} (P : List E → Type 0) where
  -- What holds of the trace after each way on holds of the trace after the whole.
  pub try_trace :
      (m : Io E A) (f : A → Io E B) (h : JsError → Io E B) (t : List E)
      → P (m t).1
      → ((a : A) → (m t).0 ≡ ok a → P (f a (m t).1).1)
      → ((e : JsError) → (m t).0 ≡ err e → P (h e (m t).1).1)
      → P (try m f h t).1
  try_trace m f h t p q r = go (m t).0 refl
    where
      go : (o : Outcome A) → (m t).0 ≡ o → P (try_case f h o (m t).1).1
      go (ok a) e = q a e
      go (err x) e = r x e
      go (exit n) e = p
      go hangs e = p
      go out_of_fuel e = p

  pub bind_trace :
      (m : Io E A) (f : A → Io E B) (t : List E)
      → P (m t).1
      → ((a : A) → (m t).0 ≡ ok a → P (f a (m t).1).1)
      → P ((m >>= f) t).1
  bind_trace m f t p q = go (m t).0 refl
    where
      go : (o : Outcome A) → (m t).0 ≡ o → P (bind_case f o (m t).1).1
      go (ok a) e = q a e
      go (err x) e = p
      go (exit n) e = p
      go hangs e = p
      go out_of_fuel e = p

module _ {E A : Type 0} (P : List E → Type 0) where
  pub catch_trace :
      (m : Io E A) (h : JsError → Io E A) (t : List E)
      → P (m t).1
      → ((e : JsError) → (m t).0 ≡ err e → P (h e (m t).1).1)
      → P (catch m h t).1
  catch_trace m h t p r = go (m t).0 refl
    where
      go : (o : Outcome A) → (m t).0 ≡ o → P (catch_case h o (m t).1).1
      go (ok a) e = p
      go (err x) e = r x e
      go (exit n) e = p
      go hangs e = p
      go out_of_fuel e = p

  pub if_trace :
      (b : Bool) (m n : Io E A) (t : List E) → P (m t).1 → P (n t).1 → P ((if b then m else n) t).1
  if_trace true m n t p q = p
  if_trace false m n t p q = q

  pub if_trace_by :
      (b : Bool) (m n : Io E A) (t : List E)
      → (b ≡ true → P (m t).1)
      → (b ≡ false → P (n t).1)
      → P ((if b then m else n) t).1
  if_trace_by true m n t p q = p refl
  if_trace_by false m n t p q = q refl

-- `Q` holds of the value and the trace, if there is a value.
abbrev pub Returns {ℓ} : {E A : Type 0} → (A → List E → Type ℓ) → Outcome A × List E → Type ℓ
Returns Q (ok a, t) = Q a t
Returns Q (err e, t) = Unit
Returns Q (exit n, t) = Unit
Returns Q (hangs, t) = Unit
Returns Q (out_of_fuel, t) = Unit

module _ {E A B : Type 0} (Q : B → List E → Type 0) where
  pub try-Returns :
      (m : Io E A) (f : A → Io E B) (h : JsError → Io E B) (t : List E)
      → ((a : A) → (m t).0 ≡ ok a → Returns Q (f a (m t).1))
      → ((e : JsError) → (m t).0 ≡ err e → Returns Q (h e (m t).1))
      → Returns Q (try m f h t)
  try-Returns m f h t q r = go (m t).0 refl
    where
      go : (o : Outcome A) → (m t).0 ≡ o → Returns Q (try_case f h o (m t).1)
      go (ok a) e = q a e
      go (err x) e = r x e
      go (exit n) e = tt
      go hangs e = tt
      go out_of_fuel e = tt

  pub bind-Returns :
      (m : Io E A) (f : A → Io E B) (t : List E)
      → ((a : A) → (m t).0 ≡ ok a → Returns Q (f a (m t).1))
      → Returns Q ((m >>= f) t)
  bind-Returns m f t q = go (m t).0 refl
    where
      go : (o : Outcome A) → (m t).0 ≡ o → Returns Q (bind_case f o (m t).1)
      go (ok a) e = q a e
      go (err x) e = tt
      go (exit n) e = tt
      go hangs e = tt
      go out_of_fuel e = tt

module _ {E A : Type 0} (Q : A → List E → Type 0) where
  pub if_Returns :
      (b : Bool) (m n : Io E A) (t : List E)
      → (b ≡ true → Returns Q (m t))
      → (b ≡ false → Returns Q (n t))
      → Returns Q ((if b then m else n) t)
  if_Returns true m n t p q = p refl
  if_Returns false m n t p q = q refl

  pub Returns-ok :
      {m : Outcome A × List E} {a : A} {t : List E} → Returns Q m → m ≡ (ok a, t) → Q a t
  Returns-ok h e = rw e at h

  pub Returns-at : (m : Outcome A × List E) {a : A} → Returns Q m → m.0 ≡ ok a → Q a m.1
  Returns-at (ok b, t) {a} h e = let q : b ≡ a = cc in rw q at h
  Returns-at (err x, t) h e = cc
  Returns-at (exit n, t) h e = cc
  Returns-at (hangs, t) h e = cc
  Returns-at (out_of_fuel, t) h e = cc

module _ {E A : Type 0} (Q : A → List E → Type 0) where
  pub catch-Returns :
      (m : Io E A) (h : JsError → Io E A) (t : List E)
      → Returns Q (m t)
      → ((e : JsError) → (m t).0 ≡ err e → Returns Q (h e (m t).1))
      → Returns Q (catch m h t)
  catch-Returns m h t q r = go (m t) refl q
    where
      go : (o : Outcome A × List E) → o ≡ m t → Returns Q o → Returns Q (catch_case h o.0 o.1)
      go (ok a, u) e q = q
      go (err x, u) e q = let f : (m t).0 ≡ err x = rw (← e) refl in rw (← e) at (r x f)
      go (exit n, u) e q = tt
      go (hangs, u) e q = tt
      go (out_of_fuel, u) e q = tt

  -- A result is the result.
  pub Returns-same : (m : Outcome A × List E) → ((a : A) → m.0 ≡ ok a → Q a m.1) → Returns Q m
  Returns-same (ok a, t) k = k a refl
  Returns-same (err x, t) k = tt
  Returns-same (exit n, t) k = tt
  Returns-same (hangs, t) k = tt
  Returns-same (out_of_fuel, t) k = tt

  pub lift-Returns :
      (o : Outcome A) (t : List E) → ((a : A) → o ≡ ok a → Q a t) → Returns Q (lift o t)
  lift-Returns (ok a) t k = k a refl
  lift-Returns (err x) t k = tt
  lift-Returns (exit n) t k = tt
  lift-Returns hangs t k = tt
  lift-Returns out_of_fuel t k = tt

  pub call-Returns :
      (e : E) (answer : List E → Reply A) (t : List E)
      → ((a : A) → answer (e ∷ t) ≡ resolve a → Q a (e ∷ t))
      → Returns Q (call e answer t)
  call-Returns e answer t k =
      lift-Returns (settle (answer (e ∷ t))) (e ∷ t) (λ a p. k a (settle-ok (answer (e ∷ t)) p))

module _ {E A : Type 0} {R Q : A → List E → Type 0} where
  pub Returns-map :
      (m : Outcome A × List E) → Returns R m → ((a : A) (t : List E) → R a t → Q a t) → Returns Q m
  Returns-map (ok a, t) h k = k a t h
  Returns-map (err e, t) h k = tt
  Returns-map (exit n, t) h k = tt
  Returns-map (hangs, t) h k = tt
  Returns-map (out_of_fuel, t) h k = tt

module _ {E A B : Type 0} (R : A → List E → Type 0) (Q : B → List E → Type 0) where
  -- What `R` says of the first result may be used for the second.
  pub bind_after :
      (m : Io E A) (f : A → Io E B) (t : List E)
      → Returns R (m t)
      → ((a : A) (u : List E) → R a u → Returns Q (f a u))
      → Returns Q ((m >>= f) t)
  bind_after m f t h k = go (m t) h
    where
      go : (r : Outcome A × List E) → Returns R r → Returns Q (bind_case f r.0 r.1)
      go (ok a, u) h = k a u h
      go (err x, u) h = tt
      go (exit n, u) h = tt
      go (hangs, u) h = tt
      go (out_of_fuel, u) h = tt

-- What is equal if two results are.
pub ok_pair :
    {E A : Type 0} {a b : A} {t u : List E}
    → ◌≡◌ {A = Outcome A × List E} (ok a, t) (ok b, u)
    → (a ≡ b) × (t ≡ u)
ok_pair {E} {A} {a} {b} h =
    let q : ◌≡◌ {A = Outcome A} (ok a) (ok b) = ap (λ x. x.0) h in (cc, ap (λ x. x.1) h)
