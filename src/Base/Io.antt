-- ===== src/Base/Io.antt =====
-- Asynchronous JavaScript functions. A run appends what it does to a trace, the latest event first,
-- and everything outside the program answers as a function of the trace so far. Exceptions are
-- values; `process.exit` is an outcome that no handler catches.
pub mod Rules
pub mod Survival
pub mod Within
use Prim.Native.String.{String, ◌++◌ as ◌<>◌}
use mathlib.Core.List.{List, ◌∷◌}
use Prim.Native.Nat.{ℕ}

-- An `Error` object: the fields that the program reads. A field that is absent is "".
pub record JsError : Type 0 where
  pub name : String
  pub message : String
  pub type : String
  pub reason : String
  pub signature : String

-- new Error(message)
abbrev pub js_error : String → JsError
js_error m = record { name = "Error"; message = m; type = ""; reason = ""; signature = "" }

-- e.toString()
abbrev pub to_string : JsError → String
to_string e = e.name <> (": " <> e.message)

-- How a promise from outside settles. `pending` never settles.
pub data Reply (A : Type 0) : Type 0 where
  resolve : A → Reply A
  reject : JsError → Reply A
  pending : Reply A

-- `hangs` waits for a promise that never settles; `out_of_fuel` has no counterpart in the program.
pub data Outcome (A : Type 0) : Type 0 where
  ok : A → Outcome A
  err : JsError → Outcome A
  exit : ℕ → Outcome A
  hangs : Outcome A
  out_of_fuel : Outcome A

abbrev pub Io : Type 0 → Type 0 → Type 0
Io E A = List E → Outcome A × List E

abbrev pub settle : {A : Type 0} → Reply A → Outcome A
settle (resolve a) = ok a
settle (reject e) = err e
settle pending = hangs

module _ {E A : Type 0} where
  abbrev pub pure : A → Io E A
  pure a t = (ok a, t)

  abbrev pub throw : JsError → Io E A
  throw e t = (err e, t)

  -- no rounds are left
  abbrev pub starved : Io E A
  starved t = (out_of_fuel, t)

  -- process.exit(code)
  abbrev pub process_exit : ℕ → Io E A
  process_exit n t = (exit n, t)

  -- await of a call that leaves the program
  abbrev pub call : E → (List E → Reply A) → Io E A
  call e answer t = (settle (answer (e ∷ t)), e ∷ t)

  abbrev pub catch_case : (JsError → Io E A) → Outcome A → Io E A
  catch_case h (ok a) t = (ok a, t)
  catch_case h (err e) t = h e t
  catch_case h (exit n) t = (exit n, t)
  catch_case h hangs t = (hangs, t)
  catch_case h out_of_fuel t = (out_of_fuel, t)

  -- try { m } catch (e) { h e }
  abbrev pub catch : Io E A → (JsError → Io E A) → Io E A
  catch m h t = let (r, t') = m t in catch_case h r t'

-- an effect with no answer
abbrev pub emit : {E : Type 0} → E → Io E (Unit {0})
emit e t = (ok tt, e ∷ t)

module _ {E A B : Type 0} where
  abbrev pub bind_case : (A → Io E B) → Outcome A → Io E B
  bind_case f (ok a) t = f a t
  bind_case f (err e) t = (err e, t)
  bind_case f (exit n) t = (exit n, t)
  bind_case f hangs t = (hangs, t)
  bind_case f out_of_fuel t = (out_of_fuel, t)

  infixl 10 ◌>>=◌ ◌>>◌
  abbrev pub ◌>>=◌ : Io E A → (A → Io E B) → Io E B
  ◌>>=◌ m f t = let (r, t') = m t in bind_case f r t'

  abbrev pub ◌>>◌ : Io E A → Io E B → Io E B
  m >> n = m >>= λ _. n

  -- try { a ← m } catch (e) { h e }, and then f a: the handler does not cover f.
  abbrev pub try_case : (A → Io E B) → (JsError → Io E B) → Outcome A → Io E B
  try_case f h (ok a) t = f a t
  try_case f h (err e) t = h e t
  try_case f h (exit n) t = (exit n, t)
  try_case f h hangs t = (hangs, t)
  try_case f h out_of_fuel t = (out_of_fuel, t)

  abbrev pub try : Io E A → (A → Io E B) → (JsError → Io E B) → Io E B
  try m f h t = let (r, t') = m t in try_case f h r t'

-- promiseWithTimeout of utils/robust.js: a promise that does not settle in time rejects.
abbrev pub with_timeout : {A : Type 0} → String → Reply A → Reply A
with_timeout message (resolve a) = resolve a
with_timeout message (reject e) = reject e
with_timeout message pending = reject (js_error message)

-- A synchronous call that may throw.
abbrev pub lift : {E A : Type 0} → Outcome A → Io E A
lift o t = (o, t)
