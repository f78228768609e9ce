-- ===== src/Retry/Attempts.antt =====
-- Which attempt decides the result of `retry` and `backoff`, and how many attempts there are.
use rainbow_bridge_cli.Base.{
  ℕ, zero, suc, ◌+◌, ◌≤◌, ◌<◌, max, ◌≡◌, refl, ◌⊎◌, inl, inr, List, ◌∷◌, arith,
}
use rainbow_bridge_cli.Base.Io.{JsError, Outcome, err, Io, throw, catch_case}
use rainbow_bridge_cli.Retry.{retry, backoff}

-- The outcome is no exception.
abbrev pub HasSettled : {A : Type 0} → Outcome A → Type 0
HasSettled (err e) = ⊥
HasSettled _ = Unit

module _ {E A : Type 0} where
  catch_case-throw : (r : Outcome A) (t : List E) → catch_case throw r t ≡ (r, t)
  catch_case-throw (err e) t = refl
  catch_case-throw _ t = refl

  catch_case_settled :
      (h : JsError → Io E A) (r : Outcome A) (t : List E) → HasSettled r → catch_case h r t ≡ (r, t)
  catch_case_settled h (err e) t s = absurd s
  catch_case_settled h _ t s = refl

  catch_case_bound :
      (count : List E → ℕ) (b : ℕ) (h : JsError → Io E A) (r : Outcome A) (t : List E)
      → count t ≤ b
      → ((e : JsError) → count (h e t).1 ≤ b)
      → count (catch_case h r t).1 ≤ b
  catch_case_bound count b h (err e) t p q = q e
  catch_case_bound count b h _ t p q = p

sooner :
    {A : Type 0} {k n : ℕ} (r : Outcome A)
    → HasSettled r ⊎ (suc n ≡ suc (suc k))
    → HasSettled r ⊎ (n ≡ suc k)
sooner r (inl s) = inl s
sooner r (inr e) = inr (omega arith)

module _ {E A : Type 0} (fn : Io E A) where
  -- `k` attempts in a row throw, from the trace `t` to the trace `t'`.
  pub data Fails : ℕ → List E → List E → Type 0 where
    here : {t : List E} → Fails zero t t
    again :
        {k : ℕ} {t u t' : List E} (e : JsError)
        → fn t ≡ (err e, u)
        → Fails k u t'
        → Fails (suc k) t t'

  -- If the first `k` attempts throw, and the next one, which `n` allows, does not throw or is the
  -- last of the `n`, then `retry n` has the outcome and the trace of that attempt.
  pub retry_attempts :
      (n : ℕ) {k : ℕ} {t t' u : List E} (r : Outcome A)
      → Fails k t t'
      → k < n
      → HasSettled r ⊎ (n ≡ suc k)
      → fn t' ≡ (r, u)
      → retry n fn t ≡ (r, u)
  unfolding retry
  retry_attempts zero r f h s p = absurd (omega arith)
  retry_attempts (suc zero) r here h s p = rw p (catch_case-throw r _)
  retry_attempts (suc zero) r (again e q f) h s p = absurd (omega arith)
  retry_attempts (suc (suc n)) r here h (inl s) p = rw p (catch_case_settled _ r _ s)
  retry_attempts (suc (suc n)) r here h (inr e) p = absurd (omega arith)
  retry_attempts (suc (suc n)) r (again e q f) h s p =
      rw q (retry_attempts (suc n) r f (omega arith) (sooner r s) p)

module _ {D E : Type 0} (product : D → D → D) (default_wait : D) (sleep : D → E) where
  module _ {A : Type 0} (fn : Io E A) where
    -- `k` attempts in a row throw, with a pause after each.
    pub data FailsSlowly : ℕ → D → D → List E → List E → Type 0 where
      here : {delay wait : D} {t : List E} → FailsSlowly zero delay wait t t
      again :
          {k : ℕ} {delay wait : D} {t u t' : List E} (e : JsError)
          → fn t ≡ (err e, u)
          → FailsSlowly k (product delay wait) default_wait (sleep delay ∷ u) t'
          → FailsSlowly (suc k) delay wait t t'

    -- If the first `k` attempts throw, each followed by its pause, and the next one, which `n`
    -- allows, does not throw or is the last of the `n`, then `backoff n` has the outcome and the
    -- trace of that attempt: no pause follows it.
    pub backoff_attempts :
        (n : ℕ) {k : ℕ} {delay wait : D} {t t' u : List E} (r : Outcome A)
        → FailsSlowly k delay wait t t'
        → k < n
        → HasSettled r ⊎ (n ≡ suc k)
        → fn t' ≡ (r, u)
        → backoff product default_wait sleep n fn delay wait t ≡ (r, u)
    unfolding backoff
    backoff_attempts zero r f h s p = absurd (omega arith)
    backoff_attempts (suc zero) r here h s p = rw p (catch_case-throw r _)
    backoff_attempts (suc zero) r (again e q f) h s p = absurd (omega arith)
    backoff_attempts (suc (suc n)) r here h (inl s) p = rw p (catch_case_settled _ r _ s)
    backoff_attempts (suc (suc n)) r here h (inr e) p = absurd (omega arith)
    backoff_attempts (suc (suc n)) r (again e q f) h s p =
        rw q (backoff_attempts (suc n) r f (omega arith) (sooner r s) p)

    module _ (count : List E → ℕ) (one : (t : List E) → count (fn t).1 ≤ count t + 1)
        (free : (d : D) (t : List E) → count (sleep d ∷ t) ≤ count t) where
      -- Where one attempt adds at most one to a count of events, and a pause adds nothing,
      -- `backoff n` adds at most `n`, and at most one if `n` is zero.
      pub backoff_bound :
          (n : ℕ) (delay wait : D) (t : List E)
          → count (backoff product default_wait sleep n fn delay wait t).1 ≤ count t + max 1 n
      unfolding backoff
      backoff_bound zero delay wait t =
          catch_case_bound count _ throw (fn t).0 (fn t).1 (one t) (λ e. one t)
      backoff_bound (suc zero) delay wait t =
          catch_case_bound count _ throw (fn t).0 (fn t).1 (one t) (λ e. one t)
      backoff_bound (suc (suc n)) delay wait t =
          catch_case_bound count _ _ (fn t).0 (fn t).1 (omega (arith, one t)) λ e. omega (
            arith,
            one t,
            free delay (fn t).1,
            backoff_bound (suc n) (product delay wait) default_wait (sleep delay ∷ (fn t).1),
          )
