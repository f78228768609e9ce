-- ===== src/Accounts/Verify.antt =====
-- What it means that an account of utils/helpers.js has been verified.
use rainbow_bridge_cli.Base.{
  String, Bool, true, false, Option, none, some, List, [], ◌∷◌, ◌===◌, ◌||◌, ◌≡◌, refl, inl, inr,
  Bool-cases, if◌then◌else◌, eq_iff,
}
use rainbow_bridge_cli.Base.Io.{
  Outcome, ok, err, exit, hangs, out_of_fuel, Reply, resolve, reject, pending,
}
use rainbow_bridge_cli.Base.Io.Rules.{Returns, Returns-ok, ok_pair}
use rainbow_bridge_cli.Accounts.{
  fetch_state, get_key, get_access_keys, Trace, NearAccounts, has_key, account_exists,
  account_has_the_key, verify_account, verify_account_gently,
}

-- The text stands in the list.
pub data In (x : String) : List String → Type 0 where
  here : {xs : List String} → In x (x ∷ xs)
  there : {y : String} {xs : List String} → In x xs → In x (y ∷ xs)

has_key-In : (k : String) (xs : List String) → has_key (some k) xs ≡ true → In k xs
unfolding has_key
has_key-In k [] h = cc
has_key-In k (x ∷ xs) h = found (has_key-In k xs) (x === k) refl h
  where
    found :
        (has_key (some k) xs ≡ true → In k xs)
        → (b : Bool) → (x === k) ≡ b
        → (b || has_key (some k) xs) ≡ true
        → In k (x ∷ xs)
    found rest true e h = let q : x ≡ k = (eq_iff x k).0 e in rw q here
    found rest false e h = there (rest h)

module _ (near : NearAccounts) (id : String) where
  -- After the trace `t`, the account's state can be read, and the key of the store is one of its keys.
  pub record Verified (t : Trace) : Type 0 where
    pub key : String
    pub keys : List String
    pub exists : near.state id (fetch_state id ∷ t) ≡ resolve tt
    pub stored : near.key id (get_key id ∷ fetch_state id ∷ t) ≡ resolve (some key)
    pub listed :
        near.access_keys id (get_access_keys id ∷ get_key id ∷ fetch_state id ∷ t) ≡ resolve keys
    pub found : In key keys

  verified : (t : Trace) → Returns (λ b u. (b ≡ true) × Verified t) (verify_account near id t)
  unfolding verify_account account_exists account_has_the_key has_key
  verified t = exists (near.state id (fetch_state id ∷ t)) refl
    where
      Q : Bool → Trace → Type 0
      Q b u = (b ≡ true) × Verified t

      listed :
          (key : Option String) (a : Reply (List String))
          → near.state id (fetch_state id ∷ t) ≡ resolve tt
          → near.key id (get_key id ∷ fetch_state id ∷ t) ≡ resolve key
          → near.access_keys id (get_access_keys id ∷ get_key id ∷ fetch_state id ∷ t) ≡ a
          → Returns Q (verify_account near id t)
      listed none (resolve []) p q r = simp (p, q, r) tt
      listed none (resolve (x ∷ xs)) p q r = simp (p, q, r) tt
      listed (some k) (resolve xs) p q r = elim (Bool-cases (has_key (some k) xs)) [
        | inl h ↦
            simp (p, q, r, h)
              (
                refl,
                record {
                  key = k;
                  keys = xs;
                  exists = p;
                  stored = q;
                  listed = r;
                  found = has_key-In k xs h;
                },
              )
        | inr h ↦ simp (p, q, r, h) tt
      ]
      listed key (reject x) p q r = simp (p, q, r) tt
      listed key pending p q r = simp (p, q, r) tt

      stored :
          (a : Reply (Option String))
          → near.state id (fetch_state id ∷ t) ≡ resolve tt
          → near.key id (get_key id ∷ fetch_state id ∷ t) ≡ a
          → Returns Q (verify_account near id t)
      stored (resolve key) p q =
          listed key (near.access_keys id (get_access_keys id ∷ get_key id ∷ fetch_state id ∷ t)) p
            q refl
      stored (reject x) p q = simp (p, q) tt
      stored pending p q = simp (p, q) tt

      exists :
          (a : Reply (Unit {0}))
          → near.state id (fetch_state id ∷ t) ≡ a
          → Returns Q (verify_account near id t)
      exists (resolve u) p = stored (near.key id (get_key id ∷ fetch_state id ∷ t)) p refl
      exists (reject x) p = simp p tt
      exists pending p = simp p tt

  -- If `verifyAccount` returns, then it returns true, the account's state can be read, and the key of
  -- the key store is one of the account's access keys.
  pub verify_account-Verified :
      (t u : Trace) (b : Bool) → verify_account near id t ≡ (ok b, u) → (b ≡ true) × Verified t
  verify_account-Verified t u b e = Returns-ok (λ b u. (b ≡ true) × Verified t) (verified t) e

  -- Where `verifyAccountGently` returns an answer, `verifyAccount` asks the same: it returns true if
  -- the answer is true, and ends the program with code 1 if it is false.
  pub verify_account-gently :
      (t u : Trace) (b : Bool)
      → verify_account_gently near id t ≡ (ok b, u)
      → verify_account near id t ≡ (if b then ok true else exit 1, u)
  unfolding verify_account verify_account_gently
  verify_account-gently t u b e = exists (account_exists near id t) refl e
    where
      Goal : Type 0
      Goal = verify_account near id t ≡ (if b then ok true else exit 1, u)

      has :
          (v : Trace)
          → account_exists near id t ≡ (ok true, v)
          → (r : Outcome Bool × Trace) → account_has_the_key near id v ≡ r
          → r ≡ (ok b, u)
          → Goal
      has v p (ok true, w) q e = let h = ok_pair e in rw p (rw q (rw (← h.0) (rw h.1)))
      has v p (ok false, w) q e = let h = ok_pair e in rw p (rw q (rw (← h.0) (rw h.1)))
      has v p (err x, w) q e = cc
      has v p (exit n, w) q e = cc
      has v p (hangs, w) q e = cc
      has v p (out_of_fuel, w) q e = cc

      exists :
          (r : Outcome Bool × Trace)
          → account_exists near id t ≡ r
          → verify_account_gently near id t ≡ (ok b, u)
          → Goal
      exists (ok true, v) p e = has v p (account_has_the_key near id v) refl (rw p at e)
      exists (ok false, v) p e =
          let g : ◌≡◌ {A = Outcome Bool × Trace} (ok false, v) (ok b, u) = rw p at e in
          let h = ok_pair g in rw p (rw (← h.0) (rw h.1))
      exists (err x, v) p e =
          let h : ◌≡◌ {A = Outcome Bool × Trace} (err x, v) (ok b, u) = rw p at e in cc
      exists (exit n, v) p e =
          let h : ◌≡◌ {A = Outcome Bool × Trace} (exit n, v) (ok b, u) = rw p at e in cc
      exists (hangs, v) p e =
          let h : ◌≡◌ {A = Outcome Bool × Trace} (hangs, v) (ok b, u) = rw p at e in cc
      exists (out_of_fuel, v) p e =
          let h : ◌≡◌ {A = Outcome Bool × Trace} (out_of_fuel, v) (ok b, u) = rw p at e in cc
