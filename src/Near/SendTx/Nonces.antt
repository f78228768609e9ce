-- ===== src/Near/SendTx/Nonces.antt =====
-- Which nonces `signAndSendTransaction` signs.
use rainbow_bridge_cli.Base.{
  ℕ, zero, suc, ◌+◌, ◌≡◌, refl, ap, String, Option, none, some, List, [], ◌∷◌, ◌++◌, append_assoc,
  arith,
}
use rainbow_bridge_cli.Base.Io.{JsError, Outcome, ok, call}
use rainbow_bridge_cli.Base.Io.Rules.{
  Returns, try-Returns, bind-Returns, if_Returns, Returns-ok, Returns-map, bind_after,
}
use rainbow_bridge_cli.Near.Node.{
  SignedTx, TxResult, Trace, node_status, signing, broadcast, NearNode, signed_nonces,
}
use rainbow_bridge_cli.Near.SendTx.{
  Send, resend, sign_and_send, Verdict, finished, again, failed, crashed, poll, attempt_send,
  await_result, after_send, judge, round, conclude, send_loop, sign_and_send_transaction,
  retry_tx_status, begin,
}
use rainbow_bridge_cli.Near.SendTx.Bounds.{poll-Quiet}

-- n + k, …, n + 1
abbrev pub fresh : ℕ → ℕ → List ℕ
fresh n zero = []
fresh n (suc k) = (n + suc k) ∷ fresh n k

-- From the nonce `n` to the nonce `n'`, each nonce has been signed once, in increasing order.
pub record Fresh (n : ℕ) (t : Trace) (n' : ℕ) (t' : Trace) : Type 0 where
  pub signed : ℕ
  pub counted : n' ≡ n + signed
  pub nonces : signed_nonces t' ≡ fresh n signed ++ signed_nonces t

fresh-add : (n k l : ℕ) → fresh n (k + l) ≡ fresh (n + k) l ++ fresh n k
fresh-add n k zero = let e : k + 0 ≡ k = omega arith in rw e
fresh-add n k (suc l) =
    let e : k + suc l ≡ suc (k + l) = omega arith in
    let e' : n + suc (k + l) ≡ n + k + suc l = omega arith in
    rw e (rw e' (ap (λ x. (n + k + suc l) ∷ x) (fresh-add n k l)))

Fresh-trans : {n m l : ℕ} {t u v : Trace} → Fresh n t m u → Fresh m u l v → Fresh n t l v
Fresh-trans a b = record {
  signed = a.signed + b.signed;
  counted = omega (arith, a.counted, b.counted);
  nonces = rw b.nonces (rw a.nonces (rw a.counted (rw fresh-add (rw append_assoc))));
}

Fresh-none : {n : ℕ} {t u : Trace} → signed_nonces u ≡ signed_nonces t → Fresh n t n u
Fresh-none p = record { signed = 0; counted = omega arith; nonces = p }

Fresh-one :
    {n : ℕ} {t u : Trace} → signed_nonces u ≡ (n + 1) ∷ signed_nonces t → Fresh n t (n + 1) u
Fresh-one p = record { signed = 1; counted = refl; nonces = p }

-- The nonce that a round leaves.
abbrev nonce_of : Verdict → ℕ
nonce_of (finished r k) = k
nonce_of (again s) = s.nonce
nonce_of (failed m k) = k
nonce_of (crashed k) = k

judge-nonce : (s : Send) (r : Option TxResult × String) → nonce_of (judge s r) ≡ s.nonce
unfolding judge
judge-nonce s (none, msg) = refl
judge-nonce s (some r, msg) = ground arith

module _ (node : NearNode) where
  attempt_send-Fresh :
      (s : Send) (t : Trace)
      → Returns (λ (s', c) u. Fresh s.nonce t s'.nonce u) (attempt_send node s t)
  unfolding attempt_send
  attempt_send-Fresh s t = if_Returns Q s.resend_last _ _ t (λ _. resent s.last_tx) (λ _. signed)
    where
      Q : Send × Option JsError → Trace → Type 0
      Q (s', c) u = Fresh s.nonce t s'.nonce u

      resent : (o : Option SignedTx) → Returns Q (resend node o s t)
      resent none = Fresh-none refl
      resent (some tx) =
          try-Returns Q (call (broadcast tx) (node.send tx)) _ _ t (λ _ _. Fresh-none refl)
            (λ _ _. Fresh-none refl)

      signed : Returns Q (sign_and_send node s t)
      signed =
          try-Returns Q (call node_status node.status) _ _ t
            (λ h _.
              try-Returns Q (call (signing (s.nonce + 1) h) (node.sign (s.nonce + 1) h)) _ _ _
                (λ tx _.
                  try-Returns Q (call (broadcast tx) (node.send tx)) _ _ _ (λ _ _. Fresh-one refl)
                    (λ _ _. Fresh-one refl))
                (λ _ _. Fresh-one refl))
            (λ _ _. Fresh-none refl)

  after_send-Fresh :
      (c : Option JsError) (s : Send) (t : Trace)
      → Returns (λ v u. Fresh s.nonce t (nonce_of v) u) (after_send node c s t)
  unfolding after_send await_result
  after_send-Fresh (some e) s t = Fresh-none refl
  after_send-Fresh none s t = waits s.last_tx
    where
      waits :
          (o : Option SignedTx)
          → Returns (λ v u. Fresh s.nonce t (nonce_of v) u) (await_result node s o t)
      waits none = Fresh-none refl
      waits (some tx) =
          bind-Returns (λ v u. Fresh s.nonce t (nonce_of v) u)
            (poll node retry_tx_status 0 tx none s.error_msg) _ t
            λ r _.
              rw judge-nonce
                (Fresh-none (poll-Quiet node tx retry_tx_status 0 none s.error_msg t).nonces)

  round-Fresh :
      (s : Send) (t : Trace) → Returns (λ v u. Fresh s.nonce t (nonce_of v) u) (round node s t)
  unfolding round
  round-Fresh s t =
      bind_after (λ (s', c) u. Fresh s.nonce t s'.nonce u) (λ v u. Fresh s.nonce t (nonce_of v) u)
        (attempt_send node s) _ t (attempt_send-Fresh s t)
        λ (s', c) u first.
          Returns-map (after_send node c s' u) (after_send-Fresh c s' u)
            (λ v w later. Fresh-trans first later)

  send_loop-Fresh :
      (n : ℕ) (s : Send) (t : Trace)
      → Returns (λ (r, k) u. Fresh s.nonce t k u) (send_loop node n s t)
  unfolding send_loop
  send_loop-Fresh zero s t = Fresh-none refl
  send_loop-Fresh (suc n) s t =
      bind_after (λ v u. Fresh s.nonce t (nonce_of v) u) (λ (r, k) u. Fresh s.nonce t k u)
        (round node s) _ t (round-Fresh s t)
        λ v u first. concluded s.nonce t u v first λ s'. send_loop-Fresh n s' u
    where
      concluded :
          (m : ℕ) (t u : Trace) (v : Verdict)
          → Fresh m t (nonce_of v) u
          → ((s' : Send) → Returns (λ (r, k) w. Fresh s'.nonce u k w) (send_loop node n s' u))
          → Returns (λ (r, k) w. Fresh m t k w) (conclude (send_loop node n) v u)
      concluded m t u (again s') first next =
          Returns-map (send_loop node n s' u) (next s') (λ rk w later. Fresh-trans first later)
      concluded m t u (finished r k) first next = first
      concluded m t u (failed x k) first next = first
      concluded m t u (crashed k) first next = first

  -- Where a call comes to an end, with a result or an error, the nonce in the access key has grown by
  -- the number of transactions that were signed, and these were signed with the nonces between, in
  -- increasing order and each once.
  pub sign_and_send-Fresh :
      (nonce : ℕ) (t u : Trace) (r : Outcome TxResult) (nonce' : ℕ)
      → sign_and_send_transaction node nonce t ≡ (ok (r, nonce'), u)
      → Fresh nonce t nonce' u
  unfolding sign_and_send_transaction
  sign_and_send-Fresh nonce t u r nonce' e =
      Returns-ok (λ (r, k) u. Fresh nonce t k u) (send_loop-Fresh 10 (begin nonce) t) e
