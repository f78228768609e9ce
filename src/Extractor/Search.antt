-- ===== src/Extractor/Search.antt =====
-- Which log eth2near/eth2near-block-relay/eth-proof-extractor.js finds in a receipt.
use rainbow_bridge_cli.Base.{
  ℕ, zero, suc, ◌+◌, ◌≡◌, refl, ap, arith, Option, none, some, List, [], ◌∷◌, get_elem?, true,
  false, Bool-cases, inl, inr,
}
use rainbow_bridge_cli.RobustWeb3.{Log}
use rainbow_bridge_cli.Extractor.{same_index, search, search_event}

-- No log before the `k`-th has the index.
abbrev pub NoneBefore : ℕ → Option ℕ → List Log → Type 0
NoneBefore zero index logs = Unit
NoneBefore (suc k) index [] = Unit
NoneBefore (suc k) index (log ∷ logs) =
    (same_index index log.log_index ≡ false) × NoneBefore k index logs

-- The `k`-th log has the index, and it is the first.
pub record First (index : Option ℕ) (logs : List Log) (log : Log) (k : ℕ) : Type 0 where
  pub there : get_elem? logs k ≡ some log
  pub indexed : index ≡ some log.log_index
  pub none_before : NoneBefore k index logs

same_index-some : (index : Option ℕ) (i : ℕ) → same_index index i ≡ true → index ≡ some i
same_index-some none i h = cc
same_index-some (some j) i h = let q : i ≡ j = ground arith in rw q refl

same_pair :
    {x y : Log} {i n : ℕ}
    → ◌≡◌ {A = Option (Log × ℕ)} (some (x, i)) (some (y, n))
    → (x ≡ y) × (i ≡ n)
same_pair {x} {y} {i} {n} h =
    let q : ◌≡◌ {A = Log × ℕ} (x, i) (y, n) = cc in (ap (λ z. z.0) q, ap (λ z. z.1) q)

head_First :
    (index : Option ℕ) (x log : Log) (logs : List Log)
    → same_index index x.log_index ≡ true
    → x ≡ log
    → First index (x ∷ logs) log 0
head_First index x log logs h e = record {
  there = ap some e;
  indexed = same_index-some index log.log_index (rw e at h);
  none_before = tt;
}

search-First :
    (i : ℕ) (index : Option ℕ) (logs : List Log) (log : Log) (n : ℕ)
    → search i index logs ≡ some (log, n)
    → (k : ℕ) × (n ≡ i + k) × First index logs log k
unfolding search
search-First i index [] log n h = cc
search-First i index (x ∷ logs) log n h = elim (Bool-cases (same_index index x.log_index)) [
  | inl same ↦
      let e = same_pair (rw same at h) in
      (0, omega (arith, e.1), head_First index x log logs same e.0)
  | inr other ↦
      let (k, e, f) = search-First (suc i) index logs log n (rw other at h) in
      (
        suc k,
        omega (arith, e),
        record { there = f.there; indexed = f.indexed; none_before = (other, f.none_before) },
      )
]

-- The log that the loop over a receipt's logs finds is the first one that has the index of the event,
-- and the place is its place in the receipt.
pub search_event-First :
    (index : Option ℕ) (logs : List Log) (log : Log) (n : ℕ)
    → search_event index logs ≡ some (log, n)
    → First index logs log n
search_event-First index logs log n h =
    let (k, e, f) = search-First 0 index logs log n h in let q : n ≡ k = omega (arith, e) in rw q f
