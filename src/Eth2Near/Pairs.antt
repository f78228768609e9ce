-- ===== src/Eth2Near/Pairs.antt =====
-- How submitBlock of eth2near/eth2near-block-relay/index.js pairs the elements of the DAG.
use rainbow_bridge_cli.Base.{
  ℕ, suc, ◌+◌, ◌*◌, String, ◌<>◌, some, List, [], ◌∷◌, ◌++◌, map, get_elem?, length, length-append,
  append_assoc, ◌≡◌, refl, arith,
}
use rainbow_bridge_cli.Base.Io.{ok}
use rainbow_bridge_cli.Eth2Near.Blocks.{Hex, even_items, h512s_from, h512s}

-- The elements of the pairs, one after the other.
module _ {A : Type 0} where
  abbrev pub flat : List (A × A) → List A
  flat [] = []
  flat ((a, b) ∷ ps) = a ∷ b ∷ flat ps

  pub get_elem?-behind :
      (before : List A) (a b : A) (rest : List A)
      → get_elem? (before ++ a ∷ b ∷ rest) (length before + 1) ≡ some b
  get_elem?-behind [] a b rest = refl
  get_elem?-behind (x ∷ before) a b rest =
      let e : length (x ∷ before) + 1 ≡ suc (length before + 1) = omega arith in
      rw e (get_elem?-behind before a b rest)

  -- The next pair stands two places further on.
  pub index_next :
      (before : List A) (a b : A) (index : ℕ)
      → index * 2 ≡ length before
      → (index + 1) * 2 ≡ length (before ++ a ∷ b ∷ [])
  index_next before a b index h =
      let n : length (before ++ a ∷ b ∷ []) ≡ length before + length (a ∷ b ∷ []) =
        length-append before (a ∷ b ∷ []) in
      omega (arith, h, n)

module _ (hex : Hex) where
  -- One node: both elements padded to 32 bytes, and one prefix of the two.
  abbrev pub joined : String × String → String
  joined (a, b) = hex.pad_left a 64 <> hex.substr_2 (hex.pad_left b 64)

  h512s_from-flat :
      (before : List String) (index : ℕ) (ps : List (String × String))
      → index * 2 ≡ length before
      → h512s_from hex (before ++ flat ps) index (even_items (flat ps)) ≡ ok (map joined ps)
  unfolding h512s_from
  h512s_from-flat before index [] h = refl
  h512s_from-flat before index ((a, b) ∷ ps) h =
      let k = index_next before a b index h in
      rw h (
        rw (get_elem?-behind before a b (flat ps))
          (rw (rw append_assoc at (h512s_from-flat (before ++ a ∷ b ∷ []) (index + 1) ps k))))

  -- An even number of elements gives half as many nodes: the first element joined with the second,
  -- the third with the fourth, and so on, and no exception is thrown.
  pub h512s-flat : (ps : List (String × String)) → h512s hex (flat ps) ≡ ok (map joined ps)
  unfolding h512s
  h512s-flat ps = h512s_from-flat [] 0 ps refl
