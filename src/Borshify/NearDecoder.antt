-- ===== src/Borshify/NearDecoder.antt =====
-- The reading of block producers by the contracts on Ethereum: decodeValidatorStake of
-- contracts/eth/nearbridge/contracts/NearDecoder.sol, on what is left of the bytes. `none` is a revert. A
-- key is kept as its bytes, where the contract keeps them as one or two words.
use rainbow_bridge_cli.Base.{
  ℕ, zero, suc, Option, none, some, List, [], ◌∷◌, length, take, drop, ltb, if◌then◌else◌,
}
use rainbow_bridge_cli.Base.Bytes.{Bytes, le_value}

pub data PublicKey : Type 0 where
  ed25519 : Bytes → PublicKey
  secp256k1 : Bytes → PublicKey

pub record ValidatorStake : Type 0 where
  pub account_id : Bytes
  pub public_key : PublicKey
  pub stake : ℕ

module _ {A B : Type 0} where
  infixl 10 ◌>>=◌
  abbrev pub ◌>>=◌ : Option A → (A → Option B) → Option B
  none >>= f = none
  some a >>= f = f a

-- The next bytes; reading past the end reverts.
unfoldable pub decode_raw : ℕ → Bytes → Option (Bytes × Bytes)
decode_raw n bs = if ltb (length bs) n then none else some (take n bs, drop n bs)

-- decodeU8, decodeU32 and decodeU128, with their width in bytes
unfoldable pub decode_number : ℕ → Bytes → Option (ℕ × Bytes)
decode_number w bs = do (b, r) ← decode_raw w bs; some (le_value b, r)

unfoldable pub decode_bytes : Bytes → Option (Bytes × Bytes)
decode_bytes bs = do (n, r) ← decode_number 4 bs; decode_raw n r

-- decodePublicKey, after the index
unfoldable pub decode_key : ℕ → Bytes → Option (PublicKey × Bytes)
decode_key zero bs = do (k, r) ← decode_raw 32 bs; some (ed25519 k, r)
decode_key (suc zero) bs = do (k, r) ← decode_raw 64 bs; some (secp256k1 k, r)
decode_key (suc (suc n)) bs = none

unfoldable pub decode_public_key : Bytes → Option (PublicKey × Bytes)
decode_public_key bs = do (i, r) ← decode_number 1 bs; decode_key i r

unfoldable pub decode_validator_stake : Bytes → Option (ValidatorStake × Bytes)
decode_validator_stake bs = do
  (id, r) ← decode_bytes bs
  (key, r') ← decode_public_key r
  (stake, r'') ← decode_number 16 r'
  some (record { account_id = id; public_key = key; stake = stake }, r'')

-- The loop over the stakes.
unfoldable pub decode_stakes : ℕ → Bytes → Option (List ValidatorStake × Bytes)
decode_stakes zero bs = some ([], bs)
decode_stakes (suc n) bs = do
  (s, r) ← decode_validator_stake bs
  (ss, r') ← decode_stakes n r
  some (s ∷ ss, r')

unfoldable pub decode_validators : Bytes → Option (List ValidatorStake × Bytes)
decode_validators bs = do (n, r) ← decode_number 4 bs; decode_stakes n r
