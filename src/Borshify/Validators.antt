-- ===== src/Borshify/Validators.antt =====
-- What the contracts on Ethereum read of `borshifyInitialValidators` of utils/borsh.js.
use rainbow_bridge_cli.Base.{
  ℕ, ◌+◌, ◌*◌, ◌^◌, ◌<◌, Bool, true, false, some, List, [], ◌∷◌, ◌++◌, length, take, drop,
  length-append, append_assoc, ltb, starts_with, if◌then◌else◌, ◌≡◌, refl, sym, arith,
}
use rainbow_bridge_cli.Base.Bytes.{Bytes, le_bytes, le_value, length-le_bytes, le_value-le_bytes}
use rainbow_bridge_cli.Base.Io.{ok}
use rainbow_bridge_cli.Borshify.Pieces.{concat, concat_map}
use rainbow_bridge_cli.Borshify.{
  Codec, BlockProducer, borshify_producer, borshify_initial_validators,
}
use rainbow_bridge_cli.Borshify.NearDecoder.{
  PublicKey, ed25519, secp256k1, ValidatorStake, decode_raw, decode_number, decode_bytes,
  decode_key, decode_public_key, decode_validator_stake, decode_stakes, decode_validators,
}

take_all : (b rest : Bytes) → take (length b) (b ++ rest) ≡ b
take_all [] rest = refl
take_all (x ∷ b) rest = rw (take_all b rest)

drop_all : (b rest : Bytes) → drop (length b) (b ++ rest) ≡ rest
drop_all [] rest = refl
drop_all (x ∷ b) rest = drop_all b rest

decode_raw_back : (b rest : Bytes) → decode_raw (length b) (b ++ rest) ≡ some (b, rest)
unfolding decode_raw
decode_raw_back b rest =
    let n : length (b ++ rest) ≡ length b + length rest = length-append b rest in
    let e : ltb (length (b ++ rest)) (length b) ≡ false = ground (arith, n) in
    rw e (rw (take_all b rest) (rw (drop_all b rest)))

decode_raw_at : (n : ℕ) (b rest : Bytes) → length b ≡ n → decode_raw n (b ++ rest) ≡ some (b, rest)
decode_raw_at n b rest e = rw (sym e) (decode_raw_back b rest)

decode_number_back :
    (w n : ℕ) (rest : Bytes) → n < 256 ^ w → decode_number w (le_bytes w n ++ rest) ≡ some (n, rest)
unfolding decode_number
decode_number_back w n rest h =
    rw (decode_raw_at w (le_bytes w n) rest (length-le_bytes w n)) (rw (le_value-le_bytes w n h))

decode_byte_back : (n : ℕ) (rest : Bytes) → decode_number 1 (n ∷ rest) ≡ some (n, rest)
unfolding decode_number le_value
decode_byte_back n rest =
    let z : n + 256 * 0 ≡ n = omega arith in rw (decode_raw_at 1 (n ∷ []) rest refl) (rw z)

-- The bytes of a key, and its index.
abbrev pub key_bytes : PublicKey → Bytes
key_bytes (ed25519 k) = k
key_bytes (secp256k1 k) = k

abbrev pub is_ed25519 : PublicKey → Bool
is_ed25519 (ed25519 k) = true
is_ed25519 (secp256k1 k) = false

abbrev pub key_index : PublicKey → ℕ
key_index k = if is_ed25519 k then 0 else 1

abbrev pub key_width : PublicKey → ℕ
key_width (ed25519 k) = 32
key_width (secp256k1 k) = 64

decode_key_back :
    (k : PublicKey) (rest : Bytes)
    → length (key_bytes k) ≡ key_width k
    → decode_key (key_index k) (key_bytes k ++ rest) ≡ some (k, rest)
unfolding decode_key
decode_key_back (ed25519 k) rest h = rw (decode_raw_at 32 k rest h)
decode_key_back (secp256k1 k) rest h = rw (decode_raw_at 64 k rest h)

-- The bytes of a stake, and what follows.
abbrev stake_bytes : ValidatorStake → Bytes → Bytes
stake_bytes s rest =
    le_bytes 4 (length s.account_id)
    ++ (s.account_id
        ++ (key_index s.public_key ∷ (key_bytes s.public_key ++ (le_bytes 16 s.stake ++ rest))))

decode_stake_back :
    (s : ValidatorStake) (rest : Bytes)
    → length s.account_id < 256 ^ 4
    → length (key_bytes s.public_key) ≡ key_width s.public_key
    → s.stake < 256 ^ 16
    → decode_validator_stake (stake_bytes s rest) ≡ some (s, rest)
unfolding decode_validator_stake decode_bytes decode_public_key
decode_stake_back s rest short width small =
    let after_key : Bytes = le_bytes 16 s.stake ++ rest in
    let after_id : Bytes = key_index s.public_key ∷ (key_bytes s.public_key ++ after_key) in
    rw (decode_number_back 4 (length s.account_id) (s.account_id ++ after_id) short) (
      rw (decode_raw_back s.account_id after_id) (
        rw (decode_byte_back (key_index s.public_key) (key_bytes s.public_key ++ after_key)) (
          rw (decode_key_back s.public_key after_key width)
            (rw (decode_number_back 16 s.stake rest small)))))

module _ (c : Codec) where
  -- toBN(n).toBuffer('le', w) gives the bytes of a number that fits.
  abbrev pub LittleEndian : Type 0
  LittleEndian = (n w : ℕ) → n < 256 ^ w → c.to_buffer n w ≡ ok (le_bytes w n)

  -- The stake is the one of the producer: its account has as many characters as bytes, and its key
  -- decodes to the bytes of a key of its kind.
  pub record Describes (p : BlockProducer) (s : ValidatorStake) : Type 0 where
    pub account_id : c.utf8 p.account_id ≡ s.account_id
    pub ascii : c.js_length p.account_id ≡ length s.account_id
    pub short : length s.account_id < 256 ^ 4
    pub kind : starts_with p.public_key "ed25519:" ≡ is_ed25519 s.public_key
    pub key : c.decode58 (c.substr_8 p.public_key) ≡ ok (key_bytes s.public_key)
    pub width : length (key_bytes s.public_key) ≡ key_width s.public_key
    pub stake : p.stake ≡ s.stake
    pub small : s.stake < 256 ^ 16

  abbrev pub AllDescribe : List BlockProducer → List ValidatorStake → Type 0
  AllDescribe [] [] = Unit
  AllDescribe [] (s ∷ ss) = ⊥
  AllDescribe (p ∷ ps) [] = ⊥
  AllDescribe (p ∷ ps) (s ∷ ss) = Describes p s × AllDescribe ps ss

  module _ (little : LittleEndian) where
    producer_bytes :
        (p : BlockProducer) (s : ValidatorStake)
        → Describes p s
        → borshify_producer c p ≡ ok (stake_bytes s [])
    unfolding borshify_producer concat
    producer_bytes p s d = rw d.ascii (
        rw (little (length s.account_id) 4 d.short)
          (rw d.account_id (rw d.kind (rw d.key (rw d.stake (rw (little s.stake 16 d.small)))))))

    stake_bytes-append :
        (s : ValidatorStake) (b rest : Bytes) → stake_bytes s b ++ rest ≡ stake_bytes s (b ++ rest)
    stake_bytes-append s b rest = simp append_assoc

    producers_back :
        (ps : List BlockProducer) (ss : List ValidatorStake)
        → AllDescribe ps ss
        → (b : Bytes) × (concat_map (borshify_producer c) ps ≡ ok b)
          × ((rest : Bytes) → decode_stakes (length ps) (b ++ rest) ≡ some (ss, rest))
    unfolding concat_map decode_stakes
    producers_back [] [] d = ([], refl, λ rest. refl)
    producers_back [] (s ∷ ss) d = absurd d
    producers_back (p ∷ ps) [] d = absurd d
    producers_back (p ∷ ps) (s ∷ ss) (d, ds) =
        let (b, e, back) = producers_back ps ss ds in
        (
          stake_bytes s [] ++ b,
          rw (producer_bytes p s d) (rw e),
          λ rest. rw (append_assoc (stake_bytes s []) b rest) (
              rw (stake_bytes-append s [] (b ++ rest))
                (rw (decode_stake_back s (b ++ rest) d.short d.width d.small) (rw (back rest)))),
        )

    -- If bn.js writes numbers in little-endian order, and each of fewer than 2^32 producers has a name
    -- with as many characters as bytes, a key that bs58 decodes to 32 bytes (ed25519) or 64 (any
    -- other), and a stake below 2^128, then `borshifyInitialValidators` throws nothing, and the
    -- contract on Ethereum reads the same names, keys and stakes, in order, and nothing is left.
    pub borshify_initial_validators-Decodes :
        (ps : List BlockProducer) (ss : List ValidatorStake)
        → length ps < 256 ^ 4
        → AllDescribe ps ss
        → (b : Bytes) × (borshify_initial_validators c ps ≡ ok b)
          × (decode_validators b ≡ some (ss, []))
    unfolding borshify_initial_validators concat decode_validators
    borshify_initial_validators-Decodes ps ss few d =
        let (b, e, back) = producers_back ps ss d in
        (
          le_bytes 4 (length ps) ++ (b ++ []),
          rw (little (length ps) 4 few) (rw e),
          rw (decode_number_back 4 (length ps) (b ++ []) few) (rw (back [])),
        )
