-- ===== src/Examples/Validators.antt =====
-- A block producer as utils/borsh.js writes it and the contracts on Ethereum read it.
use rainbow_bridge_cli.Base.{[], ◌∷◌, ◌≡◌, refl, some, arith}
use rainbow_bridge_cli.Base.Bytes.{Bytes, le_bytes}
use rainbow_bridge_cli.Base.Io.{ok}
use rainbow_bridge_cli.Borshify.{Codec, BlockProducer, borshify_initial_validators}
use rainbow_bridge_cli.Borshify.NearDecoder.{ValidatorStake, ed25519, decode_validators}
use rainbow_bridge_cli.Borshify.Validators.{borshify_initial_validators-Decodes}

abbrev key : Bytes
key = le_bytes 32 1000000007

abbrev codec : Codec
codec = record {
  decode58 = λ s. ok key;
  to_buffer = λ n w. ok (le_bytes w n);
  utf8 = λ s. 97 ∷ 98 ∷ [];
  base64 = λ s. [];
  js_length = λ s. 2;
  substr_8 = λ s. s;
}

abbrev producer : BlockProducer
producer = record { account_id = "ab"; public_key = "ed25519:k"; stake = 50000 }

abbrev stake : ValidatorStake
stake = record { account_id = 97 ∷ 98 ∷ []; public_key = ed25519 key; stake = 50000 }

borshify_initial_validators-Decodes_example :
    (b : Bytes) × (borshify_initial_validators codec (producer ∷ []) ≡ ok b)
    × (decode_validators b ≡ some (stake ∷ [], []))
unfolding le_bytes
borshify_initial_validators-Decodes_example =
    borshify_initial_validators-Decodes codec (λ n w h. refl) (producer ∷ []) (stake ∷ [])
      (omega arith)
      (
        record {
          account_id = refl;
          ascii = refl;
          short = omega arith;
          kind = refl;
          key = refl;
          width = refl;
          stake = refl;
          small = omega arith;
        },
        tt,
      )
