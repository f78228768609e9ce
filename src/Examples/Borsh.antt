-- ===== src/Examples/Borsh.antt =====
-- Runs of the codec of utils/borsh.js on a small schema.
use rainbow_bridge_cli.Base.{
  ℕ, String, none, some, [], ◌∷◌, ◌++◌, ◌≡◌, ◌≢◌, refl, true, arith, Bool-cases, inl, inr, ◌===◌,
}
use rainbow_bridge_cli.Base.Bytes.{Bytes, le_bytes, le_value}
use rainbow_bridge_cli.Base.Io.{JsError, Outcome, ok, err, js_error}
use rainbow_bridge_cli.Borsh.Types.{
  Value, bool, num, bytes, array, object, nil, cons, end, field, name, seq, Schema, StructSchema,
  find_type, struct, option, Reader, builtin,
}
use rainbow_bridge_cli.Borsh.Serialize.{BinaryWriter, IsBorsh, serialize}
use rainbow_bridge_cli.Borsh.Deserialize.{deserialize, deserialize_field}
use rainbow_bridge_cli.Borsh.Typed.{
  Typed, truth, many, item, empty, byte, fields, next, no_more, present, long,
}
use rainbow_bridge_cli.Borsh.Whole.{deserialize-serialize, deserialize_trailing}
use rainbow_bridge_cli.Borsh.Bounds.{deserialize_field-Stays, Stays, CodecStays}

pub refused : Outcome Bytes
refused = err (js_error "no number")

unfoldable pub write_byte : Value → Outcome Bytes
write_byte (num n) = ok (n ∷ [])
write_byte _ = refused

unfoldable pub write_number : ℕ → Value → Outcome Bytes
write_number w (num n) = ok (le_bytes w n)
write_number w _ = refused

unfoldable pub write_all : Value → Outcome Bytes
write_all (bytes b) = ok b
write_all _ = refused

abbrev pub writer : BinaryWriter
writer = record {
  write_u8 = write_byte;
  write_u64 = write_number 8;
  write_u128 = write_number 16;
  write_string = λ _. refused;
  write_fixed_array = write_all;
  write_array_length = λ n. ok (le_bytes 4 n);
  write_array_misfit = λ _. refused;
  text_length = λ _. 0;
}

pub writer-IsBorsh : IsBorsh writer
unfolding write_byte write_number write_all
writer-IsBorsh = record {
  u8 = λ n h. refl;
  u64 = λ n h. refl;
  u128 = λ n h. refl;
  fixed_array = λ b. refl;
  array_length = λ n h. refl;
}

-- A struct with a flag, a list of bytes and an optional amount.
abbrev pub schema : Schema
schema =
    (
      "Deposit",
      struct
          (("locked", name "bool") ∷ ("proof", seq (name "u8")) ∷ ("amount", name "Amount") ∷ []),
    )
    ∷ ("Amount", option (name "u128"))
    ∷ []

abbrev pub deposit : Value
deposit = object (
    field "locked" (bool true)
      (field "proof" (array (cons (num 7) (cons (num 255) nil))) (field "amount" (num 1000) end)))

pub deposit-Typed : Typed schema 3 (name "Deposit") deposit
unfolding builtin
deposit-Typed = fields refl refl (
    next refl refl (truth refl) (
      next refl refl
        (many (omega arith) (item (byte refl (omega arith)) (item (byte refl (omega arith)) empty)))
        (next refl refl (present refl refl (λ e. cc) (long refl (omega arith))) (no_more refl))))

deserialize-serialize_example :
    (b : Bytes) × (serialize writer schema 3 (some (name "Deposit")) deposit ≡ ok b)
    × (deserialize le_value schema 3 (some (name "Deposit")) b ≡ ok deposit)
deserialize-serialize_example =
    deserialize-serialize writer writer-IsBorsh le_value (λ b. refl) schema deposit-Typed

abbrev extra : Bytes
extra = 7 ∷ []

one_more : extra ≢ []
one_more e = cc

deserialize_trailing_example :
    (b : Bytes) × (serialize writer schema 3 (some (name "Deposit")) deposit ≡ ok b)
    × (e : JsError) × (deserialize le_value schema 3 (some (name "Deposit")) (b ++ extra) ≡ err e)
deserialize_trailing_example =
    deserialize_trailing writer writer-IsBorsh le_value (λ b. refl) schema deposit-Typed extra
      one_more

abbrev reader : Reader
reader = record { buf = 1 ∷ 2 ∷ 0 ∷ 0 ∷ 0 ∷ 7 ∷ 255 ∷ 0 ∷ []; offset = 0 }

abbrev flags : Schema
flags = ("Flags", struct (("locked", name "bool") ∷ [])) ∷ []

flags-CodecStays : (t : String) (k : StructSchema) → find_type t flags ≡ some k → CodecStays k
flags-CodecStays t k h = elim (Bool-cases ("Flags" === t)) [
  | inl e ↦ only_flags k (rw e at h)
  | inr e ↦ absurd (none_some k (rw e at h))
]
  where
    none_some : (k : StructSchema) → none ≡ some k → ⊥
    none_some k h = cc

    only_flags :
        (k : StructSchema) → some (struct (("locked", name "bool") ∷ [])) ≡ some k → CodecStays k
    only_flags k h = let same : struct (("locked", name "bool") ∷ []) ≡ k = cc in rw (← same) tt

deserialize_field-Stays_example :
    Stays reader (deserialize_field le_value flags 2 (name "Flags") reader)
deserialize_field-Stays_example =
    deserialize_field-Stays le_value flags flags-CodecStays 2 (name "Flags") reader (omega arith)
