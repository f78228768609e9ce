-- ===== src/Borsh/Serialize/Steps.antt =====
-- One step of `serializeField` on each kind of field type.
use rainbow_bridge_cli.Base.{
  ℕ, suc, ◌≡◌, ◌≢◌, refl, ap, ◌∙◌, String, Option, some, List, [], ◌∷◌, ◌++◌, length, if◌then◌else◌,
  arith,
}
use rainbow_bridge_cli.Base.Bytes.{Bytes}
use rainbow_bridge_cli.Base.Io.{Outcome, ok}
use rainbow_bridge_cli.Borsh.Types.{
  Value, null, num, bytes, array, Items, length_items, FieldType, name, fixed, seq, Reader,
  StructSchema, option, struct, function, Schema, find_type, Builtin, u8, u64, u128, boolean,
  in_schema, builtin,
}
use rainbow_bridge_cli.Borsh.Serialize.{
  BinaryWriter, IsBorsh, truthy, write_items, write_fields, write_option, write_schema, write_named,
  serialize_field,
}

module _ (w : BinaryWriter) (schema : Schema) (f : ℕ) (t : String) (v : Value) where
  named :
      (k : Builtin)
      → builtin t ≡ k
      → serialize_field w schema (suc f) (name t) v
        ≡ write_named w (serialize_field w schema f) schema k t v
  unfolding serialize_field
  named k e = ap (λ k. write_named w (serialize_field w schema f) schema k t v) e

  pub serialize_u8 : builtin t ≡ u8 → serialize_field w schema (suc f) (name t) v ≡ w.write_u8 v
  unfolding write_named
  serialize_u8 e = named u8 e

  pub serialize_u64 : builtin t ≡ u64 → serialize_field w schema (suc f) (name t) v ≡ w.write_u64 v
  unfolding write_named
  serialize_u64 e = named u64 e

  pub serialize_u128 :
      builtin t ≡ u128 → serialize_field w schema (suc f) (name t) v ≡ w.write_u128 v
  unfolding write_named
  serialize_u128 e = named u128 e

  pub serialize_boolean :
      builtin t ≡ boolean
      → serialize_field w schema (suc f) (name t) v ≡ w.write_u8 (num (if truthy v then 1 else 0))
  unfolding write_named
  serialize_boolean e = named boolean e

  module _ (e : builtin t ≡ in_schema) where
    looked_up :
        (k : Option StructSchema)
        → find_type t schema ≡ k
        → serialize_field w schema (suc f) (name t) v
          ≡ write_schema w (serialize_field w schema f) t k v
    unfolding write_named
    looked_up k p =
        named in_schema e ∙ ap (λ k. write_schema w (serialize_field w schema f) t k v) p

    pub serialize_option :
        {inner : FieldType}
        → find_type t schema ≡ some (option inner)
        → serialize_field w schema (suc f) (name t) v
          ≡ write_option w (serialize_field w schema f inner) v
    unfolding write_schema
    serialize_option p = looked_up _ p

    pub serialize_struct :
        {fs : List (String × FieldType)}
        → find_type t schema ≡ some (struct fs)
        → serialize_field w schema (suc f) (name t) v
          ≡ write_fields (serialize_field w schema f) fs v
    unfolding write_schema
    serialize_struct p = looked_up _ p

    pub serialize_function :
        {ser : Value → Outcome Bytes} {deser : Reader → Outcome (Value × Reader)}
        → find_type t schema ≡ some (function ser deser)
        → serialize_field w schema (suc f) (name t) v ≡ ser v
    unfolding write_schema
    serialize_function p = looked_up _ p

pub write_option_null :
    (w : BinaryWriter) (write : Value → Outcome Bytes)
    → write_option w write null ≡ w.write_u8 (num 0)
unfolding write_option
write_option_null w write = refl

pub write_option_some :
    (w : BinaryWriter) (lawful : IsBorsh w) (write : Value → Outcome Bytes) (v : Value) (b : Bytes)
    → v ≢ null
    → write v ≡ ok b
    → write_option w write v ≡ ok ((1 ∷ []) ++ b)
unfolding write_option
write_option_some w lawful write null b h p = absurd (h refl)
write_option_some w lawful write _ b h p = rw (lawful.u8 1 (omega arith)) (rw p)

module _ (w : BinaryWriter) (schema : Schema) (f : ℕ) where
  pub serialize_fixed :
      (n : ℕ) (b : Bytes)
      → length b ≡ n
      → serialize_field w schema (suc f) (fixed n) (bytes b) ≡ w.write_fixed_array (bytes b)
  unfolding serialize_field
  serialize_fixed n b e = ground arith

  pub serialize_seq :
      (t : FieldType) (vs : Items) (h b : Bytes)
      → w.write_array_length (length_items vs) ≡ ok h
      → write_items (serialize_field w schema f t) vs ≡ ok b
      → serialize_field w schema (suc f) (seq t) (array vs) ≡ ok (h ++ b)
  unfolding serialize_field
  serialize_seq t vs h b p q = rw p (rw q)
