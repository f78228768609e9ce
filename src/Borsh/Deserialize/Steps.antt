-- ===== src/Borsh/Deserialize/Steps.antt =====
-- One step of `deserializeField` on each kind of field type.
use rainbow_bridge_cli.Base.{
  ℕ, suc, ◌≡◌, refl, ap, ◌∙◌, String, Option, some, List, if◌then◌else◌, ◌==◌, true, false,
}
use rainbow_bridge_cli.Base.Bytes.{Bytes}
use rainbow_bridge_cli.Base.Io.{Outcome, ok}
use rainbow_bridge_cli.Borsh.Types.{
  Value, null, bool, num, bytes, array, Items, end, FieldType, name, fixed, seq, Reader,
  StructSchema, option, struct, function, Schema, find_type, Builtin, u8, u64, u128, boolean,
  string, in_schema, builtin,
}
use rainbow_bridge_cli.Borsh.Reader.{
  read_u8, read_u32, read_items, read_u64, read_u128, read_string, read_fixed_array,
}
use rainbow_bridge_cli.Borsh.Deserialize.{read_fields, read_schema, read_named, deserialize_field}

module _ (bn : Bytes → ℕ) (schema : Schema) (f : ℕ) (t : String) (r : Reader) where
  named :
      (k : Builtin)
      → builtin t ≡ k
      → deserialize_field bn schema (suc f) (name t) r
        ≡ read_named bn (deserialize_field bn schema f) schema k t r
  unfolding deserialize_field
  named k e = ap (λ k. read_named bn (deserialize_field bn schema f) schema k t r) e

  pub deserialize_u8 :
      {n : ℕ} {r' : Reader}
      → builtin t ≡ u8
      → read_u8 r ≡ ok (n, r')
      → deserialize_field bn schema (suc f) (name t) r ≡ ok (num n, r')
  deserialize_u8 e p = named u8 e ∙ (unfold read_named in rw p)

  pub deserialize_u64 :
      {n : ℕ} {r' : Reader}
      → builtin t ≡ u64
      → read_u64 bn r ≡ ok (n, r')
      → deserialize_field bn schema (suc f) (name t) r ≡ ok (num n, r')
  deserialize_u64 e p = named u64 e ∙ (unfold read_named in rw p)

  pub deserialize_u128 :
      {n : ℕ} {r' : Reader}
      → builtin t ≡ u128
      → read_u128 bn r ≡ ok (n, r')
      → deserialize_field bn schema (suc f) (name t) r ≡ ok (num n, r')
  deserialize_u128 e p = named u128 e ∙ (unfold read_named in rw p)

  pub deserialize_boolean :
      {n : ℕ} {r' : Reader}
      → builtin t ≡ boolean
      → read_u8 r ≡ ok (n, r')
      → deserialize_field bn schema (suc f) (name t) r
        ≡ ok (bool (if n == 0 then false else true), r')
  deserialize_boolean e p = named boolean e ∙ (unfold read_named in rw p)

  pub deserialize_string :
      builtin t ≡ string → deserialize_field bn schema (suc f) (name t) r ≡ read_string r
  deserialize_string e = named string e ∙ (unfold read_named in refl)

  module _ (e : builtin t ≡ in_schema) where
    looked_up :
        (k : Option StructSchema)
        → find_type t schema ≡ k
        → deserialize_field bn schema (suc f) (name t) r
          ≡ read_schema (deserialize_field bn schema f) t k r
    unfolding read_named
    looked_up k p =
        named in_schema e ∙ ap (λ k. read_schema (deserialize_field bn schema f) t k r) p

    pub deserialize_absent :
        {inner : FieldType} {r' : Reader}
        → find_type t schema ≡ some (option inner)
        → read_u8 r ≡ ok (0, r')
        → deserialize_field bn schema (suc f) (name t) r ≡ ok (null, r')
    unfolding read_schema
    deserialize_absent p q = looked_up _ p ∙ rw q

    pub deserialize_present :
        {inner : FieldType} {r' : Reader}
        → find_type t schema ≡ some (option inner)
        → read_u8 r ≡ ok (1, r')
        → deserialize_field bn schema (suc f) (name t) r ≡ deserialize_field bn schema f inner r'
    unfolding read_schema
    deserialize_present p q = looked_up _ p ∙ rw q

    pub deserialize_struct :
        {fs : List (String × FieldType)}
        → find_type t schema ≡ some (struct fs)
        → deserialize_field bn schema (suc f) (name t) r
          ≡ read_fields (deserialize_field bn schema f) fs end r
    unfolding read_schema
    deserialize_struct p = looked_up _ p

    pub deserialize_function :
        {ser : Value → Outcome Bytes} {deser : Reader → Outcome (Value × Reader)}
        → find_type t schema ≡ some (function ser deser)
        → deserialize_field bn schema (suc f) (name t) r ≡ deser r
    unfolding read_schema
    deserialize_function p = looked_up _ p

module _ (bn : Bytes → ℕ) (schema : Schema) (f : ℕ) (r : Reader) where
  pub deserialize_fixed :
      (n : ℕ) {b : Bytes} {r' : Reader}
      → read_fixed_array n r ≡ ok (b, r')
      → deserialize_field bn schema (suc f) (fixed n) r ≡ ok (bytes b, r')
  unfolding deserialize_field
  deserialize_fixed n p = rw p

  pub deserialize_seq :
      (t : FieldType) (n : ℕ) {vs : Items} {r' r'' : Reader}
      → read_u32 r ≡ ok (n, r')
      → read_items (deserialize_field bn schema f t) n r' ≡ ok (vs, r'')
      → deserialize_field bn schema (suc f) (seq t) r ≡ ok (array vs, r'')
  unfolding deserialize_field
  deserialize_seq t n p q = rw p (rw q)
