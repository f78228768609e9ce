-- ===== src/Borsh/Deserialize.antt =====
-- `deserializeField` and `deserialize` of utils/borsh.js.
pub mod Steps
use rainbow_bridge_cli.Base.{
  ℕ, true, false, zero, suc, String, ◌<>◌, Option, none, some, List, [], ◌∷◌, length, ◌==◌, ltb,
  if◌then◌else◌,
}
use rainbow_bridge_cli.Base.Bytes.{Bytes}
use rainbow_bridge_cli.Base.Io.{Outcome, ok, err, out_of_fuel, js_error}
use rainbow_bridge_cli.Base.Sync.{◌>>=◌}
use rainbow_bridge_cli.Borsh.Types.{
  Value, null, bool, num, bytes, array, object, Fields, end, set_field, FieldType, name, fixed, seq,
  Reader, StructSchema, option, struct, function, unexpected, Schema, find_type, Builtin, u8, u64,
  u128, boolean, string, in_schema, builtin,
}
use rainbow_bridge_cli.Borsh.Reader.{
  read_u8, read_u64, read_u128, read_string, read_fixed_array, read_array,
}

abbrev pub Read : Type 0
Read = Reader → Outcome (Value × Reader)

module _ (read : FieldType → Read) where
  -- for (const [fieldName, fieldType] of structSchema.fields) result[fieldName] = ...
  unfoldable pub read_fields : List (String × FieldType) → Fields → Read
  read_fields [] result r = ok (object result, r)
  read_fields ((n, t) ∷ fields) result r = do
    (v, r') ← read t r
    read_fields fields (set_field result n v) r'

  unfoldable pub read_option : FieldType → Read
  unfolding read_u8
  read_option t r = do
    (flag, r') ← read_u8 r
    if flag == 0
        then ok (null, r')
        else if flag == 1
        then read t r'
        else err (js_error "Unexpected option flag")

  -- The branch on `structSchema`.
  unfoldable pub read_schema : String → Option StructSchema → Read
  unfolding read_fields read_option
  read_schema t none r = err (js_error ("Schema type " <> (t <> " is missing in schema")))
  read_schema t (some (option inner)) r = read_option inner r
  read_schema t (some (struct fields)) r = read_fields fields end r
  read_schema t (some (function ser deser)) r = deser r
  read_schema t (some (unexpected kind)) r =
      err (js_error ("Unexpected schema kind: " <> (kind <> (" for " <> t))))

module _ (bn : Bytes → ℕ) where
  unfoldable pub read_named : (FieldType → Read) → Schema → Builtin → String → Read
  unfolding read_u8 read_u64 read_u128 read_string read_schema
  read_named read schema u8 t r = do (n, r') ← read_u8 r; ok (num n, r')
  read_named read schema u64 t r = do (n, r') ← read_u64 bn r; ok (num n, r')
  read_named read schema u128 t r = do (n, r') ← read_u128 bn r; ok (num n, r')
  read_named read schema boolean t r = do
    (n, r') ← read_u8 r
    ok (bool (if n == 0 then false else true), r')
  read_named read schema string t r = read_string r
  read_named read schema in_schema t r = read_schema read t (find_type t schema) r

  -- Each nesting of the types costs a unit of fuel.
  unfoldable pub deserialize_field : Schema → ℕ → FieldType → Read
  unfolding read_named read_fixed_array read_array builtin
  deserialize_field schema zero t r = out_of_fuel
  deserialize_field schema (suc f) (name t) r =
      read_named (deserialize_field schema f) schema (builtin t) t r
  deserialize_field schema (suc f) (fixed n) r = do (b, r') ← read_fixed_array n r; ok (bytes b, r')
  deserialize_field schema (suc f) (seq t) r = do
    (vs, r') ← read_array (deserialize_field schema f t) r
    ok (array vs, r')

  -- `none` is the field type `null`.
  unfoldable pub deserialize : Schema → ℕ → Option FieldType → Bytes → Outcome Value
  deserialize schema f none buffer = ok null
  deserialize schema f (some t) buffer = do
    (result, r) ← deserialize_field schema f t (record { buf = buffer; offset = 0 })
    if ltb r.offset (length buffer)
        then err (js_error "Unexpected bytes after deserialized data")
        else ok result
