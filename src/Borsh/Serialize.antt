-- ===== src/Borsh/Serialize.antt =====
-- `serializeField` and `serialize` of utils/borsh.js.
pub mod Steps
use rainbow_bridge_cli.Base.{
  ℕ, zero, suc, String, ◌<>◌, ◌≡◌, Bool, true, false, Option, none, some, List, [], ◌∷◌, ◌++◌,
  length, ◌==◌, ◌===◌, ◌<◌, ◌^◌, if◌then◌else◌,
}
use rainbow_bridge_cli.Base.Bytes.{Bytes, le_bytes}
use rainbow_bridge_cli.Base.Io.{Outcome, ok, err, out_of_fuel, js_error}
use rainbow_bridge_cli.Base.Sync.{◌>>=◌}
use rainbow_bridge_cli.Borsh.Types.{
  Value, null, undefined, bool, num, text, bytes, array, object, Items, nil, cons, Fields,
  length_items, items_of, lookup, FieldType, name, fixed, seq, StructSchema, option, struct,
  function, unexpected, Schema, find_type, Builtin, u8, u64, u128, boolean, string, in_schema,
  builtin,
}

-- `BinaryWriter` of near-api-js: what each method appends to the buffer, or throws. A method that
-- takes a callback is given by what it writes before the calls.
pub record BinaryWriter : Type 0 where
  pub write_u8 : Value → Outcome Bytes
  pub write_u64 : Value → Outcome Bytes
  pub write_u128 : Value → Outcome Bytes
  pub write_string : Value → Outcome Bytes
  pub write_fixed_array : Value → Outcome Bytes
  pub write_array_length : ℕ → Outcome Bytes
  -- `write_array` of a value that is no array
  pub write_array_misfit : Value → Outcome Bytes
  -- the `length` of a text
  pub text_length : String → ℕ

-- The documented format: numbers in little-endian order, arrays behind a 32-bit length.
pub record IsBorsh (w : BinaryWriter) : Type 0 where
  pub u8 : (n : ℕ) → n < 256 → w.write_u8 (num n) ≡ ok (n ∷ [])
  pub u64 : (n : ℕ) → n < 256 ^ 8 → w.write_u64 (num n) ≡ ok (le_bytes 8 n)
  pub u128 : (n : ℕ) → n < 256 ^ 16 → w.write_u128 (num n) ≡ ok (le_bytes 16 n)
  pub fixed_array : (b : Bytes) → w.write_fixed_array (bytes b) ≡ ok b
  pub array_length : (n : ℕ) → n < 256 ^ 4 → w.write_array_length n ≡ ok (le_bytes 4 n)

-- value ? 1 : 0
abbrev pub truthy : Value → Bool
truthy null = false
truthy undefined = false
truthy (bool b) = b
truthy (num n) = if n == 0 then false else true
truthy (text s) = if s === "" then false else true
truthy _ = true

-- value.length, where `none` is undefined
js_length : BinaryWriter → Value → Outcome (Option ℕ)
js_length w null = err (js_error "Cannot read property 'length' of null")
js_length w undefined = err (js_error "Cannot read property 'length' of undefined")
js_length w (text s) = ok (some (w.text_length s))
js_length w (bytes b) = ok (some (length b))
js_length w (array vs) = ok (some (length_items vs))
js_length w (object fs) = elim (lookup "length" fs) [ some (num n) ↦ ok (some n) | _ ↦ ok none ]
js_length w _ = ok none

-- value.length !== n
abbrev has_length : Option ℕ → ℕ → Bool
has_length none n = false
has_length (some m) n = m == n

abbrev or_undefined : Option Value → Value
or_undefined none = undefined
or_undefined (some v) = v

-- value[name]
abbrev pub get_field : Value → String → Outcome Value
get_field null n = err (js_error ("Cannot read property '" <> (n <> "' of null")))
get_field undefined n = err (js_error ("Cannot read property '" <> (n <> "' of undefined")))
get_field (object fs) n = ok (or_undefined (lookup n fs))
get_field _ n = ok undefined

module _ (write : Value → Outcome Bytes) where
  unfoldable pub write_items : Items → Outcome Bytes
  write_items nil = ok []
  write_items (cons v vs) = do b ← write v; bs ← write_items vs; ok (b ++ bs)

module _ (write : FieldType → Value → Outcome Bytes) where
  -- structSchema.fields.map(...)
  unfoldable pub write_fields : List (String × FieldType) → Value → Outcome Bytes
  write_fields [] value = ok []
  write_fields ((n, t) ∷ fields) value = do
    v ← get_field value n
    b ← write t v
    bs ← write_fields fields value
    ok (b ++ bs)

module _ (w : BinaryWriter) where
  -- writer.write_array(value, (item) => ...)
  write_array : (Value → Outcome Bytes) → Value → Outcome Bytes
  unfolding write_items
  write_array write (array vs) = do
    h ← w.write_array_length (length_items vs)
    b ← write_items write vs
    ok (h ++ b)
  write_array write (bytes bs) = do
    h ← w.write_array_length (length bs)
    b ← write_items write (items_of bs)
    ok (h ++ b)
  write_array write v = w.write_array_misfit v

  write_fixed : ℕ → Value → Outcome Bytes
  unfolding js_length
  write_fixed n value = do
    l ← js_length w value
    if has_length l n
        then w.write_fixed_array value
        else err (js_error "Expecting byte array of another length")

  pub write_option : (Value → Outcome Bytes) → Value → Outcome Bytes
  write_option write null = w.write_u8 (num 0)
  write_option write value = do flag ← w.write_u8 (num 1); b ← write value; ok (flag ++ b)

  -- The branch on `structSchema`.
  write_schema :
      (FieldType → Value → Outcome Bytes) → String → Option StructSchema → Value → Outcome Bytes
  unfolding write_option write_fields
  write_schema write t none value =
      err (js_error ("Schema type " <> (t <> " is missing in schema")))
  write_schema write t (some (option inner)) value = write_option (write inner) value
  write_schema write t (some (struct fields)) value = write_fields write fields value
  write_schema write t (some (function ser deser)) value = ser value
  write_schema write t (some (unexpected kind)) value =
      err (js_error ("Unexpected schema kind: " <> (kind <> (" for " <> t))))

  write_named :
      (FieldType → Value → Outcome Bytes) → Schema → Builtin → String → Value → Outcome Bytes
  unfolding write_schema
  write_named write schema u8 t value = w.write_u8 value
  write_named write schema u64 t value = w.write_u64 value
  write_named write schema u128 t value = w.write_u128 value
  write_named write schema boolean t value = w.write_u8 (num (if truthy value then 1 else 0))
  write_named write schema string t value = w.write_string value
  write_named write schema in_schema t value = write_schema write t (find_type t schema) value

  -- Each nesting of the types costs a unit of fuel.
  unfoldable pub serialize_field : Schema → ℕ → FieldType → Value → Outcome Bytes
  unfolding write_array write_fixed write_named builtin
  serialize_field schema zero t value = out_of_fuel
  serialize_field schema (suc f) (name t) value =
      write_named (serialize_field schema f) schema (builtin t) t value
  serialize_field schema (suc f) (fixed n) value = write_fixed n value
  serialize_field schema (suc f) (seq t) value = write_array (serialize_field schema f t) value

  -- `none` is the field type `null`.
  unfoldable pub serialize : Schema → ℕ → Option FieldType → Value → Outcome Bytes
  serialize schema f none obj = ok []
  serialize schema f (some t) obj = serialize_field schema f t obj
