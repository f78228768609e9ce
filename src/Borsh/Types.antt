-- ===== src/Borsh/Types.antt =====
-- The JavaScript values that pass through utils/borsh.js, its field types and its schemas.
use rainbow_bridge_cli.Base.{
  ℕ, suc, ◌≡◌, refl, arith, String, Bool, Option, none, some, List, [], ◌∷◌, ◌===◌, if◌then◌else◌,
}
use rainbow_bridge_cli.Base.Bytes.{Bytes}
use rainbow_bridge_cli.Base.Io.{Outcome}

-- `bytes` is a `Uint8Array` or a `Buffer`; a `BN` is a number.
mutual
  pub data Value : Type 0 where
    null : Value
    undefined : Value
    bool : Bool → Value
    num : ℕ → Value
    text : String → Value
    bytes : Bytes → Value
    array : Items → Value
    object : Fields → Value

  pub data Items : Type 0 where
    nil : Items
    cons : Value → Items → Items

  pub data Fields : Type 0 where
    end : Fields
    field : String → Value → Fields → Fields

abbrev pub length_items : Items → ℕ
length_items nil = 0
length_items (cons v vs) = suc (length_items vs)

abbrev pub items_of : Bytes → Items
items_of [] = nil
items_of (b ∷ bs) = cons (num b) (items_of bs)

-- object[name]
abbrev pub lookup : String → Fields → Option Value
lookup name end = none
lookup name (field n v rest) = if n === name then some v else lookup name rest

-- object[name] = value
abbrev pub set_field : Fields → String → Value → Fields
set_field end name v = field name v end
set_field (field n w rest) name v =
    if n === name then field n v rest else field n w (set_field rest name v)

abbrev pub append_field : Fields → String → Value → Fields
append_field end name v = field name v end
append_field (field n w rest) name v = field n w (append_field rest name v)

pub set_field_fresh :
    (fs : Fields) (name : String) (v : Value)
    → lookup name fs ≡ none
    → set_field fs name v ≡ append_field fs name v
set_field_fresh end name v h = refl
set_field_fresh (field n w rest) name v h = ground (arith, set_field_fresh rest name v)

-- A field type is a string, an array `[n]` that holds a number, or an array `[type]`.
pub data FieldType : Type 0 where
  name : String → FieldType
  fixed : ℕ → FieldType
  seq : FieldType → FieldType

-- `BinaryReader`
pub record Reader : Type 0 where
  pub buf : Bytes
  pub offset : ℕ

-- schema[fieldType], by its `kind`
pub data StructSchema : Type 0 where
  option : FieldType → StructSchema
  struct : List (String × FieldType) → StructSchema
  function : (Value → Outcome Bytes) → (Reader → Outcome (Value × Reader)) → StructSchema
  unexpected : String → StructSchema

abbrev pub Schema : Type 0
Schema = List (String × StructSchema)

abbrev pub find_type : String → Schema → Option StructSchema
find_type s [] = none
find_type s ((n, k) ∷ rest) = if n === s then some k else find_type s rest

-- The types that are tested for by name, before the schema is looked at.
pub data Builtin : Type 0 where
  u8 u64 u128 boolean string in_schema : Builtin

unfoldable pub builtin : String → Builtin
builtin s =
    if s === "u8"
    then u8
    else if s === "u64"
    then u64
    else if s === "u128"
    then u128
    else if s === "bool"
    then boolean
    else if s === "string"
    then string
    else in_schema
