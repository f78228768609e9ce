-- ===== src/Borsh/Typed.antt =====
-- Which values a field type of a schema describes.
use rainbow_bridge_cli.Base.{
  ℕ, suc, ◌<◌, ◌^◌, ◌≡◌, ◌≢◌, String, Bool, none, some, List, [], ◌∷◌, ◌++◌, length,
}
use rainbow_bridge_cli.Base.Bytes.{Bytes}
use rainbow_bridge_cli.Base.Io.{ok, Outcome}
use rainbow_bridge_cli.Borsh.Types.{
  Value, null, bool, num, bytes, array, object, Items, nil, cons, Fields, end, length_items, lookup,
  append_field, FieldType, name, fixed, seq, Reader, option, struct, function, Schema, find_type,
  u8, u64, u128, boolean, in_schema, builtin,
}
use rainbow_bridge_cli.Borsh.Reader.{advance}
use rainbow_bridge_cli.Borsh.Reader.Ahead.{Ahead}

-- A custom codec reads back the bytes that it wrote for `v`.
pub record Codes (ser : Value → Outcome Bytes) (deser : Reader → Outcome (Value × Reader))
    (v : Value) : Type 0 where
  pub written : Bytes
  pub writes : ser v ≡ ok written
  pub reads :
      (r : Reader) (rest : Bytes)
      → Ahead r (written ++ rest)
      → deser r ≡ ok (v, advance r (length written))

-- `Typed d t v`: the value `v` has the type `t`, with types nested at most `d` deep. There is no rule
-- for texts: `readString` never returns one.
module _ (schema : Schema) where
  mutual
    pub data Typed : ℕ → FieldType → Value → Type 0 where
      byte :
          {d : ℕ} {t : String} {n : ℕ} → builtin t ≡ u8 → n < 256 → Typed (suc d) (name t) (num n)
      word :
          {d : ℕ} {t : String} {n : ℕ}
          → builtin t ≡ u64
          → n < 256 ^ 8
          → Typed (suc d) (name t) (num n)
      long :
          {d : ℕ} {t : String} {n : ℕ}
          → builtin t ≡ u128
          → n < 256 ^ 16
          → Typed (suc d) (name t) (num n)
      truth :
          {d : ℕ} {t : String} {b : Bool} → builtin t ≡ boolean → Typed (suc d) (name t) (bool b)
      exactly : {d n : ℕ} {b : Bytes} → length b ≡ n → Typed (suc d) (fixed n) (bytes b)
      many :
          {d : ℕ} {t : FieldType} {vs : Items}
          → length_items vs < 256 ^ 4
          → TypedItems d t vs
          → Typed (suc d) (seq t) (array vs)
      absent :
          {d : ℕ} {t : String} {inner : FieldType}
          → builtin t ≡ in_schema
          → find_type t schema ≡ some (option inner)
          → Typed (suc d) (name t) null
      present :
          {d : ℕ} {t : String} {inner : FieldType} {v : Value}
          → builtin t ≡ in_schema
          → find_type t schema ≡ some (option inner)
          → v ≢ null
          → Typed d inner v
          → Typed (suc d) (name t) v
      fields :
          {d : ℕ} {t : String} {fs : List (String × FieldType)} {whole : Fields}
          → builtin t ≡ in_schema
          → find_type t schema ≡ some (struct fs)
          → TypedFields d fs end whole
          → Typed (suc d) (name t) (object whole)
      custom :
          {d : ℕ} {t : String} {v : Value} {ser : Value → Outcome Bytes}
          {deser : Reader → Outcome (Value × Reader)}
          → builtin t ≡ in_schema
          → find_type t schema ≡ some (function ser deser)
          → Codes ser deser v
          → Typed (suc d) (name t) v

    pub data TypedItems : ℕ → FieldType → Items → Type 0 where
      empty : {d : ℕ} {t : FieldType} → TypedItems d t nil
      item :
          {d : ℕ} {t : FieldType} {v : Value} {vs : Items}
          → Typed d t v
          → TypedItems d t vs
          → TypedItems d t (cons v vs)

    -- The object `whole` has the fields `done` followed by `fs`, in this order, each name once.
    pub data TypedFields : ℕ → List (String × FieldType) → Fields → Fields → Type 0 where
      no_more : {d : ℕ} {done whole : Fields} → done ≡ whole → TypedFields d [] done whole
      next :
          {d : ℕ} {n : String} {t : FieldType} {fs : List (String × FieldType)}
          {done whole : Fields} {v : Value}
          → lookup n done ≡ none
          → lookup n whole ≡ some v
          → Typed d t v
          → TypedFields d fs (append_field done n v) whole
          → TypedFields d ((n, t) ∷ fs) done whole
