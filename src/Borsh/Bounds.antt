-- ===== src/Borsh/Bounds.antt =====
-- The reader of utils/borsh.js stays in its buffer.
use rainbow_bridge_cli.Base.{
  ℕ, zero, suc, ◌+◌, ◌≤◌, ◌≡◌, refl, ◌∙◌, String, Option, none, some, List, [], ◌∷◌, length, arith,
  leb, ◌==◌, Bool-cases, inl, inr,
}
use rainbow_bridge_cli.Base.Bytes.{Bytes}
use rainbow_bridge_cli.Base.Io.{JsError, Outcome, ok, err}
use rainbow_bridge_cli.Base.Sync.{◌>>=◌}
use rainbow_bridge_cli.Borsh.Types.{
  Value, Fields, end, set_field, FieldType, name, fixed, seq, Reader, StructSchema, option, struct,
  function, unexpected, Schema, find_type, Builtin, u8, u64, u128, boolean, string, in_schema,
  builtin,
}
use rainbow_bridge_cli.Borsh.Reader.{
  fits, advance, bounds_error, class_error, read_u8, read_u32, read_buffer, read_u64, read_u128,
  read_string, read_fixed_array, read_items, read_array,
}
use rainbow_bridge_cli.Borsh.Deserialize.{
  read_fields, read_option, read_schema, read_named, deserialize_field,
}

-- From `r` to `r'` the offset grows, and stays in the same buffer.
pub record Within (r r' : Reader) : Type 0 where
  pub same : r'.buf ≡ r.buf
  pub grows : r.offset ≤ r'.offset
  pub inside : r'.offset ≤ length r'.buf

-- A read that returns has stayed in the buffer.
abbrev pub Stays : {A : Type 0} → Reader → Outcome (A × Reader) → Type 0
Stays r (ok (v, r')) = Within r r'
Stays r _ = Unit

abbrev pub InBuffer : Reader → Type 0
InBuffer r = r.offset ≤ length r.buf

Within-trans : {p q r : Reader} → Within p q → Within q r → Within p r
Within-trans a b = record {
  same = b.same ∙ a.same;
  grows = omega (arith, a.grows, b.grows);
  inside = b.inside;
}

Stays-bind :
    {A B : Type 0} (r : Reader) (m : Outcome (A × Reader)) (f : A × Reader → Outcome (B × Reader))
    → Stays r m
    → ((a : A) (q : Reader) → InBuffer q → Stays q (f (a, q)))
    → Stays r (m >>= f)
Stays-bind r (ok (a, q)) f h k = later (f (a, q)) h (k a q h.inside)
  where
    later : {B : Type 0} (n : Outcome (B × Reader)) → Within r q → Stays q n → Stays r n
    later (ok (b, p)) w s = Within-trans w s
    later (err e) w s = tt
    later _ w s = tt
Stays-bind r (err e) f h k = tt
Stays-bind r _ f h k = tt

Within-refl : (r : Reader) → InBuffer r → Within r r
Within-refl r h = record { same = refl; grows = omega arith; inside = h }

module _ (r : Reader) (h : InBuffer r) where
  fits-Stays :
      {A : Type 0} (n : ℕ) (e : JsError) (f : Bytes → A)
      → Stays r (fits r n e >>= λ b. ok (f b, advance r n))
  fits-Stays n e f = elim (Bool-cases (leb (r.offset + n) (length r.buf))) [
    | inl p ↦ rw p (record { same = refl; grows = omega arith; inside = ground arith })
    | inr p ↦ rw p tt
  ]

  read_u8-Stays : Stays r (read_u8 r)
  unfolding read_u8
  read_u8-Stays = fits-Stays 1 _ _

  read_u32-Stays : Stays r (read_u32 r)
  unfolding read_u32
  read_u32-Stays = fits-Stays 4 _ _

  read_buffer-Stays : (n : ℕ) → Stays r (read_buffer n r)
  unfolding read_buffer
  read_buffer-Stays n = fits-Stays n _ _

  read_fixed_array-Stays : (n : ℕ) → Stays r (read_fixed_array n r)
  unfolding read_fixed_array
  read_fixed_array-Stays n = fits-Stays n _ _

  module _ (bn : Bytes → ℕ) where
    read_u64-Stays : Stays r (read_u64 bn r)
    unfolding read_u64
    read_u64-Stays = Stays-bind r _ _ (fits-Stays 8 _ _) (λ b q k. Within-refl q k)

    read_u128-Stays : Stays r (read_u128 bn r)
    unfolding read_u128
    read_u128-Stays = Stays-bind r _ _ (fits-Stays 16 _ _) (λ b q k. Within-refl q k)

-- A read of values, from any place in the buffer.
abbrev StaysAlways : {A : Type 0} → (Reader → Outcome (A × Reader)) → Type 0
StaysAlways read = (r : Reader) → InBuffer r → Stays r (read r)

read_string-Stays : StaysAlways read_string
unfolding read_string
read_string-Stays r h = Stays-bind r _ _ (fits-Stays r h 4 _ _) λ n q k.
    Stays-bind {B = Value} q (fits q n bounds_error >>= λ b. ok (b, advance q n))
      (λ _. err class_error) (fits-Stays q k n _ _) (λ b p l. tt)

read_items-Stays :
    (read : Reader → Outcome (Value × Reader))
    → StaysAlways read
    → (n : ℕ) → StaysAlways (read_items read n)
unfolding read_items
read_items-Stays read h zero r k = Within-refl r k
read_items-Stays read h (suc n) r k =
    Stays-bind r _ _ (h r k)
      λ v q l. Stays-bind q _ _ (read_items-Stays read h n q l) λ vs p m. Within-refl p m

read_array-Stays :
    (read : Reader → Outcome (Value × Reader)) → StaysAlways read → StaysAlways (read_array read)
unfolding read_array
read_array-Stays read h r k =
    Stays-bind r _ _ (fits-Stays r k 4 _ _) λ n q l. read_items-Stays read h n q l

read_fields-Stays :
    (read : FieldType → Reader → Outcome (Value × Reader))
    → ((t : FieldType) → StaysAlways (read t))
    → (fs : List (String × FieldType)) (result : Fields) → StaysAlways (read_fields read fs result)
unfolding read_fields
read_fields-Stays read h [] result r k = Within-refl r k
read_fields-Stays read h ((n, t) ∷ fs) result r k =
    Stays-bind r _ _ (h t r k) λ v q l. read_fields-Stays read h fs (set_field result n v) q l

read_option-Stays :
    (read : FieldType → Reader → Outcome (Value × Reader))
    → ((t : FieldType) → StaysAlways (read t))
    → (t : FieldType) → StaysAlways (read_option read t)
unfolding read_option
read_option-Stays read h t r k = Stays-bind r _ _ (fits-Stays r k 1 _ _) λ flag q l.
    elim (Bool-cases (flag == 0)) [
      | inl zero_flag ↦ rw zero_flag (Within-refl q l)
      | inr p ↦ rw p (elim (Bool-cases (flag == 1)) [
        | inl one_flag ↦ rw one_flag (h t q l)
        | inr other_flag ↦ rw other_flag tt
      ])
    ]

-- The custom codecs of a schema stay in the buffer.
abbrev pub CodecStays : StructSchema → Type 0
CodecStays (function ser deser) = StaysAlways deser
CodecStays _ = Unit

module _ (schema : Schema)
    (codecs : (t : String) (k : StructSchema) → find_type t schema ≡ some k → CodecStays k)
    (read : FieldType → Reader → Outcome (Value × Reader))
    (h : (t : FieldType) → StaysAlways (read t)) where
  read_schema-Stays :
      (t : String) (o : Option StructSchema)
      → find_type t schema ≡ o
      → StaysAlways (read_schema read t o)
  unfolding read_schema
  read_schema-Stays t none e r k = tt
  read_schema-Stays t (some (option inner)) e r k = read_option-Stays read h inner r k
  read_schema-Stays t (some (struct fs)) e r k = read_fields-Stays read h fs end r k
  read_schema-Stays t (some (function ser deser)) e r k = codecs t _ e r k
  read_schema-Stays t (some (unexpected s)) e r k = tt

  read_named-Stays :
      (bn : Bytes → ℕ) (b : Builtin) (t : String) → StaysAlways (read_named bn read schema b t)
  unfolding read_named
  read_named-Stays bn u8 t r k = Stays-bind r _ _ (fits-Stays r k 1 _ _) λ n q l. Within-refl q l
  read_named-Stays bn u64 t r k = Stays-bind r _ _ (read_u64-Stays r k bn) λ n q l. Within-refl q l
  read_named-Stays bn u128 t r k =
      Stays-bind r _ _ (read_u128-Stays r k bn) λ n q l. Within-refl q l
  read_named-Stays bn boolean t r k =
      Stays-bind r _ _ (fits-Stays r k 1 _ _) λ n q l. Within-refl q l
  read_named-Stays bn string t r k = read_string-Stays r k
  read_named-Stays bn in_schema t r k = read_schema-Stays t (find_type t schema) refl r k

-- If the custom codecs of a schema stay in the buffer, then so does `deserializeField`, for every
-- field type and at every depth: where it returns, the buffer is the same, and the offset has not
-- gone back and is at most the buffer's length.
pub deserialize_field-Stays :
    (bn : Bytes → ℕ) (schema : Schema)
    → ((t : String) (k : StructSchema) → find_type t schema ≡ some k → CodecStays k)
    → (f : ℕ) (t : FieldType) (r : Reader) → InBuffer r
    → Stays r (deserialize_field bn schema f t r)
unfolding deserialize_field
deserialize_field-Stays bn schema codecs zero t r k = tt
deserialize_field-Stays bn schema codecs (suc f) (name t) r k =
    read_named-Stays schema codecs (deserialize_field bn schema f)
      (deserialize_field-Stays bn schema codecs f) bn (builtin t) t r k
deserialize_field-Stays bn schema codecs (suc f) (fixed n) r k =
    Stays-bind r _ _ (fits-Stays r k n _ _) λ b q l. Within-refl q l
deserialize_field-Stays bn schema codecs (suc f) (seq t) r k =
    Stays-bind r _ _
      (read_array-Stays (deserialize_field bn schema f t)
        (deserialize_field-Stays bn schema codecs f t) r k)
      λ vs q l. Within-refl q l
