-- ===== src/Borsh/RoundTrip.antt =====
-- What `serialize` wrote, `deserialize` reads back.
use rainbow_bridge_cli.Base.{
  ℕ, suc, ◌+◌, ◌≡◌, refl, sym, ap, ◌∙◌, String, true, false, none, some, List, [], ◌∷◌, ◌++◌,
  length, arith, append_assoc, length-append,
}
use rainbow_bridge_cli.Base.Bytes.{Bytes, le_bytes, le_value, length-le_bytes}
use rainbow_bridge_cli.Base.Io.{ok, Outcome}
use rainbow_bridge_cli.Borsh.Types.{
  Value, object, Items, nil, cons, Fields, length_items, lookup, append_field, set_field_fresh,
  FieldType, Reader, Schema,
}
use rainbow_bridge_cli.Borsh.Serialize.{
  BinaryWriter, IsBorsh, write_items, write_fields, serialize_field,
}
use rainbow_bridge_cli.Borsh.Reader.{advance, read_items}
use rainbow_bridge_cli.Borsh.Reader.Ahead.{
  Ahead, Ahead-advance, read_u8-Ahead, read_u32-Ahead, read_u64-Ahead, read_u128-Ahead,
  read_fixed_array-Ahead,
}
use rainbow_bridge_cli.Borsh.Deserialize.{read_fields, deserialize_field}
use rainbow_bridge_cli.Borsh.Serialize.Steps.{
  serialize_u8, serialize_u64, serialize_u128, serialize_boolean, serialize_option,
  serialize_struct, serialize_function, write_option_null, write_option_some, serialize_fixed,
  serialize_seq,
}
use rainbow_bridge_cli.Borsh.Deserialize.Steps.{
  deserialize_u8, deserialize_u64, deserialize_u128, deserialize_boolean, deserialize_absent,
  deserialize_present, deserialize_struct, deserialize_function, deserialize_fixed, deserialize_seq,
}
use rainbow_bridge_cli.Borsh.Typed.{
  Typed, byte, word, long, truth, exactly, many, absent, present, fields, custom, TypedItems, empty,
  item, TypedFields, no_more, next,
}

-- `b` is what was written, and reading it gives `v`.
pub record Coded {A : Type 0} (b : Bytes) (written : Outcome Bytes)
    (read : Reader → Outcome (A × Reader)) (v : A) : Type 0 where
  pub writes : written ≡ ok b
  pub reads :
      (r : Reader) (rest : Bytes) → Ahead r (b ++ rest) → read r ≡ ok (v, advance r (length b))

abbrev pub RoundTrips : {A : Type 0} → Outcome Bytes → (Reader → Outcome (A × Reader)) → A → Type 0
RoundTrips written read v = (b : Bytes) × Coded b written read v

advance-append :
    (r : Reader) (h b : Bytes)
    → advance (advance r (length h)) (length b) ≡ advance r (length (h ++ b))
advance-append r h b =
    let e : r.offset + length h + length b ≡ r.offset + length (h ++ b) =
      omega (arith, length-append {0} h b) in
    ap (λ o. record r { offset = o }) e

-- Two reads in sequence: the second one starts where the first one ended.
module _ {A : Type 0} (h b : Bytes) {v : A} (read : Reader → Outcome (A × Reader)) where
  then_reads :
      (r : Reader) (rest : Bytes)
      → Ahead r ((h ++ b) ++ rest)
      → ((q : Reader) (rest : Bytes) → Ahead q (b ++ rest) → read q ≡ ok (v, advance q (length b)))
      → read (advance r (length h)) ≡ ok (v, advance r (length (h ++ b)))
  then_reads r rest at reads =
      reads (advance r (length h)) rest (Ahead-advance r h (b ++ rest) (rw append_assoc at at))
      ∙ ap (λ q. ok (v, q)) (advance-append r h b)

advance-zero : (r : Reader) → advance r 0 ≡ r
advance-zero r =
    let e : r.offset + 0 ≡ r.offset = omega arith in ap (λ o. record r { offset = o }) e

-- An element before the other elements, and a field before the other fields.
module _ (write : Value → Outcome Bytes) (read : Reader → Outcome (Value × Reader)) where
  RoundTrips-nil : RoundTrips (write_items write nil) (read_items read 0) nil
  unfolding write_items read_items
  RoundTrips-nil = (
    [],
    record { writes = refl; reads = λ r rest at. ap (λ q. ok (nil, q)) (sym (advance-zero r)) },
  )

  RoundTrips-cons :
      {v : Value} {vs : Items}
      → RoundTrips (write v) read v
      → RoundTrips (write_items write vs) (read_items read (length_items vs)) vs
      → RoundTrips
          (write_items write (cons v vs))
          (read_items read (suc (length_items vs)))
          (cons v vs)
  RoundTrips-cons {v} {vs} (b, first) (bs, others) = (
    b ++ bs,
    record {
      writes = unfold write_items in rw first.writes (rw others.writes);
      reads = λ r rest at.
          unfold read_items in
          rw (first.reads r (bs ++ rest) (rw append_assoc at at))
            (rw (then_reads b bs (read_items read (length_items vs)) r rest at others.reads));
    },
  )

module _ (write : FieldType → Value → Outcome Bytes)
    (read : FieldType → Reader → Outcome (Value × Reader)) where
  RoundTrips-end :
      {done whole : Fields}
      → done ≡ whole
      → RoundTrips (write_fields write [] (object whole)) (read_fields read [] done) (object whole)
  RoundTrips-end {whole = whole} e = (
    [],
    record {
      writes = unfold write_fields in refl;
      reads = λ r rest at.
          unfold read_fields in rw e (ap (λ q. ok (object whole, q)) (sym (advance-zero r)));
    },
  )

  RoundTrips-field :
      (n : String) (t : FieldType) (fs : List (String × FieldType)) (done : Fields) {whole : Fields}
      {v : Value}
      → lookup n done ≡ none
      → lookup n whole ≡ some v
      → RoundTrips (write t v) (read t) v
      → RoundTrips
          (write_fields write fs (object whole))
          (read_fields read fs (append_field done n v))
          (object whole)
      → RoundTrips
          (write_fields write ((n, t) ∷ fs) (object whole))
          (read_fields read ((n, t) ∷ fs) done)
          (object whole)
  RoundTrips-field n t fs done {whole} {v} fresh there (b, first) (bs, others) = (
    b ++ bs,
    record {
      writes = unfold write_fields in rw there (rw first.writes (rw others.writes));
      reads = λ r rest at.
          unfold read_fields in
          rw (first.reads r (bs ++ rest) (rw append_assoc at at)) (
            rw (set_field_fresh done n v fresh) (
              then_reads b bs (read_fields read fs (append_field done n v)) r rest at
                others.reads));
    },
  )

module _ (w : BinaryWriter) (lawful : IsBorsh w) (bn : Bytes → ℕ)
    (bn_le : (b : Bytes) → bn b ≡ le_value b) (schema : Schema) where
  mutual
    pub field_round_trip :
        {d : ℕ} {t : FieldType} {v : Value}
        → Typed schema d t v
        → RoundTrips (serialize_field w schema d t v) (deserialize_field bn schema d t) v
    field_round_trip (byte {n = n} e h) = (
      n ∷ [],
      record {
        writes = serialize_u8 w schema _ _ _ e ∙ lawful.u8 n h;
        reads = λ r rest at. deserialize_u8 bn schema _ _ r e (read_u8-Ahead r n rest at);
      },
    )
    field_round_trip (word {n = n} e h) = (
      le_bytes 8 n,
      record {
        writes = serialize_u64 w schema _ _ _ e ∙ lawful.u64 n h;
        reads = λ r rest at.
            rw length-le_bytes
              (deserialize_u64 bn schema _ _ r e (read_u64-Ahead bn bn_le r n rest h at));
      },
    )
    field_round_trip (long {n = n} e h) = (
      le_bytes 16 n,
      record {
        writes = serialize_u128 w schema _ _ _ e ∙ lawful.u128 n h;
        reads = λ r rest at.
            rw length-le_bytes
              (deserialize_u128 bn schema _ _ r e (read_u128-Ahead bn bn_le r n rest h at));
      },
    )
    field_round_trip (truth {b = true} e) = (
      1 ∷ [],
      record {
        writes = serialize_boolean w schema _ _ _ e ∙ lawful.u8 1 (omega arith);
        reads = λ r rest at. deserialize_boolean bn schema _ _ r e (read_u8-Ahead r 1 rest at);
      },
    )
    field_round_trip (truth {b = false} e) = (
      0 ∷ [],
      record {
        writes = serialize_boolean w schema _ _ _ e ∙ lawful.u8 0 (omega arith);
        reads = λ r rest at. deserialize_boolean bn schema _ _ r e (read_u8-Ahead r 0 rest at);
      },
    )
    field_round_trip (exactly {n = n} {b = b} e) = (
      b,
      record {
        writes = serialize_fixed w schema _ n b e ∙ lawful.fixed_array b;
        reads = λ r rest at.
            rw (← e)
              (deserialize_fixed bn schema _ r (length b) (read_fixed_array-Ahead r b rest at));
      },
    )
    field_round_trip (many {t = t} {vs = vs} h ts) =
        let (b, coded) = items_round_trip ts in
        let head = le_bytes 4 (length_items vs) in
        (
          head ++ b,
          record {
            writes =
                serialize_seq w schema _ t vs head b (lawful.array_length (length_items vs) h)
                  coded.writes;
            reads = λ r rest at.
                deserialize_seq bn schema _ r t (length_items vs)
                  (read_u32-Ahead r (length_items vs) (b ++ rest) h (rw append_assoc at at))
                  (rw length-le_bytes at (then_reads head b _ r rest at coded.reads));
          },
        )
    field_round_trip (absent e f) = (
      0 ∷ [],
      record {
        writes =
            serialize_option w schema _ _ _ e f ∙ write_option_null w _ ∙ lawful.u8 0 (omega arith);
        reads = λ r rest at. deserialize_absent bn schema _ _ r e f (read_u8-Ahead r 0 rest at);
      },
    )
    field_round_trip (present {inner = inner} {v = v} e f h ty) =
        let (b, coded) = field_round_trip ty in
        (
          1 ∷ b,
          record {
            writes =
                serialize_option w schema _ _ _ e f
                ∙ write_option_some w lawful _ v b h coded.writes;
            reads = λ r rest at.
                deserialize_present bn schema _ _ r e f (read_u8-Ahead r 1 (b ++ rest) at)
                ∙ then_reads (1 ∷ []) b _ r rest at coded.reads;
          },
        )
    field_round_trip (fields e f ts) =
        let (b, coded) = fields_round_trip ts in
        (
          b,
          record {
            writes = serialize_struct w schema _ _ _ e f ∙ coded.writes;
            reads = λ r rest at. deserialize_struct bn schema _ _ r e f ∙ coded.reads r rest at;
          },
        )
    field_round_trip (custom e f c) = (
      c.written,
      record {
        writes = serialize_function w schema _ _ _ e f ∙ c.writes;
        reads = λ r rest at. deserialize_function bn schema _ _ r e f ∙ c.reads r rest at;
      },
    )

    items_round_trip :
        {d : ℕ} {t : FieldType} {vs : Items}
        → TypedItems schema d t vs
        → RoundTrips
            (write_items (serialize_field w schema d t) vs)
            (read_items (deserialize_field bn schema d t) (length_items vs))
            vs
    items_round_trip empty = RoundTrips-nil _ _
    items_round_trip (item ty ts) = RoundTrips-cons _ _ (field_round_trip ty) (items_round_trip ts)

    fields_round_trip :
        {d : ℕ} {fs : List (String × FieldType)} {done whole : Fields}
        → TypedFields schema d fs done whole
        → RoundTrips
            (write_fields (serialize_field w schema d) fs (object whole))
            (read_fields (deserialize_field bn schema d) fs done)
            (object whole)
    fields_round_trip (no_more e) = RoundTrips-end _ _ e
    fields_round_trip (next {n = n} {t = t} {fs = fs} {done = done} fresh there ty ts) =
        RoundTrips-field _ _ n t fs done fresh there (field_round_trip ty) (fields_round_trip ts)
