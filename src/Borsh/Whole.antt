-- ===== src/Borsh/Whole.antt =====
-- `serialize` and `deserialize` of utils/borsh.js on whole buffers.
use rainbow_bridge_cli.Base.{
  ℕ, Bool, zero, suc, ◌+◌, ◌<◌, ◌≡◌, ◌≢◌, refl, some, [], ◌∷◌, ◌++◌, length, arith, append-nil,
  length-append, ltb, true, false, if◌then◌else◌,
}
use rainbow_bridge_cli.Base.Bytes.{Bytes, le_value}
use rainbow_bridge_cli.Base.Io.{JsError, Outcome, ok, err, exit, hangs, out_of_fuel, js_error}
use rainbow_bridge_cli.Base.Sync.{◌>>=◌}
use rainbow_bridge_cli.Borsh.Types.{Value, FieldType, name, Reader, Schema, string, builtin}
use rainbow_bridge_cli.Borsh.Serialize.{BinaryWriter, IsBorsh, serialize}
use rainbow_bridge_cli.Borsh.Reader.{read_string, advance}
use rainbow_bridge_cli.Borsh.Reader.Ahead.{Ahead}
use rainbow_bridge_cli.Borsh.Deserialize.{deserialize_field, deserialize}
use rainbow_bridge_cli.Borsh.Deserialize.Steps.{deserialize_string}
use rainbow_bridge_cli.Borsh.Typed.{Typed}
use rainbow_bridge_cli.Borsh.RoundTrip.{field_round_trip}

abbrev start : Bytes → Reader
start b = record { buf = b; offset = 0 }

abbrev trailing : JsError
trailing = js_error "Unexpected bytes after deserialized data"

Ahead-start : (b rest : Bytes) → Ahead (start (b ++ rest)) (b ++ rest)
Ahead-start b rest = record { within = omega arith; left = refl }

nonempty : (extra : Bytes) → extra ≢ [] → 0 < length extra
nonempty [] h = absurd (h refl)
nonempty (x ∷ extra) h = omega arith

more_left : (b extra : Bytes) → extra ≢ [] → ltb (0 + length b) (length (b ++ extra)) ≡ true
more_left b extra h = let e = length-append {0} b extra in let p = nonempty extra h in ground arith

none_left : (b : Bytes) → ltb (0 + length b) (length (b ++ [])) ≡ false
none_left b = let e = length-append {0} b [] in ground arith

module _ (w : BinaryWriter) (lawful : IsBorsh w) (bn : Bytes → ℕ)
    (bn_le : (b : Bytes) → bn b ≡ le_value b) (schema : Schema) {d : ℕ} {t : FieldType} {v : Value}
    (ty : Typed schema d t v) where
  reads_all :
      (b rest : Bytes) {more : Bool}
      → ((r : Reader) (rest : Bytes)
          → Ahead r (b ++ rest)
          → deserialize_field bn schema d t r ≡ ok (v, advance r (length b)))
      → ltb (0 + length b) (length (b ++ rest)) ≡ more
      → deserialize bn schema d (some t) (b ++ rest) ≡ (if more then err trailing else ok v)
  unfolding deserialize
  reads_all b rest reads p = rw (reads (start (b ++ rest)) rest (Ahead-start b rest)) (rw p)

  -- A value that a field type describes, with types nested at most `d` deep, is serialized without
  -- an error within `d` nested calls, and the bytes deserialize to the same value.
  pub deserialize-serialize :
      (b : Bytes) × (serialize w schema d (some t) v ≡ ok b)
      × (deserialize bn schema d (some t) b ≡ ok v)
  deserialize-serialize =
      let (b, coded) = field_round_trip w lawful bn bn_le schema ty in
      (
        b,
        (unfold serialize in coded.writes),
        rw append-nil at (reads_all b [] coded.reads (none_left b)),
      )

  -- Bytes behind a serialized value are an error.
  pub deserialize_trailing :
      (extra : Bytes)
      → extra ≢ []
      → (b : Bytes) × (serialize w schema d (some t) v ≡ ok b)
        × (e : JsError) × (deserialize bn schema d (some t) (b ++ extra) ≡ err e)
  deserialize_trailing extra h =
      let (b, coded) = field_round_trip w lawful bn bn_le schema ty in
      (
        b,
        (unfold serialize in coded.writes),
        _,
        reads_all b extra coded.reads (more_left b extra h),
      )

-- `readString` returns no value, whatever the buffer holds.
read_string_throws : (r r' : Reader) (v : Value) → read_string r ≢ ok (v, r')
unfolding read_string
read_string_throws r r' v e = ground arith

string_is_builtin : builtin "string" ≡ string
unfolding builtin
string_is_builtin = refl

string_stays :
    (m : Outcome (Value × Reader)) (f : Value × Reader → Outcome Value) (v : Value)
    → ((r' : Reader) (v : Value) → m ≢ ok (v, r'))
    → (m >>= f) ≢ ok v
string_stays (ok (u, r)) f v h e = h r u refl
string_stays (err x) f v h e = cc
string_stays (exit n) f v h e = cc
string_stays hangs f v h e = cc
string_stays out_of_fuel f v h e = cc

-- A value of type 'string' is never deserialized: whatever the schema, the buffer and the depth of
-- the calls, `deserialize` returns no value.
pub deserialize-string :
    (bn : Bytes → ℕ) (schema : Schema) (f : ℕ) (buffer : Bytes) (v : Value)
    → deserialize bn schema f (some (name "string")) buffer ≢ ok v
unfolding deserialize
deserialize-string bn schema zero buffer v e = unfold deserialize_field in cc
deserialize-string bn schema (suc f) buffer v e =
    string_stays (read_string (start buffer)) _ v (read_string_throws (start buffer))
      (rw (deserialize_string bn schema f "string" (start buffer) string_is_builtin) at e)
