-- ===== src/Borsh/Reader.antt =====
-- `BinaryReader` of utils/borsh.js. `readUInt8`, `readUInt32LE` and `slice` are Node's.
pub mod Ahead
use rainbow_bridge_cli.Base.{
  ℕ, zero, suc, ◌+◌, ◌∷◌, take, drop, length, leb, if◌then◌else◌, List, [],
}
use rainbow_bridge_cli.Base.Bytes.{Bytes, le_value}
use rainbow_bridge_cli.Base.Io.{JsError, Outcome, ok, err, js_error}
use rainbow_bridge_cli.Base.Sync.{◌>>=◌}
use rainbow_bridge_cli.Borsh.Types.{Value, num, text, bytes, Items, nil, cons, Reader}

abbrev pub range_error : JsError
range_error = record (js_error "Attempt to access memory outside buffer bounds") {
  name = "RangeError";
}

abbrev pub bounds_error : JsError
bounds_error = record (js_error "Expected buffer length isn't within bounds") {
  name = "BorshError";
}

-- A class called without `new`.
abbrev pub class_error : JsError
class_error = record (js_error "Class constructor TextDecoder cannot be invoked without 'new'") {
  name = "TypeError";
}

-- buf.slice(offset, offset + len), inside the buffer
abbrev pub slice : Reader → ℕ → Bytes
slice r len = take len (drop r.offset r.buf)

abbrev pub advance : Reader → ℕ → Reader
advance r len = record r { offset = r.offset + len }

abbrev pub fits : Reader → ℕ → JsError → Outcome Bytes
fits r len e = if leb (r.offset + len) (length r.buf) then ok (slice r len) else err e

-- buf.readUInt8(offset)
unfoldable pub read_u8 : Reader → Outcome (ℕ × Reader)
unfolding le_value
read_u8 r = do b ← fits r 1 range_error; ok (le_value b, advance r 1)

-- buf.readUInt32LE(offset)
unfoldable pub read_u32 : Reader → Outcome (ℕ × Reader)
unfolding le_value
read_u32 r = do b ← fits r 4 range_error; ok (le_value b, advance r 4)

unfoldable pub read_buffer : ℕ → Reader → Outcome (Bytes × Reader)
read_buffer len r = do b ← fits r len bounds_error; ok (b, advance r len)

-- `bn` is `new BN(buf, 'le')`
module _ (bn : Bytes → ℕ) where
  unfoldable pub read_u64 : Reader → Outcome (ℕ × Reader)
  unfolding read_buffer
  read_u64 r = do (b, r') ← read_buffer 8 r; ok (bn b, r')

  unfoldable pub read_u128 : Reader → Outcome (ℕ × Reader)
  unfolding read_buffer
  read_u128 r = do (b, r') ← read_buffer 16 r; ok (bn b, r')

-- `TextDecoder()` is called without `new`, and outside the `try`: the call throws, after the bytes
-- of the text have been taken.
unfoldable pub read_string : Reader → Outcome (Value × Reader)
unfolding read_u32 read_buffer
read_string r = do (len, r') ← read_u32 r; (b, r'') ← read_buffer len r'; err class_error

unfoldable pub read_fixed_array : ℕ → Reader → Outcome (Bytes × Reader)
unfolding read_buffer
read_fixed_array len r = read_buffer len r

module _ (fn : Reader → Outcome (Value × Reader)) where
  unfoldable pub read_items : ℕ → Reader → Outcome (Items × Reader)
  read_items zero r = ok (nil, r)
  read_items (suc n) r = do (v, r') ← fn r; (vs, r'') ← read_items n r'; ok (cons v vs, r'')

  unfoldable pub read_array : Reader → Outcome (Items × Reader)
  unfolding read_u32 read_items
  read_array r = do (len, r') ← read_u32 r; read_items len r'
