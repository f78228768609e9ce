-- ===== src/Borsh/Reader/Ahead.antt =====
-- What the reads of `BinaryReader` return when the bytes ahead of the offset are known.
use rainbow_bridge_cli.Base.{
  ℕ, zero, suc, ◌+◌, ◌≤◌, ◌<◌, ◌^◌, ◌≡◌, refl, ap, ◌∙◌, sym, true, [], ◌∷◌, ◌++◌, arith, take, drop,
  length, length-append, length-drop, leb,
}
use rainbow_bridge_cli.Base.Bytes.{Bytes, le_bytes, le_value, length-le_bytes, le_value-le_bytes}
use rainbow_bridge_cli.Base.Io.{JsError, ok}
use rainbow_bridge_cli.Borsh.Types.{Reader}
use rainbow_bridge_cli.Borsh.Reader.{
  advance, fits, read_u8, read_u32, read_buffer, read_u64, read_u128, read_fixed_array,
}

-- The offset lies in the buffer, and `xs` is what is left to read.
pub record Ahead (r : Reader) (xs : Bytes) : Type 0 where
  pub within : r.offset ≤ length r.buf
  pub left : drop r.offset r.buf ≡ xs

le→leb : (a b : ℕ) → a ≤ b → leb a b ≡ true
le→leb a b h = ground arith

abbrev nothing : Bytes
nothing = []

drop-nil : (n : ℕ) → drop n nothing ≡ nothing
drop-nil zero = refl
drop-nil (suc n) = refl

drop-drop : (m n : ℕ) (xs : Bytes) → drop (m + n) xs ≡ drop n (drop m xs)
drop-drop zero n xs = let e : 0 + n ≡ n = omega arith in rw e
drop-drop (suc m) n [] = drop-nil (suc m + n) ∙ sym (drop-nil n)
drop-drop (suc m) n (x ∷ xs) =
    let e : suc m + n ≡ suc (m + n) = omega arith in rw e (drop-drop m n xs)

drop-append : (b rest : Bytes) → drop (length b) (b ++ rest) ≡ rest
drop-append [] rest = refl
drop-append (x ∷ b) rest = drop-append b rest

take-append : (b rest : Bytes) → take (length b) (b ++ rest) ≡ b
take-append [] rest = refl
take-append (x ∷ b) rest = rw (take-append b rest)

module _ (r : Reader) (b rest : Bytes) (h : Ahead r (b ++ rest)) where
  room : r.offset + length b ≤ length r.buf
  room =
      omega (
        arith,
        h.within,
        ap length h.left,
        length-append {0} b rest,
        length-drop {0} r.offset r.buf,
      )

  pub Ahead-advance : Ahead (advance r (length b)) rest
  Ahead-advance = record {
    within = room;
    left = drop-drop r.offset (length b) r.buf ∙ rw h.left (drop-append b rest);
  }

  fits_ahead : (e : JsError) → fits r (length b) e ≡ ok b
  fits_ahead e = rw (le→leb _ _ room) (rw h.left (ap ok (take-append b rest)))

  pub read_buffer_ahead : read_buffer (length b) r ≡ ok (b, advance r (length b))
  unfolding read_buffer
  read_buffer_ahead = rw fits_ahead

fits_of_length :
    (r : Reader) (b rest : Bytes) (k : ℕ) (e : JsError)
    → length b ≡ k
    → Ahead r (b ++ rest)
    → fits r k e ≡ ok b
fits_of_length r b rest k e p h = rw (← p) (fits_ahead r b rest h e)

pub read_u8-Ahead :
    (r : Reader) (n : ℕ) (rest : Bytes) → Ahead r (n ∷ rest) → read_u8 r ≡ ok (n, advance r 1)
unfolding read_u8
read_u8-Ahead r n rest h = rw (fits_ahead r (n ∷ []) rest h) (ground arith)

pub read_u32-Ahead :
    (r : Reader) (n : ℕ) (rest : Bytes)
    → n < 256 ^ 4
    → Ahead r (le_bytes 4 n ++ rest)
    → read_u32 r ≡ ok (n, advance r 4)
unfolding read_u32
read_u32-Ahead r n rest small h =
    rw (fits_of_length r (le_bytes 4 n) rest 4 _ (length-le_bytes 4 n) h)
      (rw (le_value-le_bytes 4 n small))

pub read_fixed_array-Ahead :
    (r : Reader) (b rest : Bytes)
    → Ahead r (b ++ rest)
    → read_fixed_array (length b) r ≡ ok (b, advance r (length b))
unfolding read_fixed_array
read_fixed_array-Ahead r b rest h = rw (fits_ahead r b rest h)

module _ (bn : Bytes → ℕ) (bn_le : (b : Bytes) → bn b ≡ le_value b) where
  bn-le_bytes : (k n : ℕ) → n < 256 ^ k → bn (le_bytes k n) ≡ n
  bn-le_bytes k n small = bn_le (le_bytes k n) ∙ le_value-le_bytes k n small

  pub read_u64-Ahead :
      (r : Reader) (n : ℕ) (rest : Bytes)
      → n < 256 ^ 8
      → Ahead r (le_bytes 8 n ++ rest)
      → read_u64 bn r ≡ ok (n, advance r 8)
  unfolding read_u64
  read_u64-Ahead r n rest small h =
      rw (fits_of_length r (le_bytes 8 n) rest 8 _ (length-le_bytes 8 n) h)
        (rw (bn-le_bytes 8 n small))

  pub read_u128-Ahead :
      (r : Reader) (n : ℕ) (rest : Bytes)
      → n < 256 ^ 16
      → Ahead r (le_bytes 16 n ++ rest)
      → read_u128 bn r ≡ ok (n, advance r 16)
  unfolding read_u128
  read_u128-Ahead r n rest small h =
      rw (fits_of_length r (le_bytes 16 n) rest 16 _ (length-le_bytes 16 n) h)
        (rw (bn-le_bytes 16 n small))
