-- ===== src/Wire/Words.antt =====
-- The big-endian words that `Buffer` reads and writes, with its range checks.
use postgres_mapepire_proxy.Prelude.{
  ℕ, ◌+◌, ◌-◌, ◌*◌, ◌/◌, ◌%◌, ◌<◌, ◌≡◌, List, [], ◌∷◌, ◌++◌, arith, ltb, if◌then◌else◌,
}
use postgres_mapepire_proxy.Prelude.Results.{Result, ok, err}
use postgres_mapepire_proxy.Prelude.Int.{ℤ, pos, negsuc}

-- The bytes of a `Buffer`.
abbrev pub Bytes : Type 0
Bytes = List ℕ

-- What a codec throws.
pub data WireError : Type 0 where
  out_of_range malformed_length frame_too_large buffer_too_large truncated_frame : WireError
  missing_terminator bytea_unsupported binary_unsupported : WireError

abbrev pub Decoded : Type 0 → Type 0
Decoded A = Result WireError (A × Bytes)

-- The four bytes of an unsigned word.
abbrev pub be32 : ℕ → Bytes
be32 n = (n / 16777216 % 256) ∷ (n / 65536 % 256) ∷ (n / 256 % 256) ∷ (n % 256) ∷ []

abbrev pub be16 : ℕ → Bytes
be16 n = (n / 256 % 256) ∷ (n % 256) ∷ []

abbrev pub u32_of : ℕ → ℕ → ℕ → ℕ → ℕ
u32_of a b c d = ((a * 256 + b) * 256 + c) * 256 + d

abbrev pub i32_of : ℕ → ℤ
i32_of u = if ltb u 2147483648 then pos u else negsuc (4294967295 - u)

abbrev pub i16_of : ℕ → ℤ
i16_of u = if ltb u 32768 then pos u else negsuc (65535 - u)

-- buf.readUInt32BE, readInt32BE, readUInt16BE, readInt16BE, readUInt8: a read past the end throws.
unfoldable pub read_u32 : Bytes → Decoded ℕ
read_u32 (a ∷ b ∷ c ∷ d ∷ rest) = ok (u32_of a b c d, rest)
read_u32 _ = err out_of_range

unfoldable pub read_i32 : Bytes → Decoded ℤ
read_i32 (a ∷ b ∷ c ∷ d ∷ rest) = ok (i32_of (u32_of a b c d), rest)
read_i32 _ = err out_of_range

unfoldable pub read_u16 : Bytes → Decoded ℕ
read_u16 (a ∷ b ∷ rest) = ok (a * 256 + b, rest)
read_u16 _ = err out_of_range

unfoldable pub read_i16 : Bytes → Decoded ℤ
read_i16 (a ∷ b ∷ rest) = ok (i16_of (a * 256 + b), rest)
read_i16 _ = err out_of_range

unfoldable pub read_u8 : Bytes → Decoded ℕ
read_u8 (a ∷ rest) = ok (a, rest)
read_u8 _ = err out_of_range

-- The unsigned word of a signed value, in two's complement.
abbrev pub word32 : ℤ → ℕ
word32 (pos n) = n
word32 (negsuc n) = 4294967295 - n

abbrev pub word16 : ℤ → ℕ
word16 (pos n) = n
word16 (negsuc n) = 65535 - n

abbrev pub InInt32 : ℤ → Type 0
InInt32 (pos n) = n < 2147483648
InInt32 (negsuc n) = n < 2147483648

abbrev pub InInt16 : ℤ → Type 0
InInt16 (pos n) = n < 32768
InInt16 (negsuc n) = n < 32768

-- buf.writeInt32BE and its like: a value out of range throws.
unfoldable pub write_i32 : ℤ → Result WireError Bytes
write_i32 (pos n) = if ltb n 2147483648 then ok (be32 n) else err out_of_range
write_i32 (negsuc n) = if ltb n 2147483648 then ok (be32 (4294967295 - n)) else err out_of_range

unfoldable pub write_u16 : ℕ → Result WireError Bytes
write_u16 n = if ltb n 65536 then ok (be16 n) else err out_of_range

unfoldable pub write_i16 : ℤ → Result WireError Bytes
write_i16 (pos n) = if ltb n 32768 then ok (be16 n) else err out_of_range
write_i16 (negsuc n) = if ltb n 32768 then ok (be16 (65535 - n)) else err out_of_range

pub u32_of-be32 :
    (n : ℕ)
    → n < 4294967296
    → u32_of (n / 16777216 % 256) (n / 65536 % 256) (n / 256 % 256) (n % 256) ≡ n
u32_of-be32 n h = omega arith

pub read_u32-be32 :
    (n : ℕ) (rest : Bytes) → n < 4294967296 → read_u32 (be32 n ++ rest) ≡ ok (n, rest)
unfolding read_u32
read_u32-be32 n rest h = rw (u32_of-be32 n h)

pub read_u16-be16 : (n : ℕ) (rest : Bytes) → n < 65536 → read_u16 (be16 n ++ rest) ≡ ok (n, rest)
unfolding read_u16
read_u16-be16 n rest h = let e : n / 256 % 256 * 256 + n % 256 ≡ n = omega arith in rw e

i32_of-word32 : (z : ℤ) → InInt32 z → i32_of (word32 z) ≡ z
i32_of-word32 (pos n) h = ground arith
i32_of-word32 (negsuc n) h = ground arith

word32-lt : (z : ℤ) → InInt32 z → word32 z < 4294967296
word32-lt (pos n) h = omega arith
word32-lt (negsuc n) h = omega arith

pub read_i32-be32 :
    (z : ℤ) (rest : Bytes) → InInt32 z → read_i32 (be32 (word32 z) ++ rest) ≡ ok (z, rest)
unfolding read_i32
read_i32-be32 z rest h = rw (u32_of-be32 (word32 z) (word32-lt z h)) (rw (i32_of-word32 z h))

i16_of-word16 : (z : ℤ) → InInt16 z → i16_of (word16 z) ≡ z
i16_of-word16 (pos n) h = ground arith
i16_of-word16 (negsuc n) h = ground arith

word16_bytes : (z : ℤ) → InInt16 z → word16 z / 256 % 256 * 256 + word16 z % 256 ≡ word16 z
word16_bytes (pos n) h = omega arith
word16_bytes (negsuc n) h = omega arith

pub read_i16-be16 :
    (z : ℤ) (rest : Bytes) → InInt16 z → read_i16 (be16 (word16 z) ++ rest) ≡ ok (z, rest)
unfolding read_i16
read_i16-be16 z rest h =
    let e : word16 z / 256 % 256 * 256 + word16 z % 256 ≡ word16 z = word16_bytes z h in
    rw e (rw (i16_of-word16 z h))
