-- ===== src/Wire/Decode/RoundTrip.antt =====
-- The decoders invert the protocol's layout of each message body, whatever stands behind it.
use postgres_mapepire_proxy.Prelude.{
  ℕ, ◌<◌, ◌≡◌, ◌≢◌, refl, List, [], ◌∷◌, ◌++◌, arith, Option, none, some, length, take-append,
  drop-append, All,
}
use postgres_mapepire_proxy.Prelude.Results.{ok}
use postgres_mapepire_proxy.Prelude.Int.{ℤ, pos, negsuc}
use postgres_mapepire_proxy.Wire.Words.{
  Bytes, be16, be32, word32, InInt32, read_u16-be16, read_u32-be32, read_i32-be32,
}
use postgres_mapepire_proxy.Wire.Oids.{oid}
use postgres_mapepire_proxy.Wire.Decode.{
  read_c_string, read_u16s, read_u32s, read_value, read_values, ParseMessage, BindMessage,
  decode_parse, decode_bind, decode_parameter_value, number,
}

-- A text with no zero byte.
abbrev pub NoNul : Bytes → Type 0
NoNul = All (λ b. b ≢ 0)

abbrev pub c_string : Bytes → Bytes → Bytes
c_string value rest = value ++ 0 ∷ rest

abbrev pub u16s : List ℕ → Bytes → Bytes
u16s [] rest = rest
u16s (x ∷ xs) rest = be16 x ++ u16s xs rest

abbrev pub u32s : List ℕ → Bytes → Bytes
u32s [] rest = rest
u32s (x ∷ xs) rest = be32 x ++ u32s xs rest

abbrev pub value_bytes : Option Bytes → Bytes → Bytes
value_bytes none rest = be32 (word32 (negsuc 0)) ++ rest
value_bytes (some v) rest = be32 (length v) ++ (v ++ rest)

abbrev pub values_bytes : List (Option Bytes) → Bytes → Bytes
values_bytes [] rest = rest
values_bytes (v ∷ vs) rest = value_bytes v (values_bytes vs rest)

abbrev pub ShortValue : Option Bytes → Type 0
ShortValue none = Unit {0}
ShortValue (some v) = length v < 2147483648

pub read_c_string-c_string :
    (value rest : Bytes) → NoNul value → read_c_string (c_string value rest) ≡ ok (value, rest)
unfolding read_c_string
read_c_string-c_string [] rest h = refl
read_c_string-c_string (b ∷ value) rest h =
    ground (arith, h.0, read_c_string-c_string value rest h.1)

pub read_u16s-u16s :
    (xs : List ℕ) (rest : Bytes)
    → All (λ x. x < 65536) xs
    → read_u16s (length xs) (u16s xs rest) ≡ ok (xs, rest)
unfolding read_u16s
read_u16s-u16s [] rest h = refl
read_u16s-u16s (x ∷ xs) rest h =
    rw (read_u16-be16 x (u16s xs rest) h.0) (rw (read_u16s-u16s xs rest h.1))

pub read_u32s-u32s :
    (xs : List ℕ) (rest : Bytes)
    → All (λ x. x < 4294967296) xs
    → read_u32s (length xs) (u32s xs rest) ≡ ok (xs, rest)
unfolding read_u32s
read_u32s-u32s [] rest h = refl
read_u32s-u32s (x ∷ xs) rest h =
    rw (read_u32-be32 x (u32s xs rest) h.0) (rw (read_u32s-u32s xs rest h.1))

read_value-value_bytes :
    (v : Option Bytes) (rest : Bytes)
    → ShortValue v
    → read_value (value_bytes v rest) ≡ ok (v, rest)
unfolding read_value
read_value-value_bytes none rest h = rw (read_i32-be32 (negsuc 0) rest (omega arith))
read_value-value_bytes (some v) rest h =
    rw (read_i32-be32 (pos (length v)) (v ++ rest) h) (rw (take-append v rest, drop-append v rest))

pub read_values-values_bytes :
    (vs : List (Option Bytes)) (rest : Bytes)
    → All ShortValue vs
    → read_values (length vs) (values_bytes vs rest) ≡ ok (vs, rest)
unfolding read_values
read_values-values_bytes [] rest h = refl
read_values-values_bytes (v ∷ vs) rest h =
    rw (read_value-value_bytes v (values_bytes vs rest) h.0)
      (rw (read_values-values_bytes vs rest h.1))

-- The protocol's layout of a Parse body.
abbrev pub parse_bytes : ParseMessage → Bytes → Bytes
parse_bytes m rest =
    c_string m.name (c_string m.sql (be16 (length m.parameter_oids) ++ u32s m.parameter_oids rest))

abbrev pub IsParse : ParseMessage → Type 0
IsParse m =
    NoNul m.name
    × NoNul m.sql
    × (length m.parameter_oids < 65536)
    × All (λ x. x < 4294967296) m.parameter_oids

-- A Parse body laid out by the protocol is read back, whatever bytes stand behind it: the names
-- hold no zero byte, and the counts and type numbers fit their words.
pub decode_parse-parse_bytes :
    (m : ParseMessage) (rest : Bytes) → IsParse m → decode_parse (parse_bytes m rest) ≡ ok m
unfolding decode_parse
decode_parse-parse_bytes m rest (n, s, c, o) = rw (read_c_string-c_string m.name _ n) (
    rw (read_c_string-c_string m.sql _ s) (
      rw (read_u16-be16 (length m.parameter_oids) _ c)
        (rw (read_u32s-u32s m.parameter_oids rest o))))

-- The protocol's layout of a Bind body.
abbrev pub bind_bytes : BindMessage → Bytes → Bytes
bind_bytes m rest = c_string m.portal (
    c_string m.statement (
      be16 (length m.parameter_formats)
      ++ u16s m.parameter_formats (
          be16 (length m.parameter_values)
          ++ values_bytes m.parameter_values
              (be16 (length m.result_formats) ++ u16s m.result_formats rest))))

abbrev pub IsBind : BindMessage → Type 0
IsBind m =
    (NoNul m.portal × NoNul m.statement)
    × ((length m.parameter_formats < 65536) × All (λ x. x < 65536) m.parameter_formats)
    × ((length m.parameter_values < 65536) × All ShortValue m.parameter_values)
    × ((length m.result_formats < 65536) × All (λ x. x < 65536) m.result_formats)

-- A Bind body laid out by the protocol is read back, nulls and empty values kept apart: the names
-- hold no zero byte, and the counts, formats and value lengths fit their words.
pub decode_bind-bind_bytes :
    (m : BindMessage) (rest : Bytes) → IsBind m → decode_bind (bind_bytes m rest) ≡ ok m
unfolding decode_bind
decode_bind-bind_bytes m rest ((p, s), (fc, f), (vc, v), (rc, r)) =
    rw (read_c_string-c_string m.portal _ p) (
      rw (read_c_string-c_string m.statement _ s) (
        rw (read_u16-be16 (length m.parameter_formats) _ fc) (
          rw (read_u16s-u16s m.parameter_formats _ f) (
            rw (read_u16-be16 (length m.parameter_values) _ vc) (
              rw (read_values-values_bytes m.parameter_values _ v) (
                rw (read_u16-be16 (length m.result_formats) _ rc)
                  (rw (read_u16s-u16s m.result_formats rest r))))))))

-- A binary int4 parameter is read as the signed number whose two's complement it holds.
decode_parameter_value-int4 :
    (z : ℤ) → InInt32 z → decode_parameter_value (some (be32 (word32 z))) 1 oid.int4 ≡ ok (number z)
unfolding decode_parameter_value
decode_parameter_value-int4 z h = rw (read_i32-be32 z [] h)
