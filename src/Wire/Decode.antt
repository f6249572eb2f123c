-- ===== src/Wire/Decode.antt =====
-- The decoders of the frontend messages' bodies. The read position `o` is kept as the bytes from
-- there on; `subarray` past the end gives what there is. Texts stay the bytes of their UTF-8.
pub mod RoundTrip
use postgres_mapepire_proxy.Prelude.{
  ℕ, zero, suc, ◌+◌, ◌-◌, ◌*◌, List, [], ◌∷◌, ltb, ◌==◌, Bool, true, false, Option, none, some,
  ◌&&◌, ◌||◌, if◌then◌else◌, length, take, drop,
}
use postgres_mapepire_proxy.Prelude.Results.{Result, ok, err, ◌>>=◌}
use postgres_mapepire_proxy.Prelude.Int.{ℤ, pos, negsuc}
use postgres_mapepire_proxy.Wire.Words.{
  Bytes, WireError, Decoded, missing_terminator, bytea_unsupported, binary_unsupported,
  out_of_range, read_u8, read_u16, read_i16, read_u32, read_i32,
}
use postgres_mapepire_proxy.Wire.Oids.{oid}

-- readCString(body, start)
pub read_c_string : Bytes → Decoded Bytes
read_c_string [] = err missing_terminator
read_c_string (b ∷ rest) =
    if b == 0 then ok ([], rest) else do (value, next) ← read_c_string rest; ok (b ∷ value, next)

-- The counted loops over `readUInt16BE` and `readUInt32BE`.
pub read_u16s : ℕ → Bytes → Decoded (List ℕ)
read_u16s zero body = ok ([], body)
read_u16s (suc n) body = do
  (x, rest) ← read_u16 body
  (xs, left) ← read_u16s n rest
  ok (x ∷ xs, left)

pub read_u32s : ℕ → Bytes → Decoded (List ℕ)
read_u32s zero body = ok ([], body)
read_u32s (suc n) body = do
  (x, rest) ← read_u32 body
  (xs, left) ← read_u32s n rest
  ok (x ∷ xs, left)

pub record ParseMessage : Type 0 where
  pub name : Bytes
  pub sql : Bytes
  pub parameter_oids : List ℕ

-- decodeParse(body)
unfoldable pub decode_parse : Bytes → Result WireError ParseMessage
decode_parse body = do
  (name, r1) ← read_c_string body
  (sql, r2) ← read_c_string r1
  (count, r3) ← read_u16 r2
  (oids, r4) ← read_u32s count r3
  ok (record { name = name; sql = sql; parameter_oids = oids })

pub record BindMessage : Type 0 where
  pub portal : Bytes
  pub statement : Bytes
  pub parameter_formats : List ℕ
  pub parameter_values : List (Option Bytes)
  pub result_formats : List ℕ

-- One parameter: a negative length is a null, else that many bytes, or as many as there are.
pub read_value : Bytes → Decoded (Option Bytes)
read_value body = do
  (len, rest) ← read_i32 body
  elim len [ negsuc n ↦ ok (none, rest) | pos n ↦ ok (some (take n rest), drop n rest) ]

pub read_values : ℕ → Bytes → Decoded (List (Option Bytes))
read_values zero body = ok ([], body)
read_values (suc n) body = do
  (x, rest) ← read_value body
  (xs, left) ← read_values n rest
  ok (x ∷ xs, left)

-- decodeBind(body)
unfoldable pub decode_bind : Bytes → Result WireError BindMessage
decode_bind body = do
  (portal, r1) ← read_c_string body
  (statement, r2) ← read_c_string r1
  (format_count, r3) ← read_u16 r2
  (formats, r4) ← read_u16s format_count r3
  (value_count, r5) ← read_u16 r4
  (values, r6) ← read_values value_count r5
  (result_count, r7) ← read_u16 r6
  (results, r8) ← read_u16s result_count r7
  ok (record {
    portal = portal;
    statement = statement;
    parameter_formats = formats;
    parameter_values = values;
    result_formats = results;
  })

-- The kind of thing that Describe and Close name, as the byte read.
pub record TargetMessage : Type 0 where
  pub target : ℕ
  pub name : Bytes

-- decodeDescribe(body)
unfoldable pub decode_describe : Bytes → Result WireError TargetMessage
decode_describe body = do
  (target, r1) ← read_u8 body
  (name, r2) ← read_c_string r1
  ok (record { target = target; name = name })

-- decodeClose(body)
unfoldable pub decode_close : Bytes → Result WireError TargetMessage
decode_close body = do
  (target, r1) ← read_u8 body
  (name, r2) ← read_c_string r1
  ok (record { target = target; name = name })

pub record ExecuteMessage : Type 0 where
  pub portal : Bytes
  pub max_rows : ℕ

-- decodeExecute(body)
unfoldable pub decode_execute : Bytes → Result WireError ExecuteMessage
decode_execute body = do
  (portal, r1) ← read_c_string body
  (max_rows, r2) ← read_u32 r1
  ok (record { portal = portal; max_rows = max_rows })

-- decodeQuery(body)
unfoldable pub decode_query : Bytes → Result WireError Bytes
decode_query body = do (sql, rest) ← read_c_string body; ok sql

-- A decoded parameter. `bigint` is printed in decimal by the source; a float stays its four or
-- eight bytes, which `readFloatBE` and `readDoubleBE` read.
pub data ParameterValue : Type 0 where
  null : ParameterValue
  text : Bytes → ParameterValue
  number : ℤ → ParameterValue
  bigint : ℤ → ParameterValue
  float4 : Bytes → ParameterValue
  float8 : Bytes → ParameterValue

-- buf.readBigInt64BE(0)
abbrev pub read_i64 : Bytes → Decoded ℤ
read_i64 body = do
  (high, r1) ← read_u32 body
  (low, r2) ← read_u32 r1
  ok (i64_of (high * 4294967296 + low), r2)
  where
    i64_of : ℕ → ℤ
    i64_of u = if ltb u 9223372036854775808 then pos u else negsuc (18446744073709551615 - u)

abbrev first_bytes : ℕ → Bytes → Result WireError Bytes
first_bytes n body = if ltb (length body) n then err out_of_range else ok (take n body)

-- The branch for a binary format.
binary_value : Bytes → ℕ → Result WireError ParameterValue
binary_value buffer type =
    if type == oid.bool
    then (do (b, r) ← read_u8 buffer; ok (number (pos (if b == 0 then 0 else 1))))
    else if type == oid.int2
    then (do (n, r) ← read_i16 buffer; ok (number n))
    else if type == oid.int4 || type == oid.oid
    then (do (n, r) ← read_i32 buffer; ok (number n))
    else if type == oid.int8
    then (do (n, r) ← read_i64 buffer; ok (bigint n))
    else if type == oid.float4
    then (do b ← first_bytes 4 buffer; ok (float4 b))
    else if type == oid.float8
    then (do b ← first_bytes 8 buffer; ok (float8 b))
    else if type == oid.bytea
    then err bytea_unsupported
    else err binary_unsupported

-- decodeParameterValue(buffer, format, oid)
unfoldable pub decode_parameter_value : Option Bytes → ℕ → ℕ → Result WireError ParameterValue
unfolding binary_value
decode_parameter_value none format type = ok null
decode_parameter_value (some buffer) zero type =
    if type == oid.bytea then err bytea_unsupported else ok (text buffer)
decode_parameter_value (some buffer) (suc format) type = binary_value buffer type
