-- ===== src/Wire/Encode.antt =====
-- The backend frames: `frame` applied to each message's payload. A text is the bytes of its UTF-8.
pub mod RowLaws
use postgres_mapepire_proxy.Prelude.{
  ℕ, zero, suc, ◌+◌, ◌-◌, ◌%◌, ◌^◌, ◌/◌, List, [], ◌∷◌, ◌++◌, ltb, ◌==◌, Bool, true, false, Option,
  none, some, codes, map, ◌&&◌, ◌||◌, if◌then◌else◌, length, take, drop,
}
use postgres_mapepire_proxy.Prelude.Results.{Result, ok, err, ◌>>=◌}
use postgres_mapepire_proxy.Prelude.Int.{ℤ, pos, negsuc}
use postgres_mapepire_proxy.Wire.Words.{
  Bytes, WireError, be32, i32_of, write_u16, write_i16, write_i32,
}
use postgres_mapepire_proxy.Wire.Frames.{frame}

-- cstr(value)
abbrev pub cstr : Bytes → Bytes
cstr value = value ++ 0 ∷ []

abbrev pub parse_complete : Result WireError Bytes
parse_complete = frame b'1' []

abbrev pub bind_complete : Result WireError Bytes
bind_complete = frame b'2' []

abbrev pub close_complete : Result WireError Bytes
close_complete = frame b'3' []

abbrev pub no_data : Result WireError Bytes
no_data = frame b'n' []

abbrev pub empty_query_response : Result WireError Bytes
empty_query_response = frame b'I' []

-- `x >>> 0`, on a value that is not negative.
abbrev to_u32 : ℕ → ℕ
to_u32 x = x % 4294967296

abbrev oids_payload : List ℕ → Bytes
oids_payload [] = []
oids_payload (x ∷ xs) = be32 (to_u32 x) ++ oids_payload xs

-- parameterDescription(oids)
unfoldable pub parameter_description : List ℕ → Result WireError Bytes
parameter_description oids = do
  count ← write_u16 (length oids)
  frame b't' (count ++ oids_payload oids)

-- A field, with the defaults of the optional members filled in.
pub record FieldDescription : Type 0 where
  pub name : Bytes
  pub table_oid : ℕ
  pub column_attr : ℤ
  pub type_oid : ℕ
  pub type_size : ℤ
  pub type_modifier : ℤ
  pub format : ℕ

-- One field of rowDescription: the name and eighteen bytes.
pub field_bytes : FieldDescription → Result WireError Bytes
field_bytes f = do
  attr ← write_i16 f.column_attr
  size ← write_i16 f.type_size
  modifier ← write_i32 f.type_modifier
  format ← write_i16 (pos f.format)
  ok (
      cstr f.name
      ++ (be32 (to_u32 f.table_oid)
          ++ (attr ++ (be32 (to_u32 f.type_oid) ++ (size ++ (modifier ++ format))))))

pub fields_bytes : List FieldDescription → Result WireError Bytes
fields_bytes [] = ok []
fields_bytes (f ∷ fs) = do head ← field_bytes f; rest ← fields_bytes fs; ok (head ++ rest)

-- rowDescription(fields)
unfoldable pub row_description : List FieldDescription → Result WireError Bytes
row_description fields = do
  count ← write_u16 (length fields)
  chunks ← fields_bytes fields
  frame b'T' (count ++ chunks)

-- A value of a row: null or undefined, bytes (a Buffer or a Uint8Array), a boolean, or a value that
-- the runtime prints (a number, a date, an object), as the text that it prints.
pub data Cell : Type 0 where
  null : Cell
  binary : Bytes → Cell
  boolean : Bool → Cell
  printed : Bytes → Cell

hex_digit : ℕ → ℕ
hex_digit n = if ltb n 10 then b'0' + n else b'a' + (n - 10)

hex : Bytes → Bytes
hex [] = []
hex (b ∷ bs) = hex_digit (b / 16 % 16) ∷ hex_digit (b % 16) ∷ hex bs

-- encodeTextValue(value), which is not called on a null.
unfoldable pub encode_text_value : Cell → Bytes
unfolding hex hex_digit
encode_text_value null = codes "null"
encode_text_value (binary b) = b'\\' ∷ b'x' ∷ hex b
encode_text_value (boolean true) = b't' ∷ []
encode_text_value (boolean false) = b'f' ∷ []
encode_text_value (printed text) = text

-- One value of dataRow: -1, or the length and the bytes.
pub cell_bytes : Cell → Result WireError Bytes
cell_bytes null = write_i32 (negsuc 0)
cell_bytes cell = do
  size ← write_i32 (pos (length (encode_text_value cell)))
  ok (size ++ encode_text_value cell)

pub cells_bytes : List Cell → Result WireError Bytes
cells_bytes [] = ok []
cells_bytes (c ∷ cs) = do head ← cell_bytes c; rest ← cells_bytes cs; ok (head ++ rest)

-- dataRow(values)
unfoldable pub data_row : List Cell → Result WireError Bytes
data_row values = do
  count ← write_u16 (length values)
  chunks ← cells_bytes values
  frame b'D' (count ++ chunks)

-- commandComplete(tag)
abbrev pub command_complete : Bytes → Result WireError Bytes
command_complete tag = frame b'C' (cstr tag)

-- readyForQuery(status)
abbrev pub ready_for_query : ℕ → Result WireError Bytes
ready_for_query status = frame b'Z' (status ∷ [])

-- backendKeyData(processId, secretKey), on values of which `| 0` keeps the low 32 bits.
unfoldable pub backend_key_data : ℕ → ℕ → Result WireError Bytes
backend_key_data process_id secret_key = do
  p ← write_i32 (i32_of (process_id % 4294967296))
  s ← write_i32 (i32_of (secret_key % 4294967296))
  frame b'K' (p ++ s)

-- The argument of errorResponse; an optional member that is missing is `none`.
pub record ErrorInput : Type 0 where
  pub severity : Option Bytes
  pub code : Option Bytes
  pub message : Bytes
  pub detail : Option Bytes
  pub hint : Option Bytes

-- add(code, value): an empty text is falsy, and adds nothing.
add_field : ℕ → Option Bytes → Bytes → Bytes
add_field code none rest = rest
add_field code (some []) rest = rest
add_field code (some (b ∷ bs)) rest = code ∷ ((b ∷ bs) ++ 0 ∷ rest)

-- `value ?? fallback`
abbrev pub or_else : Option Bytes → Bytes → Bytes
or_else none d = d
or_else (some v) d = v

-- The payload of errorResponse(input).
pub error_payload : ErrorInput → Bytes
unfolding add_field
error_payload e = add_field b'S' (some (or_else e.severity (codes "ERROR"))) (
    add_field b'V' (some (or_else e.severity (codes "ERROR"))) (
      add_field b'C' (some (or_else e.code (codes "XX000"))) (
        add_field b'M' (some e.message)
          (add_field b'D' e.detail (add_field b'H' e.hint (0 ∷ []))))))

unfoldable pub error_response : ErrorInput → Result WireError Bytes
unfolding error_payload
error_response e = frame b'E' (error_payload e)

-- noticeResponse(message)
abbrev pub notice_response : Bytes → Result WireError Bytes
notice_response message = frame b'N' (codes "SNOTICE" ++ (0 ∷ b'M' ∷ (message ++ 0 ∷ 0 ∷ [])))
