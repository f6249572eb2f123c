-- ===== src/Wire/Encode/RowLaws.antt =====
-- A data row read back as a client reads it.
use postgres_mapepire_proxy.Prelude.{
  ℕ, suc, ◌+◌, ◌<◌, ◌≡◌, refl, ap, List, [], ◌∷◌, ◌++◌, arith, Option, none, some, length,
  append-nil, All,
}
use postgres_mapepire_proxy.Prelude.Results.{ok}
use postgres_mapepire_proxy.Prelude.Int.{pos}
use postgres_mapepire_proxy.Wire.Words.{
  Bytes, be16, be32, write_u16, write_i32, read_u16, read_u16-be16,
}
use postgres_mapepire_proxy.Wire.Frames.RoundTrip.{raw, frame-raw}
use postgres_mapepire_proxy.Wire.Decode.{read_values}
use postgres_mapepire_proxy.Wire.Decode.RoundTrip.{
  value_bytes, values_bytes, ShortValue, read_values-values_bytes,
}
use postgres_mapepire_proxy.Wire.Encode.{
  Cell, null, binary, boolean, printed, encode_text_value, cell_bytes, cells_bytes, data_row,
}

-- What a client sees of a value: nothing, or its text.
abbrev pub cell_value : Cell → Option Bytes
cell_value null = none
cell_value (binary b) = some (encode_text_value (binary b))
cell_value (boolean b) = some (encode_text_value (boolean b))
cell_value (printed t) = some (encode_text_value (printed t))

abbrev pub row_values : List Cell → List (Option Bytes)
row_values [] = []
row_values (c ∷ cs) = cell_value c ∷ row_values cs

value_bytes-append :
    (v : Option Bytes) (rest : Bytes) → value_bytes v [] ++ rest ≡ value_bytes v rest
value_bytes-append none rest = refl
value_bytes-append (some v) rest = rw append-nil refl

write-length : (n : ℕ) → n < 2147483648 → write_i32 (pos n) ≡ ok (be32 n)
unfolding write_i32
write-length n h = ground arith

cell_bytes-value_bytes :
    (c : Cell) → ShortValue (cell_value c) → cell_bytes c ≡ ok (value_bytes (cell_value c) [])
unfolding cell_bytes
cell_bytes-value_bytes null h = unfold write_i32 in refl
cell_bytes-value_bytes (binary b) h = rw (write-length _ h) (rw append-nil)
cell_bytes-value_bytes (boolean b) h = rw (write-length _ h) (rw append-nil)
cell_bytes-value_bytes (printed t) h = rw (write-length _ h) (rw append-nil)

cells_bytes-values_bytes :
    (cs : List Cell)
    → All ShortValue (row_values cs)
    → cells_bytes cs ≡ ok (values_bytes (row_values cs) [])
unfolding cells_bytes
cells_bytes-values_bytes [] h = refl
cells_bytes-values_bytes (c ∷ cs) h =
    rw (cell_bytes-value_bytes c h.0)
      (rw (cells_bytes-values_bytes cs h.1) (rw (value_bytes-append (cell_value c) _)))

-- The payload of a row, by the protocol.
abbrev pub row_body : List Cell → Bytes
row_body cs = be16 (length cs) ++ values_bytes (row_values cs) []

length-row_values : (cs : List Cell) → length (row_values cs) ≡ length cs
length-row_values [] = refl
length-row_values (c ∷ cs) = ap suc (length-row_values cs)

-- A data row is one `D` frame, and a client that reads its count and its values gets a null for
-- each null and the text of every other value, in order, with nothing left over. The row has
-- fewer than 2^16 values, and its texts and the whole payload fit a length word.
pub data_row-read :
    (cs : List Cell)
    → length cs < 65536
    → All ShortValue (row_values cs)
    → length (row_body cs) + 4 < 2147483648
    → (data_row cs ≡ ok (raw (record { kind = b'D'; body = row_body cs })))
      × (read_u16 (row_body cs) ≡ ok (length cs, values_bytes (row_values cs) []))
      × (read_values (length cs) (values_bytes (row_values cs) []) ≡ ok (row_values cs, []))
unfolding data_row
data_row-read cs n s t = (
  rw (count, cells_bytes-values_bytes cs s) (frame-raw b'D' (row_body cs) t),
  read_u16-be16 (length cs) _ n,
  rw (← length-row_values cs) (read_values-values_bytes (row_values cs) [] s),
)
  where
    count : write_u16 (length cs) ≡ ok (be16 (length cs))
    count = unfold write_u16 in ground arith
