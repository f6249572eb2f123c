-- ===== src/Wire/Tests.antt =====
-- The wire codec on concrete streams.
use postgres_mapepire_proxy.Prelude.{◌≡◌, refl, List, [], ◌∷◌, ◌++◌, none, some, arith, codes}
use postgres_mapepire_proxy.Prelude.Results.{ok}
use postgres_mapepire_proxy.Wire.Words.{Bytes, read_u16}
use postgres_mapepire_proxy.Wire.Frames.{
  FrontendMessage, next_frame, waits, consume_frontend_messages,
}
use postgres_mapepire_proxy.Wire.Frames.RoundTrip.{raw, raw_all, consume-raw_all}
use postgres_mapepire_proxy.Wire.Frames.Chunks.{prepend, consume_chunks}
use postgres_mapepire_proxy.Wire.Frames.Sound.{consume_sound}
use postgres_mapepire_proxy.Wire.Decode.{
  ParseMessage, BindMessage, decode_parse, decode_bind, read_values,
}
use postgres_mapepire_proxy.Wire.Decode.RoundTrip.{
  values_bytes, parse_bytes, bind_bytes, decode_parse-parse_bytes, decode_bind-bind_bytes,
}
use postgres_mapepire_proxy.Wire.Encode.{Cell, null, printed, data_row, encode_text_value}
use postgres_mapepire_proxy.Wire.Encode.RowLaws.{row_values, row_body, data_row-read}

abbrev query_message : FrontendMessage
query_message = record { kind = b'Q'; body = codes "SELECT 1" ++ 0 ∷ [] }

abbrev sync_message : FrontendMessage
sync_message = record { kind = b'S'; body = [] }

abbrev two_messages : List FrontendMessage
two_messages = query_message ∷ sync_message ∷ []

-- The start of a third frame.
abbrev cut_frame : Bytes
cut_frame = b'X' ∷ 0 ∷ 0 ∷ []

cut_frame_waits : next_frame 1024 cut_frame ≡ waits
unfolding next_frame
cut_frame_waits = refl

letter_waits : next_frame 1024 (b'X' ∷ []) ≡ waits
unfolding next_frame
letter_waits = refl

consume-raw_all_example :
    consume_frontend_messages 1024 (raw_all two_messages ++ cut_frame)
    ≡ ok (two_messages, cut_frame)
consume-raw_all_example =
    consume-raw_all 1024 two_messages cut_frame (omega arith) (omega arith)
      (omega arith, (omega arith, tt)) cut_frame_waits

first_alone :
    consume_frontend_messages 1024 (raw_all (query_message ∷ []) ++ cut_frame)
    ≡ ok (query_message ∷ [], cut_frame)
first_alone =
    consume-raw_all 1024 (query_message ∷ []) cut_frame (omega arith) (omega arith)
      (omega arith, tt) cut_frame_waits

consume_chunks_example :
    consume_frontend_messages 1024 ((raw_all (query_message ∷ []) ++ cut_frame) ++ 0 ∷ 4 ∷ [])
    ≡ prepend (query_message ∷ []) (consume_frontend_messages 1024 (cut_frame ++ 0 ∷ 4 ∷ []))
consume_chunks_example =
    consume_chunks 1024 (raw_all (query_message ∷ []) ++ cut_frame) (0 ∷ 4 ∷ [])
      (query_message ∷ []) cut_frame (omega arith) first_alone

sync_alone :
    consume_frontend_messages 1024 (raw_all (sync_message ∷ []) ++ b'X' ∷ [])
    ≡ ok (sync_message ∷ [], b'X' ∷ [])
sync_alone =
    consume-raw_all 1024 (sync_message ∷ []) (b'X' ∷ []) (omega arith) (omega arith)
      (omega arith, tt) letter_waits

consume_sound_example : b'S' ∷ 0 ∷ 0 ∷ 0 ∷ 4 ∷ b'X' ∷ [] ≡ raw_all (sync_message ∷ []) ++ b'X' ∷ []
consume_sound_example =
    consume_sound 1024 (b'S' ∷ 0 ∷ 0 ∷ 0 ∷ 4 ∷ b'X' ∷ []) (sync_message ∷ []) (b'X' ∷ [])
      (omega arith)
      (omega arith, (omega arith, (omega arith, (omega arith, (omega arith, (omega arith, tt))))))
      sync_alone

-- A statement with two parameters, of unknown type and of type int4.
abbrev insert_message : ParseMessage
insert_message = record { name = codes "s"; sql = codes "A?"; parameter_oids = 0 ∷ 23 ∷ [] }

decode_parse-parse_bytes_example : decode_parse (parse_bytes insert_message []) ≡ ok insert_message
decode_parse-parse_bytes_example = decode_parse-parse_bytes insert_message [] (
  (omega arith, tt),
  (omega arith, (omega arith, tt)),
  omega arith,
  (omega arith, (omega arith, tt)),
)

-- A null and a text of two bytes, the first in binary form.
abbrev insert_values : BindMessage
insert_values = record {
  portal = [];
  statement = codes "s";
  parameter_formats = 1 ∷ 0 ∷ [];
  parameter_values = none ∷ some (codes "42") ∷ [];
  result_formats = 0 ∷ [];
}

decode_bind-bind_bytes_example : decode_bind (bind_bytes insert_values []) ≡ ok insert_values
decode_bind-bind_bytes_example = decode_bind-bind_bytes insert_values [] (
  (tt, (omega arith, tt)),
  (omega arith, (omega arith, (omega arith, tt))),
  (omega arith, (tt, (omega arith, tt))),
  (omega arith, (omega arith, tt)),
)

-- A null, an empty text and a text of two bytes.
abbrev three_cells : List Cell
three_cells = null ∷ printed [] ∷ printed (codes "42") ∷ []

data_row-read_example :
    (data_row three_cells ≡ ok (raw (record { kind = b'D'; body = row_body three_cells })))
    × (read_u16 (row_body three_cells) ≡ ok (3, values_bytes (row_values three_cells) []))
    × (read_values 3 (values_bytes (row_values three_cells) [])
        ≡ ok (none ∷ some [] ∷ some (codes "42") ∷ [], []))
unfolding encode_text_value
data_row-read_example =
    data_row-read three_cells (omega arith) (tt, (omega arith, (omega arith, tt))) (omega arith)
