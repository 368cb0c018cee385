-- ===== src/Tars/Tests.antt =====
-- Runs of the encoding, and the theorems about it at concrete inputs.
use learn_tars.Base.{
  ℕ, ◌≤◌, ◌<◌, ◌+◌, ◌^◌, length, ◌≡◌, refl, true, List, [], ◌∷◌, ◌++◌, arith, inr,
}
use learn_tars.Tars.Bytes.{le_bytes, hton, tars_htonll, tars_htonll-hton}
use learn_tars.Tars.Stream.{ok, err, require_not_exist}
use learn_tars.Tars.Skip.{skip_field}
use learn_tars.Tars.Read.{char_of, read_field, read_string, read_char_vector, short_of}
use learn_tars.Tars.Write.{
  Writer, write_string, write_char_vector, write_type, write_buf, write_head, write_char,
  write_bool, write_short, write_uint8, write_int32, write_uint16, write_int64, write_uint32,
  write_float,
}
use learn_tars.Tars.Cursor.{at, head_bytes}
use learn_tars.Tars.Search.{read_field-absent}
use learn_tars.Tars.Kinds.{int64, write_number, read_number, write_number-read_number}
use learn_tars.Tars.Items.{
  Item, Items, number, text, sequence, mapping, structure, nil, cons, count, wire, bytes, IsItem,
  AreItems, fuel, fuel_all,
}
use learn_tars.Tars.SkipValues.{skip_field_lem}
use learn_tars.Tars.Unknown.{AreBelow, read_field-bytes}
use learn_tars.Tars.Wire.{field_bytes, wire8, wire16, wire32, wire64}
use learn_tars.Tars.Strings.{write_string-read_string}
use learn_tars.Tars.CharVectors.{write_char_vector-read_char_vector}
use learn_tars.Tars.Fields.{GivesBack, IsMeasured}

-- One byte written, and one more that follows what will be written.
abbrev opened : Writer
opened = record { bytes = 5 ∷ []; buf_len = 2 }

abbrev tail : List ℕ
tail = 11 ∷ []

-- 70000 takes four bytes behind a head of one; tag 20 takes a head of two bytes.
written :
    ((write_int32 70000 3 opened).bytes ≡ 5 ∷ 50 ∷ 0 ∷ 1 ∷ 17 ∷ 112 ∷ [])
    × ((write_short 7 20 opened).bytes ≡ 5 ∷ 240 ∷ 20 ∷ 7 ∷ [])
unfolding write_int32 write_short write_char write_type write_buf write_head le_bytes hton
written = (refl, refl)

measured :
    IsMeasured opened tail (write_char 200 3 opened)
    × IsMeasured opened tail (write_short 40000 3 opened)
    × IsMeasured opened tail (write_uint8 200 3 opened)
    × IsMeasured opened tail (write_int32 70000 3 opened)
    × IsMeasured opened tail (write_uint16 50000 3 opened)
    × IsMeasured opened tail (write_int64 4294967295 3 opened)
    × IsMeasured opened tail (write_uint32 3000000000 3 opened)
    × IsMeasured opened tail (write_float 1069547520 3 opened)
    × IsMeasured opened tail (write_bool true 3 opened)
unfolding write_int32 write_short write_char write_type write_buf write_head le_bytes hton
    write_uint8 write_uint16 write_int64 write_uint32 write_float write_bool tars_htonll
measured = (
  omega arith,
  omega arith,
  omega arith,
  omega arith,
  omega arith,
  omega arith,
  omega arith,
  omega arith,
  omega arith,
)

write_number-read_number_example :
    GivesBack opened tail
      (read_number int64 2 0 3 true)
      (write_number int64 4294967295 3 opened)
      4294967295
unfolding write_number read_number
write_number-read_number_example =
    write_number-read_number opened tail 3 (omega arith) 0 true int64 4294967295 0 (omega arith)
      measured.5

tars_htonll-hton_example : tars_htonll 300 ≡ hton 8 300
tars_htonll-hton_example = tars_htonll-hton 300 (omega arith)

read_field-absent_example :
    read_field 1 2 7 true short_of (at tail (head_bytes 1 4 ++ tail))
    ≡ (err require_not_exist, at tail (head_bytes 1 4 ++ tail))
read_field-absent_example =
    read_field-absent 1 4 tail tail (omega arith) (omega arith) (omega arith) 0 2 7 true short_of
      (inr (omega arith))

abbrev text_bytes : List ℕ
text_bytes = 104 ∷ 105 ∷ []

write_string-read_string_example :
    (w' : Writer) × (write_string text_bytes 3 opened ≡ ok w')
    × GivesBack opened tail (read_string 1 [] 3 true) w' text_bytes
write_string-read_string_example =
    write_string-read_string opened tail 3 (omega arith) 0 true text_bytes [] (omega arith)
      (omega arith)

vector-IsMeasured : IsMeasured opened tail (write_char_vector text_bytes 3 opened)
unfolding write_char_vector write_int32 write_short write_char write_type write_buf write_head
    le_bytes hton
vector-IsMeasured = omega arith

write_char_vector-read_char_vector_example :
    GivesBack opened tail
      (read_char_vector 1 [] 3 true)
      (write_char_vector text_bytes 3 opened)
      text_bytes
write_char_vector-read_char_vector_example =
    write_char_vector-read_char_vector text_bytes tail (omega arith) opened 3 (omega arith) 0 true
      [] vector-IsMeasured

-- A struct with a number and a list of a string and a number, behind a map of one pair.
abbrev listed : Items
listed = cons 0 (text text_bytes) (cons 0 (number 70000) nil)

abbrev record_item : Item
record_item = structure (cons 0 (number 5) (cons 20 (sequence listed) nil))

abbrev earlier : Items
earlier = cons 0 record_item (cons 2 (mapping 1 listed) nil)

earlier_size : (fuel record_item ≤ 30) × (fuel_all earlier ≤ 60)
unfolding fuel fuel_all
earlier_size = (omega arith, omega arith)

earlier_items : IsItem record_item × AreItems earlier × AreBelow 3 earlier
unfolding IsItem AreItems AreBelow count
earlier_items = ground arith

earlier_short :
    (length tail + length (wire record_item).1 + length tail < 2 ^ 31)
    × (length tail + length (bytes earlier) + length (field_bytes (0, 9 ∷ []) 3) + length tail
        < 2 ^ 31)
unfolding wire bytes count head_bytes wire64 wire32 wire16 wire8 le_bytes hton
earlier_short = (omega arith, omega arith)

skip_field_lem_example :
    skip_field 30 (wire record_item).0 (at tail ((wire record_item).1 ++ tail))
    ≡ (ok tt, at (tail ++ (wire record_item).1) tail)
skip_field_lem_example =
    skip_field_lem record_item 30 tail tail earlier_size.0 earlier_items.0 earlier_short.0

read_field-bytes_example :
    read_field 60 3 7 true char_of (at tail (bytes earlier ++ (field_bytes (0, 9 ∷ []) 3 ++ tail)))
    ≡ char_of 0 (at ((tail ++ bytes earlier) ++ head_bytes 0 3) ((9 ∷ []) ++ tail))
read_field-bytes_example =
    read_field-bytes earlier (0, 9 ∷ []) 60 3 7 true char_of tail tail earlier_size.1
      earlier_items.1 earlier_items.2 (omega arith) (omega arith) (omega arith) earlier_short.1
