-- ===== src/Tars/Items.antt =====
-- The values of the wire format of tup/Tars.h, nested as deep as they come, and the bytes of each.
use learn_tars.Base.{ℕ, suc, ◌+◌, ◌*◌, ◌^◌, ◌<◌, ◌≡◌, List, [], ◌++◌, length, ltb, if◌then◌else◌}
use learn_tars.Tars.Bytes.{le_bytes, hton}
use learn_tars.Tars.Stream.{
  head_float, head_double, head_string1, head_string4, head_map, head_list, head_struct_begin,
  head_struct_end, head_simple_list, head_char,
}
use learn_tars.Tars.Cursor.{head_bytes}
use learn_tars.Tars.Wire.{Wire, wire32, wire64, field_bytes}

mutual
  -- A value as it stands behind a head. A map of so many pairs is given as keys and values in turn.
  pub data Item : Type 0 where
    number : ℕ → Item
    float : ℕ → Item
    double : ℕ → Item
    text : List ℕ → Item
    chars : List ℕ → Item
    sequence : Items → Item
    mapping : ℕ → Items → Item
    structure : Items → Item

  -- Values with their tags.
  pub data Items : Type 0 where
    nil : Items
    cons : ℕ → Item → Items → Items

unfoldable pub count : Items → ℕ
count nil = 0
count (cons tag i is) = suc (count is)

unfoldable mutual
  pub wire : Item → Wire
  wire (number n) = wire64 n
  wire (float v) = (head_float, le_bytes 4 v)
  wire (double v) = (head_double, le_bytes 8 v)
  wire (text s) =
      if ltb 255 (length s)
      then (head_string4, le_bytes 4 (hton 4 (length s)) ++ s)
      else (head_string1, le_bytes 1 (length s) ++ s)
  wire (chars v) =
      (head_simple_list, head_bytes head_char 0 ++ (field_bytes (wire32 (length v)) 0 ++ v))
  wire (sequence is) = (head_list, field_bytes (wire32 (count is)) 0 ++ bytes is)
  wire (mapping n is) = (head_map, field_bytes (wire32 n) 0 ++ bytes is)
  wire (structure is) = (head_struct_begin, bytes is ++ head_bytes head_struct_end 0)

  pub bytes : Items → List ℕ
  bytes nil = []
  bytes (cons tag i is) = field_bytes (wire i) tag ++ bytes is

-- What the types of C++ guarantee: numbers of 64 bits, tags of 8, and two values for each pair.
unfoldable mutual
  pub IsItem : Item → Type 0
  IsItem (number n) = n < 2 ^ 64
  IsItem (sequence is) = AreItems is
  IsItem (mapping n is) = (count is ≡ n * 2) × AreItems is
  IsItem (structure is) = AreItems is
  IsItem (float v) = Unit {0}
  IsItem (double v) = Unit {0}
  IsItem (text s) = Unit {0}
  IsItem (chars v) = Unit {0}

  pub AreItems : Items → Type 0
  AreItems nil = Unit {0}
  AreItems (cons tag i is) = (tag < 256) × IsItem i × AreItems is

-- Fuel that is enough to skip a value, or values in a row.
unfoldable mutual
  pub fuel : Item → ℕ
  fuel (number n) = 1
  fuel (float v) = 1
  fuel (double v) = 1
  fuel (text s) = 1
  fuel (chars v) = 3
  fuel (sequence is) = 3 + fuel_all is
  fuel (mapping n is) = 3 + fuel_all is
  fuel (structure is) = 1 + fuel_all is

  pub fuel_all : Items → ℕ
  fuel_all nil = 2
  fuel_all (cons tag i is) = 1 + fuel i + fuel_all is
