-- ===== src/Tars/Kinds.antt =====
-- tup/Tars.h: the overloads of `write` and `read` for the types of numbers, and their round trip.
use learn_tars.Base.{ℕ, suc, ◌^◌, ◌<◌, Bool, List}
use learn_tars.Tars.Stream.{M}
use learn_tars.Tars.Skip.{read_int32}
use learn_tars.Tars.Read.{
  read_char, read_short, read_uint8, read_uint16, read_int64, read_uint32, read_float,
}
use learn_tars.Tars.Write.{
  Writer, write_char, write_short, write_uint8, write_int32, write_uint16, write_int64,
  write_uint32, write_float,
}
use learn_tars.Tars.Fields.{GivesBack, IsMeasured}
use learn_tars.Tars.RoundTrip.{
  write_char-read_char, write_short-read_short, write_uint8-read_uint8, write_int32-read_int32,
  write_uint16-read_uint16, write_int64-read_int64, write_uint32-read_uint32,
  write_float-read_float,
}

-- The types of numbers, and how many bits each has.
pub data Kind : Type 0 where
  char : Kind
  uint8 : Kind
  short : Kind
  uint16 : Kind
  int32 : Kind
  uint32 : Kind
  int64 : Kind
  float : Kind

abbrev pub bits : Kind → ℕ
bits char = 8
bits uint8 = 8
bits short = 16
bits uint16 = 16
bits int32 = 32
bits uint32 = 32
bits int64 = 64
bits float = 32

unfoldable pub write_number : Kind → ℕ → ℕ → Writer → Writer
write_number char = write_char
write_number uint8 = write_uint8
write_number short = write_short
write_number uint16 = write_uint16
write_number int32 = write_int32
write_number uint32 = write_uint32
write_number int64 = write_int64
write_number float = write_float

unfoldable pub read_number : Kind → ℕ → ℕ → ℕ → Bool → M ℕ
read_number char = read_char
read_number uint8 = read_uint8
read_number short = read_short
read_number uint16 = read_uint16
read_number int32 = read_int32
read_number uint32 = read_uint32
read_number int64 = read_int64
read_number float = read_float

-- A number of any type but Double, given by its bits, written under a tag below 256 is read back as
-- that type under the tag, whatever the reader held before, and the cursor stops behind the field.
-- The buffer is shorter than 2^62 bytes.
pub write_number-read_number :
    (w : Writer) (rest : List ℕ) (tag : ℕ) (hg : tag < 256) (f : ℕ) (is_require : Bool) (k : Kind)
    (n old : ℕ)
    → n < 2 ^ bits k
    → IsMeasured w rest (write_number k n tag w)
    → GivesBack w rest (read_number k (suc (suc f)) old tag is_require) (write_number k n tag w) n
unfolding write_number read_number
write_number-read_number w rest tag hg f r char = write_char-read_char w rest tag hg (suc f) r
write_number-read_number w rest tag hg f r uint8 = write_uint8-read_uint8 w rest tag hg (suc f) r
write_number-read_number w rest tag hg f r short = write_short-read_short w rest tag hg (suc f) r
write_number-read_number w rest tag hg f r uint16 = write_uint16-read_uint16 w rest tag hg f r
write_number-read_number w rest tag hg f r int32 = write_int32-read_int32 w rest tag hg f r
write_number-read_number w rest tag hg f r uint32 = write_uint32-read_uint32 w rest tag hg (suc f) r
write_number-read_number w rest tag hg f r int64 = write_int64-read_int64 w rest tag hg (suc f) r
write_number-read_number w rest tag hg f r float = write_float-read_float w rest tag hg (suc f) r
