-- ===== src/Tars/RoundTrip.antt =====
-- tup/Tars.h: each `write` of a number against the `read` of the same type.
use learn_tars.Base.{
  ℕ, suc, ◌%◌, ◌^◌, ◌<◌, ◌≡◌, refl, Bool, true, false, List, ◌++◌, arith, if◌then◌else◌,
}
use learn_tars.Tars.Bytes.{le_bytes, hton, hton-lt, hton-hton}
use learn_tars.Tars.Stream.{head_float}
use learn_tars.Tars.Skip.{read_int32}
use learn_tars.Tars.Read.{
  char_of, short_of, int64_of, float_of, read_char, read_bool, read_short, read_uint8, read_uint16,
  read_int64, read_uint32, read_float,
}
use learn_tars.Tars.Write.{
  Writer, write_char, write_bool, write_short, write_uint8, write_int32, write_uint16, write_int64,
  write_uint32, write_float,
}
use learn_tars.Tars.Cursor.{head_bytes, read_type-at}
use learn_tars.Tars.Wire.{
  Wire, wire8, wire16, wire32, wire64, wire8-IsNumber, wire16-IsNumber, wire32-IsNumber,
  wire64-IsNumber, bytes-write_char, bytes-write_short, bytes-write_int32, bytes-write_int64, typed,
}
use learn_tars.Tars.Numbers.{char_of-Reads, short_of-Reads, int32_value-Reads, int64_of-Reads}
use learn_tars.Tars.Fields.{GivesBack, IsMeasured, field-GivesBack, int32_field-GivesBack, behind}

module _ (w : Writer) (rest : List ℕ) (tag : ℕ) (hg : tag < 256) where
  module _ (f : ℕ) (is_require : Bool) where
    -- A char, below 2^8, written under a tag below 256 is read back under the tag, whatever the
    -- reader held before, and the cursor stops behind the field. The buffer is shorter than 2^62
    -- bytes.
    pub write_char-read_char :
        (n old : ℕ)
        → n < 2 ^ 8
        → IsMeasured w rest (write_char n tag w)
        → GivesBack w rest (read_char (suc f) old tag is_require) (write_char n tag w) n
    unfolding read_char
    write_char-read_char n old b m =
        let x = wire8 n in
        let e = bytes-write_char tag hg n w in
        field-GivesBack w rest tag hg x (write_char n tag w) e (wire8-IsNumber n).type_lt
          (wire8-IsNumber n).not_end m f old n is_require char_of
          (char_of-Reads (w.bytes ++ head_bytes x.0 tag) rest
            (behind w rest tag hg x (write_char n tag w) e m) n b)

    -- A short, below 2^16, written under a tag below 256 is read back under the tag, whatever the
    -- reader held before, and the cursor stops behind the field. The buffer is shorter than 2^62
    -- bytes.
    pub write_short-read_short :
        (n old : ℕ)
        → n < 2 ^ 16
        → IsMeasured w rest (write_short n tag w)
        → GivesBack w rest (read_short (suc f) old tag is_require) (write_short n tag w) n
    unfolding read_short
    write_short-read_short n old b m =
        let x = wire16 n in
        let e = bytes-write_short tag hg n w in
        field-GivesBack w rest tag hg x (write_short n tag w) e (wire16-IsNumber n).type_lt
          (wire16-IsNumber n).not_end m f old n is_require short_of
          (short_of-Reads (w.bytes ++ head_bytes x.0 tag) rest
            (behind w rest tag hg x (write_short n tag w) e m) n b)

    -- An int32, below 2^32, written under a tag below 256 is read back under the tag, whatever the
    -- reader held before, and the cursor stops behind the field. The buffer is shorter than 2^62
    -- bytes.
    pub write_int32-read_int32 :
        (n old : ℕ)
        → n < 2 ^ 32
        → IsMeasured w rest (write_int32 n tag w)
        → GivesBack w rest (read_int32 (suc (suc f)) old tag is_require) (write_int32 n tag w) n
    write_int32-read_int32 n old b m =
        let x = wire32 n in
        let e = bytes-write_int32 tag hg n w in
        int32_field-GivesBack w rest tag hg x (write_int32 n tag w) e (wire32-IsNumber n).type_lt
          (wire32-IsNumber n).not_end m f old n is_require
          (int32_value-Reads (w.bytes ++ head_bytes x.0 tag) rest
            (behind w rest tag hg x (write_int32 n tag w) e m) old n is_require b)

    -- An int64, below 2^64, written under a tag below 256 is read back under the tag, whatever the
    -- reader held before, and the cursor stops behind the field. The buffer is shorter than 2^62
    -- bytes.
    pub write_int64-read_int64 :
        (n old : ℕ)
        → n < 2 ^ 64
        → IsMeasured w rest (write_int64 n tag w)
        → GivesBack w rest (read_int64 (suc f) old tag is_require) (write_int64 n tag w) n
    unfolding read_int64
    write_int64-read_int64 n old b m =
        let x = wire64 n in
        let e = bytes-write_int64 tag hg n w in
        field-GivesBack w rest tag hg x (write_int64 n tag w) e (wire64-IsNumber n).type_lt
          (wire64-IsNumber n).not_end m f old n is_require int64_of
          (int64_of-Reads (w.bytes ++ head_bytes x.0 tag) rest
            (behind w rest tag hg x (write_int64 n tag w) e m) n b)

    -- The bits of a float, below 2^32, written under a tag below 256 are read back under the tag,
    -- whatever the reader held before, and the cursor stops behind the field. The buffer is shorter
    -- than 2^62 bytes.
    pub write_float-read_float :
        (n old : ℕ)
        → n < 2 ^ 32
        → IsMeasured w rest (write_float n tag w)
        → GivesBack w rest (read_float (suc f) old tag is_require) (write_float n tag w) n
    unfolding read_float write_float float_of
    write_float-read_float n old b m =
        let x : Wire = (head_float, le_bytes 4 (hton 4 n)) in
        let e = typed tag hg head_float 4 (hton 4 n) w (omega arith) in
        field-GivesBack w rest tag hg x (write_float n tag w) e (omega arith) (omega arith) m f old
          n is_require float_of
          (rw
            (
              read_type-at 4 (hton 4 n) (w.bytes ++ head_bytes x.0 tag) rest (hton-lt 4 n)
                  (omega (arith, behind w rest tag hg x (write_float n tag w) e m)),
              hton-hton 4 n b,
            )
            refl)

    -- A bool written under a tag below 256 is read back under the tag, whatever the reader held
    -- before, and the cursor stops behind the field. The buffer is shorter than 2^62 bytes.
    pub write_bool-read_bool :
        (b old : Bool)
        → IsMeasured w rest (write_bool b tag w)
        → GivesBack w rest (read_bool (suc f) old tag is_require) (write_bool b tag w) b
    unfolding read_bool write_bool
    write_bool-read_bool true old m =
        rw (write_char-read_char 1 (if old then 1 else 0) (omega arith) m) refl
    write_bool-read_bool false old m =
        rw (write_char-read_char 0 (if old then 1 else 0) (omega arith) m) refl

    -- A uint8, below 2^8, written under a tag below 256 is read back under the tag, whatever the
    -- reader held before, and the cursor stops behind the field. The buffer is shorter than 2^62
    -- bytes.
    pub write_uint8-read_uint8 :
        (n old : ℕ)
        → n < 2 ^ 8
        → IsMeasured w rest (write_uint8 n tag w)
        → GivesBack w rest (read_uint8 (suc f) old tag is_require) (write_uint8 n tag w) n
    unfolding read_uint8 write_uint8
    write_uint8-read_uint8 n old b m =
        let e : n % 2 ^ 8 ≡ n = omega arith in
        rw (write_short-read_short n old (omega arith) m, e) refl

    -- A uint16, below 2^16, written under a tag below 256 is read back under the tag, whatever the
    -- reader held before, and the cursor stops behind the field. The buffer is shorter than 2^62
    -- bytes.
    pub write_uint16-read_uint16 :
        (n old : ℕ)
        → n < 2 ^ 16
        → IsMeasured w rest (write_uint16 n tag w)
        → GivesBack w rest (read_uint16 (suc (suc f)) old tag is_require) (write_uint16 n tag w) n
    unfolding read_uint16 write_uint16
    write_uint16-read_uint16 n old b m =
        let e : n % 2 ^ 16 ≡ n = omega arith in
        rw (write_int32-read_int32 n old (omega arith) m, e) refl

    -- A uint32, below 2^32, written under a tag below 256 is read back under the tag, whatever the
    -- reader held before, and the cursor stops behind the field. The buffer is shorter than 2^62
    -- bytes.
    pub write_uint32-read_uint32 :
        (n old : ℕ)
        → n < 2 ^ 32
        → IsMeasured w rest (write_uint32 n tag w)
        → GivesBack w rest (read_uint32 (suc f) old tag is_require) (write_uint32 n tag w) n
    unfolding read_uint32 write_uint32
    write_uint32-read_uint32 n old b m =
        let e : n % 2 ^ 32 ≡ n = omega arith in
        rw (write_int64-read_int64 n old (omega arith) m, e) refl
