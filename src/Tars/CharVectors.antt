-- ===== src/Tars/CharVectors.antt =====
-- tup/Tars.h: `write(const std::vector<Char>&)` against `read(std::vector<Char>&)`.
use learn_tars.Base.{
  ℕ, suc, ◌+◌, ◌%◌, ◌^◌, ◌≤◌, ◌<◌, ◌≡◌, refl, sym, ap, ◌∙◌, Bool, true, List, [], ◌++◌,
  append_assoc, arith, length, length-append, le→leb, le→ltb_false, lt→ltb,
}
use learn_tars.Base.Words.{add64}
use learn_tars.Tars.Stream.{ok, read_buf, head_char, head_simple_list}
use learn_tars.Tars.Read.{
  int64_of, read_int64, read_uint32, check_size, read_size, char_vector_of, read_char_vector,
  read_field,
}
use learn_tars.Tars.Write.{Writer, write_char_vector}
use learn_tars.Tars.Cursor.{at, head_bytes, length-head_bytes, peek_buf-at, read_head-at}
use learn_tars.Tars.Wire.{
  Wire, wire32, wire64, field_bytes, wire64-IsNumber, bytes-write_buf, bytes-write_head,
  bytes-write_int32,
}
use learn_tars.Tars.Numbers.{int64_of-Reads}
use learn_tars.Tars.Fields.{GivesBack, IsMeasured, field-GivesBack, field_length}

-- A block of bytes ahead is read, and the cursor moves past it.
pub read_buf-at :
    (pre v rest : List ℕ)
    → length pre + length v + length rest < 2 ^ 63
    → read_buf (length v) (at pre (v ++ rest)) ≡ (ok v, at (pre ++ v) rest)
unfolding read_buf
read_buf-at pre v rest h =
    let n : length (pre ++ (v ++ rest)) ≡ length pre + length v + length rest =
      omega (arith, length-append pre (v ++ rest), length-append v rest) in
    let a : add64 (length pre) (length v) ≡ length pre + length v = omega arith in
    rw
      (
        n,
        a,
        le→leb (length v) (length pre + length v + length rest) (omega arith),
        le→leb (length pre + length v) (length pre + length v + length rest) (omega arith),
        peek_buf-at pre [] v rest (omega arith),
      )
      (rw (append_assoc pre v rest, length-append pre v)
        (ap (λ c. (ok v, record { buf = pre ++ (v ++ rest); cur = c })) a))

-- A size below 2^31 takes as many bytes from `write(Int32)` as from `write(Int64)`.
wire32-wire64 : (n : ℕ) → n < 2 ^ 31 → wire32 n ≡ wire64 n
unfolding wire64
wire32-wire64 n h = let e : n % 2 ^ 32 ≡ n = omega arith in rw (e, lt→ltb n (2 ^ 31) h) refl

module _ (pre rest : List ℕ) (n : ℕ) (h : n < 2 ^ 31) where
  abbrev size_bytes : List ℕ
  size_bytes = field_bytes (wire64 n) 0

  read_size-at :
      (f : ℕ)
      → n ≤ length rest
      → length pre + length size_bytes + length rest < 2 ^ 62
      → read_size (suc f) (at pre (size_bytes ++ rest)) ≡ (ok n, at (pre ++ size_bytes) rest)
  unfolding read_size read_uint32 read_int64 check_size
  read_size-at f room small =
      let x = wire64 n in
      let w : Writer = record { bytes = pre; buf_len = 0 } in
      let w' : Writer = record { bytes = pre ++ size_bytes; buf_len = 0 } in
      let m : IsMeasured w rest w' = omega (arith, length-append pre size_bytes) in
      let back : GivesBack w rest (read_field (suc f) 0 0 true int64_of) w' n =
        field-GivesBack w rest 0 (omega arith) x w' refl (wire64-IsNumber n).type_lt
          (wire64-IsNumber n).not_end m f 0 n true int64_of
          (int64_of-Reads (pre ++ head_bytes x.0 0) rest
            (omega (
              arith,
              m,
              field_length w rest 0 (omega arith) x w' refl,
              length-append pre (head_bytes x.0 0),
            ))
            n (omega arith)) in
      let e : n % 2 ^ 32 ≡ n = omega arith in
      let k : length ((pre ++ size_bytes) ++ rest) ≡ length (pre ++ size_bytes) + length rest =
        length-append (pre ++ size_bytes) rest in
      rw (sym (append_assoc pre size_bytes rest)) (
        rw (back, e, k, le→ltb_false n (length (pre ++ size_bytes) + length rest) (omega arith))
          refl)

-- What follows the head of a vector of chars.
abbrev block : List ℕ → List ℕ
block v = head_bytes head_char 0 ++ (field_bytes (wire64 (length v)) 0 ++ v)

module _ (v rest : List ℕ) (h : length v < 2 ^ 31) where
  char_vector_of-at :
      (f : ℕ) (pre : List ℕ)
      → length pre + length (block v) + length rest < 2 ^ 62
      → char_vector_of (suc f) head_simple_list (at pre (block v ++ rest))
        ≡ (ok v, at (pre ++ block v) rest)
  unfolding char_vector_of
  char_vector_of-at f pre small =
      let c = head_bytes head_char 0 in
      let s = field_bytes (wire64 (length v)) 0 in
      let lc = length-append c (s ++ v) in
      let ls = length-append s v in
      let lv = length-append v rest in
      let lr = length-append s (v ++ rest) in
      let lp = length-append pre c in
      let lq = length-append (pre ++ c) s in
      rw
        (
          append_assoc c (s ++ v) rest,
          append_assoc s v rest,
          read_head-at head_char 0 pre (s ++ (v ++ rest)) (omega arith) (omega arith)
              (omega (arith, length-head_bytes head_char 0)),
          read_size-at (pre ++ c) (v ++ rest) (length v) h f (omega arith) (omega arith),
          read_buf-at ((pre ++ c) ++ s) v rest (omega arith),
          append_assoc (pre ++ c) s v,
          append_assoc pre c (s ++ v),
        )
        refl

  module _ (w : Writer) (tag : ℕ) (hg : tag < 256) where
    bytes-write_char_vector :
        (write_char_vector v tag w).bytes ≡ w.bytes ++ field_bytes (head_simple_list, block v) tag
    unfolding write_char_vector
    bytes-write_char_vector =
        let e : length v % 2 ^ 32 ≡ length v = omega arith in
        let t = head_bytes head_simple_list tag in
        let c = head_bytes head_char 0 in
        let s = field_bytes (wire64 (length v)) 0 in
        rw
          (
            bytes-write_buf,
            e,
            bytes-write_int32 0 (omega arith),
            wire32-wire64 (length v) h,
            bytes-write_head head_char 0 _ (omega arith) (omega arith),
            bytes-write_head head_simple_list tag w (omega arith) hg,
          )
          (append_assoc ((w.bytes ++ t) ++ c) s v
            ∙ append_assoc (w.bytes ++ t) c (s ++ v)
            ∙ append_assoc w.bytes t (c ++ (s ++ v)))

    -- A vector of fewer than 2^31 chars written under a tag below 256 is read back under the tag,
    -- whatever the reader held before, and the cursor stops behind the field. The buffer is shorter
    -- than 2^62 bytes.
    pub write_char_vector-read_char_vector :
        (f : ℕ) (is_require : Bool) (old : List ℕ)
        → IsMeasured w rest (write_char_vector v tag w)
        → GivesBack w rest
            (read_char_vector (suc f) old tag is_require)
            (write_char_vector v tag w)
            v
    unfolding read_char_vector
    write_char_vector-read_char_vector f is_require old m =
        let x : Wire = (head_simple_list, block v) in
        let w' = write_char_vector v tag w in
        let e = bytes-write_char_vector in
        field-GivesBack w rest tag hg x w' e (omega arith) (omega arith) m f old v is_require
          (char_vector_of (suc f))
          (char_vector_of-at f (w.bytes ++ head_bytes head_simple_list tag) (
            omega (
              arith,
              m,
              field_length w rest tag hg x w' e,
              length-append w.bytes (head_bytes head_simple_list tag),
            )))
