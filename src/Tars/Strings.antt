-- ===== src/Tars/Strings.antt =====
-- tup/Tars.h: `write(const std::string&)` against `read(std::string&)`.
use learn_tars.Base.{
  ℕ, suc, ◌+◌, ◌^◌, ◌≤◌, ◌<◌, ◌≡◌, refl, ◌≢◌, Bool, List, [], ◌++◌, append_assoc, arith, length,
  length-append, dec_lt, lt→ltb, not_lt→ltb, le→ltb_false,
}
use learn_tars.Tars.Bytes.{le_bytes, hton, length-le_bytes, hton-lt, hton-hton}
use learn_tars.Tars.Stream.{ok, head_string1, head_string4}
use learn_tars.Tars.Read.{string_of, read_string_buf, read_string, read_field}
use learn_tars.Tars.Write.{
  Writer, write_type, write_buf, write_head, max_string_length, write_string,
}
use learn_tars.Tars.Cursor.{at, head_bytes, length-head_bytes, skip-at, peek_buf-at, read_type-at}
use learn_tars.Tars.Wire.{Wire, field_bytes, bytes-write_buf, typed}
use learn_tars.Tars.Fields.{GivesBack, IsMeasured, field-GivesBack, field_length}

pub read_string_buf-at :
    (pre s rest : List ℕ)
    → length pre + length s + length rest < 2 ^ 63
    → read_string_buf (length s) (at pre (s ++ rest)) ≡ (ok s, at (pre ++ s) rest)
unfolding read_string_buf
read_string_buf-at pre s rest h =
    rw
      (
        peek_buf-at pre [] s rest (omega arith),
        skip-at pre s rest (omega (arith, length-append s rest)),
      )
      refl

-- The bytes of a counted string, of which `k` count.
abbrev string_wire : ℕ → ℕ → ℕ → List ℕ → Wire
string_wire type k v s = (type, le_bytes k v ++ s)

module _ (w : Writer) (rest : List ℕ) (tag : ℕ) (hg : tag < 256) where
  counted_bytes :
      (type k v : ℕ) (s : List ℕ)
      → type < 15
      → (write_buf s (write_type k v (write_head type tag w))).bytes
        ≡ w.bytes ++ field_bytes (string_wire type k v s) tag
  counted_bytes type k v s h =
      rw (bytes-write_buf, typed tag hg type k v w h, append_assoc, append_assoc) refl

  module _ (pre s : List ℕ) where
    string1_of :
        length s ≤ 255
        → length pre + length s + length rest + 1 < 2 ^ 63
        → string_of head_string1 (at pre ((le_bytes 1 (length s) ++ s) ++ rest))
          ≡ (ok s, at (pre ++ (le_bytes 1 (length s) ++ s)) rest)
    unfolding string_of
    string1_of h m =
        let v = length-le_bytes 1 (length s) in
        rw
          (
            append_assoc (le_bytes 1 (length s)) s rest,
            read_type-at 1 (length s) pre (s ++ rest) (omega arith)
                (omega (arith, length-append s rest)),
            read_string_buf-at (pre ++ le_bytes 1 (length s)) s rest
                (omega (arith, length-append pre (le_bytes 1 (length s)))),
            append_assoc pre (le_bytes 1 (length s)) s,
          )
          refl

    string4_of :
        length s ≤ max_string_length
        → length pre + length s + length rest + 4 < 2 ^ 63
        → string_of head_string4 (at pre ((le_bytes 4 (hton 4 (length s)) ++ s) ++ rest))
          ≡ (ok s, at (pre ++ (le_bytes 4 (hton 4 (length s)) ++ s)) rest)
    unfolding string_of
    string4_of h m =
        let n = hton 4 (length s) in
        let v = length-le_bytes 4 n in
        rw
          (
            append_assoc (le_bytes 4 n) s rest,
            read_type-at 4 n pre (s ++ rest) (hton-lt 4 (length s))
                (omega (arith, length-append s rest)),
            hton-hton 4 (length s) (omega arith),
            le→ltb_false (length s) max_string_length h,
            read_string_buf-at (pre ++ le_bytes 4 n) s rest
                (omega (arith, length-append pre (le_bytes 4 n))),
            append_assoc pre (le_bytes 4 n) s,
          )
          refl

  counted_back :
      (type k v f : ℕ) (is_require : Bool) (s old : List ℕ)
      → type < 15
      → type ≢ 11
      → ((pre : List ℕ)
          → length pre + length s + length rest + k < 2 ^ 63
          → string_of type (at pre ((le_bytes k v ++ s) ++ rest))
            ≡ (ok s, at (pre ++ (le_bytes k v ++ s)) rest))
      → IsMeasured w rest (write_buf s (write_type k v (write_head type tag w)))
      → GivesBack w rest
          (read_field (suc f) tag old is_require string_of)
          (write_buf s (write_type k v (write_head type tag w)))
          s
  counted_back type k v f is_require s old ht ne reads m =
      let w' = write_buf s (write_type k v (write_head type tag w)) in
      let x : Wire = (type, le_bytes k v ++ s) in
      let e : w'.bytes ≡ w.bytes ++ field_bytes x tag = counted_bytes type k v s ht in
      field-GivesBack w rest tag hg x w' e (omega arith) ne m f old s is_require string_of (
        reads (w.bytes ++ head_bytes type tag) (
          omega (
            arith,
            m,
            field_length w rest tag hg x w' e,
            length-append w.bytes (head_bytes type tag),
            length-append (le_bytes k v) s,
            length-le_bytes k v,
          )))

  counted_IsMeasured :
      (type k v : ℕ) (s : List ℕ)
      → type < 15
      → k ≤ 4
      → length w.bytes + length s + length rest + 8 < 2 ^ 62
      → IsMeasured w rest (write_buf s (write_type k v (write_head type tag w)))
  counted_IsMeasured type k v s ht hk m =
      let w' = write_buf s (write_type k v (write_head type tag w)) in
      omega (
        arith,
        field_length w rest tag hg (string_wire type k v s) w' (counted_bytes type k v s ht),
        length-append (le_bytes k v) s,
        length-le_bytes k v,
        length-head_bytes type tag,
      )

  -- A string of at most TARS_MAX_STRING_LENGTH bytes is written, under a tag below 256. It is read
  -- back under the tag, whatever the reader held before, and the cursor stops behind the field. The
  -- buffer, with eight bytes to spare, is shorter than 2^62 bytes.
  pub write_string-read_string :
      (f : ℕ) (is_require : Bool) (s old : List ℕ)
      → length s ≤ max_string_length
      → length w.bytes + length s + length rest + 8 < 2 ^ 62
      → (w' : Writer) × (write_string s tag w ≡ ok w')
        × GivesBack w rest (read_string (suc f) old tag is_require) w' s
  unfolding write_string read_string
  write_string-read_string f is_require s old h m = elim (dec_lt 255 (length s)) [
    | yes long ↦
        let n = hton 4 (length s) in
        let w' = write_buf s (write_type 4 n (write_head head_string4 tag w)) in
        (
          w',
          rw (lt→ltb _ _ long, le→ltb_false (length s) max_string_length h) refl,
          counted_back head_string4 4 n f is_require s old (omega arith) (omega arith)
              (λ pre. string4_of pre s h)
              (counted_IsMeasured head_string4 4 n s (omega arith) (omega arith) m),
        )
    | no short ↦
        let w' = write_buf s (write_type 1 (length s) (write_head head_string1 tag w)) in
        (
          w',
          rw (not_lt→ltb _ _ short) refl,
          counted_back head_string1 1 (length s) f is_require s old (omega arith) (omega arith)
              (λ pre. string1_of pre s (omega arith))
              (counted_IsMeasured head_string1 1 (length s) s (omega arith) (omega arith) m),
        )
  ]
