-- ===== src/Tars/Wire.antt =====
-- The bytes that the writer of tup/Tars.h appends for each number: the shortest wire type that
-- holds it, and the number in network order.
use learn_tars.Base.{
  ℕ, ◌+◌, ◌*◌, ◌%◌, ◌^◌, ◌≤◌, ◌<◌, ◌≡◌, refl, ◌≢◌, List, [], ◌∷◌, ◌++◌, append-nil, append_assoc,
  arith, length, ◌==◌, if◌then◌else◌, inl, inr, Bool-cases, lt→ltb, not_lt→ltb, dec_lt,
}
use learn_tars.Tars.Bytes.{le_bytes, hton, tars_htonll, length-le_bytes}
use learn_tars.Tars.Stream.{head_char, head_short, head_int32, head_int64, head_zero_tag}
use learn_tars.Tars.Cursor.{head_bytes}
use learn_tars.Tars.Write.{
  Writer, reserve_buf, write_buf, write_type, write_head, fits, write_char, write_short,
  write_int32, write_int64,
}

-- A wire type with the bytes behind the head.
abbrev pub Wire : Type 0
Wire = ℕ × List ℕ

unfoldable pub wire8 : ℕ → Wire
wire8 n = if n == 0 then (head_zero_tag, []) else (head_char, le_bytes 1 n)

unfoldable pub wire16 : ℕ → Wire
wire16 n = if fits 8 16 n then wire8 (n % 2 ^ 8) else (head_short, le_bytes 2 (hton 2 n))

unfoldable pub wire32 : ℕ → Wire
wire32 n = if fits 16 32 n then wire16 (n % 2 ^ 16) else (head_int32, le_bytes 4 (hton 4 n))

unfoldable pub wire64 : ℕ → Wire
wire64 n = if fits 32 64 n then wire32 (n % 2 ^ 32) else (head_int64, le_bytes 8 (tars_htonll n))

abbrev pub field_bytes : Wire → ℕ → List ℕ
field_bytes x tag = head_bytes x.0 tag ++ x.1

-- The type is one that may stand before a number.
pub record IsNumber (x : Wire) : Type 0 where
  pub type_lt : x.0 < 16
  pub not_end : x.0 ≢ 11
  pub short : length x.1 ≤ 8

pub wire8-IsNumber : (n : ℕ) → IsNumber (wire8 n)
unfolding wire8
wire8-IsNumber n = ground (arith, length-le_bytes 1 n)

pub wire16-IsNumber : (n : ℕ) → IsNumber (wire16 n)
unfolding wire16
wire16-IsNumber n = ground (arith, wire8-IsNumber (n % 2 ^ 8), length-le_bytes 2 (hton 2 n))

pub wire32-IsNumber : (n : ℕ) → IsNumber (wire32 n)
unfolding wire32
wire32-IsNumber n = ground (arith, wire16-IsNumber (n % 2 ^ 16), length-le_bytes 4 (hton 4 n))

pub wire64-IsNumber : (n : ℕ) → IsNumber (wire64 n)
unfolding wire64
wire64-IsNumber n = ground (arith, wire32-IsNumber (n % 2 ^ 32), length-le_bytes 8 (tars_htonll n))

-- Room is made before bytes are appended, and what was written stays.
pub bytes-write_buf : (bs : List ℕ) (w : Writer) → (write_buf bs w).bytes ≡ w.bytes ++ bs
unfolding write_buf reserve_buf
bytes-write_buf bs w = refl

pub bytes-write_type : (k v : ℕ) (w : Writer) → (write_type k v w).bytes ≡ w.bytes ++ le_bytes k v
unfolding write_type
bytes-write_type k v w = bytes-write_buf (le_bytes k v) w

le_bytes_one : (b : ℕ) → b < 256 → le_bytes 1 b ≡ b ∷ []
unfolding le_bytes
le_bytes_one b h = ground arith

pub bytes-write_head :
    (type tag : ℕ) (w : Writer)
    → type < 15
    → tag < 256
    → (write_head type tag w).bytes ≡ w.bytes ++ head_bytes type tag
unfolding write_head head_bytes
bytes-write_head type tag w ht hg = elim (dec_lt tag 15) [
  | yes p ↦ rw (lt→ltb _ _ p, bytes-write_type, le_bytes_one (type + tag * 16) (omega arith)) refl
  | no p ↦
      rw
        (
          not_lt→ltb _ _ p,
          bytes-write_type,
          bytes-write_type,
          le_bytes_one (type + 240) (omega arith),
          le_bytes_one tag hg,
          append_assoc,
        )
        refl
]

module _ (tag : ℕ) (hg : tag < 256) where
  -- A head and a number behind it.
  pub typed :
      (type k v : ℕ) (w : Writer)
      → type < 15
      → (write_type k v (write_head type tag w)).bytes
        ≡ w.bytes ++ field_bytes (type, le_bytes k v) tag
  typed type k v w h = rw (bytes-write_type, bytes-write_head type tag w h hg, append_assoc) refl

  pub bytes-write_char :
      (n : ℕ) (w : Writer) → (write_char n tag w).bytes ≡ w.bytes ++ field_bytes (wire8 n) tag
  unfolding write_char wire8
  bytes-write_char n w = elim (Bool-cases (n == 0)) [
    | inl e ↦ rw e (rw append-nil (bytes-write_head head_zero_tag tag w (omega arith) hg))
    | inr e ↦ rw e (typed head_char 1 n w (omega arith))
  ]

  pub bytes-write_short :
      (n : ℕ) (w : Writer) → (write_short n tag w).bytes ≡ w.bytes ++ field_bytes (wire16 n) tag
  unfolding write_short wire16
  bytes-write_short n w = elim (Bool-cases (fits 8 16 n)) [
    | inl e ↦ rw e (bytes-write_char (n % 2 ^ 8) w)
    | inr e ↦ rw e (typed head_short 2 (hton 2 n) w (omega arith))
  ]

  pub bytes-write_int32 :
      (n : ℕ) (w : Writer) → (write_int32 n tag w).bytes ≡ w.bytes ++ field_bytes (wire32 n) tag
  unfolding write_int32 wire32
  bytes-write_int32 n w = elim (Bool-cases (fits 16 32 n)) [
    | inl e ↦ rw e (bytes-write_short (n % 2 ^ 16) w)
    | inr e ↦ rw e (typed head_int32 4 (hton 4 n) w (omega arith))
  ]

  pub bytes-write_int64 :
      (n : ℕ) (w : Writer) → (write_int64 n tag w).bytes ≡ w.bytes ++ field_bytes (wire64 n) tag
  unfolding write_int64 wire64
  bytes-write_int64 n w = elim (Bool-cases (fits 32 64 n)) [
    | inl e ↦ rw e (bytes-write_int32 (n % 2 ^ 32) w)
    | inr e ↦ rw e (typed head_int64 8 (tars_htonll n) w (omega arith))
  ]
