-- ===== src/Tars/Stream.antt =====
-- tup/Tars.h: `BufferReader`, the macros that read heads and numbers, and `skipField`.
-- The cursor of an exception is the one that its handler finds.
use learn_tars.Base.{
  ℕ, ◌+◌, ◌-◌, ◌/◌, ◌%◌, ◌^◌, Bool, List, ltb, leb, ◌==◌, if◌then◌else◌, length, take, drop, ◌&&◌,
}
use learn_tars.Base.Words.{add64}
use learn_tars.Tars.Bytes.{from_le}

-- The exceptions of the reader. All derive from `TarsDecodeException`.
pub data Fault : Type 0 where
  overflow : Fault
  mismatch : Fault
  require_not_exist : Fault
  invalid_value : Fault

-- `stuck` is no C++ outcome: the fuel ran out.
pub data Result {ℓ} (A : Type ℓ) : Type ℓ where
  ok : A → Result A
  err : Fault → Result A
  stuck : Result A

-- `_buf` up to `_buf_len`, and `_cur`.
pub record Reader : Type 0 where
  pub buf : List ℕ
  pub cur : ℕ

abbrev pub M : Type 0 → Type 0
M A = Reader → Result A × Reader

abbrev pub after : {A B : Type 0} → Result A × Reader → (A → M B) → Result B × Reader
after (ok a, r) f = f a r
after (err e, r) f = (err e, r)
after (stuck, r) f = (stuck, r)

infixl 5 ◌>>=◌ ◌>>◌
abbrev pub ◌>>=◌ : {A B : Type 0} → M A → (A → M B) → M B
◌>>=◌ m f r = after (m r) f

abbrev pub ◌>>◌ : {B : Type 0} → M (Unit {0}) → M B → M B
◌>>◌ m k r = after (m r) (λ _. k)

abbrev pub return : {A : Type 0} → A → M A
return a r = (ok a, r)

abbrev pub throw : {A : Type 0} → Fault → M A
throw e r = (err e, r)

-- The tags of the wire types.
abbrev pub head_char : ℕ
head_char = 0

abbrev pub head_short : ℕ
head_short = 1

abbrev pub head_int32 : ℕ
head_int32 = 2

abbrev pub head_int64 : ℕ
head_int64 = 3

abbrev pub head_float : ℕ
head_float = 4

abbrev pub head_double : ℕ
head_double = 5

abbrev pub head_string1 : ℕ
head_string1 = 6

abbrev pub head_string4 : ℕ
head_string4 = 7

abbrev pub head_map : ℕ
head_map = 8

abbrev pub head_list : ℕ
head_list = 9

abbrev pub head_struct_begin : ℕ
head_struct_begin = 10

abbrev pub head_struct_end : ℕ
head_struct_end = 11

abbrev pub head_zero_tag : ℕ
head_zero_tag = 12

abbrev pub head_simple_list : ℕ
head_simple_list = 13

-- `hasEnd`
unfoldable pub has_end : Reader → Bool
has_end r = leb (length r.buf) r.cur

-- `TarsPeekBuf`: `len` bytes from `offset` past the cursor, which stays.
unfoldable pub peek_buf : ℕ → ℕ → M (List ℕ)
peek_buf len offset r =
    if ltb (length r.buf) (add64 (add64 r.cur offset) len)
    then (err overflow, r)
    else (ok (take len (drop (add64 r.cur offset) r.buf)), r)

-- `TarsReadHeadSkip`: the cursor moves, and nothing is checked.
unfoldable pub skip : ℕ → M (Unit {0})
skip len r = (ok tt, record r { cur = add64 r.cur len })

-- `TarsReadTypeBuf` of a number of `size` bytes, as it lies in memory.
unfoldable pub read_type : ℕ → M ℕ
read_type size = do bs ← peek_buf size 0; skip size; return (from_le bs)

-- `TarsPeekFromHead`: the wire type, the tag, and the length of the head.
unfoldable pub peek_head : M (ℕ × ℕ × ℕ)
peek_head = do
  bs ← peek_buf 1 0
  let type_tag = from_le bs
  if type_tag / 16 == 15
      then (do more ← peek_buf 1 1; return (type_tag % 16, from_le more, 2))
      else return (type_tag % 16, type_tag / 16, 1)

-- `readFromHead`, and `readFromHeadNoTag`, which checks the same bytes.
unfoldable pub read_head : M (ℕ × ℕ)
read_head = do (type, tag, n) ← peek_head; skip n; return (type, tag)

-- A conversion of the bits of a signed number of `v` bits to one of `w` bits.
unfoldable pub sign_extend : ℕ → ℕ → ℕ → ℕ
sign_extend v w n = if ltb n (2 ^ (v - 1)) then n else 2 ^ w - 2 ^ v + n

-- A loop up to a signed 32-bit bound runs so often.
abbrev pub rounds : ℕ → ℕ
rounds n = if ltb n (2 ^ 31) then n else 0

-- The checked members of `BufferReader`: `skip`, and `readBuf` for a block of bytes.
unfoldable pub skip_checked : ℕ → M (Unit {0})
skip_checked len r =
    if leb len (length r.buf) && leb (add64 r.cur len) (length r.buf)
    then (ok tt, record r { cur = add64 r.cur len })
    else (err overflow, r)

unfoldable pub read_buf : ℕ → M (List ℕ)
read_buf len r =
    if leb len (length r.buf) && leb (add64 r.cur len) (length r.buf)
    then (do bs ← peek_buf len 0; λ s. (ok bs, record s { cur = add64 s.cur len })) r
    else (err overflow, r)
