-- ===== src/Tars/Write.antt =====
-- tup/Tars.h: `BufferWriter` and `TarsOutputStream`. A number is given by its bits: an `Int32` is a
-- number below 2^32 in two's complement, a `Float` the 32 bits that stand for it.
use learn_tars.Base.{
  ℕ, ◌+◌, ◌-◌, ◌*◌, ◌%◌, ◌^◌, Bool, List, [], ◌∷◌, ◌++◌, ltb, leb, ◌==◌, if◌then◌else◌, ◌||◌,
  length,
}
use learn_tars.Tars.Bytes.{le_bytes, hton, tars_htonll}
use learn_tars.Tars.Stream.{
  Result, ok, err, invalid_value, head_char, head_short, head_int32, head_int64, head_float,
  head_double, head_string1, head_string4, head_map, head_list, head_struct_begin, head_struct_end,
  head_zero_tag, head_simple_list,
}

-- The first `_len` bytes of `_buf`, and `_buf_len`. What lies behind `_len` is never read.
pub record Writer : Type 0 where
  pub bytes : List ℕ
  pub buf_len : ℕ

unfoldable pub new_writer : Writer
new_writer = record { bytes = []; buf_len = 0 }

-- `TarsReserveBuf`: a larger buffer is twice as long as what is asked for.
unfoldable pub reserve_buf : ℕ → Writer → Writer
reserve_buf len w = if ltb w.buf_len len then record w { buf_len = len * 2 % 2 ^ 64 } else w

-- `writeBuf`, `TarsWriteTypeBuf`, and the macros that write a number as it lies in memory.
unfoldable pub write_buf : List ℕ → Writer → Writer
write_buf bs w =
    let w' = reserve_buf (length w.bytes + length bs) w in record w' { bytes = w.bytes ++ bs }

unfoldable pub write_type : ℕ → ℕ → Writer → Writer
write_type size v = write_buf (le_bytes size v)

-- `TarsWriteToHead`
unfoldable pub write_head : ℕ → ℕ → Writer → Writer
write_head type tag w =
    if ltb tag 15
    then write_type 1 (type + tag * 16) w
    else write_type 1 tag (write_type 1 (type + 240) w)

-- The bits of a number of `w` bits are those of one in the range of `v` bits.
abbrev pub fits : ℕ → ℕ → ℕ → Bool
fits v w n = ltb n (2 ^ (v - 1)) || leb (2 ^ w - 2 ^ (v - 1)) n

unfoldable pub write_char : ℕ → ℕ → Writer → Writer
write_char n tag w =
    if n == 0 then write_head head_zero_tag tag w else write_type 1 n (write_head head_char tag w)

unfoldable pub write_bool : Bool → ℕ → Writer → Writer
write_bool b tag = write_char (if b then 1 else 0) tag

unfoldable pub write_short : ℕ → ℕ → Writer → Writer
write_short n tag w =
    if fits 8 16 n
    then write_char (n % 2 ^ 8) tag w
    else write_type 2 (hton 2 n) (write_head head_short tag w)

unfoldable pub write_uint8 : ℕ → ℕ → Writer → Writer
write_uint8 n tag = write_short n tag

unfoldable pub write_int32 : ℕ → ℕ → Writer → Writer
write_int32 n tag w =
    if fits 16 32 n
    then write_short (n % 2 ^ 16) tag w
    else write_type 4 (hton 4 n) (write_head head_int32 tag w)

unfoldable pub write_uint16 : ℕ → ℕ → Writer → Writer
write_uint16 n tag = write_int32 n tag

unfoldable pub write_int64 : ℕ → ℕ → Writer → Writer
write_int64 n tag w =
    if fits 32 64 n
    then write_int32 (n % 2 ^ 32) tag w
    else write_type 8 (tars_htonll n) (write_head head_int64 tag w)

unfoldable pub write_uint32 : ℕ → ℕ → Writer → Writer
write_uint32 n tag = write_int64 n tag

unfoldable pub write_float : ℕ → ℕ → Writer → Writer
write_float n tag w = write_type 4 (hton 4 n) (write_head head_float tag w)

unfoldable pub write_double : ℕ → ℕ → Writer → Writer
write_double n tag w = write_type 8 (tars_htonll n) (write_head head_double tag w)

-- TARS_MAX_STRING_LENGTH
abbrev pub max_string_length : ℕ
max_string_length = 100 * 1024 * 1024

unfoldable pub write_string : List ℕ → ℕ → Writer → Result Writer
write_string s tag w =
    if ltb 255 (length s)
    then if ltb max_string_length (length s)
      then err invalid_value
      else ok (write_buf s (write_type 4 (hton 4 (length s)) (write_head head_string4 tag w)))
    else ok (write_buf s (write_type 1 (length s) (write_head head_string1 tag w)))

-- `write(const std::vector<Char>&, tag)`
unfoldable pub write_char_vector : List ℕ → ℕ → Writer → Writer
write_char_vector v tag w =
    write_buf v (
      write_int32 (length v % 2 ^ 32) 0
        (write_head head_char 0 (write_head head_simple_list tag w)))

-- `write(const char *, UInt32, tag)`, whose length goes through `write(UInt32)`.
unfoldable pub write_char_block : List ℕ → ℕ → Writer → Writer
write_char_block v tag w = write_buf v (
    write_uint32 (length v % 2 ^ 32) 0 (write_head head_char 0 (write_head head_simple_list tag w)))

module _ {A : Type 0} (write : A → ℕ → Writer → Writer) where
  unfoldable pub write_each : List A → Writer → Writer
  write_each [] w = w
  write_each (a ∷ as') w = write_each as' (write a 0 w)

  -- `write(const std::vector<T>&, tag)`
  unfoldable pub write_vector : List A → ℕ → Writer → Writer
  write_vector v tag w =
      write_each v (write_int32 (length v % 2 ^ 32) 0 (write_head head_list tag w))

module _ {K V : Type 0} (write_key : K → ℕ → Writer → Writer)
    (write_value : V → ℕ → Writer → Writer) where
  unfoldable pub write_pairs : List (K × V) → Writer → Writer
  write_pairs [] w = w
  write_pairs ((k, v) ∷ m) w = write_pairs m (write_value v 1 (write_key k 0 w))

  -- `write(const std::map<K, V>&, tag)`: the pairs in the order of the map.
  unfoldable pub write_map : List (K × V) → ℕ → Writer → Writer
  write_map m tag w = write_pairs m (write_int32 (length m % 2 ^ 32) 0 (write_head head_map tag w))

-- `write` of a struct, whose `writeTo` is given.
unfoldable pub write_struct : (Writer → Writer) → ℕ → Writer → Writer
write_struct write_to tag w =
    write_head head_struct_end 0 (write_to (write_head head_struct_begin tag w))
