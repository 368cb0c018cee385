-- ===== src/Tars/Read.antt =====
-- tup/Tars.h: `TarsInputStream::read`. The value that the caller passed in stays if the field is
-- not there and not required.
use learn_tars.Base.{
  ℕ, zero, suc, ◌%◌, ◌^◌, Bool, true, not, List, [], ◌∷◌, Option, none, some, ltb, ◌==◌,
  if◌then◌else◌, length,
}
use learn_tars.Tars.Bytes.{hton, tars_htonll}
use learn_tars.Tars.Stream.{
  mismatch, require_not_exist, invalid_value, ok, err, M, after, ◌>>=◌, ◌>>◌, return, throw,
  head_char, head_short, head_int32, head_int64, head_float, head_string1, head_string4, head_list,
  head_struct_begin, head_zero_tag, head_simple_list, skip, peek_buf, read_type, read_head,
  read_buf, sign_extend,
}
use learn_tars.Tars.Skip.{catch_none, skip_loop, read_int32, skip_to_struct_end}
use learn_tars.Tars.Write.{max_string_length}

module _ {A : Type 0} where
  -- What all the `read` share: the search for the tag, then `found` on the wire type, or the
  -- default.
  unfoldable pub field_value : A → Bool → (ℕ → M A) → Option ℕ → M A
  field_value n is_require found none = if is_require then throw require_not_exist else return n
  field_value n is_require found (some type) = found type

  unfoldable pub read_field : ℕ → ℕ → A → Bool → (ℕ → M A) → M A
  read_field f tag n is_require found r =
      after (catch_none (skip_loop f tag r)) (λ t. field_value n is_require found t)

-- The wire types that each `read` takes.
unfoldable pub char_of : ℕ → M ℕ
char_of type =
    if type == head_zero_tag
    then return 0
    else if type == head_char
    then read_type 1
    else throw mismatch

unfoldable pub short_of : ℕ → M ℕ
short_of type =
    if type == head_zero_tag
    then return 0
    else if type == head_char
    then (do v ← read_type 1; return (sign_extend 8 16 v))
    else if type == head_short
    then (do v ← read_type 2; return (hton 2 v))
    else throw mismatch

unfoldable pub int64_of : ℕ → M ℕ
int64_of type =
    if type == head_zero_tag
    then return 0
    else if type == head_char
    then (do v ← read_type 1; return (sign_extend 8 64 v))
    else if type == head_short
    then (do v ← read_type 2; return (sign_extend 16 64 (hton 2 v)))
    else if type == head_int32
    then (do v ← read_type 4; return (sign_extend 32 64 (hton 4 v)))
    else if type == head_int64
    then (do v ← read_type 8; return (tars_htonll v))
    else throw mismatch

unfoldable pub float_of : ℕ → M ℕ
float_of type =
    if type == head_zero_tag
    then return 0
    else if type == head_float
    then (do v ← read_type 4; return (hton 4 v))
    else throw mismatch

-- `TarsReadStringBuf`
unfoldable pub read_string_buf : ℕ → M (List ℕ)
read_string_buf len = do s ← peek_buf len 0; skip len; return s

unfoldable pub string_of : ℕ → M (List ℕ)
string_of type =
    if type == head_string1
    then (do len ← read_type 1; read_string_buf len)
    else if type == head_string4
    then (do
      len ← read_type 4
      if ltb max_string_length (hton 4 len)
          then throw invalid_value
          else read_string_buf (hton 4 len))
    else throw mismatch

module _ (f : ℕ) where
  unfoldable pub read_char : ℕ → ℕ → Bool → M ℕ
  read_char n tag is_require = read_field f tag n is_require char_of

  unfoldable pub read_bool : Bool → ℕ → Bool → M Bool
  read_bool b tag is_require = do
    c ← read_char (if b then 1 else 0) tag is_require
    return (not (c == 0))

  unfoldable pub read_short : ℕ → ℕ → Bool → M ℕ
  read_short n tag is_require = read_field f tag n is_require short_of

  unfoldable pub read_uint8 : ℕ → ℕ → Bool → M ℕ
  read_uint8 n tag is_require = do i ← read_short n tag is_require; return (i % 2 ^ 8)

  unfoldable pub read_uint16 : ℕ → ℕ → Bool → M ℕ
  read_uint16 n tag is_require = do i ← read_int32 f n tag is_require; return (i % 2 ^ 16)

  unfoldable pub read_int64 : ℕ → ℕ → Bool → M ℕ
  read_int64 n tag is_require = read_field f tag n is_require int64_of

  unfoldable pub read_uint32 : ℕ → ℕ → Bool → M ℕ
  read_uint32 n tag is_require = do i ← read_int64 n tag is_require; return (i % 2 ^ 32)

  unfoldable pub read_float : ℕ → ℕ → Bool → M ℕ
  read_float n tag is_require = read_field f tag n is_require float_of

  unfoldable pub read_string : List ℕ → ℕ → Bool → M (List ℕ)
  read_string s tag is_require = read_field f tag s is_require string_of

-- `size > this->size()`
unfoldable pub check_size : ℕ → M (Unit {0})
check_size size r = if ltb (length r.buf) size then (err invalid_value, r) else (ok tt, r)

-- `UInt32 size = 0; read(size, 0);` and the check of it.
unfoldable pub read_size : ℕ → M ℕ
read_size f = do size ← read_uint32 f 0 0 true; check_size size; return size

-- `read(v[i], 0)` for each element; `a` is what `resize` put there.
unfoldable pub read_each : {A : Type 0} → (A → ℕ → Bool → M A) → A → ℕ → M (List A)
read_each read a zero = return []
read_each read a (suc n) = do x ← read a 0 true; xs ← read_each read a n; return (x ∷ xs)

-- `read(std::vector<Char>&, tag, isRequire)` on the wire types that it takes.
unfoldable pub char_vector_of : ℕ → ℕ → M (List ℕ)
char_vector_of f type =
    if type == head_simple_list
    then (do
      (inner, _) ← read_head
      if inner == head_char then (do size ← read_size f; read_buf size) else throw mismatch)
    else if type == head_list
    then (do size ← read_size f; read_each (read_char f) 0 size)
    else throw mismatch

unfoldable pub vector_of : {A : Type 0} → ℕ → (A → ℕ → Bool → M A) → A → ℕ → M (List A)
vector_of f read a type =
    if type == head_list then (do size ← read_size f; read_each read a size) else throw mismatch

unfoldable pub read_char_vector : ℕ → List ℕ → ℕ → Bool → M (List ℕ)
read_char_vector f v tag is_require = read_field f tag v is_require (char_vector_of f)

-- `read(std::vector<T>&, tag, isRequire)`, with `read` of an element and a fresh element.
unfoldable pub read_vector :
    {A : Type 0} → ℕ → (A → ℕ → Bool → M A) → A → List A → ℕ → Bool → M (List A)
read_vector f read a v tag is_require = read_field f tag v is_require (vector_of f read a)

-- `read` of a struct, whose `readFrom` is given.
unfoldable pub struct_of : {A : Type 0} → ℕ → M A → ℕ → M A
struct_of f read_from type =
    if type == head_struct_begin
    then (do v ← read_from; skip_to_struct_end f; return v)
    else throw mismatch

unfoldable pub read_struct : {A : Type 0} → ℕ → M A → A → ℕ → Bool → M A
read_struct f read_from v tag is_require = read_field f tag v is_require (struct_of f read_from)
