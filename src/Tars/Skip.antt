-- ===== src/Tars/Skip.antt =====
-- tup/Tars.h: `TarsInputStream`, skipping fields up to a tag, and `read(Int32&)`, on which it
-- rests. The functions call one another, each with less fuel.
use learn_tars.Base.{
  ℕ, zero, suc, ◌-◌, ◌*◌, ◌%◌, ◌^◌, Bool, true, Option, none, some, ltb, ◌==◌, if◌then◌else◌, ◌||◌,
}
use learn_tars.Tars.Bytes.{hton}
use learn_tars.Tars.Stream.{
  mismatch, require_not_exist, Result, ok, err, stuck, Reader, M, after, ◌>>=◌, ◌>>◌, return, throw,
  head_char, head_short, head_int32, head_int64, head_float, head_double, head_string1,
  head_string4, head_map, head_list, head_struct_begin, head_struct_end, head_zero_tag,
  head_simple_list, has_end, skip, read_type, peek_head, read_head, sign_extend, rounds,
}

-- `catch (TarsDecodeException& e) {}` round the search for a tag: nothing was found.
unfoldable pub catch_none : Result (Option ℕ) × Reader → Result (Option ℕ) × Reader
catch_none (ok found, r) = (ok found, r)
catch_none (err e, r) = (ok none, r)
catch_none (stuck, r) = (stuck, r)

-- `read(Int32&, tag, isRequire)` after the search: `n` is the value that the caller passed in.
unfoldable pub int32_value : ℕ → Bool → Option ℕ → M ℕ
int32_value n is_require none = if is_require then throw require_not_exist else return n
int32_value n is_require (some type) =
    if type == head_zero_tag
    then return 0
    else if type == head_char
    then (do v ← read_type 1; return (sign_extend 8 32 v))
    else if type == head_short
    then (do v ← read_type 2; return (sign_extend 16 32 (hton 2 v)))
    else if type == head_int32
    then (do v ← read_type 4; return (hton 4 v))
    else throw mismatch

unfoldable mutual
  -- The loop of `TarsSkipToTag`: the wire type of the field with this tag, whose head is consumed.
  pub skip_loop : ℕ → ℕ → Reader → Result (Option ℕ) × Reader
  skip_loop zero tag r = (stuck, r)
  skip_loop (suc f) tag r =
      if has_end r
      then (ok none, r)
      else (do
        (type, next_tag, n) ← peek_head
        if type == head_struct_end || ltb tag next_tag
            then return none
            else if tag == next_tag
            then (do skip n; return (some type))
            else (do skip n; skip_field f type; skip_loop f tag))
          r

  -- `read(Int32&, tag, isRequire)`
  pub read_int32 : ℕ → ℕ → ℕ → Bool → Reader → Result ℕ × Reader
  read_int32 zero n tag is_require r = (stuck, r)
  read_int32 (suc f) n tag is_require r =
      after (catch_none (skip_loop f tag r)) (λ found. int32_value n is_require found)

  -- `skipField(type)`
  pub skip_field : ℕ → ℕ → Reader → Result (Unit {0}) × Reader
  skip_field zero type r = (stuck, r)
  skip_field (suc f) type r =
      (if type == head_char
          then skip 1
          else if type == head_short
          then skip 2
          else if type == head_int32
          then skip 4
          else if type == head_int64
          then skip 8
          else if type == head_float
          then skip 4
          else if type == head_double
          then skip 8
          else if type == head_string1
          then (do len ← read_type 1; skip len)
          else if type == head_string4
          then (do len ← read_type 4; skip (hton 4 len))
          else if type == head_map
          then (do size ← read_int32 f 0 0 true; skip_times f (rounds (size * 2 % 2 ^ 32)))
          else if type == head_list
          then (do size ← read_int32 f 0 0 true; skip_times f (rounds size))
          else if type == head_simple_list
          then (do
            (inner, _) ← read_head
            if inner == head_char
                then (do size ← read_int32 f 0 0 true; skip (sign_extend 32 64 size))
                else throw mismatch)
          else if type == head_struct_begin
          then skip_to_struct_end f
          else if type == head_struct_end || type == head_zero_tag
          then return tt
          else throw mismatch)
        r

  -- `for (i = 0; i < n; ++i) skipField();`
  pub skip_times : ℕ → ℕ → Reader → Result (Unit {0}) × Reader
  skip_times zero n r = (stuck, r)
  skip_times (suc f) n r =
      (if n == 0
          then return tt
          else (do (type, _) ← read_head; skip_field f type; skip_times f (n - 1)))
        r

  -- `skipToStructEnd`
  pub skip_to_struct_end : ℕ → Reader → Result (Unit {0}) × Reader
  skip_to_struct_end zero r = (stuck, r)
  skip_to_struct_end (suc f) r =
      (do
        (type, _) ← read_head
        skip_field f type
        if type == head_struct_end then return tt else skip_to_struct_end f)
        r
