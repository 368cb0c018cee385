-- ===== src/Tars/Search.antt =====
-- `TarsSkipToTag` of tup/Tars.h where the tag is next, and where it is not there.
use learn_tars.Base.{
  ℕ, suc, ◌+◌, ◌<◌, ◌^◌, ◌≡◌, refl, ◌≢◌, ◌⊎◌, inl, inr, Bool, true, false, List, [], ◌++◌, none,
  some, append-nil, arith, length, length-append, ◌==◌, if◌then◌else◌, lt→ltb, le→leb, lt→leb_false,
  le→ltb_false, ne→==_false, ==_refl, Bool-cases,
}
use native.Mathlib.Nat.{le_refl}
use learn_tars.Tars.Stream.{ok, err, require_not_exist, M, has_end, skip}
use learn_tars.Tars.Skip.{catch_none, int32_value, skip_loop, read_int32}
use learn_tars.Tars.Read.{field_value, read_field}
use learn_tars.Tars.Cursor.{at, head_bytes, length-head_bytes, skip-at, peek_head-at}

module _ (type tag : ℕ) (pre rest : List ℕ) (ht : type < 16) (hg : tag < 256)
    (h : length pre + length rest + 2 < 2 ^ 63) where
  pub ahead : has_end (at pre (head_bytes type tag ++ rest)) ≡ false
  unfolding has_end
  ahead = lt→leb_false (length pre) (length (pre ++ (head_bytes type tag ++ rest))) (
      omega (
        arith,
        length-append pre (head_bytes type tag ++ rest),
        length-append (head_bytes type tag) rest,
        length-head_bytes type tag,
      ))

  pub skip_head :
      skip (length (head_bytes type tag)) (at pre (head_bytes type tag ++ rest))
      ≡ (ok tt, at (pre ++ head_bytes type tag) rest)
  skip_head =
      skip-at pre (head_bytes type tag) rest
        (rw (length-append (head_bytes type tag) rest) (omega (arith, length-head_bytes type tag)))

  -- A field with the tag is found, and its head consumed.
  pub skip_loop-found :
      (f : ℕ)
      → type ≢ 11
      → skip_loop (suc f) tag (at pre (head_bytes type tag ++ rest))
        ≡ (ok (some type), at (pre ++ head_bytes type tag) rest)
  unfolding skip_loop
  skip_loop-found f ne =
      rw
        (
          ahead,
          peek_head-at type tag pre rest ht hg h,
          ne→==_false type 11 ne,
          le→ltb_false tag tag (le_refl tag),
          ==_refl tag,
          skip_head,
        )
        refl

  -- At a field with a larger tag, and at the end of a struct, the search stops and moves nothing.
  pub skip_loop-absent :
      (f wanted : ℕ)
      → (type ≡ 11) ⊎ (wanted < tag)
      → skip_loop (suc f) wanted (at pre (head_bytes type tag ++ rest))
        ≡ (ok none, at pre (head_bytes type tag ++ rest))
  unfolding skip_loop
  skip_loop-absent f wanted (inl e) = rw (ahead, peek_head-at type tag pre rest ht hg h, e) refl
  skip_loop-absent f wanted (inr lt) = elim (Bool-cases (type == 11)) [
    | inl e ↦ rw (ahead, peek_head-at type tag pre rest ht hg h, e) refl
    | inr e ↦ rw (ahead, peek_head-at type tag pre rest ht hg h, e, lt→ltb wanted tag lt) refl
  ]

  -- What every `read` but `read(Int32&)` does with the field.
  pub read_field-found :
      {A : Type 0} (f : ℕ) (n : A) (is_require : Bool) (found : ℕ → M A)
      → type ≢ 11
      → read_field (suc f) tag n is_require found (at pre (head_bytes type tag ++ rest))
        ≡ found type (at (pre ++ head_bytes type tag) rest)
  unfolding read_field field_value catch_none
  read_field-found f n is_require found ne = rw (skip_loop-found f ne) refl

  pub read_int32-found :
      (f n : ℕ) (is_require : Bool)
      → type ≢ 11
      → read_int32 (suc (suc f)) n tag is_require (at pre (head_bytes type tag ++ rest))
        ≡ int32_value n is_require (some type) (at (pre ++ head_bytes type tag) rest)
  unfolding read_int32 catch_none
  read_int32-found f n is_require ne = rw (skip_loop-found f ne) refl

  -- At a field with a larger tag, below 256, or at the end of a struct, `read` of a field that is
  -- not there moves nothing: the caller's value stays, or a required field is missed. The buffer is
  -- shorter than 2^63 bytes.
  pub read_field-absent :
      {A : Type 0} (f wanted : ℕ) (n : A) (is_require : Bool) (found : ℕ → M A)
      → (type ≡ 11) ⊎ (wanted < tag)
      → read_field (suc f) wanted n is_require found (at pre (head_bytes type tag ++ rest)) ≡ (
        (if is_require then err require_not_exist else ok n),
        at pre (head_bytes type tag ++ rest),
      )
  unfolding read_field field_value catch_none
  read_field-absent f wanted n true found gone = rw (skip_loop-absent f wanted gone) refl
  read_field-absent f wanted n false found gone = rw (skip_loop-absent f wanted gone) refl

skip_loop-end :
    (f wanted : ℕ) (pre : List ℕ) → skip_loop (suc f) wanted (at pre []) ≡ (ok none, at pre [])
unfolding skip_loop has_end
skip_loop-end f wanted pre =
    rw (append-nil pre, le→leb (length pre) (length pre) (le_refl (length pre))) refl

-- At the end of the buffer too.
pub read_field-end :
    {A : Type 0} (f wanted : ℕ) (n : A) (is_require : Bool) (found : ℕ → M A) (pre : List ℕ)
    → read_field (suc f) wanted n is_require found (at pre [])
      ≡ ((if is_require then err require_not_exist else ok n), at pre [])
unfolding read_field field_value catch_none
read_field-end f wanted n true found pre = rw (skip_loop-end f wanted pre) refl
read_field-end f wanted n false found pre = rw (skip_loop-end f wanted pre) refl
