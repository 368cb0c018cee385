-- ===== src/Tars/Fields.antt =====
-- A field of tup/Tars.h that was written, as the reader finds it.
use learn_tars.Base.{
  ℕ, suc, ◌+◌, ◌^◌, ◌<◌, ◌≡◌, refl, ap, ◌≢◌, Bool, List, ◌++◌, some, append_assoc, arith, length,
  length-append,
}
use learn_tars.Tars.Stream.{ok, M}
use learn_tars.Tars.Skip.{int32_value, read_int32}
use learn_tars.Tars.Read.{read_field}
use learn_tars.Tars.Write.{Writer}
use learn_tars.Tars.Cursor.{at, head_bytes, length-head_bytes}
use learn_tars.Tars.Wire.{Wire, field_bytes}
use learn_tars.Tars.Search.{read_field-found, read_int32-found}

module _ (w : Writer) (rest : List ℕ) where
  -- The reader `m`, at the end of what `w` holds, reads `a` and stops at the end of what `w'`
  -- holds.
  abbrev pub GivesBack : {A : Type 0} → M A → Writer → A → Type 0
  GivesBack m w' a =
      m (record { buf = w'.bytes ++ rest; cur = length w.bytes }) ≡ (ok a, at w'.bytes rest)

  abbrev pub IsMeasured : Writer → Type 0
  IsMeasured w' = length w'.bytes + length rest < 2 ^ 62

  module _ (tag : ℕ) (hg : tag < 256) where
    -- The bytes of a field, seen from its start and from behind its head.
    field_split :
        (x : Wire) (w' : Writer)
        → w'.bytes ≡ w.bytes ++ field_bytes x tag
        → w'.bytes ++ rest ≡ w.bytes ++ (head_bytes x.0 tag ++ (x.1 ++ rest))
    field_split x w' e = rw (e, append_assoc, append_assoc (head_bytes x.0 tag) x.1 rest) refl

    field_join :
        (x : Wire) (w' : Writer)
        → w'.bytes ≡ w.bytes ++ field_bytes x tag
        → (w.bytes ++ head_bytes x.0 tag) ++ x.1 ≡ w'.bytes
    field_join x w' e = rw (e, append_assoc) refl

    pub field_length :
        (x : Wire) (w' : Writer)
        → w'.bytes ≡ w.bytes ++ field_bytes x tag
        → length w'.bytes ≡ length w.bytes + length (head_bytes x.0 tag) + length x.1
    field_length x w' e = rw e (
        omega (
          arith,
          length-append w.bytes (field_bytes x tag),
          length-append (head_bytes x.0 tag) x.1,
        ))

    module _ (x : Wire) (w' : Writer) (e : w'.bytes ≡ w.bytes ++ field_bytes x tag) (ht : x.0 < 16)
        (ne : x.0 ≢ 11) (m : IsMeasured w') where
      room : length w.bytes + length (x.1 ++ rest) + 2 < 2 ^ 63
      room =
          omega (arith, m, field_length x w' e, length-append x.1 rest, length-head_bytes x.0 tag)

      pub field-GivesBack :
          {A : Type 0} (f : ℕ) (old a : A) (is_require : Bool) (found : ℕ → M A)
          → (found x.0 (at (w.bytes ++ head_bytes x.0 tag) (x.1 ++ rest))
              ≡ (ok a, at ((w.bytes ++ head_bytes x.0 tag) ++ x.1) rest))
          → GivesBack (read_field (suc f) tag old is_require found) w' a
      field-GivesBack f old a is_require found reads =
          rw
            (
              field_split x w' e,
              read_field-found x.0 tag w.bytes (x.1 ++ rest) ht hg room f old is_require found ne,
              reads,
              field_join x w' e,
            )
            (ap (λ bs. (ok a, record { buf = bs; cur = length w'.bytes })) (field_split x w' e))

      pub int32_field-GivesBack :
          (f old a : ℕ) (is_require : Bool)
          → (int32_value old is_require
                (some x.0)
                (at (w.bytes ++ head_bytes x.0 tag) (x.1 ++ rest))
              ≡ (ok a, at ((w.bytes ++ head_bytes x.0 tag) ++ x.1) rest))
          → GivesBack (read_int32 (suc (suc f)) old tag is_require) w' a
      int32_field-GivesBack f old a is_require reads =
          rw
            (
              field_split x w' e,
              read_int32-found x.0 tag w.bytes (x.1 ++ rest) ht hg room f old is_require ne,
              reads,
              field_join x w' e,
            )
            (ap (λ bs. (ok a, record { buf = bs; cur = length w'.bytes })) (field_split x w' e))

    -- The bytes behind a head, of a measured field of a number.
    pub behind :
        (x : Wire) (w' : Writer)
        → w'.bytes ≡ w.bytes ++ field_bytes x tag
        → IsMeasured w'
        → length (w.bytes ++ head_bytes x.0 tag) + length rest + 8 < 2 ^ 63
    behind x w' e m = omega (arith, field_length x w' e, length-append w.bytes (head_bytes x.0 tag))
