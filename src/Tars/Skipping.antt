-- ===== src/Tars/Skipping.antt =====
-- `skipField` of tup/Tars.h on the values of the wire format.
use learn_tars.Base.{
  ℕ, suc, ◌+◌, ◌%◌, ◌^◌, ◌≤◌, ◌<◌, ◌≡◌, refl, sym, true, List, ◌++◌, append-nil, append_assoc,
  arith, length, length-append, ◌==◌, inl, inr, Bool-cases,
}
use learn_tars.Tars.Bytes.{le_bytes, hton, tars_htonll, length-le_bytes, hton-lt, hton-hton}
use learn_tars.Tars.Stream.{ok, skip}
use learn_tars.Tars.Skip.{read_int32, skip_field}
use learn_tars.Tars.Write.{Writer, fits}
use learn_tars.Tars.Cursor.{at, head_bytes, skip-at, read_type-at}
use learn_tars.Tars.Wire.{Wire, wire8, wire16, wire32, wire64, field_bytes, wire32-IsNumber}
use learn_tars.Tars.Numbers.{int32_value-Reads}
use learn_tars.Tars.Fields.{GivesBack, IsMeasured, int32_field-GivesBack, field_length}

-- A buffer shorter than 2^31 bytes.
abbrev pub IsShort : List ℕ → List ℕ → List ℕ → Type 0
IsShort pre bs rest = length pre + length bs + length rest < 2 ^ 31

-- With this fuel, `skipField` moves the cursor from before the bytes to behind them.
abbrev pub Skips : ℕ → Wire → Type 0
Skips f x =
    (pre rest : List ℕ)
    → IsShort pre x.1 rest
    → skip_field f x.0 (at pre (x.1 ++ rest)) ≡ (ok tt, at (pre ++ x.1) rest)

pub skip_bytes :
    (k : ℕ) (pre bs rest : List ℕ)
    → length bs ≡ k
    → IsShort pre bs rest
    → skip k (at pre (bs ++ rest)) ≡ (ok tt, at (pre ++ bs) rest)
skip_bytes k pre bs rest e h = rw e at (skip-at pre bs rest (omega (arith, length-append bs rest)))

module _ (f : ℕ) where
  wire8-Skips : (n : ℕ) → Skips (suc f) (wire8 n)
  unfolding wire8 skip_field
  wire8-Skips n pre rest h = elim (Bool-cases (n == 0)) [
    | inl e ↦ rw (e, append-nil) refl
    | inr e ↦ rw e (skip_bytes 1 pre (le_bytes 1 n) rest (length-le_bytes 1 n) (rw e at h))
  ]

  wire16-Skips : (n : ℕ) → Skips (suc f) (wire16 n)
  unfolding wire16 skip_field
  wire16-Skips n pre rest h = elim (Bool-cases (fits 8 16 n)) [
    | inl e ↦ rw e (wire8-Skips (n % 2 ^ 8) pre rest (rw e at h))
    | inr e ↦
        let bs = le_bytes 2 (hton 2 n) in
        rw e (skip_bytes 2 pre bs rest (length-le_bytes 2 (hton 2 n)) (rw e at h))
  ]

  wire32-Skips : (n : ℕ) → Skips (suc f) (wire32 n)
  unfolding wire32 skip_field
  wire32-Skips n pre rest h = elim (Bool-cases (fits 16 32 n)) [
    | inl e ↦ rw e (wire16-Skips (n % 2 ^ 16) pre rest (rw e at h))
    | inr e ↦
        let bs = le_bytes 4 (hton 4 n) in
        rw e (skip_bytes 4 pre bs rest (length-le_bytes 4 (hton 4 n)) (rw e at h))
  ]

  pub wire64-Skips : (n : ℕ) → Skips (suc f) (wire64 n)
  unfolding wire64 skip_field
  wire64-Skips n pre rest h = elim (Bool-cases (fits 32 64 n)) [
    | inl e ↦ rw e (wire32-Skips (n % 2 ^ 32) pre rest (rw e at h))
    | inr e ↦
        let bs = le_bytes 8 (tars_htonll n) in
        rw e (skip_bytes 8 pre bs rest (length-le_bytes 8 (tars_htonll n)) (rw e at h))
  ]

  pub float-Skips : (v : ℕ) → Skips (suc f) (4, le_bytes 4 v)
  unfolding skip_field
  float-Skips v pre rest h = skip_bytes 4 pre (le_bytes 4 v) rest (length-le_bytes 4 v) h

  pub double-Skips : (v : ℕ) → Skips (suc f) (5, le_bytes 8 v)
  unfolding skip_field
  double-Skips v pre rest h = skip_bytes 8 pre (le_bytes 8 v) rest (length-le_bytes 8 v) h

  pub string1-Skips : (s : List ℕ) → length s ≤ 255 → Skips (suc f) (6, le_bytes 1 (length s) ++ s)
  unfolding skip_field
  string1-Skips s short pre rest h =
      let b = le_bytes 1 (length s) in
      let lb = length-le_bytes 1 (length s) in
      let ls = length-append b s in
      rw
        (
          append_assoc b s rest,
          read_type-at 1 (length s) pre (s ++ rest) (omega arith)
              (omega (arith, length-append s rest)),
          skip_bytes (length s) (pre ++ b) s rest refl (omega (arith, length-append pre b)),
          append_assoc pre b s,
        )
        refl

  pub string4-Skips : (s : List ℕ) → Skips (suc f) (7, le_bytes 4 (hton 4 (length s)) ++ s)
  unfolding skip_field
  string4-Skips s pre rest h =
      let n = hton 4 (length s) in
      let b = le_bytes 4 n in
      let lb = length-le_bytes 4 n in
      let ls = length-append b s in
      rw
        (
          append_assoc b s rest,
          read_type-at 4 n pre (s ++ rest) (hton-lt 4 (length s))
              (omega (arith, length-append s rest)),
          hton-hton 4 (length s) (omega arith),
          skip_bytes (length s) (pre ++ b) s rest refl (omega (arith, length-append pre b)),
          append_assoc pre b s,
        )
        refl

-- A count below 2^31 is read as an `Int32`.
pub read_count-at :
    (f n : ℕ) (pre rest : List ℕ)
    → n < 2 ^ 31
    → IsShort pre (field_bytes (wire32 n) 0) rest
    → read_int32 (suc (suc f)) 0 0 true (at pre (field_bytes (wire32 n) 0 ++ rest))
      ≡ (ok n, at (pre ++ field_bytes (wire32 n) 0) rest)
read_count-at f n pre rest b h =
    let x = wire32 n in
    let w : Writer = record { bytes = pre; buf_len = 0 } in
    let w' : Writer = record { bytes = pre ++ field_bytes x 0; buf_len = 0 } in
    let m : IsMeasured w rest w' = omega (arith, length-append pre (field_bytes x 0)) in
    let back : GivesBack w rest (read_int32 (suc (suc f)) 0 0 true) w' n =
      int32_field-GivesBack w rest 0 (omega arith) x w' refl (wire32-IsNumber n).type_lt
        (wire32-IsNumber n).not_end m f 0 n true
        (int32_value-Reads (pre ++ head_bytes x.0 0) rest
          (omega (
            arith,
            m,
            field_length w rest 0 (omega arith) x w' refl,
            length-append pre (head_bytes x.0 0),
          ))
          0 n true (omega arith)) in
    rw (sym (append_assoc pre (field_bytes x 0) rest)) back
