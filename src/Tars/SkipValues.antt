-- ===== src/Tars/SkipValues.antt =====
-- `skipField` of tup/Tars.h skips every value of the wire format, however it is nested.
use learn_tars.Base.{
  ℕ, suc, ◌+◌, ◌-◌, ◌^◌, ◌≤◌, ◌<◌, ◌≡◌, refl, List, [], ◌++◌, append-nil, append_assoc, arith,
  length, dec_lt, lt→ltb, not_lt→ltb,
}
use learn_tars.Tars.Stream.{ok}
use learn_tars.Tars.Skip.{skip_field, skip_times}
use learn_tars.Tars.Cursor.{at, head_bytes}
use learn_tars.Tars.Wire.{field_bytes}
use learn_tars.Tars.Items.{
  Item, number, float, double, text, chars, sequence, mapping, structure, Items, nil, cons, count,
  wire, bytes, IsItem, AreItems, fuel, fuel_all,
}
use learn_tars.Tars.Skipping.{
  Skips, wire64-Skips, float-Skips, double-Skips, string1-Skips, string4-Skips,
}
use learn_tars.Tars.SkipSteps.{
  SkipsTimes, SkipsToEnd, chars-Skips, wire_type, count_le, sequence-Skips, mapping-Skips,
  structure-Skips, end-SkipsToEnd, cons-SkipsTimes, cons-SkipsToEnd,
}

nil-SkipsTimes : (f : ℕ) → SkipsTimes (suc f) 0 []
unfolding skip_times
nil-SkipsTimes f pre rest h = rw append-nil refl

mutual
  unfolding wire bytes count fuel fuel_all IsItem AreItems

  pub skip_field-wire : (i : Item) (f : ℕ) → fuel i ≤ f → IsItem i → Skips f (wire i)
  skip_field-wire (number n) f e h =
      let s : f ≡ suc (f - 1) = omega arith in rw s (wire64-Skips (f - 1) n)
  skip_field-wire (float v) f e h =
      let s : f ≡ suc (f - 1) = omega arith in rw s (float-Skips (f - 1) v)
  skip_field-wire (double v) f e h =
      let s : f ≡ suc (f - 1) = omega arith in rw s (double-Skips (f - 1) v)
  skip_field-wire (text t) f e h =
      let s : f ≡ suc (f - 1) = omega arith in
      elim (dec_lt 255 (length t)) [
        | yes long ↦ rw (s, lt→ltb _ _ long) (string4-Skips (f - 1) t)
        | no short ↦ rw (s, not_lt→ltb _ _ short) (string1-Skips (f - 1) t (omega arith))
      ]
  skip_field-wire (chars v) f e h =
      let s : f ≡ suc (suc (suc (f - 3))) = omega arith in rw s (chars-Skips (f - 3) v)
  skip_field-wire (sequence is) f e h =
      let s : f ≡ suc (suc (suc (f - 3))) = omega arith in
      rw s (
        sequence-Skips (f - 3) (count is) (bytes is) (count_le is)
          (skip_times-bytes is (suc (suc (f - 3))) (omega arith) h))
  skip_field-wire (mapping n is) f e h =
      let s : f ≡ suc (suc (suc (f - 3))) = omega arith in
      rw s (
        mapping-Skips (f - 3) n (bytes is) (omega (arith, count_le is, h.0))
          (rw h.0 at (skip_times-bytes is (suc (suc (f - 3))) (omega arith) h.1)))
  skip_field-wire (structure is) f e h =
      let s : f ≡ suc (f - 1) = omega arith in
      rw s (structure-Skips (f - 1) _ (skip_to_struct_end-bytes is (f - 1) (omega arith) h))

  skip_times-bytes :
      (is : Items) (f : ℕ) → fuel_all is ≤ f → AreItems is → SkipsTimes f (count is) (bytes is)
  skip_times-bytes nil f e h =
      let s : f ≡ suc (f - 1) = omega arith in rw s (nil-SkipsTimes (f - 1))
  skip_times-bytes (cons tag i is) f e h =
      let s : f ≡ suc (f - 1) = omega arith in
      let t = wire_type i in
      rw s (
        cons-SkipsTimes (f - 1) tag (wire i) (bytes is) t.0 t.1 h.0
          (skip_field-wire i (f - 1) (omega arith) h.1) (count is)
          (skip_times-bytes is (f - 1) (omega arith) h.2))

  skip_to_struct_end-bytes :
      (is : Items) (f : ℕ)
      → fuel_all is ≤ f
      → AreItems is
      → SkipsToEnd f (bytes is ++ head_bytes 11 0)
  skip_to_struct_end-bytes nil f e h =
      let s : f ≡ suc (suc (f - 2)) = omega arith in rw s (end-SkipsToEnd (f - 2))
  skip_to_struct_end-bytes (cons tag i is) f e h =
      let s : f ≡ suc (f - 1) = omega arith in
      let t = wire_type i in
      rw (s, append_assoc (field_bytes (wire i) tag) (bytes is) (head_bytes 11 0))
        (cons-SkipsToEnd (f - 1) tag (wire i) (bytes is ++ head_bytes 11 0) t.0 t.1 h.0
          (skip_field-wire i (f - 1) (omega arith) h.1)
          (skip_to_struct_end-bytes is (f - 1) (omega arith) h.2))

-- `skipField` moves the cursor from the start of a value, however it is nested, to its end, in a
-- buffer shorter than 2^31 bytes, if it has as much fuel as `fuel` counts for the value.
pub skip_field_lem :
    (i : Item) (f : ℕ) (pre rest : List ℕ)
    → fuel i ≤ f
    → IsItem i
    → length pre + length (wire i).1 + length rest < 2 ^ 31
    → skip_field f (wire i).0 (at pre ((wire i).1 ++ rest)) ≡ (ok tt, at (pre ++ (wire i).1) rest)
skip_field_lem i f pre rest e h small = skip_field-wire i f e h pre rest small
