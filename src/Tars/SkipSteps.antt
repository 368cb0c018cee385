-- ===== src/Tars/SkipSteps.antt =====
-- The steps of `skipField` of tup/Tars.h on lists, maps, structs and values in a row.
use learn_tars.Base.{
  ℕ, suc, ◌-◌, ◌*◌, ◌%◌, ◌^◌, ◌≤◌, ◌<◌, ◌≡◌, refl, sym, ap, ◌∙◌, ◌≢◌, List, ◌++◌, append_assoc,
  arith, length, length-append, lt→ltb, ne→==_false,
}
use learn_tars.Tars.Stream.{ok, sign_extend, head_char}
use learn_tars.Tars.Skip.{skip_field, skip_times, skip_to_struct_end}
use learn_tars.Tars.Cursor.{at, head_bytes, length-head_bytes, read_head-at}
use learn_tars.Tars.Wire.{Wire, wire32, field_bytes, wire64-IsNumber}
use learn_tars.Tars.Items.{
  Item, number, float, double, text, chars, sequence, mapping, structure, Items, nil, cons, count,
  wire, bytes,
}
use learn_tars.Tars.Skipping.{IsShort, Skips, skip_bytes, read_count-at}

widen : (n : ℕ) → n < 2 ^ 31 → sign_extend 32 64 n ≡ n
unfolding sign_extend
widen n b = ground arith

pub chars-Skips :
    (f : ℕ) (v : List ℕ)
    → Skips
        (suc (suc (suc f)))
        (13, head_bytes head_char 0 ++ (field_bytes (wire32 (length v)) 0 ++ v))
unfolding skip_field
chars-Skips f v pre rest h =
    let c = head_bytes head_char 0 in
    let s = field_bytes (wire32 (length v)) 0 in
    let lc = length-append c (s ++ v) in
    let ls = length-append s v in
    let lv = length-append v rest in
    let lr = length-append s (v ++ rest) in
    let lp = length-append pre c in
    let lq = length-append (pre ++ c) s in
    let e : sign_extend 32 64 (length v) ≡ length v = widen (length v) (omega arith) in
    rw
      (
        append_assoc c (s ++ v) rest,
        append_assoc s v rest,
        read_head-at head_char 0 pre (s ++ (v ++ rest)) (omega arith) (omega arith)
            (omega (arith, length-head_bytes head_char 0)),
        read_count-at f (length v) (pre ++ c) (v ++ rest) (omega arith) (omega arith),
        e,
        skip_bytes (length v) ((pre ++ c) ++ s) v rest refl (omega arith),
        append_assoc (pre ++ c) s v,
        append_assoc pre c (s ++ v),
      )
      refl

-- A value does not begin as the end of a struct does.
pub wire_type : (i : Item) → ((wire i).0 < 16) × ((wire i).0 ≢ 11)
unfolding wire
wire_type (number n) = ((wire64-IsNumber n).type_lt, (wire64-IsNumber n).not_end)
wire_type (text s) = ground arith
wire_type (float v) = omega arith
wire_type (double v) = omega arith
wire_type (chars v) = omega arith
wire_type (sequence is) = omega arith
wire_type (mapping n is) = omega arith
wire_type (structure is) = omega arith

-- A value in a row of values and what stands behind it.
one_of : (h x bs rest : List ℕ) → ((h ++ x) ++ bs) ++ rest ≡ h ++ (x ++ (bs ++ rest))
one_of h x bs rest = append_assoc (h ++ x) bs rest ∙ append_assoc h x (bs ++ rest)

past_one : (pre h x bs : List ℕ) → ((pre ++ h) ++ x) ++ bs ≡ pre ++ ((h ++ x) ++ bs)
past_one pre h x bs =
    append_assoc (pre ++ h) x bs
    ∙ append_assoc pre h (x ++ bs)
    ∙ ap (λ r. pre ++ r) (sym (append_assoc h x bs))

pub count_le : (is : Items) → count is ≤ length (bytes is)
unfolding count bytes
count_le nil = omega arith
count_le (cons tag i is) = omega (
  arith,
  count_le is,
  length-append (field_bytes (wire i) tag) (bytes is),
  length-append (head_bytes (wire i).0 tag) (wire i).1,
  length-head_bytes (wire i).0 tag,
)

-- With this fuel, so many values in a row are skipped, and so is a struct's content with its end.
abbrev pub SkipsTimes : ℕ → ℕ → List ℕ → Type 0
SkipsTimes f n bs =
    (pre rest : List ℕ)
    → IsShort pre bs rest
    → skip_times f n (at pre (bs ++ rest)) ≡ (ok tt, at (pre ++ bs) rest)

abbrev pub SkipsToEnd : ℕ → List ℕ → Type 0
SkipsToEnd f bs =
    (pre rest : List ℕ)
    → IsShort pre bs rest
    → skip_to_struct_end f (at pre (bs ++ rest)) ≡ (ok tt, at (pre ++ bs) rest)

module _ (f n : ℕ) (bs : List ℕ) where
  abbrev pub after_count : List ℕ
  after_count = field_bytes (wire32 n) 0 ++ bs

  pub sequence-Skips :
      n ≤ length bs → SkipsTimes (suc (suc f)) n bs → Skips (suc (suc (suc f))) (9, after_count)
  unfolding skip_field
  sequence-Skips less times pre rest h =
      let c = field_bytes (wire32 n) 0 in
      let lc = length-append c bs in
      let lp = length-append pre c in
      let lr = length-append bs rest in
      rw
        (
          append_assoc c bs rest,
          read_count-at f n pre (bs ++ rest) (omega arith) (omega arith),
          lt→ltb n (2 ^ 31) (omega arith),
          times (pre ++ c) rest (omega arith),
          append_assoc pre c bs,
        )
        refl

  pub mapping-Skips :
      n * 2 ≤ length bs
      → SkipsTimes (suc (suc f)) (n * 2) bs
      → Skips (suc (suc (suc f))) (8, after_count)
  unfolding skip_field
  mapping-Skips less times pre rest h =
      let c = field_bytes (wire32 n) 0 in
      let lc = length-append c bs in
      let lp = length-append pre c in
      let lr = length-append bs rest in
      let e : n * 2 % 2 ^ 32 ≡ n * 2 = omega arith in
      rw
        (
          append_assoc c bs rest,
          read_count-at f n pre (bs ++ rest) (omega arith) (omega arith),
          e,
          lt→ltb (n * 2) (2 ^ 31) (omega arith),
          times (pre ++ c) rest (omega arith),
          append_assoc pre c bs,
        )
        refl

pub structure-Skips : (f : ℕ) (bs : List ℕ) → SkipsToEnd f bs → Skips (suc f) (10, bs)
unfolding skip_field
structure-Skips f bs to_end = to_end

pub end-SkipsToEnd : (f : ℕ) → SkipsToEnd (suc (suc f)) (head_bytes 11 0)
unfolding skip_to_struct_end skip_field
end-SkipsToEnd f pre rest h =
    rw (read_head-at 11 0 pre rest (omega arith) (omega arith) (omega arith)) refl

module _ (f tag : ℕ) (x : Wire) (bs : List ℕ) (ht : x.0 < 16) (ne : x.0 ≢ 11) (hg : tag < 256)
    (one : Skips f x) where
  abbrev pub row : List ℕ
  row = field_bytes x tag ++ bs

  pub cons-SkipsTimes : (n : ℕ) → SkipsTimes f n bs → SkipsTimes (suc f) (suc n) row
  unfolding skip_times
  cons-SkipsTimes n others pre rest h =
      let t = head_bytes x.0 tag in
      let lx = length-append t x.1 in
      let lb = length-append (t ++ x.1) bs in
      let lp = length-append pre t in
      let lq = length-append (pre ++ t) x.1 in
      let lr = length-append bs rest in
      let ls = length-append x.1 (bs ++ rest) in
      let lt = length-head_bytes x.0 tag in
      let e : suc n - 1 ≡ n = omega arith in
      rw
        (
          one_of t x.1 bs rest,
          ne→==_false (suc n) 0 (omega arith),
          read_head-at x.0 tag pre (x.1 ++ (bs ++ rest)) ht hg (omega arith),
          one (pre ++ t) (bs ++ rest) (omega arith),
          e,
          others ((pre ++ t) ++ x.1) rest (omega arith),
          past_one pre t x.1 bs,
        )
        refl

  pub cons-SkipsToEnd : SkipsToEnd f bs → SkipsToEnd (suc f) row
  unfolding skip_to_struct_end
  cons-SkipsToEnd others pre rest h =
      let t = head_bytes x.0 tag in
      let lx = length-append t x.1 in
      let lb = length-append (t ++ x.1) bs in
      let lp = length-append pre t in
      let lq = length-append (pre ++ t) x.1 in
      let lr = length-append bs rest in
      let ls = length-append x.1 (bs ++ rest) in
      let lt = length-head_bytes x.0 tag in
      rw
        (
          one_of t x.1 bs rest,
          read_head-at x.0 tag pre (x.1 ++ (bs ++ rest)) ht hg (omega arith),
          one (pre ++ t) (bs ++ rest) (omega arith),
          ne→==_false x.0 11 ne,
          others ((pre ++ t) ++ x.1) rest (omega arith),
          past_one pre t x.1 bs,
        )
        refl
