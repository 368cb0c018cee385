-- ===== src/Tars/Unknown.antt =====
-- `TarsSkipToTag` of tup/Tars.h goes past the fields that the reader does not ask for.
use learn_tars.Base.{
  ℕ, suc, ◌+◌, ◌-◌, ◌^◌, ◌≤◌, ◌<◌, ◌≡◌, refl, ◌∙◌, ◌≢◌, Bool, List, ◌++◌, Option, some, append-nil,
  append_assoc, arith, length, length-append, le→ltb_false, ne→==_false,
}
use learn_tars.Tars.Stream.{Result, ok, Reader, M}
use learn_tars.Tars.Skip.{catch_none, skip_loop}
use learn_tars.Tars.Read.{field_value, read_field}
use learn_tars.Tars.Cursor.{at, head_bytes, length-head_bytes, peek_head-at}
use learn_tars.Tars.Wire.{Wire, field_bytes}
use learn_tars.Tars.Items.{Items, nil, cons, wire, bytes, AreItems, fuel, fuel_all}
use learn_tars.Tars.Skipping.{IsShort, Skips}
use learn_tars.Tars.SkipSteps.{wire_type}
use learn_tars.Tars.SkipValues.{skip_field-wire}
use learn_tars.Tars.Search.{ahead, skip_head, skip_loop-found}

-- The tags are all smaller than the one that is wanted.
unfoldable pub AreBelow : ℕ → Items → Type 0
AreBelow wanted nil = Unit {0}
AreBelow wanted (cons tag i is) = (tag < wanted) × AreBelow wanted is

-- One round of the search: a field with a smaller tag is skipped.
skip_loop_field :
    (f tag wanted : ℕ) (x : Wire) (pre more : List ℕ)
    → x.0 < 16
    → x.0 ≢ 11
    → tag < 256
    → tag < wanted
    → Skips f x
    → IsShort pre (field_bytes x tag) more
    → skip_loop (suc f) wanted (at pre (field_bytes x tag ++ more))
      ≡ skip_loop f wanted (at (pre ++ field_bytes x tag) more)
unfolding skip_loop
skip_loop_field f tag wanted x pre more ht ne hg less one h =
    let t = head_bytes x.0 tag in
    let lx = length-append t x.1 in
    let lp = length-append pre t in
    let lm = length-append x.1 more in
    let lt = length-head_bytes x.0 tag in
    let room : length pre + length (x.1 ++ more) + 2 < 2 ^ 63 = omega arith in
    rw
      (
        append_assoc t x.1 more,
        ahead x.0 tag pre (x.1 ++ more) ht hg room,
        peek_head-at x.0 tag pre (x.1 ++ more) ht hg room,
        ne→==_false x.0 11 ne,
        le→ltb_false tag wanted (omega arith),
        ne→==_false wanted tag (omega arith),
        skip_head x.0 tag pre (x.1 ++ more) ht hg room,
        one (pre ++ t) more (omega arith),
        append_assoc pre t x.1,
      )
      refl

-- So the search goes past fields with smaller tags, and has fuel left for one round more.
skip_loop_fields :
    (is : Items) (f wanted : ℕ) (pre more : List ℕ) (a : Result (Option ℕ) × Reader)
    → fuel_all is ≤ f
    → AreItems is
    → AreBelow wanted is
    → IsShort pre (bytes is) more
    → ((g : ℕ) → skip_loop (suc g) wanted (at (pre ++ bytes is) more) ≡ a)
    → skip_loop f wanted (at pre (bytes is ++ more)) ≡ a
unfolding bytes fuel fuel_all AreItems AreBelow
skip_loop_fields nil f wanted pre more a e h b small k =
    let s : f ≡ suc (f - 1) = omega arith in rw s (rw append-nil at (k (f - 1)))
skip_loop_fields (cons tag i is) f wanted pre more a e h b small k =
    let s : f ≡ suc (f - 1) = omega arith in
    let t = wire_type i in
    let x = field_bytes (wire i) tag in
    let lb = length-append x (bytes is) in
    let lp = length-append pre x in
    let lm = length-append (bytes is) more in
    rw (s, append_assoc x (bytes is) more)
      (skip_loop_field (f - 1) tag wanted (wire i) pre (bytes is ++ more) t.0 t.1 h.0 b.0
          (skip_field-wire i (f - 1) (omega arith) h.1) (omega arith)
        ∙ skip_loop_fields is (f - 1) wanted (pre ++ x) more a (omega arith) h.2 b.1 (omega arith)
            (λ g. rw (append_assoc pre x (bytes is)) (k g)))

-- A field is found behind any fields with smaller tags, however their values are nested: `read`
-- gets to its value. The tag is below 256, the buffer is shorter than 2^31 bytes, and there is as
-- much fuel as `fuel_all` counts for the fields before.
pub read_field-bytes :
    {A : Type 0} (is : Items) (x : Wire) (f tag : ℕ) (n : A) (is_require : Bool) (found : ℕ → M A)
    (pre rest : List ℕ)
    → fuel_all is ≤ f
    → AreItems is
    → AreBelow tag is
    → tag < 256
    → x.0 < 16
    → x.0 ≢ 11
    → length pre + length (bytes is) + length (field_bytes x tag) + length rest < 2 ^ 31
    → read_field f tag n is_require found (at pre (bytes is ++ (field_bytes x tag ++ rest)))
      ≡ found x.0 (at ((pre ++ bytes is) ++ head_bytes x.0 tag) (x.1 ++ rest))
unfolding read_field field_value catch_none
read_field-bytes is x f tag n is_require found pre rest e h b hg ht ne small =
    let t = head_bytes x.0 tag in
    let lx = length-append t x.1 in
    let lp = length-append pre (bytes is) in
    let lr = length-append (field_bytes x tag) rest in
    let lm = length-append x.1 rest in
    let lt = length-head_bytes x.0 tag in
    let found_at : Result (Option ℕ) × Reader =
      (ok (some x.0), at ((pre ++ bytes is) ++ t) (x.1 ++ rest)) in
    let next : (g : ℕ)
        → skip_loop (suc g) tag (at (pre ++ bytes is) (field_bytes x tag ++ rest)) ≡ found_at =
      λ g.
        rw (append_assoc t x.1 rest)
          (skip_loop-found x.0 tag (pre ++ bytes is) (x.1 ++ rest) ht hg (omega arith) g ne) in
    let search =
      skip_loop_fields is f tag pre (field_bytes x tag ++ rest) found_at e h b (omega arith) next in
    rw search refl
