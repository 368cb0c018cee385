-- ===== src/Tars/Cursor.antt =====
-- A reader in the middle of its buffer: what each step of the reader does to the bytes ahead.
use learn_tars.Base.{
  ℕ, ◌+◌, ◌*◌, ◌/◌, ◌%◌, ◌^◌, ◌≤◌, ◌<◌, ◌≡◌, refl, ap, List, [], ◌∷◌, ◌++◌, append_assoc, arith,
  length, length-append, drop, take-append, drop-append, ltb, if◌then◌else◌, le→ltb_false, lt→ltb,
  not_lt→ltb, ne→==_false, dec_lt,
}
use learn_tars.Base.Words.{add64}
use learn_tars.Tars.Bytes.{le_bytes, from_le, length-le_bytes, from_le-le_bytes}
use learn_tars.Tars.Stream.{ok, Reader, peek_buf, skip, read_type, peek_head, read_head}

-- `pre` was read, and `rest` is ahead.
abbrev pub at : List ℕ → List ℕ → Reader
at pre rest = record { buf = pre ++ rest; cur = length pre }

-- A buffer that a `size_t` can measure with room to spare.
abbrev pub IsSmall : List ℕ → List ℕ → Type 0
IsSmall pre rest = length pre + length rest < 2 ^ 63

pub skip-at :
    (pre bs rest : List ℕ)
    → IsSmall pre (bs ++ rest)
    → skip (length bs) (at pre (bs ++ rest)) ≡ (ok tt, at (pre ++ bs) rest)
unfolding skip
skip-at pre bs rest h =
    rw (append_assoc pre bs rest, length-append pre bs)
      (ap (λ c. (ok tt, record { buf = pre ++ (bs ++ rest); cur = c }))
        (omega (arith, length-append bs rest)))

drop_lem :
    (pre skipped rest : List ℕ)
    → length pre + length skipped < 2 ^ 64
    → drop (add64 (length pre) (length skipped)) (pre ++ (skipped ++ rest)) ≡ rest
drop_lem pre skipped rest h =
    let e : add64 (length pre) (length skipped) ≡ length (pre ++ skipped) =
      omega (arith, length-append pre skipped) in
    rw (e, ← append_assoc pre skipped rest) (drop-append (pre ++ skipped) rest)

length_at :
    (pre skipped bs rest : List ℕ)
    → length (pre ++ (skipped ++ (bs ++ rest)))
      ≡ length pre + length skipped + length bs + length rest
length_at pre skipped bs rest = omega (
  arith,
  length-append pre (skipped ++ (bs ++ rest)),
  length-append skipped (bs ++ rest),
  length-append bs rest,
)

-- `TarsPeekTypeBuf` finds the bytes that stand at the offset.
pub peek_buf-at :
    (pre skipped bs rest : List ℕ)
    → length pre + length skipped + length bs + length rest < 2 ^ 63
    → peek_buf (length bs) (length skipped) (at pre (skipped ++ (bs ++ rest)))
      ≡ (ok bs, at pre (skipped ++ (bs ++ rest)))
unfolding peek_buf
peek_buf-at pre skipped bs rest h =
    rw
      (
        le→ltb_false (add64 (add64 (length pre) (length skipped)) (length bs))
            (length (pre ++ (skipped ++ (bs ++ rest))))
            (omega (arith, length_at pre skipped bs rest)),
        drop_lem pre skipped (bs ++ rest) (omega arith),
        take-append bs rest,
      )
      refl

read_type_bytes :
    (pre bs rest : List ℕ)
    → length pre + length bs + length rest < 2 ^ 63
    → read_type (length bs) (at pre (bs ++ rest)) ≡ (ok (from_le bs), at (pre ++ bs) rest)
unfolding read_type
read_type_bytes pre bs rest h =
    rw
      (
        peek_buf-at pre [] bs rest (omega arith),
        skip-at pre bs rest (rw (length-append bs rest) (omega arith)),
      )
      refl

-- A number is read as its bytes say, and the cursor moves past them.
pub read_type-at :
    (k v : ℕ) (pre rest : List ℕ)
    → v < 256 ^ k
    → length pre + k + length rest < 2 ^ 63
    → read_type k (at pre (le_bytes k v ++ rest)) ≡ (ok v, at (pre ++ le_bytes k v) rest)
read_type-at k v pre rest hv h =
    let e = length-le_bytes k v in
    rw (from_le-le_bytes k v hv, e) at (read_type_bytes pre (le_bytes k v) rest (rw e h))

from_le_one : (b : ℕ) → from_le (b ∷ []) ≡ b
unfolding from_le
from_le_one b = omega arith

-- The bytes of a head.
unfoldable pub head_bytes : ℕ → ℕ → List ℕ
head_bytes type tag = if ltb tag 15 then (type + tag * 16) ∷ [] else (type + 240) ∷ tag ∷ []

pub length-head_bytes :
    (type tag : ℕ) → (1 ≤ length (head_bytes type tag)) × (length (head_bytes type tag) ≤ 2)
unfolding head_bytes
length-head_bytes type tag = ground arith

-- A head is read back as its wire type and its tag.
pub peek_head-at :
    (type tag : ℕ) (pre rest : List ℕ)
    → type < 16
    → tag < 256
    → length pre + length rest + 2 < 2 ^ 63
    → peek_head (at pre (head_bytes type tag ++ rest))
      ≡ (ok (type, tag, length (head_bytes type tag)), at pre (head_bytes type tag ++ rest))
unfolding peek_head head_bytes
peek_head-at type tag pre rest ht hg h = elim (dec_lt tag 15) [
  | yes p ↦
      let d : (type + tag * 16) / 16 ≡ tag = omega arith in
      let m : (type + tag * 16) % 16 ≡ type = omega arith in
      rw
        (
          lt→ltb _ _ p,
          peek_buf-at pre [] ((type + tag * 16) ∷ []) rest (omega arith),
          from_le_one,
          d,
          m,
          ne→==_false tag 15 (omega arith),
        )
        refl
  | no p ↦
      let d : (type + 240) / 16 ≡ 15 = omega arith in
      let m : (type + 240) % 16 ≡ type = omega arith in
      rw
        (
          not_lt→ltb _ _ p,
          peek_buf-at pre [] ((type + 240) ∷ []) (tag ∷ rest) (omega arith),
          from_le_one,
          d,
          m,
          peek_buf-at pre ((type + 240) ∷ []) (tag ∷ []) rest (omega arith),
          from_le_one,
        )
        refl
]

pub read_head-at :
    (type tag : ℕ) (pre rest : List ℕ)
    → type < 16
    → tag < 256
    → length pre + length rest + 2 < 2 ^ 63
    → read_head (at pre (head_bytes type tag ++ rest))
      ≡ (ok (type, tag), at (pre ++ head_bytes type tag) rest)
unfolding read_head
read_head-at type tag pre rest ht hg h =
    rw
      (
        peek_head-at type tag pre rest ht hg h,
        skip-at pre (head_bytes type tag) rest (
            rw (length-append (head_bytes type tag) rest)
              (omega (arith, length-head_bytes type tag))),
      )
      refl
