-- ===== src/Tars/Numbers.antt =====
-- Round trips of the numbers of tup/Tars.h: what `write` appends, `read` reads back.
use learn_tars.Base.{
  ℕ, ◌+◌, ◌-◌, ◌%◌, ◌^◌, ◌<◌, ◌≡◌, refl, ap, ◌∙◌, Bool, true, List, ◌++◌, some, append-nil, arith,
  length, ◌==◌, inl, inr, Bool-cases, ==_iff,
}
use native.Mathlib.Nat.{one-le-pow}
use learn_tars.Tars.Bytes.{
  hton, tars_htonll, hton-lt, hton-hton, tars_htonll-lt, tars_htonll-tars_htonll,
}
use learn_tars.Tars.Stream.{
  Result, ok, err, stuck, Reader, M, after, return, read_type, sign_extend,
}
use learn_tars.Tars.Skip.{int32_value}
use learn_tars.Tars.Read.{char_of, short_of, int64_of}
use learn_tars.Tars.Write.{fits}
use learn_tars.Tars.Cursor.{at, read_type-at}
use learn_tars.Tars.Wire.{Wire, wire8, wire16, wire32, wire64}

-- Widening the bits of a number that fits a smaller width gives the number.
extend8_16 : (n : ℕ) → n < 2 ^ 16 → fits 8 16 n ≡ true → sign_extend 8 16 (n % 2 ^ 8) ≡ n
unfolding sign_extend
extend8_16 n h e = ground arith

extend16_32 : (n : ℕ) → n < 2 ^ 32 → fits 16 32 n ≡ true → sign_extend 16 32 (n % 2 ^ 16) ≡ n
unfolding sign_extend
extend16_32 n h e = ground arith

extend32_64 : (n : ℕ) → n < 2 ^ 64 → fits 32 64 n ≡ true → sign_extend 32 64 (n % 2 ^ 32) ≡ n
unfolding sign_extend
extend32_64 n h e = ground arith

-- Widening in two steps is widening in one.
widen8_32 : (b : ℕ) → b < 2 ^ 8 → sign_extend 8 32 b ≡ sign_extend 16 32 (sign_extend 8 16 b)
unfolding sign_extend
widen8_32 b h = ground arith

widen8_64 : (b : ℕ) → b < 2 ^ 8 → sign_extend 8 64 b ≡ sign_extend 16 64 (sign_extend 8 16 b)
unfolding sign_extend
widen8_64 b h = ground arith

widen16_64 : (b : ℕ) → b < 2 ^ 16 → sign_extend 16 64 b ≡ sign_extend 32 64 (sign_extend 16 32 b)
unfolding sign_extend
widen16_64 b h = ground arith

zero_extends : (v w : ℕ) → sign_extend v w 0 ≡ 0
unfolding sign_extend
zero_extends v w = ground (arith, one-le-pow (v - 1) 2)

after-return : {A : Type 0} (x : Result A × Reader) → x ≡ after x return
after-return (ok a, r) = refl
after-return (err e, r) = refl
after-return (stuck, r) = refl

module _ (pre rest : List ℕ) (h : length pre + length rest + 8 < 2 ^ 63) where
  -- `found` reads the number `n` off the wire form `x`.
  abbrev Reads : (ℕ → M ℕ) → Wire → ℕ → Type 0
  Reads found x n = found x.0 (at pre (x.1 ++ rest)) ≡ (ok n, at (pre ++ x.1) rest)

  same : (found : ℕ → M ℕ) (x : Wire) {m n : ℕ} → m ≡ n → Reads found x m → Reads found x n
  same found x e r = rw e at r

  -- A reader that gives 0 on a zero tag and widens the byte of a char reads every `wire8`.
  wire8-Reads :
      (found : ℕ → M ℕ) (widen : ℕ → ℕ) (n : ℕ)
      → n < 2 ^ 8
      → ((r : Reader) → found 12 r ≡ (ok 0, r))
      → ((r : Reader) → found 0 r ≡ after (read_type 1 r) (λ v. return (widen v)))
      → widen 0 ≡ 0
      → Reads found (wire8 n) (widen n)
  unfolding wire8
  wire8-Reads found widen n b zero_tag char w0 = elim (Bool-cases (n == 0)) [
    | inl e ↦ let z : n ≡ 0 = (==_iff n 0).0 e in rw (z, append-nil, w0, zero_tag) refl
    | inr e ↦ rw (e, char, read_type-at 1 n pre rest b (omega arith)) refl
  ]

  wire16-Reads :
      (found : ℕ → M ℕ) (widen8 widen16 : ℕ → ℕ) (n : ℕ)
      → n < 2 ^ 16
      → ((b : ℕ) → b < 2 ^ 8 → Reads found (wire8 b) (widen8 b))
      → ((b : ℕ) → b < 2 ^ 8 → widen8 b ≡ widen16 (sign_extend 8 16 b))
      → ((r : Reader) → found 1 r ≡ after (read_type 2 r) (λ v. return (widen16 (hton 2 v))))
      → Reads found (wire16 n) (widen16 n)
  unfolding wire16
  wire16-Reads found widen8 widen16 n b narrow join short = elim (Bool-cases (fits 8 16 n)) [
    | inl e ↦ rw e (
        same found (wire8 (n % 2 ^ 8))
          (join (n % 2 ^ 8) (omega arith) ∙ ap widen16 (extend8_16 n b e))
          (narrow (n % 2 ^ 8) (omega arith)))
    | inr e ↦
        rw
          (
            e,
            short,
            read_type-at 2 (hton 2 n) pre rest (hton-lt 2 n) (omega arith),
            hton-hton 2 n b,
          )
          refl
  ]

  wire32-Reads :
      (found : ℕ → M ℕ) (widen16 widen32 : ℕ → ℕ) (n : ℕ)
      → n < 2 ^ 32
      → ((b : ℕ) → b < 2 ^ 16 → Reads found (wire16 b) (widen16 b))
      → ((b : ℕ) → b < 2 ^ 16 → widen16 b ≡ widen32 (sign_extend 16 32 b))
      → ((r : Reader) → found 2 r ≡ after (read_type 4 r) (λ v. return (widen32 (hton 4 v))))
      → Reads found (wire32 n) (widen32 n)
  unfolding wire32
  wire32-Reads found widen16 widen32 n b narrow join int32 = elim (Bool-cases (fits 16 32 n)) [
    | inl e ↦ rw e (
        same found (wire16 (n % 2 ^ 16))
          (join (n % 2 ^ 16) (omega arith) ∙ ap widen32 (extend16_32 n b e))
          (narrow (n % 2 ^ 16) (omega arith)))
    | inr e ↦
        rw
          (
            e,
            int32,
            read_type-at 4 (hton 4 n) pre rest (hton-lt 4 n) (omega arith),
            hton-hton 4 n b,
          )
          refl
  ]

  pub char_of-Reads : (n : ℕ) → n < 2 ^ 8 → Reads char_of (wire8 n) n
  unfolding char_of
  char_of-Reads n b =
      wire8-Reads char_of (λ v. v) n b (λ r. refl) (λ r. after-return (read_type 1 r)) refl

  pub short_of-Reads : (n : ℕ) → n < 2 ^ 16 → Reads short_of (wire16 n) n
  unfolding short_of
  short_of-Reads n b =
      wire16-Reads short_of (sign_extend 8 16) (λ v. v) n b
        (λ m c.
          wire8-Reads short_of (sign_extend 8 16) m c (λ r. refl) (λ r. refl) (zero_extends 8 16))
        (λ m c. refl) (λ r. refl)

  pub int32_value-Reads :
      (old n : ℕ) (is_require : Bool)
      → n < 2 ^ 32
      → Reads (λ t. int32_value old is_require (some t)) (wire32 n) n
  unfolding int32_value
  int32_value-Reads old n is_require b =
      wire32-Reads (λ t. int32_value old is_require (some t)) (sign_extend 16 32) (λ v. v) n b
        (λ m c.
          wire16-Reads (λ t. int32_value old is_require (some t)) (sign_extend 8 32)
            (sign_extend 16 32) m c
            (λ k d.
              wire8-Reads (λ t. int32_value old is_require (some t)) (sign_extend 8 32) k d
                (λ r. refl) (λ r. refl) (zero_extends 8 32))
            widen8_32 (λ r. refl))
        (λ m c. refl) (λ r. refl)

  pub int64_of-Reads : (n : ℕ) → n < 2 ^ 64 → Reads int64_of (wire64 n) n
  unfolding int64_of wire64
  int64_of-Reads n b = elim (Bool-cases (fits 32 64 n)) [
    | inl e ↦ rw e (
        same int64_of (wire32 (n % 2 ^ 32)) (extend32_64 n b e) (
          wire32-Reads int64_of (sign_extend 16 64) (sign_extend 32 64) (n % 2 ^ 32) (omega arith)
            (λ m c.
              wire16-Reads int64_of (sign_extend 8 64) (sign_extend 16 64) m c
                (λ k d.
                  wire8-Reads int64_of (sign_extend 8 64) k d (λ r. refl) (λ r. refl)
                    (zero_extends 8 64))
                widen8_64 (λ r. refl))
            widen16_64 (λ r. refl)))
    | inr e ↦
        rw
          (
            e,
            read_type-at 8 (tars_htonll n) pre rest (tars_htonll-lt n) (omega arith),
            tars_htonll-tars_htonll n b,
          )
          refl
  ]
