-- ===== src/Tars/Bytes.antt =====
-- tup/TarsType.h: numbers as the bytes of a little-endian machine, and the byte order of the wire.
use learn_tars.Base.{
  ℕ, zero, suc, ◌+◌, ◌*◌, ◌/◌, ◌%◌, ◌^◌, ◌<◌, ◌≡◌, refl, ap, ◌∙◌, List, [], ◌∷◌, ◌++◌, arith,
  length, length-append, All,
}
use mathlib.Core.Path.{ap₂}
use native.Mathlib.Nat.{pow-suc}
use mathlib.Core.List.{reverse, reverse-reverse, reverse-cons}

abbrev pub IsByte : ℕ → Type 0
IsByte b = b < 256

-- The `k` bytes of a number in memory, the lowest first.
unfoldable pub le_bytes : ℕ → ℕ → List ℕ
le_bytes zero v = []
le_bytes (suc k) v = v % 256 ∷ le_bytes k (v / 256)

unfoldable pub from_le : List ℕ → ℕ
from_le [] = 0
from_le (b ∷ bs) = b + 256 * from_le bs

-- `htons`, `htonl` and their inverses: the bytes the other way round.
unfoldable pub hton : ℕ → ℕ → ℕ
unfolding le_bytes from_le
hton k v = from_le (reverse (le_bytes k v))

-- `tars_htonll`: the halves change places, and each is turned round.
unfoldable pub tars_htonll : ℕ → ℕ
tars_htonll v = hton 4 (v / 2 ^ 32) + 2 ^ 32 * hton 4 (v % 2 ^ 32)

pub length-le_bytes : (k v : ℕ) → length (le_bytes k v) ≡ k
unfolding le_bytes
length-le_bytes zero v = refl
length-le_bytes (suc k) v = ap suc (length-le_bytes k (v / 256))

pub le_bytes-IsByte : (k v : ℕ) → All IsByte (le_bytes k v)
unfolding le_bytes
le_bytes-IsByte zero v = tt
le_bytes-IsByte (suc k) v = (omega arith, le_bytes-IsByte k (v / 256))

-- Reading back the bytes of a number that has so many.
pub from_le-le_bytes : (k v : ℕ) → v < 256 ^ k → from_le (le_bytes k v) ≡ v
unfolding le_bytes from_le
from_le-le_bytes zero v h = omega arith
from_le-le_bytes (suc k) v h = omega (arith, from_le-le_bytes k (v / 256) (omega arith))

pub le_bytes-from_le : (bs : List ℕ) → All IsByte bs → le_bytes (length bs) (from_le bs) ≡ bs
unfolding le_bytes from_le
le_bytes-from_le [] h = refl
le_bytes-from_le (b ∷ bs) h =
    ap₂ ◌∷◌ (omega arith) (ap (le_bytes (length bs)) (omega arith) ∙ le_bytes-from_le bs h.1)

pub from_le-lt : (bs : List ℕ) → All IsByte bs → from_le bs < 256 ^ length bs
unfolding from_le
from_le-lt [] h = omega arith
from_le-lt (b ∷ bs) h = omega (arith, from_le-lt bs h.1, pow-suc 256 (length bs))

length-reverse : (bs : List ℕ) → length (reverse bs) ≡ length bs
length-reverse [] = refl
length-reverse (b ∷ bs) =
    omega
      (arith, ap length (reverse-cons b bs), length-append (reverse bs) (b ∷ []), length-reverse bs)

All-append : (xs ys : List ℕ) → All IsByte xs → All IsByte ys → All IsByte (xs ++ ys)
All-append [] ys h g = g
All-append (x ∷ xs) ys h g = (h.0, All-append xs ys h.1 g)

All-reverse : (bs : List ℕ) → All IsByte bs → All IsByte (reverse bs)
All-reverse [] h = tt
All-reverse (b ∷ bs) h =
    rw (reverse-cons b bs) (All-append (reverse bs) (b ∷ []) (All-reverse bs h.1) (h.0, tt))

-- Storing a number in network order writes its highest byte first.
pub le_bytes-hton : (k v : ℕ) → le_bytes k (hton k v) ≡ reverse (le_bytes k v)
unfolding hton
le_bytes-hton k v =
    let bs = reverse (le_bytes k v) in
    let e : length bs ≡ k = length-reverse (le_bytes k v) ∙ length-le_bytes k v in
    rw e at (le_bytes-from_le bs (All-reverse (le_bytes k v) (le_bytes-IsByte k v)))

pub hton-lt : (k v : ℕ) → hton k v < 256 ^ k
unfolding hton
hton-lt k v =
    let bs = reverse (le_bytes k v) in
    let e : length bs ≡ k = length-reverse (le_bytes k v) ∙ length-le_bytes k v in
    rw e at (from_le-lt bs (All-reverse (le_bytes k v) (le_bytes-IsByte k v)))

-- Turning a number round twice gives it back.
pub hton-hton : (k v : ℕ) → v < 256 ^ k → hton k (hton k v) ≡ v
unfolding hton
hton-hton k v h =
    ap (λ bs. from_le (reverse bs)) (le_bytes-hton k v)
    ∙ ap from_le (reverse-reverse (le_bytes k v))
    ∙ from_le-le_bytes k v h

halves : (a b : ℕ) → a < 2 ^ 32 → ((a + 2 ^ 32 * b) / 2 ^ 32 ≡ b) × ((a + 2 ^ 32 * b) % 2 ^ 32 ≡ a)
halves a b h = omega arith

pub tars_htonll-lt : (v : ℕ) → tars_htonll v < 2 ^ 64
unfolding tars_htonll
tars_htonll-lt v = omega (arith, hton-lt 4 (v / 2 ^ 32), hton-lt 4 (v % 2 ^ 32))

pub tars_htonll-tars_htonll : (v : ℕ) → v < 2 ^ 64 → tars_htonll (tars_htonll v) ≡ v
unfolding tars_htonll
tars_htonll-tars_htonll v h =
    let s = halves (hton 4 (v / 2 ^ 32)) (hton 4 (v % 2 ^ 32)) (hton-lt 4 (v / 2 ^ 32)) in
    rw (s.0, s.1, hton-hton 4 (v % 2 ^ 32) (omega arith), hton-hton 4 (v / 2 ^ 32) (omega arith))
      (omega arith)

-- On a number below 2^64, turning round its two halves and swapping them turns round its eight
-- bytes.
pub tars_htonll-hton : (v : ℕ) → v < 2 ^ 64 → tars_htonll v ≡ hton 8 v
unfolding tars_htonll hton
tars_htonll-hton v h = omega arith
