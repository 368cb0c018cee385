-- ===== src/Buffer/Growth.antt =====
-- util/src/tc_buffer.cpp: the loops of `RoundUp2Power` and `AssureSpace` end, and with enough room.
use learn_tars.Base.{
  ℕ, zero, suc, ◌+◌, ◌-◌, ◌*◌, ◌^◌, ◌≤◌, ◌<◌, ◌>>=◌, ◌≡◌, refl, ap, ◌∙◌, some, arith, dec_lt,
  lt→ltb, not_lt→ltb, le→leb, ne→==_false,
}
use native.Mathlib.Nat.{pow-suc, pow-le-pow_right}
use learn_tars.Base.Words.{add64, sub64, mul64}
use learn_tars.Buffer.{
  Buffer, round_loop, round_up_2_power, next_capacity, grow, writable_size, default_size,
  max_buffer_size,
}

-- Powers of two are in the order of their exponents.
two_pow_lt : (k m : ℕ) → 2 ^ k < 2 ^ m → k < m
two_pow_lt k m h = elim (dec_lt k m) [
  | yes p ↦ p
  | no p ↦
      absurd (omega (arith, pow-le-pow_right {n = 2} (omega arith) {i = m} {j = k} (omega arith)))
]

round_loop_lem :
    (f size k : ℕ)
    → 0 < size
    → size ≤ 2 ^ 63
    → k + f ≡ 64
    → 2 ^ k < 2 * size
    → (m : ℕ) × (round_loop f size (2 ^ k) ≡ some (2 ^ m))
      × (m ≤ 63)
      × (size ≤ 2 ^ m)
      × (2 ^ m < 2 * size)
unfolding round_loop
round_loop_lem zero size k p h e b = absurd (omega (arith, two_pow_lt k 64 (omega arith)))
round_loop_lem (suc f) size k p h e b = elim (dec_lt (2 ^ k) size) [
  | yes lt ↦
      let s : mul64 (2 ^ k) 2 ≡ 2 ^ suc k = omega (arith, pow-suc 2 k) in
      let step : round_loop (suc f) size (2 ^ k) ≡ round_loop f size (2 ^ suc k) =
        rw (lt→ltb _ _ lt, s) refl in
      let (m, eq, r0, r1, r2) =
        round_loop_lem f size (suc k) p h (omega arith) (omega (arith, pow-suc 2 k)) in
      (m, step ∙ eq, r0, r1, r2)
  | no ge ↦
      (k, rw (not_lt→ltb _ _ ge) refl, omega (arith, two_pow_lt k 64 (omega arith)), omega arith, b)
]

-- `RoundUp2Power` of a size from 1 to 2^63 returns within 64 rounds, with the least power of two
-- that is not below the size.
pub round_up_2_power_lem :
    (size : ℕ)
    → 0 < size
    → size ≤ 2 ^ 63
    → (m : ℕ) × (round_up_2_power size ≡ some (2 ^ m))
      × (m ≤ 63)
      × (size ≤ 2 ^ m)
      × (2 ^ m < 2 * size)
unfolding round_up_2_power
round_up_2_power_lem size p h =
    rw (ne→==_false size 0 (omega arith)) (round_loop_lem 64 size 0 p h refl (omega arith))

-- A round of the loop of `AssureSpace` makes the capacity a larger power of two, at most 2^63.
next_capacity_lem :
    (capacity : ℕ)
    → capacity ≤ max_buffer_size
    → (k : ℕ) × (next_capacity capacity ≡ some (2 ^ k)) × (k ≤ 63) × (capacity < 2 ^ k)
unfolding next_capacity
next_capacity_lem capacity h = elim (dec_lt capacity default_size) [
  | yes lt ↦ (7, rw (lt→ltb _ _ lt) refl, omega arith, omega arith)
  | no ge ↦
      let (m, eq, m63, up, less) = round_up_2_power_lem capacity (omega arith) (omega arith) in
      elim (dec_lt capacity (2 ^ m)) [
        | yes p ↦ (
          m,
          rw (not_lt→ltb _ _ ge, le→leb capacity max_buffer_size h, eq, lt→ltb _ _ p) refl,
          m63,
          p,
        )
        | no p ↦
            let m62 : m < 63 = two_pow_lt m 63 (omega arith) in
            let d : mul64 2 (2 ^ m) ≡ 2 ^ suc m = omega (
              arith,
              pow-suc 2 m,
              pow-le-pow_right {n = 2} (omega arith) {i = m} {j = 62} (omega arith),
            ) in
            (
              suc m,
              rw (not_lt→ltb _ _ ge, le→leb capacity max_buffer_size h, eq, not_lt→ltb _ _ p, d)
                  refl,
              m62,
              omega (arith, pow-suc 2 m),
            )
      ]
]

-- The loop of `AssureSpace` ends within 65 rounds: `m` of them have been made.
pub grow_lem :
    (f m need : ℕ) (b : Buffer)
    → m + f ≡ 65
    → 2 ^ m ≤ 2 * b.capacity + 1
    → b.read_pos ≤ b.write_pos
    → b.write_pos ≤ b.capacity
    → b.capacity ≤ 2 ^ 63
    → b.write_pos - b.read_pos + need < max_buffer_size
    → (c : ℕ) × (grow f need b ≡ some (record b { capacity = c }))
      × (b.capacity ≤ c)
      × (c ≤ 2 ^ 63)
      × (b.write_pos - b.read_pos + need ≤ c)
unfolding grow writable_size
grow_lem zero m need b e p rw_ wc c63 small =
    absurd (omega (arith, pow-le-pow_right {n = 2} (omega arith) {i = 65} {j = m} (omega arith)))
grow_lem (suc f) m need b e p rw_ wc c63 small =
    let s : add64 (sub64 b.capacity b.write_pos) b.read_pos
        ≡ b.capacity - b.write_pos + b.read_pos =
      omega arith in
    elim (dec_lt (b.capacity - b.write_pos + b.read_pos) need) [
      | no ge ↦ (b.capacity, rw (s, not_lt→ltb _ _ ge) refl, omega arith, c63, omega arith)
      | yes lt ↦
          let (k, eq, k63, above) = next_capacity_lem b.capacity (omega arith) in
          let step : grow (suc f) need b
              ≡ (next_capacity b.capacity >>= λ c. grow f need (record b { capacity = c })) =
            rw (s, lt→ltb _ _ lt) refl in
          let later : m < suc k = two_pow_lt m (suc k) (omega (arith, pow-suc 2 k)) in
          let b' : Buffer = record b { capacity = 2 ^ k } in
          let (c, eq', l, u, r) =
            grow_lem f (suc m) need b' (omega arith)
              (omega (
                arith,
                pow-suc 2 k,
                pow-le-pow_right {n = 2} (omega arith) {i = suc m} {j = suc k} (omega arith),
              ))
              rw_ (omega arith) (pow-le-pow_right {n = 2} (omega arith) {i = k} {j = 63} k63)
              small in
          (
            c,
            step ∙ ap (λ o. o >>= λ x. grow f need (record b { capacity = x })) eq ∙ eq',
            omega arith,
            u,
            r,
          )
    ]
