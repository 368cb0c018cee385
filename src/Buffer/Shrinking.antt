-- ===== src/Buffer/Shrinking.antt =====
-- util/src/tc_buffer.cpp: `Shrink` keeps the contents.
use learn_tars.Base.{
  ℕ, ◌-◌, ◌*◌, ◌%◌, Bool, true, false, leb→le, ltb→lt, le→leb, lt→ltb, ◌^◌, ◌≤◌, ◌<◌, ◌≡◌, refl,
  sym, ap, ◌∙◌, ◌⊎◌, inl, inr, List, [], Option, some, arith, length, ltb, leb, ◌||◌, ne→==_false,
  dec_lt, Bool-cases, ◌>>=◌,
}
use mathlib.Core.Path.{subst}
use native.Mathlib.Nat.{pow-le-pow_right}
use learn_tars.Base.Words.{mul64}
use learn_tars.Buffer.{
  Buffer, readable_size, is_empty, contents, overwrite, round_up_2_power, default_size, shrink,
}
use learn_tars.Buffer.Growth.{round_up_2_power_lem}
use learn_tars.Buffer.Contents.{IsSound, readable_lem, length-contents, placed_lem}

or_right : (x y : Bool) → x ≡ false → (x || y) ≡ true → y ≡ true
or_right false y e t = t
or_right true y e t = let no : ⊥ = cc in elim no [ ]

or_true : (x y : Bool) → y ≡ true → (x || y) ≡ true
or_true false y e = e
or_true true y e = refl

clash : {b : Bool} → b ≡ true → b ≡ false → ⊥
clash e f = cc

-- A buffer whose array was released.
released_lem :
    (p : ℕ)
    → p < 100
    → let b : Buffer = record {
      read_pos = 0;
      write_pos = 0;
      capacity = 0;
      memory = [];
      high_water_percent = p;
    } in
      IsSound b × (contents b ≡ [])
unfolding contents readable_size
released_lem p h = (
  record {
    read_le = omega arith;
    write_le = omega arith;
    sized = refl;
    small = omega arith;
    percent = h;
  },
  refl,
)

empty_contents : (b : Buffer) → b.write_pos - b.read_pos ≡ 0 → IsSound b → contents b ≡ []
unfolding contents
empty_contents b e h = rw (readable_lem b h, e) refl

-- A buffer whose bytes moved to a new array of `c` bytes.
moved_lem :
    (fresh : ℕ → List ℕ) (b : Buffer)
    → ((n : ℕ) → length (fresh n) ≡ n)
    → IsSound b
    → (c : ℕ) → b.write_pos - b.read_pos ≤ c
    → c ≤ 2 ^ 63
    → let b' : Buffer = record b {
      memory = overwrite 0 (contents b) (fresh c);
      capacity = c;
      read_pos = 0;
      write_pos = b.write_pos - b.read_pos;
    } in
      IsSound b' × (contents b' ≡ contents b)
moved_lem fresh b sized h c room small =
    let n = length-contents b h in
    rw n at (
      placed_lem c b.high_water_percent (contents b) (fresh c) (omega (arith, sized c)) (sized c)
        small h.percent)

-- When the buffer is small, or used to more than the high-water percentage of its capacity, as the
-- code counts on 64 bits.
abbrev pub KeepsSize : Buffer → ℕ → Type 0
KeepsSize b n =
    (b.capacity ≤ default_size)
    ⊎ ((b.capacity * b.high_water_percent) % 2 ^ 64 < (n * 100) % 2 ^ 64)

keeps_size :
    (b : Buffer) (n : ℕ)
    → (leb b.capacity default_size || ltb (mul64 b.capacity b.high_water_percent) (mul64 n 100))
      ≡ true
    → KeepsSize b n
keeps_size b n t = elim (Bool-cases (leb b.capacity default_size)) [
  | inl e ↦ inl (leb→le b.capacity default_size e)
  | inr e ↦ inr (ltb→lt (mul64 b.capacity b.high_water_percent) (mul64 n 100) (or_right _ _ e t))
]

shrinks_size :
    (b : Buffer) (n : ℕ)
    → (leb b.capacity default_size || ltb (mul64 b.capacity b.high_water_percent) (mul64 n 100))
      ≡ false
    → ¬ KeepsSize b n
shrinks_size b n t (inl l) =
    clash
      (ap (λ x. x || ltb (mul64 b.capacity b.high_water_percent) (mul64 n 100))
        (le→leb b.capacity default_size l))
      t
shrinks_size b n t (inr l) =
    clash (or_true _ _ (lt→ltb (mul64 b.capacity b.high_water_percent) (mul64 n 100) l)) t

-- On a sound buffer, and with what `new char[n]` returns being `n` bytes long, Shrink keeps the
-- contents and keeps the buffer sound, and its loop ends. Without contents it leaves a capacity of
-- 0. With contents it leaves the buffer as it is if this is no larger than the default or used
-- above the high-water percentage, counted on 64 bits, and otherwise it leaves a capacity of at
-- least the size of the contents and at most twice that.
pub shrink_lem :
    (fresh : ℕ → List ℕ) (b : Buffer)
    → ((n : ℕ) → length (fresh n) ≡ n)
    → IsSound b
    → let n = length (contents b) in
      (b' : Buffer) × (shrink fresh b ≡ some b')
      × IsSound b'
      × (contents b' ≡ contents b)
      × (((n ≡ 0) × (b'.capacity ≡ 0))
          ⊎ ((0 < n) × KeepsSize b n × (b' ≡ b))
          ⊎ ((0 < n) × (¬ KeepsSize b n) × (n ≤ b'.capacity) × (b'.capacity ≤ 2 * n)))
unfolding shrink is_empty
shrink_lem fresh b sized h =
    let d = b.write_pos - b.read_pos in
    let r = readable_lem b h in
    let n = length-contents b h in
    elim (dec_lt 0 d) [
      | no z ↦
          let e : d ≡ 0 = omega arith in
          let g = released_lem b.high_water_percent h.percent in
          (_, rw (r, e) refl, g.0, g.1 ∙ sym (empty_contents b e h), inl (omega (arith, n), refl))
      | yes p ↦
          elim (Bool-cases (
            leb b.capacity default_size
            || ltb (mul64 b.capacity b.high_water_percent) (mul64 d 100))) [
              | inl t ↦ (
                b,
                rw (r, ne→==_false d 0 (omega arith), t) refl,
                h,
                refl,
                inr (inl (omega (arith, n), subst (KeepsSize b) (sym n) (keeps_size b d t), refl)),
              )
              | inr t ↦
                  let (m, eq, m63, up, less) =
                    round_up_2_power_lem d p (omega (arith, h.write_le, h.small)) in
                  let to_new : ℕ → Option Buffer = λ c. some (record b {
                    memory = overwrite 0 (contents b) (fresh c);
                    capacity = c;
                    read_pos = 0;
                    write_pos = d;
                  }) in
                  let s : shrink fresh b ≡ (round_up_2_power d >>= to_new) =
                    rw (r, ne→==_false d 0 (omega arith), t) refl in
                  let g =
                    moved_lem fresh b sized h (2 ^ m) up
                      (pow-le-pow_right {n = 2} (omega arith) {i = m} {j = 63} m63) in
                  (
                    _,
                    s ∙ ap (λ o. o >>= to_new) eq,
                    g.0,
                    g.1,
                    inr (
                        inr (
                          omega (arith, n),
                          subst (λ k. ¬ KeepsSize b k) (sym n) (shrinks_size b d t),
                          omega (arith, up, n),
                          omega (arith, less, n),
                        )),
                  )
            ]
    ]
