-- ===== src/Buffer/Contents.antt =====
-- util/src/tc_buffer.cpp: the buffer as a sequence of bytes, filled at its end and emptied at its
-- front.
use learn_tars.Base.{
  ℕ, zero, suc, ◌+◌, ◌-◌, ◌^◌, ◌≤◌, ◌<◌, ◌≡◌, refl, sym, ◌∙◌, true, List, [], ◌∷◌, ◌++◌,
  append_assoc, some, arith, length, length-append, take, drop, take-append, length-take,
  length-drop, drop_append_le, leb, dec_lt, lt→ltb, not_lt→ltb, le→leb,
}
use learn_tars.Base.Words.{sub64}
use learn_tars.Buffer.{Buffer, readable_size, writable_size, contents, overwrite, settle}

-- The positions are in order within the array, which is as long as the capacity says.
pub record IsSound (b : Buffer) : Type 0 where
  pub read_le : b.read_pos ≤ b.write_pos
  pub write_le : b.write_pos ≤ b.capacity
  pub sized : length b.memory ≡ b.capacity
  pub small : b.capacity ≤ 2 ^ 63
  pub percent : b.high_water_percent < 100

pub readable_lem : (b : Buffer) → IsSound b → readable_size b ≡ b.write_pos - b.read_pos
unfolding readable_size
readable_lem b h = omega (arith, h.read_le, h.write_le, h.small)

pub writable_lem : (b : Buffer) → IsSound b → writable_size b ≡ b.capacity - b.write_pos
unfolding writable_size
writable_lem b h = omega (arith, h.write_le, h.small)

pub length-contents : (b : Buffer) → IsSound b → length (contents b) ≡ b.write_pos - b.read_pos
unfolding contents
length-contents b h = omega (
  arith,
  length-take (readable_size b) (drop b.read_pos b.memory),
  length-drop b.read_pos b.memory,
  readable_lem b h,
  h.read_le,
  h.write_le,
  h.sized,
)

pub length-overwrite :
    (pos : ℕ) (bs mem : List ℕ)
    → pos + length bs ≤ length mem
    → length (overwrite pos bs mem) ≡ length mem
unfolding overwrite
length-overwrite pos bs mem h = omega (
  arith,
  length-append (take pos mem) (bs ++ drop (pos + length bs) mem),
  length-append bs (drop (pos + length bs) mem),
  length-take pos mem,
  length-drop (pos + length bs) mem,
)

-- Bytes put at the start of an array are the first ones there.
take-overwrite : (bs mem : List ℕ) → take (length bs) (overwrite 0 bs mem) ≡ bs
unfolding overwrite
take-overwrite bs mem = take-append bs (drop (0 + length bs) mem)

pub take-drop_split :
    (r n : ℕ) (mem : List ℕ) → r + n ≤ length mem → drop r (take (r + n) mem) ≡ take n (drop r mem)
take-drop_split zero n mem h = let e : 0 + n ≡ n = omega arith in rw e refl
take-drop_split (suc r) n [] h = absurd (omega arith)
take-drop_split (suc r) n (x ∷ mem) h =
    let e : suc r + n ≡ suc (r + n) = omega arith in rw e (take-drop_split r n mem (omega arith))

-- Bytes put behind others are read behind them.
pub take-drop-overwrite :
    (r n : ℕ) (bs mem : List ℕ)
    → r + n + length bs ≤ length mem
    → take (n + length bs) (drop r (overwrite (r + n) bs mem)) ≡ take n (drop r mem) ++ bs
unfolding overwrite
take-drop-overwrite r n bs mem h =
    let back = drop (r + n + length bs) mem in
    let front = take n (drop r mem) in
    let l : length front ≡ n = omega (arith, length-take n (drop r mem), length-drop r mem) in
    let k : length (front ++ bs) ≡ n + length bs = omega (arith, length-append front bs) in
    rw
      (
        drop_append_le r (take (r + n) mem) (bs ++ back) (omega (arith, length-take (r + n) mem)),
        take-drop_split r n mem (omega arith),
        sym (append_assoc front bs back),
        sym k,
      )
      (take-append (front ++ bs) back)

-- Bytes moved to the start of an array that is large enough are the contents there.
pub placed_lem :
    (c p : ℕ) (bs mem : List ℕ)
    → length bs ≤ length mem
    → length mem ≡ c
    → c ≤ 2 ^ 63
    → p < 100
    → let b : Buffer = record {
      read_pos = 0;
      write_pos = length bs;
      capacity = c;
      memory = overwrite 0 bs mem;
      high_water_percent = p;
    } in
      IsSound b × (contents b ≡ bs)
unfolding contents readable_size
placed_lem c p bs mem h e small q =
    let r : sub64 (length bs) 0 ≡ length bs = omega arith in
    (
      record {
        read_le = omega arith;
        write_le = omega arith;
        sized = length-overwrite 0 bs mem (omega arith) ∙ e;
        small = small;
        percent = q;
      },
      rw r (take-overwrite bs mem),
    )

module _ (fresh : ℕ → List ℕ) (sized : (n : ℕ) → length (fresh n) ≡ n) where
  -- What holds after room was made for `need` bytes.
  pub record HasRoom (need : ℕ) (b b' : Buffer) : Type 0 where
    pub sound : IsSound b'
    pub kept : contents b' ≡ contents b
    pub room : b'.write_pos + need ≤ b'.capacity

  pub settle_lem :
      (need c : ℕ) (b : Buffer)
      → IsSound b
      → b.capacity - b.write_pos < need
      → b.capacity ≤ c
      → c ≤ 2 ^ 63
      → b.write_pos - b.read_pos + need ≤ c
      → (b' : Buffer) × (settle fresh need b (record b { capacity = c }) ≡ some b')
        × HasRoom need b b'
  unfolding settle writable_size
  settle_lem need c b h lack l u room =
      let n = length-contents b h in
      let r : readable_size b ≡ length (contents b) = readable_lem b h ∙ sym n in
      let w : sub64 c (length (contents b)) ≡ c - length (contents b) =
        omega (arith, h.read_le, h.write_le) in
      let e : leb need (c - length (contents b)) ≡ true =
        le→leb _ _ (omega (arith, h.read_le, h.write_le)) in
      elim (dec_lt b.capacity c) [
        | yes lt ↦
            let p =
              placed_lem c b.high_water_percent (contents b) (fresh c)
                (omega (arith, sized c, h.write_le)) (sized c) u h.percent in
            (
              _,
              rw (lt→ltb _ _ lt, r, w, e) refl,
              record { sound = p.0; kept = p.1; room = omega (arith, h.read_le, h.write_le) },
            )
        | no ge ↦
            let p =
              placed_lem c b.high_water_percent (contents b) b.memory
                (omega (arith, h.sized, h.write_le)) (omega (arith, h.sized)) u h.percent in
            (
              _,
              rw
                  (
                    not_lt→ltb _ _ ge,
                    lt→ltb 0 b.read_pos (omega (arith, h.read_le, h.write_le)),
                    r,
                    w,
                    e,
                  )
                  refl,
              record { sound = p.0; kept = p.1; room = omega (arith, h.read_le, h.write_le) },
            )
      ]
