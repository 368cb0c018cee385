-- ===== src/LoopQueue/Holds.antt =====
-- When a `TC_LoopQueue` holds a sequence: its slots from `_iEnd` on, going round, up to `_iBegin`.
use learn_tars.Base.{
  ℕ, suc, ◌+◌, ◌≤◌, ◌<◌, ◌≡◌, ◌⊎◌, List, [], ◌∷◌, ◌++◌, some, arith, length, get_elem?, set,
  get_elem?-set_self, get_elem?-set_ne, length-set, length-append,
}
use learn_tars.LoopQueue.{LoopQueue, next, max_size, size, store}

-- `n` steps from slot `i`, going round after slot `sub`, lead to slot `j`.
abbrev pub Span : ℕ → ℕ → ℕ → ℕ → Type 0
Span sub i n j = (i + n ≡ j) ⊎ (i + n ≡ j + sub + 1)

pub next-le : (sub i : ℕ) → i ≤ sub → next sub i ≤ sub
unfolding next
next-le sub i h = ground arith

-- A step from `i` leaves one step less to go.
pub next-Span :
    (sub i n j : ℕ) → i ≤ sub → n ≤ sub → j ≤ sub → Span sub i (suc n) j → Span sub (next sub i) n j
unfolding next
next-Span sub i n j hi hn hj s = ground arith

-- A step on from `j` is one step more.
pub Span-next :
    (sub i n j : ℕ) → i ≤ sub → n ≤ sub → j ≤ sub → Span sub i n j → Span sub i (suc n) (next sub j)
unfolding next
Span-next sub i n j hi hn hj s = ground arith

module _ {ℓ} {A : Type ℓ} where
  -- Reading on from slot `i`, the elements `xs` come up.
  abbrev pub Chain : List A → ℕ → ℕ → List A → Type ℓ
  Chain slots sub i [] = Unit {ℓ}
  Chain slots sub i (x ∷ xs) = (get_elem? slots i ≡ some x) × Chain slots sub (next sub i) xs

  pub record Holds (q : LoopQueue A) (xs : List A) : Type ℓ where
    pub sized : q.capacity ≡ q.capacity_sub + 1
    pub small : q.capacity_sub < max_size
    pub memory : q.capacity ≤ length q.slots
    pub begin_in : q.begin ≤ q.capacity_sub
    pub end_in : q.end ≤ q.capacity_sub
    pub fits : length xs ≤ q.capacity_sub
    pub span : Span q.capacity_sub q.end (length xs) q.begin
    pub chain : Chain q.slots q.capacity_sub q.end xs

  -- An element written just past a chain extends it.
  pub Chain-snoc :
      (slots : List A) (sub i j : ℕ) (xs : List A) (x : A)
      → i ≤ sub
      → j ≤ sub
      → length xs ≤ sub
      → sub < length slots
      → Span sub i (length xs) j
      → Chain slots sub i xs
      → Chain (set slots j x) sub i (xs ++ x ∷ [])
  Chain-snoc slots sub i j [] x hi hj hn hs s c =
      let e : i ≡ j = omega arith in rw e (get_elem?-set_self slots j x (omega arith), tt)
  Chain-snoc slots sub i j (y ∷ ys) x hi hj hn hs s c = (
    rw (get_elem?-set_ne slots j i x (omega arith)) c.0,
    Chain-snoc slots sub (next sub i) j ys x (next-le sub i hi) hj (omega arith) hs
        (next-Span sub i (length ys) j hi (omega arith) hj s) c.1,
  )

  -- `size` of a queue that holds a sequence is the length of the sequence.
  pub size-length : (q : LoopQueue A) (xs : List A) → Holds q xs → size q ≡ length xs
  unfolding size
  size-length q xs h = ground arith

  -- A write with a slot to spare appends the element.
  pub store-Holds :
      (q : LoopQueue A) (xs : List A) (t : A)
      → Holds q xs
      → length xs < q.capacity_sub
      → Holds (store q t) (xs ++ t ∷ [])
  unfolding store
  store-Holds q xs t h room = record {
    sized = h.sized;
    small = h.small;
    memory = rw (length-set q.slots q.begin t) h.memory;
    begin_in = next-le q.capacity_sub q.begin h.begin_in;
    end_in = h.end_in;
    fits = rw (length-append xs (t ∷ [])) (omega arith);
    span = rw (length-append xs (t ∷ [])) (
        let e : length xs + 1 ≡ suc (length xs) = omega arith in
        rw e
          (Span-next q.capacity_sub q.end (length xs) q.begin h.end_in h.fits h.begin_in h.span));
    chain =
        Chain-snoc q.slots q.capacity_sub q.end q.begin xs t h.end_in h.begin_in h.fits
          (omega arith) h.span h.chain;
  }
