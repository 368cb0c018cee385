-- ===== src/LoopQueue/Refines.antt =====
-- Each operation of `TC_LoopQueue` answers as the bounded sequence does, and holds what it holds.
use learn_tars.Base.{
  ℕ, ◌+◌, ◌≤◌, ◌<◌, ◌^◌, ◌≡◌, ◌∙◌, refl, true, false, List, [], ◌∷◌, ◌++◌, some, append-nil,
  append_assoc, arith, ltb, leb, ◌==◌, ◌&&◌, ◌||◌, not, length, length-append, lt→ltb, le→leb,
  lt→leb_false, not_lt→leb, not_lt→ltb, le→ltb_false, not_le→ltb, not_le→leb, dec_lt, dec_le,
}
use learn_tars.LoopQueue.{
  LoopQueue, built, next, max_size, init, size, empty, is_full, store, push_back, push_back_quiet,
  store_all, lacks_room, push_back_all, pop_front, drop_front, get_front,
}
use learn_tars.LoopQueue.Holds.{Holds, next-le, next-Span, size-length, store-Holds}
use learn_tars.LoopQueue.Fifo
use learn_tars.LoopQueue.Fifo.{is_nil}

module _ {ℓ} {A : Type ℓ} where
  -- `q` is a queue for at most `bound` elements, and holds `xs`.
  pub record Refines (bound : ℕ) (q : LoopQueue A) (xs : List A) : Type ℓ where
    pub limit : q.capacity_sub ≡ bound
    pub positive : 0 < bound
    pub holds : Holds q xs

  is_full_lem :
      (bound : ℕ) (q : LoopQueue A) (xs : List A)
      → Refines bound q xs
      → is_full q ≡ leb bound (length xs)
  unfolding is_full
  is_full_lem bound q xs r = ground arith

  lacks_room_lem :
      (bound n : ℕ) (q : LoopQueue A) (xs : List A)
      → Refines bound q xs
      → n < 2 ^ 63
      → lacks_room q n ≡ ltb bound (length xs + n)
  unfolding lacks_room
  lacks_room_lem bound n q xs r h = ground arith

  pub empty-is_nil : (q : LoopQueue A) (xs : List A) → Holds q xs → empty q ≡ is_nil xs
  unfolding empty is_nil
  empty-is_nil q [] h = ground arith
  empty-is_nil q (x ∷ xs) h = ground arith

  empty_test : (q : LoopQueue A) → Holds q [] → (q.end == q.begin) ≡ true
  empty_test q h = ground arith

  nonempty_test :
      (q : LoopQueue A) (x : A) (xs : List A) → Holds q (x ∷ xs) → (q.end == q.begin) ≡ false
  nonempty_test q x xs h = ground arith

  store-limit : (q : LoopQueue A) (t : A) → (store q t).capacity_sub ≡ q.capacity_sub
  unfolding store
  store-limit q t = refl

  store-Refines :
      (bound : ℕ) (q : LoopQueue A) (xs : List A) (t : A)
      → Refines bound q xs
      → length xs < bound
      → Refines bound (store q t) (xs ++ t ∷ [])
  store-Refines bound q xs t r h = record {
    limit = store-limit q t ∙ r.limit;
    positive = r.positive;
    holds = store-Holds q xs t r.holds (omega arith);
  }

  -- The length after a push is 1 exactly when the queue was empty, so the second test of `bEmpty`
  -- adds nothing.
  first_lem :
      (bound : ℕ) (q : LoopQueue A) (xs : List A) (t : A)
      → Refines bound q xs
      → length xs < bound
      → (empty q || (not (empty q) && (1 == size (store q t)))) ≡ is_nil xs
  unfolding is_nil
  first_lem bound q [] t r h = rw (empty-is_nil q [] r.holds, is_nil)
  first_lem bound q (x ∷ xs) t r h =
      rw (empty-is_nil q (x ∷ xs) r.holds, is_nil)
        (ground (
          arith,
          size-length (store q t) (x ∷ xs ++ t ∷ []) (store-Refines bound q (x ∷ xs) t r h).holds,
          length-append xs (t ∷ []),
        ))

  -- On a queue that refines a bounded sequence, `push_back` answers as a push there does, `bEmpty`
  -- included, and refines what the push leaves.
  pub push_back-Refines :
      (bound : ℕ) (q : LoopQueue A) (xs : List A) (t : A)
      → Refines bound q xs
      → let (done, b_empty, q') = push_back q t in
        let (done', b_empty', xs') = Fifo.push bound xs t in
        (done ≡ done') × (b_empty ≡ b_empty') × Refines bound q' xs'
  unfolding push_back Fifo.push
  push_back-Refines bound q xs t r = elim (dec_lt (length xs) bound) [
    | yes p ↦
        rw (is_full_lem bound q xs r, lt→leb_false _ _ p, lt→ltb _ _ p)
          (refl, first_lem bound q xs t r p, store-Refines bound q xs t r p)
    | no p ↦ rw (is_full_lem bound q xs r, not_lt→leb _ _ p, not_lt→ltb _ _ p) (refl, refl, r)
  ]

  -- The two other forms of it do the same.
  pub push_back_quiet-Refines :
      (bound : ℕ) (q : LoopQueue A) (xs : List A) (t : A)
      → Refines bound q xs
      → let (done, q') = push_back_quiet q t in
        let (done', b_empty', xs') = Fifo.push bound xs t in (done ≡ done') × Refines bound q' xs'
  unfolding push_back_quiet
  push_back_quiet-Refines bound q xs t r = let h = push_back-Refines bound q xs t r in (h.0, h.2)

  store_all-Refines :
      (bound : ℕ) (q : LoopQueue A) (xs ts : List A)
      → Refines bound q xs
      → length xs + length ts ≤ bound
      → Refines bound (store_all q ts) (xs ++ ts)
  unfolding store_all
  store_all-Refines bound q xs [] r h = rw append-nil r
  store_all-Refines bound q xs (t ∷ ts) r h = rw (append_assoc xs (t ∷ []) ts) at (
      store_all-Refines bound (store q t) (xs ++ t ∷ []) ts
        (store-Refines bound q xs t r (omega arith)) (rw (length-append xs (t ∷ [])) (omega arith)))

  -- On a queue that refines a bounded sequence, `push_back` of a vector of fewer than 2^63 elements
  -- takes all of it if that fits the bound, and else none of it, and tells which.
  pub push_back_all-Refines :
      (bound : ℕ) (q : LoopQueue A) (xs ts : List A)
      → Refines bound q xs
      → length ts < 2 ^ 63
      → let (done, q') = push_back_all q ts in
        let (done', xs') = Fifo.push_all bound xs ts in (done ≡ done') × Refines bound q' xs'
  unfolding push_back_all Fifo.push_all
  push_back_all-Refines bound q xs ts r h = elim (dec_le (length xs + length ts) bound) [
    | yes p ↦
        rw (lacks_room_lem bound (length ts) q xs r h, le→ltb_false _ _ p, le→leb _ _ p)
          (refl, store_all-Refines bound q xs ts r p)
    | no p ↦
        rw (lacks_room_lem bound (length ts) q xs r h, not_le→ltb _ _ p, not_le→leb _ _ p) (refl, r)
  ]

  -- What is left after the first element is what the queue holds when `_iEnd` moves on.
  drop-Refines :
      (bound : ℕ) (q : LoopQueue A) (x : A) (xs : List A)
      → Refines bound q (x ∷ xs)
      → Refines bound (record q { end = next q.capacity_sub q.end }) xs
  drop-Refines bound q x xs r = record {
    limit = r.limit;
    positive = r.positive;
    holds = record {
      sized = h.sized;
      small = h.small;
      memory = h.memory;
      begin_in = h.begin_in;
      end_in = next-le q.capacity_sub q.end h.end_in;
      fits = omega arith;
      span =
          next-Span q.capacity_sub q.end (length xs) q.begin h.end_in (omega arith) h.begin_in
            h.span;
      chain = h.chain.1;
    };
  }
    where
      h : Holds q (x ∷ xs)
      h = r.holds

  -- On a queue that refines a bounded sequence, `pop_front` hands out the oldest element and
  -- refines the others, and fails, changing nothing, on the empty queue only.
  pub pop_front-Refines :
      (bound : ℕ) (q : LoopQueue A) (xs : List A)
      → Refines bound q xs
      → let (done, out, q') = pop_front q in
        let (done', out', xs') = Fifo.pop xs in (done ≡ done') × (out ≡ out') × Refines bound q' xs'
  unfolding pop_front Fifo.pop
  pop_front-Refines bound q [] r = rw (empty_test q r.holds) (refl, refl, r)
  pop_front-Refines bound q (x ∷ xs) r =
      rw (nonempty_test q x xs r.holds) (refl, r.holds.chain.0, drop-Refines bound q x xs r)

  -- `pop_front()` and `get_front` do the two halves of it.
  pub drop_front-Refines :
      (bound : ℕ) (q : LoopQueue A) (xs : List A)
      → Refines bound q xs
      → let (done, q') = drop_front q in
        let (done', out', xs') = Fifo.pop xs in (done ≡ done') × Refines bound q' xs'
  unfolding drop_front Fifo.pop
  drop_front-Refines bound q [] r = rw (empty_test q r.holds) (refl, r)
  drop_front-Refines bound q (x ∷ xs) r =
      rw (nonempty_test q x xs r.holds) (refl, drop-Refines bound q x xs r)

  pub get_front-Refines :
      (bound : ℕ) (q : LoopQueue A) (xs : List A) → Refines bound q xs → get_front q ≡ Fifo.front xs
  unfolding get_front Fifo.front
  get_front-Refines bound q [] r = rw (empty_test q r.holds) refl
  get_front-Refines bound q (x ∷ xs) r = rw (nonempty_test q x xs r.holds, r.holds.chain.0) refl

  -- For a size `n` from 1 to below the limit, on memory of more than `n` slots, the constructor
  -- succeeds, and what it builds refines the empty sequence bounded by `n`.
  pub init-Refines :
      (memory : List A) (n : ℕ)
      → 0 < n
      → n < length memory
      → n < max_size
      → (init memory n ≡ some (built memory n)) × Refines n (built memory n) []
  unfolding init
  init-Refines memory n h m p = (
    rw (lt→ltb _ _ p) refl,
    record {
      limit = refl;
      positive = h;
      holds = record {
        sized = omega arith;
        small = p;
        memory = omega arith;
        begin_in = omega arith;
        end_in = omega arith;
        fits = omega arith;
        span = omega arith;
        chain = tt;
      };
    },
  )
