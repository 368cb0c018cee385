-- ===== src/LoopQueue.antt =====
-- util/include/tc_loop_queue.h: `TC_LoopQueue<T>`, a circular queue of fixed size.
-- One slot of the array stays free, so that `_iBegin == _iEnd` means empty.
pub mod Fifo
pub mod History
pub mod Holds
pub mod Refines
mod Tests
use learn_tars.Base.{
  ℕ, ◌+◌, ◌-◌, ◌<◌, ◌≡◌, Bool, true, false, not, ◌&&◌, ◌||◌, List, [], ◌∷◌, Option, none, some, ltb,
  leb, ◌==◌, if◌then◌else◌, length, get_elem?, set,
}
use learn_tars.Base.Words.{add32, sub32, add64, sub64}

-- `slots` is the array at `_p`. `begin` is where the next element is written, and `end` is where
-- the oldest one is read, as the source names them.
pub record LoopQueue {ℓ} (A : Type ℓ) : Type ℓ where
  pub slots : List A
  pub capacity : ℕ
  pub capacity_sub : ℕ
  pub begin : ℕ
  pub end : ℕ

-- What `assert(iSize<1000000)` allows.
abbrev pub max_size : ℕ
max_size = 1000000

-- `if (i == _iCapacitySub) i = 0; else i++;`
pub next : ℕ → ℕ → ℕ
next sub i = if i == sub then 0 else i + 1

module _ {ℓ} {A : Type ℓ} where
  -- The queue that the constructor builds on the memory that `malloc` returned.
  pub built : List A → ℕ → LoopQueue A
  built memory n = record {
    slots = memory;
    capacity = add32 n 1;
    capacity_sub = n;
    begin = 0;
    end = 0;
  }

  -- The constructor. A failed assertion is `none`.
  pub init : List A → ℕ → Option (LoopQueue A)
  unfolding built
  init memory n = if ltb n max_size then some (built memory n) else none

  pub size : LoopQueue A → ℕ
  size q = if ltb q.begin q.end then sub32 (add32 q.begin q.capacity) q.end else sub32 q.begin q.end

  pub empty : LoopQueue A → Bool
  empty q = q.end == q.begin

  -- The guard of the two `push_back` of one element.
  pub is_full : LoopQueue A → Bool
  is_full q =
      (ltb q.begin q.end && ltb (sub32 q.end q.begin) 2)
      || (ltb q.end q.begin && ltb (sub32 q.capacity 2) (sub32 q.begin q.end))

  -- `memcpy` to the write position, which then moves on.
  pub store : LoopQueue A → A → LoopQueue A
  unfolding next
  store q t = record q { slots = set q.slots q.begin t; begin = next q.capacity_sub q.begin }

  -- `push_back(t, bEmpty)`: the result, `bEmpty`, and the queue.
  pub push_back : LoopQueue A → A → Bool × Bool × LoopQueue A
  unfolding is_full store empty size
  push_back q t =
      if is_full q
      then (false, false, q)
      else let q' = store q t in (true, empty q || (not (empty q) && (1 == size q')), q')

  -- `push_back(t)`
  pub push_back_quiet : LoopQueue A → A → Bool × LoopQueue A
  unfolding push_back
  push_back_quiet q t = let (done, b_empty, q') = push_back q t in (done, q')

  -- `push_back(t, bEmpty, iBegin, iEnd)`: the two positions handed out are those before the push.
  pub push_back_ends : LoopQueue A → A → Bool × Bool × ℕ × ℕ × LoopQueue A
  unfolding push_back
  push_back_ends q t =
      let (done, b_empty, q') = push_back q t in (done, b_empty, q.begin, q.end, q')

  -- The loop of `push_back(vt)`.
  pub store_all : LoopQueue A → List A → LoopQueue A
  unfolding store
  store_all q [] = q
  store_all q (t ∷ ts) = store_all (store q t) ts

  -- The guard of `push_back(vt)`, for `n` elements: `vt.size()` makes the arithmetic 64 bits wide.
  pub lacks_room : LoopQueue A → ℕ → Bool
  lacks_room q n =
      ltb (sub32 q.capacity 1) n
      || (ltb q.begin q.end && ltb (sub32 q.end q.begin) (add64 n 1))
      || (ltb q.end q.begin && ltb (sub64 (sub64 q.capacity n) 1) (sub32 q.begin q.end))

  -- `push_back(vt)`: all of the elements or none.
  pub push_back_all : LoopQueue A → List A → Bool × LoopQueue A
  unfolding lacks_room store_all
  push_back_all q vt = if lacks_room q (length vt) then (false, q) else (true, store_all q vt)

  -- `pop_front(t)`. The option is what `t` receives.
  pub pop_front : LoopQueue A → Bool × Option A × LoopQueue A
  unfolding next
  pop_front q =
      if q.end == q.begin
      then (false, none, q)
      else (true, get_elem? q.slots q.end, record q { end = next q.capacity_sub q.end })

  -- `pop_front()`
  pub drop_front : LoopQueue A → Bool × LoopQueue A
  unfolding next
  drop_front q =
      if q.end == q.begin then (false, q) else (true, record q { end = next q.capacity_sub q.end })

  pub get_front : LoopQueue A → Bool × Option A
  get_front q = if q.end == q.begin then (false, none) else (true, get_elem? q.slots q.end)
