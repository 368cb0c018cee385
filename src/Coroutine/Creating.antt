-- ===== src/Coroutine/Creating.antt =====
-- The creation of a coroutine, from the free ones or from a pool that grows.
use mathlib.Core.Path.{subst}
use learn_tars.Base.{
  ℕ, ◌+◌, ◌-◌, ◌<◌, ◌≤◌, ◌^◌, ◌≡◌, ◌≢◌, refl, ap, ◌∙◌, Bool, true, List, ◌∷◌, Option, some, arith,
  if◌then◌else◌, length, ltb, ne→==_false, min,
}
use learn_tars.Base.Words.{add32, sub32}
use learn_tars.Coroutine.Links.{free, avail, Heap, get_next-some}
use learn_tars.Coroutine.Chains.{has}
use learn_tars.Coroutine.Rings.{Ring}
use learn_tars.Coroutine.Lists.{head, main, Members}
use learn_tars.Coroutine.Moves.{place, placed, place-Lists, moved}
use learn_tars.Coroutine.Counting.{used_of-moved, free-moved, Listed-moved, moved-Listed}
use learn_tars.Coroutine.Invariant.{IsValid}
use learn_tars.Coroutine.Waking.{All-map}
use learn_tars.Coroutine.Growing.{counting, add_frees, increase_loop_lem, next_coro}
use learn_tars.Coroutine.Scheduler.{
  Scheduler, get_uid, take_free, increase_loop, increase_coro_pool_size,
}

-- With one more coroutine in use.
abbrev pub using : Heap → Scheduler → Scheduler
using h s = record s { used_size = s.used_size + 1; heap = h }

take_free_step :
    (s : Scheduler) (c : ℕ) (h : Heap)
    → s.heap.next (head free) ≡ c
    → place c avail s.heap ≡ some h
    → s.used_size + 1 < 2 ^ 32
    → take_free s ≡ some (c - main, using h s)
unfolding take_free get_uid
take_free_step s c h e f u =
    let a : add32 s.used_size 1 ≡ s.used_size + 1 = ground arith in
    rw (get_next-some (head free) s.heap (λ z. omega arith), e, f, a) refl

pub take_free_lem :
    (s : Scheduler) (m : Members) (c : ℕ) (cs : List ℕ)
    → IsValid s m
    → m free ≡ c ∷ cs
    → (h : Heap) × (take_free s ≡ some (c - main, using h s))
      × IsValid (using h s) (moved c free avail m)
take_free_lem s m c cs v f =
    let i : has c (m free) ≡ true = rw f (ground arith) in
    let (e, l) = place-Lists v.lists c free i avail in
    let r : Ring s.heap (head free) (c ∷ cs) =
      subst (Ring s.heap (head free)) f (v.lists.ring free) in
    let k = ap length f in
    let p = v.pool_lt in
    let q = v.uniq_le in
    let small : s.used_size + 1 < 2 ^ 32 = omega (arith, v.used_eq, v.current_eq, v.current_le) in
    let g = Listed-moved c free avail m in
    let u = used_of-moved c free avail m i refl in
    let w = free-moved c free avail m i refl in
    let h = placed v.lists c free i avail in
    (
      h,
      take_free_step s c h r.chain.0 e small,
      record {
        lists = l;
        made = λ p q. v.made p (moved-Listed c free avail m i p q);
        found = λ id z. g (id + main) (v.found id z);
        uniq_le = v.uniq_le;
        pool_lt = v.pool_lt;
        used_eq = omega (arith, v.used_eq, u);
        current_eq = omega (arith, v.current_eq, u, w);
        current_le = v.current_le;
        need_known = All-map (λ x j. g (x + main) j) s.need_active v.need_known;
        queue_known = All-map (λ x j. g (x + main) j) s.active_queue.queue v.queue_known;
        times_known = All-map (λ x j. g (x.1 + main) j) s.timeouts v.times_known;
      },
    )

-- How many coroutines the pool grows by.
abbrev pub increment : Scheduler → ℕ
increment s = min 100 (s.pool_size - s.current_size)

-- The members when the pool has grown.
abbrev pub grown_members : Scheduler → Members → Members
grown_members s m = add_frees (increment s) (next_coro s) m

increase_eq :
    (allocate : ℕ → ℕ → Option Bool) (s s1 : Scheduler) (inc : ℕ)
    → inc ≡ increment s
    → s.current_size < s.pool_size
    → s.pool_size < 2 ^ 32
    → increase_loop allocate inc 0 s ≡ some (inc, s1)
    → s1.current_size ≡ s.current_size
    → increase_coro_pool_size allocate s ≡ some (true, counting (s.current_size + inc) s1)
unfolding increase_coro_pool_size
increase_eq allocate s s1 inc i l p e c =
    let rest : sub32 s.pool_size s.current_size ≡ s.pool_size - s.current_size = ground arith in
    let same_inc : (if ltb 100 (s.pool_size - s.current_size)
          then 100
          else s.pool_size - s.current_size)
        ≡ inc =
      ground arith in
    let z : inc ≢ 0 = λ f. omega arith in
    let a : add32 s1.current_size inc ≡ s.current_size + inc = ground arith in
    rw (rest, same_inc, ne→==_false inc 0 z, e, ne→==_false inc 0 z, a) refl

pub increase_lem :
    (allocate : ℕ → ℕ → Option Bool) (s : Scheduler) (m : Members)
    → ((id : ℕ) → allocate s.stack_size id ≡ some true)
    → IsValid s m
    → s.uniq_id ≡ s.current_size
    → s.current_size < s.pool_size
    → (s' : Scheduler) × (increase_coro_pool_size allocate s ≡ some (true, s'))
      × IsValid s' (grown_members s m)
      × (s'.uniq_id ≡ s'.current_size)
      × (s'.current_size ≡ s.current_size + increment s)
      × (s'.pool_size ≡ s.pool_size)
      × (s'.current ≡ s.current)
      × (s'.terminal ≡ s.terminal)
      × (s'.stack_size ≡ s.stack_size)
unfolding increase_coro_pool_size
increase_lem allocate s m a v u l =
    let inc = increment s in
    let room : s.uniq_id + inc ≤ s.pool_size = omega arith in
    let (s1, e, w, g) = increase_loop_lem allocate inc 0 s.current_size s m a v room in
    let n : 0 + inc ≡ inc = omega arith in
    let f = e ∙ ap (λ k. some (k, s1)) n in
    (
      counting (s.current_size + inc) s1,
      increase_eq allocate s s1 inc refl l v.pool_lt f g.current_size_eq,
      w,
      g.uniq_eq ∙ ap (λ k. k + inc) u,
      refl,
      g.pool_eq,
      g.current_eq,
      g.terminal_eq,
      g.stack_eq,
    )
