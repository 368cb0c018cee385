-- ===== src/Coroutine/Faults.antt =====
-- An identifier that `increaseCoroPoolSize` takes before it finds no memory is lost.
use learn_tars.Base.{
  ℕ, ◌+◌, ◌<◌, ◌^◌, ◌≡◌, refl, ap, Bool, true, false, [], Option, none, some, arith, length, leb,
  lt→leb_false, le→leb,
}
use learn_tars.Base.Words.{sub32}
use learn_tars.Coroutine.Links.{free}
use learn_tars.Coroutine.Lists.{Members}
use learn_tars.Coroutine.Rings.{head_empty-is_nil}
use learn_tars.Coroutine.Invariant.{IsValid}
use learn_tars.Coroutine.Growing.{generate_id_lem, uniq_loop_lem}
use learn_tars.Coroutine.Created.{no_members, create_grow}
use learn_tars.Coroutine.Scheduler.{
  Scheduler, generate_id, increase_loop, increase_coro_pool_size, create_coroutine,
}
use learn_tars.Coroutine.Turns.{Ready}

-- The scheduler that has lost an identifier.
abbrev pub one_less : Scheduler → Scheduler
one_less s = record s { uniq_id = s.uniq_id + 1 }

loop_no_memory :
    (allocate : ℕ → ℕ → Option Bool) (s : Scheduler)
    → s.uniq_id < s.pool_size
    → s.pool_size < 2 ^ 32
    → allocate s.stack_size (s.uniq_id + 1) ≡ some false
    → increase_loop allocate 1 0 s ≡ some (0, one_less s)
unfolding increase_loop
loop_no_memory allocate s p q a = rw (generate_id_lem s p q, a) refl

generate_none :
    (s : Scheduler) → s.uniq_id ≡ s.pool_size → s.pool_size + 1 < 2 ^ 32 → generate_id s ≡ none
unfolding generate_id
generate_none s e p =
    rw
      (
        uniq_loop_lem s.uniq_id (omega arith),
        lt→leb_false s.pool_size (s.uniq_id + 1) (omega arith),
      )
      refl

loop_none :
    (allocate : ℕ → ℕ → Option Bool) (s : Scheduler)
    → s.uniq_id ≡ s.pool_size
    → s.pool_size + 1 < 2 ^ 32
    → increase_loop allocate 1 0 s ≡ none
unfolding increase_loop
loop_none allocate s e p = rw (generate_none s e p) refl

one_place :
    (s : Scheduler)
    → s.current_size + 1 ≡ s.pool_size
    → s.pool_size < 2 ^ 32
    → sub32 s.pool_size s.current_size ≡ 1
one_place s e p = ground arith

increase_no_memory :
    (allocate : ℕ → ℕ → Option Bool) (s : Scheduler)
    → s.current_size + 1 ≡ s.pool_size
    → s.pool_size < 2 ^ 32
    → s.uniq_id < s.pool_size
    → allocate s.stack_size (s.uniq_id + 1) ≡ some false
    → increase_coro_pool_size allocate s ≡ some (false, one_less s)
unfolding increase_coro_pool_size
increase_no_memory allocate s e p q a = rw (one_place s e p, loop_no_memory allocate s q p a) refl

increase_none :
    (allocate : ℕ → ℕ → Option Bool) (s : Scheduler)
    → s.current_size + 1 ≡ s.pool_size
    → s.pool_size + 1 < 2 ^ 32
    → s.uniq_id ≡ s.pool_size
    → increase_coro_pool_size allocate s ≡ none
unfolding increase_coro_pool_size
increase_none allocate s e p q = rw (one_place s e (omega arith), loop_none allocate s q p) refl

create_none :
    (allocate : ℕ → ℕ → Option Bool) (s : Scheduler) (m : Members)
    → IsValid s m
    → m free ≡ []
    → increase_coro_pool_size allocate s ≡ none
    → create_coroutine allocate s ≡ none
unfolding create_coroutine
create_none allocate s m v f e =
    let k = ap length f in
    let n : leb s.current_size s.used_size ≡ true =
      le→leb s.current_size s.used_size (omega (arith, v.used_eq, v.current_eq)) in
    rw (head_empty-is_nil (m free) (v.lists.ring free), n, e) refl

pub one_less-IsValid :
    (s : Scheduler) (m : Members) → IsValid s m → s.uniq_id < s.pool_size → IsValid (one_less s) m
one_less-IsValid s m v p = record {
  lists = v.lists;
  made = λ c i. let d = v.made c i in (omega (arith, d.0), d.1);
  found = v.found;
  uniq_le = omega arith;
  pool_lt = v.pool_lt;
  used_eq = v.used_eq;
  current_eq = v.current_eq;
  current_le = omega (arith, v.current_le);
  need_known = v.need_known;
  queue_known = v.queue_known;
  times_known = v.times_known;
}

-- On a valid scheduler that has lost no identifier, when all coroutines but one of the pool are
-- made and in use, and there is no memory for the last, `createCoroutine` answers 0 and the
-- scheduler stays valid. From then on, in every valid state with the same pool, the same number of
-- coroutines and the same last identifier, in which no coroutine is free, `generateId` fails its
-- assertion, and so does `createCoroutine`, whatever memory there is.
pub create_coroutine_lost :
    (allocate allocate' : ℕ → ℕ → Option Bool) (s : Scheduler) (m : Members) (t : Scheduler)
    (m' : Members)
    → Ready s m
    → s.used_size ≡ s.current_size
    → s.current_size + 1 ≡ s.pool_size
    → s.pool_size + 1 < 2 ^ 32
    → allocate s.stack_size (s.uniq_id + 1) ≡ some false
    → IsValid t m'
    → t.uniq_id ≡ s.uniq_id + 1
    → t.current_size ≡ s.current_size
    → t.pool_size ≡ s.pool_size
    → m' free ≡ []
    → (create_coroutine allocate s ≡ some (0, one_less s))
      × IsValid (one_less s) m
      × (m free ≡ [])
      × (generate_id t ≡ none)
      × (create_coroutine allocate' t ≡ none)
create_coroutine_lost allocate allocate' s m t m' r f e p a w u c q nf' =
    let v = r.valid in
    let n = r.no_loss in
    let nf = no_members (m free) (omega (arith, v.used_eq, v.current_eq)) in
    (
      create_grow allocate s (one_less s) m false v nf
          (increase_no_memory allocate s e (omega arith) (omega arith) a),
      one_less-IsValid s m v (omega arith),
      nf,
      generate_none t (omega arith) (omega arith),
      create_none allocate' t m' w nf'
          (increase_none allocate' t (omega arith) (omega arith) (omega arith)),
    )
