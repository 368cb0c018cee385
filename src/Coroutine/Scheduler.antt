-- ===== src/Coroutine/Scheduler.antt =====
-- `CoroutineScheduler`: its state, the growth of its pool, the creation of coroutines and the ways
-- to wake them. A failed assertion, an index out of an array and a null pointer are `none`.
-- Notifications of other threads have no effect on the state.
use learn_tars.Base.{
  ℕ, zero, suc, ◌+◌, ◌-◌, ◌*◌, Bool, true, false, ◌||◌, List, [], ◌∷◌, ◌++◌, Option, some, ltb, leb,
  ◌==◌, if◌then◌else◌, ◌>>=◌, ◌>>◌, assert_that,
}
use learn_tars.Base.Words.{add32, sub32}
use learn_tars.ThreadQueue
use learn_tars.ThreadQueue.{ThreadQueue, new_queue}
use learn_tars.Coroutine.Links.{
  free, active, avail, inactive, timeout, Heap, null, put, get_next, set_prev, set_next, set_status,
  head_init, head_empty, add_tail,
}
use learn_tars.Coroutine.Lists.{head, main}
use learn_tars.Coroutine.Moves.{place, move_to_active, move_to_avail}

pub record Scheduler : Type 0 where
  pub terminal : Bool
  pub pool_size : ℕ
  pub stack_size : ℕ
  pub current_size : ℕ
  pub used_size : ℕ
  pub uniq_id : ℕ
  -- The coroutine that runs.
  pub current : ℕ
  pub all_coro : ℕ → ℕ
  pub heap : Heap
  pub active_queue : ThreadQueue ℕ
  pub need_active : List ℕ
  -- In order of their times.
  pub timeouts : List (ℕ × ℕ)

-- The heads of the five lists, in memory of which nothing is assumed.
unfoldable pub init_heads : Heap → Option Heap
init_heads h =
    head_init (head active) h
    >>= head_init (head avail)
    >>= head_init (head inactive)
    >>= head_init (head timeout)
    >>= head_init (head free)

-- The constructor.
unfoldable pub new_scheduler : Heap → Option Scheduler
new_scheduler memory = init_heads memory >>= λ h. some (record {
  terminal = false;
  pool_size = 1000;
  stack_size = 128 * 1024;
  current_size = 0;
  used_size = 0;
  uniq_id = 0;
  current = null;
  all_coro = λ id. null;
  heap = h;
  active_queue = new_queue;
  need_active = [];
  timeouts = [];
})

-- The identifier of a coroutine, and the pointer to the one with an identifier.
unfoldable pub get_uid : ℕ → ℕ
get_uid coro = coro - main

unfoldable pub pointer_of : ℕ → ℕ
pointer_of uid = uid + main

-- `while (++_uniqId < 1);`, which has at most two rounds.
unfoldable pub uniq_loop : ℕ → ℕ → ℕ
uniq_loop zero u = u
uniq_loop (suc rounds) u = let v = add32 u 1 in if ltb v 1 then uniq_loop rounds v else v

unfoldable pub generate_id : Scheduler → Option (ℕ × Scheduler)
generate_id s =
    let id = uniq_loop 2 s.uniq_id in
    do assert_that (leb id s.pool_size); some (id, record s { uniq_id = id })

-- A coroutine that `new` made, and `setStatus(CORO_FREE)`.
unfoldable pub new_coroutine : ℕ → Heap → Option Heap
new_coroutine coro h = set_prev coro null h >>= set_next coro null >>= set_status coro free

-- The table of `_poolSize + 1` slots, of which the loop sets those from 0 to `_poolSize`: when the
-- sum wraps, it writes behind the end.
unfoldable pub new_table : ℕ → Option (ℕ → ℕ)
new_table pool = do assert_that (ltb pool (add32 pool 1)); some (λ id. null)

-- Enter a coroutine in the table and in the list of the free ones.
unfoldable pub enter : ℕ → Scheduler → Option Scheduler
enter id s = do
  h ← new_coroutine (pointer_of id) s.heap
  h' ← add_tail (pointer_of id) (head free) h
  some (record s { heap = h'; all_coro = put id (pointer_of id) s.all_coro })

-- Take the first free coroutine.
unfoldable pub take_free : Scheduler → Option (ℕ × Scheduler)
take_free s = do
  coro ← get_next (head free) s.heap
  h ← place coro avail s.heap
  some (get_uid coro, record s { used_size = add32 s.used_size 1; heap = h })

-- `allocate size id` is what the allocator answers for a stack of `size` bytes for the coroutine
-- `id`: whether there is memory, or `none` for an assertion that fails.
module _ (allocate : ℕ → ℕ → Option Bool) where
  -- The loop of `increaseCoroPoolSize` for `n` more coroutines, and the number made.
  unfoldable pub increase_loop : ℕ → ℕ → Scheduler → Option (ℕ × Scheduler)
  increase_loop zero made s = some (made, s)
  increase_loop (suc n) made s = generate_id s >>= λ (id, s1). allocate s1.stack_size id >>= λ got.
      if got then enter id s1 >>= increase_loop n (made + 1) else some (made, s1)

  unfoldable pub increase_coro_pool_size : Scheduler → Option (Bool × Scheduler)
  increase_coro_pool_size s =
      let rest = sub32 s.pool_size s.current_size in
      let inc = if ltb 100 rest then 100 else rest in
      if inc == 0
      then some (false, s)
      else increase_loop inc 0 s >>= λ (made, s1).
          if made == 0
          then some (false, s1)
          else some (true, record s1 { current_size = add32 s1.current_size made })

  -- The identifier, or 0 if there is none.
  unfoldable pub create_coroutine : Scheduler → Option (ℕ × Scheduler)
  create_coroutine s = head_empty (head free) s.heap >>= λ no_free.
      if leb s.current_size s.used_size || no_free
      then (increase_coro_pool_size s >>= λ (grown, s1).
          if grown then take_free s1 else some (0, s1))
      else take_free s

  -- The loop of `init`, which asks for memory before it takes an identifier.
  unfoldable pub init_loop : ℕ → ℕ → Scheduler → Option (ℕ × Scheduler)
  init_loop zero made s = some (made, s)
  init_loop (suc n) made s = allocate s.stack_size (made + 1) >>= λ got.
      if got
      then (generate_id s >>= λ (id, s1). enter id s1 >>= init_loop n (made + 1))
      else some (made, s)

  unfoldable pub init : ℕ → ℕ → Scheduler → Option Scheduler
  init pool stack s =
      if pool == 0
      then some s
      else new_table pool >>= λ table.
          let size = if leb pool 100 then pool else 100 in
          let s1 : Scheduler = record s {
            terminal = false;
            pool_size = pool;
            stack_size = stack;
            all_coro = table;
            used_size = 0;
            uniq_id = 0;
          } in
          init_loop size 0 s1 >>= λ (made, s2). set_status main free s2.heap >>= λ h.
          some (record s2 { current_size = made; heap = h; current = main })

-- `_all_coro[id]`, which must not be null.
unfoldable pub lookup : ℕ → Scheduler → Option ℕ
lookup id s = do
  assert_that (leb id s.pool_size)
  assert_that (ltb null (s.all_coro id))
  some (s.all_coro id)

unfoldable pub put_by_self : ℕ → Scheduler → Scheduler
put_by_self id s = if s.terminal then s else record s { need_active = s.need_active ++ id ∷ [] }

-- What another thread does to wake a coroutine.
unfoldable pub put_id : ℕ → Scheduler → Scheduler
put_id id s =
    if s.terminal then s else record s { active_queue = ThreadQueue.push_back id s.active_queue }

unfoldable pub terminate : Scheduler → Scheduler
terminate s = record s { terminal = true }

-- A move of the coroutine with an identifier, and of several in turn.
unfoldable pub wake : (ℕ → Heap → Option Heap) → ℕ → Scheduler → Option Scheduler
wake move id s = do coro ← lookup id s; h ← move coro s.heap; some (record s { heap = h })

unfoldable pub wake_all : (ℕ → Heap → Option Heap) → List ℕ → Scheduler → Option Scheduler
wake_all move [] s = some s
wake_all move (id ∷ ids) s = wake move id s >>= wake_all move ids

unfoldable pub wakeup_by_self : Scheduler → Option Scheduler
wakeup_by_self s =
    if s.terminal
    then some s
    else wake_all move_to_avail s.need_active s >>= λ s'. some (record s' { need_active = [] })

-- `swap` does not wait, as it is called with no time to wait.
abbrev no_wait : ℕ → ThreadQueue ℕ → Bool × ThreadQueue ℕ
no_wait ms q = (false, q)

-- The part of `wakeup` from the test of the queue's size on.
unfoldable pub wake_queue : ThreadQueue ℕ → Scheduler → Option Scheduler
wake_queue q s =
    if ltb 0 q.size
    then (let (swapped, ids, q') = ThreadQueue.swap no_wait [] 0 q in
        wake_all move_to_active ids (record s { active_queue = q' }))
    else some s

unfoldable pub wakeup : Scheduler → Option Scheduler
wakeup s = if s.terminal then some s else wake_queue s.active_queue s

-- The loop of `wakeupbytimeout` over the entries in the order of their times.
unfoldable pub wake_due : ℕ → List (ℕ × ℕ) → Scheduler → Option Scheduler
wake_due now [] s = some (record s { timeouts = [] })
wake_due now ((time, id) ∷ rest) s =
    if ltb now time
    then some (record s { timeouts = (time, id) ∷ rest })
    else wake move_to_active id s >>= wake_due now rest

unfoldable pub wakeup_by_timeout : ℕ → Scheduler → Option Scheduler
wakeup_by_timeout now s = if s.terminal then some s else wake_due now s.timeouts s
