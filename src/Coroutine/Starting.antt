-- ===== src/Coroutine/Starting.antt =====
-- The constructor, and the scheduler that the loop of `init` starts from.
use learn_tars.Base.{ℕ, ◌<◌, ◌^◌, ◌≡◌, refl, false, [], some, arith}
use learn_tars.ThreadQueue.{new_queue}
use learn_tars.Coroutine.Links.{Status, free, active, avail, inactive, timeout, Heap, null, put}
use learn_tars.Coroutine.Rings.{Ring, head_init-Ring}
use learn_tars.Coroutine.Lists.{head, Members, Lists}
use learn_tars.Coroutine.Invariant.{IsValid}
use learn_tars.Coroutine.Growing.{counting}
use learn_tars.Coroutine.Scheduler.{Scheduler, init_heads}

-- The heap when the heads have been initialised.
abbrev headed : ℕ → Heap → Heap
headed c h = record h { prev = put c c h.prev; next = put c c h.next }

abbrev pub heads_of : Heap → Heap
heads_of m =
    headed (head free) (
      headed (head timeout) (headed (head inactive) (headed (head avail) (headed (head active) m))))

pub init_heads-heads_of : (m : Heap) → init_heads m ≡ some (heads_of m)
unfolding init_heads
init_heads-heads_of m =
    rw
      (
        head_init-Ring (head active) m (λ z. omega arith),
        head_init-Ring (head avail) _ (λ z. omega arith),
        head_init-Ring (head inactive) _ (λ z. omega arith),
        head_init-Ring (head timeout) _ (λ z. omega arith),
        head_init-Ring (head free) _ (λ z. omega arith),
      )
      refl

heads-Ring : (m : Heap) (s : Status) → Ring (heads_of m) (head s) []
heads-Ring m free = record { chain = (refl, refl); distinct = tt; head_out = refl; no_null = refl }
heads-Ring m active = record {
  chain = (refl, refl);
  distinct = tt;
  head_out = refl;
  no_null = refl;
}
heads-Ring m avail = record { chain = (refl, refl); distinct = tt; head_out = refl; no_null = refl }
heads-Ring m inactive = record {
  chain = (refl, refl);
  distinct = tt;
  head_out = refl;
  no_null = refl;
}
heads-Ring m timeout = record {
  chain = (refl, refl);
  distinct = tt;
  head_out = refl;
  no_null = refl;
}

abbrev pub no_members : Members
no_members s = []

heads_Lists : (m : Heap) → Lists (heads_of m) no_members
heads_Lists m = record { ring = heads-Ring m; above = λ s c i. cc; status_eq = λ s c i. cc }

-- The scheduler that the loop of `init` starts from.
abbrev pub starting : ℕ → ℕ → Heap → Scheduler
starting pool stack m = record {
  terminal = false;
  pool_size = pool;
  stack_size = stack;
  current_size = 0;
  used_size = 0;
  uniq_id = 0;
  current = null;
  all_coro = λ id. null;
  heap = heads_of m;
  active_queue = new_queue;
  need_active = [];
  timeouts = [];
}

pub starting-IsValid :
    (pool stack : ℕ) (m : Heap)
    → pool < 2 ^ 32
    → IsValid (counting 0 (starting pool stack m)) no_members
starting-IsValid pool stack m p = record {
  lists = heads_Lists m;
  made = λ c (u, i). cc;
  found = λ id z. elim (z refl) [ ];
  uniq_le = omega arith;
  pool_lt = p;
  used_eq = refl;
  current_eq = refl;
  current_le = omega arith;
  need_known = tt;
  queue_known = tt;
  times_known = tt;
}
