-- ===== src/Coroutine/Initial.antt =====
-- The constructor and `init` establish the invariant, for however many stacks there is memory.
use learn_tars.Base.{
  ℕ, zero, suc, ◌+◌, ◌<◌, ◌≤◌, ◌^◌, ◌≡◌, refl, ◌∙◌, Bool, true, false, Option, none, some, arith,
  if◌then◌else◌, ◌>>=◌, Bool-cases, inl, inr, ap, ltb, leb, min, ne→==_false,
}
use learn_tars.Base.Words.{add32}
use learn_tars.Coroutine.Links.{Status, free, Heap, put, set_status-some}
use learn_tars.Coroutine.Chains.{has}
use learn_tars.Coroutine.Lists.{main, Members, set_status-Lists}
use learn_tars.Coroutine.Invariant.{IsValid}
use learn_tars.Coroutine.Growing.{
  counting, grown, grown-IsValid, generate_id_lem, enter_lem, add_free, next_coro,
}
use learn_tars.Coroutine.Scheduler.{Scheduler, new_scheduler, init, init_loop, new_table}
use learn_tars.Coroutine.Stacks.{System, Takes, allocate_stack, allocate_stack_lem}
use learn_tars.Coroutine.Turns.{Ready}
use learn_tars.Coroutine.Starting.{init_heads-heads_of, starting, starting-IsValid, no_members}

-- What the loop of `init` leaves: as many coroutines as it has made, and as many identifiers.
record Started (pool stack bound : ℕ) (o : Option (ℕ × Scheduler)) : Type 0 where
  number : ℕ
  after : Scheduler
  members : Members
  result : o ≡ some (number, after)
  valid : IsValid (counting number after) members
  uniq_eq : after.uniq_id ≡ number
  bounded : number ≤ bound
  pool_eq : after.pool_size ≡ pool
  stack_eq : after.stack_size ≡ stack
  used_eq : after.used_size ≡ 0

stopped :
    {bound made : ℕ} {s : Scheduler} {m : Members} {o : Option (ℕ × Scheduler)}
    → o ≡ some (made, s)
    → IsValid (counting made s) m
    → s.uniq_id ≡ made
    → made ≤ bound
    → s.used_size ≡ 0
    → Started s.pool_size s.stack_size bound o
stopped {bound} {made} {s} {m} e v u b z = record {
  number = made;
  after = s;
  members = m;
  result = e;
  valid = v;
  uniq_eq = u;
  bounded = b;
  pool_eq = refl;
  stack_eq = refl;
  used_eq = z;
}

init_step :
    (allocate : ℕ → ℕ → Option Bool) (n made : ℕ) (s : Scheduler) (m : Members)
    (v : IsValid (counting made s) m) (p : s.uniq_id < s.pool_size)
    → allocate s.stack_size (made + 1) ≡ some true
    → init_loop allocate (suc n) made s ≡ init_loop allocate n (made + 1) (grown made s m v p)
unfolding init_loop
init_step allocate n made s m v p a =
    rw (a, generate_id_lem s p v.pool_lt, enter_lem made s m v p) refl

init_stop :
    (allocate : ℕ → ℕ → Option Bool) (n made : ℕ) (s : Scheduler)
    → allocate s.stack_size (made + 1) ≡ some false
    → init_loop allocate (suc n) made s ≡ some (made, s)
unfolding init_loop
init_stop allocate n made s a = rw a refl

init_zero :
    (allocate : ℕ → ℕ → Option Bool) (made : ℕ) (s : Scheduler)
    → init_loop allocate zero made s ≡ some (made, s)
unfolding init_loop
init_zero allocate made s = refl

init_loop-Started :
    (allocate : ℕ → ℕ → Option Bool) (n made : ℕ) (s : Scheduler) (m : Members)
    → ((id : ℕ) → (b : Bool) × (allocate s.stack_size id ≡ some b))
    → IsValid (counting made s) m
    → s.uniq_id ≡ made
    → made + n ≤ s.pool_size
    → s.used_size ≡ 0
    → Started s.pool_size s.stack_size (made + n) (init_loop allocate n made s)
init_loop-Started allocate zero made s m d v u p z =
    stopped (init_zero allocate made s) v u (omega arith) z
init_loop-Started allocate (suc n) made s m d v u p z = elim (Bool-cases (d (made + 1)).0) [
  | inl a ↦
      let q : s.uniq_id < s.pool_size = omega arith in
      let t =
        init_loop-Started allocate n (made + 1) (grown made s m v q) (add_free (next_coro s) m) d
          (grown-IsValid made s m v q) (omega arith) (omega arith) z in
      record {
        number = t.number;
        after = t.after;
        members = t.members;
        result = init_step allocate n made s m v q ((d (made + 1)).1 ∙ ap some a) ∙ t.result;
        valid = t.valid;
        uniq_eq = t.uniq_eq;
        bounded = omega (arith, t.bounded);
        pool_eq = t.pool_eq;
        stack_eq = t.stack_eq;
        used_eq = t.used_eq;
      }
  | inr a ↦ stopped (init_stop allocate n made s ((d (made + 1)).1 ∙ ap some a)) v u (omega arith) z
]

-- The number of coroutines that `init` tries to make.
abbrev first_size : ℕ → ℕ
first_size pool = if leb pool 100 then pool else 100

first_size-min : (pool : ℕ) → first_size pool ≡ min pool 100
first_size-min pool = ground arith

in_table : (pool : ℕ) → pool + 1 < 2 ^ 32 → ltb pool (add32 pool 1) ≡ true
in_table pool q = ground arith

init_eq :
    (allocate : ℕ → ℕ → Option Bool) (pool stack : ℕ) (memory : Heap) (number : ℕ) (s : Scheduler)
    → 0 < pool
    → pool + 1 < 2 ^ 32
    → init_loop allocate (min pool 100) 0 (starting pool stack memory) ≡ some (number, s)
    → (new_scheduler memory >>= init allocate pool stack)
      ≡ some (record s {
        current_size = number;
        heap = record s.heap { status = put main free s.heap.status };
        current = main;
      })
unfolding new_scheduler init new_table
init_eq allocate pool stack memory number s p q e =
    rw
      (
        init_heads-heads_of memory,
        ne→==_false pool 0 (λ z. omega arith),
        in_table pool q,
        first_size-min pool,
        e,
        set_status-some main s.heap (λ z. omega arith) free,
      )
      refl

first_loop :
    (allocate : ℕ → ℕ → Option Bool) (n : ℕ) (s : Scheduler)
    → 1 ≤ n
    → allocate s.stack_size 1 ≡ none
    → init_loop allocate n 0 s ≡ none
unfolding init_loop
first_loop allocate zero s l a = let no : ⊥ = omega arith in elim no [ ]
first_loop allocate (suc n) s l a = let one : 0 + 1 ≡ 1 = omega arith in rw (one, a) refl

-- When an assertion fails for the first stack.
pub init_refused :
    (allocate : ℕ → ℕ → Option Bool) (pool stack : ℕ) (memory : Heap)
    → 1 ≤ pool
    → pool + 1 < 2 ^ 32
    → ((id : ℕ) → allocate stack id ≡ none)
    → (new_scheduler memory >>= init allocate pool stack) ≡ none
unfolding new_scheduler init new_table
init_refused allocate pool stack memory p q a =
    rw
      (
        init_heads-heads_of memory,
        ne→==_false pool 0 (λ z. omega arith),
        in_table pool q,
        first_size-min pool,
        first_loop allocate (min pool 100) (starting pool stack memory) (omega arith) (a 1),
      )
      refl

-- What they leave with an allocator none of whose assertions fails.
pub init_lem :
    (allocate : ℕ → ℕ → Option Bool) (pool stack : ℕ) (memory : Heap)
    → 0 < pool
    → pool + 1 < 2 ^ 32
    → ((id : ℕ) → (b : Bool) × (allocate stack id ≡ some b))
    → (s : Scheduler) × (m : Members) × ((new_scheduler memory >>= init allocate pool stack)
        ≡ some s)
      × Ready s m
      × (s.pool_size ≡ pool)
      × (s.used_size ≡ 0)
      × (s.current_size ≤ min pool 100)
      × (s.current ≡ main)
      × (s.stack_size ≡ stack)
init_lem allocate pool stack memory p q d =
    let t =
      init_loop-Started allocate (min pool 100) 0 (starting pool stack memory) no_members d
        (starting-IsValid pool stack memory (omega arith)) refl (omega arith) refl in
    let v = t.valid in
    let out : (u : Status) → has main (t.members u) ≡ false = λ u.
      elim (Bool-cases (has main (t.members u))) [
        | inl i ↦ let a = v.lists.above u main i in let no : ⊥ = omega arith in elim no [ ]
        | inr o ↦ o
      ] in
    let l = set_status-Lists t.after.heap t.members main free v.lists out in
    (
      record t.after {
        current_size = t.number;
        heap = record t.after.heap { status = put main free t.after.heap.status };
        current = main;
      },
      t.members,
      init_eq allocate pool stack memory t.number t.after p q t.result,
      record {
        valid = record {
          lists = l;
          made = v.made;
          found = v.found;
          uniq_le = v.uniq_le;
          pool_lt = v.pool_lt;
          used_eq = v.used_eq;
          current_eq = v.current_eq;
          current_le = v.current_le;
          need_known = v.need_known;
          queue_known = v.queue_known;
          times_known = v.times_known;
        };
        no_loss = t.uniq_eq;
      },
      t.pool_eq,
      t.used_eq,
      omega (arith, t.bounded),
      refl,
      t.stack_eq,
    )

-- The constructor and `init`, for a pool of 1 to 2^32 - 2 coroutines and a size of stacks that the
-- allocator takes, end without a fault and leave a valid scheduler that has lost no identifier, for
-- however many stacks there is memory: with no coroutine in use, with at most 100 and at most as
-- many as the pool's size, and the main coroutine running.
pub init-Ready :
    (sys : System) (pool stack : ℕ) (memory : Heap)
    → 0 < pool
    → pool + 1 < 2 ^ 32
    → Takes sys stack
    → (s : Scheduler) × (m : Members) × ((new_scheduler memory
          >>= init (allocate_stack sys) pool stack)
        ≡ some s)
      × Ready s m
      × (s.pool_size ≡ pool)
      × (s.used_size ≡ 0)
      × (s.current_size ≤ min pool 100)
      × (s.current ≡ main)
      × (s.stack_size ≡ stack)
init-Ready sys pool stack memory p q k =
    init_lem (allocate_stack sys) pool stack memory p q
      (λ id. (sys.mapped stack id, allocate_stack_lem sys stack id k))
