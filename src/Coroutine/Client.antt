-- ===== src/Coroutine/Client.antt =====
-- The class `Coroutine`, a thread with a scheduler: its settings, and the coroutines that it starts
-- with.
use learn_tars.Base.{
  ℕ, zero, suc, ◌+◌, ◌*◌, ◌<◌, ◌≤◌, ◌^◌, ◌≡◌, refl, ap, ◌∙◌, Bool, true, Option, none, some, arith,
  ltb, leb, if◌then◌else◌, ◌>>=◌,
}
use learn_tars.Coroutine.Links.{Heap}
use learn_tars.Coroutine.Lists.{Members}
use learn_tars.Coroutine.Scheduler.{Scheduler, new_scheduler, init, create_coroutine}
use learn_tars.Coroutine.Turns.{Ready}
use learn_tars.Coroutine.Created.{create_coroutine_lem}
use learn_tars.Coroutine.Stacks.{
  System, Takes, minimum_stacksize, allocate_stack, allocate_stack_lem, allocate_stack_small,
}
use learn_tars.Coroutine.Initial.{init_lem, init_refused}

pub record Client : Type 0 where
  pub num : ℕ
  pub max_num : ℕ
  pub stack_size : ℕ

abbrev pub new_client : Client
new_client = record { num = 1; max_num = 128; stack_size = 128 * 1024 }

-- `page` is the size of a page of memory.
unfoldable pub set_coro_info : ℕ → ℕ → ℕ → ℕ → Client → Client
set_coro_info page num max_num stack_size c =
    let most = if ltb 0 max_num then max_num else 1 in
    record c {
      max_num = most;
      num = if ltb 0 num then (if leb num most then num else most) else 1;
      stack_size = if leb page stack_size then stack_size else page;
    }

-- The settings that `setCoroInfo` leaves are in bounds, and are those asked for when these are in
-- bounds.
pub set_coro_info_lem :
    (page num max_num stack_size : ℕ) (c : Client)
    → let d = set_coro_info page num max_num stack_size c in
      (1 ≤ d.num)
      × (d.num ≤ d.max_num)
      × (page ≤ d.stack_size)
      × (1 ≤ num → num ≤ max_num → d.num ≡ num)
      × (1 ≤ max_num → d.max_num ≡ max_num)
      × (page ≤ stack_size → d.stack_size ≡ stack_size)
unfolding set_coro_info
set_coro_info_lem page num max_num stack_size c =
    (ground arith, ground arith, ground arith, ground arith, ground arith, ground arith)

-- The loop of `handleCoro` over `_num` coroutines, whose identifiers it drops.
unfoldable pub create_all : (ℕ → ℕ → Option Bool) → ℕ → Scheduler → Option Scheduler
create_all allocate zero s = some s
create_all allocate (suc n) s = create_coroutine allocate s >>= λ (id, s'). create_all allocate n s'

-- `handleCoro` up to `run`.
unfoldable pub start : (ℕ → ℕ → Option Bool) → Heap → Client → Option Scheduler
start allocate memory c =
    new_scheduler memory >>= init allocate c.max_num c.stack_size >>= create_all allocate c.num

create_all_lem :
    (allocate : ℕ → ℕ → Option Bool) (n : ℕ) (s : Scheduler) (m : Members)
    → ((id : ℕ) → allocate s.stack_size id ≡ some true)
    → Ready s m
    → s.used_size + n ≤ s.pool_size
    → (s' : Scheduler) × (m' : Members) × (create_all allocate n s ≡ some s')
      × Ready s' m'
      × (s'.used_size ≡ s.used_size + n)
unfolding create_all
create_all_lem allocate zero s m a r l = (s, m, refl, r, omega arith)
create_all_lem allocate (suc n) s m a r l =
    let t = create_coroutine_lem allocate s m a r.valid r.no_loss (omega arith) in
    let r' : Ready t.after t.members = record { valid = t.valid; no_loss = t.no_loss } in
    let (s', m', e, w, u) =
      create_all_lem allocate n t.after t.members (λ id. ap (λ x. allocate x id) t.stack_eq ∙ a id)
        r' (omega (arith, t.used_size_eq, t.pool_eq)) in
    (
      s',
      m',
      ap (λ o. o >>= λ x. create_all allocate n x.1) t.result ∙ e,
      w,
      omega (arith, u, t.used_size_eq),
    )

-- With memory for every stack, a number of coroutines from 1 to the size of the pool, a pool of at
-- most 2^32 - 2 and a size of stacks that the allocator takes, `handleCoro` starts as many
-- coroutines as it is set to, and leaves a valid scheduler that has lost no identifier.
pub start-Ready :
    (sys : System) (memory : Heap) (c : Client)
    → ((id : ℕ) → sys.mapped c.stack_size id ≡ true)
    → 1 ≤ c.num
    → c.num ≤ c.max_num
    → c.max_num + 1 < 2 ^ 32
    → Takes sys c.stack_size
    → (s : Scheduler) × (m : Members) × (start (allocate_stack sys) memory c ≡ some s)
      × Ready s m
      × (s.used_size ≡ c.num)
unfolding start
start-Ready sys memory c a p q l k =
    let allocate = allocate_stack sys in
    let got : (id : ℕ) → allocate c.stack_size id ≡ some true =
      λ id. allocate_stack_lem sys c.stack_size id k ∙ ap some (a id) in
    let (s, m, e, r, pe, z, b, i, se) =
      init_lem allocate c.max_num c.stack_size memory (omega arith) l (λ id. (true, got id)) in
    let (s', m', e', r', u) =
      create_all_lem allocate c.num s m (λ id. ap (λ x. allocate x id) se ∙ got id) r
        (omega (arith, pe, z)) in
    (s', m', ap (λ o. o >>= create_all allocate c.num) e ∙ e', r', omega (arith, u, z))

-- A stack that is too small, which `setCoroInfo` admits from a page on, fails the assertion of the
-- allocator.
start_small :
    (sys : System) (memory : Heap) (c : Client)
    → 1 ≤ c.max_num
    → c.max_num + 1 < 2 ^ 32
    → c.stack_size < minimum_stacksize
    → start (allocate_stack sys) memory c ≡ none
unfolding start
start_small sys memory c p l small =
    ap (λ o. o >>= create_all (allocate_stack sys) c.num)
      (init_refused (allocate_stack sys) c.max_num c.stack_size memory p l
        (λ id. allocate_stack_small sys c.stack_size id small))
