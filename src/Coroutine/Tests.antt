-- ===== src/Coroutine/Tests.antt =====
-- Runs of the scheduler, and the theorems about it at concrete inputs.
use mathlib.Core.Path.{subst}
use learn_tars.Base.{
  ℕ, ◌≤◌, ◌≡◌, ◌≢◌, ◌*◌, ◌/◌, ◌+◌, ◌&&◌, not, leb, ap, ◌∙◌, refl, sym, Bool, true, false, List, [],
  ◌∷◌, Option, none, some, arith, ◌==◌, if◌then◌else◌, Bool-cases, inl, inr, All, ◌>>=◌, min,
}
use learn_tars.Coroutine.Moves.{
  move_to_active, move_to_avail, move_to_free_list, move_to_inactive, move_to_timeout, place,
}
use learn_tars.ThreadQueue.{await, is_empty, push_back, swap, swap_now}
use learn_tars.Coroutine.Links.{
  free, avail, timeout, Heap, null, head_init, set_next, set_prev, set_status, add_tail, get_prev,
  get_next, add_between, del, del_between, get_status, head_empty,
}
use learn_tars.Coroutine.Lists.{Members, main}
use learn_tars.Coroutine.Scheduler.{
  Scheduler, new_scheduler, init, create_coroutine, get_uid, increase_coro_pool_size, increase_loop,
  lookup, put_by_self, put_id, take_free, terminate, wake, wake_all, wake_due, wake_queue, wakeup,
  wakeup_by_self, wakeup_by_timeout, init_heads, init_loop, generate_id, uniq_loop, enter,
  new_coroutine, pointer_of, new_table,
}
use learn_tars.Coroutine.Stacks.{
  System, Takes, minimum_stacksize, allocate_stack, allocate_stack_lem,
}
use learn_tars.Coroutine.Created.{Creates, create_coroutine_lem}
use learn_tars.Coroutine.Initial.{init-Ready}
use learn_tars.Coroutine.Rounds.{IsRound, run-Safe}
use learn_tars.Coroutine.Run.{
  Turn, put, create, yields, sleeps, negsuc, switch_coro, tars_run, Round, run, call, call_all,
  end_turn, finish, insert_time, resume, run_list, sleep, yield,
}
use learn_tars.Coroutine.Turns.{Ready, Safe}
use learn_tars.Coroutine.Calls.{CallsOk}
use learn_tars.Coroutine.Runs.{Behaves, tars_run-Safe}
use learn_tars.Coroutine.Client.{
  Client, start, start-Ready, new_client, set_coro_info, set_coro_info_lem, create_all,
}

abbrev pub memory : Heap
memory = record { prev = λ p. null; next = λ p. null; status = λ p. free }

-- Pages of 4 KB, stacks of 8 MB at most, and what `mmap` finds.
abbrev pub system : (ℕ → ℕ → Bool) → System
system mapped = record {
  limit = some (8 * 1024 * 1024);
  whole_pages = λ size. ((size + 4095) / 4096 + 1) * 4096;
  mapped = mapped;
  protected = λ size id. true;
}

pub system-Takes :
    (mapped : ℕ → ℕ → Bool) (size : ℕ)
    → minimum_stacksize ≤ size
    → leb size (8 * 1024 * 1024) ≡ true
    → Takes (system mapped) size
system-Takes mapped size l m = record {
  large = l;
  small = m;
  pages = omega arith;
  protects = λ id. refl;
}

-- Memory for all.
abbrev pub ample : System
ample = system (λ size id. true)

abbrev pub enough : ℕ → ℕ → Option Bool
enough = allocate_stack ample

abbrev pub client : Client
client = record { num = 2; max_num = 3; stack_size = 128 * 1024 }

abbrev pub or_empty : Option Scheduler → Scheduler
or_empty (some s) = s
or_empty none = record {
  terminal = true;
  pool_size = 0;
  stack_size = 0;
  current_size = 0;
  used_size = 0;
  uniq_id = 0;
  current = 0;
  all_coro = λ id. null;
  heap = memory;
  active_queue = record { queue = []; size = 0 };
  need_active = [];
  timeouts = [];
}

-- Two coroutines are available, and one is free.
abbrev pub started : Scheduler
started = or_empty (start enough memory client)

pub started_sizes :
    (started.used_size ≡ 2)
    × (started.pool_size ≡ 3)
    × (started.current_size ≡ 3)
    × (started.all_coro 1 ≡ 7)
    × (started.all_coro 2 ≡ 8)
    × (started.terminal ≡ false)
    × (started.heap.status 8 ≡ avail)
unfolding start create_all new_scheduler init_heads head_init set_next set_prev set_status add_tail
    get_prev get_next add_between init init_loop generate_id uniq_loop enter new_coroutine
    pointer_of create_coroutine head_empty increase_coro_pool_size increase_loop take_free place del
    del_between get_uid new_table allocate_stack
started_sizes = (refl, refl, refl, refl, refl, refl, refl)

start-Ready_example :
    (s : Scheduler) × (m : Members) × (start enough memory client ≡ some s)
    × Ready s m
    × (s.used_size ≡ client.num)
start-Ready_example =
    start-Ready ample memory client (λ id. refl) (omega arith) (omega arith) (omega arith)
      (system-Takes (λ size id. true) (128 * 1024) (omega arith) refl)

pub started-Ready : (m : Members) × Ready started m
started-Ready =
    let (s, m, e, r, u) =
      start-Ready ample memory client (λ id. refl) (omega arith) (omega arith) (omega arith)
        (system-Takes (λ size id. true) (128 * 1024) (omega arith) refl) in
    (m, subst (λ o. Ready (or_empty o) m) (sym e) r)

-- The allocator takes the size.
abbrev fits : ℕ → Bool
fits size = leb minimum_stacksize size && leb size (8 * 1024 * 1024)

-- A coroutine wakes the first one, if it exists, makes another, and sleeps or yields.
abbrev turns : ℕ → Scheduler → Turn
turns n s =
    if not (s.all_coro 1 == null) && fits s.stack_size
    then (put 1 ∷ create enough ∷ [], if n == 98 then sleeps 5 (negsuc 9) else yields true)
    else ([], yields true)

abbrev stack_of : Option Scheduler → ℕ
stack_of none = 0
stack_of (some s) = s.stack_size

put_id_stack : (id : ℕ) (s : Scheduler) → (put_id id s).stack_size ≡ s.stack_size
unfolding put_id
put_id_stack id s = elim (Bool-cases s.terminal) [ inl e ↦ rw e refl | inr e ↦ rw e refl ]

enough_for : (size id : ℕ) → fits size ≡ true → enough size id ≡ some true
enough_for size id e =
    allocate_stack_lem ample size id
      (system-Takes (λ size id. true) size (ground arith) (ground arith))

not_both : {b : Bool} → b ≡ true → b ≡ false → ⊥
not_both e f = cc

in_order :
    (s : Scheduler) (c : ℕ)
    → (not (s.all_coro 1 == null) && fits s.stack_size) ≡ true
    → CallsOk (put 1 ∷ create enough ∷ []) (switch_coro c s)
unfolding CallsOk switch_coro put_id call
in_order s c e = (
  λ f. ground arith,
  λ s' h. (
    λ id.
        enough_for s'.stack_size id (
          ap fits (sym (ap stack_of h) ∙ put_id_stack 1 (record s { current = c })) ∙ ground arith),
    λ s'' h'. tt,
  ),
)

turns-Behaves : Behaves turns
unfolding CallsOk
turns-Behaves n s c = elim (Bool-cases (not (s.all_coro 1 == null) && fits s.stack_size)) [
  | inl e ↦ rw e (in_order s c e)
  | inr e ↦ rw e tt
]

tars_run-Safe_example : Safe (tars_run turns 7 started)
tars_run-Safe_example = tars_run-Safe turns turns-Behaves 7 started started-Ready.0 started-Ready.1

-- Another thread wakes the first coroutine while `run` waits.
abbrev rounds : List Round
rounds =
    record { now = 7; arrivals = λ s. []; turns = turns }
    ∷ record {
      now = 20;
      arrivals = λ s. if s.all_coro 1 == null then [] else 1 ∷ [];
      turns = turns;
    }
    ∷ []

some_arrivals :
    (s : Scheduler) → All (λ id. s.all_coro id ≢ null) (if s.all_coro 1 == null then [] else 1 ∷ [])
some_arrivals s = elim (Bool-cases (s.all_coro 1 == null)) [
  | inl e ↦ rw e tt
  | inr e ↦ rw e (λ f. not_both (ground arith) e, tt)
]

rounds-IsRound : All IsRound rounds
rounds-IsRound = (
  record { turns_ok = turns-Behaves; arrivals_ok = λ s. tt },
  (record { turns_ok = turns-Behaves; arrivals_ok = some_arrivals }, tt),
)

run-Safe_example : Safe (run rounds started)
run-Safe_example = run-Safe rounds started started-Ready.0 rounds-IsRound started-Ready.1

init-Ready_example :
    (s : Scheduler) × (m : Members) × ((new_scheduler memory >>= init enough 3 8295) ≡ some s)
    × Ready s m
    × (s.pool_size ≡ 3)
    × (s.used_size ≡ 0)
    × (s.current_size ≤ min 3 100)
    × (s.current ≡ main)
    × (s.stack_size ≡ 8295)
init-Ready_example =
    init-Ready ample 3 8295 memory (omega arith) (omega arith)
      (system-Takes (λ size id. true) 8295 (omega arith) refl)

started_stack : fits started.stack_size ≡ true
unfolding start create_all new_scheduler init_heads head_init set_next set_prev set_status add_tail
    get_prev get_next add_between init init_loop generate_id uniq_loop enter new_coroutine
    pointer_of create_coroutine head_empty increase_coro_pool_size increase_loop take_free place del
    del_between get_uid new_table allocate_stack
started_stack = refl

create_coroutine_lem_example : Creates started started-Ready.0 (create_coroutine enough started)
create_coroutine_lem_example =
    create_coroutine_lem enough started started-Ready.0
      (λ id. enough_for started.stack_size id started_stack) started-Ready.1.valid
      started-Ready.1.no_loss (omega (arith, started_sizes))

set_coro_info_lem_example :
    let d = set_coro_info 4096 200 128 1000 new_client in
    (1 ≤ d.num)
    × (d.num ≤ d.max_num)
    × (4096 ≤ d.stack_size)
    × (1 ≤ 200 → 200 ≤ 128 → d.num ≡ 200)
    × (1 ≤ 128 → d.max_num ≡ 128)
    × (4096 ≤ 1000 → d.stack_size ≡ 1000)
set_coro_info_lem_example = set_coro_info_lem 4096 200 128 1000 new_client

-- The second of the two has run its turn at 98, and sleeps until 15.
abbrev pub asleep : Scheduler
asleep = or_empty (tars_run turns 7 started)

pub asleep_sizes :
    (asleep.used_size ≡ 3)
    × (asleep.uniq_id ≡ 3)
    × (asleep.timeouts ≡ (15, 2) ∷ [])
    × (asleep.terminal ≡ false)
    × (asleep.all_coro 2 ≡ 8)
    × (asleep.heap.status 8 ≡ timeout)
unfolding add_between add_tail await call call_all create_all create_coroutine del del_between
    end_turn enter finish generate_id get_next get_prev get_status get_uid head_empty head_init
    increase_coro_pool_size increase_loop init init_heads init_loop insert_time is_empty lookup
    move_to_active move_to_avail move_to_free_list move_to_inactive move_to_timeout new_coroutine
    new_scheduler place pointer_of push_back put_by_self put_id resume run_list set_next set_prev
    set_status sleep start swap swap_now switch_coro take_free tars_run terminate uniq_loop wake
    new_table allocate_stack wake_all wake_due wake_queue wakeup wakeup_by_self wakeup_by_timeout
    yield
asleep_sizes = (refl, refl, refl, refl, refl, refl)

pub asleep-Ready : (m : Members) × Ready asleep m
asleep-Ready =
    let t = tars_run-Safe turns turns-Behaves 7 started started-Ready.0 started-Ready.1 in
    (t.members, subst (λ o. Ready (or_empty o) t.members) (sym t.result) t.ready)
