-- ===== src/Coroutine/Examples.antt =====
-- The theorems about the lists, the wake-ups and the lost identifier at concrete inputs.
use mathlib.Core.Path.{subst}
use learn_tars.Base.{
  ℕ, ◌+◌, ◌<◌, ◌≡◌, refl, sym, ap, ◌∙◌, ◌*◌, Bool, true, false, [], ◌∷◌, Option, none, some, arith,
  ◌==◌, ◌>>=◌,
}
use learn_tars.ThreadQueue.{new_queue}
use learn_tars.ThreadQueue.Sequence.{counted}
use learn_tars.Coroutine.Links.{
  Status, free, active, avail, inactive, timeout, Heap, put, head_init, set_next, set_prev,
  set_status, add_tail, get_prev, get_next, add_between, head_empty, del, del_between,
}
use learn_tars.Coroutine.Chains.{has}
use learn_tars.Coroutine.Rings.{Ring}
use learn_tars.Coroutine.Lists.{Members, Lists, head}
use learn_tars.Coroutine.Moves.{
  to_inactive, to_active, move_to, move-Lists, after_move, Leaves, place,
}
use learn_tars.Coroutine.Invariant.{Known, IsValid, wake_members}
use learn_tars.Coroutine.Scheduler.{
  Scheduler, wakeup, wakeup_by_timeout, create_coroutine, new_scheduler, init_heads, init,
  init_loop, generate_id, uniq_loop, enter, new_coroutine, pointer_of, increase_coro_pool_size,
  increase_loop, take_free, get_uid, new_table,
}
use learn_tars.Coroutine.Stacks.{allocate_stack, allocate_stack_lem}
use learn_tars.Coroutine.Client.{start, create_all}
use learn_tars.Coroutine.Created.{create_coroutine_lem, no_members}
use learn_tars.Coroutine.Faults.{create_coroutine_lost, one_less, one_less-IsValid}
use learn_tars.Coroutine.Tests.{
  memory, enough, or_empty, system, system-Takes, ample, asleep, asleep_sizes, asleep-Ready,
}
use learn_tars.Coroutine.Waking.{due, not_due}
use learn_tars.Coroutine.Wakeups.{with_queues, wakeup_lem, wakeup_by_timeout_lem}
use learn_tars.Coroutine.Initial.{init-Ready}
use learn_tars.Coroutine.Turns.{Ready}

-- The list of the available coroutines holds 7, 8 and 9; the others are empty.
abbrev three : Heap
three = record {
  prev = put 3 9 (put 9 8 (put 8 7 (put 7 3 λ p. p)));
  next = put 3 7 (put 7 8 (put 8 9 (put 9 3 λ p. p)));
  status = λ p. avail;
}

abbrev members : Members
members s = elim s [ avail ↦ 7 ∷ 8 ∷ 9 ∷ [] | _ ↦ [] ]

three-Ring : (s : Status) → Ring three (head s) (members s)
three-Ring free = record { chain = (refl, refl); distinct = tt; head_out = refl; no_null = refl }
three-Ring active = record { chain = (refl, refl); distinct = tt; head_out = refl; no_null = refl }
three-Ring avail = record {
  chain = (refl, refl, (refl, refl, (refl, refl, (refl, refl))));
  distinct = (refl, (refl, (refl, tt)));
  head_out = refl;
  no_null = refl;
}
three-Ring inactive = record {
  chain = (refl, refl);
  distinct = tt;
  head_out = refl;
  no_null = refl;
}
three-Ring timeout = record { chain = (refl, refl); distinct = tt; head_out = refl; no_null = refl }

above_main : (s : Status) (c : ℕ) → has c (members s) ≡ true → 6 < c
above_main free c i = cc
above_main active c i = cc
above_main avail c i = ground arith
above_main inactive c i = cc
above_main timeout c i = cc

all_avail : (s : Status) (c : ℕ) → has c (members s) ≡ true → avail ≡ s
all_avail free c i = cc
all_avail active c i = cc
all_avail avail c i = refl
all_avail inactive c i = cc
all_avail timeout c i = cc

three-Lists : Lists three members
three-Lists = record { ring = three-Ring; above = above_main; status_eq = all_avail }

move-Lists_example : Leaves (move_to to_inactive 8 three) (after_move to_inactive 8 avail members)
move-Lists_example = move-Lists three-Lists to_inactive 8 avail refl

-- The second coroutine sleeps until 15, and another thread wakes it.
abbrev woken : Scheduler
woken = record asleep { active_queue = counted (2 ∷ []) }

Known-second : Known asleep-Ready.0 2
Known-second = asleep-Ready.1.valid.found 2 (λ f. omega (arith, f, asleep_sizes.4))

woken-IsValid : IsValid woken asleep-Ready.0
woken-IsValid =
    let v = asleep-Ready.1.valid in
    with_queues asleep.terminal asleep.current asleep.need_active (counted (2 ∷ [])) asleep.timeouts
      v v.need_known (Known-second, tt) v.times_known

wakeup_lem_example :
    (h : Heap) × (wakeup woken ≡ some (record woken { heap = h; active_queue = new_queue }))
    × IsValid
        (record woken { heap = h; active_queue = new_queue })
        (wake_members to_active (2 ∷ []) asleep-Ready.0)
wakeup_lem_example = wakeup_lem woken asleep-Ready.0 woken-IsValid asleep_sizes.3 (2 ∷ []) refl

wakeup_by_timeout_lem_example :
    (h : Heap) × (wakeup_by_timeout 20 woken
      ≡ some (record woken { heap = h; timeouts = not_due 20 woken.timeouts }))
    × IsValid
        (record woken { heap = h; timeouts = not_due 20 woken.timeouts })
        (wake_members to_active (due 20 woken.timeouts) asleep-Ready.0)
wakeup_by_timeout_lem_example =
    wakeup_by_timeout_lem woken asleep-Ready.0 woken-IsValid asleep_sizes.3 20

abbrev mapped_once : ℕ → ℕ → Bool
mapped_once size id = id == 1

-- There is memory for the stack of the first coroutine only.
abbrev for_one : ℕ → ℕ → Option Bool
for_one = allocate_stack (system mapped_once)

abbrev half : Scheduler
half = or_empty (new_scheduler memory >>= init for_one 2 (128 * 1024))

abbrev second_or_empty : Option (ℕ × Scheduler) → Scheduler
second_or_empty (some (id, s)) = s
second_or_empty none = or_empty none

abbrev used_half : Scheduler
used_half = second_or_empty (create_coroutine enough half)

half-Ready : (m : Members) × Ready half m
half-Ready =
    let (s, m, e, r, pe, z, b, k, se) =
      init-Ready (system mapped_once) 2 (128 * 1024) memory (omega arith) (omega arith)
        (system-Takes mapped_once (128 * 1024) (omega arith) refl) in
    (m, subst (λ o. Ready (or_empty o) m) (sym e) r)

half_sizes :
    (half.used_size < half.pool_size)
    × (used_half.used_size ≡ used_half.current_size)
    × (used_half.current_size + 1 ≡ used_half.pool_size)
    × (used_half.pool_size ≡ 2)
    × (used_half.uniq_id ≡ 1)
    × (for_one used_half.stack_size (used_half.uniq_id + 1) ≡ some false)
    × (half.stack_size ≡ 128 * 1024)
    × (used_half.all_coro 1 ≡ 7)
unfolding start create_all new_scheduler init_heads head_init set_next set_prev set_status add_tail
    get_prev get_next add_between init init_loop generate_id uniq_loop enter new_coroutine
    pointer_of create_coroutine head_empty increase_coro_pool_size increase_loop take_free place del
    del_between get_uid new_table allocate_stack
half_sizes = (omega arith, refl, refl, refl, refl, refl, refl, refl)

used_half-Ready : (m : Members) × Ready used_half m
used_half-Ready =
    let r = half-Ready.1 in
    let t =
      create_coroutine_lem enough half half-Ready.0
        (λ id.
          ap (λ x. enough x id) half_sizes.6
          ∙ allocate_stack_lem ample (128 * 1024) id
              (system-Takes (λ size id. true) (128 * 1024) (omega arith) refl))
        r.valid r.no_loss half_sizes.0 in
    let w : Ready t.after t.members = record { valid = t.valid; no_loss = t.no_loss } in
    (t.members, subst (λ o. Ready (second_or_empty o) t.members) (sym t.result) w)

-- The coroutine with the identifier 1 runs, and has yielded.
abbrev later : Scheduler
later = record (one_less used_half) { current = 7; need_active = 1 ∷ [] }

later-IsValid : IsValid later used_half-Ready.0
later-IsValid =
    with_queues used_half.terminal 7 (1 ∷ []) used_half.active_queue used_half.timeouts
      (one_less-IsValid used_half used_half-Ready.0 used_half-Ready.1.valid
        (omega (arith, half_sizes)))
      (used_half-Ready.1.valid.found 1 (λ e. omega (arith, e, half_sizes.7)), tt)
      used_half-Ready.1.valid.queue_known used_half-Ready.1.valid.times_known

create_coroutine_lost_example :
    (create_coroutine for_one used_half ≡ some (0, one_less used_half))
    × IsValid (one_less used_half) used_half-Ready.0
    × (used_half-Ready.0 free ≡ [])
    × (generate_id later ≡ none)
    × (create_coroutine enough later ≡ none)
create_coroutine_lost_example =
    create_coroutine_lost for_one enough used_half used_half-Ready.0 later used_half-Ready.0
      used_half-Ready.1 half_sizes.1 half_sizes.2 (omega (arith, half_sizes)) half_sizes.5
      later-IsValid refl refl refl
      (no_members (used_half-Ready.0 free) (
        omega (
          arith, half_sizes.1, used_half-Ready.1.valid.used_eq, used_half-Ready.1.valid.current_eq,
        )))
