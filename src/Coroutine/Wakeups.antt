-- ===== src/Coroutine/Wakeups.antt =====
-- The three ways in which the scheduler wakes coroutines, when it has not been terminated.
use learn_tars.Base.{
  ℕ, ◌≡◌, refl, ap, ◌∙◌, Bool, false, List, [], ◌∷◌, Option, some, arith, if◌then◌else◌, ◌>>=◌,
  length, All, lt→ltb,
}
use learn_tars.ThreadQueue.{ThreadQueue, new_queue, swap, swap_now, await, is_empty}
use learn_tars.Coroutine.Links.{free, Heap, code}
use learn_tars.Coroutine.Lists.{Members}
use learn_tars.Coroutine.Moves.{to_active, to_avail, target, move_to_active, move_to_avail}
use learn_tars.Coroutine.Invariant.{Known, KnownTime, IsValid, wake_members}
use learn_tars.Coroutine.Scheduler.{
  Scheduler, wake_all, wakeup, wakeup_by_self, wakeup_by_timeout, wake_due, wake_queue,
}
use learn_tars.ThreadQueue.Sequence.{counted}
use mathlib.Core.Path.{subst}
use learn_tars.Coroutine.Waking.{
  wake_all-IsValid, due, not_due, All-due, All-not_due, wake_due-wake_all,
}

pub active_used : target to_active ≡ free → ⊥
active_used e = let f = ap code e in omega arith

pub avail_used : target to_avail ≡ free → ⊥
avail_used e = let f = ap code e in omega arith

-- Other queues, whose identifiers are known, and another coroutine that runs.
pub with_queues :
    {s : Scheduler} {m : Members} (t : Bool) (c : ℕ) (need : List ℕ) (q : ThreadQueue ℕ)
    (ts : List (ℕ × ℕ))
    → IsValid s m
    → All (Known m) need
    → All (Known m) q.queue
    → All (KnownTime m) ts
    → IsValid
        (record s {
          terminal = t;
          current = c;
          need_active = need;
          active_queue = q;
          timeouts = ts;
        })
        m
with_queues t c need q ts v a b d = record {
  lists = v.lists;
  made = v.made;
  found = v.found;
  uniq_le = v.uniq_le;
  pool_lt = v.pool_lt;
  used_eq = v.used_eq;
  current_eq = v.current_eq;
  current_le = v.current_le;
  need_known = a;
  queue_known = b;
  times_known = d;
}

abbrev pub set_times : List (ℕ × ℕ) → Scheduler → Option Scheduler
set_times ts s = some (record s { timeouts = ts })

abbrev pub no_need : Scheduler → Option Scheduler
no_need s = some (record s { need_active = [] })

wake_queue-counted :
    (s : Scheduler) (ids : List ℕ)
    → s.active_queue ≡ counted ids
    → wake_queue (counted ids) s
      ≡ wake_all move_to_active ids (record s { active_queue = new_queue })
unfolding wake_queue swap swap_now await is_empty wake_all
wake_queue-counted s [] q = ap (λ x. some (record s { active_queue = x })) q
wake_queue-counted s (id ∷ ids) q = rw (lt→ltb 0 (length (id ∷ ids)) (omega arith)) refl

module _ (s : Scheduler) (m : Members) (v : IsValid s m) (n : s.terminal ≡ false) where
  -- On a valid scheduler that is not terminated, `wakeupbyself` moves those on the list of the ones
  -- that woke themselves to the end of the available ones, in their order, and clears the list.
  wakeup_by_self_lem :
      (h : Heap) × (wakeup_by_self s ≡ some (record s { heap = h; need_active = [] }))
      × IsValid (record s { heap = h; need_active = [] }) (wake_members to_avail s.need_active m)
  unfolding wakeup_by_self
  wakeup_by_self_lem =
      let (h, e, w) = wake_all-IsValid to_avail s.need_active s m v v.need_known avail_used in
      (
        h,
        ap (λ b. if b then some s else (wake_all move_to_avail s.need_active s >>= no_need)) n
            ∙ ap (λ o. o >>= no_need) e,
        with_queues s.terminal s.current [] s.active_queue s.timeouts w tt w.queue_known
            w.times_known,
      )

  -- On a valid scheduler that is not terminated, `wakeupbytimeout` drops the entries whose time has
  -- come. Of their coroutines, those that are inactive or asleep when their turn comes go to the
  -- end of the active ones, in the order of the times; the others stay where they are.
  pub wakeup_by_timeout_lem :
      (now : ℕ)
      → (h : Heap) × (wakeup_by_timeout now s
          ≡ some (record s { heap = h; timeouts = not_due now s.timeouts }))
        × IsValid
            (record s { heap = h; timeouts = not_due now s.timeouts })
            (wake_members to_active (due now s.timeouts) m)
  unfolding wakeup_by_timeout
  wakeup_by_timeout_lem now =
      let k = All-due now m s.timeouts v.times_known in
      let (h, e, w) = wake_all-IsValid to_active (due now s.timeouts) s m v k active_used in
      (
        h,
        ap (λ b. if b then some s else wake_due now s.timeouts s) n
            ∙ wake_due-wake_all now s.timeouts s
            ∙ ap (λ o. o >>= set_times (not_due now s.timeouts)) e,
        with_queues s.terminal s.current s.need_active s.active_queue (not_due now s.timeouts) w
            w.need_known w.queue_known
            (All-not_due now (wake_members to_active (due now s.timeouts) m) s.timeouts
              w.times_known),
      )

  -- On a valid scheduler that is not terminated, and whose queue counts its elements, `wakeup`
  -- empties the queue. Of the coroutines on it, those that are inactive or asleep when their turn
  -- comes go to the end of the active ones, in the order of the queue; the others stay where they
  -- are.
  pub wakeup_lem :
      (ids : List ℕ)
      → s.active_queue ≡ counted ids
      → (h : Heap) × (wakeup s ≡ some (record s { heap = h; active_queue = new_queue }))
        × IsValid (record s { heap = h; active_queue = new_queue }) (wake_members to_active ids m)
  unfolding wakeup
  wakeup_lem ids q =
      let k : All (Known m) ids = subst (λ x. All (Known m) x.queue) q v.queue_known in
      let w0 =
        with_queues s.terminal s.current s.need_active new_queue s.timeouts v v.need_known tt
          v.times_known in
      let s0 : Scheduler = record s { active_queue = new_queue } in
      let (h, e, w) = wake_all-IsValid to_active ids s0 m w0 k active_used in
      (
        h,
        ap (λ b. if b then some s else wake_queue s.active_queue s) n
            ∙ ap (λ x. wake_queue x s) q
            ∙ wake_queue-counted s ids q
            ∙ e,
        w,
      )
