-- ===== src/Coroutine/Runs.antt =====
-- `tars_run` comes to an end and keeps the invariant, whatever the coroutines do in their turns.
use mathlib.Core.Path.{subst}
use learn_tars.Base.{
  ℕ, zero, suc, ◌≡◌, refl, sym, ap, ◌∙◌, true, false, List, [], ◌∷◌, Option, some, arith,
  if◌then◌else◌, ◌>>=◌, Bool-cases, inl, inr, ltb,
}
use learn_tars.ThreadQueue.{ThreadQueue, swap, swap_now, await, is_empty}
use learn_tars.Coroutine.Links.{Status, free, active, avail, same, head_empty, get_next-some}
use learn_tars.Coroutine.Chains.{has}
use learn_tars.Coroutine.Rings.{Ring, is_nil, head_empty-is_nil}
use learn_tars.Coroutine.Lists.{head, Members}
use learn_tars.Coroutine.Moves.{to_active, to_avail, move_to_active, move_to_avail}
use learn_tars.Coroutine.Invariant.{wake_members}
use learn_tars.Coroutine.Waking.{
  wake_all-IsValid, not_due, due, All-due, All-not_due, wake_due-wake_all,
}
use learn_tars.Coroutine.Wakeups.{with_queues, active_used, avail_used, no_need, set_times}
use learn_tars.Coroutine.Created.{Used, List-cases}
use learn_tars.Coroutine.Scheduler.{
  Scheduler, wake_all, wake_queue, wakeup, wakeup_by_self, wakeup_by_timeout, wake_due,
}
use learn_tars.Coroutine.Turns.{Ready, Safe, safe, Safe-bind}
use learn_tars.Coroutine.Calls.{CallsOk, resume-Safe}
use learn_tars.Coroutine.Run.{Turn, switch_coro, resume, run_list, tars_run}

-- Every turn makes its calls in order.
abbrev pub Behaves : (ℕ → Scheduler → Turn) → Type 0
Behaves turns = (n : ℕ) (s : Scheduler) (c : ℕ) → CallsOk (turns n s).0 (switch_coro c s)

-- A step that is left out when the scheduler has been terminated.
pub unless_terminal :
    (s : Scheduler) (m : Members) (o : Option Scheduler)
    → Ready s m
    → (s.terminal ≡ false → Safe o)
    → Safe (if s.terminal then some s else o)
unless_terminal s m o r f = elim (Bool-cases s.terminal) [
  | inl e ↦ safe s m (ap (λ b. if b then some s else o) e) r.valid r.no_loss
  | inr e ↦
      let t = f e in
      safe t.after t.members (ap (λ b. if b then some s else o) e ∙ t.result) t.ready.valid
        t.ready.no_loss
]

pub wakeup_by_timeout-Safe :
    (now : ℕ) (s : Scheduler) (m : Members) → Ready s m → Safe (wakeup_by_timeout now s)
unfolding wakeup_by_timeout
wakeup_by_timeout-Safe now s m r = unless_terminal s m (wake_due now s.timeouts s) r λ e.
    let k = All-due now m s.timeouts r.valid.times_known in
    let (h, d, w) = wake_all-IsValid to_active (due now s.timeouts) s m r.valid k active_used in
    let m' = wake_members to_active (due now s.timeouts) m in
    let ts = not_due now s.timeouts in
    safe (record s { heap = h; timeouts = ts }) m'
      (wake_due-wake_all now s.timeouts s ∙ ap (λ o. o >>= set_times ts) d)
      (with_queues s.terminal s.current s.need_active s.active_queue ts w w.need_known w.queue_known
        (All-not_due now m' s.timeouts w.times_known))
      r.no_loss

pub wakeup_by_self-Safe : (s : Scheduler) (m : Members) → Ready s m → Safe (wakeup_by_self s)
unfolding wakeup_by_self
wakeup_by_self-Safe s m r =
    unless_terminal s m (wake_all move_to_avail s.need_active s >>= no_need) r λ e.
      let k = r.valid.need_known in
      let (h, d, w) = wake_all-IsValid to_avail s.need_active s m r.valid k avail_used in
      safe (record s { heap = h; need_active = [] }) (wake_members to_avail s.need_active m)
        (ap (λ o. o >>= no_need) d)
        (with_queues s.terminal s.current [] s.active_queue s.timeouts w tt w.queue_known
          w.times_known)
        r.no_loss

-- Also a queue whose counter is wrong does no harm.
left : List ℕ → ℕ → ℕ
left [] k = k
left (x ∷ xs) k = 0

wake_queue_eq :
    (ids : List ℕ) (k : ℕ) (s : Scheduler)
    → wake_queue (record { queue = ids; size = k }) s ≡ (
        if ltb 0 k
        then wake_all move_to_active ids
            (record s { active_queue = record { queue = []; size = left ids k } })
        else some s)
unfolding wake_queue swap swap_now await is_empty left
wake_queue_eq [] k s = refl
wake_queue_eq (id ∷ ids) k s = refl

pub wakeup-Safe : (s : Scheduler) (m : Members) → Ready s m → Safe (wakeup s)
unfolding wakeup
wakeup-Safe s m r = unless_terminal s m (wake_queue s.active_queue s) r λ e.
    let ids = s.active_queue.queue in
    let k = s.active_queue.size in
    let v = r.valid in
    let q : ThreadQueue ℕ = record { queue = []; size = left ids k } in
    let s0 : Scheduler = record s { active_queue = q } in
    let v0 =
      with_queues s.terminal s.current s.need_active q s.timeouts v v.need_known tt v.times_known in
    let (h, d, w) = wake_all-IsValid to_active ids s0 m v0 v.queue_known active_used in
    elim (Bool-cases (ltb 0 k)) [
      | inl f ↦
          safe (record s { active_queue = q; heap = h }) (wake_members to_active ids m)
            (wake_queue_eq ids k s
              ∙ ap (λ b. if b then wake_all move_to_active ids s0 else some s) f
              ∙ d)
            w r.no_loss
      | inr f ↦
          safe s m
            (wake_queue_eq ids k s
              ∙ ap (λ b. if b then wake_all move_to_active ids s0 else some s) f)
            v r.no_loss
    ]

has_first : (c : ℕ) (cs : List ℕ) → has c (c ∷ cs) ≡ true
has_first c cs = ground arith

module _ (turns : ℕ → Scheduler → Turn) where
  run_list-zero : (st : Status) (s : Scheduler) → run_list turns st zero s ≡ some s
  unfolding run_list
  run_list-zero st s = refl

  run_list_nil :
      (st : Status) (n : ℕ) (s : Scheduler)
      → head_empty (head st) s.heap ≡ some true
      → run_list turns st (suc n) s ≡ some s
  unfolding run_list
  run_list_nil st n s e = rw e refl

  run_list_step :
      (st : Status) (n : ℕ) (s : Scheduler) (c : ℕ)
      → head_empty (head st) s.heap ≡ some false
      → s.heap.next (head st) ≡ c
      → run_list turns st (suc n) s ≡ (resume (turns n s) c s >>= run_list turns st n)
  unfolding run_list
  run_list_step st n s c e f = rw (e, get_next-some (head st) s.heap (λ z. omega arith), f) refl

  module _ (ok : Behaves turns) where
    pub run_list-Safe :
        (st : Status) (n : ℕ) (s : Scheduler) (m : Members)
        → same free st ≡ false
        → Ready s m
        → Safe (run_list turns st n s)
    run_list-Safe st zero s m u r = safe s m (run_list-zero st s) r.valid r.no_loss
    run_list-Safe st (suc n) s m u r =
        let ring = r.valid.lists.ring st in
        elim (List-cases (m st)) [
          | inl e ↦
              let h = head_empty-is_nil (m st) ring ∙ ap (λ xs. some (is_nil xs)) e in
              safe s m (run_list_nil st n s h) r.valid r.no_loss
          | inr (c, cs, e) ↦
              let h = head_empty-is_nil (m st) ring ∙ ap (λ xs. some (is_nil xs)) e in
              let ring' = subst (Ring s.heap (head st)) e ring in
              let used : Used m c =
                (st, u, subst (λ xs. has c xs ≡ true) (sym e) (has_first c cs)) in
              let t = resume-Safe (turns n s) c s m r used (ok n s c) in
              let w = Safe-bind (run_list turns st n) t λ s' m' r'. run_list-Safe st n s' m' u r' in
              safe w.after w.members (run_list_step st n s c h ring'.chain.0 ∙ w.result)
                w.ready.valid w.ready.no_loss
        ]

    -- From a valid scheduler that has lost no identifier, `tars_run` comes to an end without a
    -- failed assertion, a null pointer or an index out of the table, and leaves such a scheduler
    -- again, whatever the coroutines do in their turns, as long as the allocator hands out the
    -- stacks of those that they create, and only coroutines that exist are woken.
    pub tars_run-Safe :
        (now : ℕ) (s : Scheduler) (m : Members) → Ready s m → Safe (tars_run turns now s)
    unfolding tars_run
    tars_run-Safe now s m r = unless_terminal s m _ r λ e.
        Safe-bind (run_list turns avail 100)
          (Safe-bind (run_list turns active 100)
            (Safe-bind wakeup
              (Safe-bind wakeup_by_self (wakeup_by_timeout-Safe now s m r) wakeup_by_self-Safe)
              wakeup-Safe)
            (λ s' m' r'. run_list-Safe active 100 s' m' refl r'))
          (λ s' m' r'. run_list-Safe avail 100 s' m' refl r')
