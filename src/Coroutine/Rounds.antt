-- ===== src/Coroutine/Rounds.antt =====
-- `run` keeps the invariant, round by round, with other threads that wake coroutines meanwhile.
use mathlib.Core.Path.{subst}
use learn_tars.Base.{
  ℕ, ◌≡◌, ◌≢◌, refl, sym, Bool, true, false, ◌&&◌, List, [], ◌∷◌, Option, some, ◌==◌, if◌then◌else◌,
  All,
}
use learn_tars.ThreadQueue.{push_back}
use learn_tars.Coroutine.Links.{active, avail, null}
use learn_tars.Coroutine.Rings.{is_nil, head_empty-is_nil}
use learn_tars.Coroutine.Lists.{Members}
use learn_tars.Coroutine.Invariant.{Known}
use learn_tars.Coroutine.Wakeups.{with_queues}
use learn_tars.Coroutine.Scheduler.{Scheduler, put_id, wakeup, wakeup_by_timeout, wakeup_by_self}
use learn_tars.Coroutine.Run.{Round, put_all, await_work, run_round, run, run_list}
use learn_tars.Coroutine.Turns.{Ready, Safe, safe, Safe-bind, either, All-snoc}
use learn_tars.Coroutine.Runs.{
  Behaves, unless_terminal, wakeup_by_timeout-Safe, wakeup_by_self-Safe, wakeup-Safe, run_list-Safe,
}

-- A round whose turns are in order, and in which only coroutines that exist are woken.
pub record IsRound (r : Round) : Type 0 where
  pub turns_ok : Behaves r.turns
  pub arrivals_ok : (s : Scheduler) → All (λ id. s.all_coro id ≢ null) (r.arrivals s)

put_id-Ready :
    (id : ℕ) (s : Scheduler) (m : Members)
    → Ready s m
    → s.all_coro id ≢ null
    → Ready (put_id id s) m × ((put_id id s).all_coro ≡ s.all_coro)
unfolding put_id push_back
put_id-Ready id s m r z =
    let v = r.valid in
    let q = push_back id s.active_queue in
    let k = All-snoc (Known m) s.active_queue.queue id v.queue_known (v.found id z) in
    let w =
      with_queues s.terminal s.current s.need_active q s.timeouts v v.need_known k v.times_known in
    either (λ x. Ready x m × (x.all_coro ≡ s.all_coro)) s.terminal s (record s { active_queue = q })
      (r, refl) (record { valid = w; no_loss = r.no_loss }, refl)

put_all-Ready :
    (ids : List ℕ) (s : Scheduler) (m : Members)
    → Ready s m
    → All (λ id. s.all_coro id ≢ null) ids
    → Ready (put_all ids s) m
unfolding put_all
put_all-Ready [] s m r h = r
put_all-Ready (id ∷ ids) s m r (z, h) =
    let t = put_id-Ready id s m r z in
    put_all-Ready ids (put_id id s) m t.0 (subst (λ f. All (λ i. f i ≢ null) ids) (sym t.1) h)

await_work-Safe :
    (r : Round) (s : Scheduler) (m : Members) → IsRound r → Ready s m → Safe (await_work r s)
unfolding await_work
await_work-Safe r s m ok v =
    let b = is_nil (m avail) && is_nil (m active) && (s.active_queue.size == 0) in
    let t = put_all-Ready (r.arrivals s) s m v (ok.arrivals_ok s) in
    let w = either (λ x. Ready x m) b (put_all (r.arrivals s) s) s t v in
    safe (if b then put_all (r.arrivals s) s else s) m
      (rw
        (
          head_empty-is_nil (m avail) (v.valid.lists.ring avail),
          head_empty-is_nil (m active) (v.valid.lists.ring active),
        )
        refl)
      w.valid w.no_loss

run_round-Safe :
    (r : Round) (s : Scheduler) (m : Members) → IsRound r → Ready s m → Safe (run_round r s)
unfolding run_round
run_round-Safe r s m ok v =
    Safe-bind (run_list r.turns avail 1)
      (Safe-bind (run_list r.turns active 100)
        (Safe-bind wakeup
          (Safe-bind wakeup_by_self
            (Safe-bind (wakeup_by_timeout r.now) (await_work-Safe r s m ok v)
              (wakeup_by_timeout-Safe r.now))
            wakeup_by_self-Safe)
          wakeup-Safe)
        (λ s' m' w. run_list-Safe r.turns ok.turns_ok active 100 s' m' refl w))
      (λ s' m' w. run_list-Safe r.turns ok.turns_ok avail 1 s' m' refl w)

Safe-if : (b : Bool) (x y : Option Scheduler) → Safe x → Safe y → Safe (if b then x else y)
Safe-if true x y p q = p
Safe-if false x y p q = q

-- From a valid scheduler that has lost no identifier, any number of rounds of `run` go without a
-- failed assertion, a null pointer or an index out of the table, and leave such a scheduler, as
-- long as the turns of each round and what arrives meanwhile wake only coroutines that exist, and
-- the allocator hands out the stacks of those that are created.
pub run-Safe :
    (rs : List Round) (s : Scheduler) (m : Members) → All IsRound rs → Ready s m → Safe (run rs s)
unfolding run
run-Safe [] s m ok r = safe s m refl r.valid r.no_loss
run-Safe (x ∷ rs) s m (ok, oks) r = unless_terminal s m _ r λ e.
    Safe-bind (λ s'. if s'.used_size == 0 then some s' else run rs s') (run_round-Safe x s m ok r)
      (λ s' m' w.
        Safe-if (s'.used_size == 0) (some s') (run rs s') (safe s' m' refl w.valid w.no_loss)
          (run-Safe rs s' m' oks w))
