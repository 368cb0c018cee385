-- ===== src/Coroutine/Calls.antt =====
-- What a coroutine does in a turn, and the turns of a run, keep the invariant.
use mathlib.Core.Path.{subst}
use learn_tars.Base.{
  ℕ, ◌+◌, ◌-◌, ◌<◌, ◌^◌, ◌≡◌, ◌≢◌, refl, sym, ap, ◌∙◌, true, false, List, [], ◌∷◌, Option, some,
  arith, if◌then◌else◌, ◌>>=◌, dec_lt,
}
use learn_tars.ThreadQueue.{push_back}
use learn_tars.Coroutine.Links.{Status, free, active, avail, inactive, timeout, same, Heap, null}
use learn_tars.Coroutine.Lists.{main, Members, Lists}
use learn_tars.Coroutine.Moves.{to_free_list, move_to, starts_from, move-Lists, moved}
use learn_tars.Base.Words.{sub32}
use learn_tars.Coroutine.Created.{Used, create_coroutine_lem, create_coroutine_full}
use learn_tars.Coroutine.Counting.{used_of, used_of-moved, free-moved, Listed-moved, moved-Listed}
use learn_tars.Coroutine.Invariant.{Known}
use learn_tars.Coroutine.Wakeups.{with_queues}
use learn_tars.Coroutine.Scheduler.{Scheduler, put_id, terminate}
use learn_tars.Coroutine.Run.{
  switch_coro, finish, Call, create, put, stop, call, call_all, Ending, yields, sleeps, returns,
  Turn, end_turn, resume,
}
use learn_tars.Coroutine.Waking.{All-map}
use learn_tars.Coroutine.Turns.{RunsIn, Ready, Safe, safe, either, yield-Safe, sleep-Safe, All-snoc}

starts_used : (u : Status) → same free u ≡ false → starts_from to_free_list u ≡ true
starts_used free n = cc
starts_used active n = refl
starts_used avail n = refl
starts_used inactive n = refl
starts_used timeout n = refl

-- The scheduler when the running coroutine has ended.
abbrev finished : Heap → Scheduler → Scheduler
finished h s = record s { used_size = s.used_size - 1; heap = h; current = main }

finish_eq :
    (s : Scheduler) (h : Heap)
    → move_to to_free_list s.current s.heap ≡ some h
    → 0 < s.used_size
    → s.used_size < 2 ^ 32
    → finish s ≡ some (finished h s)
unfolding finish switch_coro
finish_eq s h e p q =
    let sub : sub32 s.used_size 1 ≡ s.used_size - 1 = ground arith in
    rw (sub) (ap (λ o. o >>= λ h'. some (finished h' s)) e)

-- The coroutine whose function has ended is free again, and the count of the used ones goes down.
pub finish-Safe : (s : Scheduler) (m : Members) → Ready s m → Used m s.current → Safe (finish s)
finish-Safe s m r (u, n, i) =
    let v = r.valid in
    let c = s.current in
    let (h, e, l) = move-Lists v.lists to_free_list c u i in
    let l' = subst (λ b. Lists h (if b then moved c u free m else m)) (starts_used u n) l in
    let d : same u free ≡ false = ground arith in
    let a = used_of-moved c u free m i d in
    let b = free-moved c u free m i d in
    let used : s.used_size ≡ used_of (moved c u free m) + 1 = ground (arith, v.used_eq) in
    let small : s.used_size < 2 ^ 32 =
      omega (arith, v.used_eq, v.current_eq, v.current_le, v.uniq_le, v.pool_lt) in
    let g = Listed-moved c u free m in
    safe (finished h s) (moved c u free m) (finish_eq s h e (omega arith) small)
      (record {
        lists = l';
        made = λ p q. v.made p (moved-Listed c u free m i p q);
        found = λ id z. g (id + main) (v.found id z);
        uniq_le = v.uniq_le;
        pool_lt = v.pool_lt;
        used_eq = omega (arith, used);
        current_eq = ground (arith, v.current_eq, used);
        current_le = v.current_le;
        need_known = All-map (λ x j. g (x + main) j) s.need_active v.need_known;
        queue_known = All-map (λ x j. g (x + main) j) s.active_queue.queue v.queue_known;
        times_known = All-map (λ x j. g (x.1 + main) j) s.timeouts v.times_known;
      })
      r.no_loss

-- What the model asks of a call: the allocator hands out a new stack, and only coroutines that exist are
-- woken.
abbrev pub CallOk : Call → Scheduler → Type 0
CallOk (create allocate) s = (id : ℕ) → allocate s.stack_size id ≡ some true
CallOk (put id) s = s.all_coro id ≢ null
CallOk stop s = Unit {0}

-- The same of each call of a turn, in the scheduler that the calls before it have left.
unfoldable pub CallsOk : List Call → Scheduler → Type 0
CallsOk [] s = Unit {0}
CallsOk (c ∷ cs) s = CallOk c s × ((s' : Scheduler) → call c s ≡ some s' → CallsOk cs s')

-- The scheduler while coroutine `c` runs.
record Runs (c : ℕ) (o : Option Scheduler) : Type 0 where
  after : Scheduler
  members : Members
  result : o ≡ some after
  ready : Ready after members
  current_eq : after.current ≡ c
  used : Used members c

runs :
    {c : ℕ} {o : Option Scheduler} (s : Scheduler) (m : Members)
    → o ≡ some s
    → Ready s m
    → s.current ≡ c
    → Used m c
    → Runs c o
runs s m e r k u = record {
  after = s;
  members = m;
  result = e;
  ready = r;
  current_eq = k;
  used = u;
}

call-Runs :
    (k : Call) (s : Scheduler) (m : Members) (c : ℕ)
    → Ready s m
    → s.current ≡ c
    → Used m c
    → CallOk k s
    → Runs c (call k s)
unfolding call terminate put_id push_back
call-Runs (create allocate) s m c r e u ok = elim (dec_lt s.used_size s.pool_size) [
  | yes l ↦
      let t = create_coroutine_lem allocate s m ok r.valid r.no_loss l in
      runs t.after t.members (ap (λ o. o >>= λ x. some x.1) t.result)
        (record { valid = t.valid; no_loss = t.no_loss }) (t.current_eq ∙ e) (t.keeps c u)
  | no n ↦
      let v = r.valid in
      let f : s.used_size ≡ s.pool_size =
        omega (arith, n, v.used_eq, v.current_eq, v.current_le, v.uniq_le) in
      runs s m (ap (λ o. o >>= λ x. some x.1) (create_coroutine_full allocate s m v f)) r e u
]
call-Runs (put id) s m c r e u ok =
    let v = r.valid in
    let q = push_back id s.active_queue in
    let k = All-snoc (Known m) s.active_queue.queue id v.queue_known (v.found id ok) in
    let w =
      with_queues s.terminal s.current s.need_active q s.timeouts v v.need_known k v.times_known in
    let t =
      either (RunsIn m c) s.terminal s (record s { active_queue = q }) (v, r.no_loss, e)
        (w, r.no_loss, e) in
    runs (put_id id s) m refl (record { valid = t.0; no_loss = t.1 }) t.2 u
call-Runs stop s m c r e u ok =
    let v = r.valid in
    let w =
      with_queues true s.current s.need_active s.active_queue s.timeouts v v.need_known
        v.queue_known v.times_known in
    runs (terminate s) m refl (record { valid = w; no_loss = r.no_loss }) e u

call_all-Runs :
    (ks : List Call) (s : Scheduler) (m : Members) (c : ℕ)
    → Ready s m
    → s.current ≡ c
    → Used m c
    → CallsOk ks s
    → Runs c (call_all ks s)
unfolding call_all CallsOk
call_all-Runs [] s m c r e u ok = runs s m refl r e u
call_all-Runs (k ∷ ks) s m c r e u (ok, oks) =
    let t = call-Runs k s m c r e u ok in
    let w =
      call_all-Runs ks t.after t.members c t.ready t.current_eq t.used (oks t.after t.result) in
    runs w.after w.members (ap (λ o. o >>= call_all ks) t.result ∙ w.result) w.ready w.current_eq
      w.used

end_turn-Safe :
    (e : Ending) (s : Scheduler) (m : Members) → Ready s m → Used m s.current → Safe (end_turn e s)
unfolding end_turn
end_turn-Safe (yields flag) s m r (u, n, i) = yield-Safe flag s m r (u, i)
end_turn-Safe (sleeps now time) s m r (u, n, i) = sleep-Safe now time s m r (u, i)
end_turn-Safe returns s m r u = finish-Safe s m r u

-- A turn of a coroutine in use, whose calls are in order, leaves the scheduler ready.
pub resume-Safe :
    (turn : Turn) (c : ℕ) (s : Scheduler) (m : Members)
    → Ready s m
    → Used m c
    → CallsOk turn.0 (switch_coro c s)
    → Safe (resume turn c s)
unfolding resume switch_coro
resume-Safe turn c s m r u ok =
    let v = r.valid in
    let w =
      with_queues s.terminal c s.need_active s.active_queue s.timeouts v v.need_known v.queue_known
        v.times_known in
    let t =
      call_all-Runs turn.0 (record s { current = c }) m c
        (record { valid = w; no_loss = r.no_loss }) refl u ok in
    let x =
      end_turn-Safe turn.1 t.after t.members t.ready
        (subst (Used t.members) (sym t.current_eq) t.used) in
    safe x.after x.members (ap (λ o. o >>= end_turn turn.1) t.result ∙ x.result) x.ready.valid
      x.ready.no_loss
