-- ===== src/Coroutine/Turns.antt =====
-- Every step of the scheduler between two switches keeps the invariant.
use learn_tars.Base.{
  ℕ, ◌+◌, ◌-◌, ◌≡◌, refl, ap, ◌∙◌, Bool, true, false, List, [], ◌∷◌, ◌++◌, Option, some, arith,
  if◌then◌else◌, ◌>>=◌, Bool-cases, inl, inr, All, ltb,
}
use learn_tars.Coroutine.Links.{free, Heap, code}
use learn_tars.Coroutine.Lists.{main, Members}
use learn_tars.Coroutine.Moves.{Move, to_inactive, to_timeout, target, move_to}
use learn_tars.Coroutine.Counting.{Listed}
use learn_tars.Coroutine.Invariant.{Known, KnownTime, IsValid, move_members}
use learn_tars.Coroutine.Waking.{move-IsValid, with_heap}
use learn_tars.Coroutine.Wakeups.{with_queues}
use learn_tars.Coroutine.Scheduler.{Scheduler, get_uid, put_by_self}
use learn_tars.Coroutine.Run.{ℤ, magnitude, switch_coro, yield, sleep, insert_time}

-- Valid, and no identifier has been lost.
pub record Ready (s : Scheduler) (m : Members) : Type 0 where
  pub valid : IsValid s m
  pub no_loss : s.uniq_id ≡ s.current_size

-- The step comes to an end, and leaves a scheduler that is ready.
pub record Safe (o : Option Scheduler) : Type 0 where
  pub after : Scheduler
  pub members : Members
  pub result : o ≡ some after
  pub ready : Ready after members

pub Safe-bind :
    {o : Option Scheduler} (f : Scheduler → Option Scheduler)
    → Safe o
    → ((s : Scheduler) (m : Members) → Ready s m → Safe (f s))
    → Safe (o >>= f)
Safe-bind f a g =
    let b = g a.after a.members a.ready in
    record {
      after = b.after;
      members = b.members;
      result = ap (λ x. x >>= f) a.result ∙ b.result;
      ready = b.ready;
    }

pub safe :
    {o : Option Scheduler} (s : Scheduler) (m : Members)
    → o ≡ some s
    → IsValid s m
    → s.uniq_id ≡ s.current_size
    → Safe o
safe s m e v n = record {
  after = s;
  members = m;
  result = e;
  ready = record { valid = v; no_loss = n };
}

pub uid-Known :
    (s : Scheduler) (m : Members) (c : ℕ) → IsValid s m → Listed m c → Known m (get_uid c)
unfolding get_uid
uid-Known s m c v (u, i) =
    let a = v.lists.above u c i in let e : c - main + main ≡ c = omega arith in (u, rw e i)

pub All-snoc :
    {A : Type 0} (P : A → Type 0) (xs : List A) (y : A) → All P xs → P y → All P (xs ++ y ∷ [])
All-snoc P [] y h p = (p, tt)
All-snoc P (x ∷ xs) y h p = (h.0, All-snoc P xs y h.1 p)

-- A choice between two schedulers that are both ready, with the same coroutine running.
abbrev pub RunsIn : Members → ℕ → Scheduler → Type 0
RunsIn m c s = IsValid s m × (s.uniq_id ≡ s.current_size) × (s.current ≡ c)

pub either :
    (P : Scheduler → Type 0) (b : Bool) (x y : Scheduler) → P x → P y → P (if b then x else y)
either P true x y p q = p
either P false x y p q = q

pub put_by_self-RunsIn :
    (id c : ℕ) (s : Scheduler) (m : Members)
    → RunsIn m c s
    → Known m id
    → RunsIn m c (put_by_self id s)
unfolding put_by_self
put_by_self-RunsIn id c s m (v, n, e) k =
    let need = s.need_active ++ id ∷ [] in
    let w =
      with_queues s.terminal s.current need s.active_queue s.timeouts v
        (All-snoc (Known m) s.need_active id v.need_known k) v.queue_known v.times_known in
    either (RunsIn m c) s.terminal s (record s { need_active = need }) (v, n, e) (w, n, e)

inactive_used : target to_inactive ≡ free → ⊥
inactive_used e = let f = ap code e in omega arith

timeout_used : target to_timeout ≡ free → ⊥
timeout_used e = let f = ap code e in omega arith

-- A move of the running coroutine and the switch to the main one.
move_and_switch :
    (mv : Move) (s : Scheduler) (m : Members) (c : ℕ)
    → RunsIn m c s
    → Listed m c
    → (target mv ≡ free → ⊥)
    → Safe (move_to mv s.current s.heap >>= λ h. some (switch_coro main (with_heap s h)))
unfolding switch_coro
move_and_switch mv s m c (v, n, e) i f =
    let switched : Heap → Option Scheduler = λ h. some (record s { heap = h; current = main }) in
    let (h, d, w) = move-IsValid mv s m c v i f in
    safe (record s { heap = h; current = main }) (move_members mv c m)
      (ap (λ x. move_to mv x s.heap >>= switched) e ∙ ap (λ o. o >>= switched) d)
      (with_queues s.terminal main s.need_active s.active_queue s.timeouts w w.need_known
        w.queue_known w.times_known)
      n

pub yield-Safe :
    (flag : Bool) (s : Scheduler) (m : Members)
    → Ready s m
    → Listed m s.current
    → Safe (yield flag s)
unfolding yield
yield-Safe flag s m r i =
    let t =
      put_by_self-RunsIn (get_uid s.current) s.current s m (r.valid, r.no_loss, refl)
        (uid-Known s m s.current r.valid i) in
    let s1 = if flag then put_by_self (get_uid s.current) s else s in
    let u =
      either (RunsIn m s.current) flag (put_by_self (get_uid s.current) s) s t
        (r.valid, r.no_loss, refl) in
    move_and_switch to_inactive s1 m s.current u i inactive_used

All-insert_time :
    (P : ℕ × ℕ → Type 0) (time id : ℕ) (ts : List (ℕ × ℕ))
    → P (time, id)
    → All P ts
    → All P (insert_time time id ts)
unfolding insert_time
All-insert_time P time id [] p h = (p, tt)
All-insert_time P time id ((t, i) ∷ rest) p h = elim (Bool-cases (ltb time t)) [
  | inl e ↦ rw e (p, h)
  | inr e ↦ rw e (h.0, All-insert_time P time id rest p h.1)
]

pub sleep-Safe :
    (now : ℕ) (time : ℤ) (s : Scheduler) (m : Members)
    → Ready s m
    → Listed m s.current
    → Safe (sleep now time s)
unfolding sleep
sleep-Safe now time s m r i =
    let v = r.valid in
    let at_time = now + magnitude time in
    let ts = insert_time at_time (get_uid s.current) s.timeouts in
    let k =
      All-insert_time (KnownTime m) at_time (get_uid s.current) s.timeouts
        (uid-Known s m s.current v i) v.times_known in
    let w =
      with_queues s.terminal s.current s.need_active s.active_queue ts v v.need_known v.queue_known
        k in
    move_and_switch to_timeout (record s { timeouts = ts }) m s.current (w, r.no_loss, refl) i
      timeout_used
