-- ===== src/Coroutine/Waking.antt =====
-- The wake-ups of the scheduler keep the invariant, and move whom they are to move.
use learn_tars.Base.{
  ℕ, ◌+◌, ◌-◌, ◌≡◌, refl, sym, ap, ◌∙◌, List, [], ◌∷◌, Option, some, arith, if◌then◌else◌, ◌>>=◌,
  Bool-cases, Option-cases, inl, inr, All, ltb, lt→ltb, le→leb,
}
use learn_tars.Coroutine.Links.{free, Heap}
use learn_tars.Coroutine.Lists.{main, Members}
use learn_tars.Coroutine.Moves.{Move, to_active, target, move_to, move_to_active, move-Lists}
use learn_tars.Coroutine.Counting.{Listed}
use learn_tars.Coroutine.Invariant.{
  Known, KnownTime, IsValid, status_in, has-status_in, move_members, wake_members, Listed-move,
  move-Listed, move_used,
}
use learn_tars.Coroutine.Scheduler.{Scheduler, lookup, wake, wake_all, wake_due}

pub All-map :
    {A : Type 0} {P Q : A → Type 0} (f : (a : A) → P a → Q a) (xs : List A) → All P xs → All Q xs
All-map f [] h = tt
All-map f (x ∷ xs) (p, h) = (f x p, All-map f xs h)

-- The lists only gain members.
abbrev pub Grows : Members → Members → Type 0
Grows m n = (p : ℕ) → Listed m p → Listed n p

pub lookup_lem :
    (s : Scheduler) (m : Members) (id : ℕ)
    → IsValid s m
    → Known m id
    → lookup id s ≡ some (id + main)
unfolding lookup
lookup_lem s m id v k =
    let d = v.made (id + main) k in
    let e : id + main - main ≡ id = omega arith in
    let f : s.all_coro id ≡ id + main = sym (ap s.all_coro e) ∙ d.1 in
    let p = v.uniq_le in
    rw (le→leb id s.pool_size (omega (arith, d.0)), f, lt→ltb 0 (id + main) (omega arith)) refl

-- A scheduler that differs in its lists alone.
abbrev pub with_heap : Scheduler → Heap → Scheduler
with_heap s h = record s { heap = h }

pub move-IsValid :
    (mv : Move) (s : Scheduler) (m : Members) (c : ℕ)
    → IsValid s m
    → Listed m c
    → (target mv ≡ free → ⊥)
    → (h : Heap) × (move_to mv c s.heap ≡ some h) × IsValid (with_heap s h) (move_members mv c m)
unfolding move_members
move-IsValid mv s m c v i n =
    let (h, e, l) = move-Lists v.lists mv c (status_in m c) (has-status_in m c i) in
    let g = Listed-move mv c m i in
    let u = move_used mv c m i n in
    (
      h,
      e,
      record {
        lists = l;
        made = λ p q. v.made p (move-Listed mv c m i p q);
        found = λ id z. g (id + main) (v.found id z);
        uniq_le = v.uniq_le;
        pool_lt = v.pool_lt;
        used_eq = v.used_eq ∙ sym u.0;
        current_eq = omega (arith, v.current_eq, u);
        current_le = v.current_le;
        need_known = All-map (λ x k. g (x + main) k) s.need_active v.need_known;
        queue_known = All-map (λ x k. g (x + main) k) s.active_queue.queue v.queue_known;
        times_known = All-map (λ x k. g (x.1 + main) k) s.timeouts v.times_known;
      },
    )

pub Grows-wake_members :
    (mv : Move) (ids : List ℕ) (m : Members) → All (Known m) ids → Grows m (wake_members mv ids m)
unfolding wake_members
Grows-wake_members mv [] m k p i = i
Grows-wake_members mv (id ∷ ids) m (k, ks) p i =
    let g = Listed-move mv (id + main) m k in
    Grows-wake_members mv ids (move_members mv (id + main) m)
      (All-map (λ x j. g (x + main) j) ids ks) p (g p i)

pub wake_step :
    (f : ℕ → Heap → Option Heap) (s : Scheduler) (id c : ℕ) (h : Heap)
    → lookup id s ≡ some c
    → f c s.heap ≡ some h
    → wake f id s ≡ some (with_heap s h)
unfolding wake
wake_step f s id c h e d = rw (e, d) refl

pub wake_all-IsValid :
    (mv : Move) (ids : List ℕ) (s : Scheduler) (m : Members)
    → IsValid s m
    → All (Known m) ids
    → (target mv ≡ free → ⊥)
    → (h : Heap) × (wake_all (move_to mv) ids s ≡ some (with_heap s h))
      × IsValid (with_heap s h) (wake_members mv ids m)
unfolding wake_all wake_members
wake_all-IsValid mv [] s m v ks n = (s.heap, refl, v)
wake_all-IsValid mv (id ∷ ids) s m v (k, ks) n =
    let (h, e, w) = move-IsValid mv s m (id + main) v k n in
    let g = Listed-move mv (id + main) m k in
    let (h', e', w') =
      wake_all-IsValid mv ids (with_heap s h) (move_members mv (id + main) m) w
        (All-map (λ x j. g (x + main) j) ids ks) n in
    let step = wake_step (move_to mv) s id (id + main) h (lookup_lem s m id v k) e in
    (h', ap (λ o. o >>= wake_all (move_to mv) ids) step ∙ e', w')

-- The identifiers whose time has come, and the entries that are left.
unfoldable pub due : ℕ → List (ℕ × ℕ) → List ℕ
due now [] = []
due now ((time, id) ∷ rest) = if ltb now time then [] else id ∷ due now rest

unfoldable pub not_due : ℕ → List (ℕ × ℕ) → List (ℕ × ℕ)
not_due now [] = []
not_due now ((time, id) ∷ rest) = if ltb now time then (time, id) ∷ rest else not_due now rest

pub All-due :
    (now : ℕ) (m : Members) (ts : List (ℕ × ℕ)) → All (KnownTime m) ts → All (Known m) (due now ts)
unfolding due
All-due now m [] k = tt
All-due now m ((time, id) ∷ rest) k = ground (arith, All-due now m rest k.1)

pub All-not_due :
    (now : ℕ) (m : Members) (ts : List (ℕ × ℕ))
    → All (KnownTime m) ts
    → All (KnownTime m) (not_due now ts)
unfolding not_due
All-not_due now m [] k = tt
All-not_due now m ((time, id) ∷ rest) k = ground (arith, All-not_due now m rest k.1)

-- Without an effect on the queues, the loop over the entries is the moves of those that are due.
pub wake_due-wake_all :
    (now : ℕ) (ts : List (ℕ × ℕ)) (s : Scheduler)
    → wake_due now ts s ≡ (
        wake_all (move_to to_active) (due now ts) s >>= λ s'.
        some (record s' { timeouts = not_due now ts }))
unfolding wake_due wake_all due not_due
wake_due-wake_all now [] s = refl
wake_due-wake_all now ((time, id) ∷ rest) s = elim (Bool-cases (ltb now time)) [
  | inl y ↦ rw y refl
  | inr n ↦ rw n (elim (Option-cases (wake move_to_active id s)) [
    | inl e ↦ rw e refl
    | inr (s', e) ↦ rw e (wake_due-wake_all now rest s')
  ])
]
