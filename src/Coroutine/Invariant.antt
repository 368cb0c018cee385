-- ===== src/Coroutine/Invariant.antt =====
-- The invariant of the scheduler, and that the moves and wake-ups keep it.
use learn_tars.Base.{
  ℕ, ◌+◌, ◌-◌, ◌<◌, ◌≤◌, ◌^◌, ◌≡◌, ◌≢◌, refl, ap, Bool, true, false, List, [], ◌∷◌, arith,
  if◌then◌else◌, Bool-cases, inl, inr, length, All,
}
use learn_tars.Coroutine.Links.{Status, free, active, avail, inactive, timeout, same, null}
use learn_tars.Coroutine.Chains.{has}
use learn_tars.Coroutine.Lists.{main, Members, Lists, same→eq}
use learn_tars.Coroutine.Moves.{
  Move, to_active, to_avail, to_inactive, to_timeout, to_free_list, target, starts_from, moved,
  after_move,
}
use learn_tars.Coroutine.Counting.{
  used_of, Listed, Listed-moved, moved-Listed, used_of-moved, free-moved,
}
use learn_tars.Coroutine.Scheduler.{Scheduler}

-- The identifier is that of a coroutine in one of the lists.
abbrev pub Known : Members → ℕ → Type 0
Known m id = Listed m (id + main)

abbrev pub KnownTime : Members → ℕ × ℕ → Type 0
KnownTime m e = Known m e.1

-- Every coroutine stands in the list of its status and nowhere else, and in the table under its
-- identifier; the counters count the lists; whoever is to be woken is known.
pub record IsValid (s : Scheduler) (m : Members) : Type 0 where
  pub lists : Lists s.heap m
  pub made : (c : ℕ) → Listed m c → (c ≤ s.uniq_id + main) × (s.all_coro (c - main) ≡ c)
  pub found : (id : ℕ) → s.all_coro id ≢ null → Known m id
  pub uniq_le : s.uniq_id ≤ s.pool_size
  pub pool_lt : s.pool_size < 2 ^ 32
  pub used_eq : s.used_size ≡ used_of m
  pub current_eq : s.current_size ≡ used_of m + length (m free)
  pub current_le : s.current_size ≤ s.uniq_id
  pub need_known : All (Known m) s.need_active
  pub queue_known : All (Known m) s.active_queue.queue
  pub times_known : All (KnownTime m) s.timeouts

-- The list that a pointer stands in.
unfoldable pub status_in : Members → ℕ → Status
status_in m p =
    if has p (m active)
    then active
    else if has p (m avail)
    then avail
    else if has p (m inactive)
    then inactive
    else if has p (m timeout)
    then timeout
    else free

pub has-status_in : (m : Members) (p : ℕ) → Listed m p → has p (m (status_in m p)) ≡ true
unfolding status_in
has-status_in m p (free, i) = ground arith
has-status_in m p (active, i) = ground arith
has-status_in m p (avail, i) = ground arith
has-status_in m p (inactive, i) = ground arith
has-status_in m p (timeout, i) = ground arith

-- What a move of a coroutine makes of the lists, and what the moves of several do in turn.
unfoldable pub move_members : Move → ℕ → Members → Members
move_members mv c m = after_move mv c (status_in m c) m

unfoldable pub wake_members : Move → List ℕ → Members → Members
wake_members mv [] m = m
wake_members mv (id ∷ ids) m = wake_members mv ids (move_members mv (id + main) m)

starts-free : (mv : Move) → starts_from mv free ≡ false
starts-free to_active = refl
starts-free to_avail = refl
starts-free to_inactive = refl
starts-free to_timeout = refl
starts-free to_free_list = refl

starts-target : (mv : Move) → starts_from mv (target mv) ≡ false
starts-target to_active = refl
starts-target to_avail = refl
starts-target to_inactive = refl
starts-target to_timeout = refl
starts-target to_free_list = refl

starts-same :
    (mv : Move) (s t : Status)
    → starts_from mv s ≡ true
    → starts_from mv t ≡ false
    → same s t ≡ false
starts-same mv s t y n = elim (Bool-cases (same s t)) [
  | inl e ↦ let f = ap (starts_from mv) (same→eq s t e) in cc
  | inr o ↦ o
]

if_true : (b : Bool) (x y : Members) (p : ℕ) → b ≡ true → Listed (if b then x else y) p → Listed x p
if_true true x y p e l = l
if_true false x y p e l = cc

if_false :
    (b : Bool) (x y : Members) (p : ℕ) → b ≡ false → Listed (if b then x else y) p → Listed y p
if_false true x y p e l = cc
if_false false x y p e l = l

not_true : (b : Bool) → (b ≡ true → ⊥) → b ≡ false
not_true true n = elim (n refl) [ ]
not_true false n = refl

module _ (mv : Move) (c : ℕ) (m : Members) (i : Listed m c) where
  pub Listed-move : (p : ℕ) → Listed m p → Listed (move_members mv c m) p
  unfolding move_members
  Listed-move p l = elim (Bool-cases (starts_from mv (status_in m c))) [
    | inl y ↦ rw y (Listed-moved c (status_in m c) (target mv) m p l)
    | inr n ↦ rw n l
  ]

  pub move-Listed : (p : ℕ) → Listed (move_members mv c m) p → Listed m p
  unfolding move_members
  move-Listed p l = elim (Bool-cases (starts_from mv (status_in m c))) [
    | inl y ↦
        moved-Listed c (status_in m c) (target mv) m (has-status_in m c i) p
          (if_true (starts_from mv (status_in m c)) (moved c (status_in m c) (target mv) m) m p y l)
    | inr n ↦
        if_false (starts_from mv (status_in m c)) (moved c (status_in m c) (target mv) m) m p n l
  ]

  -- A move to a list of used coroutines keeps the number of the used and of the free ones.
  pub move_used :
      (target mv ≡ free → ⊥)
      → (used_of (move_members mv c m) ≡ used_of m)
        × (length (move_members mv c m free) ≡ length (m free))
  unfolding move_members
  move_used n = elim (Bool-cases (starts_from mv (status_in m c))) [
    | inl y ↦
        let st = status_in m c in
        let j = has-status_in m c i in
        let o = starts-same mv st (target mv) y (starts-target mv) in
        let f = starts-same mv st free y (starts-free mv) in
        let g : same (target mv) free ≡ false =
          not_true (same (target mv) free) λ e. n (same→eq (target mv) free e) in
        let u = used_of-moved c st (target mv) m j o in
        let v = free-moved c st (target mv) m j o in
        rw y (ground (arith, u, f, g), ground (arith, v, f, g))
    | inr o ↦ rw o (refl, refl)
  ]
