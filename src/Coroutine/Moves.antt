-- ===== src/Coroutine/Moves.antt =====
-- The moves of `CoroutineScheduler` between its lists. Each takes effect only from the statuses that
-- it is meant for, and appends the coroutine to the list of its new status.
use learn_tars.Base.{
  ℕ, ◌≡◌, ◌≢◌, refl, sym, ◌∙◌, Bool, true, false, [], ◌∷◌, ◌++◌, Option, some, arith, if◌then◌else◌,
  ◌>>=◌, Bool-cases, inl, inr,
}
use learn_tars.Coroutine.Links.{
  Status, free, active, avail, inactive, timeout, same, Heap, null, put, del, add_tail, get_status,
  set_status, get_status-some, set_status-some,
}
use learn_tars.Coroutine.Chains.{has, erase, unlinked, linked}
use learn_tars.Coroutine.Rings.{del-unlinked, add_tail-linked, erased}
use learn_tars.Coroutine.Lists.{
  head, Members, Lists, at, one_list, same→eq, unlinked-Lists, linked-Lists, set_status-Lists,
}

-- Delete the coroutine from its list, set its status, and append it to the list of that status.
unfoldable pub place : ℕ → Status → Heap → Option Heap
place coro s h = del coro h >>= set_status coro s >>= add_tail coro (head s)

unfoldable pub move_to_active : ℕ → Heap → Option Heap
move_to_active coro h = get_status coro h >>= λ s. elim s [
  | inactive ↦ place coro active h
  | timeout ↦ place coro active h
  | _ ↦ some h
]

unfoldable pub move_to_avail : ℕ → Heap → Option Heap
move_to_avail coro h =
    get_status coro h >>= λ s. elim s [ inactive ↦ place coro avail h | _ ↦ some h ]

unfoldable pub move_to_inactive : ℕ → Heap → Option Heap
move_to_inactive coro h = get_status coro h >>= λ s. elim s [
  | active ↦ place coro inactive h
  | avail ↦ place coro inactive h
  | _ ↦ some h
]

unfoldable pub move_to_timeout : ℕ → Heap → Option Heap
move_to_timeout coro h = get_status coro h >>= λ s. elim s [
  | active ↦ place coro timeout h
  | avail ↦ place coro timeout h
  | _ ↦ some h
]

unfoldable pub move_to_free_list : ℕ → Heap → Option Heap
move_to_free_list coro h = get_status coro h >>= λ s. elim s [
  | active ↦ place coro free h
  | avail ↦ place coro free h
  | inactive ↦ place coro free h
  | timeout ↦ place coro free h
  | free ↦ some h
]

-- The members after the move of `c` from one list to the end of another.
abbrev pub moved : ℕ → Status → Status → Members → Members
moved c s t m = at t (λ xs. xs ++ c ∷ []) (at s (erase c) m)

module _ {h : Heap} {m : Members} (l : Lists h m) (c : ℕ) (s : Status)
    (i : has c (m s) ≡ true) where
  not_null : c ≢ null
  not_null = let a = l.above s c i in λ e. omega arith

  out_of_all : (t : Status) → has c (at s (erase c) m t) ≡ false
  out_of_all t = elim (Bool-cases (same s t)) [
    | inl e ↦ rw (e, sym (same→eq s t e)) (erased c (m s) (l.ring s).distinct)
    | inr n ↦ rw n (one_list l s t c i n)
  ]

  -- The heap after `place`.
  abbrev pub placed : Status → Heap
  placed t =
      let g = unlinked c h in
      let g' : Heap = record g { status = put c t g.status } in
      linked c (g'.prev (head t)) (head t) g'

  pub place-Lists :
      (t : Status) → (place c t h ≡ some (placed t)) × Lists (placed t) (moved c s t m)
  unfolding place
  place-Lists t =
      let l1 = unlinked-Lists l s c i in
      let l2 = set_status-Lists (unlinked c h) (at s (erase c) m) c t l1 out_of_all in
      (
        rw (del-unlinked (l.ring s) c i, set_status-some c (unlinked c h) not_null t)
            (add_tail-linked (l2.ring t) c not_null),
        linked-Lists l2 t c (l.above s c i) (ground arith) out_of_all,
      )

  pub status-some : get_status c h ≡ some s
  status-some = rw (get_status-some c h not_null, l.status_eq s c i) refl

pub data Move : Type 0 where
  to_active : Move
  to_avail : Move
  to_inactive : Move
  to_timeout : Move
  to_free_list : Move

abbrev pub move_to : Move → ℕ → Heap → Option Heap
move_to to_active = move_to_active
move_to to_avail = move_to_avail
move_to to_inactive = move_to_inactive
move_to to_timeout = move_to_timeout
move_to to_free_list = move_to_free_list

-- The status that a move leads to, and the statuses that it starts from.
abbrev pub target : Move → Status
target to_active = active
target to_avail = avail
target to_inactive = inactive
target to_timeout = timeout
target to_free_list = free

abbrev pub starts_from : Move → Status → Bool
starts_from to_active inactive = true
starts_from to_active timeout = true
starts_from to_avail inactive = true
starts_from to_inactive active = true
starts_from to_inactive avail = true
starts_from to_timeout active = true
starts_from to_timeout avail = true
starts_from to_free_list active = true
starts_from to_free_list avail = true
starts_from to_free_list inactive = true
starts_from to_free_list timeout = true
starts_from _ _ = false

abbrev pub after_move : Move → ℕ → Status → Members → Members
after_move mv c s m = if starts_from mv s then moved c s (target mv) m else m

-- What a call left: no null pointer was gone through, and the lists have the members given.
abbrev pub Leaves : Option Heap → Members → Type 0
Leaves o m = (h : Heap) × (o ≡ some h) × Lists h m

move_to-some :
    (h : Heap) (mv : Move) (c : ℕ) (s : Status)
    → get_status c h ≡ some s
    → move_to mv c h ≡ (if starts_from mv s then place c (target mv) h else some h)
unfolding move_to_active move_to_avail move_to_inactive move_to_timeout move_to_free_list
move_to-some h to_active c free e = rw e refl
move_to-some h to_active c active e = rw e refl
move_to-some h to_active c avail e = rw e refl
move_to-some h to_active c inactive e = rw e refl
move_to-some h to_active c timeout e = rw e refl
move_to-some h to_avail c free e = rw e refl
move_to-some h to_avail c active e = rw e refl
move_to-some h to_avail c avail e = rw e refl
move_to-some h to_avail c inactive e = rw e refl
move_to-some h to_avail c timeout e = rw e refl
move_to-some h to_inactive c free e = rw e refl
move_to-some h to_inactive c active e = rw e refl
move_to-some h to_inactive c avail e = rw e refl
move_to-some h to_inactive c inactive e = rw e refl
move_to-some h to_inactive c timeout e = rw e refl
move_to-some h to_timeout c free e = rw e refl
move_to-some h to_timeout c active e = rw e refl
move_to-some h to_timeout c avail e = rw e refl
move_to-some h to_timeout c inactive e = rw e refl
move_to-some h to_timeout c timeout e = rw e refl
move_to-some h to_free_list c free e = rw e refl
move_to-some h to_free_list c active e = rw e refl
move_to-some h to_free_list c avail e = rw e refl
move_to-some h to_free_list c inactive e = rw e refl
move_to-some h to_free_list c timeout e = rw e refl

-- A move of a coroutine that stands in the list of its status goes through no null pointer. From a
-- status that the move starts from it takes the coroutine out of that list and appends it to the
-- list of the new status; from any other it changes nothing.
pub move-Lists :
    {h : Heap} {m : Members} (l : Lists h m) (mv : Move) (c : ℕ) (s : Status)
    → has c (m s) ≡ true
    → Leaves (move_to mv c h) (after_move mv c s m)
move-Lists {h} {m} l mv c s i =
    let e = move_to-some h mv c s (status-some l c s i) in
    elim (Bool-cases (starts_from mv s)) [
      | inl y ↦
          let p = place-Lists l c s i (target mv) in
          rw y (placed l c s i (target mv), e ∙ rw y p.0, p.1)
      | inr n ↦ rw n (h, e ∙ rw n refl, l)
    ]
