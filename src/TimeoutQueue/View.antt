-- ===== src/TimeoutQueue/View.antt =====
-- What the caller of a `TC_TimeoutQueueNew` sees by id, and how `push`, `get` and `erase` change
-- it.
use learn_tars.Base.{
  ℕ, ◌≡◌, refl, ◌≢◌, ◌⊎◌, inl, inr, Bool, true, false, Option, none, some, arith, ◌==◌,
  if◌then◌else◌, Option-cases, ◌>>=◌,
}
use mathlib.Core.Option
use learn_tars.Base.Keyed.{find}
use learn_tars.Base.Keyed.Laws.{find-without}
use learn_tars.TimeoutQueue.{PtrInfo, TimeNode, TimeoutQueue, push, get, erase}
use learn_tars.TimeoutQueue.Times.{find-insert_time}
use learn_tars.TimeoutQueue.Invariant.{Inv, fresh_time}
use learn_tars.TimeoutQueue.Unlink.{unlinked, unlinked-Inv, unlink_lem}

module _ {A : Type 0} where
  -- An entry by its id: the value, whether it was sent, and when it expires.
  unfoldable pub view : TimeoutQueue A → ℕ → Option (A × Bool × ℕ)
  view q k = find k q.entries >>= λ info.
      Option.map (λ t. (info.ptr, info.has_send, t.due)) (find info.time_iter q.times)

  -- An entry that is there is in view.
  pub view_of_find :
      (q : TimeoutQueue A) (k : ℕ) (info : PtrInfo A)
      → Inv q
      → find k q.entries ≡ some info
      → Option.map (λ e. e.0) (view q k) ≡ some info.ptr
  unfolding view
  view_of_find q k info v h = ground (arith, h, v.entry_timed k info h)

  pub view_of_none : (q : TimeoutQueue A) (k : ℕ) → find k q.entries ≡ none → view q k ≡ none
  unfolding view
  view_of_none q k e = rw e refl

  pub view-none : (q : TimeoutQueue A) (k : ℕ) → Inv q → view q k ≡ none → find k q.entries ≡ none
  view-none q k v h = elim (Option-cases (find k q.entries)) [
    | inl e ↦ e
    | inr (info, e) ↦ cc (h, view_of_find q k info v e)
  ]

  pub view-unlinked :
      (q : TimeoutQueue A) (k : ℕ) (info : PtrInfo A) (j : ℕ)
      → Inv q
      → find k q.entries ≡ some info
      → view (unlinked k info q) j ≡ (if k == j then none else view q j)
  unfolding view unlinked
  view-unlinked q k info j v h = elim (Option-cases (find j q.entries)) [
    | inl e ↦ ground (arith, e, find-without k j q.entries)
    | inr (other, e) ↦ ground (
      arith,
      e,
      v.entry_timed j other e,
      v.entry_timed k info h,
      find-without k j q.entries,
      find-without info.time_iter other.time_iter q.times,
    )
  ]

  view-push :
      (q : TimeoutQueue A) (ptr : A) (k due : ℕ) (has_send : Bool) (j : ℕ)
      → Inv q
      → find k q.entries ≡ none
      → view (push ptr k due has_send q).1 j
        ≡ (if k == j then some (ptr, has_send, due) else view q j)
  unfolding push view find
  view-push q ptr k due has_send j v e =
      let node : TimeNode = record { due = due; data_iter = k } in
      let new = fresh_time q q.fresh v (omega arith) in
      rw (e, push)
        (elim (Option-cases (find j q.entries)) [
          | inl g ↦ ground (arith, g, e, find-insert_time q.fresh q.fresh node q.times new)
          | inr (other, g) ↦ ground (
            arith,
            g,
            e,
            new,
            v.entry_timed j other g,
            find-insert_time q.fresh q.fresh node q.times new,
            find-insert_time q.fresh other.time_iter node q.times new,
          )
        ])

  -- On a queue that satisfies the invariant: a push under a new id adds the entry with its value,
  -- its flag and its deadline, and touches no other entry. A push under an id that is in use
  -- answers false and changes nothing.
  pub push-view :
      (q : TimeoutQueue A) (ptr : A) (k due : ℕ) (has_send : Bool) (j : ℕ)
      → Inv q
      → let (done, q') = push ptr k due has_send q in
        ((view q k ≡ none)
          × (done ≡ true)
          × (view q' j ≡ (if k == j then some (ptr, has_send, due) else view q j)))
        ⊎ ((view q k ≢ none) × (done ≡ false) × (q' ≡ q))
  unfolding push
  push-view q ptr k due has_send j v = elim (Option-cases (find k q.entries)) [
    | inr (info, e) ↦ inr (λ h. cc (view-none q k v h, e), rw (e, push), rw (e, push))
    | inl e ↦ inl (view_of_none q k e, rw (e, push), view-push q ptr k due has_send j v e)
  ]

  -- Under the invariant, `get` with `bErase` unset hands out the value under the id and changes
  -- nothing.
  pub get_kept :
      (q : TimeoutQueue A) (k : ℕ)
      → Inv q
      → get k false q ≡ some (Option.map (λ e. e.0) (view q k), q)
  unfolding get
  get_kept q k v = elim (Option-cases (find k q.entries)) [
    | inl e ↦ rw (e, get, view_of_none q k e) refl
    | inr (info, e) ↦ rw (e, get, view_of_find q k info v e) refl
  ]

  missing :
      (q : TimeoutQueue A) (k j : ℕ)
      → find k q.entries ≡ none
      → view q j ≡ (if k == j then none else view q j)
  unfolding view
  missing q k j e = ground (arith, e)

  -- Under the invariant, `erase`, and `get` with `bErase` set, never go through a dangling
  -- iterator. They hand out the value under the id, take its entry out, leave every other entry,
  -- and keep the invariant.
  pub erase-view :
      (q : TimeoutQueue A) (k j : ℕ)
      → Inv q
      → (q' : TimeoutQueue A) × (erase k q ≡ some (Option.map (λ e. e.0) (view q k), q'))
        × (get k true q ≡ erase k q)
        × Inv q'
        × (view q' j ≡ (if k == j then none else view q j))
  unfolding get erase
  erase-view q k j v = elim (Option-cases (find k q.entries)) [
    | inl e ↦ rw (e, get, erase) (q, rw (view_of_none q k e) refl, refl, v, missing q k j e)
    | inr (info, e) ↦
        rw (e, get, erase, unlink_lem q k info v e)
          (
            unlinked k info q,
            rw (view_of_find q k info v e) refl,
            refl,
            unlinked-Inv q k info v e,
            view-unlinked q k info j v e,
          )
  ]
