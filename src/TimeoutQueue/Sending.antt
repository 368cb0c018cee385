-- ===== src/TimeoutQueue/Sending.antt =====
-- The send list of `TC_TimeoutQueueNew`: the requests that were not sent yet, the oldest at its
-- back.
use learn_tars.Base.{
  ℕ, ◌≡◌, refl, sym, ◌⊎◌, inl, inr, Bool, true, false, none, some, arith, ◌==◌, if◌then◌else◌,
  Option-cases,
}
use mathlib.Core.Option
use learn_tars.Base.Keyed.{find, without, update, last, drop_last}
use learn_tars.Base.Keyed.Laws.{
  find-without, find-update, find-last, without-Unique, update-Unique, drop_last-without,
}
use learn_tars.TimeoutQueue.{PtrInfo, TimeoutQueue, mark_sent, get_send, pop_send}
use learn_tars.TimeoutQueue.Invariant.{Inv}
use learn_tars.TimeoutQueue.Unlink.{erase_node-is_some, unlinked, unlinked-Inv}
use learn_tars.TimeoutQueue.View.{view, view-unlinked}

module _ {A : Type 0} where
  -- The entry at the back of the send list.
  record Back (q : TimeoutQueue A) (i k : ℕ) : Type 0 where
    info : PtrInfo A
    found : find k q.entries ≡ some info
    unsent : info.has_send ≡ false
    points : info.send_iter ≡ i
    node : find i q.sends ≡ some k

  back_lem : (q : TimeoutQueue A) (i k : ℕ) → Inv q → last q.sends ≡ some (i, k) → Back q i k
  back_lem q i k v e = elim (Option-cases (find k q.entries)) [
    | inl n ↦ absurd (ground (arith, n, v.queued i k node))
    | inr (info, n) ↦ record {
      info = info;
      found = n;
      unsent = ground (arith, n, v.queued i k node);
      points = ground (arith, n, v.queued i k node);
      node = node;
    }
  ]
    where
      node : find i q.sends ≡ some k
      node = find-last q.sends i k v.sends_unique e

  view-back :
      (q : TimeoutQueue A) (i k : ℕ) (b : Back q i k)
      → Inv q
      → (due : ℕ) × (view q k ≡ some (b.info.ptr, false, due))
  unfolding view
  view-back q i k b v = elim (Option-cases (find b.info.time_iter q.times)) [
    | inl e ↦ absurd (ground (arith, e, v.entry_timed k b.info b.found))
    | inr (t, e) ↦ (t.due, rw (b.found, e, b.unsent) refl)
  ]

  get_send-back :
      (q : TimeoutQueue A) (i k : ℕ) (b : Back q i k)
      → last q.sends ≡ some (i, k)
      → get_send q ≡ some (some b.info.ptr)
  unfolding get_send
  get_send-back q i k b e = rw (e, get_send, b.found, b.unsent) refl

  get_send-empty : (q : TimeoutQueue A) → last q.sends ≡ none → get_send q ≡ some none
  unfolding get_send
  get_send-empty q e = rw (e, get_send) refl

  -- Under the invariant, the assertion of `getSend` holds. On an empty send list it answers false;
  -- otherwise it hands out the entry at the back of the list, which was not sent.
  pub get_send_lem :
      (q : TimeoutQueue A)
      → Inv q
      → ((last q.sends ≡ none) × (get_send q ≡ some none))
        ⊎ ((i k : ℕ) × (a : A) × (due : ℕ) × (last q.sends ≡ some (i, k))
            × (get_send q ≡ some (some a))
            × (view q k ≡ some (a, false, due)))
  get_send_lem q v = elim (Option-cases (last q.sends)) [
    | inl e ↦ inl (e, get_send-empty q e)
    | inr ((i, k), e) ↦
        let b = back_lem q i k v e in
        let (due, shown) = view-back q i k b v in
        inr (i, k, b.info.ptr, due, e, get_send-back q i k b e, shown)
  ]

  pop_send-deleted :
      (q : TimeoutQueue A) (i k : ℕ) (v : Inv q) (e : last q.sends ≡ some (i, k))
      → pop_send true q ≡ some (unlinked k (back_lem q i k v e).info q)
  unfolding pop_send unlinked
  pop_send-deleted q i k v e =
      let b = back_lem q i k v e in
      rw
        (
          e,
          b.found,
          erase_node-is_some _ b.info.time_iter q.times k (v.entry_timed k b.info b.found),
          b.unsent,
          b.points,
          drop_last-without q.sends i k v.sends_unique e,
        )
        refl

  -- The queue after `popSend(false)`.
  sent : ℕ → ℕ → TimeoutQueue A → TimeoutQueue A
  sent i k q = record q { entries = update k mark_sent q.entries; sends = without i q.sends }

  pop_send-sent :
      (q : TimeoutQueue A) (i k : ℕ) (v : Inv q)
      → last q.sends ≡ some (i, k)
      → pop_send false q ≡ some (sent i k q)
  unfolding pop_send sent
  pop_send-sent q i k v e =
      rw (e, pop_send, (back_lem q i k v e).found, drop_last-without q.sends i k v.sends_unique e)
        refl

  -- An entry after the change is one from before, with its iterators.
  before_sent :
      (q : TimeoutQueue A) (k j : ℕ) (other : PtrInfo A)
      → find j (update k mark_sent q.entries) ≡ some other
      → (old : PtrInfo A) × (find j q.entries ≡ some old)
        × (other.time_iter ≡ old.time_iter)
        × (other.send_iter ≡ old.send_iter)
  unfolding mark_sent
  before_sent q k j other g = elim (Option-cases (find j q.entries)) [
    | inl e ↦ absurd (ground (arith, e, find-update k j mark_sent q.entries))
    | inr (old, e) ↦ (
      old,
      e,
      ground (arith, e, find-update k j mark_sent q.entries),
      ground (arith, e, find-update k j mark_sent q.entries),
    )
  ]

  sent-Inv : (q : TimeoutQueue A) (i k : ℕ) → Inv q → Back q i k → Inv (sent i k q)
  unfolding sent mark_sent
  sent-Inv q i k v b = record {
    entries_unique = update-Unique k _ q.entries v.entries_unique;
    times_unique = v.times_unique;
    sends_unique = without-Unique i q.sends v.sends_unique;
    entry_timed = λ j other g.
        let (old, found, time, send) = before_sent q k j other g in
        rw time (v.entry_timed j old found);
    entry_queued = λ j other g s. ground (
      arith,
      v.entry_queued j other,
      b.node,
      find-update k j mark_sent q.entries,
      find-without i other.send_iter q.sends,
    );
    timed = λ l t g. ground (arith, v.timed l t g, find-update k t.data_iter mark_sent q.entries);
    queued = λ l j g. ground (
      arith,
      v.queued l j,
      b.found,
      b.points,
      find-update k j mark_sent q.entries,
      find-without i l q.sends,
    );
    times_old = v.times_old;
    sends_old = λ l j g. ground (arith, v.sends_old l j, find-without i l q.sends);
    sorted = v.sorted;
  }

  abbrev pub mark_view : A × Bool × ℕ → A × Bool × ℕ
  mark_view e = (e.0, true, e.2)

  view-sent :
      (q : TimeoutQueue A) (i k j : ℕ)
      → view (sent i k q) j ≡ (if k == j then Option.map mark_view (view q j) else view q j)
  unfolding view sent mark_sent
  view-sent q i k j = elim (Option-cases (find j q.entries)) [
    | inl e ↦ ground (arith, e, find-update k j mark_sent q.entries)
    | inr (info, e) ↦ elim (Option-cases (find info.time_iter q.times)) [
      | inl g ↦ ground (arith, e, g, find-update k j mark_sent q.entries)
      | inr (t, g) ↦ ground (arith, e, g, find-update k j mark_sent q.entries)
    ]
  ]

  -- Under the invariant, `popSend` on a send list that is not empty never goes through a dangling
  -- iterator. It drops the back of the list; the entry there is taken out if `del` is set, and
  -- marked as sent otherwise; every other entry stays as it was, and the invariant is kept.
  pub pop_send_lem :
      (q : TimeoutQueue A) (del : Bool) (i k : ℕ)
      → Inv q
      → last q.sends ≡ some (i, k)
      → (q' : TimeoutQueue A) × (pop_send del q ≡ some q')
        × Inv q'
        × (q'.sends ≡ drop_last q.sends)
        × ((j : ℕ)
            → view q' j ≡ (
                if k == j
                then (if del then none else Option.map mark_view (view q j))
                else view q j))
  unfolding unlinked sent
  pop_send_lem q true i k v e =
      let b = back_lem q i k v e in
      (
        unlinked k b.info q,
        pop_send-deleted q i k v e,
        unlinked-Inv q k b.info v b.found,
        rw (b.unsent, b.points) (sym (drop_last-without q.sends i k v.sends_unique e)),
        λ j. view-unlinked q k b.info j v b.found,
      )
  pop_send_lem q false i k v e = (
    sent i k q,
    pop_send-sent q i k v e,
    sent-Inv q i k v (back_lem q i k v e),
    sym (drop_last-without q.sends i k v.sends_unique e),
    view-sent q i k,
  )
