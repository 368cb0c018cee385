-- ===== src/TimeoutQueue/Timeouts.antt =====
-- `timeout()` of `TC_TimeoutQueueNew`: which entries leave, and that the others stay.
use learn_tars.Base.{
  ℕ, ◌≤◌, ◌<◌, ◌≡◌, refl, ap, ◌∙◌, inl, inr, Bool, [], ◌∷◌, Option, none, some, arith, leb, ◌==◌,
  if◌then◌else◌, Option-cases, Bool-cases, ◌>>=◌, dec_lt, lt→ltb, not_lt→ltb, ==_iff, le→leb,
  bind_through,
}
use native.Mathlib.Nat.{le_refl}
use learn_tars.Base.Keyed.{Keyed, find, without, Unique}
use learn_tars.Base.Keyed.Laws.{without_head, find_head}
use learn_tars.TimeoutQueue.{PtrInfo, TimeNode, TimeoutQueue, release, expire, timeout}
use learn_tars.TimeoutQueue.Times.{Sorted, due_of_find}
use learn_tars.TimeoutQueue.Invariant.{Inv}
use learn_tars.TimeoutQueue.Unlink.{unlinked, unlinked-Inv, release_lem}
use learn_tars.TimeoutQueue.View.{view, view-unlinked}

module _ {A : Type 0} where
  -- The entry of the first node of `_time`.
  pub record First (q : TimeoutQueue A) (i : ℕ) (t : TimeNode) (ts : Keyed TimeNode) : Type 0 where
    pub info : PtrInfo A
    pub found : find t.data_iter q.entries ≡ some info
    pub points : info.time_iter ≡ i
    pub rest : without i q.times ≡ ts
    pub node : find i q.times ≡ some t

  pub first_lem :
      (q : TimeoutQueue A) (i : ℕ) (t : TimeNode) (ts : Keyed TimeNode)
      → Inv q
      → q.times ≡ (i, t) ∷ ts
      → First q i t ts
  first_lem q i t ts v e = elim (Option-cases (find t.data_iter q.entries)) [
    | inl n ↦ absurd (ground (arith, n, v.timed i t node))
    | inr (info, n) ↦ record {
      info = info;
      found = n;
      points = ground (arith, n, v.timed i t node);
      rest = rw e (without_head i t ts unique.0);
      node = node;
    }
  ]
    where
      node : find i q.times ≡ some t
      node = rw e (find_head i t ts)

      unique : Unique ((i, t) ∷ ts)
      unique = rw e at v.times_unique

  -- Releasing that entry and dropping the node leaves the queue without the entry.
  pub first_step :
      (q : TimeoutQueue A) (i : ℕ) (t : TimeNode) (ts : Keyed TimeNode) (v : Inv q)
      (e : q.times ≡ (i, t) ∷ ts)
      → (release t.data_iter q >>= λ q'. some (record q' { times = ts }))
        ≡ some (unlinked t.data_iter (first_lem q i t ts v e).info q)
  unfolding unlinked
  first_step q i t ts v e =
      let f = first_lem q i t ts v e in
      rw (release_lem q t.data_iter f.info v f.found, f.points, f.rest) refl

  -- What is left of an entry at the time `now`.
  unfoldable pub unexpired : ℕ → Option (A × Bool × ℕ) → Option (A × Bool × ℕ)
  unexpired now none = none
  unexpired now (some e) = if leb e.2 now then none else some e

  pub none_expired :
      (q : TimeoutQueue A) (now : ℕ)
      → ((i : ℕ) (t : TimeNode) → find i q.times ≡ some t → now < t.due)
      → (j : ℕ) → view q j ≡ unexpired now (view q j)
  unfolding view unexpired
  none_expired q now late j = elim (Option-cases (find j q.entries)) [
    | inl e ↦ ground (arith, e)
    | inr (info, e) ↦ elim (Option-cases (find info.time_iter q.times)) [
      | inl g ↦ ground (arith, e, g)
      | inr (t, g) ↦ ground (arith, e, g, late info.time_iter t g)
    ]
  ]

  pub view-first :
      (q : TimeoutQueue A) (i : ℕ) (t : TimeNode) (ts : Keyed TimeNode) (f : First q i t ts)
      → view q t.data_iter ≡ some (f.info.ptr, f.info.has_send, t.due)
  unfolding view
  view-first q i t ts f = rw (f.found, f.points, f.node) refl

  unexpired_step :
      (q : TimeoutQueue A) (now i : ℕ) (t : TimeNode) (ts : Keyed TimeNode) (f : First q i t ts)
      (j : ℕ)
      → t.due ≤ now
      → unexpired now (if t.data_iter == j then none else view q j) ≡ unexpired now (view q j)
  unfolding unexpired
  unexpired_step q now i t ts f j h = elim (Bool-cases (t.data_iter == j)) [
    | inr e ↦ rw e refl
    | inl e ↦
        let same : t.data_iter ≡ j = (==_iff _ _).0 e in
        rw (e, ← same, view-first q i t ts f, le→leb _ _ h) refl
  ]

  pub no_node :
      (q : TimeoutQueue A) {now : ℕ}
      → q.times ≡ []
      → (i : ℕ) (t : TimeNode) → find i q.times ≡ some t
      → now < t.due
  unfolding find
  no_node q e i t h = absurd (cc (h, ap (find i) e))

  first_times :
      (q : TimeoutQueue A) (i : ℕ) (t : TimeNode) (ts : Keyed TimeNode) (v : Inv q)
      (e : q.times ≡ (i, t) ∷ ts)
      → (unlinked t.data_iter (first_lem q i t ts v e).info q).times ≡ ts
  unfolding unlinked
  first_times q i t ts v e = let f = first_lem q i t ts v e in rw f.points f.rest

  -- No node is due before the first.
  pub first_due :
      (q : TimeoutQueue A) (i : ℕ) (t : TimeNode) (ts : Keyed TimeNode)
      → Inv q
      → q.times ≡ (i, t) ∷ ts
      → (k : ℕ) (s : TimeNode) → find k q.times ≡ some s
      → t.due ≤ s.due
  unfolding find
  first_due q i t ts v e k s h =
      due_of_find t.due k s ((i, t) ∷ ts) (le_refl t.due, sorted.0) (rw e at h)
    where
      sorted : Sorted ((i, t) ∷ ts)
      sorted = rw e at v.sorted

  expire-view :
      (now : ℕ) (ts : Keyed TimeNode) (q : TimeoutQueue A)
      → Inv q
      → q.times ≡ ts
      → (q' : TimeoutQueue A) × (expire now ts q ≡ some q')
        × Inv q'
        × ((j : ℕ) → view q' j ≡ unexpired now (view q j))
  unfolding expire
  expire-view now [] q v e = (q, refl, v, none_expired q now (no_node q e))
  expire-view now ((i, t) ∷ ts) q v e = elim (dec_lt now t.due) [
    | yes p ↦ (
      q,
      rw (lt→ltb _ _ p) refl,
      v,
      none_expired q now (λ k s h. omega (arith, first_due q i t ts v e k s h)),
    )
    | no p ↦
        let f = first_lem q i t ts v e in
        let r =
          expire-view now ts (unlinked t.data_iter f.info q)
            (unlinked-Inv q t.data_iter f.info v f.found) (first_times q i t ts v e) in
        (
          r.0,
          rw (not_lt→ltb _ _ p)
              (bind_through _ _ (expire now ts) _ (first_step q i t ts v e) ∙ r.1),
          r.2,
          λ j.
              r.3 j
              ∙ rw (view-unlinked q t.data_iter f.info j v f.found)
                  (unexpired_step q now i t ts f j (omega arith)),
        )
  ]

  -- Under the invariant, `timeout()` never goes through a dangling iterator. It takes out the
  -- entries whose deadline has come, leaves every other entry as it was, and keeps the invariant.
  pub timeout-view :
      (q : TimeoutQueue A) (now : ℕ)
      → Inv q
      → (q' : TimeoutQueue A) × (timeout now q ≡ some q')
        × Inv q'
        × ((j : ℕ) → view q' j ≡ unexpired now (view q j))
  unfolding timeout
  timeout-view q now v = expire-view now q.times q v refl
