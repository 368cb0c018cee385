-- ===== src/TimeoutQueue/FirstTimeout.antt =====
-- `timeout(T&)` of `TC_TimeoutQueueNew`: the first entry that has expired.
use learn_tars.Base.{
  ℕ, ◌≤◌, ◌≡◌, refl, sym, ◌⊎◌, inl, inr, Bool, [], ◌∷◌, Option, none, some, arith, ◌==◌,
  if◌then◌else◌, Option-cases, dec_lt, lt→ltb, not_lt→ltb, bind_through,
}
use learn_tars.Base.Keyed.{Keyed, find}
use learn_tars.TimeoutQueue.{TimeNode, TimeoutQueue, release, timeout_first, timeout_one}
use learn_tars.TimeoutQueue.Invariant.{Inv}
use learn_tars.TimeoutQueue.Unlink.{unlinked, unlinked-Inv}
use learn_tars.TimeoutQueue.View.{view, view-unlinked}
use learn_tars.TimeoutQueue.Timeouts.{
  first_lem, first_step, none_expired, view-first, no_node, first_due, unexpired,
}

module _ {A : Type 0} where
  -- Entry `k`, of value `a`, has expired and has the earliest deadline, and alone is gone
  -- afterwards.
  pub record TakesFirst (now : ℕ) (q : TimeoutQueue A) (k : ℕ) (a : A) (q' : TimeoutQueue A)
      : Type 0 where
    pub due : ℕ
    pub has_send : Bool
    pub shown : view q k ≡ some (a, has_send, due)
    pub expired : due ≤ now
    pub earliest : (j : ℕ) (b : A) (s : Bool) (d : ℕ) → view q j ≡ some (b, s, d) → due ≤ d
    pub others : (j : ℕ) → view q' j ≡ (if k == j then none else view q j)
    pub keeps : Inv q'

  time_of_view :
      (q : TimeoutQueue A) (j : ℕ) (b : A) (s : Bool) (d : ℕ)
      → view q j ≡ some (b, s, d)
      → (i : ℕ) × (n : TimeNode) × (find i q.times ≡ some n) × (n.due ≡ d)
  unfolding view
  time_of_view q j b s d g = elim (Option-cases (find j q.entries)) [
    | inl e ↦ absurd (ground (arith, e, g))
    | inr (info, e) ↦ elim (Option-cases (find info.time_iter q.times)) [
      | inl h ↦ absurd (ground (arith, e, h, g))
      | inr (n, h) ↦ (info.time_iter, n, h, ground (arith, e, h, g))
    ]
  ]

  taken :
      (q : TimeoutQueue A) (now i : ℕ) (t : TimeNode) (ts : Keyed TimeNode) (v : Inv q)
      (e : q.times ≡ (i, t) ∷ ts)
      → t.due ≤ now
      → let info = (first_lem q i t ts v e).info in
        TakesFirst now q t.data_iter info.ptr (unlinked t.data_iter info q)
  taken q now i t ts v e h =
      let f = first_lem q i t ts v e in
      record {
        due = t.due;
        has_send = f.info.has_send;
        shown = view-first q i t ts f;
        expired = h;
        earliest = λ j b s d g.
            let (k, n, found, same) = time_of_view q j b s d g in
            rw (← same) (first_due q i t ts v e k n found);
        others = λ j. view-unlinked q t.data_iter f.info j v f.found;
        keeps = unlinked-Inv q t.data_iter f.info v f.found;
      }

  abbrev FirstOut : ℕ → TimeoutQueue A → Option (Option A × TimeoutQueue A) → Type 0
  FirstOut now q r =
      ((r ≡ some (none, q)) × ((j : ℕ) → unexpired now (view q j) ≡ view q j))
      ⊎ ((k : ℕ) × (a : A) × (q' : TimeoutQueue A) × (r ≡ some (some a, q'))
          × TakesFirst now q k a q')

  timeout_first_lem :
      (q : TimeoutQueue A) (now : ℕ) (ns : Keyed TimeNode)
      → Inv q
      → q.times ≡ ns
      → FirstOut now q (timeout_first now ns q)
  unfolding timeout_first
  timeout_first_lem q now [] v e = inl (refl, λ j. sym (none_expired q now (no_node q e) j))
  timeout_first_lem q now ((i, t) ∷ ts) v e = elim (dec_lt now t.due) [
    | yes p ↦ inl (
      rw (lt→ltb _ _ p) refl,
      λ j. sym (none_expired q now (λ k s h. omega (arith, first_due q i t ts v e k s h)) j),
    )
    | no p ↦
        let f = first_lem q i t ts v e in
        inr (
          t.data_iter,
          f.info.ptr,
          unlinked t.data_iter f.info q,
          rw (not_lt→ltb _ _ p, f.found)
              (bind_through (release t.data_iter q) (λ q'. record q' { times = ts })
                (λ q''. some (some f.info.ptr, q'')) _ (first_step q i t ts v e)),
          taken q now i t ts v e (omega arith),
        )
  ]

  -- Under the invariant, `timeout(t)` never goes through a dangling iterator. It answers false, and
  -- changes nothing, when no entry has expired; otherwise it hands out and takes out an expired
  -- entry that no other entry precedes in its deadline.
  pub timeout_one_lem :
      (q : TimeoutQueue A) (now : ℕ)
      → Inv q
      → ((timeout_one now q ≡ some (none, q)) × ((j : ℕ) → unexpired now (view q j) ≡ view q j))
        ⊎ ((k : ℕ) × (a : A) × (q' : TimeoutQueue A) × (timeout_one now q ≡ some (some a, q'))
            × TakesFirst now q k a q')
  unfolding timeout_one
  timeout_one_lem q now v = timeout_first_lem q now q.times v refl
