-- ===== src/TimeoutQueue/Invariant.antt =====
-- The three containers of `TC_TimeoutQueueNew` fit together: every iterator points to the node that
-- points back to it.
use learn_tars.Base.{ℕ, suc, ◌≤◌, ◌<◌, ◌≡◌, inl, inr, Bool, false, none, some, arith, Option-cases}
use mathlib.Core.Option
use learn_tars.Base.Keyed.{find, Unique}
use learn_tars.TimeoutQueue.{PtrInfo, TimeNode, TimeoutQueue, push, init}
use learn_tars.TimeoutQueue.Times.{Sorted, insert_time-Sorted, find-insert_time, insert_time-Unique}

module _ {A : Type 0} where
  -- What a node of `_send` needs of the entry that it points to.
  abbrev pub send_link : PtrInfo A → Bool × ℕ
  send_link info = (info.has_send, info.send_iter)

  pub record Inv (q : TimeoutQueue A) : Type 0 where
    pub entries_unique : Unique q.entries
    pub times_unique : Unique q.times
    pub sends_unique : Unique q.sends
    pub entry_timed :
        (k : ℕ) (info : PtrInfo A)
        → find k q.entries ≡ some info
        → Option.map (λ t. t.data_iter) (find info.time_iter q.times) ≡ some k
    pub entry_queued :
        (k : ℕ) (info : PtrInfo A)
        → find k q.entries ≡ some info
        → info.has_send ≡ false
        → find info.send_iter q.sends ≡ some k
    pub timed :
        (i : ℕ) (t : TimeNode)
        → find i q.times ≡ some t
        → Option.map (λ info. info.time_iter) (find t.data_iter q.entries) ≡ some i
    pub queued :
        (i k : ℕ)
        → find i q.sends ≡ some k
        → Option.map send_link (find k q.entries) ≡ some (false, i)
    pub times_old : (i : ℕ) (t : TimeNode) → find i q.times ≡ some t → i < q.fresh
    pub sends_old : (i k : ℕ) → find i q.sends ≡ some k → i < q.fresh
    pub sorted : Sorted q.times

  pub init-Inv : Inv init
  unfolding init find
  init-Inv = record {
    entries_unique = tt;
    times_unique = tt;
    sends_unique = tt;
    entry_timed = λ k info h. cc;
    entry_queued = λ k info h. cc;
    timed = λ i t h. cc;
    queued = λ i k h. cc;
    times_old = λ i t h. cc;
    sends_old = λ i k h. cc;
    sorted = tt;
  }

  pub fresh_time : (q : TimeoutQueue A) (i : ℕ) → Inv q → q.fresh ≤ i → find i q.times ≡ none
  fresh_time q i v h = elim (Option-cases (find i q.times)) [
    | inl e ↦ e
    | inr (t, e) ↦ absurd (omega (arith, v.times_old i t e))
  ]

  fresh_send : (q : TimeoutQueue A) (i : ℕ) → Inv q → q.fresh ≤ i → find i q.sends ≡ none
  fresh_send q i v h = elim (Option-cases (find i q.sends)) [
    | inl e ↦ e
    | inr (k, e) ↦ absurd (omega (arith, v.sends_old i k e))
  ]

  -- `push` keeps the invariant, under a new id and under one in use.
  pub push-Inv :
      (q : TimeoutQueue A) (ptr : A) (k due : ℕ) (has_send : Bool)
      → Inv q
      → Inv (push ptr k due has_send q).1
  unfolding push find
  push-Inv q ptr k due has_send v = elim (Option-cases (find k q.entries)) [
    | inr (info, e) ↦ rw (e, push) v
    | inl e ↦
        rw (e, push)
          (record {
            entries_unique = (e, v.entries_unique);
            times_unique =
                insert_time-Unique _ _ q.times (fresh_time q q.fresh v (omega arith))
                  v.times_unique;
            sends_unique = ground (arith, fresh_send q (suc q.fresh) v, v.sends_unique);
            entry_timed = λ j info h. ground (
              arith,
              v.entry_timed j info,
              find-insert_time q.fresh info.time_iter (record { due = due; data_iter = k }) q.times
                  (fresh_time q q.fresh v (omega arith)),
              fresh_time q info.time_iter v,
            );
            entry_queued =
                λ j info h g. ground (arith, v.entry_queued j info, fresh_send q info.send_iter v);
            timed = λ i t h. ground (
              arith,
              v.timed i t,
              find-insert_time q.fresh i (record { due = due; data_iter = k }) q.times
                  (fresh_time q q.fresh v (omega arith)),
            );
            queued = λ i j h. ground (arith, v.queued i j, fresh_send q (suc q.fresh) v);
            times_old = λ i t h. ground (
              arith,
              v.times_old i t,
              find-insert_time q.fresh i (record { due = due; data_iter = k }) q.times
                  (fresh_time q q.fresh v (omega arith)),
            );
            sends_old = λ i j h. ground (arith, v.sends_old i j);
            sorted = insert_time-Sorted _ _ q.times v.sorted;
          })
  ]
