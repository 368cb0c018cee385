-- ===== src/TimeoutQueue/Unlink.antt =====
-- Taking an entry out of a `TC_TimeoutQueueNew`: no erase goes through a dangling iterator, and
-- what is left fits together.
use learn_tars.Base.{ℕ, ◌≡◌, some, arith, if◌then◌else◌}
use mathlib.Core.Option
use learn_tars.Base.Keyed.{Keyed, find, without}
use learn_tars.Base.Keyed.Laws.{find-without, without-Unique}
use learn_tars.TimeoutQueue.{PtrInfo, TimeoutQueue, erase_node, release, unlink}
use learn_tars.TimeoutQueue.Times.{without-Sorted}
use learn_tars.TimeoutQueue.Invariant.{Inv}

pub erase_node-some :
    {B : Type 0} (i : ℕ) (l : Keyed B) (b : B)
    → find i l ≡ some b
    → erase_node i l ≡ some (without i l)
unfolding erase_node
erase_node-some i l b h = rw h

pub erase_node-is_some :
    {B C : Type 0} (f : B → C) (i : ℕ) (l : Keyed B) (c : C)
    → Option.map f (find i l) ≡ some c
    → erase_node i l ≡ some (without i l)
unfolding erase_node
erase_node-is_some f i l c h = ground arith

module _ {A : Type 0} where
  -- The queue without entry `k`, whose `PtrInfo` is `info`.
  unfoldable pub unlinked : ℕ → PtrInfo A → TimeoutQueue A → TimeoutQueue A
  unlinked k info q = record q {
    entries = without k q.entries;
    times = without info.time_iter q.times;
    sends = if info.has_send then q.sends else without info.send_iter q.sends;
  }

  pub release_lem :
      (q : TimeoutQueue A) (k : ℕ) (info : PtrInfo A)
      → Inv q
      → find k q.entries ≡ some info
      → release k q
        ≡ some (record q {
          entries = without k q.entries;
          sends = if info.has_send then q.sends else without info.send_iter q.sends;
        })
  unfolding release
  release_lem q k info v h =
      rw h (ground (arith, erase_node-some info.send_iter q.sends k, v.entry_queued k info h))

  pub unlink_lem :
      (q : TimeoutQueue A) (k : ℕ) (info : PtrInfo A)
      → Inv q
      → find k q.entries ≡ some info
      → unlink k info q ≡ some (unlinked k info q)
  unfolding unlink release unlinked
  unlink_lem q k info v h =
      rw (erase_node-is_some _ info.time_iter q.times k (v.entry_timed k info h), h)
        (ground (arith, erase_node-some info.send_iter q.sends k, v.entry_queued k info h))

  pub unlinked-Inv :
      (q : TimeoutQueue A) (k : ℕ) (info : PtrInfo A)
      → Inv q
      → find k q.entries ≡ some info
      → Inv (unlinked k info q)
  unfolding unlinked
  unlinked-Inv q k info v h = record {
    entries_unique = without-Unique k q.entries v.entries_unique;
    times_unique = without-Unique info.time_iter q.times v.times_unique;
    sends_unique =
        ground (arith, without-Unique info.send_iter q.sends v.sends_unique, v.sends_unique);
    entry_timed = λ j other g. ground (
      arith,
      v.entry_timed j other,
      v.entry_timed k info h,
      find-without k j q.entries,
      find-without info.time_iter other.time_iter q.times,
    );
    entry_queued = λ j other g s. ground (
      arith,
      v.entry_queued j other,
      v.entry_queued k info h,
      find-without k j q.entries,
      find-without info.send_iter other.send_iter q.sends,
    );
    timed = λ i t g. ground (
      arith,
      v.timed i t,
      h,
      find-without k t.data_iter q.entries,
      find-without info.time_iter i q.times,
    );
    queued = λ i j g.
        ground (
          arith,
          v.queued i j,
          h,
          find-without k j q.entries,
          find-without info.send_iter i q.sends,
        );
    times_old = λ i t g. ground (arith, v.times_old i t, find-without info.time_iter i q.times);
    sends_old = λ i j g. ground (arith, v.sends_old i j, find-without info.send_iter i q.sends);
    sorted = without-Sorted info.time_iter q.times v.sorted;
  }
