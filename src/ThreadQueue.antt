-- ===== src/ThreadQueue.antt =====
-- `TC_ThreadQueue` (util/include/tc_thread_queue.h): a queue that threads share. Every operation
-- holds the lock from its start to its end, so that it is a step of its own; only a wait gives the
-- lock back, and what the other threads do meanwhile is a parameter.
pub mod Refines
pub mod Sequence
mod Tests
use learn_tars.Base.{
  ℕ, ◌-◌, ◌^◌, Bool, true, false, List, [], ◌∷◌, ◌++◌, Option, none, some, length, ltb, ◌==◌,
  if◌then◌else◌, assert_that, ◌>>=◌, ◌>>◌,
}
use learn_tars.Base.Words.{add64, sub64}

pub record ThreadQueue {ℓ} (A : Type ℓ) : Type ℓ where
  pub queue : List A
  pub size : ℕ

-- `(size_t)-1`, which asks for a wait without end.
abbrev pub forever : ℕ
forever = 2 ^ 64 - 1

module _ {ℓ} {A : Type ℓ} where
  abbrev pub new_queue : ThreadQueue A
  new_queue = record { queue = []; size = 0 }

  unfoldable pub is_empty : ThreadQueue A → Bool
  is_empty q = elim q.queue [ [] ↦ true | x ∷ xs ↦ false ]

  unfoldable pub push_back : A → ThreadQueue A → ThreadQueue A
  push_back t q = record { queue = q.queue ++ t ∷ []; size = add64 q.size 1 }

  unfoldable pub push_back_all : List A → ThreadQueue A → ThreadQueue A
  push_back_all [] q = q
  push_back_all (t ∷ ts) q = push_back_all ts (push_back t q)

  unfoldable pub push_front : A → ThreadQueue A → ThreadQueue A
  push_front t q = record { queue = t ∷ q.queue; size = add64 q.size 1 }

  unfoldable pub push_front_all : List A → ThreadQueue A → ThreadQueue A
  push_front_all [] q = q
  push_front_all (t ∷ ts) q = push_front_all ts (push_front t q)

  unfoldable pub clear : ThreadQueue A → ThreadQueue A
  clear q = record q { queue = []; size = 0 }

  -- The front of the queue as it stands, and the queue without it.
  unfoldable pub take_front : ThreadQueue A → Option (Option A × ThreadQueue A)
  take_front q = elim q.queue [
    | [] ↦ some (none, q)
    | t ∷ ts ↦ do
      assert_that (ltb 0 q.size)
      some (some t, record q { queue = ts; size = sub64 q.size 1 })
  ]

  -- The caller's queue receives the contents, and the queue what the caller's had.
  unfoldable pub swap_now : List A → ThreadQueue A → Bool × List A × ThreadQueue A
  swap_now out q = elim q.queue [
    | [] ↦ (false, out, q)
    | t ∷ ts ↦ (true, t ∷ ts, record q { queue = out; size = length out })
  ]

  -- `others ms q` is how a wait of `ms` milliseconds ends: whether a notification ended it, and the
  -- queue that the other threads left.
  module _ (others : ℕ → ThreadQueue A → Bool × ThreadQueue A) where
    -- Whether to look at the queue again, and the queue then.
    unfoldable pub await : ℕ → ThreadQueue A → Bool × ThreadQueue A
    await ms q =
        let (notified, q') = others ms q in
        if is_empty q
        then if ms == 0 then (false, q) else if ms == forever then (true, q') else (notified, q')
        else (true, q)

    unfoldable pub pop_front : ℕ → ThreadQueue A → Option (Option A × ThreadQueue A)
    pop_front ms q = let (go, q') = await ms q in if go then take_front q' else some (none, q')

    unfoldable pub swap : List A → ℕ → ThreadQueue A → Bool × List A × ThreadQueue A
    swap out ms q = let (go, q') = await ms q in if go then swap_now out q' else (false, out, q')
