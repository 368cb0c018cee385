-- ===== src/ThreadQueue/Refines.antt =====
-- A `TC_ThreadQueue` carries out every call as the sequence that it counts, whatever the other
-- threads do while a caller waits.
use learn_tars.Base.{
  ℕ, ◌+◌, ◌<◌, ◌^◌, ◌≡◌, refl, ap, ◌∙◌, Bool, true, false, List, [], ◌∷◌, ◌++◌, append_assoc,
  append-nil, none, some, length, length-append, arith, if◌then◌else◌,
}
use learn_tars.ThreadQueue.{
  ThreadQueue, is_empty, push_back, push_back_all, push_front, push_front_all, clear, take_front,
  swap_now, await, pop_front, swap,
}
use mathlib.Core.List.{reverse, reverse_aux}
use learn_tars.ThreadQueue.Sequence.{
  Call, push, push_all, unshift, unshift_all, pop, exchange, reset, counted, answer_pop,
  answer_swap, on_counted, perform, after_wait, seq_pop, seq_exchange, on_sequence, run,
  run_sequence, Fits,
}

module _ {ℓ} {A : Type ℓ} where
  push_back-counted :
      (t : A) (xs : List A)
      → length xs + 1 < 2 ^ 64
      → push_back t (counted xs) ≡ counted (xs ++ t ∷ [])
  unfolding push_back
  push_back-counted t xs s = let l = length-append xs (t ∷ []) in ground (arith, l)

  push_front-counted :
      (t : A) (xs : List A) → length xs + 1 < 2 ^ 64 → push_front t (counted xs) ≡ counted (t ∷ xs)
  unfolding push_front
  push_front-counted t xs s = ground arith

  push_back_all-counted :
      (ts xs : List A)
      → length xs + length ts < 2 ^ 64
      → push_back_all ts (counted xs) ≡ counted (xs ++ ts)
  unfolding push_back_all
  push_back_all-counted [] xs s = rw append-nil refl
  push_back_all-counted (t ∷ ts) xs s =
      let l = length-append xs (t ∷ []) in
      rw (push_back-counted t xs (omega arith)) (
        push_back_all-counted ts (xs ++ t ∷ []) (omega (arith, l))
        ∙ ap counted (append_assoc xs (t ∷ []) ts))

  push_front_all-counted :
      (ts xs : List A)
      → length xs + length ts < 2 ^ 64
      → push_front_all ts (counted xs) ≡ counted (reverse_aux ts xs)
  unfolding push_front_all
  push_front_all-counted [] xs s = refl
  push_front_all-counted (t ∷ ts) xs s =
      rw (push_front-counted t xs (omega arith)) (push_front_all-counted ts (t ∷ xs) (omega arith))

  reverse_aux-append : (ts xs ys : List A) → reverse_aux ts (xs ++ ys) ≡ reverse_aux ts xs ++ ys
  reverse_aux-append [] xs ys = refl
  reverse_aux-append (t ∷ ts) xs ys = reverse_aux-append ts (t ∷ xs) ys

  length-reverse_aux : (ts xs : List A) → length (reverse_aux ts xs) ≡ length ts + length xs
  length-reverse_aux [] xs = omega arith
  length-reverse_aux (t ∷ ts) xs = omega (arith, length-reverse_aux ts (t ∷ xs))

  take_front-seq_pop :
      (go : Bool) (xs : List A)
      → length xs < 2 ^ 64
      → answer_pop (if go then take_front (counted xs) else some (none, counted xs))
        ≡ on_counted (seq_pop (go, xs))
  unfolding take_front seq_pop
  take_front-seq_pop true [] s = refl
  take_front-seq_pop true (x ∷ xs) s = ground arith
  take_front-seq_pop false [] s = refl
  take_front-seq_pop false (x ∷ xs) s = refl

  swap_now-seq_exchange :
      (go : Bool) (out xs : List A)
      → answer_swap (if go then swap_now out (counted xs) else (false, out, counted xs))
        ≡ on_counted (seq_exchange out (go, xs))
  unfolding swap_now seq_exchange
  swap_now-seq_exchange true out [] = refl
  swap_now-seq_exchange true out (x ∷ xs) = refl
  swap_now-seq_exchange false out [] = refl
  swap_now-seq_exchange false out (x ∷ xs) = refl

  -- The other threads leave what `meanwhile` says, counted, and no queue outgrows its counter.
  pub record Agree (others : ℕ → ThreadQueue A → Bool × ThreadQueue A)
      (meanwhile : ℕ → List A → Bool × List A) : Type ℓ where
    pub others_eq :
        (ms : ℕ) (xs : List A)
        → others ms (counted xs) ≡ ((meanwhile ms xs).0, counted (meanwhile ms xs).1)
    pub others_small : (ms : ℕ) (xs : List A) → length (meanwhile ms xs).1 < 2 ^ 64

  module _ {others : ℕ → ThreadQueue A → Bool × ThreadQueue A}
      {meanwhile : ℕ → List A → Bool × List A} (agree : Agree others meanwhile) where
    await-counted :
        (ms : ℕ) (xs : List A)
        → await others ms (counted xs)
          ≡ ((after_wait meanwhile ms xs).0, counted (after_wait meanwhile ms xs).1)
    unfolding await is_empty after_wait
    await-counted ms [] = rw agree.others_eq (ground arith)
    await-counted ms (x ∷ xs) = refl

    after_wait-small :
        (ms : ℕ) (xs : List A) → length xs < 2 ^ 64 → length (after_wait meanwhile ms xs).1 < 2 ^ 64
    unfolding after_wait
    after_wait-small ms [] s = let h = agree.others_small ms [] in ground arith
    after_wait-small ms (x ∷ xs) s = s

    -- A call on the queue is the call on the sequence that it counts.
    pub perform-on_sequence :
        (c : Call A) (xs : List A)
        → length xs < 2 ^ 64
        → length (on_sequence meanwhile c xs).1 < 2 ^ 64
        → perform others c (counted xs) ≡ on_counted (on_sequence meanwhile c xs)
    unfolding perform on_sequence pop_front swap clear
    perform-on_sequence (push t) xs s f =
        let l = length-append xs (t ∷ []) in rw (push_back-counted t xs (omega (arith, l))) refl
    perform-on_sequence (push_all ts) xs s f =
        let l = length-append xs ts in rw (push_back_all-counted ts xs (omega (arith, l))) refl
    perform-on_sequence (unshift t) xs s f = rw (push_front-counted t xs (omega arith)) refl
    perform-on_sequence (unshift_all ts) xs s f =
        let l = length-reverse_aux ts [] in
        let k = length-append (reverse ts) xs in
        rw (push_front_all-counted ts xs (omega (arith, l, k)), reverse_aux-append ts [] xs) refl
    perform-on_sequence (pop ms) xs s f = rw (await-counted ms xs) (
        take_front-seq_pop (after_wait meanwhile ms xs).0 (after_wait meanwhile ms xs).1
          (after_wait-small ms xs s))
    perform-on_sequence (exchange out ms) xs s f =
        rw (await-counted ms xs)
          (swap_now-seq_exchange (after_wait meanwhile ms xs).0 out (after_wait meanwhile ms xs).1)
    perform-on_sequence reset xs s f = refl

    -- From a queue that counts fewer than 2^64 elements, every series of calls, none of which
    -- leaves 2^64 elements or more, is answered and ends as it does on the sequence, without a
    -- failed assertion, if the other threads change queue and sequence alike.
    pub run-run_sequence :
        (cs : List (Call A)) (xs : List A)
        → length xs < 2 ^ 64
        → Fits meanwhile cs xs
        → run others cs (counted xs)
          ≡ some ((run_sequence meanwhile cs xs).0, counted (run_sequence meanwhile cs xs).1)
    unfolding run run_sequence Fits
    run-run_sequence [] xs s f = refl
    run-run_sequence (c ∷ cs) xs s (f, fs) =
        let ih = run-run_sequence cs (on_sequence meanwhile c xs).1 f fs in
        rw (perform-on_sequence c xs s f, ih) refl
