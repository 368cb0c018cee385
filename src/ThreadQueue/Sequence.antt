-- ===== src/ThreadQueue/Sequence.antt =====
-- The calls on a `TC_ThreadQueue`, and the sequence that it stands for with the same calls.
use learn_tars.Base.{
  ℕ, ◌<◌, ◌^◌, Bool, true, false, List, [], ◌∷◌, ◌++◌, Option, none, some, length, ◌==◌,
  if◌then◌else◌, ◌>>=◌,
}
use learn_tars.ThreadQueue.{
  ThreadQueue, push_back, push_back_all, push_front, push_front_all, clear, pop_front, swap,
  forever,
}
use mathlib.Core.List.{reverse}

-- The calls, and what each returns.
pub data Call {ℓ} (A : Type ℓ) : Type ℓ where
  push : A → Call A
  push_all : List A → Call A
  unshift : A → Call A
  unshift_all : List A → Call A
  pop : ℕ → Call A
  exchange : List A → ℕ → Call A
  reset : Call A

pub data Answer {ℓ} (A : Type ℓ) : Type ℓ where
  pushed : Answer A
  popped : Option A → Answer A
  exchanged : Bool → List A → Answer A

module _ {ℓ} {A : Type ℓ} where
  -- The queue that holds `xs`, and counts them.
  abbrev pub counted : List A → ThreadQueue A
  counted xs = record { queue = xs; size = length xs }

  abbrev pub answer_pop : Option (Option A × ThreadQueue A) → Option (Answer A × ThreadQueue A)
  answer_pop none = none
  answer_pop (some (t, q)) = some (popped t, q)

  abbrev pub answer_swap : Bool × List A × ThreadQueue A → Option (Answer A × ThreadQueue A)
  answer_swap (ok, out, q) = some (exchanged ok out, q)

  abbrev pub on_counted : Answer A × List A → Option (Answer A × ThreadQueue A)
  on_counted (a, xs) = some (a, counted xs)

  unfoldable pub perform :
      (ℕ → ThreadQueue A → Bool × ThreadQueue A)
      → Call A
      → ThreadQueue A
      → Option (Answer A × ThreadQueue A)
  perform others (push t) q = some (pushed, push_back t q)
  perform others (push_all ts) q = some (pushed, push_back_all ts q)
  perform others (unshift t) q = some (pushed, push_front t q)
  perform others (unshift_all ts) q = some (pushed, push_front_all ts q)
  perform others (pop ms) q = answer_pop (pop_front others ms q)
  perform others (exchange out ms) q = answer_swap (swap others out ms q)
  perform others reset q = some (pushed, clear q)

  unfoldable pub seq_pop : Bool × List A → Answer A × List A
  seq_pop (true, x ∷ xs) = (popped (some x), xs)
  seq_pop (_, xs) = (popped none, xs)

  unfoldable pub seq_exchange : List A → Bool × List A → Answer A × List A
  seq_exchange out (true, x ∷ xs) = (exchanged true (x ∷ xs), out)
  seq_exchange out (_, xs) = (exchanged false out, xs)

  -- The same on the sequence, of which `meanwhile` says how a wait ends.
  module _ (meanwhile : ℕ → List A → Bool × List A) where
    unfoldable pub after_wait : ℕ → List A → Bool × List A
    after_wait ms [] =
        if ms == 0
        then (false, [])
        else if ms == forever
        then (true, (meanwhile ms []).1)
        else meanwhile ms []
    after_wait ms (x ∷ xs) = (true, x ∷ xs)

    unfoldable pub on_sequence : Call A → List A → Answer A × List A
    on_sequence (push t) xs = (pushed, xs ++ t ∷ [])
    on_sequence (push_all ts) xs = (pushed, xs ++ ts)
    on_sequence (unshift t) xs = (pushed, t ∷ xs)
    on_sequence (unshift_all ts) xs = (pushed, reverse ts ++ xs)
    on_sequence (pop ms) xs = seq_pop (after_wait ms xs)
    on_sequence (exchange out ms) xs = seq_exchange out (after_wait ms xs)
    on_sequence reset xs = (pushed, [])

  abbrev pub add_answer :
      Answer A → Option (List (Answer A) × ThreadQueue A) → Option (List (Answer A) × ThreadQueue A)
  add_answer a none = none
  add_answer a (some (answers, q)) = some (a ∷ answers, q)

  -- A series of calls, and what each is answered.
  unfoldable pub run :
      (ℕ → ThreadQueue A → Bool × ThreadQueue A)
      → List (Call A)
      → ThreadQueue A
      → Option (List (Answer A) × ThreadQueue A)
  run others [] q = some ([], q)
  run others (c ∷ cs) q = perform others c q >>= λ r. add_answer r.0 (run others cs r.1)

  module _ (meanwhile : ℕ → List A → Bool × List A) where
    unfoldable pub run_sequence : List (Call A) → List A → List (Answer A) × List A
    run_sequence [] xs = ([], xs)
    run_sequence (c ∷ cs) xs =
        let (a, ys) = on_sequence meanwhile c xs in
        let (answers, zs) = run_sequence cs ys in (a ∷ answers, zs)

    -- No sequence that a call leaves has 2^64 elements.
    unfoldable pub Fits : List (Call A) → List A → Type 0
    Fits [] xs = Unit {0}
    Fits (c ∷ cs) xs =
        (length (on_sequence meanwhile c xs).1 < 2 ^ 64) × Fits cs (on_sequence meanwhile c xs).1
