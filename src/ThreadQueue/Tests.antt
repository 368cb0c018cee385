-- ===== src/ThreadQueue/Tests.antt =====
-- Runs of the shared queue, and the theorem about it at a concrete input.
use learn_tars.Base.{ℕ, ◌≡◌, refl, Bool, true, List, [], ◌∷◌, none, some, arith}
use learn_tars.ThreadQueue.{
  ThreadQueue, push_back, push_back_all, push_front, push_front_all, take_front, swap_now, await,
  is_empty, pop_front, swap,
}
use learn_tars.ThreadQueue.Sequence.{
  Call, push, push_all, unshift_all, pop, exchange, pushed, popped, exchanged, counted, perform,
  run, run_sequence, Fits, on_sequence, seq_pop, seq_exchange, after_wait,
}
use learn_tars.ThreadQueue.Refines.{Agree, run-run_sequence}

-- Another thread fills an empty queue with a 7 whenever it is waited for.
abbrev others : ℕ → ThreadQueue ℕ → Bool × ThreadQueue ℕ
others ms q = (true, counted (7 ∷ []))

abbrev meanwhile : ℕ → List ℕ → Bool × List ℕ
meanwhile ms xs = (true, 7 ∷ [])

abbrev calls : List (Call ℕ)
calls =
    push 1
    ∷ push_all (2 ∷ 3 ∷ [])
    ∷ unshift_all (4 ∷ 5 ∷ [])
    ∷ pop 0
    ∷ exchange (9 ∷ []) 0
    ∷ pop 0
    ∷ pop 0
    ∷ pop 10
    ∷ []

run-calls :
    run others calls (counted [])
    ≡ some (
      pushed
          ∷ pushed
          ∷ pushed
          ∷ popped (some 5)
          ∷ exchanged true (4 ∷ 1 ∷ 2 ∷ 3 ∷ [])
          ∷ popped (some 9)
          ∷ popped none
          ∷ popped (some 7)
          ∷ [],
      counted [],
    )
unfolding run perform pop_front await is_empty push_front_all push_front take_front push_back_all
    push_back swap swap_now
run-calls = refl

others-Agree : Agree others meanwhile
others-Agree = record { others_eq = λ ms xs. refl; others_small = λ ms xs. omega arith }

run-run_sequence_example :
    run others calls (counted [])
    ≡ some ((run_sequence meanwhile calls []).0, counted (run_sequence meanwhile calls []).1)
unfolding Fits on_sequence seq_pop seq_exchange after_wait
run-run_sequence_example = run-run_sequence others-Agree calls [] (omega arith) (
  omega arith,
  (
    omega arith,
    (omega arith, (omega arith, (omega arith, (omega arith, (omega arith, (omega arith, tt)))))),
  ),
)
