-- ===== src/LoopQueue/Tests.antt =====
-- Runs of the circular queue, and the theorems about it at concrete inputs.
use learn_tars.Base.{ℕ, ◌≡◌, refl, true, false, List, [], ◌∷◌, some, arith}
use learn_tars.LoopQueue
use learn_tars.LoopQueue.{
  LoopQueue, built, init, size, empty, push_back, push_back_all, pop_front, get_front,
}
use learn_tars.LoopQueue.Refines.{Refines}
use learn_tars.LoopQueue.History.{
  Call, push, push_all, pop, peek, count, pushed, done, taken, counted, run, run_fifo, run-run_fifo,
  run-lose_all, lose_all,
}

-- Room for three elements, the next write in the last slot, two elements held.
abbrev wrapped : LoopQueue ℕ
wrapped = record { slots = 9 ∷ 7 ∷ 8 ∷ 5 ∷ []; capacity = 4; capacity_sub = 3; begin = 0; end = 2 }

abbrev script : List (Call ℕ)
script = push 1 ∷ push 2 ∷ pop ∷ push_all (3 ∷ 4 ∷ []) ∷ push_all (3 ∷ []) ∷ peek ∷ count ∷ []

abbrev held : List ℕ
held = 8 ∷ 5 ∷ []

abbrev pair : List ℕ
pair = 3 ∷ 4 ∷ []

abbrev zeros : List ℕ
zeros = 0 ∷ 0 ∷ 0 ∷ []

abbrev one : List ℕ
one = 0 ∷ []

wrapped-Refines : Refines 3 wrapped held
wrapped-Refines = record {
  limit = refl;
  positive = omega arith;
  holds = record {
    sized = refl;
    small = omega arith;
    memory = omega arith;
    begin_in = omega arith;
    end_in = omega arith;
    fits = omega arith;
    span = omega arith;
    chain = unfold LoopQueue.next in (refl, (refl, tt));
  };
}

script_answers :
    run wrapped script
    ≡ pushed true false
      ∷ pushed false false
      ∷ taken true (some 8)
      ∷ done false
      ∷ done true
      ∷ taken true (some 5)
      ∷ counted 3
      ∷ []
unfolding run
script_answers = refl

run-run_fifo_example : run wrapped script ≡ run_fifo 3 held script
run-run_fifo_example = run-run_fifo 3 script wrapped held wrapped-Refines (omega arith)

run-lose_all_example : run (built (0 ∷ []) 0) script ≡ lose_all script
run-lose_all_example = run-lose_all script 0 []
