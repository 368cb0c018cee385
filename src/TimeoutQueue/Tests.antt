-- ===== src/TimeoutQueue/Tests.antt =====
-- Runs of the timeout queue, and the theorems about it at concrete inputs.
use learn_tars.Base.{ℕ, ◌≡◌, refl, ◌≢◌, ◌⊎◌, true, false, none, some, ◌==◌, if◌then◌else◌}
use mathlib.Core.Option
use learn_tars.Base.Keyed.{find, without, last, drop_last}
use learn_tars.TimeoutQueue.{TimeoutQueue, init, push, get, erase, pop_send, timeout, timeout_one}
use learn_tars.TimeoutQueue.Invariant.{Inv, init-Inv, push-Inv}
use learn_tars.TimeoutQueue.View.{view, push-view, erase-view}
use learn_tars.TimeoutQueue.Timeouts.{unexpired, timeout-view}
use learn_tars.TimeoutQueue.FirstTimeout.{TakesFirst, timeout_one_lem}
use learn_tars.TimeoutQueue.Sending.{mark_view, pop_send_lem}

-- Request 7, unsent and due at 50, and request 9, sent and due at 30.
abbrev waiting : TimeoutQueue ℕ
unfolding push
waiting = (push 90 9 30 true (push 70 7 50 false init).1).1

waiting-Inv : Inv waiting
unfolding waiting
waiting-Inv = push-Inv _ 90 9 30 true (push-Inv init 70 7 50 false init-Inv)

waiting_views : (view waiting 7 ≡ some (70, false, 50)) × (view waiting 9 ≡ some (90, true, 30))
unfolding waiting view init find
waiting_views = (refl, refl)

-- At 40 request 9 has expired, and request 7 has not.
timeout_runs :
    (Option.map (λ q. view q 7) (timeout 40 waiting) ≡ some (some (70, false, 50)))
    × (Option.map (λ q. view q 9) (timeout 40 waiting) ≡ some none)
unfolding waiting timeout view init find without
timeout_runs = (refl, refl)

push-view_example :
    ((view waiting 3 ≡ none)
      × ((push 5 3 60 false waiting).0 ≡ true)
      × (view (push 5 3 60 false waiting).1 7
          ≡ (if 3 == 7 then some (5, false, 60) else view waiting 7)))
    ⊎ ((view waiting 3 ≢ none)
        × ((push 5 3 60 false waiting).0 ≡ false)
        × ((push 5 3 60 false waiting).1 ≡ waiting))
push-view_example = push-view waiting 5 3 60 false 7 waiting-Inv

erase-view_example :
    (q' : TimeoutQueue ℕ) × (erase 7 waiting ≡ some (Option.map (λ e. e.0) (view waiting 7), q'))
    × (get 7 true waiting ≡ erase 7 waiting)
    × Inv q'
    × (view q' 9 ≡ (if 7 == 9 then none else view waiting 9))
erase-view_example = erase-view waiting 7 9 waiting-Inv

timeout-view_example :
    (q' : TimeoutQueue ℕ) × (timeout 40 waiting ≡ some q')
    × Inv q'
    × ((j : ℕ) → view q' j ≡ unexpired 40 (view waiting j))
timeout-view_example = timeout-view waiting 40 waiting-Inv

timeout_one_lem_example :
    ((timeout_one 40 waiting ≡ some (none, waiting))
      × ((j : ℕ) → unexpired 40 (view waiting j) ≡ view waiting j))
    ⊎ ((k : ℕ) × (a : ℕ) × (q' : TimeoutQueue ℕ) × (timeout_one 40 waiting ≡ some (some a, q'))
        × TakesFirst 40 waiting k a q')
timeout_one_lem_example = timeout_one_lem waiting 40 waiting-Inv

waiting_last : last waiting.sends ≡ some (1, 7)
unfolding waiting last init find
waiting_last = refl

pop_send_lem_example :
    (q' : TimeoutQueue ℕ) × (pop_send false waiting ≡ some q')
    × Inv q'
    × (q'.sends ≡ drop_last waiting.sends)
    × ((j : ℕ)
        → view q' j ≡ (
            if 7 == j
            then (if false then none else Option.map mark_view (view waiting j))
            else view waiting j))
pop_send_lem_example = pop_send_lem waiting false 1 7 waiting-Inv waiting_last
