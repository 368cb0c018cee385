-- ===== src/Coroutine/Run.antt =====
-- The runs of `CoroutineScheduler`. A switch of the context makes another coroutine the current one;
-- what a coroutine does from there until it gives control back is a turn, which is a parameter.
use learn_tars.Base.{
  ℕ, zero, suc, ◌+◌, Bool, ◌&&◌, List, [], ◌∷◌, Option, some, ltb, ◌==◌, if◌then◌else◌, ◌>>=◌,
}
use learn_tars.Base.Words.{sub32}
use learn_tars.Coroutine.Links.{Status, active, avail, get_next, head_empty}
use learn_tars.Coroutine.Lists.{head, main}
use learn_tars.Coroutine.Moves.{move_to_inactive, move_to_timeout, move_to_free_list}
use learn_tars.Coroutine.Scheduler.{
  Scheduler, get_uid, create_coroutine, put_by_self, put_id, terminate, wakeup, wakeup_by_self,
  wakeup_by_timeout,
}

-- A time that a coroutine asks to sleep for, which `sleep` makes positive.
pub data ℤ : Type 0 where
  pos : ℕ → ℤ
  negsuc : ℕ → ℤ

abbrev pub magnitude : ℤ → ℕ
magnitude (pos n) = n
magnitude (negsuc n) = suc n

-- The calls that a coroutine makes in a turn, and how it gives control back: `yields` with the flag,
-- `sleeps` at a time and for a time, or the end of its function.
pub data Call : Type 0 where
  create : (ℕ → ℕ → Option Bool) → Call
  put : ℕ → Call
  stop : Call

pub data Ending : Type 0 where
  yields : Bool → Ending
  sleeps : ℕ → ℤ → Ending
  returns : Ending

abbrev pub Turn : Type 0
Turn = List Call × Ending

unfoldable pub switch_coro : ℕ → Scheduler → Scheduler
switch_coro to s = record s { current = to }

unfoldable pub yield : Bool → Scheduler → Option Scheduler
yield flag s =
    let s1 = if flag then put_by_self (get_uid s.current) s else s in
    do h ← move_to_inactive s1.current s1.heap; some (switch_coro main (record s1 { heap = h }))

-- `multimap::insert`, behind the entries with the same time.
unfoldable pub insert_time : ℕ → ℕ → List (ℕ × ℕ) → List (ℕ × ℕ)
insert_time time id [] = (time, id) ∷ []
insert_time time id ((t, i) ∷ rest) =
    if ltb time t then (time, id) ∷ (t, i) ∷ rest else (t, i) ∷ insert_time time id rest

unfoldable pub sleep : ℕ → ℤ → Scheduler → Option Scheduler
sleep now time s =
    let ts = insert_time (now + magnitude time) (get_uid s.current) s.timeouts in
    do
      h ← move_to_timeout s.current s.heap
      some (switch_coro main (record s { heap = h; timeouts = ts }))

-- The end of `corotineProc`, when the function of the coroutine has returned or thrown.
unfoldable pub finish : Scheduler → Option Scheduler
finish s = do
  h ← move_to_free_list s.current s.heap
  some (switch_coro main (record s { heap = h; used_size = sub32 s.used_size 1 }))

unfoldable pub call : Call → Scheduler → Option Scheduler
call (create allocate) s = create_coroutine allocate s >>= λ r. some r.1
call (put id) s = some (put_id id s)
call stop s = some (terminate s)

unfoldable pub call_all : List Call → Scheduler → Option Scheduler
call_all [] s = some s
call_all (c ∷ cs) s = call c s >>= call_all cs

unfoldable pub end_turn : Ending → Scheduler → Option Scheduler
end_turn (yields flag) s = yield flag s
end_turn (sleeps now time) s = sleep now time s
end_turn returns s = finish s

-- `switchCoro(&_mainCoro, coro)`, which comes back when the turn is over.
unfoldable pub resume : Turn → ℕ → Scheduler → Option Scheduler
resume turn coro s = call_all turn.0 (switch_coro coro s) >>= end_turn turn.1

-- `turns n s` is what the coroutine does that is switched to in `s`, with `n` rounds left.
module _ (turns : ℕ → Scheduler → Turn) where
  -- The loops of `tars_run`, of at most `n` rounds, over the list of a status.
  unfoldable pub run_list : Status → ℕ → Scheduler → Option Scheduler
  run_list st zero s = some s
  run_list st (suc n) s = head_empty (head st) s.heap >>= λ nothing.
      if nothing
      then some s
      else (get_next (head st) s.heap >>= λ coro. resume (turns n s) coro s >>= run_list st n)

  unfoldable pub tars_run : ℕ → Scheduler → Option Scheduler
  tars_run now s =
      if s.terminal
      then some s
      else wakeup_by_timeout now s
        >>= wakeup_by_self
        >>= wakeup
        >>= run_list active 100
        >>= run_list avail 100

-- What other threads do while `run` waits: they put identifiers.
unfoldable pub put_all : List ℕ → Scheduler → Scheduler
put_all [] s = s
put_all (id ∷ ids) s = put_all ids (put_id id s)

-- A round of the loop of `run`: its time, what arrives if it waits, and the turns.
pub record Round : Type 0 where
  pub now : ℕ
  pub arrivals : Scheduler → List ℕ
  pub turns : ℕ → Scheduler → Turn

-- The wait at the start of a round, when no coroutine is ready.
unfoldable pub await_work : Round → Scheduler → Option Scheduler
await_work r s = do
  no_avail ← head_empty (head avail) s.heap
  no_active ← head_empty (head active) s.heap
  some (if no_avail && no_active && (s.active_queue.size == 0) then put_all (r.arrivals s) s else s)

-- One round. It runs one of the available coroutines.
unfoldable pub run_round : Round → Scheduler → Option Scheduler
run_round r s =
    await_work r s
    >>= wakeup_by_timeout r.now
    >>= wakeup_by_self
    >>= wakeup
    >>= run_list r.turns active 100
    >>= run_list r.turns avail 1

-- `run` for the rounds given: it ends at the first at whose start the scheduler is terminated or at
-- whose end no coroutine is in use.
unfoldable pub run : List Round → Scheduler → Option Scheduler
run [] s = some s
run (r ∷ rs) s =
    if s.terminal
    then some s
    else (run_round r s >>= λ s'. if s'.used_size == 0 then some s' else run rs s')
