-- ===== src/Server/Dispatch.antt =====
-- `NetThread::run`: what epoll reports in one wait, `accept`, and what other threads do meanwhile.
use learn_tars.Base.{
  ℕ, ◌%◌, ◌==◌, Bool, true, false, List, [], ◌∷◌, if◌then◌else◌, Option, some, ◌>>=◌,
}
use learn_tars.Server.Slices.{Slice, Written}
use learn_tars.Server.NetThread.{
  NetThread, Event, add_tcp_connection, new_connection, process_net, process_pipe, send, close,
  terminate,
}

-- What `accept` of a socket answers: the descriptor of a connection, EAGAIN, or another error.
pub data Accepted : Type 0 where
  connected : ℕ → Accepted
  no_more : Accepted
  refused : Accepted

-- An event, by the upper half of its data: ET_LISTEN with EPOLLIN or without it, ET_CLOSE, ET_NOTIFY
-- and ET_NET.
pub data Reported : Type 0 where
  et_listen : Bool → List Accepted → Reported
  et_close : Reported
  et_notify : Reported
  et_net : Event → Reported

-- What comes next in a round: an event, or a call from another thread, between two events: of
-- `addTcpConnection` for a connection that it has accepted, of `send`, `close` or `terminate`.
pub data Happening : Type 0 where
  reported : Reported → Happening
  given : Happening
  asked_send : ℕ → List ℕ → Happening
  asked_close : ℕ → Happening
  asked_stop : Happening

abbrev pub go_on : (NetThread → Option NetThread) → Bool × NetThread → Option NetThread
go_on more (true, t) = more t
go_on more (false, t) = some t

-- The thread is that with the number `index` of `threads`.
module _ (threads index : ℕ) where
  -- `getNetThreadOfFd(fd)` is this thread.
  abbrev pub is_own : ℕ → Bool
  is_own fd = (fd % threads) == index

  -- `accept`: whether there may be more. A connection for another thread is handed to that.
  unfoldable pub accept : Accepted → NetThread → Option (Bool × NetThread)
  accept (connected fd) t =
      if is_own fd
      then (add_tcp_connection new_connection t >>= λ t'. some (true, t'))
      else some (true, t)
  accept no_more t = some (false, t)
  accept refused t = some (true, t)

  -- The loop of ET_LISTEN, over what the socket answers. It is asked no more when the answers end.
  unfoldable pub accept_loop : List Accepted → NetThread → Option NetThread
  accept_loop [] t = some t
  accept_loop (a ∷ more) t = accept a t >>= go_on (accept_loop more)

module _ (writev : List ℕ → List Slice → Written) (iov_count : ℕ)
    (kernel : List ℕ → List ℕ → Written) (threads index : ℕ) where
  unfoldable pub dispatch : Reported → NetThread → Option NetThread
  dispatch (et_listen true more) t = accept_loop threads index more t
  dispatch (et_listen false more) t = some t
  dispatch et_close t = some t
  dispatch et_notify t = process_pipe kernel t
  dispatch (et_net e) t = process_net writev iov_count e t

  unfoldable pub happen : Happening → NetThread → Option NetThread
  happen (reported e) t = dispatch e t
  happen given t = add_tcp_connection new_connection t
  happen (asked_send uid s) t = some (send uid s t)
  happen (asked_close uid) t = some (close uid t)
  happen asked_stop t = some (terminate t)

  unfoldable pub run_events : List Happening → NetThread → Option NetThread
  run_events [] t = some t
  run_events (e ∷ es) t = happen e t >>= run_events es

  -- `run`, over what happens in each round, from the test of `_bTerminate` to the next.
  unfoldable pub run : List (List Happening) → NetThread → Option NetThread
  run [] t = some t
  run (es ∷ rounds) t =
      let rest = run_events es t >>= run rounds in if t.b_terminate then some t else rest
