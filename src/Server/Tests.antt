-- ===== src/Server/Tests.antt =====
-- Runs of the server's parts, and the theorems about them at concrete inputs.
use mathlib.Core.Path.{subst}
use learn_tars.Base.{
  ℕ, ◌≡◌, ◌≢◌, ◌<◌, ◌^◌, Option, some, true, none, ◌≤◌, refl, ap, false, List, [], ◌∷◌, length,
  arith,
}
use learn_tars.Server.Slices.{
  Slice, flatten, Written, wrote, invalid, tcp_write_v, no_empty, send_slices, send_loop,
}
use learn_tars.Server.Connection.{Connection, bytes, send_out, flush, recv}
use learn_tars.Server.Delivery.{Flushes, flush-Flushes}
use learn_tars.Server.NetThread.{
  NetThread, Event, put, total, add_tcp_connection, new_connection, send,
}
use learn_tars.Server.Steps.{accepted, net_event, Has, step, Reaches, here, after}
use learn_tars.Server.Safety.{Advances, Reaches-Advances, step_reached}
use learn_tars.Server.Exhausted.{giving, giving-Valid, Filled, fill, exhausted}
use learn_tars.Server.Dispatch.{
  Happening, reported, asked_send, asked_close, asked_stop, happen, et_listen, et_notify, et_net,
  connected, no_more, refused, run,
}
use learn_tars.Server.Rounds.{Serves, run-Serves}
use learn_tars.Server.Receiving.{recv_lem}

-- A kernel that takes three bytes at most.
abbrev three_at_most : List ℕ → ℕ
three_at_most (a ∷ b ∷ c ∷ bs) = 3
three_at_most bs = length bs

abbrev slow_writev : List ℕ → List Slice → Written
slow_writev socket batch = wrote (three_at_most (flatten batch))

three_at_most_le : (bs : List ℕ) → three_at_most bs ≤ length bs
three_at_most_le [] = omega arith
three_at_most_le (a ∷ []) = omega arith
three_at_most_le (a ∷ b ∷ []) = omega arith
three_at_most_le (a ∷ b ∷ c ∷ bs) = omega arith

abbrev amount : Written → ℕ
amount (wrote b) = b
amount _ = 0

slow_writev_bounded :
    (socket : List ℕ) (batch : List Slice) (b : ℕ)
    → slow_writev socket batch ≡ wrote b
    → b ≤ length (flatten batch)
slow_writev_bounded socket batch b e =
    subst (λ n. n ≤ length (flatten batch)) (ap amount e) (three_at_most_le (flatten batch))

abbrev client : Connection
client = record {
  uid = 7;
  b_close = false;
  recvbuffer = 9 ∷ [];
  sendbuffer = (1 ∷ 2 ∷ []) ∷ (3 ∷ 4 ∷ []) ∷ [];
}

slow_writev_valid :
    (socket : List ℕ) (batch : List Slice)
    → length batch ≤ 1024
    → length (flatten batch) < 2 ^ 31
    → slow_writev socket batch ≢ invalid
slow_writev_valid socket batch l m e = let no : ⊥ = cc in elim no [ ]

flush_three : (flush slow_writev 1024 client []).1 ≡ 1 ∷ 2 ∷ 3 ∷ []
unfolding flush send_out send_slices send_loop no_empty tcp_write_v
flush_three = refl

flush-Flushes_example : Flushes client [] (flush slow_writev 1024 client [])
unfolding no_empty
flush-Flushes_example =
    flush-Flushes slow_writev 1024 slow_writev_bounded slow_writev_valid (omega arith) client []
      refl (omega arith)

recv_lem_example : recv (bytes (5 ∷ 6 ∷ []) ∷ []) client ≡ (
  some (record { buffer = 9 ∷ 5 ∷ 6 ∷ []; from_uid = 7; is_closed = false } ∷ []),
  record client { recvbuffer = [] },
)
recv_lem_example = recv_lem client [] 5 (6 ∷ []) [] tt (omega arith)

-- A thread that can take three connections, and the same with one that a client has opened.
abbrev three_uids : NetThread
three_uids = giving (1 ∷ 2 ∷ 3 ∷ []) 3

abbrev opened : NetThread
opened = record three_uids {
  free = 2 ∷ 3 ∷ [];
  free_size = 2;
  connections = put 1 (some (record new_connection { uid = 1 })) (λ i. none);
  watched = put 1 true (λ i. false);
  is_open = put 1 true (λ i. false);
  sockets = put 1 [] (λ i. []);
}

abbrev whole_kernel : List ℕ → List ℕ → Written
whole_kernel socket buffer = wrote (length buffer)

opening : step slow_writev 1024 whole_kernel accepted three_uids ≡ some opened
unfolding step add_tcp_connection
opening = refl

three_uids_left : three_uids.free ≢ []
three_uids_left e = let no : ⊥ = omega (arith, ap length e) in elim no [ ]

opened-Reaches : Reaches slow_writev 1024 whole_kernel three_uids opened
opened-Reaches = after accepted here three_uids_left opening

-- Five and six arrive, and the socket can take more.
abbrev event : Event
event = record {
  of_uid = 1;
  is_error = false;
  is_in = true;
  answers = bytes (5 ∷ 6 ∷ []) ∷ [];
  is_out = true;
}

step_reached_example :
    Advances opened (net_event event) (step slow_writev 1024 whole_kernel (net_event event) opened)
step_reached_example =
    step_reached slow_writev 1024 whole_kernel three_uids opened (net_event event)
      (giving-Valid (1 ∷ 2 ∷ 3 ∷ []) 3 ((refl, (refl, tt)), ((refl, tt), (tt, tt)))) opened-Reaches
      refl

-- A handler answers, two bytes arrive, and three clients connect, of which one is for another thread.
-- Then the answer goes out, and the thread is to stop.
abbrev answer : Happening
answer = asked_send 1 (3 ∷ [])

abbrev script : List (List Happening)
script =
    (answer
      ∷ reported (et_net event)
      ∷ reported (et_listen true (refused ∷ connected 8 ∷ connected 9 ∷ no_more ∷ []))
      ∷ [])
    ∷ (reported et_notify ∷ asked_close 1 ∷ asked_stop ∷ [])
    ∷ (reported et_notify ∷ [])
    ∷ []

abbrev connections_of : Option NetThread → ℕ → Option Connection
connections_of none = λ i. none
connections_of (some t) = t.connections

opened-Has : Has opened.connections 1
unfolding Has
opened-Has = (record new_connection { uid = 1 }, refl)

answer_keeps :
    (u : NetThread)
    → happen slow_writev 1024 whole_kernel 2 0 answer opened ≡ some u
    → Has u.connections 1
unfolding happen send
answer_keeps u e = subst (λ o. Has (connections_of o) 1) e opened-Has

run-Serves_example : Serves opened 2 (run slow_writev 1024 whole_kernel 2 0 script opened)
run-Serves_example =
    run-Serves slow_writev 1024 whole_kernel 2 0 script opened
      (Reaches-Advances slow_writev 1024 whole_kernel
        (giving-Valid (1 ∷ 2 ∷ 3 ∷ []) 3 ((refl, (refl, tt)), ((refl, tt), (tt, tt))))
        opened-Reaches).0
      (
        (opened-Has, λ u e. (answer_keeps u e, λ u' e'. (tt, λ v f. tt))),
        λ u e. ((tt, λ v f. (tt, λ v' f'. (tt, λ w g. tt))), λ u' e'. ((tt, λ v f. tt), λ w g. tt)),
      )
      (omega arith)

all_filled : Filled slow_writev 1024 whole_kernel total
all_filled = fill slow_writev 1024 whole_kernel total (omega arith)

exhausted_example : add_tcp_connection new_connection all_filled.thread ≡ none
exhausted_example =
    exhausted slow_writev 1024 whole_kernel all_filled.thread all_filled.way all_filled.count
