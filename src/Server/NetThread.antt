-- ===== src/Server/NetThread.antt =====
-- `TC_EpollServer::NetThread`: the connections of a network thread, the events of epoll and the queue
-- of what the handlers ask for. A connection is named by its `uid`; a missing one is NULL. What the
-- sockets have accepted and whether they are open is kept by `uid` too. `received` is what has been
-- inserted into the queues of the adapters. Going through NULL, a failed assertion, and `front` of
-- an empty list are `none`.
use learn_tars.Base.{
  ℕ, zero, suc, ◌+◌, Bool, true, false, List, [], ◌∷◌, ◌++◌, ◌==◌, if◌then◌else◌, Option, none,
  some, ◌>>=◌,
}
use learn_tars.Base.Words.{add64, sub64}
use learn_tars.Server.Slices.{Slice, Written, failed}
use learn_tars.Server.Connection.{
  Connection, RecvData, Got, Answer, recv, set_close, flush, send_buffer,
}

-- The values of `cmd`.
pub data Cmd : Type 0 where
  cmd_send : Cmd
  cmd_close : Cmd
  cmd_other : Cmd

pub record SendData : Type 0 where
  pub cmd : Cmd
  pub to_uid : ℕ
  pub buffer : List ℕ

pub record NetThread : Type 0 where
  pub free : List ℕ
  pub free_size : ℕ
  pub connections : ℕ → Option Connection
  pub watched : ℕ → Bool
  pub is_open : ℕ → Bool
  pub sockets : ℕ → List ℕ
  pub received : List RecvData
  pub sbuffer : List SendData
  pub b_terminate : Bool

abbrev pub put {ℓ} : {A : Type ℓ} → ℕ → A → (ℕ → A) → ℕ → A
put k a m i = if i == k then a else m i

-- The object of a connection is changed in place.
abbrev pub keep : ℕ → Connection → NetThread → NetThread
keep uid c t = record t { connections = put uid (some c) t.connections }

unfoldable pub count_up : ℕ → ℕ → List ℕ
count_up i zero = []
count_up i (suc n) = i ∷ count_up (i + 1) n

-- The loop of `createEpoll`.
unfoldable pub free_loop : List ℕ → NetThread → NetThread
free_loop [] t = t
free_loop (i ∷ is) t =
    free_loop is (record t { free = t.free ++ i ∷ []; free_size = add64 t.free_size 1 })

abbrev pub total : ℕ
total = 200000

unfoldable pub create_epoll : NetThread → NetThread
create_epoll t = free_loop (count_up 1 total) t

abbrev pub take_uid : Connection → NetThread → List ℕ → Option NetThread
take_uid c t [] = none
take_uid c t (uid ∷ free) = some (record t {
  free = free;
  free_size = sub64 t.free_size 1;
  connections = put uid (some (record c { uid = uid })) t.connections;
  watched = put uid true t.watched;
  is_open = put uid true t.is_open;
  sockets = put uid [] t.sockets;
})

unfoldable pub add_tcp_connection : Connection → NetThread → Option NetThread
add_tcp_connection c t = take_uid c t t.free

-- The connection that `accept` makes.
abbrev pub new_connection : Connection
new_connection = record { uid = 0; b_close = false; recvbuffer = []; sendbuffer = [] }

unfoldable pub del_connection : Connection → NetThread → NetThread
del_connection c t = record t {
  received = t.received ++ record { buffer = []; from_uid = c.uid; is_closed = true } ∷ [];
  watched = put c.uid false t.watched;
  is_open = put c.uid false t.is_open;
}

-- An event of epoll: EPOLLERR or EPOLLHUP, EPOLLIN with what `read` will answer, and EPOLLOUT.
pub record Event : Type 0 where
  pub of_uid : ℕ
  pub is_error : Bool
  pub is_in : Bool
  pub answers : List Got
  pub is_out : Bool

-- What `send` leaves of the connection `uid`; its answer is only printed.
abbrev pub after_output : ℕ → NetThread → Option (Answer × Connection) × List ℕ → Option NetThread
after_output uid t (none, socket) = none
after_output uid t (some (answer, c), socket) =
    some (record t {
      connections = put uid (some c) t.connections;
      sockets = put uid socket t.sockets;
    })

module _ (writev : List ℕ → List Slice → Written) (iov_count : ℕ) where
  -- The socket of `uid`; a call on a closed one fails.
  abbrev pub writev_of : ℕ → NetThread → List ℕ → List Slice → Written
  writev_of uid t socket batch = if t.is_open uid then writev socket batch else failed

  abbrev pub net_out : Event → Connection → NetThread → Option NetThread
  net_out e c t =
      if e.is_out
      then after_output e.of_uid t (flush (writev_of e.of_uid t) iov_count c (t.sockets e.of_uid))
      else some t

  abbrev pub after_recv : Event → NetThread → Option (List RecvData) × Connection → Option NetThread
  after_recv e t (none, c) = some (del_connection c (keep e.of_uid c t))
  after_recv e t (some ds, c) =
      net_out e c (record (keep e.of_uid c t) { received = t.received ++ ds })

  -- `processNet` with a connection that is there.
  abbrev pub net_connection : Event → NetThread → Connection → Option NetThread
  net_connection e t c =
      if e.is_error
      then some (del_connection c t)
      else if e.is_in
      then after_recv e t (recv e.answers c)
      else net_out e c t

  unfoldable pub process_net : Event → NetThread → Option NetThread
  process_net e t = t.connections e.of_uid >>= net_connection e t

abbrev pub after_set_close : ℕ → NetThread → Bool × Connection → NetThread
after_set_close uid t (true, c) = del_connection c (keep uid c t)
after_set_close uid t (false, c) = keep uid c t

abbrev pub close_found : ℕ → NetThread → Option Connection → Option NetThread
close_found uid t none = some t
close_found uid t (some c) = some (after_set_close uid t (set_close c))

module _ (kernel : List ℕ → List ℕ → Written) where
  abbrev pub kernel_of : ℕ → NetThread → List ℕ → List ℕ → Written
  kernel_of uid t socket buffer = if t.is_open uid then kernel socket buffer else failed

  abbrev pub send_found : SendData → NetThread → Connection → Option NetThread
  send_found d t c =
      let uid = d.to_uid in
      after_output uid t (send_buffer (kernel_of uid t) d.buffer c (t.sockets uid))

  -- One round of `processPipe`.
  abbrev pub pipe_one : Cmd → SendData → NetThread → Option NetThread
  pipe_one cmd_close d t = close_found d.to_uid t (t.connections d.to_uid)
  pipe_one cmd_send d t = t.connections d.to_uid >>= send_found d t
  pipe_one cmd_other d t = none

  unfoldable pub pipe_loop : List SendData → NetThread → Option NetThread
  pipe_loop [] t = some t
  pipe_loop (d ∷ ds) t = pipe_one d.cmd d t >>= pipe_loop ds

  unfoldable pub process_pipe : NetThread → Option NetThread
  process_pipe t = pipe_loop t.sbuffer (record t { sbuffer = [] })

unfoldable pub send : ℕ → List ℕ → NetThread → NetThread
send uid s t = if t.b_terminate then t else record t {
  sbuffer = t.sbuffer ++ record { cmd = cmd_send; to_uid = uid; buffer = s } ∷ [];
}

unfoldable pub close : ℕ → NetThread → NetThread
close uid t = record t {
  sbuffer = t.sbuffer ++ record { cmd = cmd_close; to_uid = uid; buffer = [] } ∷ [];
}

unfoldable pub terminate : NetThread → NetThread
terminate t = record t { b_terminate = true }
