-- ===== src/Server/Connection.antt =====
-- `TC_EpollServer::NetThread::Connection`: what a connection receives and sends.
use learn_tars.Base.{
  ℕ, ◌*◌, Bool, true, false, ◌&&◌, List, [], ◌∷◌, ◌++◌, length, take, ltb, leb, ◌==◌, if◌then◌else◌,
  Option, none, some, ◌>>=◌,
}
use learn_tars.Server.Slices.{
  Slice, flatten, Written, failed, again, invalid, wrote, Sent, sent, broken, send_slices,
  adjust_slices, clear_slices,
}

pub record Connection : Type 0 where
  pub uid : ℕ
  pub b_close : Bool
  pub recvbuffer : List ℕ
  pub sendbuffer : List Slice

-- What `recv` hands out: the bytes, with the identifier of the connection.
pub record RecvData : Type 0 where
  pub buffer : List ℕ
  pub from_uid : ℕ
  pub is_closed : Bool

-- What a call of `read` answers: an error, no data for now, or bytes, of which none is the end.
pub data Got : Type 0 where
  error : Got
  no_data : Got
  bytes : List ℕ → Got

abbrev pub buffer_size : ℕ
buffer_size = 32 * 1024

-- The loop of `recv`, over the answers of `read`: whether the connection lives, and what has been
-- received. No further call is made when the answers end.
unfoldable pub recv_loop : List Got → List ℕ → Bool × List ℕ
recv_loop [] received = (true, received)
recv_loop (error ∷ gs) received = (false, received)
recv_loop (no_data ∷ gs) received = (true, received)
recv_loop (bytes [] ∷ gs) received = (false, received)
recv_loop (bytes (b ∷ bs) ∷ gs) received =
    let rest = recv_loop gs (received ++ b ∷ bs) in
    if ltb (length (b ∷ bs)) buffer_size then (true, received ++ b ∷ bs) else rest

-- What `recv` does with what it has read: -1 is `none`, and else the queue that is handed out.
abbrev pub hand_out : Connection → Bool × List ℕ → Option (List RecvData) × Connection
hand_out c (false, received) = (none, record c { recvbuffer = received })
hand_out c (true, []) = (some [], record c { recvbuffer = [] })
hand_out c (true, b ∷ bs) = (
  some (record { buffer = b ∷ bs; from_uid = c.uid; is_closed = false } ∷ []),
  record c { recvbuffer = [] },
)

-- `recv` of a connection from a listener.
unfoldable pub recv : List Got → Connection → Option (List RecvData) × Connection
recv gs c = hand_out c (recv_loop gs c.recvbuffer)

-- `setClose`
unfoldable pub set_close : Connection → Bool × Connection
set_close c = (elim c.sendbuffer [ [] ↦ true | s ∷ ss ↦ false ], record c { b_close = true })

-- What `send` answers: 0, -1 or -2.
pub data Answer : Type 0 where
  kept : Answer
  by_peer : Answer
  to_close : Answer

-- The end of `send`: a send buffer of 8 KB or more is dropped.
unfoldable pub check_sendbuffer : Connection → Option (Answer × Connection)
check_sendbuffer c =
    if leb (8 * 1024) (length (flatten c.sendbuffer))
    then (clear_slices c.sendbuffer >>= λ ss. some (to_close, record c { sendbuffer = ss }))
    else if c.b_close && (length c.sendbuffer == 0)
    then some (to_close, c)
    else some (kept, c)

-- What `send` does with the outcome of the loop. A failed assertion is `none`.
abbrev pub after_send : Connection → Sent × List ℕ → Option (Answer × Connection) × List ℕ
after_send c (sent n, socket) =
    (adjust_slices c.sendbuffer n >>= λ ss. check_sendbuffer (record c { sendbuffer = ss }), socket)
after_send c (broken, socket) = (some (by_peer, c), socket)
after_send c (_, socket) = (none, socket)

module _ (writev : List ℕ → List Slice → Written) (iov_count : ℕ) where
  -- `send` with `byEpollOut` set.
  unfoldable pub send_out : Connection → List ℕ → Option (Answer × Connection) × List ℕ
  send_out c socket = after_send c (send_slices writev iov_count c.sendbuffer socket)

  -- `send()`, when the socket can take more.
  unfoldable pub flush : Connection → List ℕ → Option (Answer × Connection) × List ℕ
  flush c socket = elim c.sendbuffer [ [] ↦ (some (kept, c), socket) | s ∷ ss ↦ send_out c socket ]

-- `send` of a buffer, through `tcpSend`, which asks the kernel once.
module _ (kernel : List ℕ → List ℕ → Written) where
  unfoldable pub tcp_send : List ℕ → List ℕ → Written
  tcp_send socket [] = wrote 0
  tcp_send socket (b ∷ bs) = elim (kernel socket (b ∷ bs)) [
    | failed ↦ failed
    | again ↦ wrote 0
    | invalid ↦ failed
    | wrote n ↦ wrote n
  ]

  abbrev pub after_tcp_send :
      List ℕ → Connection → List ℕ → Written → Option (Answer × Connection) × List ℕ
  after_tcp_send buffer c socket failed = (some (by_peer, c), socket)
  after_tcp_send buffer c socket invalid = (some (by_peer, c), socket)
  after_tcp_send buffer c socket again = (check_sendbuffer c, socket)
  after_tcp_send buffer c socket (wrote n) = (check_sendbuffer c, socket ++ take n buffer)

  unfoldable pub send_buffer : List ℕ → Connection → List ℕ → Option (Answer × Connection) × List ℕ
  send_buffer buffer c socket = after_tcp_send buffer c socket (tcp_send socket buffer)
