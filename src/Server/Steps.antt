-- ===== src/Server/Steps.antt =====
-- What happens to a network thread, one call after another, and the states that it comes to.
use learn_tars.Base.{ℕ, ◌≡◌, ◌≢◌, true, false, List, [], Option, none, some}
use learn_tars.Server.Slices.{Slice, Written}
use learn_tars.Server.Connection.{Connection}
use learn_tars.Server.NetThread.{
  NetThread, Event, add_tcp_connection, new_connection, process_net, process_pipe, send, close,
  terminate,
}

-- Before `createEpoll`.
abbrev pub fresh : NetThread
fresh = record {
  free = [];
  free_size = 0;
  connections = λ i. none;
  watched = λ i. false;
  is_open = λ i. false;
  sockets = λ i. [];
  received = [];
  sbuffer = [];
  b_terminate = false;
}

-- A connection has been accepted, an event of epoll, a notification, and the calls of the handlers.
pub data Step : Type 0 where
  accepted : Step
  net_event : Event → Step
  notified : Step
  sends : ℕ → List ℕ → Step
  closes : ℕ → Step
  terminates : Step

-- There is a connection under the identifier.
unfoldable pub Has : (ℕ → Option Connection) → ℕ → Type 0
Has connections i = (c : Connection) × (connections i ≡ some c)

-- Epoll reports events of what it watches, and the handlers answer to connections that there have
-- been.
abbrev pub Possible : NetThread → Step → Type 0
Possible t accepted = t.free ≢ []
Possible t (net_event e) = t.watched e.of_uid ≡ true
Possible t (sends uid s) = Has t.connections uid
Possible t _ = Unit

module _ (writev : List ℕ → List Slice → Written) (iov_count : ℕ)
    (kernel : List ℕ → List ℕ → Written) where
  unfoldable pub step : Step → NetThread → Option NetThread
  step accepted t = add_tcp_connection new_connection t
  step (net_event e) t = process_net writev iov_count e t
  step notified t = process_pipe kernel t
  step (sends uid s) t = some (send uid s t)
  step (closes uid) t = some (close uid t)
  step terminates t = some (terminate t)

  -- The states that a thread comes to from `t` by steps that are possible.
  pub data Reaches (t : NetThread) : NetThread → Type 0 where
    here : Reaches t t
    after :
        {u v : NetThread} (s : Step) → Reaches t u → Possible u s → step s u ≡ some v → Reaches t v
