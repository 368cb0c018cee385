-- ===== src/Server/Registry.antt =====
-- No call on a network thread goes through NULL.
use mathlib.Core.Path.{subst}
use learn_tars.Base.{
  ℕ, ◌*◌, ◌≡◌, refl, sym, ap, ◌∙◌, Bool, true, false, ◌&&◌, List, [], ◌∷◌, ◌++◌, length, take, ◌==◌,
  leb, Bool-cases, if◌then◌else◌, Option, none, some, ◌>>=◌, inl, inr,
}
use learn_tars.Server.Slices.{Slice, flatten, Written, failed, again, invalid, wrote}
use learn_tars.Server.Connection.{
  Connection, RecvData, Got, Answer, kept, by_peer, to_close, recv_loop, recv, set_close, hand_out,
  after_tcp_send, check_sendbuffer, flush, tcp_send, send_buffer,
}
use learn_tars.Server.Delivery.{nothing_out}
use learn_tars.Server.NetThread.{
  NetThread, Event, put, keep, del_connection, after_output, writev_of, net_out, after_recv,
  net_connection, process_net,
}
use learn_tars.Server.Steps.{Has}
use learn_tars.Server.Valid.{Own, Valid, put_at, put-Has, keep-Valid, del_connection-Valid}

-- What a call leaves: a valid thread, in which there is every connection that there was, and as
-- many free identifiers.
pub record Goes (t : NetThread) (o : Option NetThread) : Type 0 where
  pub next : NetThread
  pub result : o ≡ some next
  pub valid : Valid next
  pub grows : (i : ℕ) → Has t.connections i → Has next.connections i
  pub free_eq : next.free ≡ t.free

-- `recv` keeps the identifier of the connection, and what it has to send.
unfoldable pub Keeps : Connection → Connection → Type 0
Keeps c d = (d.uid ≡ c.uid) × (d.sendbuffer ≡ c.sendbuffer)

hand_out-Keeps : (c : Connection) (o : Bool × List ℕ) → Keeps c (hand_out c o).1
unfolding Keeps
hand_out-Keeps c (false, r) = (refl, refl)
hand_out-Keeps c (true, []) = (refl, refl)
hand_out-Keeps c (true, b ∷ bs) = (refl, refl)

recv-Keeps : (gs : List Got) (c : Connection) → Keeps c (recv gs c).1
unfolding recv
recv-Keeps gs c = hand_out-Keeps c (recv_loop gs c.recvbuffer)

pub set_close-Keeps : (c : Connection) → Keeps c (set_close c).1
unfolding set_close Keeps
set_close-Keeps c = (refl, refl)

-- A connection with nothing to send is not changed by `send`.
check_idle :
    (c : Connection) → c.sendbuffer ≡ [] → (a : Answer) × (check_sendbuffer c ≡ some (a, c))
unfolding check_sendbuffer
check_idle c e =
    let small : leb (8 * 1024) (length (flatten c.sendbuffer)) ≡ false =
      ap (λ ss. leb (8 * 1024) (length (flatten ss))) e in
    elim (Bool-cases (c.b_close && (length c.sendbuffer == 0))) [
      | inl f ↦ (to_close, rw (small, f) refl)
      | inr f ↦ (kept, rw (small, f) refl)
    ]

after_tcp_send_idle :
    (kernel : List ℕ → List ℕ → Written) (s : List ℕ) (c : Connection) (socket : List ℕ)
    (w : Written)
    → c.sendbuffer ≡ []
    → (a : Answer) × (left : List ℕ) × (after_tcp_send kernel s c socket w ≡ (some (a, c), left))
after_tcp_send_idle kernel s c socket failed e = (by_peer, socket, refl)
after_tcp_send_idle kernel s c socket invalid e = (by_peer, socket, refl)
after_tcp_send_idle kernel s c socket again e =
    let (a, h) = check_idle c e in (a, socket, ap (λ o. (o, socket)) h)
after_tcp_send_idle kernel s c socket (wrote n) e =
    let (a, h) = check_idle c e in (a, socket ++ take n s, ap (λ o. (o, socket ++ take n s)) h)

pub send_buffer_idle :
    (kernel : List ℕ → List ℕ → Written) (s : List ℕ) (c : Connection) (socket : List ℕ)
    → c.sendbuffer ≡ []
    → (a : Answer) × (left : List ℕ) × (send_buffer kernel s c socket ≡ (some (a, c), left))
unfolding send_buffer
send_buffer_idle kernel s c socket e =
    after_tcp_send_idle kernel s c socket (tcp_send kernel socket s) e

-- The connection `uid` stays as it is, and its socket is left in another state.
pub idle-Goes :
    (t : NetThread) (uid : ℕ) (c : Connection) (a : Answer) (left : List ℕ)
    → Valid t
    → Has t.connections uid
    → c.uid ≡ uid
    → c.sendbuffer ≡ []
    → Goes t (after_output uid t (some (a, c), left))
idle-Goes t uid c a left v h u s =
    let k = keep-Valid t uid c h u s v in
    record {
      next = record t {
        connections = put uid (some c) t.connections;
        sockets = put uid left t.sockets;
      };
      result = refl;
      valid = record {
        own = k.own;
        seen = k.seen;
        unused = k.unused;
        distinct = k.distinct;
        addressed = k.addressed;
      };
      grows = put-Has t.connections uid c;
      free_eq = refl;
    }

pub own_at :
    (t : NetThread)
    → Valid t
    → (i : ℕ) (c : Connection) → t.connections i ≡ some c
    → (c.uid ≡ i) × (c.sendbuffer ≡ [])
unfolding Own
own_at t v i c h = v.own i c h

pub has : (t : NetThread) (i : ℕ) (c : Connection) → t.connections i ≡ some c → Has t.connections i
unfolding Has
has t i c h = (c, h)

pub same-Goes : (t : NetThread) → Valid t → Goes t (some t)
same-Goes t v = record { next = t; result = refl; valid = v; grows = λ i h. h; free_eq = refl }

pub Goes-Goes :
    (t u : NetThread) (o : Option NetThread)
    → ((i : ℕ) → Has t.connections i → Has u.connections i)
    → u.free ≡ t.free
    → Goes u o
    → Goes t o
Goes-Goes t u o g f s = record {
  next = s.next;
  result = s.result;
  valid = s.valid;
  grows = λ i h. s.grows i (g i h);
  free_eq = s.free_eq ∙ f;
}

pub del_grows :
    (c : Connection) (u t : NetThread)
    → ((i : ℕ) → Has t.connections i → Has u.connections i)
    → (i : ℕ) → Has t.connections i
    → Has (del_connection c u).connections i
unfolding del_connection
del_grows c u t g = g

pub del_free : (c : Connection) (u : NetThread) → (del_connection c u).free ≡ u.free
unfolding del_connection
del_free c u = refl

received-Valid : (t : NetThread) (ds : List RecvData) → Valid t → Valid (record t { received = ds })
received-Valid t ds v = record {
  own = v.own;
  seen = v.seen;
  unused = v.unused;
  distinct = v.distinct;
  addressed = v.addressed;
}

module _ (writev : List ℕ → List Slice → Written) (iov_count : ℕ) where
  -- A part of `processNet`, at a thread that has the connection of the event.
  net_out-Goes :
      (e : Event) (c : Connection) (t : NetThread)
      → Valid t
      → t.connections e.of_uid ≡ some c
      → Goes t (net_out writev iov_count e c t)
  net_out-Goes e c t v h =
      let uid = e.of_uid in
      let (u, s) = own_at t v uid c h in
      let out =
        after_output uid t (flush (writev_of writev iov_count uid t) iov_count c (t.sockets uid)) in
      elim (Bool-cases e.is_out) [
        | inl f ↦
            subst (Goes t)
              (sym (
                ap (λ b. if b then out else some t) f
                ∙ ap (after_output uid t)
                    (nothing_out (writev_of writev iov_count uid t) iov_count c (t.sockets uid) s)))
              (idle-Goes t uid c kept (t.sockets uid) v (has t uid c h) u s)
        | inr f ↦ subst (Goes t) (sym (ap (λ b. if b then out else some t) f)) (same-Goes t v)
      ]

  after_recv-Goes :
      (e : Event) (t : NetThread) (c : Connection) (o : Option (List RecvData) × Connection)
      → Valid t
      → Has t.connections e.of_uid
      → c.uid ≡ e.of_uid
      → c.sendbuffer ≡ []
      → Keeps c o.1
      → Goes t (after_recv writev iov_count e t o)
  unfolding Keeps
  after_recv-Goes e t c (none, d) v h u s (k, l) =
      let kept_one = keep-Valid t e.of_uid d h (k ∙ u) (l ∙ s) v in
      record {
        next = del_connection d (keep e.of_uid d t);
        result = refl;
        valid = del_connection-Valid d (keep e.of_uid d t) kept_one;
        grows = del_grows d (keep e.of_uid d t) t (put-Has t.connections e.of_uid d);
        free_eq = del_free d (keep e.of_uid d t);
      }
  after_recv-Goes e t c (some ds, d) v h u s (k, l) =
      let kept_one = keep-Valid t e.of_uid d h (k ∙ u) (l ∙ s) v in
      let t' = record (keep e.of_uid d t) { received = t.received ++ ds } in
      Goes-Goes t t' (net_out writev iov_count e d t') (put-Has t.connections e.of_uid d) refl (
        net_out-Goes e d t' (received-Valid (keep e.of_uid d t) (t.received ++ ds) kept_one)
          (put_at t.connections e.of_uid d))

  net_connection-Goes :
      (e : Event) (t : NetThread) (c : Connection)
      → Valid t
      → t.connections e.of_uid ≡ some c
      → Goes t (net_connection writev iov_count e t c)
  net_connection-Goes e t c v h =
      let (u, s) = own_at t v e.of_uid c h in
      let out = net_out writev iov_count e c t in
      let in_part = after_recv writev iov_count e t (recv e.answers c) in
      let rest = if e.is_in then in_part else out in
      elim (Bool-cases e.is_error) [
        | inl f ↦
            subst (Goes t) (sym (ap (λ b. if b then some (del_connection c t) else rest) f))
              (record {
                next = del_connection c t;
                result = refl;
                valid = del_connection-Valid c t v;
                grows = del_grows c t t (λ i g. g);
                free_eq = del_free c t;
              })
        | inr f ↦
            subst (Goes t) (sym (ap (λ b. if b then some (del_connection c t) else rest) f))
              (elim (Bool-cases e.is_in) [
                | inl g ↦ subst (Goes t) (sym (ap (λ b. if b then in_part else out) g)) (
                    after_recv-Goes e t c (recv e.answers c) v (has t e.of_uid c h) u s
                      (recv-Keeps e.answers c))
                | inr g ↦
                    subst (Goes t) (sym (ap (λ b. if b then in_part else out) g))
                      (net_out-Goes e c t v h)
              ])
      ]

  pub process_net-Goes :
      (e : Event) (t : NetThread)
      → Valid t
      → Has t.connections e.of_uid
      → Goes t (process_net writev iov_count e t)
  unfolding process_net Has
  process_net-Goes e t v (c, h) =
      subst (Goes t) (sym (ap (λ o. o >>= net_connection writev iov_count e t) h))
        (net_connection-Goes e t c v h)
