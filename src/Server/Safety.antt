-- ===== src/Server/Safety.antt =====
-- Whatever happens to a network thread, no call goes through NULL, and an identifier that has been
-- taken does not come back.
use mathlib.Core.Path.{subst}
use learn_tars.Base.{
  ℕ, ◌+◌, ◌≡◌, ◌≢◌, refl, sym, ap, ◌∙◌, Bool, true, List, [], ◌∷◌, ◌++◌, length, ◌==◌, Bool-cases,
  if◌then◌else◌, Option, none, some, arith, inl, inr, All,
}
use learn_tars.Base.Words.{sub64}
use learn_tars.Server.Slices.{Slice, Written}
use learn_tars.Server.Connection.{Connection}
use learn_tars.Server.NetThread.{
  NetThread, cmd_send, cmd_close, SendData, put, take_uid, add_tcp_connection, new_connection, send,
  close, terminate,
}
use learn_tars.Server.Steps.{
  Step, accepted, net_event, notified, sends, closes, terminates, Has, Possible, step, Reaches,
  here, after,
}
use learn_tars.Server.Valid.{
  Connections, Answerable, Unused, Distinct, Valid, put-Has, put-Own, All-Unused-put,
  put-Answerable,
}
use learn_tars.Server.Registry.{Goes, process_net-Goes}
use learn_tars.Server.Pipe.{process_pipe-Goes}

-- How many identifiers a step takes.
abbrev pub taken : Step → ℕ
taken accepted = 1
taken _ = 0

-- What a step leaves.
pub record Advances (t : NetThread) (s : Step) (o : Option NetThread) : Type 0 where
  pub next : NetThread
  pub result : o ≡ some next
  pub valid : Valid next
  pub grows : (i : ℕ) → Has t.connections i → Has next.connections i
  pub counts : taken s + length next.free ≡ length t.free

now_seen :
    (t : NetThread) (uid : ℕ) (c : Connection)
    → ((i : ℕ) → t.watched i ≡ true → Has t.connections i)
    → (i : ℕ) → put uid true t.watched i ≡ true
    → Has (put uid (some c) t.connections) i
unfolding Has
now_seen t uid c g i w = elim (Bool-cases (i == uid)) [
  | inl e ↦ (c, ap (λ b. if b then some c else t.connections i) e)
  | inr e ↦
      put-Has t.connections uid c i (g i (sym (ap (λ b. if b then true else t.watched i) e) ∙ w))
]

pub take_uid-Advances :
    (t : NetThread) (free : List ℕ)
    → Valid t
    → t.free ≡ free
    → free ≢ []
    → Advances t accepted (take_uid new_connection t free)
take_uid-Advances t [] v e n = let no : ⊥ = n refl in elim no [ ]
take_uid-Advances t (uid ∷ free) v e n =
    let m = t.connections in
    let c = record new_connection { uid = uid } in
    let unused : All (Unused m) (uid ∷ free) = subst (All (Unused m)) e v.unused in
    let distinct : Distinct (uid ∷ free) = subst Distinct e v.distinct in
    record {
      next = record t {
        free = free;
        free_size = sub64 t.free_size 1;
        connections = put uid (some c) m;
        watched = put uid true t.watched;
        is_open = put uid true t.is_open;
        sockets = put uid [] t.sockets;
      };
      result = refl;
      valid = record {
        own = put-Own m uid c refl refl v.own;
        seen = λ i w. now_seen t uid c v.seen i w;
        unused = All-Unused-put m uid c free distinct.0 unused.1;
        distinct = distinct.1;
        addressed = put-Answerable m uid c t.sbuffer v.addressed;
      };
      grows = put-Has m uid c;
      counts = omega (arith, ap length e);
    }

-- A call that takes no identifier.
of_Goes :
    (t : NetThread) (s : Step) (o : Option NetThread) → taken s ≡ 0 → Goes t o → Advances t s o
of_Goes t s o z g = record {
  next = g.next;
  result = g.result;
  valid = g.valid;
  grows = g.grows;
  counts = omega (arith, z, ap length g.free_eq);
}

queued :
    (m : Connections) (ds : List SendData) (d : SendData)
    → All (λ d. Answerable m d.cmd d.to_uid) ds
    → Answerable m d.cmd d.to_uid
    → All (λ d. Answerable m d.cmd d.to_uid) (ds ++ d ∷ [])
queued m [] d hs h = (h, tt)
queued m (x ∷ ds) d (g, hs) h = (g, queued m ds d hs h)

-- The queue of the handlers is replaced.
with_sbuffer :
    (t : NetThread) (ds : List SendData) (b : Bool)
    → Valid t
    → All (λ d. Answerable t.connections d.cmd d.to_uid) ds
    → Goes t (some (record t { sbuffer = ds; b_terminate = b }))
with_sbuffer t ds b v h = record {
  next = record t { sbuffer = ds; b_terminate = b };
  result = refl;
  valid = record {
    own = v.own;
    seen = v.seen;
    unused = v.unused;
    distinct = v.distinct;
    addressed = h;
  };
  grows = λ i g. g;
  free_eq = refl;
}

send-Goes :
    (t : NetThread) (uid : ℕ) (s : List ℕ)
    → Valid t
    → Has t.connections uid
    → Goes t (some (send uid s t))
unfolding send
send-Goes t uid s v h =
    let queue = t.sbuffer ++ record { cmd = cmd_send; to_uid = uid; buffer = s } ∷ [] in
    let t' = record t { sbuffer = queue } in
    elim (Bool-cases t.b_terminate) [
      | inl e ↦
          subst (λ u. Goes t (some u)) (sym (ap (λ b. if b then t else t') e))
            (with_sbuffer t t.sbuffer t.b_terminate v v.addressed)
      | inr e ↦
          subst (λ u. Goes t (some u)) (sym (ap (λ b. if b then t else t') e))
            (with_sbuffer t queue t.b_terminate v (
              queued t.connections t.sbuffer (record { cmd = cmd_send; to_uid = uid; buffer = s })
                v.addressed h))
    ]

module _ (writev : List ℕ → List Slice → Written) (iov_count : ℕ)
    (kernel : List ℕ → List ℕ → Written) where
  pub step-Advances :
      (s : Step) (t : NetThread)
      → Valid t
      → Possible t s
      → Advances t s (step writev iov_count kernel s t)
  unfolding step add_tcp_connection close terminate
  step-Advances accepted t v n = take_uid-Advances t t.free v refl n
  step-Advances (net_event e) t v w =
      of_Goes t (net_event e) _ refl (process_net-Goes writev iov_count e t v (v.seen e.of_uid w))
  step-Advances notified t v p = of_Goes t notified _ refl (process_pipe-Goes kernel t v)
  step-Advances (sends uid s) t v h = of_Goes t (sends uid s) _ refl (send-Goes t uid s v h)
  step-Advances (closes uid) t v p = of_Goes t (closes uid) _ refl (
      with_sbuffer t _ t.b_terminate v (
        queued t.connections t.sbuffer (record { cmd = cmd_close; to_uid = uid; buffer = [] })
          v.addressed tt))
  step-Advances terminates t v p =
      of_Goes t terminates _ refl (with_sbuffer t t.sbuffer true v v.addressed)

  -- How many connections have been accepted.
  abbrev pub accepts : {t u : NetThread} → Reaches writev iov_count kernel t u → ℕ
  accepts here = 0
  accepts (after s r p e) = taken s + accepts r

  pub Reaches-Advances :
      {t u : NetThread}
      → Valid t
      → (r : Reaches writev iov_count kernel t u)
      → Valid u × (accepts r + length u.free ≡ length t.free)
  Reaches-Advances v here = (v, omega arith)
  Reaches-Advances v (after {u = u} {v = w} s r p e) =
      let (x, n) = Reaches-Advances v r in
      let a = step-Advances s u x p in
      let same : a.next ≡ w = ap (λ o. elim o [ none ↦ w | some y ↦ y ]) (sym a.result ∙ e) in
      (subst Valid same a.valid, omega (arith, n, a.counts, ap (λ y. length y.free) same))

  -- From a valid thread, whatever has happened to it, the next step goes through no NULL, fails no
  -- assertion and leaves a valid thread, in which the connection under each identifier knows it,
  -- and no free identifier is in use. It takes one identifier if it accepts a connection, and gives
  -- none back. Accepting is for as long as an identifier is free, events are of connections that
  -- epoll watches, and handlers answer to connections that there have been.
  pub step_reached :
      (t u : NetThread) (s : Step)
      → Valid t
      → Reaches writev iov_count kernel t u
      → Possible u s
      → Advances u s (step writev iov_count kernel s u)
  step_reached t u s v r p = step-Advances s u (Reaches-Advances v r).0 p
