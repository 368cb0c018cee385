-- ===== src/Server/Pipe.antt =====
-- `processPipe` does what the handlers have asked for without going through NULL.
use mathlib.Core.Path.{subst}
use learn_tars.Base.{
  ℕ, ◌≡◌, refl, sym, ap, ◌∙◌, Bool, true, false, List, [], ◌∷◌, Option, none, some, ◌>>=◌, All,
}
use learn_tars.Server.Slices.{Written}
use learn_tars.Server.Connection.{Connection, set_close}
use learn_tars.Server.NetThread.{
  NetThread, Cmd, cmd_send, cmd_close, cmd_other, SendData, keep, del_connection, after_output,
  kernel_of, after_set_close, close_found, send_found, pipe_one, pipe_loop, process_pipe,
}
use learn_tars.Server.Steps.{Has}
use learn_tars.Server.Valid.{Valid, Answerable, put-Has, keep-Valid, del_connection-Valid}
use learn_tars.Server.Registry.{
  Goes, Keeps, set_close-Keeps, send_buffer_idle, own_at, has, same-Goes, Goes-Goes, idle-Goes,
  del_grows, del_free,
}

after_set_close-Goes :
    (t : NetThread) (uid : ℕ) (c : Connection) (o : Bool × Connection)
    → Valid t
    → Has t.connections uid
    → c.uid ≡ uid
    → c.sendbuffer ≡ []
    → Keeps c o.1
    → Goes t (some (after_set_close uid t o))
unfolding Keeps
after_set_close-Goes t uid c (true, d) v h u s (k, l) = record {
  next = del_connection d (keep uid d t);
  result = refl;
  valid = del_connection-Valid d (keep uid d t) (keep-Valid t uid d h (k ∙ u) (l ∙ s) v);
  grows = del_grows d (keep uid d t) t (put-Has t.connections uid d);
  free_eq = del_free d (keep uid d t);
}
after_set_close-Goes t uid c (false, d) v h u s (k, l) = record {
  next = keep uid d t;
  result = refl;
  valid = keep-Valid t uid d h (k ∙ u) (l ∙ s) v;
  grows = put-Has t.connections uid d;
  free_eq = refl;
}

close_found-Goes :
    (t : NetThread) (uid : ℕ) (o : Option Connection)
    → Valid t
    → t.connections uid ≡ o
    → Goes t (close_found uid t o)
close_found-Goes t uid none v h = same-Goes t v
close_found-Goes t uid (some c) v h =
    let (u, s) = own_at t v uid c h in
    after_set_close-Goes t uid c (set_close c) v (has t uid c h) u s (set_close-Keeps c)

Answerable-grows :
    (t u : NetThread)
    → ((i : ℕ) → Has t.connections i → Has u.connections i)
    → (d : Cmd) (i : ℕ) → Answerable t.connections d i
    → Answerable u.connections d i
Answerable-grows t u g cmd_send i h = g i h
Answerable-grows t u g cmd_close i h = tt
Answerable-grows t u g cmd_other i h = h

still_asked :
    (t u : NetThread)
    → ((i : ℕ) → Has t.connections i → Has u.connections i)
    → (ds : List SendData) → All (λ d. Answerable t.connections d.cmd d.to_uid) ds
    → All (λ d. Answerable u.connections d.cmd d.to_uid) ds
still_asked t u g [] h = tt
still_asked t u g (d ∷ ds) (h, hs) =
    (Answerable-grows t u g d.cmd d.to_uid h, still_asked t u g ds hs)

module _ (kernel : List ℕ → List ℕ → Written) where
  send_found-Goes :
      (d : SendData) (t : NetThread) (c : Connection)
      → Valid t
      → t.connections d.to_uid ≡ some c
      → Goes t (send_found kernel d t c)
  send_found-Goes d t c v h =
      let uid = d.to_uid in
      let (u, s) = own_at t v uid c h in
      let (a, left, e) = send_buffer_idle (kernel_of kernel uid t) d.buffer c (t.sockets uid) s in
      subst (Goes t) (sym (ap (after_output uid t) e))
        (idle-Goes t uid c a left v (has t uid c h) u s)

  pipe_one-Goes :
      (cmd : Cmd) (d : SendData) (t : NetThread)
      → Valid t
      → Answerable t.connections cmd d.to_uid
      → Goes t (pipe_one kernel cmd d t)
  unfolding Has
  pipe_one-Goes cmd_close d t v a = close_found-Goes t d.to_uid (t.connections d.to_uid) v refl
  pipe_one-Goes cmd_send d t v (c, h) =
      subst (Goes t) (sym (ap (λ o. o >>= send_found kernel d t) h)) (send_found-Goes d t c v h)
  pipe_one-Goes cmd_other d t v a = elim a [ ]

  pipe_loop-Goes :
      (ds : List SendData) (t : NetThread)
      → Valid t
      → All (λ d. Answerable t.connections d.cmd d.to_uid) ds
      → Goes t (pipe_loop kernel ds t)
  unfolding pipe_loop
  pipe_loop-Goes [] t v a = same-Goes t v
  pipe_loop-Goes (d ∷ ds) t v (a, as') =
      let one = pipe_one-Goes d.cmd d t v a in
      subst (Goes t) (sym (ap (λ o. o >>= pipe_loop kernel ds) one.result)) (
        Goes-Goes t one.next (pipe_loop kernel ds one.next) one.grows one.free_eq
          (pipe_loop-Goes ds one.next one.valid (still_asked t one.next one.grows ds as')))

  pub process_pipe-Goes : (t : NetThread) → Valid t → Goes t (process_pipe kernel t)
  unfolding process_pipe
  process_pipe-Goes t v =
      let t' = record t { sbuffer = [] } in
      let v' : Valid t' = record {
        own = v.own;
        seen = v.seen;
        unused = v.unused;
        distinct = v.distinct;
        addressed = tt;
      } in
      Goes-Goes t t' (pipe_loop kernel t.sbuffer t') (λ i h. h) refl
        (pipe_loop-Goes t.sbuffer t' v' v.addressed)
