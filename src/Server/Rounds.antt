-- ===== src/Server/Rounds.antt =====
-- The loop of a network thread goes through no NULL, whatever other threads do meanwhile.
use mathlib.Core.Path.{subst}
use learn_tars.Base.{
  ℕ, suc, ◌+◌, ◌≡◌, ◌≢◌, ◌≤◌, refl, sym, ap, ◌∙◌, Bool, true, false, List, [], ◌∷◌, length,
  Bool-cases, if◌then◌else◌, Option, some, ◌>>=◌, arith, inl, inr,
}
use learn_tars.Server.Slices.{Slice, Written}
use learn_tars.Server.NetThread.{NetThread, add_tcp_connection, new_connection}
use learn_tars.Server.Steps.{Has, Step, step, sends, closes, terminates}
use learn_tars.Server.Valid.{Valid}
use learn_tars.Server.Registry.{Goes, process_net-Goes}
use learn_tars.Server.Pipe.{process_pipe-Goes}
use learn_tars.Server.Safety.{Advances, taken, step-Advances, take_uid-Advances}
use learn_tars.Server.Dispatch.{
  Accepted, connected, no_more, refused, et_listen, et_close, et_notify, et_net, Happening,
  reported, given, asked_send, asked_close, asked_stop, is_own, accept, go_on, accept_loop,
  dispatch, happen, run_events, run,
}

-- How many connections a happening brings at most.
abbrev pub arrivals : List Accepted → ℕ
arrivals [] = 0
arrivals (connected fd ∷ more) = suc (arrivals more)
arrivals (no_more ∷ more) = arrivals more
arrivals (refused ∷ more) = arrivals more

abbrev pub brings : Happening → ℕ
brings (reported (et_listen b more)) = arrivals more
brings given = 1
brings _ = 0

abbrev pub bring_all : List Happening → ℕ
bring_all [] = 0
bring_all (e ∷ es) = brings e + bring_all es

abbrev pub bring_rounds : List (List Happening) → ℕ
bring_rounds [] = 0
bring_rounds (es ∷ rounds) = bring_all es + bring_rounds rounds

-- An event, or an answer of a handler, is of a connection that there is.
abbrev pub Known : NetThread → Happening → Type 0
Known t (reported (et_net e)) = Has t.connections e.of_uid
Known t (asked_send uid s) = Has t.connections uid
Known t _ = Unit

-- What is left after at most `k` connections have been accepted.
pub record Serves (t : NetThread) (k : ℕ) (o : Option NetThread) : Type 0 where
  pub next : NetThread
  pub result : o ≡ some next
  pub valid : Valid next
  pub grows : (i : ℕ) → Has t.connections i → Has next.connections i
  pub counts : length t.free ≤ k + length next.free

idle-Serves : (t : NetThread) (k : ℕ) → Valid t → Serves t k (some t)
idle-Serves t k v = record {
  next = t;
  result = refl;
  valid = v;
  grows = λ i h. h;
  counts = omega arith;
}

-- One call after another.
Serves-Serves :
    (t : NetThread) (j k : ℕ) (o : Option NetThread) (f : NetThread → Option NetThread)
    → (s : Serves t j o) → Serves s.next k (f s.next)
    → Serves t (j + k) (o >>= f)
Serves-Serves t j k o f s r = record {
  next = r.next;
  result = ap (λ x. x >>= f) s.result ∙ r.result;
  valid = r.valid;
  grows = λ i h. r.grows i (s.grows i h);
  counts = omega (arith, s.counts, r.counts);
}

of_Goes-Serves : (t : NetThread) (o : Option NetThread) → Goes t o → Serves t 0 o
of_Goes-Serves t o g = record {
  next = g.next;
  result = g.result;
  valid = g.valid;
  grows = g.grows;
  counts = omega (arith, ap length g.free_eq);
}

of_Advances-Serves :
    (t : NetThread) (s : Step) (o : Option NetThread) → Advances t s o → Serves t (taken s) o
of_Advances-Serves t s o a = record {
  next = a.next;
  result = a.result;
  valid = a.valid;
  grows = a.grows;
  counts = omega (arith, a.counts);
}

not_empty : (t : NetThread) → 1 ≤ length t.free → t.free ≢ []
not_empty t l e = let no : ⊥ = omega (arith, l, ap length e) in elim no [ ]

connected-Serves :
    (t : NetThread) → Valid t → 1 ≤ length t.free → Serves t 1 (add_tcp_connection new_connection t)
unfolding add_tcp_connection
connected-Serves t v l =
    let a = take_uid-Advances t t.free v refl (not_empty t l) in
    record {
      next = a.next;
      result = a.result;
      valid = a.valid;
      grows = a.grows;
      counts = omega (arith, a.counts);
    }

module _ (threads index : ℕ) where
  accept_loop-Serves :
      (more : List Accepted) (t : NetThread)
      → Valid t
      → arrivals more ≤ length t.free
      → Serves t (arrivals more) (accept_loop threads index more t)
  unfolding accept_loop accept
  accept_loop-Serves [] t v l = idle-Serves t 0 v
  accept_loop-Serves (no_more ∷ more) t v l = idle-Serves t (arrivals more) v
  accept_loop-Serves (refused ∷ more) t v l = accept_loop-Serves more t v l
  accept_loop-Serves (connected fd ∷ more) t v l =
      let added : Option (Bool × NetThread) =
        add_tcp_connection new_connection t >>= λ t'. some (true, t') in
      let loop = go_on (accept_loop threads index more) in
      let pick : Bool → Option NetThread = λ b. (if b then added else some (true, t)) >>= loop in
      elim (Bool-cases (is_own threads index fd)) [
        | inl e ↦
            let s = connected-Serves t v (omega arith) in
            let r = accept_loop-Serves more s.next s.valid (omega (arith, l, s.counts)) in
            record {
              next = r.next;
              result =
                  ap pick e ∙ ap (λ o. (o >>= λ t'. some (true, t')) >>= loop) s.result ∙ r.result;
              valid = r.valid;
              grows = λ i h. r.grows i (s.grows i h);
              counts = omega (arith, s.counts, r.counts);
            }
        | inr e ↦
            let r = accept_loop-Serves more t v (omega arith) in
            record {
              next = r.next;
              result = ap pick e ∙ r.result;
              valid = r.valid;
              grows = r.grows;
              counts = omega (arith, r.counts);
            }
      ]

module _ (writev : List ℕ → List Slice → Written) (iov_count : ℕ)
    (kernel : List ℕ → List ℕ → Written) (threads index : ℕ) where
  happen-Serves :
      (e : Happening) (t : NetThread)
      → Valid t
      → Known t e
      → brings e ≤ length t.free
      → Serves t (brings e) (happen writev iov_count kernel threads index e t)
  unfolding happen dispatch step
  happen-Serves (reported (et_listen true more)) t v h l =
      accept_loop-Serves threads index more t v l
  happen-Serves (reported (et_listen false more)) t v h l = idle-Serves t (arrivals more) v
  happen-Serves (reported et_close) t v h l = idle-Serves t 0 v
  happen-Serves (reported et_notify) t v h l = of_Goes-Serves t _ (process_pipe-Goes kernel t v)
  happen-Serves (reported (et_net e)) t v h l =
      of_Goes-Serves t _ (process_net-Goes writev iov_count e t v h)
  happen-Serves given t v h l = connected-Serves t v l
  happen-Serves (asked_send uid s) t v h l =
      of_Advances-Serves t (sends uid s) _
        (step-Advances writev iov_count kernel (sends uid s) t v h)
  happen-Serves (asked_close uid) t v h l =
      of_Advances-Serves t (closes uid) _
        (step-Advances writev iov_count kernel (closes uid) t v tt)
  happen-Serves asked_stop t v h l =
      of_Advances-Serves t terminates _ (step-Advances writev iov_count kernel terminates t v tt)

  -- Each event and each answer is of a connection that there is by then.
  abbrev pub KnownEvents : List Happening → NetThread → Type 0
  KnownEvents [] t = Unit
  KnownEvents (e ∷ es) t =
      Known t e
      × ((u : NetThread)
          → happen writev iov_count kernel threads index e t ≡ some u
          → KnownEvents es u)

  abbrev pub KnownIn : List (List Happening) → NetThread → Type 0
  KnownIn [] t = Unit
  KnownIn (es ∷ rounds) t =
      KnownEvents es t
      × ((u : NetThread)
          → run_events writev iov_count kernel threads index es t ≡ some u
          → KnownIn rounds u)

  run_events-Serves :
      (es : List Happening) (t : NetThread)
      → Valid t
      → KnownEvents es t
      → bring_all es ≤ length t.free
      → Serves t (bring_all es) (run_events writev iov_count kernel threads index es t)
  unfolding run_events
  run_events-Serves [] t v h l = idle-Serves t 0 v
  run_events-Serves (e ∷ es) t v (h, k) l =
      let s = happen-Serves e t v h (omega arith) in
      Serves-Serves t (brings e) (bring_all es) _
        (run_events writev iov_count kernel threads index es) s
        (run_events-Serves es s.next s.valid (k s.next s.result) (omega (arith, l, s.counts)))

  -- From a valid thread with as many free identifiers as connections arrive, any number of rounds
  -- of `run`, with the calls that other threads make between two events, go through no NULL and
  -- fail no assertion, and leave a valid thread. The free identifiers become fewer by no more than
  -- the connections that arrive, and every connection is still known. Each event, and each answer
  -- of a handler, is of a connection that there is by then.
  pub run-Serves :
      (rounds : List (List Happening)) (t : NetThread)
      → Valid t
      → KnownIn rounds t
      → bring_rounds rounds ≤ length t.free
      → Serves t (bring_rounds rounds) (run writev iov_count kernel threads index rounds t)
  unfolding run
  run-Serves [] t v h l = idle-Serves t 0 v
  run-Serves (es ∷ rounds) t v (h, k) l =
      let s = run_events-Serves es t v h (omega arith) in
      let later = run writev iov_count kernel threads index rounds in
      let rest = run_events writev iov_count kernel threads index es t >>= later in
      let all = bring_rounds (es ∷ rounds) in
      elim (Bool-cases t.b_terminate) [
        | inl e ↦
            subst (Serves t all) (sym (ap (λ b. if b then some t else rest) e))
              (idle-Serves t all v)
        | inr e ↦ subst (Serves t all) (sym (ap (λ b. if b then some t else rest) e)) (
            Serves-Serves t (bring_all es) (bring_rounds rounds) _ later s
              (run-Serves rounds s.next s.valid (k s.next s.result) (omega (arith, l, s.counts))))
      ]
