-- ===== src/Server/Exhausted.antt =====
-- The identifiers that `createEpoll` provides, and how they are used up.
use mathlib.Core.Path.{subst}
use learn_tars.Base.{
  ℕ, zero, suc, ◌+◌, ◌-◌, ◌≤◌, ◌≡◌, ◌≢◌, ◌<◌, refl, sym, ap, ◌∙◌, true, false, List, [], ◌∷◌, ◌++◌,
  append-nil, append_assoc, length, Option, none, some, arith, All,
}
use learn_tars.Base.Words.{add64}
use learn_tars.Server.Slices.{Slice, Written}
use learn_tars.Server.Connection.{Connection}
use learn_tars.Server.NetThread.{
  NetThread, count_up, free_loop, total, create_epoll, take_uid, add_tcp_connection, new_connection,
}
use learn_tars.Server.Steps.{fresh, accepted, Has, Reaches, here, after}
use learn_tars.Server.Valid.{Own, Unused, Differs, Distinct, Valid}
use learn_tars.Server.Safety.{step-Advances, accepts, Reaches-Advances}

count_up-Differs : (i j n : ℕ) → i < j → All (Differs i) (count_up j n)
unfolding count_up
count_up-Differs i j zero l = tt
count_up-Differs i j (suc n) l = (ground arith, count_up-Differs i (j + 1) n (omega arith))

count_up-Distinct : (i n : ℕ) → Distinct (count_up i n)
unfolding count_up
count_up-Distinct i zero = tt
count_up-Distinct i (suc n) =
    (count_up-Differs i (i + 1) n (omega arith), count_up-Distinct (i + 1) n)

length-count_up : (i n : ℕ) → length (count_up i n) ≡ n
unfolding count_up
length-count_up i zero = refl
length-count_up i (suc n) = ap suc (length-count_up (i + 1) n)

nobody_yet : (is : List ℕ) → All (Unused (λ i. none)) is
unfolding Unused
nobody_yet [] = tt
nobody_yet (i ∷ is) = (refl, nobody_yet is)

free_loop_lem :
    (is : List ℕ) (t : NetThread)
    → (n : ℕ) × (free_loop is t ≡ record t { free = t.free ++ is; free_size = n })
unfolding free_loop
free_loop_lem [] t = (t.free_size, ap (λ f. record t { free = f }) (sym (append-nil t.free)))
free_loop_lem (i ∷ is) t =
    let t' = record t { free = t.free ++ i ∷ []; free_size = add64 t.free_size 1 } in
    let (n, h) = free_loop_lem is t' in
    (n, h ∙ ap (λ f. record t { free = f; free_size = n }) (append_assoc t.free (i ∷ []) is))

-- A thread that has `is` to give, and no connection.
abbrev pub giving : List ℕ → ℕ → NetThread
giving is n = record fresh { free = is; free_size = n }

pub giving-Valid : (is : List ℕ) (n : ℕ) → Distinct is → Valid (giving is n)
unfolding Own Has
giving-Valid is n d = record {
  own = λ i c h.
      let g : ◌≡◌ {A = Option Connection} none (some c) = h in let no : ⊥ = cc in elim no [ ];
  seen = λ i w. let g : false ≡ true = w in let no : ⊥ = cc in elim no [ ];
  unused = nobody_yet is;
  distinct = d;
  addressed = tt;
}

-- `createEpoll` leaves a valid thread with 200000 free identifiers, no two of which are the same.
pub create_epoll-Valid : Valid (create_epoll fresh) × (length (create_epoll fresh).free ≡ total)
unfolding create_epoll
create_epoll-Valid =
    let (n, h) = free_loop_lem (count_up 1 total) fresh in
    (
      subst Valid (sym h) (giving-Valid (count_up 1 total) n (count_up-Distinct 1 total)),
      ap (λ t. length t.free) h ∙ length-count_up 1 total,
    )

module _ (writev : List ℕ → List Slice → Written) (iov_count : ℕ)
    (kernel : List ℕ → List ℕ → Written) where
  none_left :
      (t : NetThread) (free : List ℕ) → length free ≡ 0 → take_uid new_connection t free ≡ none
  none_left t [] e = refl
  none_left t (i ∷ is) e = let no : ⊥ = omega (arith, e) in elim no [ ]

  -- After `createEpoll` and 200000 connections, however many of them have been closed,
  -- `addTcpConnection` takes the front of an empty list.
  pub exhausted :
      (u : NetThread) (r : Reaches writev iov_count kernel (create_epoll fresh) u)
      → accepts writev iov_count kernel r ≡ total
      → add_tcp_connection new_connection u ≡ none
  unfolding add_tcp_connection
  exhausted u r e =
      let (v, n) = Reaches-Advances writev iov_count kernel create_epoll-Valid.0 r in
      none_left u u.free (omega (arith, n, e, create_epoll-Valid.1))

  some_left : (is : List ℕ) (n : ℕ) → length is ≡ suc n → is ≢ []
  some_left is n e f = let no : ⊥ = omega (arith, e, ap length f) in elim no [ ]

  -- A state that is reached by `n` connections.
  pub record Filled (n : ℕ) : Type 0 where
    pub thread : NetThread
    pub way : Reaches writev iov_count kernel (create_epoll fresh) thread
    pub count : accepts writev iov_count kernel way ≡ n

  one_more : (n : ℕ) → n < total → Filled n → Filled (suc n)
  one_more n l f =
      let (v, left) = Reaches-Advances writev iov_count kernel create_epoll-Valid.0 f.way in
      let p =
        some_left f.thread.free (total - suc n)
          (omega (arith, left, f.count, l, create_epoll-Valid.1)) in
      let a = step-Advances writev iov_count kernel accepted f.thread v p in
      record {
        thread = a.next;
        way = after accepted f.way p a.result;
        count = omega (arith, f.count);
      }

  -- As many connections as there are identifiers are accepted.
  pub fill : (n : ℕ) → n ≤ total → Filled n
  fill zero l = record { thread = create_epoll fresh; way = here; count = refl }
  fill (suc n) l = one_more n (omega arith) (fill n (omega arith))
