-- ===== src/Coroutine/Growing.antt =====
-- The growth of the pool keeps the invariant.
use learn_tars.Base.{
  ℕ, zero, suc, ◌+◌, ◌-◌, ◌<◌, ◌≤◌, ◌^◌, ◌≡◌, ◌≢◌, refl, sym, ap, ◌∙◌, Bool, true, false, [], ◌∷◌,
  ◌++◌, Option, some, arith, Bool-cases, inl, inr, ◌⊎◌, length-append, le→leb, ne→==_false, ==_refl,
  ℕ_discrete,
}
use mathlib.Core.Path.{subst}
use learn_tars.Coroutine.Links.{
  Status, free, active, avail, inactive, timeout, Heap, null, put, set_prev-some, set_next-some,
  set_status-some,
}
use learn_tars.Coroutine.Chains.{has, linked}
use learn_tars.Coroutine.Rings.{has-snoc, add_tail-linked}
use learn_tars.Coroutine.Lists.{head, main, Members, Lists, at, linked-Lists, fresh-Lists}
use learn_tars.Coroutine.Counting.{Listed}
use learn_tars.Coroutine.Invariant.{IsValid}
use learn_tars.Coroutine.Waking.{All-map, Grows}
use learn_tars.Coroutine.Scheduler.{
  Scheduler, pointer_of, uniq_loop, generate_id, new_coroutine, enter, increase_loop,
}

-- The scheduler, with a count of coroutines that the loop has not stored yet.
abbrev pub counting : ℕ → Scheduler → Scheduler
counting k s = record s { current_size = k }

pub uniq_loop_lem : (u : ℕ) → u + 1 < 2 ^ 32 → uniq_loop 2 u ≡ u + 1
unfolding uniq_loop
uniq_loop_lem u p = ground arith

pub generate_id_lem :
    (s : Scheduler)
    → s.uniq_id < s.pool_size
    → s.pool_size < 2 ^ 32
    → generate_id s ≡ some (s.uniq_id + 1, record s { uniq_id = s.uniq_id + 1 })
unfolding generate_id
generate_id_lem s p q =
    rw (uniq_loop_lem s.uniq_id (omega arith), le→leb (s.uniq_id + 1) s.pool_size (omega arith))
      refl

-- The pointer of the next coroutine.
abbrev pub next_coro : Scheduler → ℕ
next_coro s = s.uniq_id + 1 + main

-- The lists with one more free coroutine.
abbrev pub add_free : ℕ → Members → Members
add_free c m = at free (λ xs. xs ++ c ∷ []) m

Listed-add_free : (c : ℕ) (m : Members) (p : ℕ) → Listed m p → Listed (add_free c m) p
Listed-add_free c m p (free, i) = (free, ground (arith, has-snoc p c (m free)))
Listed-add_free c m p (active, i) = (active, i)
Listed-add_free c m p (avail, i) = (avail, i)
Listed-add_free c m p (inactive, i) = (inactive, i)
Listed-add_free c m p (timeout, i) = (timeout, i)

add_free-Listed : (c : ℕ) (m : Members) (p : ℕ) → Listed (add_free c m) p → Listed m p ⊎ (p ≡ c)
add_free-Listed c m p (free, i) = elim (Bool-cases (has p (m free))) [
  | inl j ↦ inl (free, j)
  | inr o ↦ inr (ground (arith, has-snoc p c (m free)))
]
add_free-Listed c m p (active, i) = inl (active, i)
add_free-Listed c m p (avail, i) = inl (avail, i)
add_free-Listed c m p (inactive, i) = inl (inactive, i)
add_free-Listed c m p (timeout, i) = inl (timeout, i)

module _ (k : ℕ) (s : Scheduler) (m : Members) (v : IsValid (counting k s) m)
    (room : s.uniq_id < s.pool_size) where
  coro_new : (t : Status) → has (next_coro s) (m t) ≡ false
  coro_new t = elim (Bool-cases (has (next_coro s) (m t))) [
    | inl i ↦ let a = (v.made (next_coro s) (t, i)).0 in ground arith
    | inr o ↦ o
  ]

  abbrev pub fresh : Heap
  fresh =
      let c = next_coro s in
      let h = s.heap in
      record h { prev = put c null h.prev; next = put c null h.next; status = put c free h.status }

  fresh_free : Lists fresh m
  fresh_free = fresh-Lists s.heap m (next_coro s) free v.lists (omega arith) coro_new

  -- The scheduler after one round of the loops that make coroutines.
  abbrev pub grown : Scheduler
  grown =
      let c = next_coro s in
      record s {
        uniq_id = s.uniq_id + 1;
        heap = linked c (fresh.prev (head free)) (head free) fresh;
        all_coro = put (s.uniq_id + 1) c s.all_coro;
      }

  next_not_null : next_coro s ≢ null
  next_not_null e = omega arith

  pub enter_lem : enter (s.uniq_id + 1) (record s { uniq_id = s.uniq_id + 1 }) ≡ some grown
  unfolding enter new_coroutine pointer_of
  enter_lem =
      let c = next_coro s in
      let z = next_not_null in
      rw
        (
          set_prev-some c s.heap z null,
          set_next-some c _ z null,
          set_status-some c _ z free,
          add_tail-linked (fresh_free.ring free) c z,
        )
        refl

  made_grown :
      (p : ℕ)
      → Listed m p ⊎ (p ≡ next_coro s)
      → (p ≤ s.uniq_id + 1 + main) × (grown.all_coro (p - main) ≡ p)
  made_grown p (inl l) =
      let d = v.made p l in
      let n : p - main ≢ s.uniq_id + 1 = λ e. omega (arith, d.0) in
      (omega (arith, d.0), rw (ne→==_false (p - main) (s.uniq_id + 1) n) d.1)
  made_grown p (inr e) =
      let f : p - main ≡ s.uniq_id + 1 = omega arith in
      (omega arith, rw (f, ==_refl (s.uniq_id + 1)) (sym e))

  found_grown : (id : ℕ) → grown.all_coro id ≢ null → Listed (add_free (next_coro s) m) (id + main)
  found_grown id z = elim (ℕ_discrete id (s.uniq_id + 1)) [
    | yes e ↦ (free, ground (arith, has-snoc (id + main) (next_coro s) (m free)))
    | no n ↦
        Listed-add_free (next_coro s) m (id + main)
          (v.found id λ f. z (rw (ne→==_false id (s.uniq_id + 1) n) f))
  ]

  pub grown-IsValid : IsValid (counting (k + 1) grown) (add_free (next_coro s) m)
  grown-IsValid =
      let g : Grows m (add_free (next_coro s) m) = Listed-add_free (next_coro s) m in
      let o = length-append (m free) (next_coro s ∷ []) in
      record {
        lists = linked-Lists fresh_free free (next_coro s) (omega arith) (ground arith) coro_new;
        made = λ p q. made_grown p (add_free-Listed (next_coro s) m p q);
        found = found_grown;
        uniq_le = omega arith;
        pool_lt = v.pool_lt;
        used_eq = v.used_eq;
        current_eq = omega (arith, v.current_eq, o);
        current_le = omega (arith, v.current_le);
        need_known = All-map (λ x j. g (x + main) j) s.need_active v.need_known;
        queue_known = All-map (λ x j. g (x + main) j) s.active_queue.queue v.queue_known;
        times_known = All-map (λ x j. g (x.1 + main) j) s.timeouts v.times_known;
      }

-- The list of members after `n` rounds.
unfoldable pub add_frees : ℕ → ℕ → Members → Members
add_frees zero c m = m
add_frees (suc n) c m = add_frees n (c + 1) (add_free c m)

-- What the loops change, apart from the lists: `n` identifiers are given out.
pub record Grew (n : ℕ) (s s' : Scheduler) : Type 0 where
  pub uniq_eq : s'.uniq_id ≡ s.uniq_id + n
  pub current_size_eq : s'.current_size ≡ s.current_size
  pub pool_eq : s'.pool_size ≡ s.pool_size
  pub stack_eq : s'.stack_size ≡ s.stack_size
  pub current_eq : s'.current ≡ s.current
  pub terminal_eq : s'.terminal ≡ s.terminal

increase_step :
    (allocate : ℕ → ℕ → Option Bool) (n made k : ℕ) (s : Scheduler) (m : Members)
    → ((id : ℕ) → allocate s.stack_size id ≡ some true)
    → (v : IsValid (counting k s) m) → (p : s.uniq_id < s.pool_size)
    → increase_loop allocate (suc n) made s ≡ increase_loop allocate n (made + 1) (grown k s m v p)
unfolding increase_loop
increase_step allocate n made k s m a v p =
    rw (generate_id_lem s p v.pool_lt, a (s.uniq_id + 1), enter_lem k s m v p) refl

-- What the loop leaves that makes coroutines, when there is memory for all.
pub increase_loop_lem :
    (allocate : ℕ → ℕ → Option Bool) (n made k : ℕ) (s : Scheduler) (m : Members)
    → ((id : ℕ) → allocate s.stack_size id ≡ some true)
    → IsValid (counting k s) m
    → s.uniq_id + n ≤ s.pool_size
    → (s' : Scheduler) × (increase_loop allocate n made s ≡ some (made + n, s'))
      × IsValid (counting (k + n) s') (add_frees n (next_coro s) m)
      × Grew n s s'
unfolding increase_loop add_frees
increase_loop_lem allocate zero made k s m a v r =
    let e : made + 0 ≡ made = omega arith in
    let f : k + 0 ≡ k = omega arith in
    (
      s,
      rw e refl,
      rw f v,
      record {
        uniq_eq = omega arith;
        current_size_eq = refl;
        pool_eq = refl;
        stack_eq = refl;
        current_eq = refl;
        terminal_eq = refl;
      },
    )
increase_loop_lem allocate (suc n) made k s m a v r =
    let p : s.uniq_id < s.pool_size = omega arith in
    let g = grown k s m v p in
    let (s', e, w, h) =
      increase_loop_lem allocate n (made + 1) (k + 1) g (add_free (next_coro s) m) a
        (grown-IsValid k s m v p) (omega arith) in
    let e1 : made + 1 + n ≡ made + suc n = omega arith in
    let e2 : k + 1 + n ≡ k + suc n = omega arith in
    let e3 : next_coro g ≡ next_coro s + 1 = omega arith in
    (
      s',
      increase_step allocate n made k s m a v p ∙ e ∙ ap (λ x. some (x, s')) e1,
      subst
          (λ x. IsValid (counting x s') (add_frees n (next_coro s + 1) (add_free (next_coro s) m)))
          e2
          (subst (λ x. IsValid (counting (k + 1 + n) s') (add_frees n x (add_free (next_coro s) m)))
            e3 w),
      record {
        uniq_eq = omega (arith, h.uniq_eq);
        current_size_eq = h.current_size_eq;
        pool_eq = h.pool_eq;
        stack_eq = h.stack_eq;
        current_eq = h.current_eq;
        terminal_eq = h.terminal_eq;
      },
    )
