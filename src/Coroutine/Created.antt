-- ===== src/Coroutine/Created.antt =====
-- What `createCoroutine` does to a valid scheduler that has lost no identifier, when there is memory.
use mathlib.Core.Path.{subst}
use learn_tars.Base.{
  ℕ, zero, suc, ◌+◌, ◌-◌, ◌<◌, ◌≡◌, refl, sym, ap, ◌∙◌, Bool, true, false, List, [], ◌∷◌, ◌++◌,
  Option, some, arith, if◌then◌else◌, inl, inr, ◌⊎◌, length, leb, le→leb, lt→leb_false,
}
use learn_tars.Base.Words.{sub32}
use learn_tars.Coroutine.Links.{Status, free, active, avail, inactive, timeout, same}
use learn_tars.Coroutine.Chains.{has}
use learn_tars.Coroutine.Rings.{head_empty-is_nil, has-snoc}
use learn_tars.Coroutine.Lists.{main, Members, one_list}
use learn_tars.Coroutine.Moves.{moved}
use learn_tars.Coroutine.Counting.{used_of, has-moved}
use learn_tars.Coroutine.Invariant.{IsValid}
use learn_tars.Coroutine.Growing.{add_free, add_frees, next_coro}
use learn_tars.Coroutine.Creating.{using, take_free_lem, increment, grown_members, increase_lem}
use learn_tars.Coroutine.Scheduler.{Scheduler, take_free, create_coroutine, increase_coro_pool_size}

-- The pointer stands in a list other than that of the free coroutines.
abbrev pub Used : Members → ℕ → Type 0
Used m p = (u : Status) × (same free u ≡ false) × (has p (m u) ≡ true)

-- A new coroutine: the scheduler after the call, its lists, and the identifier that is answered,
-- whose coroutine was not in use and is available now. The others stay in use.
pub record Creates (s : Scheduler) (m : Members) (o : Option (ℕ × Scheduler)) : Type 0 where
  pub after : Scheduler
  pub members : Members
  pub uid : ℕ
  pub result : o ≡ some (uid, after)
  pub valid : IsValid after members
  pub is_avail : has (uid + main) (members avail) ≡ true
  pub was_not_used : Used m (uid + main) → ⊥
  pub keeps : (p : ℕ) → Used m p → Used members p
  pub used_size_eq : after.used_size ≡ s.used_size + 1
  pub no_loss : after.uniq_id ≡ after.current_size
  pub pool_eq : after.pool_size ≡ s.pool_size
  pub stack_eq : after.stack_size ≡ s.stack_size
  pub current_eq : after.current ≡ s.current
  pub terminal_eq : after.terminal ≡ s.terminal

contradicts : {b : Bool} → b ≡ true → b ≡ false → ⊥
contradicts e f = cc

pub List-cases : (xs : List ℕ) → (xs ≡ []) ⊎ ((x : ℕ) × (ys : List ℕ) × (xs ≡ x ∷ ys))
List-cases [] = inl refl
List-cases (x ∷ ys) = inr (x, ys, refl)

-- A coroutine that another is taken from the free ones before stays in use.
Used-moved : (c : ℕ) (m : Members) (p : ℕ) → Used m p → Used (moved c free avail m) p
Used-moved c m p (free, n, i) = cc
Used-moved c m p (active, n, i) = (active, n, i)
Used-moved c m p (avail, n, i) = (avail, n, ground (arith, has-snoc p c (m avail)))
Used-moved c m p (inactive, n, i) = (inactive, n, i)
Used-moved c m p (timeout, n, i) = (timeout, n, i)

taken :
    (s : Scheduler) (m : Members) (c : ℕ) (cs : List ℕ)
    → IsValid s m
    → s.uniq_id ≡ s.current_size
    → m free ≡ c ∷ cs
    → Creates s m (take_free s)
taken s m c cs v n f =
    let (h, e, w) = take_free_lem s m c cs v f in
    let i : has c (m free) ≡ true = rw f (ground arith) in
    let a = v.lists.above free c i in
    let back : c - main + main ≡ c = omega arith in
    record {
      after = using h s;
      members = moved c free avail m;
      uid = c - main;
      result = e;
      valid = w;
      is_avail = rw back (has-moved c free avail m c ∙ ground arith);
      was_not_used = λ (u, n', j).
          contradicts (subst (λ x. has x (m u) ≡ true) back j) (one_list v.lists free u c i n');
      keeps = Used-moved c m;
      used_size_eq = refl;
      no_loss = n;
      pool_eq = refl;
      stack_eq = refl;
      current_eq = refl;
      terminal_eq = refl;
    }

add_frees_used :
    (n c : ℕ) (m : Members) (u : Status) → same free u ≡ false → add_frees n c m u ≡ m u
unfolding add_frees
add_frees_used zero c m u e = refl
add_frees_used (suc n) c m u e =
    add_frees_used n (c + 1) (add_free c m) u e ∙ ap (λ b. if b then m u ++ c ∷ [] else m u) e

used_of-add_frees : (n c : ℕ) (m : Members) → used_of (add_frees n c m) ≡ used_of m
used_of-add_frees n c m =
    rw
      (
        add_frees_used n c m active refl,
        add_frees_used n c m avail refl,
        add_frees_used n c m inactive refl,
        add_frees_used n c m timeout refl,
      )
      refl

create_take :
    (allocate : ℕ → ℕ → Option Bool) (s : Scheduler) (m : Members) (c : ℕ) (cs : List ℕ)
    → IsValid s m
    → m free ≡ c ∷ cs
    → create_coroutine allocate s ≡ take_free s
unfolding create_coroutine
create_take allocate s m c cs v f =
    let k = ap length f in
    let n : leb s.current_size s.used_size ≡ false =
      lt→leb_false s.used_size s.current_size (omega (arith, v.used_eq, v.current_eq)) in
    rw (head_empty-is_nil (m free) (v.lists.ring free), f, n) refl

pub create_grow :
    (allocate : ℕ → ℕ → Option Bool) (s s1 : Scheduler) (m : Members) (grown : Bool)
    → IsValid s m
    → m free ≡ []
    → increase_coro_pool_size allocate s ≡ some (grown, s1)
    → create_coroutine allocate s ≡ (if grown then take_free s1 else some (0, s1))
unfolding create_coroutine
create_grow allocate s s1 m grown v f e =
    let k = ap length f in
    let n : leb s.current_size s.used_size ≡ true =
      le→leb s.current_size s.used_size (omega (arith, v.used_eq, v.current_eq)) in
    rw (head_empty-is_nil (m free) (v.lists.ring free), n, e) refl

grow_and_take :
    (allocate : ℕ → ℕ → Option Bool) (s : Scheduler) (m : Members)
    → ((id : ℕ) → allocate s.stack_size id ≡ some true)
    → IsValid s m
    → s.uniq_id ≡ s.current_size
    → s.used_size < s.pool_size
    → m free ≡ []
    → Creates s m (create_coroutine allocate s)
grow_and_take allocate s m a v n l f =
    let k = ap length f in
    let room : s.current_size < s.pool_size = omega (arith, v.used_eq, v.current_eq) in
    let (s1, e, w, n1, ce, pe, cu, te, se) = increase_lem allocate s m a v n room in
    let m1 = grown_members s m in
    let eq = create_grow allocate s s1 m true v f e in
    let used = used_of-add_frees (increment s) (next_coro s) m in
    let ue : s1.used_size ≡ s.used_size = w.used_eq ∙ used ∙ sym v.used_eq in
    elim (List-cases (m1 free)) [
      | inl g ↦
          let j = ap length g in
          let no : ⊥ =
            omega (arith, j, k, ue, ce, w.used_eq, w.current_eq, v.current_eq, v.used_eq, room) in
          elim no [ ]
      | inr (c, cs, g) ↦
          let t = taken s1 m1 c cs w n1 g in
          record {
            after = t.after;
            members = t.members;
            uid = t.uid;
            result = eq ∙ t.result;
            valid = t.valid;
            is_avail = t.is_avail;
            was_not_used = λ (u, o, i). t.was_not_used (
              u,
              o,
              subst (λ xs. has (t.uid + main) xs ≡ true)
                  (sym (add_frees_used (increment s) (next_coro s) m u o)) i,
            );
            keeps = λ p (u, o, i). t.keeps p (
              u,
              o,
              subst (λ xs. has p xs ≡ true) (sym (add_frees_used (increment s) (next_coro s) m u o))
                  i,
            );
            used_size_eq = t.used_size_eq ∙ ap (λ x. x + 1) ue;
            no_loss = t.no_loss;
            pool_eq = t.pool_eq ∙ pe;
            stack_eq = t.stack_eq ∙ se;
            current_eq = t.current_eq ∙ cu;
            terminal_eq = t.terminal_eq ∙ te;
          }
    ]

-- On a valid scheduler that has lost no identifier, and with an allocator that hands out every
-- stack, `createCoroutine` makes a coroutine whenever the pool is not used up: one that was not in
-- use and now is available, under the identifier that is answered. The scheduler stays valid and
-- loses none, and whoever was in use stays in use.
pub create_coroutine_lem :
    (allocate : ℕ → ℕ → Option Bool) (s : Scheduler) (m : Members)
    → ((id : ℕ) → allocate s.stack_size id ≡ some true)
    → IsValid s m
    → s.uniq_id ≡ s.current_size
    → s.used_size < s.pool_size
    → Creates s m (create_coroutine allocate s)
create_coroutine_lem allocate s m a v n l = elim (List-cases (m free)) [
  | inl f ↦ grow_and_take allocate s m a v n l f
  | inr (c, cs, f) ↦
      subst (Creates s m) (sym (create_take allocate s m c cs v f)) (taken s m c cs v n f)
]

pub no_members : (xs : List ℕ) → length xs ≡ 0 → xs ≡ []
no_members [] e = refl
no_members (x ∷ xs) e = let no : ⊥ = omega arith in elim no [ ]

-- When every coroutine of the pool is in use, `createCoroutine` answers 0 and changes nothing.
pub create_coroutine_full :
    (allocate : ℕ → ℕ → Option Bool) (s : Scheduler) (m : Members)
    → IsValid s m
    → s.used_size ≡ s.pool_size
    → create_coroutine allocate s ≡ some (0, s)
unfolding increase_coro_pool_size
create_coroutine_full allocate s m v f =
    let p = v.uniq_le in
    let c : s.current_size ≡ s.pool_size = omega (arith, v.used_eq, v.current_eq, v.current_le) in
    let d = v.pool_lt in
    let rest : sub32 s.pool_size s.current_size ≡ 0 = ground arith in
    create_grow allocate s s m false v
      (no_members (m free) (omega (arith, v.used_eq, v.current_eq, v.current_le))) (rw rest refl)
