-- ===== src/Coroutine/Links.antt =====
-- The intrusive lists of the scheduler (the static functions of `CoroutineInfo`, in
-- servant/servant/CoroutineScheduler.h): circular, doubly linked, with a head that is no member.
-- A pointer is a number, the null pointer 0, and the fields that the functions write are maps from
-- pointers to values. Going through the null pointer is `none`.
use learn_tars.Base.{
  ℕ, ◌≡◌, ◌≢◌, refl, Bool, Option, none, some, arith, ne→==_false, ◌==◌, if◌then◌else◌, ◌>>=◌,
}

-- The values of the enumeration.
pub data Status : Type 0 where
  free : Status
  active : Status
  avail : Status
  inactive : Status
  timeout : Status

abbrev pub code : Status → ℕ
code free = 0
code active = 1
code avail = 2
code inactive = 3
code timeout = 4

abbrev pub same : Status → Status → Bool
same s t = code s == code t

pub record Heap : Type 0 where
  pub prev : ℕ → ℕ
  pub next : ℕ → ℕ
  pub status : ℕ → Status

abbrev pub null : ℕ
null = 0

abbrev pub put {ℓ} : {A : Type ℓ} → ℕ → A → (ℕ → A) → ℕ → A
put p v f q = if q == p then v else f q

unfoldable pub get_prev : ℕ → Heap → Option ℕ
get_prev p h = if p == null then none else some (h.prev p)

unfoldable pub get_next : ℕ → Heap → Option ℕ
get_next p h = if p == null then none else some (h.next p)

unfoldable pub set_prev : ℕ → ℕ → Heap → Option Heap
set_prev p v h = if p == null then none else some (record h { prev = put p v h.prev })

unfoldable pub set_next : ℕ → ℕ → Heap → Option Heap
set_next p v h = if p == null then none else some (record h { next = put p v h.next })

unfoldable pub get_status : ℕ → Heap → Option Status
get_status p h = if p == null then none else some (h.status p)

unfoldable pub set_status : ℕ → Status → Heap → Option Heap
set_status p s h = if p == null then none else some (record h { status = put p s h.status })

unfoldable pub head_init : ℕ → Heap → Option Heap
head_init coro h = set_next coro coro h >>= set_prev coro coro

unfoldable pub head_empty : ℕ → Heap → Option Bool
head_empty head h = get_next head h >>= λ n. some (n == head)

unfoldable pub add_between : ℕ → ℕ → ℕ → Heap → Option Heap
add_between coro p n h =
    set_prev n coro h >>= set_next coro n >>= set_prev coro p >>= set_next p coro

unfoldable pub add : ℕ → ℕ → Heap → Option Heap
add coro head h = get_next head h >>= λ n. add_between coro head n h

unfoldable pub add_tail : ℕ → ℕ → Heap → Option Heap
add_tail coro head h = get_prev head h >>= λ p. add_between coro p head h

unfoldable pub del_between : ℕ → ℕ → Heap → Option Heap
del_between p n h = set_prev n p h >>= set_next p n

unfoldable pub del : ℕ → Heap → Option Heap
del coro h = do
  p ← get_prev coro h
  n ← get_next coro h
  del_between p n h >>= set_next coro null >>= set_prev coro null

unfoldable pub move : ℕ → ℕ → Heap → Option Heap
move coro head h = del coro h >>= add coro head

unfoldable pub move_tail : ℕ → ℕ → Heap → Option Heap
move_tail coro head h = del coro h >>= add_tail coro head

-- Through a pointer that is not null.
module _ (p : ℕ) (h : Heap) (z : p ≢ null) where
  pub get_prev-some : get_prev p h ≡ some (h.prev p)
  unfolding get_prev
  get_prev-some = ground arith

  pub get_next-some : get_next p h ≡ some (h.next p)
  unfolding get_next
  get_next-some = ground arith

  pub get_status-some : get_status p h ≡ some (h.status p)
  unfolding get_status
  get_status-some = ground arith

  pub set_prev-some : (v : ℕ) → set_prev p v h ≡ some (record h { prev = put p v h.prev })
  unfolding set_prev
  set_prev-some v = rw (ne→==_false p null z) refl

  pub set_next-some : (v : ℕ) → set_next p v h ≡ some (record h { next = put p v h.next })
  unfolding set_next
  set_next-some v = rw (ne→==_false p null z) refl

  pub set_status-some :
      (s : Status) → set_status p s h ≡ some (record h { status = put p s h.status })
  unfolding set_status
  set_status-some s = rw (ne→==_false p null z) refl
