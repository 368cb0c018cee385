-- ===== src/Coroutine/Stacks.antt =====
-- `standard_stack_allocator::allocate`, which asserts that a stack is neither too small nor too large.
use learn_tars.Base.{
  ℕ, ◌+◌, ◌*◌, ◌≤◌, ◌<◌, ◌≡◌, refl, Bool, true, false, ◌&&◌, Option, none, some, leb, ltb, le→leb,
  lt→ltb, lt→leb_false, ◌>>◌, assert_that, if◌then◌else◌, Bool-cases, inl, inr, arith,
}

-- `8 * 1024 + sizeof(fcontext_t) + 15`, on x86_64.
abbrev pub minimum_stacksize : ℕ
minimum_stacksize = 8 * 1024 + 88 + 15

-- What the allocator asks of the system: the hard limit of stacks, if there is one; a size in whole
-- pages, with one more, as `page_count` counts them on floats; whether `mmap` finds the memory for a
-- stack of so many bytes for a coroutine; and whether `mprotect` protects its lowest page.
pub record System : Type 0 where
  pub limit : Option ℕ
  pub whole_pages : ℕ → ℕ
  pub mapped : ℕ → ℕ → Bool
  pub protected : ℕ → ℕ → Bool

abbrev pub allowed : Option ℕ → ℕ → Bool
allowed none size = true
allowed (some most) size = leb size most

unfoldable pub allocate_stack : System → ℕ → ℕ → Option Bool
allocate_stack sys size id = do
  assert_that (leb minimum_stacksize size)
  assert_that (allowed sys.limit size)
  assert_that (ltb 0 size && ltb 0 (sys.whole_pages size))
  if sys.mapped size id then (do assert_that (sys.protected size id); some true) else some false

-- The size is within the limits of the system, and `mprotect` does not fail.
pub record Takes (sys : System) (size : ℕ) : Type 0 where
  pub large : minimum_stacksize ≤ size
  pub small : allowed sys.limit size ≡ true
  pub pages : 0 < sys.whole_pages size
  pub protects : (id : ℕ) → sys.protected size id ≡ true

pub allocate_stack_lem :
    (sys : System) (size id : ℕ)
    → Takes sys size
    → allocate_stack sys size id ≡ some (sys.mapped size id)
unfolding allocate_stack
allocate_stack_lem sys size id t =
    let big = le→leb minimum_stacksize size t.large in
    let some_bytes = lt→ltb 0 size (omega (arith, t.large)) in
    let some_pages = lt→ltb 0 (sys.whole_pages size) t.pages in
    elim (Bool-cases (sys.mapped size id)) [
      | inl e ↦ rw (big, t.small, some_bytes, some_pages, e, t.protects id) refl
      | inr e ↦ rw (big, t.small, some_bytes, some_pages, e) refl
    ]

pub allocate_stack_small :
    (sys : System) (size id : ℕ) → size < minimum_stacksize → allocate_stack sys size id ≡ none
unfolding allocate_stack
allocate_stack_small sys size id l = rw (lt→leb_false size minimum_stacksize l) refl
