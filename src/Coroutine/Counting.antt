-- ===== src/Coroutine/Counting.antt =====
-- The sizes of the lists of the scheduler, and where a member is found, after a move.
use learn_tars.Base.{
  ℕ, ◌+◌, ◌≡◌, refl, sym, ◌∙◌, true, false, ◌||◌, List, [], ◌∷◌, arith, ◌==◌, if◌then◌else◌,
  Bool-cases, inl, inr, length, length-append,
}
use learn_tars.Coroutine.Links.{Status, free, active, avail, inactive, timeout, same}
use learn_tars.Coroutine.Chains.{has, erase}
use learn_tars.Coroutine.Rings.{has-snoc}
use learn_tars.Coroutine.Lists.{Members, at, same→eq, same_refl, has_of-erase}
use learn_tars.Coroutine.Moves.{moved}

length-erase : (c : ℕ) (xs : List ℕ) → has c xs ≡ true → length (erase c xs) + 1 ≡ length xs
length-erase c [] i = cc
length-erase c (x ∷ xs) i = ground (arith, length-erase c xs)

-- One, if the two statuses are the same.
abbrev pub one_if : Status → Status → ℕ
one_if s t = if same s t then 1 else 0

abbrev pub used_of : Members → ℕ
used_of m = length (m active) + length (m avail) + length (m inactive) + length (m timeout)

one_if-sum :
    (s : Status)
    → one_if s free + one_if s active + one_if s avail + one_if s inactive + one_if s timeout ≡ 1
one_if-sum free = refl
one_if-sum active = refl
one_if-sum avail = refl
one_if-sum inactive = refl
one_if-sum timeout = refl

module _ (c : ℕ) (s t : Status) (m : Members) (i : has c (m s) ≡ true) (n : same s t ≡ false) where
  length-moved : (u : Status) → length (moved c s t m u) + one_if s u ≡ length (m u) + one_if t u
  length-moved u = elim (Bool-cases (same s u)) [
    | inl e ↦
        let f = same→eq s u e in
        let j : has c (m u) ≡ true = rw (sym f) i in
        let k = length-erase c (m u) j in
        let o = length-append (erase c (m u)) (c ∷ []) in ground arith
    | inr e ↦ let o = length-append (m u) (c ∷ []) in ground arith
  ]

  pub used_of-moved : used_of (moved c s t m) + one_if t free ≡ used_of m + one_if s free
  used_of-moved = omega (
    arith,
    length-moved active,
    length-moved avail,
    length-moved inactive,
    length-moved timeout,
    one_if-sum s,
    one_if-sum t,
  )

  pub free-moved : length (moved c s t m free) + one_if s free ≡ length (m free) + one_if t free
  free-moved = length-moved free

has-erase_ne :
    (p c : ℕ) (xs : List ℕ) → (p == c) ≡ false → has p xs ≡ true → has p (erase c xs) ≡ true
has-erase_ne p c [] n i = cc
has-erase_ne p c (x ∷ xs) n i = ground (arith, has-erase_ne p c xs n)

-- The pointer stands in some list.
abbrev pub Listed : Members → ℕ → Type 0
Listed m p = (u : Status) × (has p (m u) ≡ true)

module _ (c : ℕ) (s t : Status) (m : Members) where
  pub has-moved : (p : ℕ) → has p (moved c s t m t) ≡ (has p (at s (erase c) m t) || (p == c))
  has-moved p = rw (same_refl t) (has-snoc p c (at s (erase c) m t))

  pub Listed-moved : (p : ℕ) → Listed m p → Listed (moved c s t m) p
  Listed-moved p (u, i) = elim (Bool-cases (p == c)) [
    | inl e ↦ (t, has-moved p ∙ ground arith)
    | inr n ↦
        let j = has-erase_ne p c (m u) n i in
        let k = has-snoc p c (at s (erase c) m u) in (u, ground arith)
  ]

  pub moved-Listed : has c (m s) ≡ true → (p : ℕ) → Listed (moved c s t m) p → Listed m p
  moved-Listed i p (u, j) = elim (Bool-cases (p == c)) [
    | inl e ↦ (s, ground arith)
    | inr n ↦
        let k = has-snoc p c (at s (erase c) m u) in (u, ground (arith, has_of-erase p c (m u)))
  ]
