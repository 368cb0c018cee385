-- ===== src/Coroutine/Lists.antt =====
-- The five lists of the scheduler together: every coroutine stands in the list of its status, and
-- in no other. The heads are at the pointers 1 to 5, in the order of the statuses, the main
-- coroutine is at 6, and the coroutine with the identifier `uid`, which is above 0, at `uid + 6`.
use learn_tars.Base.{
  ℕ, ◌+◌, ◌<◌, ◌≡◌, ◌≢◌, refl, sym, ap, ◌∙◌, true, false, List, [], ◌∷◌, ◌++◌, arith, ◌==◌,
  if◌then◌else◌, ==_refl, Bool-cases, inl, inr, ◌⊎◌,
}
use learn_tars.Coroutine.Links.{
  Status, free, active, avail, inactive, timeout, code, same, Heap, null, put,
}
use learn_tars.Coroutine.Chains.{has, erase, unlinked, linked, frame}
use learn_tars.Coroutine.Rings.{
  Ring, has_ne, has-snoc, unlinked-Ring, unlinked_other, linked_tail-Ring, linked_tail_other,
}

abbrev pub head : Status → ℕ
head s = code s + 1

abbrev pub main : ℕ
main = 6

-- The members of each list.
abbrev pub Members : Type 0
Members = Status → List ℕ

-- Every list with its members, which have its status.
pub record Lists (h : Heap) (m : Members) : Type 0 where
  pub ring : (s : Status) → Ring h (head s) (m s)
  pub above : (s : Status) (c : ℕ) → has c (m s) ≡ true → main < c
  pub status_eq : (s : Status) (c : ℕ) → has c (m s) ≡ true → h.status c ≡ s

decode : ℕ → Status
decode n =
    if n == 0
    then free
    else if n == 1
    then active
    else if n == 2
    then avail
    else if n == 3
    then inactive
    else timeout

decode-code : (s : Status) → decode (code s) ≡ s
unfolding decode
decode-code free = refl
decode-code active = refl
decode-code avail = refl
decode-code inactive = refl
decode-code timeout = refl

pub code_injective : (s t : Status) → code s ≡ code t → s ≡ t
code_injective s t e = sym (decode-code s) ∙ ap decode e ∙ decode-code t

pub code_small : (s : Status) → code s < 5
code_small free = omega arith
code_small active = omega arith
code_small avail = omega arith
code_small inactive = omega arith
code_small timeout = omega arith

pub same→eq : (s t : Status) → same s t ≡ true → s ≡ t
same→eq s t e = code_injective s t (ground arith)

module _ {h : Heap} {m : Members} (l : Lists h m) where
  pub one_list :
      (s t : Status) (c : ℕ) → has c (m s) ≡ true → same s t ≡ false → has c (m t) ≡ false
  one_list s t c i n = elim (Bool-cases (has c (m t))) [
    | inl j ↦ let e = ap code (sym (l.status_eq s c i) ∙ l.status_eq t c j) in ground arith
    | inr o ↦ o
  ]

  apart :
      (s t : Status) (n : same s t ≡ false) (p : ℕ)
      → has p (head s ∷ m s) ≡ true
      → has p (head t ∷ m t) ≡ false
  apart s t n p i = elim (Bool-cases (has p (m s))) [
    | inl j ↦
        let a = l.above s p j in let b = code_small t in let o = one_list s t p j n in ground arith
    | inr o ↦ elim (Bool-cases (has p (m t))) [
      | inl k ↦ let a = l.above t p k in let b = code_small s in ground arith
      | inr o' ↦ ground arith
    ]
  ]

pub same_refl : (s : Status) → same s s ≡ true
same_refl s = ==_refl (code s)

-- The members after a change of one list.
abbrev pub at : Status → (List ℕ → List ℕ) → Members → Members
at s f m t = if same s t then f (m t) else m t

pub Lists-intro :
    {h : Heap} {m : Members}
    → ((s : Status) → Ring h (head s) (m s))
    → ((s : Status) (c : ℕ) → has c (m s) ≡ true → main < c)
    → ((s : Status) (c : ℕ) → has c (m s) ≡ true → h.status c ≡ s)
    → Lists h m
Lists-intro r a e = record { ring = r; above = a; status_eq = e }

pub has_of-erase : (p c : ℕ) (xs : List ℕ) → has p (erase c xs) ≡ true → has p xs ≡ true
has_of-erase p c [] i = i
has_of-erase p c (x ∷ xs) i = ground (arith, has_of-erase p c xs)

module _ {h : Heap} {m : Members} (l : Lists h m) (s : Status) (c : ℕ) where
  at_out :
      has c (m s) ≡ true
      → (t : Status) (p : ℕ) → has p (at s (erase c) m t) ≡ true
      → has p (m t) ≡ true
  at_out i t p j = ground (arith, has_of-erase p c (m t))

  at_in :
      (t : Status) (p : ℕ)
      → has p (at s (λ xs. xs ++ c ∷ []) m t) ≡ true
      → (has p (m t) ≡ true) ⊎ ((p ≡ c) × (s ≡ t))
  at_in t p j = elim (Bool-cases (same s t)) [
    | inl f ↦ elim (Bool-cases (has p (m t))) [
      | inl k ↦ inl k
      | inr k ↦ inr (ground (arith, has-snoc p c (m t)), same→eq s t f)
    ]
    | inr n ↦ inl (ground arith)
  ]

  -- A deletion takes the coroutine out of its list.
  pub unlinked-Lists : has c (m s) ≡ true → Lists (unlinked c h) (at s (erase c) m)
  unlinked-Lists i =
      Lists-intro
        (λ t. elim (Bool-cases (same s t)) [
          | inl e ↦ rw (e, sym (same→eq s t e)) (unlinked-Ring (l.ring s) c i)
          | inr n ↦ rw n (unlinked_other (l.ring s) (l.ring t) (apart l s t n) c i)
        ])
        (λ t p j. l.above t p (at_out i t p j)) (λ t p j. l.status_eq t p (at_out i t p j))

  -- An insertion at the end of the list of the coroutine's status.
  pub linked-Lists :
      main < c
      → h.status c ≡ s
      → ((t : Status) → has c (m t) ≡ false)
      → Lists (linked c (h.prev (head s)) (head s) h) (at s (λ xs. xs ++ c ∷ []) m)
  linked-Lists a e o =
      let out : (t : Status) → has c (head t ∷ m t) ≡ false =
        λ t. let b = code_small t in let n = o t in ground arith in
      let z : c ≢ null = λ f. omega arith in
      Lists-intro
        (λ t. elim (Bool-cases (same s t)) [
          | inl f ↦ rw (f, sym (same→eq s t f)) (linked_tail-Ring (l.ring s) c z (out s))
          | inr n ↦ rw n (linked_tail_other (l.ring s) (l.ring t) (apart l s t n) c (out t))
        ])
        (λ t p j. elim (at_in t p j) [ inl k ↦ l.above t p k | inr (f, k) ↦ rw f a ])
        (λ t p j. elim (at_in t p j) [ inl k ↦ l.status_eq t p k | inr (f, k) ↦ rw f (e ∙ k) ])

-- The status of a coroutine that is in no list does not matter.
pub set_status-Lists :
    (h : Heap) (m : Members) (c : ℕ) (s : Status)
    → Lists h m
    → ((t : Status) → has c (m t) ≡ false)
    → Lists (record h { status = put c s h.status }) m
set_status-Lists h m c s l o =
    Lists-intro
      (λ t.
        let r = l.ring t in
        record {
          chain =
              frame (record h { status = put c s h.status }) h (head t) (m t) (head t) (λ p i. refl)
                (λ p i. refl) r.chain;
          distinct = r.distinct;
          head_out = r.head_out;
          no_null = r.no_null;
        })
      l.above
      (λ t p i. let e = has_ne p c (m t) i (o t) in let f = l.status_eq t p i in ground arith)

-- Nor do the fields of a coroutine that is in no list.
pub fresh-Lists :
    (h : Heap) (m : Members) (c : ℕ) (s : Status)
    → Lists h m
    → main < c
    → ((t : Status) → has c (m t) ≡ false)
    → Lists
        (record h { prev = put c null h.prev; next = put c null h.next; status = put c s h.status })
        m
fresh-Lists h m c s l a o =
    Lists-intro
      (λ t.
        let r = l.ring t in
        let b = code_small t in
        let n = o t in
        let out : has c (head t ∷ m t) ≡ false = ground arith in
        record {
          chain =
              frame
                (record h {
                  prev = put c null h.prev;
                  next = put c null h.next;
                  status = put c s h.status;
                })
                h (head t) (m t) (head t)
                (λ p i. let e = has_ne p c (head t ∷ m t) i out in ground arith)
                (λ p i. let e = has_ne p c (head t ∷ m t) i out in ground arith) r.chain;
          distinct = r.distinct;
          head_out = r.head_out;
          no_null = r.no_null;
        })
      l.above
      (λ t p i. let e = has_ne p c (m t) i (o t) in let f = l.status_eq t p i in ground arith)
