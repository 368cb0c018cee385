-- ===== src/Coroutine/Rings.antt =====
-- A list with a head, and what each function on it does to the members.
use learn_tars.Base.{
  ℕ, ◌≡◌, ◌≢◌, refl, Bool, true, false, ◌||◌, List, [], ◌∷◌, ◌++◌, some, arith, ◌==◌, ==_refl,
}
use learn_tars.Coroutine.Links.{
  Heap, null, put, head_init, head_empty, add_between, add_tail, del_between, del, get_prev-some,
  get_next-some, set_prev-some, set_next-some,
}
use learn_tars.Coroutine.Chains.{
  has, erase, Distinct, Chain, frame, prev_mem, next_mem, last_mem, unlinked, unlinked-Chain,
  linked, linked_tail-Chain,
}

-- The circular list at `head` has the members `xs`.
pub record Ring (h : Heap) (head : ℕ) (xs : List ℕ) : Type 0 where
  pub chain : Chain h head xs head
  pub distinct : Distinct xs
  pub head_out : has head xs ≡ false
  pub no_null : has null (head ∷ xs) ≡ false

Ring-intro :
    {h : Heap} {head : ℕ} {xs : List ℕ}
    → Chain h head xs head
    → Distinct xs
    → has head xs ≡ false
    → has null (head ∷ xs) ≡ false
    → Ring h head xs
Ring-intro c d o n = record { chain = c; distinct = d; head_out = o; no_null = n }

pub has_ne : (p q : ℕ) (xs : List ℕ) → has p xs ≡ true → has q xs ≡ false → p ≢ q
has_ne p q [] i o e = cc
has_ne p q (x ∷ xs) i o e = ground (arith, has_ne p q xs)

pub has-erase : (p c : ℕ) (xs : List ℕ) → has p xs ≡ false → has p (erase c xs) ≡ false
has-erase p c [] o = refl
has-erase p c (x ∷ xs) o = ground (arith, has-erase p c xs)

Distinct-erase : (c : ℕ) (xs : List ℕ) → Distinct xs → Distinct (erase c xs)
Distinct-erase c [] d = tt
Distinct-erase c (x ∷ xs) d = ground (arith, Distinct-erase c xs d.1, has-erase x c xs)

pub erased : (c : ℕ) (xs : List ℕ) → Distinct xs → has c (erase c xs) ≡ false
erased c [] d = refl
erased c (x ∷ xs) d = ground (arith, erased c xs d.1)

pub has-snoc : (p c : ℕ) (xs : List ℕ) → has p (xs ++ c ∷ []) ≡ (has p xs || (p == c))
has-snoc p c [] = ground arith
has-snoc p c (x ∷ xs) = ground (arith, has-snoc p c xs)

Distinct-snoc : (c : ℕ) (xs : List ℕ) → Distinct xs → has c xs ≡ false → Distinct (xs ++ c ∷ [])
Distinct-snoc c [] d o = (refl, tt)
Distinct-snoc c (x ∷ xs) d o = ground (arith, Distinct-snoc c xs d.1, has-snoc x c xs)

abbrev pub is_nil : List ℕ → Bool
is_nil [] = true
is_nil (x ∷ xs) = false

pub head_empty-is_nil :
    {h : Heap} {head : ℕ} (xs : List ℕ) → Ring h head xs → head_empty head h ≡ some (is_nil xs)
unfolding head_empty
head_empty-is_nil {h} {head} [] r =
    let z = has_ne head 0 (head ∷ []) (ground arith) r.no_null in
    rw (get_next-some head h z, r.chain.0, ==_refl head) refl
head_empty-is_nil {h} {head} (x ∷ xs) r =
    let z = has_ne head 0 (head ∷ x ∷ xs) (ground arith) r.no_null in
    let o = r.head_out in
    let e : (x == head) ≡ false = ground arith in rw (get_next-some head h z, r.chain.0, e) refl

-- The first member is what the head points to.
pub first_member : {h : Heap} {head x : ℕ} {xs : List ℕ} → Ring h head (x ∷ xs) → h.next head ≡ x
first_member r = r.chain.0

pub head_init-Ring :
    (head : ℕ) (h : Heap)
    → head ≢ null
    → head_init head h
      ≡ some (record h { prev = put head head h.prev; next = put head head h.next })
unfolding head_init
head_init-Ring head h z = rw (set_next-some head h z head, set_prev-some head _ z head) refl

module _ {h : Heap} {head : ℕ} {xs : List ℕ} (r : Ring h head xs) where
  pub del-unlinked : (c : ℕ) → has c xs ≡ true → del c h ≡ some (unlinked c h)
  unfolding del del_between
  del-unlinked c i =
      let p = has_ne (h.prev c) 0 (head ∷ xs) (prev_mem h head xs head c r.chain i) r.no_null in
      let n = has_ne (h.next c) 0 (head ∷ xs) (next_mem h head xs head c r.chain i) r.no_null in
      let z = has_ne c 0 (head ∷ xs) (ground arith) r.no_null in
      rw
        (
          get_prev-some c h z,
          get_next-some c h z,
          set_prev-some (h.next c) h n (h.prev c),
          set_next-some (h.prev c) _ p (h.next c),
          set_next-some c _ z null,
          set_prev-some c _ z null,
        )
        refl

  pub unlinked-Ring : (c : ℕ) → has c xs ≡ true → Ring (unlinked c h) head (erase c xs)
  unlinked-Ring c i =
      Ring-intro (unlinked-Chain h head xs head c r.chain r.distinct r.head_out r.head_out i)
        (Distinct-erase c xs r.distinct) (has-erase head c xs r.head_out)
        (ground (arith, has-erase 0 c xs, r.no_null))

  pub add_tail-linked :
      (c : ℕ) → c ≢ null → add_tail c head h ≡ some (linked c (h.prev head) head h)
  unfolding add_tail add_between
  add_tail-linked c z =
      let y = has_ne head 0 (head ∷ xs) (ground arith) r.no_null in
      let p = has_ne (h.prev head) 0 (head ∷ xs) (last_mem h head xs head r.chain) r.no_null in
      rw
        (
          get_prev-some head h y,
          set_prev-some head h y c,
          set_next-some c _ z head,
          set_prev-some c _ z (h.prev head),
          set_next-some (h.prev head) _ p c,
        )
        refl

  pub linked_tail-Ring :
      (c : ℕ)
      → c ≢ null
      → has c (head ∷ xs) ≡ false
      → Ring (linked c (h.prev head) head h) head (xs ++ c ∷ [])
  linked_tail-Ring c z o =
      Ring-intro
        (linked_tail-Chain h head xs head c r.chain r.distinct r.head_out r.head_out (ground arith))
        (Distinct-snoc c xs r.distinct (ground arith))
        (ground (arith, has-snoc head c xs, r.head_out))
        (ground (arith, has-snoc 0 c xs, r.no_null))

  -- Another list, with no pointer in common, does not see a deletion or an insertion.
  module _ {other : ℕ} {ys : List ℕ} (o : Ring h other ys)
      (apart : (p : ℕ) → has p (head ∷ xs) ≡ true → has p (other ∷ ys) ≡ false) where
    pub unlinked_other : (c : ℕ) → has c xs ≡ true → Ring (unlinked c h) other ys
    unlinked_other c i =
        let p = apart (h.prev c) (prev_mem h head xs head c r.chain i) in
        let n = apart (h.next c) (next_mem h head xs head c r.chain i) in
        let z = apart c (ground arith) in
        Ring-intro
          (frame (unlinked c h) h other ys other
            (λ q j.
              let e = has_ne q c (other ∷ ys) j z in
              let f = has_ne q (h.prev c) (other ∷ ys) j p in ground arith)
            (λ q j.
              let e = has_ne q c (other ∷ ys) j z in
              let f = has_ne q (h.next c) (other ∷ ys) j n in ground arith)
            o.chain)
          o.distinct o.head_out o.no_null

    pub linked_tail_other :
        (c : ℕ) → has c (other ∷ ys) ≡ false → Ring (linked c (h.prev head) head h) other ys
    linked_tail_other c z =
        let p = apart (h.prev head) (last_mem h head xs head r.chain) in
        let n = apart head (ground arith) in
        Ring-intro
          (frame (linked c (h.prev head) head h) h other ys other
            (λ q j.
              let e = has_ne q c (other ∷ ys) j z in
              let f = has_ne q (h.prev head) (other ∷ ys) j p in ground arith)
            (λ q j.
              let e = has_ne q c (other ∷ ys) j z in
              let f = has_ne q head (other ∷ ys) j n in ground arith)
            o.chain)
          o.distinct o.head_out o.no_null
