-- ===== src/Coroutine/Chains.antt =====
-- What a circular list of pointers stands for, and that insertion and deletion keep it.
use learn_tars.Base.{
  ℕ, ◌≡◌, sym, Bool, true, false, ◌||◌, List, [], ◌∷◌, ◌++◌, arith, ◌==◌, ℕ_discrete, ne→==_false,
  ==_refl, if◌then◌else◌,
}
use learn_tars.Coroutine.Links.{Heap, null, put}

abbrev pub has : ℕ → List ℕ → Bool
has a [] = false
has a (x ∷ xs) = (a == x) || has a xs

abbrev pub erase : ℕ → List ℕ → List ℕ
erase c [] = []
erase c (x ∷ xs) = if x == c then xs else x ∷ erase c xs

abbrev pub Distinct : List ℕ → Type 0
Distinct [] = Unit {0}
Distinct (x ∷ xs) = (has x xs ≡ false) × Distinct xs

-- From `a` the successors lead through `xs` to `b`, and the predecessors back.
abbrev pub Chain : Heap → ℕ → List ℕ → ℕ → Type 0
Chain h a [] b = (h.next a ≡ b) × (h.prev b ≡ a)
Chain h a (x ∷ xs) b = (h.next a ≡ x) × (h.prev x ≡ a) × Chain h x xs b

pub frame :
    (g h : Heap) (a : ℕ) (xs : List ℕ) (b : ℕ)
    → ((p : ℕ) → has p (a ∷ xs) ≡ true → g.next p ≡ h.next p)
    → ((p : ℕ) → has p (b ∷ xs) ≡ true → g.prev p ≡ h.prev p)
    → Chain h a xs b
    → Chain g a xs b
frame g h a [] b n p c = (ground (arith, n a, c), ground (arith, p b, c))
frame g h a (x ∷ xs) b n p (c, d, e) = (
  ground (arith, n a),
  ground (arith, p x),
  frame g h x xs b (λ q i. n q (ground arith)) (λ q i. p q (ground arith)) e,
)

pub prev_mem :
    (h : Heap) (a : ℕ) (xs : List ℕ) (b c : ℕ)
    → Chain h a xs b
    → has c xs ≡ true
    → has (h.prev c) (a ∷ xs) ≡ true
prev_mem h a [] b c k i = cc
prev_mem h a (x ∷ xs) b c (n, p, k) i = ground (arith, prev_mem h x xs b c k)

pub next_mem :
    (h : Heap) (a : ℕ) (xs : List ℕ) (b c : ℕ)
    → Chain h a xs b
    → has c xs ≡ true
    → has (h.next c) (b ∷ xs) ≡ true
next_mem h a [] b c k i = cc
next_mem h a (x ∷ []) b c (n, p, k) i = ground arith
next_mem h a (x ∷ y ∷ xs) b c (n, p, k) i = ground (arith, next_mem h x (y ∷ xs) b c k)

-- The heap after `del`.
abbrev pub unlinked : ℕ → Heap → Heap
unlinked c h = record h {
  prev = put c null (put (h.next c) (h.prev c) h.prev);
  next = put c null (put (h.prev c) (h.next c) h.next);
}

unlinked_head-Chain :
    (h : Heap) (a x : ℕ) (xs : List ℕ) (b : ℕ)
    → Chain h a (x ∷ xs) b
    → Distinct (x ∷ xs)
    → has a (x ∷ xs) ≡ false
    → has b (x ∷ xs) ≡ false
    → Chain (unlinked x h) a xs b
unlinked_head-Chain h a x [] b (n, p, k) (o, d) oa ob = (ground (arith, k), ground (arith, k))
unlinked_head-Chain h a x (y ∷ xs) b (n, p, k) (o, d) oa ob = (
  ground (arith, k),
  ground (arith, k),
  frame (unlinked x h) h y xs b (λ q i. ground (arith, k)) (λ q i. ground (arith, k, d)) k.2,
)

pub unlinked-Chain :
    (h : Heap) (a : ℕ) (xs : List ℕ) (b c : ℕ)
    → Chain h a xs b
    → Distinct xs
    → has a xs ≡ false
    → has b xs ≡ false
    → has c xs ≡ true
    → Chain (unlinked c h) a (erase c xs) b
unlinked-Chain h a [] b c k d oa ob i = cc
unlinked-Chain h a (x ∷ xs) b c (n, p, k) (o, d) oa ob i = elim (ℕ_discrete x c) [
  | yes e ↦ rw (sym e, ==_refl x) (unlinked_head-Chain h a x xs b (n, p, k) (o, d) oa ob)
  | no e ↦
      let ic : has c xs ≡ true = ground arith in
      let pm = prev_mem h x xs b c k ic in
      let nm = next_mem h x xs b c k ic in
      let ih = unlinked-Chain h x xs b c k d o (ground arith) ic in
      rw (ne→==_false x c e) (ground (arith, pm), ground (arith, nm), ih)
]

-- The heap after `add_between`.
abbrev pub linked : ℕ → ℕ → ℕ → Heap → Heap
linked c p n h = record h { prev = put c p (put n c h.prev); next = put p c (put c n h.next) }

pub last_mem :
    (h : Heap) (a : ℕ) (xs : List ℕ) (b : ℕ) → Chain h a xs b → has (h.prev b) (a ∷ xs) ≡ true
last_mem h a [] b k = ground arith
last_mem h a (x ∷ xs) b (n, p, k) = ground (arith, last_mem h x xs b k)

pub linked_tail-Chain :
    (h : Heap) (a : ℕ) (xs : List ℕ) (b c : ℕ)
    → Chain h a xs b
    → Distinct xs
    → has a xs ≡ false
    → has b xs ≡ false
    → has c (a ∷ b ∷ xs) ≡ false
    → Chain (linked c (h.prev b) b h) a (xs ++ c ∷ []) b
linked_tail-Chain h a [] b c (n, p) d oa ob oc =
    (ground arith, ground arith, (ground arith, ground arith))
linked_tail-Chain h a (x ∷ xs) b c (n, p, k) (o, d) oa ob oc =
    let lm = last_mem h x xs b k in
    let ih = linked_tail-Chain h x xs b c k d o (ground arith) (ground arith) in
    (ground (arith, lm), ground (arith, lm), ih)

pub linked_head-Chain :
    (h : Heap) (a : ℕ) (xs : List ℕ) (b c : ℕ)
    → Chain h a xs b
    → Distinct xs
    → has a xs ≡ false
    → has b xs ≡ false
    → has c (a ∷ b ∷ xs) ≡ false
    → Chain (linked c a (h.next a) h) a (c ∷ xs) b
linked_head-Chain h a [] b c (n, p) d oa ob oc =
    (ground arith, ground arith, (ground arith, ground arith))
linked_head-Chain h a (x ∷ xs) b c (n, p, k) (o, d) oa ob oc = (
  ground arith,
  ground arith,
  (
    ground arith,
    ground arith,
    frame (linked c a (h.next a) h) h x xs b (λ q i. ground (arith, oc, oa))
        (λ q i. ground (arith, oc, o, ob)) k,
  ),
)
