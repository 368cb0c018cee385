-- ===== src/LoopQueue/History.antt =====
-- Clients of a `TC_LoopQueue`: any sequence of calls, with what each call answers.
use learn_tars.Base.{
  ℕ, ◌<◌, ◌^◌, ◌≡◌, refl, ap, ◌∙◌, arith, lt→ltb, Bool, true, false, List, [], ◌∷◌, Option, none,
  length, All,
}
use mathlib.Core.Path.{ap₂}
use learn_tars.LoopQueue.{
  LoopQueue, built, size, empty, push_back, push_back_all, pop_front, drop_front, get_front,
  lacks_room,
}
use learn_tars.LoopQueue.Fifo
use learn_tars.LoopQueue.Fifo.{is_nil}
use learn_tars.LoopQueue.Holds.{size-length}
use learn_tars.LoopQueue.Refines.{
  Refines, push_back-Refines, push_back_all-Refines, pop_front-Refines, drop_front-Refines,
  get_front-Refines, empty-is_nil,
}

-- The calls, and what each returns.
pub data Call {ℓ} (A : Type ℓ) : Type ℓ where
  push : A → Call A
  push_all : List A → Call A
  pop : Call A
  discard : Call A
  peek : Call A
  count : Call A
  test : Call A

pub data Answer {ℓ} (A : Type ℓ) : Type ℓ where
  pushed : Bool → Bool → Answer A
  done : Bool → Answer A
  taken : Bool → Option A → Answer A
  counted : ℕ → Answer A

module _ {ℓ} {A : Type ℓ} where
  unfoldable pub run : LoopQueue A → List (Call A) → List (Answer A)
  unfolding push_back push_back_all pop_front drop_front get_front size empty
  run q [] = []
  run q (push t ∷ cs) = let (ok, first, q') = push_back q t in pushed ok first ∷ run q' cs
  run q (push_all ts ∷ cs) = let (ok, q') = push_back_all q ts in done ok ∷ run q' cs
  run q (pop ∷ cs) = let (ok, out, q') = pop_front q in taken ok out ∷ run q' cs
  run q (discard ∷ cs) = let (ok, q') = drop_front q in done ok ∷ run q' cs
  run q (peek ∷ cs) = let (ok, out) = get_front q in taken ok out ∷ run q cs
  run q (count ∷ cs) = counted (size q) ∷ run q cs
  run q (test ∷ cs) = done (empty q) ∷ run q cs

  -- The same calls on the bounded sequence.
  pub run_fifo : ℕ → List A → List (Call A) → List (Answer A)
  run_fifo bound xs [] = []
  run_fifo bound xs (push t ∷ cs) =
      let (ok, first, xs') = Fifo.push bound xs t in pushed ok first ∷ run_fifo bound xs' cs
  run_fifo bound xs (push_all ts ∷ cs) =
      let (ok, xs') = Fifo.push_all bound xs ts in done ok ∷ run_fifo bound xs' cs
  run_fifo bound xs (pop ∷ cs) =
      let (ok, out, xs') = Fifo.pop xs in taken ok out ∷ run_fifo bound xs' cs
  run_fifo bound xs (discard ∷ cs) =
      let (ok, out, xs') = Fifo.pop xs in done ok ∷ run_fifo bound xs' cs
  run_fifo bound xs (peek ∷ cs) =
      let (ok, out) = Fifo.front xs in taken ok out ∷ run_fifo bound xs cs
  run_fifo bound xs (count ∷ cs) = counted (length xs) ∷ run_fifo bound xs cs
  run_fifo bound xs (test ∷ cs) = done (is_nil xs) ∷ run_fifo bound xs cs

  -- No vector is as long as a `size_t` can count.
  abbrev pub IsShort : Call A → Type 0
  IsShort (push_all ts) = length ts < 2 ^ 63
  IsShort _ = Unit {0}

  -- From a queue that refines a bounded sequence, every series of calls, whose vectors have fewer
  -- than 2^63 elements, is answered as the bounded sequence answers it.
  pub run-run_fifo :
      (bound : ℕ) (cs : List (Call A)) (q : LoopQueue A) (xs : List A)
      → Refines bound q xs
      → All IsShort cs
      → run q cs ≡ run_fifo bound xs cs
  unfolding run run_fifo
  run-run_fifo bound [] q xs r s = refl
  run-run_fifo bound (push t ∷ cs) q xs r (s, ss) =
      let h = push_back-Refines bound q xs t r in
      ap₂ ◌∷◌ (ap₂ pushed h.0 h.1) (run-run_fifo bound cs _ _ h.2 ss)
  run-run_fifo bound (push_all ts ∷ cs) q xs r (s, ss) =
      let h = push_back_all-Refines bound q xs ts r s in
      ap₂ ◌∷◌ (ap done h.0) (run-run_fifo bound cs _ _ h.1 ss)
  run-run_fifo bound (pop ∷ cs) q xs r (s, ss) =
      let h = pop_front-Refines bound q xs r in
      ap₂ ◌∷◌ (ap₂ taken h.0 h.1) (run-run_fifo bound cs _ _ h.2 ss)
  run-run_fifo bound (discard ∷ cs) q xs r (s, ss) =
      let h = drop_front-Refines bound q xs r in
      ap₂ ◌∷◌ (ap done h.0) (run-run_fifo bound cs _ _ h.1 ss)
  run-run_fifo bound (peek ∷ cs) q xs r (s, ss) =
      let h = get_front-Refines bound q xs r in
      ap₂ ◌∷◌ (ap₂ taken (ap (λ a. a.0) h) (ap (λ a. a.1) h)) (run-run_fifo bound cs q xs r ss)
  run-run_fifo bound (count ∷ cs) q xs r (s, ss) =
      ap₂ ◌∷◌ (ap counted (size-length q xs r.holds)) (run-run_fifo bound cs q xs r ss)
  run-run_fifo bound (test ∷ cs) q xs r (s, ss) =
      ap₂ ◌∷◌ (ap done (empty-is_nil q xs r.holds)) (run-run_fifo bound cs q xs r ss)

  -- What the queue with room for no element answers: a push is done, and yet there is nothing.
  abbrev pub loses : Call A → Answer A
  loses (push t) = pushed true true
  loses (push_all ts) = done (is_nil ts)
  loses pop = taken false none
  loses discard = done false
  loses peek = taken false none
  loses count = counted 0
  loses test = done true

  abbrev pub lose_all : List (Call A) → List (Answer A)
  lose_all [] = []
  lose_all (c ∷ cs) = loses c ∷ lose_all cs

  refuses :
      (t : A) (ts : List A) (m : A) (memory : List A)
      → push_back_all (built (m ∷ memory) 0) (t ∷ ts) ≡ (false, built (m ∷ memory) 0)
  unfolding push_back_all built lacks_room
  refuses t ts m memory = rw (lt→ltb 0 (length (t ∷ ts)) (omega arith)) refl

  -- Built with room for no element, the queue loses what it is given: in every series of calls each
  -- push of one element answers true, and yet no pop and no look at the front ever finds an
  -- element. A vector is refused unless it is empty.
  pub run-lose_all :
      (cs : List (Call A)) (m : A) (memory : List A) → run (built (m ∷ memory) 0) cs ≡ lose_all cs
  unfolding run built push_back push_back_all pop_front drop_front get_front size empty is_nil
  run-lose_all [] m memory = refl
  run-lose_all (push t ∷ cs) m memory =
      ap (λ as'. pushed true true ∷ as') (run-lose_all cs t memory)
  run-lose_all (push_all [] ∷ cs) m memory = ap (λ as'. done true ∷ as') (run-lose_all cs m memory)
  run-lose_all (push_all (t ∷ ts) ∷ cs) m memory =
      ap (λ r. done r.0 ∷ run r.1 cs) (refuses t ts m memory)
      ∙ ap (λ as'. done false ∷ as') (run-lose_all cs m memory)
  run-lose_all (pop ∷ cs) m memory = ap (λ as'. taken false none ∷ as') (run-lose_all cs m memory)
  run-lose_all (discard ∷ cs) m memory = ap (λ as'. done false ∷ as') (run-lose_all cs m memory)
  run-lose_all (peek ∷ cs) m memory = ap (λ as'. taken false none ∷ as') (run-lose_all cs m memory)
  run-lose_all (count ∷ cs) m memory = ap (λ as'. counted 0 ∷ as') (run-lose_all cs m memory)
  run-lose_all (test ∷ cs) m memory = ap (λ as'. done true ∷ as') (run-lose_all cs m memory)
