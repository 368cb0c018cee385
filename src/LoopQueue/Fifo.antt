-- ===== src/LoopQueue/Fifo.antt =====
-- What `TC_LoopQueue` promises: a first-in first-out sequence of at most `cap` elements.
use learn_tars.Base.{
  ℕ, ◌+◌, Bool, true, false, List, [], ◌∷◌, ◌++◌, Option, none, some, ltb, leb, if◌then◌else◌,
  length,
}

module _ {ℓ} {A : Type ℓ} where
  unfoldable pub is_nil : List A → Bool
  is_nil [] = true
  is_nil (x ∷ xs) = false

  -- The second answer says that the sequence was empty, so that a reader may have to be woken.
  unfoldable pub push : ℕ → List A → A → Bool × Bool × List A
  unfolding is_nil
  push cap xs t =
      if ltb (length xs) cap then (true, is_nil xs, xs ++ t ∷ []) else (false, false, xs)

  unfoldable pub push_all : ℕ → List A → List A → Bool × List A
  push_all cap xs ts = if leb (length xs + length ts) cap then (true, xs ++ ts) else (false, xs)

  unfoldable pub pop : List A → Bool × Option A × List A
  pop [] = (false, none, [])
  pop (x ∷ xs) = (true, some x, xs)

  unfoldable pub front : List A → Bool × Option A
  front [] = (false, none)
  front (x ∷ xs) = (true, some x)
