-- ===== src/Base/Keyed/Laws.antt =====
-- Lookups after each change, in the form of a test, and names that stay unique.
use Prim.Native.Nat.{ℕ, suc}
use mathlib.Core.Path.{◌≡◌, refl}
use mathlib.Core.List.{[], ◌∷◌}
use mathlib.Core.Option
use mathlib.Core.Option.{Option, none, some}
use native.Mathlib.Omega.{arith}
use learn_tars.Base.Tests.{◌==◌, if◌then◌else◌}
use learn_tars.Base.Lists.{length}
use learn_tars.Base.Keyed.{Keyed, find, without, update, last, drop_last, Unique}

module _ {B : Type 0} where
  pub find-without :
      (k j : ℕ) (l : Keyed B) → find j (without k l) ≡ (if k == j then none else find j l)
  unfolding find without
  find-without k j [] = ground arith
  find-without k j ((i, b) ∷ l) = ground (arith, find-without k j l)

  pub find-update :
      (k j : ℕ) (f : B → B) (l : Keyed B)
      → find j (update k f l) ≡ (if k == j then Option.map f (find j l) else find j l)
  unfolding find update
  find-update k j f [] = ground arith
  find-update k j f ((i, b) ∷ l) = ground (arith, find-update k j f l)

  pub without-Unique : (k : ℕ) (l : Keyed B) → Unique l → Unique (without k l)
  unfolding without
  without-Unique k [] u = tt
  without-Unique k ((i, b) ∷ l) u = ground (arith, without-Unique k l u.1, find-without k i l)

  pub update-Unique : (k : ℕ) (f : B → B) (l : Keyed B) → Unique l → Unique (update k f l)
  unfolding update
  update-Unique k f [] u = tt
  update-Unique k f ((i, b) ∷ l) u = ground (arith, update-Unique k f l u.1, find-update k i f l)

  pub length-without-none :
      (k : ℕ) (l : Keyed B) → find k l ≡ none → length (without k l) ≡ length l
  unfolding find without
  length-without-none k [] h = refl
  length-without-none k ((i, b) ∷ l) h = ground (arith, length-without-none k l)

  -- Removing a node that is there makes the container one shorter.
  pub length-without :
      (k : ℕ) (l : Keyed B) (b : B)
      → Unique l
      → find k l ≡ some b
      → suc (length (without k l)) ≡ length l
  unfolding find without
  length-without k [] b u h = cc
  length-without k ((i, c) ∷ l) b u h =
      ground (arith, length-without k l b u.1, length-without-none k l)

  pub length-update : (k : ℕ) (f : B → B) (l : Keyed B) → length (update k f l) ≡ length l
  unfolding update
  length-update k f [] = refl
  length-update k f ((i, b) ∷ l) = ground (arith, length-update k f l)

  pub find-last :
      (l : Keyed B) (i : ℕ) (b : B) → Unique l → last l ≡ some (i, b) → find i l ≡ some b
  unfolding find last
  find-last [] i b u h = cc
  find-last ((j, c) ∷ []) i b u h = ground arith
  find-last ((j, c) ∷ (m, d) ∷ l) i b u h = ground (arith, find-last ((m, d) ∷ l) i b u.1 h)

  pub find-drop_last :
      (l : Keyed B) (i : ℕ) (b : B) (j : ℕ)
      → Unique l
      → last l ≡ some (i, b)
      → find j (drop_last l) ≡ (if i == j then none else find j l)
  unfolding find last drop_last
  find-drop_last [] i b j u h = cc
  find-drop_last ((k, c) ∷ []) i b j u h = ground arith
  find-drop_last ((k, c) ∷ (m, d) ∷ l) i b j u h =
      ground (arith, find-drop_last ((m, d) ∷ l) i b j u.1 h, find-last ((m, d) ∷ l) i b u.1 h)

  pub last-none : (l : Keyed B) → last l ≡ none → l ≡ []
  unfolding last
  last-none [] h = refl
  last-none (n ∷ []) h = cc
  last-none (n ∷ m ∷ l) h = cc (last-none (m ∷ l) h)

  pub without-none : (k : ℕ) (l : Keyed B) → find k l ≡ none → without k l ≡ l
  unfolding find without
  without-none k [] h = refl
  without-none k ((i, b) ∷ l) h = ground (arith, without-none k l)

  pub without_head : (i : ℕ) (b : B) (l : Keyed B) → find i l ≡ none → without i ((i, b) ∷ l) ≡ l
  unfolding without
  without_head i b l h = ground (arith, without-none i l h)

  pub find_head : (i : ℕ) (b : B) (l : Keyed B) → find i ((i, b) ∷ l) ≡ some b
  unfolding find
  find_head i b l = ground arith

  -- With unique names, dropping the last node is removing it by its name.
  pub drop_last-without :
      (l : Keyed B) (i : ℕ) (b : B) → Unique l → last l ≡ some (i, b) → drop_last l ≡ without i l
  unfolding find last drop_last without
  drop_last-without [] i b u h = refl
  drop_last-without ((k, c) ∷ []) i b u h = ground arith
  drop_last-without ((k, c) ∷ (m, d) ∷ l) i b u h =
      ground (arith, drop_last-without ((m, d) ∷ l) i b u.1 h, find-last ((m, d) ∷ l) i b u.1 h)
