-- ===== src/Base/Keyed.antt =====
-- Containers of nodes that are named by a number: a map by its keys, and a linked list by the
-- identity of its nodes, which is what an iterator into it holds.
pub mod Laws
use Prim.Native.Nat.{ℕ, suc, ◌<◌}
use mathlib.Core.Path.{◌≡◌, refl}
use mathlib.Core.Logic.{◌≢◌}
use mathlib.Core.List.{List, [], ◌∷◌}
use mathlib.Core.Option.{Option, none, some}
use native.Mathlib.Omega.{arith}
use learn_tars.Base.Tests.{◌==◌, if◌then◌else◌}
use learn_tars.Base.Lists.{length}

abbrev pub Keyed {ℓ} : Type ℓ → Type ℓ
Keyed B = List (ℕ × B)

module _ {ℓ} {B : Type ℓ} where
  unfoldable pub find : ℕ → Keyed B → Option B
  find k [] = none
  find k ((i, b) ∷ l) = if i == k then some b else find k l

  unfoldable pub without : ℕ → Keyed B → Keyed B
  without k [] = []
  without k ((i, b) ∷ l) = if i == k then without k l else (i, b) ∷ without k l

  unfoldable pub update : ℕ → (B → B) → Keyed B → Keyed B
  update k f [] = []
  update k f ((i, b) ∷ l) = if i == k then (i, f b) ∷ l else (i, b) ∷ update k f l

  unfoldable pub last : Keyed B → Option (ℕ × B)
  last [] = none
  last (n ∷ []) = some n
  last (n ∷ m ∷ l) = last (m ∷ l)

  unfoldable pub drop_last : Keyed B → Keyed B
  drop_last [] = []
  drop_last (n ∷ []) = []
  drop_last (n ∷ m ∷ l) = n ∷ drop_last (m ∷ l)

  -- No name occurs twice.
  abbrev pub Unique : Keyed B → Type ℓ
  Unique [] = Unit {ℓ}
  Unique ((i, b) ∷ l) = (find i l ≡ none) × Unique l
