-- ===== src/TimeoutQueue/Times.antt =====
-- The multimap `_time` of `TC_TimeoutQueueNew`: insertion keeps its nodes findable and in order.
use learn_tars.Base.{ℕ, suc, ◌≤◌, ◌≡◌, [], ◌∷◌, none, some, arith, ◌==◌, if◌then◌else◌, All, length}
use learn_tars.Base.Keyed.{Keyed, find, without, Unique}
use learn_tars.TimeoutQueue.{TimeNode, insert_time}

-- No key below `d`.
abbrev pub DueFrom : ℕ → Keyed TimeNode → Type 0
DueFrom d = All (λ n. d ≤ n.1.due)

abbrev pub Sorted : Keyed TimeNode → Type 0
Sorted [] = Unit {0}
Sorted (n ∷ l) = DueFrom n.1.due l × Sorted l

DueFrom-mono : (c d : ℕ) (l : Keyed TimeNode) → c ≤ d → DueFrom d l → DueFrom c l
DueFrom-mono c d [] h a = tt
DueFrom-mono c d (n ∷ l) h a = (omega arith, DueFrom-mono c d l h a.1)

insert_time-DueFrom :
    (d i : ℕ) (t : TimeNode) (l : Keyed TimeNode)
    → d ≤ t.due
    → DueFrom d l
    → DueFrom d (insert_time (i, t) l)
unfolding insert_time
insert_time-DueFrom d i t [] h a = (h, tt)
insert_time-DueFrom d i t (m ∷ l) h a = ground (arith, insert_time-DueFrom d i t l h a.1)

pub insert_time-Sorted :
    (i : ℕ) (t : TimeNode) (l : Keyed TimeNode) → Sorted l → Sorted (insert_time (i, t) l)
unfolding insert_time
insert_time-Sorted i t [] s = (tt, tt)
insert_time-Sorted i t (m ∷ l) s = ground (
  arith,
  insert_time-Sorted i t l s.1,
  DueFrom-mono t.due m.1.due l,
  insert_time-DueFrom m.1.due i t l,
)

pub find-insert_time :
    (i j : ℕ) (t : TimeNode) (l : Keyed TimeNode)
    → find i l ≡ none
    → find j (insert_time (i, t) l) ≡ (if i == j then some t else find j l)
unfolding insert_time find
find-insert_time i j t [] h = ground arith
find-insert_time i j t ((m, s) ∷ l) h = ground (arith, find-insert_time i j t l)

pub insert_time-Unique :
    (i : ℕ) (t : TimeNode) (l : Keyed TimeNode)
    → find i l ≡ none
    → Unique l
    → Unique (insert_time (i, t) l)
unfolding insert_time find
insert_time-Unique i t [] h u = ground arith
insert_time-Unique i t ((m, s) ∷ l) h u =
    ground (arith, insert_time-Unique i t l, find-insert_time i m t l)

without-DueFrom : (d i : ℕ) (l : Keyed TimeNode) → DueFrom d l → DueFrom d (without i l)
unfolding without
without-DueFrom d i [] a = tt
without-DueFrom d i (m ∷ l) a = ground (arith, without-DueFrom d i l a.1)

pub without-Sorted : (i : ℕ) (l : Keyed TimeNode) → Sorted l → Sorted (without i l)
unfolding without
without-Sorted i [] s = tt
without-Sorted i (m ∷ l) s = ground (arith, without-Sorted i l s.1, without-DueFrom m.1.due i l)

pub length-insert_time :
    (i : ℕ) (t : TimeNode) (l : Keyed TimeNode) → length (insert_time (i, t) l) ≡ suc (length l)
unfolding insert_time
length-insert_time i t [] = omega arith
length-insert_time i t (m ∷ l) = ground (arith, length-insert_time i t l)

pub due_of_find :
    (d i : ℕ) (t : TimeNode) (l : Keyed TimeNode) → DueFrom d l → find i l ≡ some t → d ≤ t.due
unfolding find
due_of_find d i t [] a h = cc
due_of_find d i t ((j, s) ∷ l) a h = ground (arith, due_of_find d i t l a.1)
