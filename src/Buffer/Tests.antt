-- ===== src/Buffer/Tests.antt =====
-- Runs of the buffer, and the theorems about it at concrete inputs.
use learn_tars.Base.{
  ℕ, ◌+◌, ◌*◌, ◌<◌, ◌≤◌, ◌≡◌, refl, ◌⊎◌, List, [], ◌∷◌, ◌++◌, some, arith, length, take, drop, min,
  replicate, length-replicate,
}
use mathlib.Core.Option
use learn_tars.Buffer.{
  Buffer, readable_size, writable_size, contents, overwrite, pop_data, push_data, shrink,
  next_capacity, grow, settle, assure_space, max_buffer_size,
}
use learn_tars.Buffer.Contents.{IsSound}
use learn_tars.Buffer.Operations.{push_data_lem}
use learn_tars.Buffer.Popping.{pop_data_lem}
use learn_tars.Buffer.Shrinking.{shrink_lem, KeepsSize}

abbrev zeroed : ℕ → List ℕ
zeroed n = replicate n 0

length-zeroed : (n : ℕ) → length (zeroed n) ≡ n
length-zeroed n = length-replicate n 0

-- Two bytes were taken from the front of a full array of four.
abbrev half : Buffer
half = record {
  read_pos = 2;
  write_pos = 4;
  capacity = 4;
  memory = 1 ∷ 2 ∷ 3 ∷ 4 ∷ [];
  high_water_percent = 50;
}

half-IsSound : IsSound half
half-IsSound = record {
  read_le = omega arith;
  write_le = omega arith;
  sized = refl;
  small = omega arith;
  percent = omega arith;
}

abbrev three : List ℕ
three = 5 ∷ 6 ∷ 7 ∷ []

held_bytes : contents half ≡ 3 ∷ 4 ∷ []
unfolding contents readable_size
held_bytes = refl

few_bytes : length (contents half) + length three < max_buffer_size
unfolding contents readable_size
few_bytes = omega arith

-- One byte fits after the others have moved to the start of the array.
moves :
    Option.map (λ r. r.1) (push_data zeroed (5 ∷ []) half)
    ≡ some (record {
      read_pos = 0;
      write_pos = 3;
      capacity = 4;
      memory = 3 ∷ 4 ∷ 5 ∷ 4 ∷ [];
      high_water_percent = 50;
    })
unfolding push_data assure_space settle grow next_capacity writable_size readable_size overwrite
    contents
moves = refl

push_data_lem_example :
    (b' : Buffer) × (push_data zeroed three half ≡ some (3, b'))
    × IsSound b'
    × (contents b' ≡ contents half ++ three)
push_data_lem_example =
    push_data_lem zeroed length-zeroed three half half-IsSound (omega arith) few_bytes

pop_data_lem_example :
    (b' : Buffer) × (pop_data 1 half
      ≡ some (min 1 (length (contents half)), take 1 (contents half), b'))
    × IsSound b'
    × (contents b' ≡ drop 1 (contents half))
pop_data_lem_example = pop_data_lem 1 half half-IsSound

-- Two bytes in an array of 512.
abbrev wide : Buffer
wide = record half { capacity = 512; memory = zeroed 512 }

wide-IsSound : IsSound wide
wide-IsSound = record {
  read_le = omega arith;
  write_le = omega arith;
  sized = length-zeroed 512;
  small = omega arith;
  percent = omega arith;
}

shrink_lem_example :
    let n = length (contents wide) in
    (b' : Buffer) × (shrink zeroed wide ≡ some b')
    × IsSound b'
    × (contents b' ≡ contents wide)
    × (((n ≡ 0) × (b'.capacity ≡ 0))
        ⊎ ((0 < n) × KeepsSize wide n × (b' ≡ wide))
        ⊎ ((0 < n) × (¬ KeepsSize wide n) × (n ≤ b'.capacity) × (b'.capacity ≤ 2 * n)))
shrink_lem_example = shrink_lem zeroed wide length-zeroed wide-IsSound
