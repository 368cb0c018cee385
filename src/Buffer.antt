-- ===== src/Buffer.antt =====
-- util/include/tc_buffer.h and util/src/tc_buffer.cpp: `TC_Buffer`, a buffer of bytes that grows.
pub mod Growth
pub mod Contents
pub mod Operations
pub mod Popping
pub mod Shrinking
mod Tests
use learn_tars.Base.{
  ℕ, zero, suc, ◌+◌, ◌-◌, ◌*◌, ◌%◌, ◌^◌, Bool, true, false, List, [], ◌∷◌, ◌++◌, Option, none, some,
  ltb, leb, ◌==◌, ◌||◌, if◌then◌else◌, length, take, drop, ◌>>=◌, ◌>>◌, assert_that,
}
use learn_tars.Base.Words.{add64, sub64, mul64}

-- `memory` is the array at `_buffer`.
pub record Buffer : Type 0 where
  pub read_pos : ℕ
  pub write_pos : ℕ
  pub capacity : ℕ
  pub memory : List ℕ
  pub high_water_percent : ℕ

-- kMaxBufferSize and kDefaultSize
abbrev pub max_buffer_size : ℕ
max_buffer_size = 2 ^ 63 - 1

abbrev pub default_size : ℕ
default_size = 128

unfoldable pub new_buffer : Buffer
new_buffer = record {
  read_pos = 0;
  write_pos = 0;
  capacity = 0;
  memory = [];
  high_water_percent = 50;
}

-- The loop of `RoundUp2Power`, for at most so many rounds.
unfoldable pub round_loop : ℕ → ℕ → ℕ → Option ℕ
round_loop zero size round_up = none
round_loop (suc f) size round_up =
    let rest = round_loop f size (mul64 round_up 2) in
    if ltb round_up size then rest else some round_up

unfoldable pub round_up_2_power : ℕ → Option ℕ
round_up_2_power size = if size == 0 then some 0 else round_loop 64 size 1

unfoldable pub readable_size : Buffer → ℕ
readable_size b = sub64 b.write_pos b.read_pos

unfoldable pub writable_size : Buffer → ℕ
writable_size b = sub64 b.capacity b.write_pos

unfoldable pub is_empty : Buffer → Bool
is_empty b = readable_size b == 0

unfoldable pub clear : Buffer → Buffer
clear b = record b { read_pos = 0; write_pos = 0 }

-- `memcpy` and `memmove` of the bytes to the position.
unfoldable pub overwrite : ℕ → List ℕ → List ℕ → List ℕ
overwrite pos bs mem = take pos mem ++ (bs ++ drop (pos + length bs) mem)

-- The bytes at `ReadAddr`, of which there are `ReadableSize`: what `PeekData` shows.
unfoldable pub contents : Buffer → List ℕ
contents b = take (readable_size b) (drop b.read_pos b.memory)

-- The body of the loop of `AssureSpace`. A failed assertion is `none`.
unfoldable pub next_capacity : ℕ → Option ℕ
next_capacity capacity =
    if ltb capacity default_size
    then some default_size
    else if leb capacity max_buffer_size
    then (do
      new_capacity ← round_up_2_power capacity
      some (if ltb capacity new_capacity then new_capacity else mul64 2 new_capacity))
    else none

-- The loop, for at most so many rounds.
unfoldable pub grow : ℕ → ℕ → Buffer → Option Buffer
grow zero need b = none
grow (suc f) need b =
    let more = next_capacity b.capacity >>= λ c. grow f need (record b { capacity = c }) in
    if ltb (add64 (writable_size b) b.read_pos) need then more else some b

unfoldable pub consume : ℕ → Buffer → Option Buffer
consume n b = do
  assert_that (leb (add64 b.read_pos n) b.write_pos)
  let b' : Buffer = record b { read_pos = add64 b.read_pos n }
  some (if is_empty b' then clear b' else b')

-- `PopData`: the size returned, the bytes stored in `buf`, and the buffer.
unfoldable pub pop_data : ℕ → Buffer → Option (ℕ × List ℕ × Buffer)
pop_data size b =
    let data_size = readable_size b in
    let n = if ltb data_size size then data_size else size in
    if size == 0 || data_size == 0
    then some (0, [], b)
    else consume n b >>= λ b'. some (n, take n (drop b.read_pos b.memory), b')

unfoldable pub set_high_water_percent : ℕ → Buffer → Buffer
set_high_water_percent percents b =
    if ltb percents 10 || leb 100 percents then b else record b { high_water_percent = percents }

unfoldable pub swap : Buffer → Buffer → Buffer × Buffer
swap a b = (
  record b { high_water_percent = a.high_water_percent },
  record a { high_water_percent = b.high_water_percent },
)

-- `fresh n` is the memory that `new char[n]` returns.
module _ (fresh : ℕ → List ℕ) where
  -- The second half of `AssureSpace`: the bytes move to the start of the array, or of a new one.
  unfoldable pub settle : ℕ → Buffer → Buffer → Option Buffer
  settle need b grown =
      let memory = if ltb b.capacity grown.capacity then fresh grown.capacity else b.memory in
      let b' : Buffer = record grown {
        memory = overwrite 0 (contents b) memory;
        read_pos = 0;
        write_pos = readable_size b;
      } in
      (do
        assert_that (ltb b.capacity grown.capacity || ltb 0 b.read_pos)
        assert_that (leb need (writable_size b'))
        some b')

  unfoldable pub assure_space : ℕ → Buffer → Option Buffer
  assure_space need b =
      if leb need (writable_size b) then some b else grow 65 need b >>= λ grown. settle need b grown

  -- `PushData`: the size returned, and the buffer.
  unfoldable pub push_data : List ℕ → Buffer → Option (ℕ × Buffer)
  push_data bs b =
      if length bs == 0 || leb max_buffer_size (add64 (readable_size b) (length bs))
      then some (0, b)
      else assure_space (length bs) b >>= λ b'. some (
        length bs,
        record b' {
          memory = overwrite b'.write_pos bs b'.memory;
          write_pos = add64 b'.write_pos (length bs);
        },
      )

  unfoldable pub shrink : Buffer → Option Buffer
  shrink b =
      let data_size = readable_size b in
      if is_empty b
      then some (record b { read_pos = 0; write_pos = 0; capacity = 0; memory = [] })
      else if leb b.capacity default_size
          || ltb (mul64 b.capacity b.high_water_percent) (mul64 data_size 100)
      then some b
      else (do
        new_cap ← round_up_2_power data_size
        some (record b {
          memory = overwrite 0 (contents b) (fresh new_cap);
          capacity = new_cap;
          read_pos = 0;
          write_pos = data_size;
        }))
