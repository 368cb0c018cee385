-- ===== src/Buffer/Operations.antt =====
-- util/src/tc_buffer.cpp: what `AssureSpace`, `PushData`, `PopData` and `Shrink` do to the
-- contents.
use learn_tars.Base.{
  ℕ, ◌+◌, ◌-◌, ◌≤◌, ◌<◌, ◌≡◌, refl, sym, ap, ◌∙◌, List, ◌++◌, some, arith, length, dec_le, le→leb,
  not_le→leb, lt→leb_false, ne→==_false, ◌>>=◌,
}
use learn_tars.Base.Words.{add64, sub64}
use learn_tars.Buffer.{
  Buffer, readable_size, contents, overwrite, grow, settle, assure_space, push_data,
  max_buffer_size,
}
use learn_tars.Buffer.Growth.{grow_lem}
use learn_tars.Buffer.Contents.{
  IsSound, readable_lem, writable_lem, length-contents, length-overwrite, take-drop-overwrite,
  HasRoom, settle_lem,
}

module _ (fresh : ℕ → List ℕ) (sized : (n : ℕ) → length (fresh n) ≡ n) where
  pub assure_space_lem :
      (need : ℕ) (b : Buffer)
      → IsSound b
      → length (contents b) + need < max_buffer_size
      → (b' : Buffer) × (assure_space fresh need b ≡ some b') × HasRoom fresh sized need b b'
  unfolding assure_space
  assure_space_lem need b h small =
      let w = writable_lem b h in
      let n = length-contents b h in
      elim (dec_le need (b.capacity - b.write_pos)) [
        | yes p ↦ (
          b,
          rw (w, le→leb _ _ p) refl,
          record { sound = h; kept = refl; room = omega (arith, h.write_le) },
        )
        | no p ↦
            let step : assure_space fresh need b
                ≡ (grow 65 need b >>= λ grown. settle fresh need b grown) =
              rw (w, not_le→leb _ _ p) refl in
            let (c, eq, l, u, room) =
              grow_lem 65 0 need b refl (omega arith) h.read_le h.write_le h.small (omega arith) in
            let (b', done, r) = settle_lem fresh sized need c b h (omega arith) l u room in
            (b', step ∙ ap (λ o. o >>= λ grown. settle fresh need b grown) eq ∙ done, r)
      ]

  -- Bytes written where there is room for them stand behind the others.
  written_lem :
      (bs : List ℕ) (b : Buffer)
      → IsSound b
      → b.write_pos + length bs ≤ b.capacity
      → let b' : Buffer = record b {
        memory = overwrite b.write_pos bs b.memory;
        write_pos = add64 b.write_pos (length bs);
      } in
        IsSound b' × (contents b' ≡ contents b ++ bs)
  unfolding contents readable_size
  written_lem bs b h room =
      let a : add64 b.write_pos (length bs) ≡ b.write_pos + length bs = omega (arith, h.small) in
      let n = b.write_pos - b.read_pos in
      let e : b.write_pos ≡ b.read_pos + n = omega (arith, h.read_le) in
      let r : sub64 b.write_pos b.read_pos ≡ n = omega (arith, h.read_le, h.write_le, h.small) in
      let r' : sub64 (b.write_pos + length bs) b.read_pos ≡ n + length bs =
        omega (arith, h.read_le, h.small) in
      let t = take-drop-overwrite b.read_pos n bs b.memory (omega (arith, h.sized)) in
      rw a (
        record {
          read_le = omega (arith, h.read_le);
          write_le = room;
          sized = length-overwrite b.write_pos bs b.memory (omega (arith, h.sized)) ∙ h.sized;
          small = h.small;
          percent = h.percent;
        },
        rw (r, r') (rw (sym e) at t),
      )

  -- On a sound buffer, and with what `new char[n]` returns being `n` bytes long, `PushData` of at
  -- least one byte appends all the bytes to the contents and keeps the buffer sound, if they then
  -- are fewer than kMaxBufferSize; no assertion fails, and the loops end.
  pub push_data_lem :
      (bs : List ℕ) (b : Buffer)
      → IsSound b
      → 0 < length bs
      → length (contents b) + length bs < max_buffer_size
      → (b' : Buffer) × (push_data fresh bs b ≡ some (length bs, b'))
        × IsSound b'
        × (contents b' ≡ contents b ++ bs)
  unfolding push_data
  push_data_lem bs b h p small =
      let n = length-contents b h in
      let a : add64 (b.write_pos - b.read_pos) (length bs) ≡ b.write_pos - b.read_pos + length bs =
        omega arith in
      let step : push_data fresh bs b ≡ (
          assure_space fresh (length bs) b >>= λ b'. some (
            length bs,
            record b' {
              memory = overwrite b'.write_pos bs b'.memory;
              write_pos = add64 b'.write_pos (length bs);
            },
          )) =
        rw
          (
            readable_lem b h,
            a,
            ne→==_false (length bs) 0 (omega arith),
            lt→leb_false (b.write_pos - b.read_pos + length bs) max_buffer_size (omega arith),
          )
          refl in
      let (b', eq, r) = assure_space_lem (length bs) b h small in
      let w = written_lem bs b' r.sound r.room in
      (
        _,
        step
            ∙ ap
                (λ o. o >>= λ x. some (
                  length bs,
                  record x {
                    memory = overwrite x.write_pos bs x.memory;
                    write_pos = add64 x.write_pos (length bs);
                  },
                ))
                eq,
        w.0,
        w.1 ∙ ap (λ c. c ++ bs) r.kept,
      )
