-- ===== src/Buffer/Popping.antt =====
-- util/src/tc_buffer.cpp: what `PopData` takes from the contents.
use learn_tars.Base.{
  ℕ, ◌+◌, ◌-◌, ◌<◌, ◌≡◌, refl, sym, ◌∙◌, [], some, arith, length, take, drop, take_all, drop_all,
  take-take, drop-drop, length-drop, min, ltb, if◌then◌else◌, dec_lt, le→leb, ne→==_false,
  le→ltb_false,
}
use learn_tars.Base.Words.{add64, sub64}
use learn_tars.Buffer.{Buffer, readable_size, is_empty, contents, pop_data, consume, clear}
use learn_tars.Buffer.Contents.{IsSound, readable_lem, length-contents, take-drop_split}

-- The buffer after `n` bytes, not all of them, were taken from its front.
advanced_lem :
    (n : ℕ) (b : Buffer)
    → IsSound b
    → n < b.write_pos - b.read_pos
    → let b' : Buffer = record b { read_pos = b.read_pos + n } in
      (consume n b ≡ some b') × IsSound b' × (contents b' ≡ drop n (contents b))
unfolding consume is_empty readable_size contents
advanced_lem n b h less =
    let d = b.write_pos - b.read_pos in
    let a : add64 b.read_pos n ≡ b.read_pos + n = omega (arith, h.write_le, h.small) in
    let k : d ≡ n + (d - n) = omega arith in
    let r : sub64 b.write_pos b.read_pos ≡ d = omega (arith, h.read_le, h.write_le, h.small) in
    let r' : sub64 b.write_pos (b.read_pos + n) ≡ d - n =
      omega (arith, h.read_le, h.write_le, h.small) in
    let t =
      take-drop_split n (d - n) (drop b.read_pos b.memory)
        (omega (arith, length-drop b.read_pos b.memory, h.sized, h.write_le)) in
    (
      rw
          (
            a,
            le→leb (b.read_pos + n) b.write_pos (omega arith),
            r',
            ne→==_false (d - n) 0 (omega arith),
          )
          refl,
      record {
        read_le = omega arith;
        write_le = h.write_le;
        sized = h.sized;
        small = h.small;
        percent = h.percent;
      },
      rw (r, r', sym (drop-drop b.read_pos n b.memory)) (sym (rw (sym k) at t)),
    )

emptied_lem :
    (b : Buffer)
    → IsSound b
    → (consume (b.write_pos - b.read_pos) b ≡ some (clear b))
      × IsSound (clear b)
      × (contents (clear b) ≡ [])
unfolding consume is_empty readable_size contents clear
emptied_lem b h =
    let a : add64 b.read_pos (b.write_pos - b.read_pos) ≡ b.write_pos =
      omega (arith, h.read_le, h.write_le, h.small) in
    let r : sub64 b.write_pos b.write_pos ≡ 0 = omega (arith, h.write_le, h.small) in
    (
      rw (a, le→leb b.write_pos b.write_pos (omega arith), r) refl,
      record {
        read_le = omega arith;
        write_le = omega arith;
        sized = h.sized;
        small = h.small;
        percent = h.percent;
      },
      refl,
    )

contents_lem :
    (b : Buffer)
    → IsSound b
    → contents b ≡ take (b.write_pos - b.read_pos) (drop b.read_pos b.memory)
unfolding contents
contents_lem b h = rw (readable_lem b h) refl

-- On a sound buffer, `PopData` takes `size` bytes from the front of the contents, or all of them if
-- there are not so many, returns their number, and keeps the buffer sound; no assertion fails.
pub pop_data_lem :
    (size : ℕ) (b : Buffer)
    → IsSound b
    → (b' : Buffer) × (pop_data size b
        ≡ some (min size (length (contents b)), take size (contents b), b'))
      × IsSound b'
      × (contents b' ≡ drop size (contents b))
unfolding pop_data
pop_data_lem size b h =
    let d = b.write_pos - b.read_pos in
    let r = readable_lem b h in
    let n = length-contents b h in
    let c = contents_lem b h in
    elim (dec_lt 0 size) [
      | no z ↦
          let e : size ≡ 0 = omega arith in
          let m : min 0 (length (contents b)) ≡ 0 = omega arith in (b, rw (e, m) refl, h, rw e refl)
      | yes p ↦ elim (dec_lt size d) [
        | yes less ↦
            let m : min size (length (contents b)) ≡ size = omega arith in
            let (done, sound, rest) = advanced_lem size b h less in
            (
              _,
              rw
                  (
                    m,
                    r,
                    ne→==_false size 0 (omega arith),
                    ne→==_false d 0 (omega arith),
                    le→ltb_false size d (omega arith),
                    done,
                    c,
                    take-take size d (drop b.read_pos b.memory) (omega arith),
                  )
                  refl,
              sound,
              rest,
            )
        | no ge ↦
            let m : min size (length (contents b)) ≡ d = omega arith in
            let all : take size (contents b) ≡ contents b =
              take_all size (contents b) (omega arith) in
            let gone : drop size (contents b) ≡ [] = drop_all size (contents b) (omega arith) in
            elim (dec_lt 0 d) [
              | yes some_ ↦
                  let k : (if ltb d size then d else size) ≡ d = ground arith in
                  let (done, sound, rest) = emptied_lem b h in
                  (
                    clear b,
                    rw
                        (
                          m,
                          all,
                          r,
                          ne→==_false size 0 (omega arith),
                          ne→==_false d 0 (omega arith),
                          k,
                          done,
                          c,
                        )
                        refl,
                    sound,
                    rest ∙ sym gone,
                  )
              | no none_ ↦
                  let e : d ≡ 0 = omega arith in
                  let nil : contents b ≡ [] = rw e at c in
                  (
                    b,
                    rw (m, all, r, nil, ne→==_false size 0 (omega arith), e) refl,
                    h,
                    nil ∙ sym gone,
                  )
            ]
      ]
    ]
