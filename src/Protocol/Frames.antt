-- ===== src/Protocol/Frames.antt =====
-- tup/AppProtocal.h: `streamResponse` on a stream of packages.
use learn_tars.Base.{
  ℕ, zero, suc, ◌+◌, ◌-◌, ◌%◌, ◌^◌, ◌≤◌, ◌<◌, ◌≡◌, refl, ◌∙◌, ◌⊎◌, Bool, List, [], ◌∷◌, ◌++◌,
  append-nil, append_assoc, arith, length, length-append, drop, take-append, drop-append,
  take_append_le, drop_append_le, drop_past, length-drop, All, lt→leb_false, le→ltb_false,
}
use mathlib.Core.List.{map}
use learn_tars.Base.Words.{add64}
use learn_tars.Protocol.{Layout, Response, returned, stuck, field_at, response_of, stream_response}

unfoldable pub joined : List (List ℕ) → List ℕ
joined [] = []
joined (f ∷ fs) = f ++ joined fs

field_past :
    (size : ℕ) (netorder : Bool) (pre r : List ℕ) (k : ℕ)
    → field_at size netorder (length pre + k) (pre ++ r) ≡ field_at size netorder k r
unfolding field_at
field_past size netorder pre r k = rw (drop_past pre r k) refl

field_append :
    (size : ℕ) (netorder : Bool) (k : ℕ) (f r : List ℕ)
    → k + size ≤ length f
    → field_at size netorder k (f ++ r) ≡ field_at size netorder k f
unfolding field_at
field_append size netorder k f r h =
    rw
      (
        drop_append_le k f r (omega arith),
        take_append_le size (drop k f) r (omega (arith, length-drop k f)),
      )
      refl

module _ (l : Layout) where
  -- A package whose header tells its length, and that has room for the header and the request's id.
  pub record IsFrame (f : List ℕ) : Type 0 where
    pub header : field_at l.size l.netorder l.offset f ≡ length f
    pub head_in : l.offset + l.size ≤ length f
    pub id_in : l.id_offset + l.id_size ≤ length f
    pub positive : 0 < length f

  -- The beginning of a package: the header is not there yet, or what it announces is not.
  abbrev pub IsPartial : List ℕ → Type 0
  IsPartial t = (length t < l.offset + l.size) ⊎ (length t < field_at l.size l.netorder l.offset t)

  stream_frame :
      (n : ℕ) (pre f r : List ℕ) (acc : List Response)
      → IsFrame f
      → length pre + length f + length r < 2 ^ 32
      → stream_response l (suc n) (pre ++ (f ++ r)) (length pre) acc
        ≡ stream_response l n (pre ++ (f ++ r)) (length (pre ++ f)) (acc ++ response_of l f ∷ [])
  unfolding stream_response response_of
  stream_frame n pre f r acc h small =
      let size : length (pre ++ (f ++ r)) ≡ length pre + length f + length r =
        omega (arith, length-append pre (f ++ r), length-append f r) in
      let header : field_at l.size l.netorder (length pre + l.offset) (pre ++ (f ++ r)) ≡ length f =
        field_past l.size l.netorder pre (f ++ r) l.offset
        ∙ field_append l.size l.netorder l.offset f r h.head_in
        ∙ h.header in
      let id : field_at l.id_size l.id_netorder (length pre + l.id_offset) (pre ++ (f ++ r))
          ≡ field_at l.id_size l.id_netorder l.id_offset f =
        field_past l.id_size l.id_netorder pre (f ++ r) l.id_offset
        ∙ field_append l.id_size l.id_netorder l.id_offset f r h.id_in in
      let next : add64 (length pre) (length f) ≡ length (pre ++ f) =
        omega (arith, length-append pre f) in
      let len : (length pre + length f + length r - length pre) % 2 ^ 32 ≡ length f + length r =
        omega arith in
      rw (header, id, size, drop-append pre (f ++ r), take-append f r, next, len)
        (rw
          (
            lt→leb_false (length pre) (length pre + length f + length r)
                (omega (arith, h.positive)),
            le→ltb_false (l.offset + l.size) (length f + length r) (omega (arith, h.head_in)),
            le→ltb_false (length f) (length f + length r) (omega arith),
            le→ltb_false (length pre + l.id_offset + l.id_size) (length pre + length f + length r)
                (omega (arith, h.id_in)),
          )
          refl)

  stream_partial :
      (n : ℕ) (pre t : List ℕ) (acc : List Response)
      → IsPartial t
      → length pre + length t < 2 ^ 32
      → stream_response l (suc n) (pre ++ t) (length pre) acc ≡ returned (length pre) acc
  unfolding stream_response
  stream_partial n pre t acc h small =
      let size : length (pre ++ t) ≡ length pre + length t = length-append pre t in
      let len : (length pre + length t - length pre) % 2 ^ 32 ≡ length t = omega arith in
      rw (size, len, field_past l.size l.netorder pre t l.offset) (ground arith)

  stream_frames :
      (fs : List (List ℕ)) (pre t : List ℕ) (acc : List Response)
      → All IsFrame fs
      → IsPartial t
      → length pre + length (joined fs) + length t < 2 ^ 32
      → stream_response l (suc (length fs)) (pre ++ (joined fs ++ t)) (length pre) acc
        ≡ returned (length (pre ++ joined fs)) (acc ++ map (response_of l) fs)
  unfolding joined
  stream_frames [] pre t acc h p small =
      rw (append-nil, append-nil) (stream_partial 0 pre t acc p (omega arith))
  stream_frames (f ∷ fs) pre t acc h p small =
      let size = length-append f (joined fs) in
      let size' = length-append (joined fs) t in
      let size'' = length-append pre f in
      let once = stream_frame (suc (length fs)) pre f (joined fs ++ t) acc h.0 (omega arith) in
      let others =
        stream_frames fs (pre ++ f) t (acc ++ response_of l f ∷ []) h.1 p (omega arith) in
      rw append_assoc (once ∙ rw (append_assoc, append_assoc, append_assoc) at others)

  -- From a stream of whole packages and the beginning of one more, shorter than 2^32 bytes,
  -- `streamResponse` hands out exactly the packages, each with the id in it, in their order, and
  -- returns the position behind them. One round for each package and one more are enough.
  pub stream_response-joined :
      (fs : List (List ℕ)) (t : List ℕ)
      → All IsFrame fs
      → IsPartial t
      → length (joined fs) + length t < 2 ^ 32
      → stream_response l (suc (length fs)) (joined fs ++ t) 0 []
        ≡ returned (length (joined fs)) (map (response_of l) fs)
  stream_response-joined fs t h p small = stream_frames fs [] t [] h p (omega arith)

  -- A package whose header says 0, with its header and its id within a buffer shorter than 2^32
  -- bytes, keeps the loop going for ever: no number of rounds is enough.
  pub stream_response_stuck :
      (n pos : ℕ) (s : List ℕ) (acc : List Response)
      → pos < length s
      → length s < 2 ^ 32
      → pos + l.offset + l.size ≤ length s
      → pos + l.id_offset + l.id_size ≤ length s
      → field_at l.size l.netorder (pos + l.offset) s ≡ 0
      → stream_response l n s pos acc ≡ stuck
  unfolding stream_response
  stream_response_stuck zero pos s acc h small a b z = refl
  stream_response_stuck (suc n) pos s acc h small a b z =
      let same : add64 pos 0 ≡ pos = omega arith in
      let len : (length s - pos) % 2 ^ 32 ≡ length s - pos = omega arith in
      rw (z, same, len)
        (rw
          (
            lt→leb_false pos (length s) h,
            le→ltb_false (l.offset + l.size) (length s - pos) (omega arith),
            le→ltb_false 0 (length s - pos) (omega arith),
            le→ltb_false (pos + l.id_offset + l.id_size) (length s) b,
          )
          (stream_response_stuck n pos s _ h small a b z))
