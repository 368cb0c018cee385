-- ===== src/Server/Receiving.antt =====
-- `Connection::recv`: what is handed to the handlers of the bytes that `read` gives.
use learn_tars.Base.{
  ℕ, ◌≡◌, ◌≤◌, ◌<◌, refl, sym, ap, ◌∙◌, true, false, List, [], ◌∷◌, ◌++◌, append-nil, append_assoc,
  length, arith, none, some, All, lt→ltb, le→ltb_false,
}
use learn_tars.Server.Slices.{flatten}
use learn_tars.Server.Connection.{Connection, Got, bytes, buffer_size, recv_loop, recv, hand_out}

-- A call of `read` that fills the array, and one that does not.
pub Full : List ℕ → Type 0
Full s = buffer_size ≤ length s

-- The answers of `read` that give the chunks `ss`, and then `gs`.
abbrev pub gives : List (List ℕ) → List Got → List Got
gives [] gs = gs
gives (s ∷ ss) gs = bytes s ∷ gives ss gs

recv-Full :
    (s : List ℕ) (gs : List Got) (r : List ℕ)
    → Full s
    → recv_loop (bytes s ∷ gs) r ≡ recv_loop gs (r ++ s)
unfolding recv_loop Full
recv-Full [] gs r f = let no : ⊥ = omega arith in elim no [ ]
recv-Full (b ∷ bs) gs r f = rw (le→ltb_false buffer_size (length (b ∷ bs)) f) refl

recv_last :
    (b : ℕ) (bs : List ℕ) (gs : List Got) (r : List ℕ)
    → length (b ∷ bs) < buffer_size
    → recv_loop (bytes (b ∷ bs) ∷ gs) r ≡ (true, r ++ b ∷ bs)
unfolding recv_loop
recv_last b bs gs r l = rw (lt→ltb (length (b ∷ bs)) buffer_size l) refl

recv_loop-gives :
    (ss : List (List ℕ)) (gs : List Got) (r : List ℕ)
    → All Full ss
    → recv_loop (gives ss gs) r ≡ recv_loop gs (r ++ flatten ss)
recv_loop-gives [] gs r a = ap (recv_loop gs) (sym (append-nil r))
recv_loop-gives (s ∷ ss) gs r (f, a) =
    recv-Full s (gives ss gs) r f
    ∙ recv_loop-gives ss gs (r ++ s) a
    ∙ ap (recv_loop gs) (append_assoc r s (flatten ss))

alive :
    (gs : List Got) (c : Connection) (b : ℕ) (bs r : List ℕ)
    → recv_loop gs c.recvbuffer ≡ (true, r ++ b ∷ bs)
    → recv gs c ≡ (
      some (record { buffer = r ++ b ∷ bs; from_uid = c.uid; is_closed = false } ∷ []),
      record c { recvbuffer = [] },
    )
unfolding recv
alive gs c b bs [] e = ap (hand_out c) e
alive gs c b bs (x ∷ r) e = ap (hand_out c) e

-- When `read` fills the array any number of times and then gives fewer bytes, but some, `recv`
-- hands out one piece of data, under the identifier of the connection: what was received before and
-- all of these bytes, in their order. It keeps nothing of it.
pub recv_lem :
    (c : Connection) (ss : List (List ℕ)) (b : ℕ) (bs : List ℕ) (gs : List Got)
    → All Full ss
    → length (b ∷ bs) < buffer_size
    → recv (gives ss (bytes (b ∷ bs) ∷ gs)) c ≡ (
      some (
          record {
            buffer = (c.recvbuffer ++ flatten ss) ++ b ∷ bs;
            from_uid = c.uid;
            is_closed = false;
          }
          ∷ []),
      record c { recvbuffer = [] },
    )
recv_lem c ss b bs gs a l =
    let r = c.recvbuffer ++ flatten ss in
    alive (gives ss (bytes (b ∷ bs) ∷ gs)) c b bs r
      (recv_loop-gives ss (bytes (b ∷ bs) ∷ gs) c.recvbuffer a ∙ recv_last b bs gs r l)

-- Chunks that fill the array, and then the end of the stream, are not handed out.
recv_ended :
    (c : Connection) (ss : List (List ℕ)) (gs : List Got)
    → All Full ss
    → recv (gives ss (bytes [] ∷ gs)) c
      ≡ (none, record c { recvbuffer = c.recvbuffer ++ flatten ss })
unfolding recv recv_loop
recv_ended c ss gs a = ap (hand_out c) (recv_loop-gives ss (bytes [] ∷ gs) c.recvbuffer a)
