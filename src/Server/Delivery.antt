-- ===== src/Server/Delivery.antt =====
-- What a connection delivers: the bytes of its send buffer to the socket, and those of the socket to
-- the handlers.
use mathlib.Core.Path.{subst}
use learn_tars.Base.{
  ℕ, ◌+◌, ◌-◌, ◌*◌, ◌≡◌, ◌≢◌, ◌≤◌, ◌<◌, ◌^◌, refl, sym, ap, ◌∙◌, true, ◌&&◌, List, [], ◌∷◌, ◌++◌,
  append-nil, length, take, drop, ◌==◌, Option, some, ◌>>=◌, ◌⊎◌, inl, inr, arith, dec_le,
  Bool-cases, length-drop, drop_all, le→leb, lt→leb_false,
}
use learn_tars.Server.Slices.{
  Slice, flatten, Written, invalid, wrote, sent, no_empty, send_slices, send_loop, clear_slices,
}
use learn_tars.Server.Adjust.{adjust_slices_lem}
use learn_tars.Server.Sending.{send_loop-Sends}
use learn_tars.Server.Connection.{
  Connection, Answer, kept, by_peer, to_close, check_sendbuffer, after_send, send_out, flush,
}

empty_of_flatten : (ss : List Slice) → no_empty ss ≡ true → flatten ss ≡ [] → ss ≡ []
unfolding no_empty
empty_of_flatten [] e f = refl
empty_of_flatten ([] ∷ ss) e f = cc
empty_of_flatten ((b ∷ s) ∷ ss) e f = cc

-- Clearing leaves no slice, if they hold fewer than 2^64 bytes.
clear_slices_lem :
    (ss : List Slice)
    → no_empty ss ≡ true
    → length (flatten ss) < 2 ^ 31
    → clear_slices ss ≡ some []
unfolding clear_slices
clear_slices_lem ss e l =
    let (rest, a, f, p) = adjust_slices_lem ss (2 ^ 64 - 1) e in
    a ∙ ap some (empty_of_flatten rest p (f ∙ drop_all (2 ^ 64 - 1) (flatten ss) (omega arith)))

-- What is left in the send buffer after a check of it.
pub record Checks (c : Connection) (o : Option (Answer × Connection)) : Type 0 where
  pub answer : Answer
  pub after : Connection
  pub result : o ≡ some (answer, after)
  pub left :
      ((answer ≡ kept)
        × (after.sendbuffer ≡ c.sendbuffer)
        × (length (flatten after.sendbuffer) < 8 * 1024))
      ⊎ ((answer ≡ to_close) × (after.sendbuffer ≡ []))

none_of_length : (ss : List Slice) → (length ss == 0) ≡ true → ss ≡ []
none_of_length [] e = refl
none_of_length (s ∷ ss) e = let no : ⊥ = ground arith in elim no [ ]

check_sendbuffer_lem :
    (c : Connection)
    → no_empty c.sendbuffer ≡ true
    → length (flatten c.sendbuffer) < 2 ^ 31
    → Checks c (check_sendbuffer c)
unfolding check_sendbuffer
check_sendbuffer_lem c e l =
    let n = length (flatten c.sendbuffer) in
    elim (dec_le (8 * 1024) n) [
      | yes m ↦ record {
        answer = to_close;
        after = record c { sendbuffer = [] };
        result = rw (le→leb (8 * 1024) n m, clear_slices_lem c.sendbuffer e l) refl;
        left = inr (refl, refl);
      }
      | no m ↦ elim (Bool-cases (c.b_close && (length c.sendbuffer == 0))) [
        | inl f ↦ record {
          answer = to_close;
          after = c;
          result = rw (lt→leb_false n (8 * 1024) (omega arith), f) refl;
          left = inr (refl, none_of_length c.sendbuffer (ground arith));
        }
        | inr f ↦ record {
          answer = kept;
          after = c;
          result = rw (lt→leb_false n (8 * 1024) (omega arith), f) refl;
          left = inl (refl, refl, omega arith);
        }
      ]
    ]

-- How `send()` ends: `count` bytes of the send buffer have reached the socket, from its front. With
-- 0 the bytes that are left are kept; with -1 the socket is broken; with -2 nothing is kept.
pub record Flushes (c : Connection) (socket : List ℕ) (o : Option (Answer × Connection) × List ℕ)
    : Type 0 where
  pub answer : Answer
  pub after : Connection
  pub count : ℕ
  pub result : o.0 ≡ some (answer, after)
  pub count_le : count ≤ length (flatten c.sendbuffer)
  pub socket_eq : o.1 ≡ socket ++ take count (flatten c.sendbuffer)
  pub left :
      ((answer ≡ kept)
        × (flatten after.sendbuffer ≡ drop count (flatten c.sendbuffer))
        × (length (flatten after.sendbuffer) < 8 * 1024))
      ⊎ ((answer ≡ by_peer) × (after ≡ c))
      ⊎ ((answer ≡ to_close) × (after.sendbuffer ≡ []))

module _ (writev : List ℕ → List Slice → Written) (iov_count : ℕ) where
  pub nothing_out :
      (c : Connection) (socket : List ℕ)
      → c.sendbuffer ≡ []
      → flush writev iov_count c socket ≡ (some (kept, c), socket)
  unfolding flush
  nothing_out c socket e =
      ap
        (λ x. elim x [
          | [] ↦ (some (kept, c), socket)
          | s ∷ ss ↦ send_out writev iov_count c socket
        ])
        e

module _ (writev : List ℕ → List Slice → Written) (iov_count : ℕ)
    (bounded : (socket : List ℕ) (batch : List Slice) (b : ℕ)
      → writev socket batch ≡ wrote b
      → b ≤ length (flatten batch))
    (valid : (socket : List ℕ) (batch : List Slice)
      → length batch ≤ iov_count
      → length (flatten batch) < 2 ^ 31
      → writev socket batch ≢ invalid)
    (some_room : 1 ≤ iov_count) where
  send_out-Flushes :
      (c : Connection) (socket : List ℕ)
      → no_empty c.sendbuffer ≡ true
      → length (flatten c.sendbuffer) < 2 ^ 31
      → Flushes c socket (send_out writev iov_count c socket)
  unfolding send_out send_slices
  send_out-Flushes c socket e l =
      let ss = c.sendbuffer in
      let o = send_loop writev iov_count (length ss) 0 ss socket in
      let t =
        send_loop-Sends writev iov_count bounded valid some_room (length ss) 0 ss socket
          (omega arith) e l in
      elim t.told [
        | inl f ↦
            let z : 0 + t.count ≡ t.count = omega arith in
            let eq = ap (λ x. after_send c (x, o.1)) (f ∙ ap sent z) in
            let (rest, a, d, p) = adjust_slices_lem ss t.count e in
            let size = ap length d ∙ length-drop t.count (flatten ss) in
            let k = check_sendbuffer_lem (record c { sendbuffer = rest }) p (omega (arith, size)) in
            record {
              answer = k.answer;
              after = k.after;
              count = t.count;
              result =
                  ap (λ p. p.0) eq
                  ∙ ap (λ x. x >>= λ r. check_sendbuffer (record c { sendbuffer = r })) a
                  ∙ k.result;
              count_le = t.count_le;
              socket_eq = ap (λ p. p.1) eq ∙ t.socket_eq;
              left = elim k.left [
                | inl (g, h, i) ↦ inl (g, ap flatten h ∙ d, i)
                | inr h ↦ inr (inr h)
              ];
            }
        | inr f ↦
            let eq = ap (λ x. after_send c (x, o.1)) f in
            record {
              answer = by_peer;
              after = c;
              count = t.count;
              result = ap (λ p. p.0) eq;
              count_le = t.count_le;
              socket_eq = ap (λ p. p.1) eq ∙ t.socket_eq;
              left = inr (inl (refl, refl));
            }
      ]

  something_out :
      (c : Connection) (socket : List ℕ) (s : Slice) (ss : List Slice)
      → c.sendbuffer ≡ s ∷ ss
      → flush writev iov_count c socket ≡ send_out writev iov_count c socket
  unfolding flush
  something_out c socket s ss e =
      ap
        (λ x. elim x [
          | [] ↦ (some (kept, c), socket)
          | s' ∷ ss' ↦ send_out writev iov_count c socket
        ])
        e

  Slices-cases : (ss : List Slice) → (ss ≡ []) ⊎ ((s : Slice) × (ts : List Slice) × (ss ≡ s ∷ ts))
  Slices-cases [] = inl refl
  Slices-cases (s ∷ ts) = inr (s, ts, refl)

  -- `send()` on a send buffer of slices that are not empty, of fewer than 2^31 bytes, with room for
  -- one buffer in the vector of `writev`, which takes at most what it is given, and answers EINVAL
  -- to no vector of fewer than 2^31 bytes within that room: no assertion fails and the loop ends.
  -- The socket has accepted the first bytes of the buffer, without a gap. With 0 the buffer holds
  -- the bytes that follow, fewer than 8 KB; with -1 the connection is unchanged; with -2 nothing is
  -- kept.
  pub flush-Flushes :
      (c : Connection) (socket : List ℕ)
      → no_empty c.sendbuffer ≡ true
      → length (flatten c.sendbuffer) < 2 ^ 31
      → Flushes c socket (flush writev iov_count c socket)
  flush-Flushes c socket e l = elim (Slices-cases c.sendbuffer) [
    | inl f ↦
        let eq = nothing_out writev iov_count c socket f in
        let g : flatten c.sendbuffer ≡ [] = ap flatten f in
        record {
          answer = kept;
          after = c;
          count = 0;
          result = ap (λ p. p.0) eq;
          count_le = omega arith;
          socket_eq = ap (λ p. p.1) eq ∙ sym (append-nil socket);
          left = inl (refl, refl, omega (arith, ap length g));
        }
    | inr (s, ss, f) ↦
        subst (Flushes c socket) (sym (something_out c socket s ss f))
          (send_out-Flushes c socket e l)
  ]
