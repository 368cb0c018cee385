-- ===== src/Server/Sending.antt =====
-- No byte is lost or repeated when the slices are sent piece by piece.
use learn_tars.Base.{
  ℕ, zero, suc, ◌+◌, ◌%◌, ◌^◌, ◌≡◌, ◌≢◌, leb, le→leb, ◌≤◌, ◌<◌, refl, sym, ap, ◌∙◌, true, false,
  List, [], ◌∷◌, ◌++◌, append_assoc, append-nil, length, length-take, take, drop, ◌==◌,
  if◌then◌else◌, arith, length-append, ℕ_discrete, ne→==_false, length-drop, ◌⊎◌, inl, inr,
  take_append_le, take_all,
}
use learn_tars.Server.Slices.{
  Slice, flatten, Written, failed, again, invalid, wrote, Sent, sent, broken, no_empty, send_loop,
  tcp_write_v,
}
use learn_tars.Server.Adjust.{flatten-take-drop, no_empty-take, no_empty-drop, take_past}

Written-cases : (w : Written) → w ≢ invalid → (w ≡ failed) ⊎ (w ≡ again) ⊎ ((b : ℕ) × (w ≡ wrote b))
Written-cases failed v = inl refl
Written-cases again v = inr (inl refl)
Written-cases invalid v = let no : ⊥ = v refl in elim no [ ]
Written-cases (wrote b) v = inr (inr (b, refl))

-- Some of the first bytes of the slices have reached the socket, in order: as many as the call tells,
-- unless the socket is broken.
pub record Sends (already : ℕ) (todo : List Slice) (socket : List ℕ) (o : Sent × List ℕ)
    : Type 0 where
  pub count : ℕ
  pub count_le : count ≤ length (flatten todo)
  pub socket_eq : o.1 ≡ socket ++ take count (flatten todo)
  pub told : (o.0 ≡ sent (already + count)) ⊎ (o.0 ≡ broken)

module _ (writev : List ℕ → List Slice → Written) (iov_count : ℕ)
    (bounded : (socket : List ℕ) (batch : List Slice) (b : ℕ)
      → writev socket batch ≡ wrote b
      → b ≤ length (flatten batch))
    (valid : (socket : List ℕ) (batch : List Slice)
      → length batch ≤ iov_count
      → length (flatten batch) < 2 ^ 31
      → writev socket batch ≢ invalid)
    (some_room : 1 ≤ iov_count) where
  within : (xs : List Slice) → leb (length (take iov_count xs)) iov_count ≡ true
  within xs =
      le→leb (length (take iov_count xs)) iov_count (omega (arith, length-take iov_count xs))

  nothing :
      (already : ℕ) (todo : List Slice) (socket : List ℕ) (o : Sent × List ℕ)
      → (o ≡ (sent already, socket)) ⊎ (o ≡ (broken, socket))
      → Sends already todo socket o
  nothing already todo socket o (inl e) = record {
    count = 0;
    count_le = omega arith;
    socket_eq = ap (λ p. p.1) e ∙ sym (append-nil socket);
    told = inl (ap (λ p. p.0) e ∙ ap sent (omega arith));
  }
  nothing already todo socket o (inr e) = record {
    count = 0;
    count_le = omega arith;
    socket_eq = ap (λ p. p.1) e ∙ sym (append-nil socket);
    told = inr (ap (λ p. p.0) e);
  }

  module _ (n already : ℕ) (s : Slice) (ss : List Slice) (socket : List ℕ)
      (full : no_empty (take iov_count (s ∷ ss)) ≡ true) where
    loop_failed :
        writev socket (take iov_count (s ∷ ss)) ≡ failed
        → send_loop writev iov_count (suc n) already (s ∷ ss) socket ≡ (broken, socket)
    unfolding send_loop tcp_write_v
    loop_failed e = rw (full, within (s ∷ ss), e) refl

    loop_again :
        writev socket (take iov_count (s ∷ ss)) ≡ again
        → send_loop writev iov_count (suc n) already (s ∷ ss) socket ≡ (sent already, socket)
    unfolding send_loop tcp_write_v
    loop_again e = rw (full, within (s ∷ ss), e) refl

    loop_wrote :
        (b : ℕ)
        → writev socket (take iov_count (s ∷ ss)) ≡ wrote b
        → send_loop writev iov_count (suc n) already (s ∷ ss) socket ≡ (
            let batch = flatten (take iov_count (s ∷ ss)) in
            if b == 0
            then (sent already, socket)
            else if b == length batch % 2 ^ 32
            then send_loop writev iov_count n
                (already + b)
                (drop iov_count (s ∷ ss))
                (socket ++ take b batch)
            else (sent (already + b), socket ++ take b batch))
    unfolding send_loop tcp_write_v
    loop_wrote b e = rw (full, within (s ∷ ss), e) refl

  -- The first bytes of a batch are the first bytes of all.
  of_batch :
      (todo : List Slice) (b : ℕ)
      → b ≤ length (flatten (take iov_count todo))
      → take b (flatten (take iov_count todo)) ≡ take b (flatten todo)
  of_batch todo b l = sym (
      ap (take b) (flatten-take-drop iov_count todo)
      ∙ take_append_le b (flatten (take iov_count todo)) (flatten (drop iov_count todo)) l)

  joined :
      (todo : List Slice) (b k : ℕ)
      → b ≡ length (flatten (take iov_count todo))
      → take b (flatten (take iov_count todo)) ++ take k (flatten (drop iov_count todo))
        ≡ take (b + k) (flatten todo)
  joined todo b k f =
      let x = flatten (take iov_count todo) in
      let y = flatten (drop iov_count todo) in
      ap (λ z. z ++ take k y) (take_all b x (omega arith))
      ∙ sym (take_past x y k)
      ∙ ap (λ i. take (i + k) (x ++ y)) (sym f)
      ∙ ap (take (b + k)) (sym (flatten-take-drop iov_count todo))

  loop_nil :
      (n already : ℕ) (socket : List ℕ)
      → send_loop writev iov_count n already [] socket ≡ (sent already, socket)
  unfolding send_loop
  loop_nil zero already socket = refl
  loop_nil (suc n) already socket = refl

  wrote_case :
      (n already : ℕ) (todo : List Slice) (socket : List ℕ) (b : ℕ) (o : Sent × List ℕ)
      → b ≤ length (flatten (take iov_count todo))
      → length (flatten todo) < 2 ^ 31
      → o ≡ (
          let batch = flatten (take iov_count todo) in
          if b == 0
          then (sent already, socket)
          else if b == length batch % 2 ^ 32
          then send_loop writev iov_count n
              (already + b)
              (drop iov_count todo)
              (socket ++ take b batch)
          else (sent (already + b), socket ++ take b batch))
      → ((socket' : List ℕ)
          → Sends
              (already + b)
              (drop iov_count todo)
              socket'
              (send_loop writev iov_count n (already + b) (drop iov_count todo) socket'))
      → Sends already todo socket o
  wrote_case n already todo socket b o k m step ih =
      let batch = flatten (take iov_count todo) in
      let rest = flatten (drop iov_count todo) in
      let size = ap length (flatten-take-drop iov_count todo) ∙ length-append batch rest in
      elim (ℕ_discrete b 0) [
        | yes z ↦
            let bz : (b == 0) ≡ true = ground arith in
            nothing already todo socket o (inl (step ∙ rw bz refl))
        | no z ↦ elim (ℕ_discrete b (length batch)) [
          | yes f ↦
              let bf : (b == length batch % 2 ^ 32) ≡ true = ground (arith, size) in
              let t = ih (socket ++ take b batch) in
              let e = step ∙ rw (ne→==_false b 0 z, bf) refl in
              record {
                count = b + t.count;
                count_le = omega (arith, size, t.count_le);
                socket_eq =
                    ap (λ p. p.1) e
                    ∙ t.socket_eq
                    ∙ append_assoc socket (take b batch) (take t.count rest)
                    ∙ ap (λ x. socket ++ x) (joined todo b t.count f);
                told = elim t.told [
                  | inl g ↦ inl (ap (λ p. p.0) e ∙ g ∙ ap sent (omega arith))
                  | inr g ↦ inr (ap (λ p. p.0) e ∙ g)
                ];
              }
          | no f ↦
              let bf : (b == length batch % 2 ^ 32) ≡ false = ground (arith, size) in
              let e = step ∙ rw (ne→==_false b 0 z, bf) refl in
              record {
                count = b;
                count_le = omega (arith, size);
                socket_eq = ap (λ p. p.1) e ∙ ap (λ x. socket ++ x) (of_batch todo b k);
                told = inl (ap (λ p. p.0) e);
              }
        ]
      ]

  pub send_loop-Sends :
      (n already : ℕ) (todo : List Slice) (socket : List ℕ)
      → length todo ≤ n
      → no_empty todo ≡ true
      → length (flatten todo) < 2 ^ 31
      → Sends already todo socket (send_loop writev iov_count n already todo socket)
  send_loop-Sends zero already [] socket l e m =
      nothing already [] socket _ (inl (loop_nil zero already socket))
  send_loop-Sends (suc n) already [] socket l e m =
      nothing already [] socket _ (inl (loop_nil (suc n) already socket))
  send_loop-Sends zero already (s ∷ ss) socket l e m = let no : ⊥ = omega arith in elim no [ ]
  send_loop-Sends (suc n) already (s ∷ ss) socket l e m =
      let todo = s ∷ ss in
      let full = no_empty-take iov_count todo e in
      let cut = flatten-take-drop iov_count todo in
      let size : length (flatten todo)
          ≡ length (flatten (take iov_count todo)) + length (flatten (drop iov_count todo)) =
        ap length cut
        ∙ length-append (flatten (take iov_count todo)) (flatten (drop iov_count todo)) in
      let known =
        valid socket (take iov_count todo) (omega (arith, length-take iov_count todo))
          (omega (arith, size, m)) in
      elim (Written-cases (writev socket (take iov_count todo)) known) [
        | inl w ↦ nothing already todo socket _ (inr (loop_failed n already s ss socket full w))
        | inr (inl w) ↦
            nothing already todo socket _ (inl (loop_again n already s ss socket full w))
        | inr (inr (b, w)) ↦
            let k = bounded socket (take iov_count todo) b w in
            let step = loop_wrote n already s ss socket full b w in
            wrote_case n already todo socket b _ k m step (λ socket'.
              send_loop-Sends n (already + b) (drop iov_count todo) socket'
                (let d = length-drop iov_count todo in omega arith) (no_empty-drop iov_count todo e)
                (omega (arith, size, m)))
      ]
