-- ===== src/Server/Slices.antt =====
-- `Connection::send` over the slices of the send buffer, and `adjustSlices`, which drops what has
-- been sent. A slice is its data, whose length is `dataLen`. The socket is what it has accepted so
-- far; `writev` and `send` of the kernel are parameters, and take the first bytes that they report.
use learn_tars.Base.{
  ℕ, zero, suc, ◌+◌, ◌-◌, ◌%◌, ◌^◌, Bool, true, ◌&&◌, List, [], ◌∷◌, ◌++◌, length, take, drop, ltb,
  leb, ◌==◌, if◌then◌else◌, Option, none, some, ◌>>◌, assert_that,
}

abbrev pub Slice : Type 0
Slice = List ℕ

abbrev pub flatten : List Slice → List ℕ
flatten [] = []
flatten (s ∷ ss) = s ++ flatten ss

-- What a call of the kernel answers: EAGAIN or EINTR of `send` for nothing for now, EINVAL, another
-- error, or a number of bytes.
pub data Written : Type 0 where
  failed : Written
  again : Written
  invalid : Written
  wrote : ℕ → Written

-- How a loop over slices ends: with the number of bytes sent, at an error of the socket, at a failed
-- assertion, or without fuel.
pub data Sent : Type 0 where
  sent : ℕ → Sent
  broken : Sent
  fault : Sent
  stuck : Sent

-- `assert(slices[i].dataLen > 0)` for each.
unfoldable pub no_empty : List Slice → Bool
no_empty [] = true
no_empty (s ∷ ss) = ltb 0 (length s) && no_empty ss

-- `assert (errno != EINVAL)`, and EAGAIN as 0.
abbrev pub checked : Written → Option (Option ℕ)
checked failed = some none
checked again = some (some 0)
checked invalid = none
checked (wrote b) = some (some b)

-- `writev` is given what the socket has accepted and the vector of buffers, of which there are at
-- most `iov_count`.
module _ (writev : List ℕ → List Slice → Written) (iov_count : ℕ) where
  -- `tcpWriteV`: -1 is `some none`, and a failed assertion `none`.
  unfoldable pub tcp_write_v : List ℕ → List Slice → Option (Option ℕ)
  tcp_write_v socket batch = do
    assert_that (leb (length batch) iov_count)
    checked (writev socket batch)

  -- The loop of `send`, with `already` bytes sent and the slices `todo` left.
  unfoldable pub send_loop : ℕ → ℕ → List Slice → List ℕ → Sent × List ℕ
  send_loop zero already [] socket = (sent already, socket)
  send_loop zero already (s ∷ ss) socket = (stuck, socket)
  send_loop (suc n) already [] socket = (sent already, socket)
  send_loop (suc n) already (s ∷ ss) socket =
      let batch = take iov_count (s ∷ ss) in
      let expect = length (flatten batch) in
      if no_empty batch
      then elim (tcp_write_v socket batch) [
        | none ↦ (fault, socket)
        | some none ↦ (broken, socket)
        | some (some b) ↦
            if b == 0
            then (sent already, socket)
            else if b == expect % 2 ^ 32
            then send_loop n (already + b) (drop iov_count (s ∷ ss))
                (socket ++ take b (flatten batch))
            else (sent (already + b), socket ++ take b (flatten batch))
      ]
      else (fault, socket)

  unfoldable pub send_slices : List Slice → List ℕ → Sent × List ℕ
  send_slices slices = send_loop (length slices) 0 slices

-- `adjustSlices`; a failed assertion is `none`.
unfoldable pub adjust_slices : List Slice → ℕ → Option (List Slice)
adjust_slices [] n = some []
adjust_slices (s ∷ ss) n =
    if ltb 0 (length s)
    then if leb (length s) n
      then adjust_slices ss (n - length s)
      else if n == 0
      then some (s ∷ ss)
      else some (drop n s ∷ ss)
    else none

unfoldable pub clear_slices : List Slice → Option (List Slice)
clear_slices ss = adjust_slices ss (2 ^ 64 - 1)
