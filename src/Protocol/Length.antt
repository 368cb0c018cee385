-- ===== src/Protocol/Length.antt =====
-- tup/AppProtocal.h: `parseLen` against `tarsRequest`.
use learn_tars.Base.{
  ℕ, ◌+◌, ◌-◌, ◌%◌, ◌^◌, ◌≤◌, ◌<◌, ◌≡◌, refl, sym, ap, ◌∙◌, Bool, true, false, List, [], ◌++◌,
  append-nil, append_assoc, arith, length, length-append, take, drop, take-append, drop-append,
  take-append-drop, All, if◌then◌else◌, dec_lt, lt→ltb, not_lt→ltb, length-take, length-drop,
  drop-drop, All-take, take_append_le,
}
use learn_tars.Tars.Bytes.{
  le_bytes, from_le, hton, length-le_bytes, from_le-le_bytes, le_bytes-from_le, from_le-lt, hton-lt,
  hton-hton, IsByte,
}
use learn_tars.Protocol.{malformed, partial, whole, parse_len, tars_request}

abbrev head4 : List ℕ → List ℕ
head4 body = le_bytes 4 (hton 4 ((4 + length body) % 2 ^ 32))

request_split : (body rest : List ℕ) → tars_request body ++ rest ≡ head4 body ++ (body ++ rest)
unfolding tars_request
request_split body rest = append_assoc (head4 body) body rest

take-head4 : (body rest : List ℕ) → take 4 (tars_request body ++ rest) ≡ head4 body
unfolding tars_request
take-head4 body rest = rw (append_assoc (head4 body) body rest) (
    rw (length-le_bytes 4 (hton 4 ((4 + length body) % 2 ^ 32))) at
      (take-append (head4 body) (body ++ rest)))

drop-head4 : (body rest : List ℕ) → drop 4 (tars_request body ++ rest) ≡ body ++ rest
unfolding tars_request
drop-head4 body rest = rw (append_assoc (head4 body) body rest) (
    rw (length-le_bytes 4 (hton 4 ((4 + length body) % 2 ^ 32))) at
      (drop-append (head4 body) (body ++ rest)))

length-tars_request : (body : List ℕ) → length (tars_request body) ≡ length body + 4
unfolding tars_request
length-tars_request body = omega (
  arith,
  length-append (head4 body) body,
  length-le_bytes 4 (hton 4 ((4 + length body) % 2 ^ 32)),
)

header_lem :
    (body : List ℕ) → length body + 4 < 2 ^ 32 → hton 4 (from_le (head4 body)) ≡ length body + 4
header_lem body h =
    let v = (4 + length body) % 2 ^ 32 in
    rw (from_le-le_bytes 4 (hton 4 v) (hton-lt 4 v), hton-hton 4 v (omega arith)) (omega arith)

-- `parseLen` up to a limit below 2^31 cuts off the package that `tarsRequest` builds from a body,
-- if the package is within the limit, and leaves what follows it, in a buffer shorter than 2^31
-- bytes.
pub parse_len-tars_request :
    (max_length : ℕ) (body rest : List ℕ)
    → max_length < 2 ^ 31
    → length body + 4 ≤ max_length
    → length body + 4 + length rest < 2 ^ 31
    → parse_len max_length (tars_request body ++ rest) ≡ whole body rest
unfolding parse_len
parse_len-tars_request max_length body rest m h t =
    let s = tars_request body ++ rest in
    let n : length s ≡ length body + 4 + length rest =
      omega (arith, length-append (tars_request body) rest, length-tars_request body) in
    let d : drop (length body + 4) s ≡ rest =
      rw (length-tars_request body) at (drop-append (tars_request body) rest) in
    let k : length body + 4 - 4 ≡ length body = omega arith in
    rw (n, take-head4, drop-head4, header_lem body (omega arith), d, k, take-append body rest)
      (ground arith)

-- What `parseLen` finds of a package that is not all there: for a proper prefix of the package that
-- `tarsRequest` builds from a body, within a limit below 2^31, it cuts nothing off and refuses
-- nothing.
pub parse_len_prefix :
    (max_length : ℕ) (body s more : List ℕ)
    → max_length < 2 ^ 31
    → length body + 4 ≤ max_length
    → tars_request body ≡ s ++ more
    → 0 < length more
    → parse_len max_length s ≡ partial
unfolding parse_len
parse_len_prefix max_length body s more m h e p =
    let n : length s + length more ≡ length body + 4 =
      omega (arith, ap length e, length-append s more, length-tars_request body) in
    elim (dec_lt (length s) 4) [
      | yes lt ↦ rw (lt→ltb _ _ lt) refl
      | no ge ↦
          let t : take 4 s ≡ head4 body =
            sym (take_append_le 4 s more (omega arith))
            ∙ ap (take 4) (sym e ∙ sym (append-nil (tars_request body)))
            ∙ take-head4 body [] in
          rw (not_lt→ltb _ _ ge, t, header_lem body (omega arith)) (ground arith)
    ]

-- How a parser comes to cut off a package.
pub whole_lem :
    (short bad missing : Bool) (o r out rest : List ℕ)
    → (if short
        then partial
        else (if bad then malformed else (if missing then partial else whole o r)))
      ≡ whole out rest
    → (short ≡ false) × (bad ≡ false) × (missing ≡ false) × (o ≡ out) × (r ≡ rest)
whole_lem true bad missing o r out rest e = absurd (cc e)
whole_lem false true missing o r out rest e = absurd (cc e)
whole_lem false false true o r out rest e = absurd (cc e)
whole_lem false false false o r out rest e = (refl, refl, refl, cc e, cc e)

-- What `parseLen` cuts off is a package that `tarsRequest` builds: from bytes, shorter than 2^31
-- and under a limit below 2^31, it takes `out` and leaves `rest` only if they are `tars_request out
-- ++ rest`.
pub parse_len_sound :
    (max_length : ℕ) (s out rest : List ℕ)
    → max_length < 2 ^ 31
    → All IsByte s
    → length s < 2 ^ 31
    → parse_len max_length s ≡ whole out rest
    → s ≡ tars_request out ++ rest
unfolding parse_len
parse_len_sound max_length s out rest m b n e =
    let (c1, c2, c3, o, r) = whole_lem _ _ _ _ _ out rest e in
    let header_len = hton 4 (from_le (take 4 s)) in
    let w : header_len < 2 ^ 32 = omega (arith, hton-lt 4 (from_le (take 4 s))) in
    let bound : header_len < 2 ^ 31 = ground arith in
    let least : 4 ≤ header_len = ground arith in
    let fits : header_len ≤ length s = ground arith in
    let long : length (take 4 s) ≡ 4 = omega (arith, length-take 4 s) in
    let t : All IsByte (take 4 s) = All-take IsByte 4 s b in
    let l : length out ≡ header_len - 4 =
      ap length (sym o) ∙ omega (arith, length-take (header_len - 4) (drop 4 s), length-drop 4 s) in
    let v : (4 + length out) % 2 ^ 32 ≡ header_len = omega arith in
    let head : head4 out ≡ take 4 s =
      rw (v, hton-hton 4 (from_le (take 4 s)) (rw long at (from_le-lt (take 4 s) t)))
        (rw long at (le_bytes-from_le (take 4 s) t)) in
    let back : drop (header_len - 4) (drop 4 s) ≡ rest =
      drop-drop 4 (header_len - 4) s ∙ ap (λ k. drop k s) (omega arith) ∙ r in
    sym (
      request_split out rest
      ∙ ap (λ bs. bs ++ (out ++ rest)) head
      ∙ ap (λ bs. take 4 s ++ (bs ++ rest)) (sym o)
      ∙ ap (λ bs. take 4 s ++ (take (header_len - 4) (drop 4 s) ++ bs)) (sym back)
      ∙ ap (λ bs. take 4 s ++ bs) (take-append-drop (header_len - 4) (drop 4 s))
      ∙ take-append-drop 4 s)
