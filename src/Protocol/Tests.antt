-- ===== src/Protocol/Tests.antt =====
-- Runs of the package parsers, and the theorems about them at concrete inputs.
use learn_tars.Base.{
  ℕ, ◌+◌, ◌<◌, ◌≡◌, refl, true, false, List, [], ◌∷◌, ◌++◌, arith, length, inr, ◌^◌,
}
use mathlib.Core.List.{map}
use learn_tars.Tars.Bytes.{le_bytes, from_le, hton}
use learn_tars.Protocol.{
  malformed, partial, whole, parse_len, parse, parse_stream, net2host, field_at, tars_request,
  Layout, returned, stuck, response_of, stream_response,
}
use learn_tars.Protocol.Length.{parse_len-tars_request, parse_len_prefix, parse_len_sound}
use learn_tars.Protocol.Frames.{
  IsFrame, IsPartial, joined, stream_response-joined, stream_response_stuck,
}

abbrev body : List ℕ
body = 7 ∷ 8 ∷ 9 ∷ []

abbrev more : List ℕ
more = 0 ∷ 0 ∷ []

-- The package of `body`, with the next one begun.
abbrev stream : List ℕ
stream = 0 ∷ 0 ∷ 0 ∷ 7 ∷ 7 ∷ 8 ∷ 9 ∷ 0 ∷ 0 ∷ []

sent : tars_request body ++ more ≡ stream
unfolding tars_request le_bytes hton
sent = refl

parsed :
    (parse stream ≡ whole body more)
    × (parse more ≡ partial)
    × (parse (0 ∷ 0 ∷ 0 ∷ 3 ∷ []) ≡ malformed)
    × (parse_stream 0 4 true stream ≡ whole (0 ∷ 0 ∷ 0 ∷ 7 ∷ 7 ∷ 8 ∷ 9 ∷ []) more)
unfolding parse parse_len parse_stream net2host field_at le_bytes from_le hton
parsed = (refl, refl, refl, refl)

parse_len-tars_request_example : parse_len 100 (tars_request body ++ more) ≡ whole body more
parse_len-tars_request_example =
    parse_len-tars_request 100 body more (omega arith) (omega arith) (omega arith)

cut : tars_request body ≡ (0 ∷ 0 ∷ 0 ∷ 7 ∷ []) ++ body
unfolding tars_request le_bytes hton
cut = refl

parse_len_prefix_example : parse_len 100 (0 ∷ 0 ∷ 0 ∷ 7 ∷ []) ≡ partial
parse_len_prefix_example =
    parse_len_prefix 100 body (0 ∷ 0 ∷ 0 ∷ 7 ∷ []) body (omega arith) (omega arith) cut
      (omega arith)

stream_parsed : parse_len 100 stream ≡ whole body more
unfolding parse_len le_bytes from_le hton
stream_parsed = refl

parse_len_sound_example : stream ≡ tars_request body ++ more
parse_len_sound_example =
    parse_len_sound 100 stream body more (omega arith) (omega arith) (omega arith) stream_parsed

-- One byte of length, and one byte of id behind it.
abbrev bytes : Layout
bytes = record {
  offset = 0;
  size = 1;
  netorder = true;
  id_offset = 1;
  id_size = 1;
  id_netorder = false;
}

abbrev first : List ℕ
first = 3 ∷ 40 ∷ 6 ∷ []

abbrev second : List ℕ
second = 2 ∷ 41 ∷ []

first-IsFrame : IsFrame bytes first
unfolding field_at net2host from_le
first-IsFrame = record {
  header = refl;
  head_in = omega arith;
  id_in = omega arith;
  positive = omega arith;
}

second-IsFrame : IsFrame bytes second
unfolding field_at net2host from_le
second-IsFrame = record {
  header = refl;
  head_in = omega arith;
  id_in = omega arith;
  positive = omega arith;
}

abbrev packages : List (List ℕ)
packages = first ∷ second ∷ []

-- The next package, of which one byte of five has arrived.
abbrev begun : List ℕ
begun = 5 ∷ []

begun-IsPartial : IsPartial bytes begun
unfolding field_at net2host from_le
begun-IsPartial = inr (omega arith)

packages_size : length (joined packages) + length begun < 2 ^ 32
unfolding joined
packages_size = omega arith

stream_response-joined_example :
    stream_response bytes 3 (joined packages ++ begun) 0 []
    ≡ returned (length (joined packages)) (map (response_of bytes) packages)
stream_response-joined_example =
    stream_response-joined bytes packages begun (first-IsFrame, (second-IsFrame, tt))
      begun-IsPartial packages_size

no_length : field_at 1 true 0 more ≡ 0
unfolding field_at net2host from_le
no_length = refl

stream_response_stuck_example : stream_response bytes 1000 more 0 [] ≡ stuck
stream_response_stuck_example =
    stream_response_stuck bytes 1000 0 more [] (omega arith) (omega arith) (omega arith)
      (omega arith) no_length
