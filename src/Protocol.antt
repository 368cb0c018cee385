-- ===== src/Protocol.antt =====
-- tup/AppProtocal.h and tup/AppProtocal.cpp: how packages are cut out of a stream of bytes.
pub mod Length
pub mod Frames
mod Tests
use learn_tars.Base.{
  ℕ, zero, suc, ◌+◌, ◌-◌, ◌*◌, ◌%◌, ◌^◌, Bool, true, false, List, [], ◌∷◌, ◌++◌, ltb, leb, ◌==◌,
  ◌||◌, if◌then◌else◌, length, take, drop,
}
use learn_tars.Base.Words.{add64}
use learn_tars.Tars.Bytes.{le_bytes, from_le, hton}

-- The three results of the server's parsers: -1, 0, and 1 with `out` and what is left in `in`.
pub data Parsed : Type 0 where
  malformed : Parsed
  partial : Parsed
  whole : List ℕ → List ℕ → Parsed

-- The comparison of two signed numbers of 32 bits.
abbrev pub less32 : ℕ → ℕ → Bool
less32 a b = ltb ((a + 2 ^ 31) % 2 ^ 32) ((b + 2 ^ 31) % 2 ^ 32)

-- `parseLen<iMaxLength>(in, out)`
unfoldable pub parse_len : ℕ → List ℕ → Parsed
parse_len max_length s =
    if ltb (length s) 4
    then partial
    else let header_len = hton 4 (from_le (take 4 s)) in
      if less32 header_len 4 || less32 max_length header_len
      then malformed
      else if less32 (length s % 2 ^ 32) header_len
      then partial
      else whole (take (header_len - 4) (drop 4 s)) (drop header_len s)

-- `parse(in, out)`, which `parseAdmin` calls.
unfoldable pub parse : List ℕ → Parsed
parse s = parse_len 10000000 s

-- `net2host<T>` for a type of `size` bytes.
unfoldable pub net2host : ℕ → ℕ → ℕ
net2host size n =
    if size == 1 then n else if size == 2 then hton 2 n else if size == 4 then hton 4 n else 0

-- `memcpy` of an unsigned number of `size` bytes at `offset`, and its change of byte order.
unfoldable pub field_at : ℕ → Bool → ℕ → List ℕ → ℕ
field_at size netorder offset s =
    let n = from_le (take size (drop offset s)) in if netorder then net2host size n else n

-- `parseStream<offset, T, netorder>(in, out)` for an unsigned `T` of `size` bytes, at most 4.
unfoldable pub parse_stream : ℕ → ℕ → Bool → List ℕ → Parsed
parse_stream offset size netorder s =
    if ltb (length s) (offset + size)
    then partial
    else let header_len = field_at size netorder offset s in
      if ltb header_len ((offset + size) % 256 ^ size) || ltb 100000000 header_len
      then malformed
      else if ltb (length s) header_len
      then partial
      else whole (take header_len s) (drop header_len s)

-- `tarsRequest`, given the bytes that `request.writeTo` wrote.
unfoldable pub tars_request : List ℕ → List ℕ
tars_request body = le_bytes 4 (hton 4 ((4 + length body) % 2 ^ 32)) ++ body

-- The template arguments of `streamResponse`, for unsigned `T` and `K` of so many bytes. The last
-- of them, `packetMaxSize`, has no effect: the statement that it guards is commented out.
pub record Layout : Type 0 where
  pub offset : ℕ
  pub size : ℕ
  pub netorder : Bool
  pub id_offset : ℕ
  pub id_size : ℕ
  pub id_netorder : Bool

-- The fields of `ResponsePacket` that `streamResponse` sets: `sBuffer` and `iRequestId`.
pub record Response : Type 0 where
  pub buffer : List ℕ
  pub request_id : ℕ

-- The position returned and the list `done`; a read past the end of the buffer; and the fuel ran
-- out.
pub data Streamed : Type 0 where
  returned : ℕ → List Response → Streamed
  out_of_bounds : Streamed
  stuck : Streamed

unfoldable pub response_of : Layout → List ℕ → Response
response_of l s = record {
  buffer = s;
  request_id = field_at l.id_size l.id_netorder l.id_offset s % 2 ^ 32;
}

-- The loop of `streamResponse`: the buffer, `pos` and `done`.
unfoldable pub stream_response : Layout → ℕ → List ℕ → ℕ → List Response → Streamed
stream_response l zero s pos acc = stuck
stream_response l (suc f) s pos acc =
    let len = (length s - pos) % 2 ^ 32 in
    let header_len = field_at l.size l.netorder (pos + l.offset) s in
    let id = field_at l.id_size l.id_netorder (pos + l.id_offset) s in
    let rsp : Response = record {
      buffer = take header_len (drop pos s);
      request_id = id % 2 ^ 32;
    } in
    let rest = stream_response l f s (add64 pos header_len) (acc ++ rsp ∷ []) in
    if leb (length s) pos || ltb len (l.offset + l.size) || ltb len header_len
    then returned pos acc
    else if ltb (length s) (pos + l.id_offset + l.id_size)
    then out_of_bounds
    else rest
