-- ===== src/Mux.antt =====
-- internal/mux/mux.go: the frames that the agent hop and the remote hop exchange.
pub mod Codec
pub mod Wire
pub mod Write
mod Examples
use execenv.Base.{
  ℕ, zero, suc, ◌+◌, ◌-◌, ◌*◌, ◌/◌, ◌%◌, ◌^◌, Bool, true, false, not, ◌||◌, ◌&&◌, List, [], ◌∷◌,
  ◌++◌, Bytes, codes, length, take, drop, ltb, ◌==◌, nat_eq, if◌then◌else◌, valid_string,
}
use execenv.Errors.{
  Error, sentinel, other, eof, Result, ok, err, fail, invalid, too_large, ◌>>=◌, ◌>>◌,
}

abbrev pub max_frame_bytes : ℕ
max_frame_bytes = 75497472

abbrev pub max_pty_bytes : ℕ
max_pty_bytes = 65536

abbrev pub fixed_frame_bytes : ℕ
fixed_frame_bytes = 35

abbrev pub kind_request : ℕ
kind_request = 1

abbrev pub kind_response : ℕ
kind_response = 2

abbrev pub kind_pty : ℕ
kind_pty = 3

abbrev pub kind_watch : ℕ
kind_watch = 4

-- kind is a `uint8`; deadline is the `int64` by its two's complement bits, as it is sent.
pub record Frame : Type 0 where
  pub seq : ℕ
  pub kind : ℕ
  pub method : Bytes
  pub grant : Bytes
  pub stream : ℕ
  pub status : Bytes
  pub extra : Bytes
  pub deadline : ℕ

-- binary.BigEndian.PutUint16, PutUint32 and PutUint64: `width` bytes
unfoldable pub put_be : ℕ → ℕ → Bytes
put_be zero x = []
put_be (suc width) x = put_be width (x / 256) ++ (x % 256) ∷ []

unfoldable pub be_from : ℕ → Bytes → ℕ
be_from acc [] = acc
be_from acc (b ∷ rest) = be_from (acc * 256 + b) rest

-- binary.BigEndian.Uint16, Uint32 and Uint64
abbrev pub be : Bytes → ℕ
be p = be_from 0 p

-- p[lo:hi]
abbrev pub slice : ℕ → ℕ → Bytes → Bytes
slice lo hi p = take (hi - lo) (drop lo p)

-- The first 35 bytes.
unfoldable pub fixed_part : Frame → Bytes
unfolding put_be
fixed_part f =
    put_be 8 f.seq
    ++ (put_be 1 f.kind
        ++ (put_be 8 f.stream
            ++ (put_be 8 f.deadline
                ++ (put_be 2 (length f.method % 2 ^ 16)
                    ++ (put_be 2 (length f.grant % 2 ^ 16)
                        ++ (put_be 2 (length f.status % 2 ^ 16)
                            ++ put_be 4 (length f.extra % 2 ^ 32)))))))

-- mux.encodeFrame
unfoldable pub encode_frame : Frame → Result Bytes
encode_frame f =
    if ltb max_frame_bytes
      (fixed_frame_bytes + length f.method + length f.grant + length f.status + length f.extra)
    then fail too_large
    else ok (fixed_part f ++ (f.method ++ (f.grant ++ (f.status ++ f.extra))))

unfoldable pub decode_rest : Bytes → ℕ → ℕ → ℕ → ℕ → Result Frame
decode_rest payload method_len grant_len status_len extra_len =
    if ltb (max_frame_bytes - fixed_frame_bytes) extra_len
    then fail too_large
    else if not
        (fixed_frame_bytes + method_len + grant_len + status_len + extra_len == length payload)
    then fail invalid
    else ok (record {
      seq = be (slice 0 8 payload);
      kind = be (slice 8 9 payload);
      stream = be (slice 9 17 payload);
      deadline = be (slice 17 25 payload);
      method = slice 35 (35 + method_len) payload;
      grant = slice (35 + method_len) (35 + method_len + grant_len) payload;
      status =
          slice (35 + method_len + grant_len) (35 + method_len + grant_len + status_len) payload;
      extra = drop (35 + method_len + grant_len + status_len) payload;
    })

-- mux.decodeFrame
unfoldable pub decode_frame : Bytes → Result Frame
decode_frame payload =
    if ltb (length payload) fixed_frame_bytes
    then fail invalid
    else decode_rest payload (be (slice 25 27 payload)) (be (slice 27 29 payload))
        (be (slice 29 31 payload)) (be (slice 31 35 payload))

-- mux.validateFrame
unfoldable pub validate_frame : Frame → Result (Unit {0})
validate_frame f =
    if ltb f.kind kind_request
      || ltb kind_watch f.kind
      || ltb 64 (length f.method)
      || ltb 64 (length f.grant)
      || ltb 64 (length f.status)
    then fail invalid
    else if not (valid_string f.method) || not (valid_string f.grant) || not (valid_string f.status)
    then fail invalid
    else if ltb max_frame_bytes (length f.extra)
    then fail too_large
    else if f.kind == kind_pty && ltb max_pty_bytes (length f.extra)
    then fail too_large
    else ok tt

-- Session.Send, up to the writes: the bytes it puts on the connection
unfoldable pub send_bytes : Frame → Result Bytes
send_bytes f = do
  validate_frame f
  payload ← encode_frame f
  if ltb max_frame_bytes (length payload)
      then fail too_large
      else ok (put_be 4 (length payload % 2 ^ 32) ++ payload)

-- io.ReadFull of `n` bytes from what the peer sent before it closed
abbrev pub unexpected_eof : Error
unexpected_eof = other (codes "unexpected EOF")

unfoldable pub read_full : ℕ → Bytes → Result (Bytes × Bytes)
read_full n input =
    if ltb (length input) n
    then err (if length input == 0 then sentinel eof else unexpected_eof)
    else ok (take n input, drop n input)

abbrev pub recv_payload : Bytes → Result Frame
recv_payload payload = do f ← decode_frame payload; validate_frame f; ok f

-- Session.Recv: the frame, and what it leaves on the connection
unfoldable pub recv : Bytes → Result (Frame × Bytes)
recv input = do
  (header, body) ← read_full 4 input
  if be header == 0
      then fail invalid
      else if ltb max_frame_bytes (be header)
      then fail too_large
      else do (payload, rest) ← read_full (be header) body; f ← recv_payload payload; ok (f, rest)
