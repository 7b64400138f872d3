-- ===== src/Mux/Examples.antt =====
-- The theorems on frames at a request and a terminal's output.
use execenv.Base.{
  some, ◌≤◌, ◌≡◌, refl, ◌++◌, List, [], ◌∷◌, Bytes, codes, arith, valid_string, length,
}
use execenv.Errors.{Result, ok, sentinel, closed}
use execenv.Mux.{
  Frame, send_bytes, validate_frame, encode_frame, fixed_part, put_be, kind_request, kind_pty,
}
use execenv.Mux.Codec.{IsFrame}
use execenv.Mux.Write.{Written, wrote, broke, write_all, write_all-Prefix}
use execenv.Mux.Wire.{send_all, recv_all, recv_all-send_all}

abbrev ensure_request : Frame
ensure_request = record {
  seq = 300;
  kind = kind_request;
  method = codes "ensure";
  grant = codes "env-1";
  stream = 0;
  status = [];
  extra = codes "{}";
  deadline = 18446744073709551615;
}

abbrev output : Frame
output = record {
  seq = 0;
  kind = kind_pty;
  method = [];
  grant = codes "env-1";
  stream = 7;
  status = [];
  extra = codes "ls";
  deadline = 0;
}

ensure_request-IsFrame : IsFrame ensure_request
ensure_request-IsFrame = record {
  seq = omega arith;
  kind = omega arith;
  stream = omega arith;
  deadline = omega arith;
}

output-IsFrame : IsFrame output
output-IsFrame = record {
  seq = omega arith;
  kind = omega arith;
  stream = omega arith;
  deadline = omega arith;
}

abbrev request_wire : Bytes
request_wire =
    0
    ∷ 0
    ∷ 0
    ∷ 48
    ∷ 0
    ∷ 0
    ∷ 0
    ∷ 0
    ∷ 0
    ∷ 0
    ∷ 1
    ∷ 44
    ∷ 1
    ∷ 0
    ∷ 0
    ∷ 0
    ∷ 0
    ∷ 0
    ∷ 0
    ∷ 0
    ∷ 0
    ∷ 255
    ∷ 255
    ∷ 255
    ∷ 255
    ∷ 255
    ∷ 255
    ∷ 255
    ∷ 255
    ∷ 0
    ∷ 6
    ∷ 0
    ∷ 5
    ∷ 0
    ∷ 0
    ∷ 0
    ∷ 0
    ∷ 0
    ∷ 2
    ∷ codes "ensureenv-1{}"

request_sent : send_bytes ensure_request ≡ ok request_wire
unfolding send_bytes validate_frame encode_frame fixed_part put_be valid_string
request_sent = refl

abbrev output_wire : Bytes
output_wire =
    0
    ∷ 0
    ∷ 0
    ∷ 42
    ∷ 0
    ∷ 0
    ∷ 0
    ∷ 0
    ∷ 0
    ∷ 0
    ∷ 0
    ∷ 0
    ∷ 3
    ∷ 0
    ∷ 0
    ∷ 0
    ∷ 0
    ∷ 0
    ∷ 0
    ∷ 0
    ∷ 7
    ∷ 0
    ∷ 0
    ∷ 0
    ∷ 0
    ∷ 0
    ∷ 0
    ∷ 0
    ∷ 0
    ∷ 0
    ∷ 0
    ∷ 0
    ∷ 5
    ∷ 0
    ∷ 0
    ∷ 0
    ∷ 0
    ∷ 0
    ∷ 2
    ∷ codes "env-1ls"

both_sent : send_all (ensure_request ∷ output ∷ []) ≡ ok (request_wire ++ output_wire)
unfolding send_all send_bytes validate_frame encode_frame fixed_part put_be valid_string
both_sent = refl

recv_all-send_all_example :
    recv_all 2 ((request_wire ++ output_wire) ++ (1 ∷ []))
    ≡ ok (ensure_request ∷ output ∷ [], 1 ∷ [])
recv_all-send_all_example =
    recv_all-send_all (ensure_request ∷ output ∷ []) (request_wire ++ output_wire) (1 ∷ [])
      (ensure_request-IsFrame, (output-IsFrame, tt)) both_sent

abbrev three_writes : List Written
three_writes = wrote 3 ∷ wrote 1 ∷ broke 1 (sentinel closed) ∷ wrote 9 ∷ wrote 9 ∷ wrote 9 ∷ []

write_all-Prefix_example :
    let (result, written) = write_all three_writes (codes "abcdef") in
    ((left : Bytes) × (written ++ left ≡ codes "abcdef"))
    × (result ≡ some (ok tt) → written ≡ codes "abcdef")
    × (length (codes "abcdef") ≤ length three_writes → (r : Result (Unit {0})) × (result ≡ some r))
write_all-Prefix_example = write_all-Prefix three_writes (codes "abcdef")
