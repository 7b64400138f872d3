-- ===== src/Mux/Wire.antt =====
-- What Send puts on a connection, Recv takes off it.
use execenv.Base.{
  ℕ, suc, zero, ◌+◌, ◌-◌, ◌%◌, ◌^◌, ◌≤◌, ◌≡◌, refl, ◌∙◌, ap, List, [], ◌∷◌, ◌++◌, append_assoc,
  Bytes, length, length-append, drop-length_append, nat_eq, arith, inl, inr, All,
}
use execenv.Errors.{Result, ok, Result-cases, ◌>>=◌}
use execenv.Mux.{
  Frame, put_be, be, fixed_part, encode_frame, validate_frame, send_bytes, read_full, recv_payload,
  recv, max_frame_bytes, fixed_frame_bytes,
}
use execenv.Mux.Codec.{
  IsFrame, whole, decode_frame-whole, be-put_be, length-put_be, u32-Fits, length-whole,
  take-length_append,
}

-- What Send has checked of a frame whose bytes it has put on the connection.
record Sent (f : Frame) (wire : Bytes) : Type 0 where
  valid : validate_frame f ≡ ok tt
  small :
      length f.method + length f.grant + length f.status + length f.extra
      ≤ max_frame_bytes - fixed_frame_bytes
  put :
      wire
      ≡ put_be 4
          (length (fixed_part f ++ (f.method ++ (f.grant ++ (f.status ++ f.extra)))) % 2 ^ 32)
        ++ (fixed_part f ++ (f.method ++ (f.grant ++ (f.status ++ f.extra))))

send_bytes-Sent : (f : Frame) (wire : Bytes) → send_bytes f ≡ ok wire → Sent f wire
unfolding send_bytes encode_frame
send_bytes-Sent f wire h = elim (Result-cases (validate_frame f)) [
  | inr (x, e) ↦ absurd (ground (arith, h, e))
  | inl (u, e) ↦ ground (arith, h, e)
]

validate_frame-small :
    (f : Frame)
    → validate_frame f ≡ ok tt
    → (length f.method ≤ 64) × (length f.grant ≤ 64) × (length f.status ≤ 64)
unfolding validate_frame
validate_frame-small f h = ground (arith, h)

read_full-append : (n : ℕ) (xs ys : Bytes) → length xs ≡ n → read_full n (xs ++ ys) ≡ ok (xs, ys)
unfolding read_full
read_full-append n xs ys e =
    rw (← e, take-length_append xs ys, drop-length_append xs ys, length-append xs ys) (ground arith)

module _ (f : Frame) (i : IsFrame f) (rest : Bytes) (valid : validate_frame f ≡ ok tt)
    (small : length f.method + length f.grant + length f.status + length f.extra
      ≤ max_frame_bytes - fixed_frame_bytes) where
  abbrev header : Bytes
  header = put_be 4 (length (whole f small i) % 2 ^ 32)

  be-header : be header ≡ length (whole f small i)
  be-header =
      be-put_be 4 (length (whole f small i) % 2 ^ 32) (u32-Fits _ (omega arith))
      ∙ omega (arith, length-whole f small i, small)

  decoded : recv_payload (whole f small i) ≡ ok f
  decoded =
      let (m, g, s) = validate_frame-small f valid in
      rw (
        decode_frame-whole f small i (omega (arith, m)) (omega (arith, g)) (omega (arith, s)),
        valid,
      )

  recv-whole : recv (header ++ (whole f small i ++ rest)) ≡ ok (f, rest)
  unfolding recv
  recv-whole =
      rw (read_full-append 4 header (whole f small i ++ rest) (length-put_be 4 _), be-header)
        (rw (read_full-append _ (whole f small i) rest refl, decoded)
          (ground (arith, length-whole f small i, small)))

-- A frame that Send accepts reaches the peer: Recv takes exactly its bytes off the connection, and
-- returns the frame with every field as it was sent. (The fixed fields are within their Go types.)
pub recv-send_bytes :
    (f : Frame) (wire rest : Bytes)
    → IsFrame f
    → send_bytes f ≡ ok wire
    → recv (wire ++ rest) ≡ ok (f, rest)
unfolding whole
recv-send_bytes f wire rest i h =
    let sent = send_bytes-Sent f wire h in
    ap (λ w. recv (w ++ rest)) sent.put
    ∙ ap recv (append_assoc (put_be 4 _) (whole f sent.small i) rest)
    ∙ recv-whole f i rest sent.valid sent.small

-- The bytes of frames sent one after another.
unfoldable pub send_all : List Frame → Result Bytes
send_all [] = ok []
send_all (f ∷ fs) = do wire ← send_bytes f; more ← send_all fs; ok (wire ++ more)

-- `n` calls of Recv.
unfoldable pub recv_all : ℕ → Bytes → Result (List Frame × Bytes)
recv_all zero input = ok ([], input)
recv_all (suc n) input = do (f, more) ← recv input; (fs, rest) ← recv_all n more; ok (f ∷ fs, rest)

-- Frames that a session sends one after another are received one after another: as many, in the
-- same order, each as it was sent, and what follows them on the connection is left.
pub recv_all-send_all :
    (fs : List Frame) (wire rest : Bytes)
    → All IsFrame fs
    → send_all fs ≡ ok wire
    → recv_all (length fs) (wire ++ rest) ≡ ok (fs, rest)
unfolding send_all recv_all
recv_all-send_all [] wire rest i h =
    let nothing : [] ≡ wire = ground (arith, h) in rw (← nothing) refl
recv_all-send_all (f ∷ fs) wire rest i h = elim (Result-cases (send_bytes f)) [
  | inr (x, e) ↦ absurd (ground (arith, h, e))
  | inl (first, e) ↦ elim (Result-cases (send_all fs)) [
    | inr (x, e') ↦ absurd (ground (arith, h, e, e'))
    | inl (more, e') ↦
        let joined : first ++ more ≡ wire = ground (arith, h, e, e') in
        rw (
          ← joined,
          append_assoc first more rest,
          recv-send_bytes f first (more ++ rest) i.0 e,
          recv_all-send_all fs more rest i.1 e',
        )
  ]
]
