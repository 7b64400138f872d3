-- ===== src/Mux/Codec.antt =====
-- Frames survive the wire: encodeFrame and decodeFrame, Send and Recv.
use execenv.Base.{
  ℕ, zero, suc, ◌+◌, ◌-◌, ◌*◌, ◌/◌, ◌%◌, ◌^◌, ◌≤◌, ◌<◌, ◌≡◌, refl, sym, ◌∙◌, ap, [], ◌∷◌, ◌++◌,
  Bytes, length, length-append, take, drop, drop-length_append, drop-drop, nat_eq, arith,
}
use execenv.Errors.{ok}
use execenv.Mux.{
  Frame, put_be, be_from, be, slice, fixed_part, decode_rest, decode_frame, max_frame_bytes,
  fixed_frame_bytes,
}

be_from-append : (acc : ℕ) (xs ys : Bytes) → be_from acc (xs ++ ys) ≡ be_from (be_from acc xs) ys
unfolding be_from
be_from-append acc [] ys = refl
be_from-append acc (x ∷ xs) ys = be_from-append (acc * 256 + x) xs ys

-- `width` bytes are enough for x.
abbrev pub Fits : ℕ → ℕ → Type 0
Fits zero x = x ≡ 0
Fits (suc width) x = Fits width (x / 256)

pub be-put_be : (width x : ℕ) → Fits width x → be (put_be width x) ≡ x
unfolding put_be be_from
be-put_be zero x h = sym h
be-put_be (suc width) x h =
    be_from-append 0 (put_be width (x / 256)) ((x % 256) ∷ [])
    ∙ omega (arith, be-put_be width (x / 256) h)

pub length-put_be : (width x : ℕ) → length (put_be width x) ≡ width
unfolding put_be
length-put_be zero x = refl
length-put_be (suc width) x =
    length-append (put_be width (x / 256)) ((x % 256) ∷ [])
    ∙ omega (arith, length-put_be width (x / 256))

-- A frame whose fixed fields are within their Go types.
pub record IsFrame (f : Frame) : Type 0 where
  pub seq : f.seq < 2 ^ 64
  pub kind : f.kind < 2 ^ 8
  pub stream : f.stream < 2 ^ 64
  pub deadline : f.deadline < 2 ^ 64

u64-Fits : (x : ℕ) → x < 2 ^ 64 → Fits 8 x
u64-Fits x h = omega arith

u8-Fits : (x : ℕ) → x < 2 ^ 8 → Fits 1 x
u8-Fits x h = omega arith

pub u32-Fits : (x : ℕ) → x < 2 ^ 32 → Fits 4 x
u32-Fits x h = omega arith

u16-Fits : (x : ℕ) → x < 2 ^ 16 → Fits 2 x
u16-Fits x h = omega arith

module _ (f : Frame) (body : Bytes) where
  payload : Bytes
  payload = fixed_part f ++ body

  slice-seq : slice 0 8 payload ≡ put_be 8 f.seq
  unfolding payload fixed_part put_be
  slice-seq = refl

  slice-kind : slice 8 9 payload ≡ put_be 1 f.kind
  unfolding payload fixed_part put_be
  slice-kind = refl

  slice-stream : slice 9 17 payload ≡ put_be 8 f.stream
  unfolding payload fixed_part put_be
  slice-stream = refl

  slice-deadline : slice 17 25 payload ≡ put_be 8 f.deadline
  unfolding payload fixed_part put_be
  slice-deadline = refl

  slice-method_len : slice 25 27 payload ≡ put_be 2 (length f.method % 2 ^ 16)
  unfolding payload fixed_part put_be
  slice-method_len = refl

  slice-grant_len : slice 27 29 payload ≡ put_be 2 (length f.grant % 2 ^ 16)
  unfolding payload fixed_part put_be
  slice-grant_len = refl

  slice-status_len : slice 29 31 payload ≡ put_be 2 (length f.status % 2 ^ 16)
  unfolding payload fixed_part put_be
  slice-status_len = refl

  slice-extra_len : slice 31 35 payload ≡ put_be 4 (length f.extra % 2 ^ 32)
  unfolding payload fixed_part put_be
  slice-extra_len = refl

  length-fixed_part : length (fixed_part f) ≡ 35
  unfolding fixed_part put_be
  length-fixed_part = refl

  length-payload : length payload ≡ 35 + length body
  unfolding payload
  length-payload = length-append (fixed_part f) body ∙ omega (arith, length-fixed_part)

  drop-fixed_part : drop 35 payload ≡ body
  unfolding payload fixed_part put_be
  drop-fixed_part = refl

  drop-payload : (k n : ℕ) → k ≡ 35 + n → drop k payload ≡ drop n body
  drop-payload k n e =
      ap (λ m. drop m payload) e ∙ sym (drop-drop n 35 payload) ∙ ap (drop n) drop-fixed_part

-- The parts of the body, cut where their lengths say.
module _ (method grant status extra : Bytes) where
  body : Bytes
  body = method ++ (grant ++ (status ++ extra))

  drop-method : drop (length method) body ≡ grant ++ (status ++ extra)
  unfolding body
  drop-method = drop-length_append method _

  drop-grant : drop (length method + length grant) body ≡ status ++ extra
  drop-grant =
      sym (drop-drop (length grant) (length method) body)
      ∙ ap (drop (length grant)) drop-method
      ∙ drop-length_append grant (status ++ extra)

  drop-status : drop (length method + length grant + length status) body ≡ extra
  drop-status =
      sym (drop-drop (length status) (length method + length grant) body)
      ∙ ap (drop (length status)) drop-grant
      ∙ drop-length_append status extra

  length-body : length body ≡ length method + length grant + length status + length extra
  unfolding body
  length-body = omega (
    arith,
    length-append method (grant ++ (status ++ extra)),
    length-append grant (status ++ extra),
    length-append status extra,
  )

pub take-length_append : (xs ys : Bytes) → take (length xs) (xs ++ ys) ≡ xs
take-length_append [] ys = refl
take-length_append (x ∷ xs) ys = ap (λ t. x ∷ t) (take-length_append xs ys)

slice-at : (lo : ℕ) (p xs ys : Bytes) → drop lo p ≡ xs ++ ys → slice lo (lo + length xs) p ≡ xs
slice-at lo p xs ys e =
    ap (λ n. take n (drop lo p)) cancelled ∙ ap (take (length xs)) e ∙ take-length_append xs ys
  where
    cancelled : lo + length xs - lo ≡ length xs
    cancelled = omega arith

module _ (f : Frame)
    (small : length f.method + length f.grant + length f.status + length f.extra
      ≤ max_frame_bytes - fixed_frame_bytes)
    (i : IsFrame f) where
  abbrev rest : Bytes
  rest = f.method ++ (f.grant ++ (f.status ++ f.extra))

  unfoldable pub whole : Bytes
  whole = fixed_part f ++ rest

  drop-method_at : drop 35 whole ≡ f.method ++ (f.grant ++ (f.status ++ f.extra))
  unfolding whole payload
  drop-method_at = drop-fixed_part f rest

  drop-grant_at : drop (35 + length f.method) whole ≡ f.grant ++ (f.status ++ f.extra)
  unfolding whole payload body
  drop-grant_at =
      drop-payload f rest _ (length f.method) refl ∙ drop-method f.method f.grant f.status f.extra

  drop-status_at : drop (35 + length f.method + length f.grant) whole ≡ f.status ++ f.extra
  unfolding whole payload body
  drop-status_at =
      drop-payload f rest _ (length f.method + length f.grant) (omega arith)
      ∙ drop-grant f.method f.grant f.status f.extra

  drop-extra_at : drop (35 + length f.method + length f.grant + length f.status) whole ≡ f.extra
  unfolding whole payload body
  drop-extra_at =
      drop-payload f rest _ (length f.method + length f.grant + length f.status) (omega arith)
      ∙ drop-status f.method f.grant f.status f.extra

  pub length-whole :
      length whole ≡ 35 + length f.method + length f.grant + length f.status + length f.extra
  unfolding whole payload body
  length-whole =
      length-payload f rest ∙ omega (arith, length-body f.method f.grant f.status f.extra)

  be-seq : be (slice 0 8 whole) ≡ f.seq
  unfolding whole payload
  be-seq = ap be (slice-seq f rest) ∙ be-put_be 8 f.seq (u64-Fits f.seq i.seq)

  be-kind : be (slice 8 9 whole) ≡ f.kind
  unfolding whole payload
  be-kind = ap be (slice-kind f rest) ∙ be-put_be 1 f.kind (u8-Fits f.kind i.kind)

  be-stream : be (slice 9 17 whole) ≡ f.stream
  unfolding whole payload
  be-stream = ap be (slice-stream f rest) ∙ be-put_be 8 f.stream (u64-Fits f.stream i.stream)

  be-deadline : be (slice 17 25 whole) ≡ f.deadline
  unfolding whole payload
  be-deadline =
      ap be (slice-deadline f rest) ∙ be-put_be 8 f.deadline (u64-Fits f.deadline i.deadline)

  decode_rest-whole :
      decode_rest whole (length f.method) (length f.grant) (length f.status) (length f.extra) ≡ ok f
  unfolding decode_rest
  decode_rest-whole =
      rw
        (
          slice-at 35 whole f.method _ drop-method_at,
          slice-at _ whole f.grant _ drop-grant_at,
          slice-at _ whole f.status _ drop-status_at,
          drop-extra_at,
        )
        (rw (be-seq, be-kind, be-stream, be-deadline, length-whole) (ground (arith, small)))

  -- The lengths that the frame's header carries.
  be-method_len : length f.method < 2 ^ 16 → be (slice 25 27 whole) ≡ length f.method
  unfolding whole payload
  be-method_len h =
      ap be (slice-method_len f rest)
      ∙ be-put_be 2 (length f.method % 2 ^ 16) (u16-Fits _ (omega arith))
      ∙ omega (arith, h)

  be-grant_len : length f.grant < 2 ^ 16 → be (slice 27 29 whole) ≡ length f.grant
  unfolding whole payload
  be-grant_len h =
      ap be (slice-grant_len f rest)
      ∙ be-put_be 2 (length f.grant % 2 ^ 16) (u16-Fits _ (omega arith))
      ∙ omega (arith, h)

  be-status_len : length f.status < 2 ^ 16 → be (slice 29 31 whole) ≡ length f.status
  unfolding whole payload
  be-status_len h =
      ap be (slice-status_len f rest)
      ∙ be-put_be 2 (length f.status % 2 ^ 16) (u16-Fits _ (omega arith))
      ∙ omega (arith, h)

  be-extra_len : be (slice 31 35 whole) ≡ length f.extra
  unfolding whole payload
  be-extra_len =
      ap be (slice-extra_len f rest)
      ∙ be-put_be 4 (length f.extra % 2 ^ 32) (u32-Fits _ (omega arith))
      ∙ omega (arith, small)

  pub decode_frame-whole :
      length f.method < 2 ^ 16
      → length f.grant < 2 ^ 16
      → length f.status < 2 ^ 16
      → decode_frame whole ≡ ok f
  unfolding decode_frame
  decode_frame-whole hm hg hs =
      rw (be-method_len hm, be-grant_len hg, be-status_len hs, be-extra_len)
        (rw decode_rest-whole (rw length-whole (ground arith)))
