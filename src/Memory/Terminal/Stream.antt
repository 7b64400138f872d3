-- ===== src/Memory/Terminal/Stream.antt =====
-- A terminal is a byte stream, whoever calls it and in whatever order.
use execenv.Base.{
  ℕ, ◌≡◌, sym, ◌∙◌, List, [], ◌∷◌, ◌++◌, append_assoc, take-length, ap, append-nil, take,
  take-append-drop, length, Bytes, Option-cases, Bool-cases, inl, inr, arith, ◌==◌, nat_eq,
}
use execenv.Errors.{Error, Result, ok, err}
use execenv.Memory.State.{Window, Terminal, Ctx}
use execenv.Memory.Terminal.{ReadResult, waits, returns, read, write, resize, close, kill}

-- The calls on one terminal.
pub data Use : Type 0 where
  use_write : Bytes → Use
  use_read : ℕ → Use
  use_resize : Ctx → Window → Use
  use_close : Use
  use_kill : Error → Use

abbrev pub bytes_read : ReadResult → Bytes
bytes_read waits = []
bytes_read (returns (ok p)) = p
bytes_read (returns (err e)) = []

abbrev pub bytes_taken : Bytes → Result ℕ → Bytes
bytes_taken p (ok n) = take n p
bytes_taken p (err e) = []

-- What one call writes and reads, and the terminal after it.
unfoldable pub use_once : Terminal → Use → (Bytes × Bytes) × Terminal
use_once t (use_write p) = let (n, t') = write t p in ((bytes_taken p n, []), t')
use_once t (use_read n) = let (out, t') = read t n in (([], bytes_read out), t')
use_once t (use_resize ctx win) = (([], []), (resize t ctx win).1)
use_once t use_close = (([], []), close t)
use_once t (use_kill reason) = (([], []), kill reason t)

-- What the calls write and read together, in their order.
unfoldable pub use_all : Terminal → List Use → (Bytes × Bytes) × Terminal
use_all t [] = (([], []), t)
use_all t (u ∷ rest) =
    let ((written, taken), t') = use_once t u in
    let ((written', taken'), t'') = use_all t' rest in ((written ++ written', taken ++ taken'), t'')

write-Fifo : (t : Terminal) (p : Bytes) → t.buf ++ bytes_taken p (write t p).0 ≡ (write t p).1.buf
unfolding write
write-Fifo t p = elim (Option-cases t.dead) [
  | inr (e, dead) ↦ rw (dead, write) (append-nil t.buf)
  | inl alive ↦ elim (Bool-cases t.closed) [
    | inl shut ↦ rw (alive, write) (rw shut (append-nil t.buf))
    | inr unclosed ↦ rw (alive, write) (rw (unclosed, take-length p))
  ]
]

read-Fifo : (t : Terminal) (n : ℕ) → t.buf ≡ bytes_read (read t n).0 ++ (read t n).1.buf
unfolding read
read-Fifo t n = elim (Option-cases t.dead) [
  | inr (e, dead) ↦ rw (dead, read)
  | inl alive ↦ elim (Bool-cases (length t.buf == 0)) [
    | inl empty ↦ elim (Bool-cases t.closed) [
      | inl shut ↦ rw (alive, read) (rw (empty, shut))
      | inr unclosed ↦ rw (alive, read) (rw (empty, unclosed))
    ]
    | inr some_bytes ↦ rw (alive, read) (rw (some_bytes, take-append-drop n t.buf))
  ]
]

resize-buf : (t : Terminal) (ctx : Ctx) (win : Window) → (resize t ctx win).1.buf ≡ t.buf
unfolding resize
resize-buf t ctx win = ground arith

once-Fifo :
    (t : Terminal) (u : Use)
    → t.buf ++ (use_once t u).0.0 ≡ (use_once t u).0.1 ++ (use_once t u).1.buf
unfolding use_once close kill
once-Fifo t (use_write p) = write-Fifo t p
once-Fifo t (use_read n) = append-nil t.buf ∙ read-Fifo t n
once-Fifo t (use_resize ctx win) = append-nil t.buf ∙ sym (resize-buf t ctx win)
once-Fifo t use_close = append-nil t.buf
once-Fifo t (use_kill reason) = append-nil t.buf

-- Whatever calls a terminal gets, in any order, closing, resizing and killing it included: the
-- bytes that its writes took, after those it held at first, are the bytes that its reads returned
-- and then those it still holds. None is lost, repeated or reordered.
pub use_all-Fifo :
    (t : Terminal) (us : List Use)
    → t.buf ++ (use_all t us).0.0 ≡ (use_all t us).0.1 ++ (use_all t us).1.buf
unfolding use_all
use_all-Fifo t [] = append-nil t.buf
use_all-Fifo t (u ∷ us) =
    let ((written, taken), t') = use_once t u in
    let ((written', taken'), t'') = use_all t' us in
    sym (append_assoc t.buf written written')
    ∙ ap (λ b. b ++ written') (once-Fifo t u)
    ∙ append_assoc taken t'.buf written'
    ∙ ap (λ b. taken ++ b) (use_all-Fifo t' us)
    ∙ sym (append_assoc taken taken' t''.buf)
