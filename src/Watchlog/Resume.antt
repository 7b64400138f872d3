-- ===== src/Watchlog/Resume.antt =====
-- What Since answers to a cursor of this generation, and to one of another.
use execenv.Base.{
  ℕ, ◌+◌, ◌-◌, ◌%◌, ◌≤◌, ◌<◌, ◌≡◌, ◌≢◌, refl, ap, ◌∙◌, sym, some, List, [], ◌∷◌, Bytes, length,
  drop, length-append, drop-length, arith, cut-append, format_uint, parse_uint-format_uint,
  format_uint-cons, length-format_uint, ltb, nat_eq, bytes_eq, bytes_beq, bytes_beq_iff,
  if◌then◌else◌, Bool-cases, inl, inr,
}
use execenv.Errors.{Result, ok, fail, lagged}
use execenv.Paths.{Event}
use execenv.Watchlog.{Log, make_cursor, current, parse_cursor, since, since_parsed, u64_mod}
use execenv.Watchlog.Invariant.{IsEpoch, IsLog}

pub parse_cursor-make_cursor :
    (epoch : Bytes) (seq : ℕ)
    → IsEpoch epoch
    → seq < u64_mod
    → parse_cursor (make_cursor epoch seq) ≡ some (epoch, seq)
unfolding parse_cursor make_cursor
parse_cursor-make_cursor epoch seq n h =
    let (c, s, e) = format_uint-cons seq in
    ground (
      arith,
      cut-append b':' epoch (format_uint seq) n.no_colon,
      parse_uint-format_uint seq h,
      bytes_beq_iff epoch [],
      n.nonempty,
      bytes_beq_iff (format_uint seq) [],
      e,
    )

pub make_cursor_fits :
    (epoch : Bytes) (seq : ℕ)
    → IsEpoch epoch
    → (make_cursor epoch seq ≢ []) × (length (make_cursor epoch seq) ≤ 128)
unfolding make_cursor
make_cursor_fits [] seq n = absurd (n.nonempty refl)
make_cursor_fits (c ∷ epoch) seq n = (
  λ e. cc,
  omega
      (arith, n.short, length-append (c ∷ epoch) (b':' ∷ format_uint seq), length-format_uint seq),
)

pub make_cursor_injective :
    (a : Bytes) (s : ℕ) (b : Bytes) (t : ℕ)
    → IsEpoch a
    → IsEpoch b
    → s < u64_mod
    → t < u64_mod
    → make_cursor a s ≡ make_cursor b t
    → (a ≡ b) × (s ≡ t)
make_cursor_injective a s b t na nb hs ht e =
    let p : some (a, s) ≡ some (b, t) =
      sym (parse_cursor-make_cursor a s na hs)
      ∙ ap parse_cursor e
      ∙ parse_cursor-make_cursor b t nb ht in
    (cc p, cc p)

module _ (l : Log) (i : IsLog l) where
  oldest_lem : (l.next + u64_mod - length l.events) % u64_mod ≡ l.next - length l.events
  oldest_lem = omega (arith, i.counted, i.in_range)

  -- Since, on a cursor that this log, or another, could have issued.
  since-make_cursor :
      (epoch : Bytes) (seq : ℕ)
      → IsEpoch epoch
      → seq < u64_mod
      → make_cursor epoch seq ≢ current l
      → since l (make_cursor epoch seq) ≡ since_parsed l (make_cursor epoch seq) (some (epoch, seq))
  unfolding since
  since-make_cursor epoch seq n h other =
      let (filled, short) = make_cursor_fits epoch seq n in
      ground (
        arith,
        parse_cursor-make_cursor epoch seq n h,
        filled,
        short,
        bytes_beq_iff (make_cursor epoch seq) [],
        bytes_beq_iff (make_cursor epoch seq) (current l),
        other,
      )

  pub since-current : since l (current l) ≡ ok (current l, [])
  unfolding since current
  since-current =
      let (filled, short) = make_cursor_fits l.epoch l.next i.named in
      ground (
        arith,
        filled,
        short,
        bytes_beq_iff (make_cursor l.epoch l.next) [],
        bytes_beq_iff (make_cursor l.epoch l.next) (make_cursor l.epoch l.next),
      )

  -- What this log answers on its own cursor `seq`.
  unfoldable pub reply_own : ℕ → Result (Bytes × List Event)
  reply_own seq =
      if ltb seq (l.next - length l.events)
      then fail lagged
      else ok (make_cursor l.epoch seq, drop (seq - (l.next - length l.events)) l.events)

  pub reply_own-next : reply_own l.next ≡ ok (current l, [])
  unfolding reply_own current
  reply_own-next =
      let e : l.next - (l.next - length l.events) ≡ length l.events = omega (arith, i.counted) in
      ground (arith, e, drop-length l.events, i.counted)

  pub since_own : (seq : ℕ) → seq ≤ l.next → since l (make_cursor l.epoch seq) ≡ reply_own seq
  since_own seq h = elim (Bool-cases (bytes_beq (make_cursor l.epoch seq) (current l))) [
    | inl latest ↦
        let e = (bytes_beq_iff (make_cursor l.epoch seq) (current l)).0 latest in
        let same : seq ≡ l.next =
          (make_cursor_injective l.epoch seq l.epoch l.next i.named i.named
            (omega (arith, i.in_range)) i.in_range (unfold current in e)).1 in
        ap (since l) e ∙ since-current ∙ sym (ap reply_own same ∙ reply_own-next)
    | inr earlier ↦
        since-make_cursor l.epoch seq i.named (omega (arith, i.in_range))
          (λ e. cc (earlier, (bytes_beq_iff (make_cursor l.epoch seq) (current l)).1 e))
        ∙ unfold reply_own in ground (arith, oldest_lem, bytes_beq_iff l.epoch l.epoch)
  ]

  -- Cursors of another generation are refused.
  pub since_foreign :
      (epoch : Bytes) (seq : ℕ)
      → IsEpoch epoch
      → seq < u64_mod
      → epoch ≢ l.epoch
      → since l (make_cursor epoch seq) ≡ fail lagged
  since_foreign epoch seq n h other =
      since-make_cursor epoch seq n h (λ e.
        other
          (make_cursor_injective epoch seq l.epoch l.next n i.named h i.in_range
            (unfold current in e)).0)
      ∙ ground (arith, bytes_beq_iff epoch l.epoch)
