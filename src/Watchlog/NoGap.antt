-- ===== src/Watchlog/NoGap.antt =====
-- What Since promises for a cursor of any origin.
use execenv.Base.{
  ℕ, ◌+◌, ◌-◌, ◌%◌, ◌≡◌, ap, subst, some, List, [], Bytes, length, drop, length-drop, arith, nat_eq,
  bytes_eq, bytes_beq_iff, Option-cases, ◌⊎◌, inl, inr,
}
use execenv.Errors.{ok}
use execenv.Paths.{Event}
use execenv.Watchlog.{Log, current, parse_cursor, since, since_parsed, u64_mod}
use execenv.Watchlog.Invariant.{IsLog, Numbered, Numbered-drop}
use execenv.Watchlog.Resume.{parse_cursor-make_cursor}

-- The answer's cursor names a position of this generation, and the events are all those from the
-- next position to the present, in order, with none missing.
pub record NoGap (l : Log) (cursor : Bytes) (events : List Event) : Type 0 where
  pub position : ℕ
  pub named : parse_cursor cursor ≡ some (l.epoch, position)
  pub in_order : Numbered l.epoch (position + 1) events
  pub complete : position + length events ≡ l.next

module _ (l : Log) (i : IsLog l) where
  NoGap-current : NoGap l (current l) []
  unfolding current
  NoGap-current = record {
    position = l.next;
    named = parse_cursor-make_cursor l.epoch l.next i.named i.in_range;
    in_order = tt;
    complete = omega arith;
  }

  NoGap-parsed :
      (cursor c : Bytes) (es : List Event) (epoch : Bytes) (seq : ℕ)
      → parse_cursor cursor ≡ some (epoch, seq)
      → since_parsed l cursor (some (epoch, seq)) ≡ ok (c, es)
      → NoGap l c es
  NoGap-parsed cursor c es epoch seq p h =
      let oldest : (l.next + u64_mod - length l.events) % u64_mod ≡ l.next - length l.events =
        omega (arith, i.counted, i.in_range) in
      let same : epoch ≡ l.epoch = ground (arith, bytes_beq_iff epoch l.epoch) in
      let rest : drop (seq - (l.next - length l.events)) l.events ≡ es = ground (arith, oldest) in
      record {
        position = seq;
        named = ground (arith, p, same);
        in_order = subst (Numbered l.epoch (seq + 1)) rest (
            subst (λ m. Numbered l.epoch m (drop (seq - (l.next - length l.events)) l.events))
              (ground (arith, oldest))
              (Numbered-drop l.epoch (seq - (l.next - length l.events))
                (l.next - length l.events + 1) l.events i.numbered));
        complete = ground (
          arith,
          oldest,
          i.counted,
          ap length rest,
          length-drop (seq - (l.next - length l.events)) l.events,
        );
      }

  since_cases :
      (cursor c : Bytes) (es : List Event)
      → since l cursor ≡ ok (c, es)
      → ((current l ≡ c) × ([] ≡ es)) ⊎ (since_parsed l cursor (parse_cursor cursor) ≡ ok (c, es))
  unfolding since
  since_cases cursor c es h = ground (arith, bytes_beq_iff cursor (current l))

  NoGap-parsed_any :
      (cursor c : Bytes) (es : List Event)
      → since_parsed l cursor (parse_cursor cursor) ≡ ok (c, es)
      → NoGap l c es
  NoGap-parsed_any cursor c es h = elim (Option-cases (parse_cursor cursor)) [
    | inl unread ↦ cc (h, unread)
    | inr ((epoch, seq), p) ↦ NoGap-parsed cursor c es epoch seq p (rw p at h)
  ]

  -- Whatever the cursor, if Since answers at all then its events run without a gap from the
  -- position that the answer's cursor names to the present.
  pub since-NoGap :
      (cursor c : Bytes) (es : List Event) → since l cursor ≡ ok (c, es) → NoGap l c es
  since-NoGap cursor c es h = elim (since_cases cursor c es h) [
    | inl (at, nothing) ↦ subst (NoGap l c) nothing (subst (λ x. NoGap l x []) at NoGap-current)
    | inr parsed ↦ NoGap-parsed_any cursor c es parsed
  ]
