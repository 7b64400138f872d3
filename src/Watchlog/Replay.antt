-- ===== src/Watchlog/Replay.antt =====
-- Resuming a stream after further events, and after a reset.
use execenv.Base.{
  ℕ, suc, ◌+◌, ◌-◌, ◌≤◌, ◌<◌, ◌≡◌, refl, ap, ◌∙◌, sym, subst, List, [], ◌∷◌, ◌++◌, append_assoc,
  append-nil, Bytes, length, drop, length-append, length-drop, drop-drop, drop-append,
  drop-length_append, arith, ltb, leb, nat_eq, bytes_eq, if◌then◌else◌, Bool-cases, inl, inr,
}
use execenv.Errors.{ok, fail, lagged}
use execenv.Paths.{Event}
use execenv.Watchlog.{Log, make_cursor, keep_last, append, current, since, u64_mod}
use execenv.Watchlog.Invariant.{IsLog, append-IsLog, length-keep_last}
use execenv.Watchlog.Resume.{since_own, reply_own}

-- Append on a list of events: the events as stored, and the log after them.
unfoldable pub append_all : List Event → Log → List Event × Log
append_all [] l = ([], l)
append_all (e ∷ es) l =
    let (stored, l') = append e l in let (rest, l'') = append_all es l' in (stored ∷ rest, l'')

keep_last-drop : (c : ℕ) (es : List Event) → keep_last c es ≡ drop (length es - c) es
unfolding keep_last
keep_last-drop c es = elim (Bool-cases (ltb c (length es))) [
  | inl over ↦ rw over
  | inr fits ↦ let z : length es - c ≡ 0 = ground arith in rw (fits, z)
]

-- Trimming before an append is lost in the trimming after it.
keep_last_fuse :
    (c : ℕ) (xs ys : List Event) → keep_last c (keep_last c xs ++ ys) ≡ keep_last c (xs ++ ys)
keep_last_fuse c xs ys =
    let a = length xs - c in
    rw (keep_last-drop c xs, ← drop-append a xs ys (omega arith), keep_last-drop, keep_last-drop)
      (drop-drop (length (drop a (xs ++ ys)) - c) a (xs ++ ys)
        ∙ ap (λ (n : ℕ). drop n (xs ++ ys))
            (omega (arith, length-drop a (xs ++ ys), length-append xs ys)))

keep_last_fits : (c : ℕ) (es : List Event) → length es ≤ c → keep_last c es ≡ es
unfolding keep_last
keep_last_fits c es h = ground arith

-- What appending `es` did to `l`.
record Grows (l : Log) (es : List Event) (l' : Log) (stored : List Event) : Type 0 where
  well_formed : IsLog l'
  same_epoch : l'.epoch ≡ l.epoch
  same_capacity : l'.capacity ≡ l.capacity
  moved_on : l'.next ≡ l.next + length es
  all_stored : length stored ≡ length es
  window : l'.events ≡ keep_last l.capacity (l.events ++ stored)

module _ (e : Event) (l : Log) where
  append_epoch : (append e l).1.epoch ≡ l.epoch
  unfolding append
  append_epoch = refl

  append_capacity : (append e l).1.capacity ≡ l.capacity
  unfolding append
  append_capacity = refl

  append_window :
      (rest : List Event)
      → keep_last (append e l).1.capacity ((append e l).1.events ++ rest)
        ≡ keep_last l.capacity (l.events ++ (append e l).0 ∷ rest)
  unfolding append
  append_window rest =
      keep_last_fuse l.capacity (l.events ++ (append e l).0 ∷ []) rest
      ∙ ap (keep_last l.capacity) (append_assoc l.events ((append e l).0 ∷ []) rest)

append_all-Grows :
    (es : List Event) (l : Log)
    → IsLog l
    → l.next + length es < u64_mod
    → Grows l es (append_all es l).1 (append_all es l).0
unfolding append_all
append_all-Grows [] l i h = record {
  well_formed = i;
  same_epoch = refl;
  same_capacity = refl;
  moved_on = omega arith;
  all_stored = refl;
  window = rw append-nil (sym (keep_last_fits l.capacity l.events i.bounded));
}
append_all-Grows (e ∷ es) l i h =
    let l' = (append e l).1 in
    let next_lem : l'.next ≡ l.next + 1 = unfold append in omega arith in
    let g = append_all-Grows es l' (append-IsLog e l (omega arith) i) (omega (arith, next_lem)) in
    record {
      well_formed = g.well_formed;
      same_epoch = g.same_epoch ∙ append_epoch e l;
      same_capacity = g.same_capacity ∙ append_capacity e l;
      moved_on = omega (arith, g.moved_on, next_lem);
      all_stored = ap suc g.all_stored;
      window = g.window ∙ append_window e l (append_all es l').0;
    }

-- The last events of a window that is wide enough are those appended last.
drop-keep_last :
    (c : ℕ) (xs ys : List Event)
    → length ys ≤ c
    → drop (length (keep_last c (xs ++ ys)) - length ys) (keep_last c (xs ++ ys)) ≡ ys
drop-keep_last c xs ys h =
    let b = length (xs ++ ys) - c in
    rw (keep_last-drop c (xs ++ ys)) (
      drop-drop (length (drop b (xs ++ ys)) - length ys) b (xs ++ ys)
      ∙ ap (λ (n : ℕ). drop n (xs ++ ys))
          (omega (arith, length-drop b (xs ++ ys), length-append xs ys))
      ∙ drop-length_append xs ys)

module _ (l : Log) (es : List Event) (l' : Log) (stored : List Event)
    (g : Grows l es l' stored) where
  window_size : length l'.events ≡ (
      if ltb l.capacity (length l.events + length es)
      then l.capacity
      else length l.events + length es)
  window_size =
      ap length g.window
      ∙ length-keep_last l.capacity (l.events ++ stored)
      ∙ rw (length-append, g.all_stored) refl

  missed : length es ≤ l.capacity → drop (length l'.events - length es) l'.events ≡ stored
  missed fits =
      rw (g.window, ← g.all_stored)
        (drop-keep_last l.capacity l.events stored (omega (arith, g.all_stored)))

  reply_after : reply_own l' g.well_formed l.next ≡ (
      if leb (length es) l.capacity then ok (make_cursor l'.epoch l.next, stored) else fail lagged)
  unfolding reply_own
  reply_after = elim (Bool-cases (leb (length es) l.capacity)) [
    | inl fits ↦
        let at : l.next - (l'.next - length l'.events) ≡ length l'.events - length es =
          ground (arith, window_size, g.moved_on, g.well_formed.counted) in
        rw (fits, at) (ground (arith, missed (ground arith), window_size, g.moved_on, fits))
    | inr wide ↦ rw wide (ground (arith, window_size, g.moved_on, wide))
  ]

-- A log that an observer left at its current position replays, after further events, exactly
-- those events in order, each with its new cursor, if they fit the window; and answers ErrLagged
-- if they do not. (The 64-bit counter is not used up.)
pub since-append_all :
    (l : Log) (es : List Event)
    → IsLog l
    → l.next + length es < u64_mod
    → since (append_all es l).1 (current l)
      ≡ (if leb (length es) l.capacity then ok (current l, (append_all es l).0) else fail lagged)
since-append_all l es i h =
    let g = append_all-Grows es l i h in
    let l' = (append_all es l).1 in
    let answer = since_own l' g.well_formed l.next (omega (arith, g.moved_on)) in
    let stored = (append_all es l).0 in
    let same : make_cursor l'.epoch l.next ≡ current l =
      unfold current in ap (λ (x : Bytes). make_cursor x l.next) g.same_epoch in
    subst (λ c. since l' c ≡ (if leb (length es) l.capacity then ok (c, stored) else fail lagged))
      same (answer ∙ reply_after l es l' stored g)
