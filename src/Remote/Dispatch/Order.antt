-- ===== src/Remote/Dispatch/Order.antt =====
-- While a connection lives, each step keeps the operations of one key in the order they arrived.
use execenv.Base.{
  ℕ, ◌<◌, ◌≡◌, refl, Bool, true, false, Option, none, some, bytes_eq, bytes_beq_iff, lookup,
  lookup-insert, arith, leb, ltb, ◌==◌, nat_eq, nat_beq_iff, Option-cases, Bool-cases, if-either,
  inl, inr,
}
use execenv.Mux.{Frame}
use execenv.Remote.Dispatch.{
  Phase, waiting, running, closing, released, gone, Dispatcher, is_done, phase_of, key_of, dispatch,
  dispatch_key, admit, set_phase, may_start, drop_tail,
}
use execenv.Remote.Dispatch.Steps.{Step, arrive, work, abort, cancel, shut, advance, give_up, step}
use execenv.Remote.Dispatch.Invariant.{Inv, lookup-drop_tail}

unfoldable pub is_waiting : Phase → Bool
is_waiting waiting = true
is_waiting running = false
is_waiting closing = false
is_waiting released = false
is_waiting gone = false

-- Whether what a goroutine waits for is t or later.
abbrev pub covers : Option ℕ → ℕ → Bool
covers o t = elim o [ none ↦ false | some p ↦ leb t p ]

pub record Ordered (d : Dispatcher) : Type 0 where
  -- Behind a task that has left the select, every earlier one of its key is done.
  pub passed :
      (t u : ℕ)
      → t < u
      → u < d.tasks.next
      → key_of d t ≡ key_of d u
      → is_waiting (phase_of d u) ≡ false
      → is_done (phase_of d t) ≡ true
  -- A task that waits, waits for one no earlier than any of its key that is not done.
  pub follows :
      (t u : ℕ)
      → t < u
      → u < d.tasks.next
      → key_of d t ≡ key_of d u
      → is_done (phase_of d t) ≡ false
      → covers ((d.tasks.cell u).previous) t ≡ true
  -- And so will the next of its key.
  pub last :
      (t : ℕ)
      → t < d.tasks.next
      → is_done (phase_of d t) ≡ false
      → covers (lookup (key_of d t) d.tails) t ≡ true

done-left : (p : Phase) → is_done p ≡ true → is_waiting p ≡ false
unfolding is_done is_waiting
done-left waiting e = ground (arith, e)
done-left running e = refl
done-left closing e = refl
done-left released e = refl
done-left gone e = refl

-- Nothing takes a cancellation back.
pub step-cancelled :
    (d : Dispatcher) (s : Step) → (step d s).cancelled ≡ false → d.cancelled ≡ false
unfolding step dispatch advance give_up
step-cancelled d (arrive f) live = ground (arith, live)
step-cancelled d (work t) live = ground (arith, live, advance-cancelled (phase_of d t))
  where
    advance-cancelled : (p : Phase) → (advance d t p).cancelled ≡ d.cancelled
    advance-cancelled waiting = ground arith
    advance-cancelled running = refl
    advance-cancelled closing = refl
    advance-cancelled released = refl
    advance-cancelled gone = refl
step-cancelled d (abort t) live = ground (arith, live, give_up-cancelled (phase_of d t))
  where
    give_up-cancelled : (p : Phase) → (give_up d t p).cancelled ≡ d.cancelled
    give_up-cancelled waiting = ground arith
    give_up-cancelled running = refl
    give_up-cancelled closing = refl
    give_up-cancelled released = refl
    give_up-cancelled gone = refl
step-cancelled d cancel live = absurd (ground (arith, live))
step-cancelled d shut live = live

module _ (d : Dispatcher) (i : Inv d) (o : Ordered d) where
  admit-Ordered : (f : Frame) → Ordered (admit d f)
  unfolding is_waiting is_done
  admit-Ordered f = record {
    passed = λ t u lt lu same out. ground (
      arith,
      nat_beq_iff t d.tasks.next,
      nat_beq_iff u d.tasks.next,
      o.passed t u lt,
      lu,
      same,
      out,
    );
    follows = λ t u lt lu same undone. ground (
      arith,
      nat_beq_iff t d.tasks.next,
      nat_beq_iff u d.tasks.next,
      o.follows t u lt,
      o.last t,
      lu,
      same,
      undone,
    );
    last = λ t lt undone. ground (
      arith,
      nat_beq_iff t d.tasks.next,
      lookup-insert (dispatch_key f) (key_of d t) d.tasks.next d.tails,
      lookup-insert (dispatch_key f) (dispatch_key f) d.tasks.next d.tails,
      bytes_beq_iff (dispatch_key f) (dispatch_key f),
      o.last t,
      lt,
      undone,
    );
  }

  -- What may leave the select has every earlier task of its key behind it.
  freed :
      (t u : ℕ)
      → t < u
      → u < d.tasks.next
      → key_of d t ≡ key_of d u
      → may_start d u ≡ true
      → is_done (phase_of d t) ≡ true
  freed t u lt lu same ready = elim (Option-cases ((d.tasks.cell u).previous)) [
    | inl first ↦ ground (arith, first, o.follows t u lt lu same)
    | inr (p, behind) ↦ ground (
      arith,
      behind,
      ready,
      i.linked u p lu behind,
      o.follows t u lt lu same,
      o.passed t p,
      done-left (phase_of d p),
    )
  ]

  -- The task that leaves the select
  begun-Ordered :
      (t : ℕ)
      → t < d.tasks.next
      → phase_of d t ≡ waiting
      → may_start d t ≡ true
      → Ordered (set_phase d t running)
  unfolding is_waiting is_done
  begun-Ordered b lb was ready = record {
    passed = λ t u lt lu same out. elim (Bool-cases (u == b)) [
      | inl now ↦
          ground (arith, now, nat_beq_iff u b, nat_beq_iff t b, freed t b, lt, same, lb, ready)
      | inr other ↦ ground (arith, other, nat_beq_iff t b, o.passed t u lt lu, same, out, was)
    ];
    follows = λ t u lt lu same undone.
        ground (arith, nat_beq_iff t b, nat_beq_iff u b, o.follows t u lt lu, same, undone, was);
    last = λ t lt undone. ground (arith, nat_beq_iff t b, o.last t lt, undone, was);
  }

  -- A task that has left it
  later-Ordered :
      (t : ℕ) (p : Phase)
      → t < d.tasks.next
      → is_waiting (phase_of d t) ≡ false
      → is_done p ≡ true
      → Ordered (set_phase d t p)
  later-Ordered b p lb was done = record {
    passed = λ t u lt lu same out.
        ground (arith, nat_beq_iff t b, nat_beq_iff u b, o.passed t u lt lu, same, out, was, done);
    follows = λ t u lt lu same undone.
        ground (arith, nat_beq_iff t b, nat_beq_iff u b, o.follows t u lt lu, same, undone, done);
    last = λ t lt undone. ground (arith, nat_beq_iff t b, o.last t lt, undone, done);
  }

  gone-Ordered :
      (t : ℕ)
      → t < d.tasks.next
      → phase_of d t ≡ released
      → Ordered (record (set_phase d t gone) { tails = drop_tail d.tails (key_of d t) t })
  unfolding is_waiting is_done
  gone-Ordered b lb was =
      let moved = later-Ordered b gone lb (ground (arith, was)) refl in
      record {
        passed = moved.passed;
        follows = moved.follows;
        last = λ t lt undone. ground (
          arith,
          lookup-drop_tail d.tails (key_of d b) b (key_of d t),
          bytes_beq_iff (key_of d b) (key_of d t),
          nat_beq_iff t b,
          o.last t lt,
          o.passed t b,
          lb,
          undone,
          was,
        );
      }

  advance-Ordered :
      (t : ℕ) (p : Phase) → t < d.tasks.next → phase_of d t ≡ p → Ordered (advance d t p)
  unfolding advance is_waiting is_done
  advance-Ordered t waiting lt e = if-either Ordered (may_start d t) (begun-Ordered t lt e) (λ _. o)
  advance-Ordered t running lt e = later-Ordered t closing lt (ground (arith, e)) refl
  advance-Ordered t closing lt e =
      let moved = later-Ordered t released lt (ground (arith, e)) refl in
      record { passed = moved.passed; follows = moved.follows; last = moved.last }
  advance-Ordered t released lt e = gone-Ordered t lt e
  advance-Ordered t gone lt e = o

  give_up-Ordered : (t : ℕ) (p : Phase) → d.cancelled ≡ false → Ordered (give_up d t p)
  unfolding give_up
  give_up-Ordered t waiting live = elim (Option-cases ((d.tasks.cell t).previous)) [
    | inl first ↦ rw (first, give_up) o
    | inr (p, behind) ↦
        rw (behind, give_up)
          (if-either Ordered d.cancelled (λ over. absurd (ground (arith, live, over))) (λ _. o))
  ]
  give_up-Ordered t running live = o
  give_up-Ordered t closing live = o
  give_up-Ordered t released live = o
  give_up-Ordered t gone live = o

  pub step-Ordered : (s : Step) → (step d s).cancelled ≡ false → Ordered (step d s)
  unfolding step dispatch
  step-Ordered (arrive f) live = ground (arith, o, admit-Ordered f)
  step-Ordered (work t) live =
      if-either Ordered (ltb t d.tasks.next)
        (λ made. advance-Ordered t (phase_of d t) (ground (arith, made)) refl) (λ _. o)
  step-Ordered (abort t) live =
      if-either Ordered (ltb t d.tasks.next)
        (λ _. give_up-Ordered t (phase_of d t) (step-cancelled d (abort t) live)) (λ _. o)
  step-Ordered cancel live = absurd (ground (arith, live))
  step-Ordered shut live = record { passed = o.passed; follows = o.follows; last = o.last }
