-- ===== src/Remote/Dispatch/Invariant.antt =====
-- The slots of the dispatcher are the goroutines that hold one, and never more than there are.
use execenv.Base.{
  ℕ, zero, suc, ◌+◌, ◌-◌, ◌≤◌, ◌<◌, ◌≡◌, refl, Bool, true, false, ◌&&◌, GoMap, none, some, List, [],
  ◌∷◌, Bytes, bytes_eq, bytes_beq_iff, lookup, lookup-insert, lookup-delete, arith, leb, ltb, ◌==◌,
  nat_eq, nat_beq_iff, if◌then◌else◌, Option-cases, Bool-cases, if-either, inl, inr,
}
use execenv.Mux.{Frame}
use execenv.Memory.State.{update}
use execenv.Remote.Dispatch.{
  Phase, waiting, running, closing, released, gone, Task, Dispatcher, holds_slot, phase_of, key_of,
  dispatch, dispatch_key, new_task, admit, set_phase, may_start, drop_tail, is_tail,
  max_connection_operations,
}
use execenv.Remote.Dispatch.Steps.{
  Step, arrive, work, abort, cancel, shut, advance, give_up, step, run, new_dispatcher,
}

abbrev pub slot : Task → ℕ
slot x = if holds_slot x.phase then 1 else 0

-- How many of the tasks below n hold a slot.
unfoldable pub busy : (ℕ → Task) → ℕ → ℕ
busy cell zero = 0
busy cell (suc n) = busy cell n + slot (cell n)

unfoldable pub is_gone : Phase → Bool
is_gone waiting = false
is_gone running = false
is_gone closing = false
is_gone released = false
is_gone gone = true

pub record Inv (d : Dispatcher) : Type 0 where
  pub counted : d.inflight ≡ busy d.tasks.cell d.tasks.next
  pub bounded : d.inflight ≤ 128
  -- A tail is a task of its key that has not gone.
  pub tail :
      (k : Bytes) (t : ℕ)
      → lookup k d.tails ≡ some t
      → (t < d.tasks.next) × (key_of d t ≡ k) × (is_gone (phase_of d t) ≡ false)
  -- A task waits for an earlier one of its key.
  pub linked :
      (t p : ℕ)
      → t < d.tasks.next
      → (d.tasks.cell t).previous ≡ some p
      → (p < t) × (key_of d p ≡ key_of d t)

-- A task at or above n does not count.
busy-above : (cell : ℕ → Task) (n t : ℕ) (x : Task) → n ≤ t → busy (update cell t x) n ≡ busy cell n
unfolding busy
busy-above cell zero t x le = refl
busy-above cell (suc n) t x le =
    ground (arith, busy-above cell n t x (ground arith), nat_beq_iff n t)

-- One task's change, in the count of all
busy-update :
    (cell : ℕ → Task) (n t : ℕ) (x : Task)
    → t < n
    → busy (update cell t x) n + slot (cell t) ≡ busy cell n + slot x
unfolding busy
busy-update cell zero t x lt = ground (arith, lt)
busy-update cell (suc n) t x lt = elim (Bool-cases (n == t)) [
  | inl same ↦ ground (arith, same, nat_beq_iff n t, busy-above cell n t x)
  | inr apart ↦ ground (arith, apart, nat_beq_iff n t, busy-update cell n t x)
]

pub lookup-drop_tail :
    (m : GoMap Bytes ℕ) (key : Bytes) (t : ℕ) (k : Bytes)
    → lookup k (drop_tail m key t)
      ≡ (if key == k && is_tail (lookup key m) t then none else lookup k m)
unfolding drop_tail
lookup-drop_tail m key t k = ground (arith, lookup-delete key k m)

module _ (d : Dispatcher) (i : Inv d) where
  admit-Inv : (f : Frame) → leb max_connection_operations d.inflight ≡ false → Inv (admit d f)
  unfolding busy is_gone holds_slot
  admit-Inv f room = record {
    counted = ground (
      arith,
      i.counted,
      busy-above d.tasks.cell d.tasks.next d.tasks.next (new_task d f),
      nat_beq_iff d.tasks.next d.tasks.next,
    );
    bounded = ground (arith, room);
    tail = λ k t e. ground (
      arith,
      lookup-insert (dispatch_key f) k d.tasks.next d.tails,
      bytes_beq_iff (dispatch_key f) k,
      nat_beq_iff t d.tasks.next,
      i.tail k t,
      e,
    );
    linked = λ t p lt e. ground (
      arith,
      nat_beq_iff t d.tasks.next,
      nat_beq_iff p d.tasks.next,
      i.linked t p,
      i.tail (dispatch_key f) p,
      lt,
      e,
    );
  }

  -- A task goes to a phase that is not the last, and `inflight` follows.
  moved-Inv :
      (t : ℕ) (p : Phase) (n : ℕ)
      → t < d.tasks.next
      → is_gone p ≡ false
      → n + slot (d.tasks.cell t) ≡ d.inflight + slot (record (d.tasks.cell t) { phase = p })
      → n ≤ 128
      → Inv (record (set_phase d t p) { inflight = n })
  moved-Inv t p n lt stays count bound = record {
    counted = ground (
      arith,
      i.counted,
      busy-update d.tasks.cell d.tasks.next t (record (d.tasks.cell t) { phase = p }) lt,
      count,
    );
    bounded = bound;
    tail = λ k u e. ground (arith, nat_beq_iff u t, i.tail k u, stays, e);
    linked = λ u q le e. ground (arith, nat_beq_iff u t, nat_beq_iff q t, i.linked u q, le, e);
  }

  -- A task goes, and with it the tail that it is.
  gone-Inv :
      (t : ℕ)
      → t < d.tasks.next
      → phase_of d t ≡ released
      → Inv (record (set_phase d t gone) { tails = drop_tail d.tails (key_of d t) t })
  unfolding is_gone holds_slot
  gone-Inv t lt was = record {
    counted = ground (
      arith,
      i.counted,
      busy-update d.tasks.cell d.tasks.next t (record (d.tasks.cell t) { phase = gone }) lt,
      was,
    );
    bounded = i.bounded;
    tail = λ k u e. ground (
      arith,
      nat_beq_iff u t,
      lookup-drop_tail d.tails (key_of d t) t k,
      bytes_beq_iff (key_of d t) k,
      i.tail k u,
      e,
    );
    linked = λ u q le e. ground (arith, nat_beq_iff u t, nat_beq_iff q t, i.linked u q, le, e);
  }

  advance-Inv : (t : ℕ) (p : Phase) → t < d.tasks.next → phase_of d t ≡ p → Inv (advance d t p)
  unfolding advance is_gone holds_slot
  advance-Inv t waiting lt e = elim (Bool-cases (may_start d t)) [
    | inl freed ↦
        rw (freed, advance) (moved-Inv t running d.inflight lt refl (ground (arith, e)) i.bounded)
    | inr held ↦ rw (held, advance) i
  ]
  advance-Inv t running lt e = moved-Inv t closing d.inflight lt refl (ground (arith, e)) i.bounded
  advance-Inv t closing lt e =
      moved-Inv t released (d.inflight - 1) lt refl
        (ground (
          arith,
          e,
          i.counted,
          busy-update d.tasks.cell d.tasks.next t (record (d.tasks.cell t) { phase = gone }) lt,
        ))
        (ground (arith, i.bounded))
  advance-Inv t released lt e = gone-Inv t lt e
  advance-Inv t gone lt e = i

  give_up-Inv : (t : ℕ) (p : Phase) → t < d.tasks.next → phase_of d t ≡ p → Inv (give_up d t p)
  unfolding give_up is_gone holds_slot
  give_up-Inv t waiting lt e = elim (Option-cases ((d.tasks.cell t).previous)) [
    | inl first ↦ rw (first, give_up) i
    | inr (p, behind) ↦
        rw (behind, give_up)
          (if-either Inv d.cancelled
            (λ _. moved-Inv t closing d.inflight lt refl (ground (arith, e)) i.bounded) (λ _. i))
  ]
  give_up-Inv t running lt e = i
  give_up-Inv t closing lt e = i
  give_up-Inv t released lt e = i
  give_up-Inv t gone lt e = i

  dispatch-Inv : (f : Frame) → Inv (dispatch d f).1
  unfolding dispatch
  dispatch-Inv f = elim (Bool-cases (leb max_connection_operations d.inflight)) [
    | inl full ↦ ground (arith, full, i)
    | inr room ↦ ground (arith, room, i, admit-Inv f room)
  ]

  pub step-Inv : (s : Step) → Inv (step d s)
  unfolding step
  step-Inv (arrive f) = dispatch-Inv f
  step-Inv (work t) = elim (Bool-cases (ltb t d.tasks.next)) [
    | inl made ↦ rw made (advance-Inv t (phase_of d t) (ground (arith, made)) refl)
    | inr not_made ↦ rw not_made i
  ]
  step-Inv (abort t) = elim (Bool-cases (ltb t d.tasks.next)) [
    | inl made ↦ rw made (give_up-Inv t (phase_of d t) (ground (arith, made)) refl)
    | inr not_made ↦ rw not_made i
  ]
  step-Inv cancel = record {
    counted = i.counted;
    bounded = i.bounded;
    tail = i.tail;
    linked = i.linked;
  }
  step-Inv shut = record {
    counted = i.counted;
    bounded = i.bounded;
    tail = i.tail;
    linked = i.linked;
  }

pub run-Inv : (d : Dispatcher) (ss : List Step) → Inv d → Inv (run d ss)
unfolding run
run-Inv d [] i = i
run-Inv d (s ∷ rest) i = run-Inv (step d s) rest (step-Inv d i s)

pub new_dispatcher-Inv : Inv new_dispatcher
unfolding busy lookup
new_dispatcher-Inv = record {
  counted = refl;
  bounded = omega arith;
  tail = λ k t e. absurd (ground (arith, e));
  linked = λ t p lt e. absurd (ground (arith, lt));
}

-- Whatever arrives and however the goroutines are scheduled, the connection's operations in flight
-- are the goroutines that wait, run or have not yet given their place back, and never more than
-- 128; a key's tail is a goroutine of that key that has not gone; and a goroutine waits only for an
-- earlier one of its own key.
pub run-new_dispatcher-Inv : (ss : List Step) → Inv (run new_dispatcher ss)
run-new_dispatcher-Inv ss = run-Inv new_dispatcher ss new_dispatcher-Inv
