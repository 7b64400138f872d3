-- ===== src/Isolated/Run.antt =====
-- Any interleaving of the isolated host's locked sections.
use execenv.Base.{
  ℕ, ◌+◌, ◌≡◌, refl, ◌∙◌, Bool, true, false, not, ◌&&◌, Option, none, some, List, [], ◌∷◌, Bytes,
  bytes_eq, bytes_beq_self, lookup, lookup-insert, length, leb, arith, ◌==◌, nat_eq, if◌then◌else◌,
  Bool-cases, Option-cases, inl, inr,
}
use execenv.Errors.{Error, Result, ok, err}
use execenv.Names.{Spec, network_allowlist}
use execenv.Memory.Host.{network_beq}
use execenv.Isolated.{
  with_directory, unless_occupied, Guest, IsolatedHost, Look, new_call, reserve, complete,
  revoke_round,
}
use execenv.Isolated.Invariant.{
  Inv, reserved-Inv, closed-Inv, cancelled-Inv, completed-Inv, removed-Inv,
}

-- The goroutine whose Ensure reserved a call completes it once.
pub data Section : Type 0 where
  section_reserve : Spec → Bool → Option Error → Section
  section_complete : ℕ → Result Guest → Section
  section_revoke : Bytes → Section

abbrev pub is_started : IsolatedHost → ℕ → Bool
is_started h c = elim (lookup (h.calls.cell c).spec.id h.pending) [ none ↦ false | some d ↦ d == c ]

unfoldable pub step : IsolatedHost → Section → IsolatedHost
step h (section_reserve spec verified made) = (reserve h spec verified made).1
step h (section_complete c guest) = if is_started h c then (complete h c guest).1 else h
step h (section_revoke id) = (revoke_round h id).1

unfoldable pub run : IsolatedHost → List Section → IsolatedHost
run h [] = h
run h (s ∷ rest) = run (step h s) rest

abbrev pub start : List Bytes → ℕ → Bool → IsolatedHost
start images slots allows = record {
  images = images;
  slots = slots;
  allows = allows;
  grants = [];
  pending = [];
  envs = record { next = 0; cell = λ r. record { image = []; network = network_allowlist } };
  calls = record {
    next = 0;
    cell = λ c. new_call (record { id = []; image = []; network = network_allowlist });
  };
}

start-Inv : (images : List Bytes) (slots : ℕ) (allows : Bool) → Inv (start images slots allows)
unfolding lookup
start-Inv images slots allows = record {
  grants_distinct = tt;
  pending_distinct = tt;
  bounded = omega arith;
  apart = λ id r e. refl;
  granted = λ id r e. absurd (ground (arith, e));
  started = λ id c e. absurd (ground (arith, e));
}

with_directory-Inv :
    (h : IsolatedHost) (spec : Spec) (c : ℕ) (made : Option Error)
    → Inv h
    → lookup spec.id h.pending ≡ some c
    → Inv (with_directory h spec c made).1
with_directory-Inv h spec c none i e = i
with_directory-Inv h spec c (some x) i e = closed-Inv h i spec.id c _ e

-- Inv where the id is taken, and where it is not if the rest keeps it
unless_occupied-Inv :
    (h : IsolatedHost) (spec : Spec) (k : Look × IsolatedHost)
    → Inv h
    → (lookup spec.id h.grants ≡ none → lookup spec.id h.pending ≡ none → Inv k.1)
    → Inv (unless_occupied h spec k).1
unless_occupied-Inv h spec k i f = elim (Option-cases (lookup spec.id h.grants)) [
  | inr (r, held) ↦ rw (held, unless_occupied) (ground (arith, i))
  | inl free ↦ elim (Option-cases (lookup spec.id h.pending)) [
    | inr (c, waited) ↦ rw (free, unless_occupied) (rw waited (ground (arith, i)))
    | inl idle ↦ rw (free, unless_occupied) (rw idle (f free idle))
  ]
]

reserve-Inv :
    (h : IsolatedHost) (spec : Spec) (verified : Bool) (made : Option Error)
    → Inv h
    → Inv (reserve h spec verified made).1
unfolding reserve
reserve-Inv h spec false made i = i
reserve-Inv h spec true made i = unless_occupied-Inv h spec _ i (λ free idle.
    elim (Bool-cases (network_beq spec.network network_allowlist && not h.allows)) [
      | inl barred ↦ rw barred i
      | inr offered ↦ elim (Bool-cases (leb h.slots (length h.grants + length h.pending))) [
        | inl full ↦ rw (offered, full) i
        | inr room ↦
            rw (offered, room)
              (with_directory-Inv _ spec h.calls.next made (reserved-Inv h i spec free idle room) (
                lookup-insert spec.id spec.id h.calls.next h.pending ∙ rw (bytes_beq_self spec.id)))
      ]
    ])

pub is_started-lookup :
    (h : IsolatedHost) (c : ℕ)
    → is_started h c ≡ true
    → lookup (h.calls.cell c).spec.id h.pending ≡ some c
is_started-lookup h c e = ground (arith, e)

pub complete-Inv :
    (h : IsolatedHost) (c : ℕ) (guest : Result Guest)
    → Inv h
    → is_started h c ≡ true
    → Inv (complete h c guest).1
unfolding complete
complete-Inv h c (err e) i s = closed-Inv h i _ c _ (is_started-lookup h c s)
complete-Inv h c (ok guest) i s = completed-Inv h i _ c _ guest (is_started-lookup h c s)

revoke_round-Inv : (h : IsolatedHost) (id : Bytes) → Inv h → Inv (revoke_round h id).1
unfolding revoke_round
revoke_round-Inv h id i = elim (Option-cases (lookup id h.pending)) [
  | inr (c, e) ↦ rw (e, revoke_round) (cancelled-Inv h i c)
  | inl idle ↦ elim (Option-cases (lookup id h.grants)) [
    | inr (r, e) ↦ rw (idle, revoke_round) (rw e (removed-Inv h i id))
    | inl free ↦ rw (idle, revoke_round) (rw free i)
  ]
]

pub step-Inv : (h : IsolatedHost) (s : Section) → Inv h → Inv (step h s)
unfolding step
step-Inv h (section_reserve spec verified made) i = reserve-Inv h spec verified made i
step-Inv h (section_complete c guest) i = elim (Bool-cases (is_started h c)) [
  | inl due ↦ rw due (complete-Inv h c guest i due)
  | inr over ↦ rw over i
]
step-Inv h (section_revoke id) i = revoke_round-Inv h id i

run-Inv : (h : IsolatedHost) (ss : List Section) → Inv h → Inv (run h ss)
unfolding run
run-Inv h [] i = i
run-Inv h (s ∷ ss) i = run-Inv (step h s) ss (step-Inv h s i)

pub run-start-Inv :
    (images : List Bytes) (slots : ℕ) (allows : Bool) (ss : List Section)
    → Inv (run (start images slots allows) ss)
run-start-Inv images slots allows ss =
    run-Inv (start images slots allows) ss (start-Inv images slots allows)
