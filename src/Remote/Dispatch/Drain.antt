-- ===== src/Remote/Dispatch/Drain.antt =====
-- The dispatcher cannot deadlock: its goroutines, each by its own steps, can always end.
use execenv.Base.{
  ℕ, zero, suc, ◌-◌, ◌≤◌, ◌<◌, ◌≡◌, ◌≢◌, refl, true, ◌∙◌, none, List, [], ◌∷◌, ◌++◌, Bytes,
  bytes_eq, lookup, arith, ◌==◌, nat_eq, nat_beq_iff, Option-cases, Bool-cases, inl, inr,
}
use execenv.Remote.Dispatch.{
  Phase, waiting, running, closing, released, gone, Task, Dispatcher, is_done, holds_slot, phase_of,
  may_start,
}
use execenv.Remote.Dispatch.Steps.{Step, work, advance, step, run, new_dispatcher}
use execenv.Remote.Dispatch.Invariant.{
  Inv, busy, is_gone, step-Inv, run-Inv, run-new_dispatcher-Inv,
}

-- Four steps of a goroutine: to leave its wait, run, and go
abbrev pub settle : ℕ → List Step
settle t = work t ∷ work t ∷ work t ∷ work t ∷ []

-- The goroutines below n, from the first
unfoldable pub drain : ℕ → List Step
drain zero = []
drain (suc n) = drain n ++ settle n

run-append : (d : Dispatcher) (ss more : List Step) → run d (ss ++ more) ≡ run (run d ss) more
unfolding run
run-append d [] more = refl
run-append d (s ∷ rest) more = run-append (step d s) rest more

-- How many steps a goroutine has left.
unfoldable pub rank : Phase → ℕ
rank waiting = 4
rank running = 3
rank closing = 2
rank released = 1
rank gone = 0

abbrev pub Gone : Dispatcher → ℕ → Type 0
Gone d n = (u : ℕ) → u < n → phase_of d u ≡ gone

-- What a step of t does to the phases
advance-phases :
    (d : Dispatcher) (t : ℕ) (p : Phase)
    → phase_of d t ≡ p
    → let after = advance d t p in
      (after.tasks.next ≡ d.tasks.next)
      × ((u : ℕ) → u ≢ t → phase_of after u ≡ phase_of d u)
      × (may_start d t ≡ true → rank (phase_of after t) ≡ rank p - 1)
unfolding advance rank
advance-phases d t waiting e = (
  ground arith,
  λ u apart. ground (arith, nat_beq_iff u t),
  λ ready. ground (arith, ready, nat_beq_iff t t),
)
advance-phases d t running e =
    (refl, λ u apart. ground (arith, nat_beq_iff u t), λ ready. ground (arith, nat_beq_iff t t))
advance-phases d t closing e =
    (refl, λ u apart. ground (arith, nat_beq_iff u t), λ ready. ground (arith, nat_beq_iff t t))
advance-phases d t released e =
    (refl, λ u apart. ground (arith, nat_beq_iff u t), λ ready. ground (arith, nat_beq_iff t t))
advance-phases d t gone e = (refl, λ u apart. refl, λ ready. ground (arith, e))

-- t is the first goroutine that may not have gone, with k steps left at most.
record Front (d : Dispatcher) (t : ℕ) (k : ℕ) : Type 0 where
  inv : Inv d
  made : t < d.tasks.next
  before : Gone d t
  left : rank (phase_of d t) ≤ k

Front-may_start : (d : Dispatcher) (t k : ℕ) → Front d t k → may_start d t ≡ true
unfolding is_done
Front-may_start d t k f = elim (Option-cases ((d.tasks.cell t).previous)) [
  | inl first ↦ rw (first, may_start) refl
  | inr (p, behind) ↦ ground (arith, behind, f.inv.linked t p f.made behind, f.before p)
]

step-work :
    (d : Dispatcher) (t : ℕ) → t < d.tasks.next → step d (work t) ≡ advance d t (phase_of d t)
unfolding step
step-work d t lt = ground (arith, lt)

work-Front :
    (d : Dispatcher) (t k : ℕ)
    → Front d t (suc k)
    → Front (step d (work t)) t k × ((step d (work t)).tasks.next ≡ d.tasks.next)
work-Front d t k f =
    let (same_next, same_phases, closer) = advance-phases d t (phase_of d t) refl in
    let moved = step-Inv d f.inv (work t) in
    let opened = step-work d t f.made in
    (
      record {
        inv = moved;
        made = ground (arith, opened, same_next, f.made);
        before = λ u lt. ground (arith, opened, same_phases u, f.before u lt, lt);
        left = ground (arith, opened, closer (Front-may_start d t (suc k) f), f.left);
      },
      ground (arith, opened, same_next),
    )

rank-gone : (p : Phase) → rank p ≤ 0 → p ≡ gone
unfolding rank
rank-gone waiting le = ground (arith, le)
rank-gone running le = ground (arith, le)
rank-gone closing le = ground (arith, le)
rank-gone released le = ground (arith, le)
rank-gone gone le = refl

settle-gone :
    (d : Dispatcher) (t : ℕ)
    → Inv d
    → t < d.tasks.next
    → Gone d t
    → Gone (run d (settle t)) (suc t) × ((run d (settle t)).tasks.next ≡ d.tasks.next)
unfolding run rank
settle-gone d t i lt before =
    let (one, next1) =
      work-Front d t 3
        (record { inv = i; made = lt; before = before; left = rank-bounded (phase_of d t) }) in
    let (two, next2) = work-Front (step d (work t)) t 2 one in
    let (three, next3) = work-Front (run d (work t ∷ work t ∷ [])) t 1 two in
    let (four, next4) = work-Front (run d (work t ∷ work t ∷ work t ∷ [])) t 0 three in
    (
      λ u le. elim (Bool-cases (u == t)) [
        | inl now ↦
            ground
              (arith, nat_beq_iff u t, now, rank-gone (phase_of (run d (settle t)) t) four.left)
        | inr other ↦ four.before u (ground (arith, nat_beq_iff u t, other, le))
      ],
      next4 ∙ next3 ∙ next2 ∙ next1,
    )
  where
    rank-bounded : (p : Phase) → rank p ≤ 4
    rank-bounded waiting = ground arith
    rank-bounded running = ground arith
    rank-bounded closing = ground arith
    rank-bounded released = ground arith
    rank-bounded gone = ground arith

busy-gone : (cell : ℕ → Task) (n : ℕ) → ((u : ℕ) → u < n → (cell u).phase ≡ gone) → busy cell n ≡ 0
unfolding busy holds_slot
busy-gone cell zero all = refl
busy-gone cell (suc n) all =
    ground (arith, busy-gone cell n (λ u lt. all u (ground (arith, lt))), all n (omega arith))

drain-gone :
    (d : Dispatcher) (n : ℕ)
    → Inv d
    → n ≤ d.tasks.next
    → Gone (run d (drain n)) n × ((run d (drain n)).tasks.next ≡ d.tasks.next)
unfolding drain run
drain-gone d zero i le = (λ u lt. absurd (ground (arith, lt)), refl)
drain-gone d (suc n) i le =
    let (before, same) = drain-gone d n i (ground (arith, le)) in
    let (after, same') =
      settle-gone (run d (drain n)) n (run-Inv d (drain n) i) (ground (arith, same, le)) before in
    rw (run-append d (drain n) (settle n)) (after, same' ∙ same)

-- From every state that a connection reaches, closed or cancelled ones included, the goroutines can
-- all end by steps of their own, in the order they were admitted: after four steps of each none is
-- left, no operation is in flight, and no key has a tail.
pub drains :
    (ss : List Step)
    → let d = run new_dispatcher ss in
      let e = run d (drain d.tasks.next) in
      Gone e e.tasks.next × (e.inflight ≡ 0) × ((k : Bytes) → lookup k e.tails ≡ none)
unfolding is_gone
drains ss =
    let d = run new_dispatcher ss in
    let e = run d (drain d.tasks.next) in
    let i = run-Inv d (drain d.tasks.next) (run-new_dispatcher-Inv ss) in
    let (all, same) = drain-gone d d.tasks.next (run-new_dispatcher-Inv ss) (omega arith) in
    let all' : Gone e e.tasks.next = λ u lt. all u (ground (arith, same, lt)) in
    (
      all',
      ground (arith, i.counted, busy-gone e.tasks.cell e.tasks.next all'),
      λ k. elim (Option-cases (lookup k e.tails)) [
        | inl free ↦ free
        | inr (t, held) ↦ ground (arith, i.tail k t held, all' t)
      ],
    )
