-- ===== src/Remote/Dispatch/Examples.antt =====
-- The theorems on the dispatcher, with two requests of one grant and one of another.
use execenv.Base.{
  ◌≡◌, refl, true, none, List, [], ◌∷◌, codes, lookup, insert, bytes_beq, arith, Bytes, bytes_eq,
}
use execenv.Mux.{Frame}
use execenv.Remote.Dispatch.{waiting, running, closing, phase_of, dispatch, is_done}
use execenv.Remote.Dispatch.Steps.{
  Step, arrive, work, abort, cancel, advance, give_up, step, run, new_dispatcher, no_frame,
}
use execenv.Remote.Dispatch.Invariant.{Inv, run-new_dispatcher-Inv}
use execenv.Remote.Dispatch.Order.{is_waiting}
use execenv.Remote.Dispatch.Arrival.{runs_in_order}
use execenv.Remote.Dispatch.Drain.{Gone, drain, drains}

abbrev frame_of : Bytes → Frame
frame_of grant = record no_frame { grant = grant }

-- The first has ended, the second waited for it and runs, and the third runs meanwhile.
abbrev morning : List Step
morning =
    arrive (frame_of (codes "env-1"))
    ∷ arrive (frame_of (codes "env-1"))
    ∷ arrive (frame_of (codes "env-2"))
    ∷ work 0
    ∷ work 2
    ∷ work 1
    ∷ work 0
    ∷ work 1
    ∷ []

second_waited :
    phase_of
      (run new_dispatcher (
        arrive (frame_of (codes "env-1"))
        ∷ arrive (frame_of (codes "env-1"))
        ∷ work 0
        ∷ work 1
        ∷ []))
      1
    ≡ waiting
unfolding run step dispatch advance lookup insert bytes_beq is_done
second_waited = refl

second_runs : phase_of (run new_dispatcher morning) 1 ≡ running
unfolding run step dispatch advance lookup insert bytes_beq is_done
second_runs = refl

run-new_dispatcher-Inv_example : Inv (run new_dispatcher morning)
run-new_dispatcher-Inv_example = run-new_dispatcher-Inv morning

runs_in_order_example : is_done (phase_of (run new_dispatcher morning) 0) ≡ true
unfolding run step dispatch advance lookup insert bytes_beq is_done is_waiting
runs_in_order_example = runs_in_order morning refl 0 1 (omega arith) (omega arith) refl refl

drains_example :
    let d = run new_dispatcher morning in
    let e = run d (drain d.tasks.next) in
    Gone e e.tasks.next × (e.inflight ≡ 0) × ((k : Bytes) → lookup k e.tails ≡ none)
drains_example = drains morning

-- The end of the connection cuts the second's wait short: `done` is then closed before the first
-- has ended, which is why the order is promised to a live connection only.
cut_short :
    let d = run new_dispatcher (
      arrive (frame_of (codes "env-1"))
      ∷ arrive (frame_of (codes "env-1"))
      ∷ work 0
      ∷ cancel
      ∷ abort 1
      ∷ []) in
    (phase_of d 0 ≡ running) × (phase_of d 1 ≡ closing)
unfolding run step dispatch advance give_up lookup insert bytes_beq is_done
cut_short = (refl, refl)
