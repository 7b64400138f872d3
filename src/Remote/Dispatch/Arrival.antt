-- ===== src/Remote/Dispatch/Arrival.antt =====
-- While a connection lives, the operations of one grant run one at a time, as they arrived.
use execenv.Base.{ℕ, ◌<◌, ◌≡◌, true, false, List, [], ◌∷◌, bytes_eq, arith, nat_eq}
use execenv.Remote.Dispatch.{running, Dispatcher, is_done, phase_of, key_of}
use execenv.Remote.Dispatch.Steps.{Step, step, run, new_dispatcher}
use execenv.Remote.Dispatch.Invariant.{Inv, step-Inv, new_dispatcher-Inv}
use execenv.Remote.Dispatch.Order.{is_waiting, Ordered, step-cancelled, step-Ordered}

run-cancelled :
    (d : Dispatcher) (ss : List Step) → (run d ss).cancelled ≡ false → d.cancelled ≡ false
unfolding run
run-cancelled d [] live = live
run-cancelled d (s ∷ rest) live = step-cancelled d s (run-cancelled (step d s) rest live)

run-Ordered :
    (d : Dispatcher) (ss : List Step)
    → Inv d
    → Ordered d
    → (run d ss).cancelled ≡ false
    → Ordered (run d ss)
unfolding run
run-Ordered d [] i o live = o
run-Ordered d (s ∷ rest) i o live =
    run-Ordered (step d s) rest (step-Inv d i s)
      (step-Ordered d i o s (run-cancelled (step d s) rest live)) live

new_dispatcher-Ordered : Ordered new_dispatcher
new_dispatcher-Ordered = record {
  passed = λ t u lt lu. absurd (ground (arith, lu));
  follows = λ t u lt lu. absurd (ground (arith, lu));
  last = λ t lt. absurd (ground (arith, lt));
}

module _ (ss : List Step) (live : (run new_dispatcher ss).cancelled ≡ false) where
  -- While the connection's context is not cancelled: once an operation has left its wait, every
  -- operation of the same key that was admitted before it has ended, whatever else arrived and
  -- however the goroutines were scheduled. So the operations of one grant run in arrival order.
  pub runs_in_order :
      let d = run new_dispatcher ss in
      (t u : ℕ)
      → t < u
      → u < d.tasks.next
      → key_of d t ≡ key_of d u
      → is_waiting (phase_of d u) ≡ false
      → is_done (phase_of d t) ≡ true
  runs_in_order =
      (run-Ordered new_dispatcher ss new_dispatcher-Inv new_dispatcher-Ordered live).passed

  -- While the connection's context is not cancelled, two operations of one key that are running are
  -- the same operation.
  pub one_running :
      let d = run new_dispatcher ss in
      (t u : ℕ)
      → t < d.tasks.next
      → u < d.tasks.next
      → key_of d t ≡ key_of d u
      → phase_of d t ≡ running
      → phase_of d u ≡ running
      → t ≡ u
  unfolding is_waiting is_done
  one_running t u lt lu same e e' =
      ground (arith, runs_in_order t u, runs_in_order u t, lt, lu, same, e, e')
