-- ===== src/Agent/Server/Reach.antt =====
-- Every step of the agent's goroutines keeps the session well formed.
use execenv.Base.{
  ℕ, ◌≡◌, true, false, none, List, [], ◌∷◌, Bytes, arith, ◌==◌, nat_eq, bytes_eq, nat_beq_iff,
  if◌then◌else◌, if-either, Option-cases, Bool-cases, inl, inr,
}
use execenv.Memory.State.{store}
use execenv.Agent.Server.{Server, Machine, new_server}
use execenv.Agent.Server.Steps.{
  Step, request, polls, reads, ends, exits, is_copying, is_term, step, run,
}
use execenv.Agent.Server.Frozen.{Inv, post-Inv}
use execenv.Agent.Server.Requests.{handle-Inv, diff_once-Inv}

module _ (m : Machine) (s : Server) (i : Inv s) where
  ended-Inv :
      (t : ℕ)
      → (s.shells.cell t).copying ≡ true
      → let ended : Server = record s {
        shells = store s.shells t (record (s.shells.cell t) { copying = false });
      } in
        Inv (if is_term s.term t then record ended { term = none; term_stream = 0 } else ended)
  ended-Inv t copied = elim (Bool-cases (is_term s.term t)) [
    | inl own ↦ rw own (record {
      still = λ f. ground (arith, i.still f);
      polled = i.polled;
      held = λ u e. ground (arith, e);
      usable = λ u lt whole going copies.
          ground
            (arith, nat_beq_iff u t, i.usable u lt, whole, going, copies, own, Option-cases s.term);
    })
    | inr other ↦ rw other (record {
      still = i.still;
      polled = i.polled;
      held = λ u e. ground (arith, nat_beq_iff u t, i.held u e, e, other);
      usable = λ u lt whole going copies.
          ground (arith, nat_beq_iff u t, i.usable u lt, whole, going, copies);
    })
  ]

  exited-Inv :
      (t : ℕ)
      → Inv (record s { shells = store s.shells t (record (s.shells.cell t) { exited = true }) })
  exited-Inv t = record {
    still = i.still;
    polled = i.polled;
    held = λ u e. ground (arith, nat_beq_iff u t, i.held u e);
    usable = λ u lt whole going copies.
        ground (arith, nat_beq_iff u t, i.usable u lt, whole, going, copies);
  }

  step-Inv : (x : Step) → Inv (step m s x)
  unfolding step
  step-Inv (request f) = handle-Inv m s i f
  step-Inv polls = diff_once-Inv m s i
  step-Inv (reads t bytes) =
      if-either Inv (is_copying s t)
        (λ _. if-either Inv (bytes == []) (λ _. i) (λ _. post-Inv m _ s i)) (λ _. i)
  step-Inv (ends t hung_up e) =
      if-either Inv (is_copying s t)
        (λ copied. post-Inv m _ _ (ended-Inv t (ground (arith, copied)))) (λ _. i)
  step-Inv (exits t) = exited-Inv t

run-Inv : (s : Server) (xs : List (Machine × Step)) → Inv s → Inv (run s xs)
unfolding run
run-Inv s [] i = i
run-Inv s ((m, x) ∷ rest) i = run-Inv (step m s x) rest (step-Inv m s i x)

new_server-Inv : (epoch : Bytes) → Inv (new_server epoch)
new_server-Inv epoch = record {
  still = λ f. absurd (ground (arith, f));
  polled = λ w. absurd (ground (arith, w));
  held = λ t e. absurd (ground (arith, e));
  usable = λ t lt. absurd (ground (arith, lt));
}

-- Whatever requests arrive, whatever the machine answers and however the session's goroutines
-- interleave: a frozen session has no terminal, no observation and no poller; an observed one is
-- polled, on a stream that is not 0; the session's terminal is a shell that was not closed, on the
-- terminal's stream; and a shell that runs, is not closed and is copied is the session's terminal.
pub run-new_server-Inv :
    (epoch : Bytes) (xs : List (Machine × Step)) → Inv (run (new_server epoch) xs)
run-new_server-Inv epoch xs = run-Inv (new_server epoch) xs (new_server-Inv epoch)
