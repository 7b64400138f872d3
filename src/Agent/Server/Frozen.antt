-- ===== src/Agent/Server/Frozen.antt =====
-- The well-formedness of the agent's session: a frozen one has no shell, no observation, no poll.
use execenv.Base.{
  ℕ, ◌<◌, ◌≡◌, ◌≢◌, true, false, Option, none, some, arith, ◌==◌, nat_eq, nat_beq_iff, if-either,
  Option-cases, inl, inr,
}
use execenv.Errors.{Error}
use execenv.Mux.{Frame}
use execenv.Agent.Server.Handle.{watched, attached}
use execenv.Agent.Server.{
  Server, Machine, post, reset_snap, stop_poll, invalidate_watch, kill_shell, is_done,
}

pub record Inv (s : Server) : Type 0 where
  pub still : s.frozen ≡ true → (s.term ≡ none) × (s.watching ≡ false) × (s.polling ≡ false)
  pub polled : s.watching ≡ true → (s.polling ≡ true) × (s.watch_stream ≢ 0)
  pub held :
      (t : ℕ)
      → s.term ≡ some t
      → (t < s.shells.next)
        × ((s.shells.cell t).closed ≡ false)
        × ((s.shells.cell t).stream ≡ s.term_stream)
        × (s.term_stream ≢ 0)
  -- A shell that is usable is the session's.
  pub usable :
      (t : ℕ)
      → t < s.shells.next
      → (s.shells.cell t).closed ≡ false
      → (s.shells.cell t).exited ≡ false
      → (s.shells.cell t).copying ≡ true
      → s.term ≡ some t

pub post-Inv : (m : Machine) (f : Frame) (s : Server) → Inv s → Inv (post m f s)
unfolding post
post-Inv m f s i = elim (Option-cases (m.send f)) [
  | inl gone_out ↦
      rw (gone_out, post)
        (record { still = i.still; polled = i.polled; held = i.held; usable = i.usable })
  | inr (e, failed) ↦ rw (failed, post) i
]

module _ (s : Server) (i : Inv s) where
  pub unwatched-Inv :
      (stream : ℕ) (e : Option Error)
      → Inv (record s { watching = false; watch_stream = stream; watch_err = e })
  unwatched-Inv stream e = record {
    still = λ f. ground (arith, i.still f);
    polled = λ w. ground (arith, w);
    held = i.held;
    usable = i.usable;
  }

  pub invalidate_watch-Inv : (m : Machine) (e : Error) → Inv (invalidate_watch m e s)
  unfolding invalidate_watch
  invalidate_watch-Inv m e =
      if-either Inv s.watching (λ _. post-Inv m _ _ (unwatched-Inv 0 (some e))) (λ _. i)

  stopped-Inv :
      (e : Error)
      → Inv (record s { watching = false; watch_stream = 0; watch_err = some e; polling = false })
  stopped-Inv e = record {
    still = λ f. ground (arith, i.still f);
    polled = λ w. ground (arith, w);
    held = i.held;
    usable = i.usable;
  }

  pub stop_poll-Inv : (m : Machine) (e : Error) → Inv (stop_poll m e s)
  unfolding stop_poll
  stop_poll-Inv m e =
      if-either Inv s.watching (λ _. post-Inv m _ _ (stopped-Inv e)) (λ _. stopped-Inv e)

  pub kill_shell-Inv : Inv (kill_shell s)
  unfolding kill_shell
  kill_shell-Inv = elim (Option-cases s.term) [
    | inl free ↦ rw (free, kill_shell) i
    | inr (t, busy) ↦
        rw (busy, kill_shell)
          (record {
            still = λ f. ground (arith, i.still f);
            polled = i.polled;
            held = λ u e. ground (arith, e);
            usable = λ u lt live going copied.
                ground (arith, nat_beq_iff u t, i.usable u lt, live, going, copied, busy);
          })
  ]

  pub watched-Inv :
      (m : Machine) (stream : ℕ)
      → s.frozen ≡ false
      → (stream == 0) ≡ false
      → Inv (watched m stream s)
  unfolding reset_snap
  watched-Inv m stream live given =
      if-either Inv s.polling
        (λ going. record {
          still = λ f. ground (arith, live, f);
          polled = λ w. ground (arith, going, given, nat_beq_iff stream 0);
          held = i.held;
          usable = i.usable;
        })
        (λ _. record {
          still = λ f. ground (arith, live, f);
          polled = λ w. ground (arith, given, nat_beq_iff stream 0);
          held = i.held;
          usable = i.usable;
        })

  pub attached-Inv :
      (stream : ℕ)
      → s.frozen ≡ false
      → (stream == 0) ≡ false
      → is_done s ≡ true
      → Inv (attached stream s)
  attached-Inv stream live given free = record {
    still = λ f. ground (arith, live, f);
    polled = i.polled;
    held = λ t e. ground (arith, e, given, nat_beq_iff stream 0, nat_beq_iff t s.shells.next);
    usable = λ t lt whole going copied.
        ground (arith, nat_beq_iff t s.shells.next, i.usable t, lt, whole, going, copied, free);
  }
