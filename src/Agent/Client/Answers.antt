-- ===== src/Agent/Client/Answers.antt =====
-- Every interleaving keeps the client's calls in order, and no call is left waiting when the
-- connection has ended.
use execenv.Base.{
  ℕ, ◌+◌, ◌≤◌, ◌<◌, ◌≡◌, refl, Bool, true, false, Option, none, some, List, [], ◌∷◌, Bytes, codes,
  lookup, length, arith, ◌==◌, nat_eq, bytes_eq, if◌then◌else◌, if-either, Option-cases,
}
use execenv.Errors.{Error, sentinel, closed, frozen}
use execenv.Errors.Status.{status_of}
use execenv.Paths.{Event}
use execenv.Memory.State.{Ctx}
use execenv.Mux.{Frame, kind_response, kind_pty, kind_watch}
use execenv.Watchlog.{u64_mod}
use execenv.Agent.{is_some}
use execenv.Agent.Client.{Client, new_client}
use execenv.Agent.Client.Calls.{begin_call, sent_call, await_call, deliver, call_at}
use execenv.Agent.Client.Observe
use execenv.Agent.Client.Terminal
use execenv.Agent.Client.Session.{
  hangup, fail_all, receive, begin_attach, begin_watch, attach_failed, watch_failed,
  freeze_returned, close_term, close_obs, obs_at, term_at,
}
use execenv.Agent.Client.Steps.{
  Step, begins, sends, awaits, receives, fails, hangs_up, attaches, attach_fails, watches,
  watch_fails, watch_answers, freezes, closes_term, detached, closes_obs, unwatched, reads, takes,
  is_open, act, run,
}
use execenv.Agent.Client.Invariant.{
  Inv, rest-Inv, begin_call-Inv, sent_call-Inv, await_call-Inv, deliver-Inv,
}
use execenv.Agent.Client.Untouched.{
  Same, Same-self, hangup_term-Same, fail_obs-Same, clear_obs-Same, clear_term-Same, set_term-Same,
  set_obs-Same, deliver_pty-Same, deliver_watch-Same, attach-Same, watch-Same, watch_answered-Same,
  ended-Same,
}

-- After one step the calls are in order, and one number more at most is used.
abbrev Next : Client → Client → Type 0
Next c c' = Inv c' × (c'.seq ≤ c.seq + 1)

Same-Next : (c c' : Client) → Inv c → Same c c' → Next c c'
Same-Next c c' i s = (s.keeps i, ground (arith, s.seq))

begin_call-seq :
    (ctx : Ctx) (method : Bytes) (c : Client) → (begin_call ctx method c).1.seq ≤ c.seq + 1
unfolding begin_call
begin_call-seq none method c = ground arith
begin_call-seq (some e) method c = omega arith

sent_call-seq : (sent : Option Error) (k : ℕ) (c : Client) → (sent_call sent k c).1.seq ≡ c.seq
unfolding sent_call
sent_call-seq none k c = refl
sent_call-seq (some e) k c = refl

await_call-seq :
    (ctx : Ctx) (chosen : Bool) (k : ℕ) (c : Client) → (await_call ctx chosen k c).1.seq ≡ c.seq
unfolding await_call
await_call-seq none chosen k c = ground (arith, Option-cases (call_at c k).answer)
await_call-seq (some e) chosen k c = ground (arith, Option-cases (call_at c k).answer)

deliver-seq : (f : Frame) (c : Client) → (deliver f c).seq ≡ c.seq
unfolding deliver
deliver-seq f c = ground (arith, Option-cases (lookup f.seq c.pending))

module _ (decode : Bytes → Option Event) (c : Client) (i : Inv c) (room : c.seq + 1 < u64_mod) where
  receive-Next : (f : Frame) → Next c (receive decode f c)
  unfolding receive
  receive-Next f =
      if-either (Next c) (f.kind == kind_response)
        (λ _. (deliver-Inv c i f, ground (arith, deliver-seq f c)))
        (λ _.
          if-either (Next c) (f.kind == kind_pty)
            (λ _. Same-Next c _ i (deliver_pty-Same f c c.term))
            (λ _.
              if-either (Next c) (f.kind == kind_watch)
                (λ _. Same-Next c _ i (deliver_watch-Same decode f c c.obs))
                (λ _. Same-Next c c i (Same-self c))))

  act-Next : (x : Step) → Next c (act decode c x)
  unfolding act fail_all hangup begin_attach begin_watch attach_failed watch_failed freeze_returned
      close_term close_obs
  act-Next (begins ctx method) = (begin_call-Inv c i ctx method room, begin_call-seq ctx method c)
  act-Next (sends k sent) =
      if-either (Next c) (is_open c k)
        (λ live.
          (sent_call-Inv c i sent k (ground (arith, live)), ground (arith, sent_call-seq sent k c)))
        (λ _. Same-Next c c i (Same-self c))
  act-Next (awaits ctx chosen k) =
      if-either (Next c) (is_open c k)
        (λ live. (
          await_call-Inv c i ctx chosen k (ground (arith, live)),
          ground (arith, await_call-seq ctx chosen k c),
        ))
        (λ _. Same-Next c c i (Same-self c))
  act-Next (receives f) = receive-Next f
  act-Next fails = Same-Next c _ i (ended-Same (codes "unavailable") (sentinel closed) c)
  act-Next (hangs_up e) = Same-Next c _ i (ended-Same (status_of (some e)) e c)
  act-Next attaches = Same-Next c _ i (attach-Same c c.term)
  act-Next (attach_fails e t) =
      Same-Next c _ i (hangup_term-Same (some e) (some t) c _ (clear_term-Same t c))
  act-Next (watches after) = Same-Next c _ i (watch-Same after c c.obs)
  act-Next (watch_fails e o) = Same-Next c _ i (fail_obs-Same e (some o) c _ (clear_obs-Same o c))
  act-Next (watch_answers after cursor o) = Same-Next c _ i (watch_answered-Same after cursor o c)
  act-Next freezes = Same-Next c _ i (
      hangup_term-Same (some (sentinel frozen)) c.term c (record c { term = none })
        (record {
          seq = refl;
          keeps = rest-Inv c c.stream none c.obs c.terms c.observations c.crashed;
        }))
  act-Next (closes_term t) = Same-Next c _ i (set_term-Same t (Terminal.close (term_at c t)) c)
  act-Next (detached t) = Same-Next c _ i (clear_term-Same t c)
  act-Next (closes_obs o) =
      Same-Next c _ i (fail_obs-Same (sentinel closed) (some o) c c (Same-self c))
  act-Next (unwatched o) = Same-Next c _ i (clear_obs-Same o c)
  act-Next (reads t n) = Same-Next c _ i (set_term-Same t (Terminal.read (term_at c t) n).1 c)
  act-Next (takes ctx chosen o) =
      Same-Next c _ i (set_obs-Same o (Observe.next_event ctx chosen (obs_at c o)).1 c)

run-Inv :
    (decode : Bytes → Option Event) (c : Client) (xs : List Step)
    → Inv c
    → c.seq + length xs < u64_mod
    → Inv (run decode c xs)
unfolding run
run-Inv decode c [] i room = i
run-Inv decode c (x ∷ rest) i room =
    let next : Next c (if c.crashed then c else act decode c x) =
      if-either (Next c) c.crashed (λ _. Same-Next c c i (Same-self c))
        (λ _. act-Next decode c i (ground (arith, room)) x) in
    run-Inv decode (if c.crashed then c else act decode c x) rest next.0
      (ground (arith, next.1, room))

new_client-Inv : Inv new_client
unfolding lookup
new_client-Inv = record {
  distinct = tt;
  registered = λ seq k e. absurd (ground (arith, e));
  waiting = λ k lt. absurd (ground (arith, lt));
  own = λ k f lt. absurd (ground (arith, lt));
  shut = λ _ seq. refl;
  numbered = λ k lt. absurd (ground (arith, lt));
  apart = λ j k lj. absurd (ground (arith, lj));
}

module _ (decode : Bytes → Option Event) (xs : List Step) (room : length xs < u64_mod) where
  -- However the read loop and the callers interleave, for fewer steps than there are request
  -- numbers: a call that waits is registered under its number, and only such calls are; an answer
  -- that a call holds has the call's own number; no two calls have the same number; and a client
  -- that has ended has no call registered.
  pub run-new_client-Inv : Inv (run decode new_client xs)
  run-new_client-Inv = run-Inv decode new_client xs new_client-Inv (omega (arith, room))

  -- Once the connection has failed or was hung up, and ever after, every call that has not come back
  -- to its caller has its answer: none waits for a response that cannot come.
  pub ended_answered :
      let c = run decode new_client xs in
      c.closed ≡ true
      → (k : ℕ) → k < c.calls.next
      → (call_at c k).returned ≡ false
      → is_some (call_at c k).answer ≡ true
  ended_answered over k lt still =
      let c = run decode new_client xs in
      let i = run-new_client-Inv in
      ground (
        arith,
        Option-cases (call_at c k).answer,
        i.waiting k lt,
        i.shut over (call_at c k).seq,
        still,
      )
