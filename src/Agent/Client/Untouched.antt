-- ===== src/Agent/Client/Untouched.antt =====
-- The steps of the agent client that leave its calls alone.
use execenv.Base.{
  ℕ, ◌≡◌, refl, true, not, Option, none, some, [], Bytes, ◌==◌, nat_eq, bytes_eq, if-either, inl,
  inr,
}
use execenv.Errors.{Error, Result-cases, sentinel, closed, lagged, unavailable}
use execenv.Errors.Status.{error_from_status}
use execenv.Paths.{Event, validate_event}
use execenv.Mux.{Frame}
use execenv.Agent.Client.{ClientTerm, ClientObs, Client, is_current}
use execenv.Agent.Client.Calls.{answer_all}
use execenv.Agent.Client.Observe
use execenv.Agent.Client.Terminal
use execenv.Agent.Client.Session.{
  deliver_pty, deliver_watch, watch_answered, clear_term, clear_obs, hangup_term, fail_obs,
  finish_observation, pushed, push_decoded, obs_at, term_at, set_term, set_obs, status_error,
  attach_if_free, watch_if_free,
}
use execenv.Agent.Client.Ending.{answer_all-Inv}
use execenv.Agent.Client.Invariant.{Inv, rest-Inv}

-- What stays where only terminals and observations change.
pub record Same (c c' : Client) : Type 0 where
  pub seq : c'.seq ≡ c.seq
  pub keeps : Inv c → Inv c'

pub Same-self : (c : Client) → Same c c
Same-self c = record { seq = refl; keeps = λ i. i }

pub hangup_term-Same :
    (e : Option Error) (o : Option ℕ) (c d : Client) → Same c d → Same c (hangup_term e o d)
hangup_term-Same e none c d s = s
hangup_term-Same e (some t) c d s = record {
  seq = s.seq;
  keeps = λ i. rest-Inv d d.stream d.term d.obs _ d.observations d.crashed (s.keeps i);
}

pub fail_obs-Same : (e : Error) (o : Option ℕ) (c d : Client) → Same c d → Same c (fail_obs e o d)
fail_obs-Same e none c d s = s
fail_obs-Same e (some t) c d s = record {
  seq = s.seq;
  keeps = λ i. rest-Inv d d.stream d.term d.obs d.terms _ d.crashed (s.keeps i);
}

pub clear_obs-Same : (o : ℕ) (c : Client) → Same c (clear_obs o c)
clear_obs-Same o c =
    if-either (Same c) (is_current o c.obs)
      (λ _. record {
        seq = refl;
        keeps = rest-Inv c c.stream c.term none c.terms c.observations c.crashed;
      })
      (λ _. Same-self c)

pub clear_term-Same : (t : ℕ) (c : Client) → Same c (clear_term t c)
clear_term-Same t c =
    if-either (Same c) (is_current t c.term)
      (λ _. record {
        seq = refl;
        keeps = rest-Inv c c.stream none c.obs c.terms c.observations c.crashed;
      })
      (λ _. Same-self c)

pub finish_observation-Same : (o : ℕ) (e : Error) (c : Client) → Same c (finish_observation o e c)
finish_observation-Same o e c = fail_obs-Same e (some o) c (clear_obs o c) (clear_obs-Same o c)

pub pushed-Same : (o : ℕ) (r : Observe.Pushed) (c : Client) → Same c (pushed o r c)
pushed-Same o (Observe.stored x) c = record {
  seq = refl;
  keeps = rest-Inv c c.stream c.term c.obs c.terms _ c.crashed;
}
pushed-Same o Observe.overflows c = finish_observation-Same o (sentinel lagged) c
pushed-Same o Observe.panics c = record {
  seq = refl;
  keeps = rest-Inv c c.stream c.term c.obs c.terms c.observations true;
}

pub push_decoded-Same : (o : ℕ) (ev : Option Event) (c : Client) → Same c (push_decoded o ev c)
push_decoded-Same o none c = finish_observation-Same o (sentinel unavailable) c
push_decoded-Same o (some ev) c = elim (Result-cases (validate_event ev)) [
  | inr (e, bad) ↦ rw (bad, push_decoded) (finish_observation-Same o (sentinel unavailable) c)
  | inl (done, good) ↦ rw (good, push_decoded) (pushed-Same o (Observe.push ev (obs_at c o)) c)
]

pub deliver_watch-Same :
    (decode : Bytes → Option Event) (f : Frame) (c : Client) (o : Option ℕ)
    → Same c (deliver_watch decode f c o)
deliver_watch-Same decode f c none = Same-self c
deliver_watch-Same decode f c (some o) =
    if-either (Same c) (not ((obs_at c o).stream == f.stream)) (λ _. Same-self c)
      (λ _.
        if-either (Same c) (not (f.status == []))
          (λ _. finish_observation-Same o (status_error f.status) c)
          (λ _. push_decoded-Same o (decode f.extra) c))

pub set_term-Same : (t : ℕ) (x : ClientTerm) (c : Client) → Same c (set_term c t x)
set_term-Same t x c = record {
  seq = refl;
  keeps = rest-Inv c c.stream c.term c.obs _ c.observations c.crashed;
}

pub set_obs-Same : (o : ℕ) (x : ClientObs) (c : Client) → Same c (set_obs c o x)
set_obs-Same o x c = record {
  seq = refl;
  keeps = rest-Inv c c.stream c.term c.obs c.terms _ c.crashed;
}

pub deliver_pty-Same : (f : Frame) (c : Client) (o : Option ℕ) → Same c (deliver_pty f c o)
deliver_pty-Same f c none = Same-self c
deliver_pty-Same f c (some t) =
    if-either (Same c) (not ((term_at c t).stream == f.stream)) (λ _. Same-self c)
      (λ _.
        if-either (Same c) (not (f.status == []))
          (λ _. hangup_term-Same (error_from_status f.status) (some t) c c (Same-self c))
          (λ _. set_term-Same t (Terminal.push f.extra (term_at c t)) c))

pub attach-Same : (c : Client) (o : Option ℕ) → Same c (attach_if_free c o).1
attach-Same c (some t) = record {
  seq = refl;
  keeps = rest-Inv c _ c.term c.obs c.terms c.observations c.crashed;
}
attach-Same c none = record { seq = refl; keeps = rest-Inv c _ _ c.obs _ c.observations c.crashed }

pub watch-Same : (after : Bytes) (c : Client) (o : Option ℕ) → Same c (watch_if_free after c o).1
watch-Same after c (some t) = record {
  seq = refl;
  keeps = rest-Inv c _ c.term c.obs c.terms c.observations c.crashed;
}
watch-Same after c none = record { seq = refl; keeps = rest-Inv c _ c.term _ c.terms _ c.crashed }

pub watch_answered-Same :
    (after : Bytes) (cursor : Option Bytes) (o : ℕ) (c : Client)
    → Same c (watch_answered after cursor o c)
unfolding watch_answered
watch_answered-Same after none o c = fail_obs-Same (sentinel closed) (some o) c c (Same-self c)
watch_answered-Same after (some cursor) o c =
    set_obs-Same o (Observe.set_initial_cursor cursor after (obs_at c o)) c

-- The connection's end, or a hangup
pub ended-Same :
    (status : Bytes) (e : Error) (c : Client)
    → Same c (
        fail_obs e c.obs (
          hangup_term
            (some e)
            c.term
            (record (answer_all status c) { closed = true; term = none; obs = none })))
ended-Same status e c =
    let d : Client = record (answer_all status c) { closed = true; term = none; obs = none } in
    let d-Same : Same c d = record {
      seq = refl;
      keeps = λ i.
          rest-Inv (record (answer_all status c) { closed = true }) c.stream none none c.terms
            c.observations c.crashed (answer_all-Inv c status true i);
    } in
    fail_obs-Same e c.obs c _ (hangup_term-Same (some e) c.term c d d-Same)
