-- ===== src/Agent/Client/Steps.antt =====
-- agent/client.go: any interleaving of the read loop with the methods of any number of callers.
use execenv.Base.{ℕ, Bool, not, ◌&&◌, Option, List, [], ◌∷◌, Bytes, ltb, if◌then◌else◌}
use execenv.Errors.{Error}
use execenv.Paths.{Event}
use execenv.Memory.State.{Ctx}
use execenv.Mux.{Frame}
use execenv.Agent.Client.{Client}
use execenv.Agent.Client.Calls.{begin_call, sent_call, await_call, call_at}
use execenv.Agent.Client.Session.{
  hangup, fail_all, receive, begin_attach, begin_watch, attach_failed, watch_failed, watch_answered,
  freeze_returned, close_term, close_obs, clear_term, clear_obs, read_term, next_obs,
}

-- fails is the end of the connection, in the read loop; detached and unwatched are the ends of the
-- two Close methods.
pub data Step : Type 0 where
  begins : Ctx → Bytes → Step
  sends : ℕ → Option Error → Step
  awaits : Ctx → Bool → ℕ → Step
  receives : Frame → Step
  fails : Step
  hangs_up : Error → Step
  attaches : Step
  attach_fails : Error → ℕ → Step
  watches : Bytes → Step
  watch_fails : Error → ℕ → Step
  watch_answers : Bytes → Option Bytes → ℕ → Step
  freezes : Step
  closes_term : ℕ → Step
  detached : ℕ → Step
  closes_obs : ℕ → Step
  unwatched : ℕ → Step
  reads : ℕ → ℕ → Step
  takes : Ctx → Bool → ℕ → Step

-- A call that has not come back.
abbrev pub is_open : Client → ℕ → Bool
is_open c k = ltb k c.calls.next && not (call_at c k).returned

module _ (decode : Bytes → Option Event) where
  unfoldable pub act : Client → Step → Client
  act c (begins ctx method) = (begin_call ctx method c).1
  act c (sends k sent) = if is_open c k then (sent_call sent k c).1 else c
  act c (awaits ctx chosen k) = if is_open c k then (await_call ctx chosen k c).1 else c
  act c (receives f) = receive decode f c
  act c fails = fail_all c
  act c (hangs_up e) = hangup e c
  act c attaches = (begin_attach c).1
  act c (attach_fails e t) = attach_failed e t c
  act c (watches after) = (begin_watch after c).1
  act c (watch_fails e o) = watch_failed e o c
  act c (watch_answers after cursor o) = watch_answered after cursor o c
  act c freezes = freeze_returned c
  act c (closes_term t) = close_term t c
  act c (detached t) = clear_term t c
  act c (closes_obs o) = close_obs o c
  act c (unwatched o) = clear_obs o c
  act c (reads t n) = (read_term t n c).1
  act c (takes ctx chosen o) = (next_obs ctx chosen o c).1

  unfoldable pub run : Client → List Step → Client
  run c [] = c
  run c (x ∷ rest) = run (if c.crashed then c else act c x) rest
