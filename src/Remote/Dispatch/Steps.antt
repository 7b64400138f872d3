-- ===== src/Remote/Dispatch/Steps.antt =====
-- The steps of a connection's dispatcher: the read loop's and each goroutine's own.
use execenv.Base.{ℕ, ◌-◌, true, false, none, some, List, [], ◌∷◌, ltb, if◌then◌else◌}
use execenv.Mux.{Frame, kind_request}
use execenv.Remote.Dispatch.{
  Phase, waiting, running, closing, released, gone, Dispatcher, phase_of, key_of, dispatch,
  set_phase, may_start, drop_tail,
}

-- work is the goroutine's next step; abort is `case <-sc.ctx.Done()`; cancel and shut are the two
-- parts of close, before and under the lock.
pub data Step : Type 0 where
  arrive : Frame → Step
  work : ℕ → Step
  abort : ℕ → Step
  cancel : Step
  shut : Step

-- A goroutine's step, at the phase that takes it.
unfoldable pub advance : Dispatcher → ℕ → Phase → Dispatcher
advance d t waiting = if may_start d t then set_phase d t running else d
advance d t running = set_phase d t closing
advance d t closing = record (set_phase d t released) { inflight = d.inflight - 1 }
advance d t released = record (set_phase d t gone) { tails = drop_tail d.tails (key_of d t) t }
advance d t gone = d

-- The wait that the end of the connection cuts short; a first task of its key does not wait.
unfoldable pub give_up : Dispatcher → ℕ → Phase → Dispatcher
give_up d t waiting = elim ((d.tasks.cell t).previous) [
  | none ↦ d
  | some p ↦ if d.cancelled then set_phase d t closing else d
]
give_up d t running = d
give_up d t closing = d
give_up d t released = d
give_up d t gone = d

-- A step of a task that was never made changes nothing.
unfoldable pub step : Dispatcher → Step → Dispatcher
step d (arrive f) = (dispatch d f).1
step d (work t) = if ltb t d.tasks.next then advance d t (phase_of d t) else d
step d (abort t) = if ltb t d.tasks.next then give_up d t (phase_of d t) else d
step d cancel = record d { cancelled = true }
step d shut = record d { closed = true }

unfoldable pub run : Dispatcher → List Step → Dispatcher
run d [] = d
run d (s ∷ rest) = run (step d s) rest

abbrev pub no_frame : Frame
no_frame = record {
  seq = 0;
  kind = kind_request;
  method = [];
  grant = [];
  stream = 0;
  status = [];
  extra = [];
  deadline = 0;
}

-- serveConn's, before the first frame
abbrev pub new_dispatcher : Dispatcher
new_dispatcher = record {
  inflight = 0;
  tails = [];
  tasks = record {
    next = 0;
    cell = λ t. record { frame = no_frame; key = []; previous = none; phase = gone };
  };
  closed = false;
  cancelled = false;
}
