-- ===== src/Remote/Dispatch.antt =====
-- remote/server.go, dispatch: how a connection's requests become goroutines, and what each of
-- those goes through. A goroutine and its `done` channel are one address of `tasks`. Only the
-- connection's read loop admits, so taking the slot and the section under `mu` are one step.
pub mod Steps
pub mod Invariant
pub mod Order
pub mod Arrival
pub mod Drain
mod Examples
use execenv.Base.{
  ℕ, suc, ◌+◌, ◌-◌, Bool, true, false, not, ◌||◌, Option, none, some, List, [], ◌∷◌, Bytes, GoMap,
  codes, bytes_eq, lookup, insert, delete, leb, ◌==◌, nat_eq, if◌then◌else◌,
}
use execenv.Mux.{Frame, kind_request, kind_pty}
use execenv.Memory.State.{Heap, fresh, store}

abbrev pub max_connection_operations : ℕ
max_connection_operations = 128

-- waiting: in the select on `previous`; running: in writePty or handle. The deferred function
-- closes `done` (closing), gives the slot back (released), then drops its own tail (gone).
pub data Phase : Type 0 where
  waiting : Phase
  running : Phase
  closing : Phase
  released : Phase
  gone : Phase

pub record Task : Type 0 where
  pub frame : Frame
  pub key : Bytes
  pub previous : Option ℕ
  pub phase : Phase

-- inflight is the number of elements in the buffered channel
pub record Dispatcher : Type 0 where
  pub inflight : ℕ
  pub tails : GoMap Bytes ℕ
  pub tasks : Heap Task
  pub closed : Bool
  pub cancelled : Bool

-- Whether the task's `done` is closed.
unfoldable pub is_done : Phase → Bool
is_done waiting = false
is_done running = false
is_done closing = true
is_done released = true
is_done gone = true

-- Whether the task holds a place of `inflight`.
unfoldable pub holds_slot : Phase → Bool
holds_slot waiting = true
holds_slot running = true
holds_slot closing = true
holds_slot released = false
holds_slot gone = false

pub data Outcome : Type 0 where
  ignored : Outcome
  replies_busy : Outcome
  closes_session : Outcome
  dropped : Outcome
  admitted : ℕ → Outcome

abbrev pub phase_of : Dispatcher → ℕ → Phase
phase_of d t = (d.tasks.cell t).phase

abbrev pub key_of : Dispatcher → ℕ → Bytes
key_of d t = (d.tasks.cell t).key

abbrev pub dispatch_key : Frame → Bytes
dispatch_key f = if f.grant == [] then codes "$host" else f.grant

abbrev pub new_task : Dispatcher → Frame → Task
new_task d f = record {
  frame = f;
  key = dispatch_key f;
  previous = lookup (dispatch_key f) d.tails;
  phase = waiting;
}

abbrev pub admit : Dispatcher → Frame → Dispatcher
admit d f = record d {
  inflight = suc d.inflight;
  tails = insert (dispatch_key f) d.tasks.next d.tails;
  tasks = fresh d.tasks (new_task d f);
}

unfoldable pub dispatch : Dispatcher → Frame → Outcome × Dispatcher
dispatch d f =
    if not (f.kind == kind_request || f.kind == kind_pty)
    then (ignored, d)
    else if leb max_connection_operations d.inflight
    then (if f.kind == kind_request then replies_busy else closes_session, d)
    else if d.closed
    then (dropped, d)
    else (admitted d.tasks.next, admit d f)

abbrev pub set_phase : Dispatcher → ℕ → Phase → Dispatcher
set_phase d t p = record d { tasks = store d.tasks t (record (d.tasks.cell t) { phase = p }) }

-- Whether `case <-previous` can be taken.
abbrev pub may_start : Dispatcher → ℕ → Bool
may_start d t = elim ((d.tasks.cell t).previous) [ none ↦ true | some p ↦ is_done (phase_of d p) ]

abbrev pub is_tail : Option ℕ → ℕ → Bool
is_tail o t = elim o [ none ↦ false | some p ↦ p == t ]

-- `if sc.tails[key] == done { delete(sc.tails, key) }`
unfoldable pub drop_tail : GoMap Bytes ℕ → Bytes → ℕ → GoMap Bytes ℕ
drop_tail tails key t = if is_tail (lookup key tails) t then delete key tails else tails
