-- ===== src/Agent/Server.antt =====
-- agent/server.go and the polling half of agent/watch.go: the guest agent's session. What the
-- machine does for a step (the disk, the shell's start, the JSON codec, whether a frame can be
-- sent) is a `Machine`; `sent` is what has gone to the host.
pub mod Poll
pub mod Handle
pub mod Steps
pub mod Rules
pub mod Frozen
pub mod Requests
pub mod Reach
pub mod Sending
pub mod Replies
pub mod Guard
pub mod Stream
mod Examples
use execenv.Base.{
  ℕ, suc, Bool, true, false, not, ◌||◌, ◌&&◌, Option, none, some, List, [], ◌∷◌, ◌++◌, Bytes, codes,
  length, ltb, ◌==◌, nat_eq, bytes_eq, if◌then◌else◌,
}
use execenv.Errors.{
  Error, sentinel, Result, ok, err, fail, invalid, frozen, busy, closed, lagged, unavailable,
}
use execenv.Errors.Status.{status_of}
use execenv.Paths.{Event, validate_path}
use execenv.Snapshot.{Snapshot, Tree, Mutation, replace, apply}
use execenv.Watchlog.{Log, new_log, reset, append, since, default_capacity}
use execenv.Memory.State.{Heap, Window, Ctx, fresh, store}
use execenv.Mux.{Frame, kind_request, kind_response, kind_pty, kind_watch}
use execenv.Agent.{Scan, diff_snap}

-- copying is the goroutine of copyPty, for `stream`; exited is whether cmd.ProcessState is set.
pub record Shell : Type 0 where
  pub stream : ℕ
  pub exited : Bool
  pub closed : Bool
  pub copying : Bool

-- polling is whether pollStop is not nil
pub record Server : Type 0 where
  pub projected : Snapshot
  pub frozen : Bool
  pub term : Option ℕ
  pub term_stream : ℕ
  pub watching : Bool
  pub watch_stream : ℕ
  pub watch_err : Option Error
  pub snap : Scan
  pub polling : Bool
  pub log : Log
  pub shells : Heap Shell
  pub sent : List Frame

-- What the code under the agent answers during one step; none is success.
pub record Machine : Type 0 where
  pub ctx : Ctx
  pub epoch : Bytes
  pub scan : Scan
  pub send : Frame → Option Error
  pub rewrite_home : Snapshot → Option Error
  pub apply_home : List Mutation → Option Error
  pub open_home : Bytes → Result Bytes
  pub start_shell : Option Error
  pub set_window : Option Error
  pub decode_replace : Bytes → Option Tree
  pub decode_apply : Bytes → Option (List Mutation)
  pub decode_open : Bytes → Option Bytes
  pub decode_stream : Bytes → Option ℕ
  pub decode_window : Bytes → Option (Window × ℕ)
  pub decode_watch : Bytes → Option (Bytes × ℕ)
  pub encode_event : Event → Result Bytes
  pub encode_cursor : Bytes → Result Bytes
  pub encode_body : Bytes → Result Bytes

abbrev pub data_frame : ℕ → ℕ → Bytes → Frame
data_frame kind stream extra = record {
  seq = 0;
  kind = kind;
  method = [];
  grant = [];
  stream = stream;
  status = [];
  extra = extra;
  deadline = 0;
}

abbrev pub status_frame : ℕ → ℕ → Bytes → Frame
status_frame kind stream status = record (data_frame kind stream []) { status = status }

-- sess.Send whose error is not looked at
unfoldable pub post : Machine → Frame → Server → Server
post m f s = elim (m.send f) [ none ↦ record s { sent = s.sent ++ f ∷ [] } | some e ↦ s ]

unfoldable pub reset_snap : Machine → Server → Server
reset_snap m s = record s { snap = m.scan }

unfoldable pub stop_poll : Machine → Error → Server → Server
stop_poll m e s =
    let stopped : Server = record s {
      watching = false;
      watch_stream = 0;
      watch_err = some e;
      polling = false;
    } in
    if s.watching
    then post m (status_frame kind_watch s.watch_stream (status_of (some e))) stopped
    else stopped

unfoldable pub invalidate_watch : Machine → Error → Server → Server
invalidate_watch m e s =
    if s.watching
    then post m (status_frame kind_watch s.watch_stream (status_of (some e)))
        (record s { watching = false; watch_stream = 0; watch_err = some e })
    else s

abbrev pub close_shell : ℕ → Server → Server
close_shell t s = record s {
  shells = store s.shells t (record (s.shells.cell t) { closed = true });
}

unfoldable pub kill_shell : Server → Server
kill_shell s = elim s.term [
  | none ↦ s
  | some t ↦ record (close_shell t s) { term = none; term_stream = 0 }
]

abbrev pub is_done : Server → Bool
is_done s = elim s.term [ none ↦ true | some t ↦ (s.shells.cell t).exited ]

-- Serve's, before its first frame
abbrev pub new_server : Bytes → Server
new_server epoch = record {
  projected = [];
  frozen = false;
  term = none;
  term_stream = 0;
  watching = false;
  watch_stream = 0;
  watch_err = none;
  snap = [];
  polling = false;
  log = new_log epoch default_capacity;
  shells = record {
    next = 0;
    cell = λ t. record { stream = 0; exited = true; closed = true; copying = false };
  };
  sent = [];
}

unfoldable pub shutdown : Machine → Server → Server
shutdown m s = stop_poll m (sentinel closed) (kill_shell s)
