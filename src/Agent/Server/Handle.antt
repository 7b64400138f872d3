-- ===== src/Agent/Server/Handle.antt =====
-- agent/server.go: what the agent does with each request, and with the frames of a terminal.
use execenv.Base.{
  ℕ, true, false, not, Option, none, some, List, [], ◌∷◌, ◌++◌, Bytes, codes, ◌==◌, nat_eq,
  bytes_eq, if◌then◌else◌,
}
use execenv.Errors.{
  Error, sentinel, Result, ok, err, invalid, frozen, busy, closed, lagged, unavailable,
}
use execenv.Errors.Status.{status_of}
use execenv.Paths.{Event, validate_path}
use execenv.Snapshot.{Snapshot, replace, apply}
use execenv.Watchlog.{reset, since}
use execenv.Memory.State.{fresh}
use execenv.Mux.{Frame, kind_response, kind_watch}
use execenv.Agent.Server.{
  Server, Machine, data_frame, post, reset_snap, stop_poll, invalidate_watch, kill_shell, is_done,
}

-- A handler's (extra, error), and the server after it
abbrev pub Answer : Type 0
Answer = Result Bytes × Server

abbrev pub refuse : Server → Error → Answer
refuse s e = (err e, s)

-- if err := ctx.Err(); err != nil
abbrev pub with_ctx : Machine → Server → Answer → Answer
with_ctx m s k = elim m.ctx [ some e ↦ refuse s e | none ↦ k ]

-- if err := s.guard(); err != nil
abbrev pub guarded : Server → Answer → Answer
guarded s k = if s.frozen then refuse s (sentinel frozen) else k

-- An operation of the disk, that may fail
abbrev pub unless_failed : Server → Option Error → Answer → Answer
unless_failed s o k = elim o [ some e ↦ refuse s e | none ↦ k ]

-- if err != nil { return err }, on a value and an error
abbrev pub unless_err : {A : Type 0} → Server → Result A → (A → Answer) → Answer
unless_err s r k = elim r [ err e ↦ refuse s e | ok a ↦ k a ]

-- decodeExtra
abbrev pub decoded : {A : Type 0} → Server → Option A → (A → Answer) → Answer
decoded s o k = elim o [ none ↦ refuse s (sentinel invalid) | some args ↦ k args ]

-- args.Stream == 0
abbrev pub with_stream : Server → ℕ → Answer → Answer
with_stream s stream k = if stream == 0 then refuse s (sentinel invalid) else k

abbrev pub replaced : Machine → Server → Snapshot → Answer
replaced m s next =
    let s' = invalidate_watch m (sentinel lagged) (record s { projected = next }) in
    (ok [], reset_snap m (record s' { log = reset m.epoch s'.log }))

unfoldable pub replace_request : Machine → Frame → Server → Answer
replace_request m f s = with_ctx m s (
    decoded s (m.decode_replace f.extra) (λ tree. guarded s (
      unless_err s (replace s.projected tree)
        (λ next. unless_failed s (m.rewrite_home next) (replaced m s next)))))

unfoldable pub apply_request : Machine → Frame → Server → Answer
apply_request m f s = with_ctx m s (
    decoded s (m.decode_apply f.extra) (λ batch. guarded s (
      unless_err s (apply s.projected batch) (λ next.
        unless_failed s (m.apply_home batch)
          (ok [], reset_snap m (record s { projected = next }))))))

-- ResolvePath, Lstat, the size and ReadFile are the machine's.
unfoldable pub open_request : Machine → Frame → Server → Answer
open_request m f s = with_ctx m s (
    decoded s (m.decode_open f.extra) (λ path.
      unless_err s (validate_path path)
        (λ done. guarded s (unless_err s (m.open_home path) (λ body. (m.encode_body body, s))))))

-- The replay's loop; `none` when every event was sent
unfoldable pub send_replay : Machine → ℕ → List Event → Server → Option Error × Server
send_replay m stream [] s = (none, s)
send_replay m stream (ev ∷ rest) s = elim (m.encode_event ev) [
  | err e ↦ (some (sentinel unavailable), record s { watching = false })
  | ok raw ↦ elim (m.send (data_frame kind_watch stream raw)) [
    | some e ↦ (some (sentinel closed), record s { watching = false })
    | none ↦
        send_replay m stream rest
          (record s { sent = s.sent ++ data_frame kind_watch stream raw ∷ [] })
  ]
]

abbrev pub watched : Machine → ℕ → Server → Server
watched m stream s =
    let s' : Server = record s { watching = true; watch_stream = stream; watch_err = none } in
    if s.polling then s' else record (reset_snap m s') { polling = true }

abbrev pub replayed : Machine → Bytes → Option Error × Server → Answer
replayed m cursor (some e, s) = refuse s e
replayed m cursor (none, s) = (m.encode_cursor cursor, s)

unfoldable pub watch_request : Machine → Frame → Server → Answer
watch_request m f s = with_ctx m s (
    decoded s (m.decode_watch f.extra) (λ (after, stream). with_stream s stream (
      guarded s (
        if s.watching
        then refuse s (sentinel busy)
        else unless_err s (since s.log after) (λ (cursor, replay).
          replayed m cursor (send_replay m stream replay (watched m stream s)))))))

unfoldable pub unwatch_request : Machine → Frame → Server → Answer
unwatch_request m f s = decoded s (m.decode_stream f.extra) (λ stream. with_stream s stream (
    (
      ok [],
      if s.watch_stream == stream
          then record s { watching = false; watch_stream = 0; watch_err = some (sentinel closed) }
          else s,
    )))

abbrev pub attached : ℕ → Server → Server
attached stream s = record s {
  term = some s.shells.next;
  term_stream = stream;
  shells =
      fresh s.shells (record { stream = stream; exited = false; closed = false; copying = true });
}

abbrev pub started : ℕ → Server → Option Error → Answer
started stream s (some e) = refuse s (sentinel unavailable)
started stream s none = (ok [], attached stream s)

unfoldable pub attach_request : Machine → Frame → Server → Answer
attach_request m f s = with_ctx m s (
    decoded s (m.decode_window f.extra) (λ (win, stream). with_stream s stream (
      guarded s
        (if not (is_done s) then refuse s (sentinel busy) else started stream s m.start_shell))))

unfoldable pub detach_request : Machine → Frame → Server → Answer
detach_request m f s =
    decoded s (m.decode_stream f.extra) (λ stream.
      with_stream s stream ((ok [], if s.term_stream == stream then kill_shell s else s)))

abbrev pub resize_shell : Machine → Server → Option ℕ → ℕ → Answer
resize_shell m s none stream = refuse s (sentinel closed)
resize_shell m s (some t) stream =
    if not (s.term_stream == stream)
    then refuse s (sentinel closed)
    else unless_failed s m.set_window (ok [], s)

unfoldable pub resize_request : Machine → Frame → Server → Answer
resize_request m f s = with_ctx m s (
    decoded s (m.decode_window f.extra)
      (λ (win, stream). with_stream s stream (guarded s (resize_shell m s s.term stream))))

unfoldable pub freeze_request : Machine → Server → Answer
freeze_request m s =
    with_ctx m s ((ok [], stop_poll m (sentinel frozen) (kill_shell (record s { frozen = true }))))

unfoldable pub thaw_request : Machine → Server → Answer
thaw_request m s = with_ctx m s (ok [], record s { frozen = false })

unfoldable pub answer : Machine → Frame → Server → Answer
answer m f s =
    if f.method == codes "replace"
    then replace_request m f s
    else if f.method == codes "apply"
    then apply_request m f s
    else if f.method == codes "open"
    then open_request m f s
    else if f.method == codes "watch"
    then watch_request m f s
    else if f.method == codes "unwatch"
    then unwatch_request m f s
    else if f.method == codes "attach"
    then attach_request m f s
    else if f.method == codes "detach"
    then detach_request m f s
    else if f.method == codes "resize"
    then resize_request m f s
    else if f.method == codes "freeze"
    then freeze_request m s
    else if f.method == codes "thaw"
    then thaw_request m s
    else refuse s (sentinel invalid)

abbrev pub error_of : Result Bytes → Option Error
error_of (ok extra) = none
error_of (err e) = some e

abbrev pub extra_of : Result Bytes → Bytes
extra_of (ok extra) = extra
extra_of (err e) = []

abbrev pub response : Frame → Result Bytes → Frame
response f r = record {
  seq = f.seq;
  kind = kind_response;
  method = f.method;
  grant = [];
  stream = 0;
  status = status_of (error_of r);
  extra = extra_of r;
  deadline = 0;
}

-- server.handle, with reply
unfoldable pub handle : Machine → Frame → Server → Server
handle m f s = let (r, s') = answer m f s in post m (response f r) s'
