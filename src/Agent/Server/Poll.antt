-- ===== src/Agent/Server/Poll.antt =====
-- agent/watch.go, diffOnce: one poll of the home directory.
use execenv.Base.{ℕ, Bool, true, false, none, some, List, [], ◌∷◌, ◌++◌, length, ltb, if◌then◌else◌}
use execenv.Errors.{sentinel, ok, err, closed, lagged, unavailable}
use execenv.Paths.{Event}
use execenv.Watchlog.{reset, append, default_capacity}
use execenv.Mux.{kind_watch}
use execenv.Agent.{Scan, diff_snap}
use execenv.Agent.Server.{Server, Machine, data_frame, stop_poll, invalidate_watch}

abbrev pub watch_buffer : ℕ
watch_buffer = default_capacity

-- One event's sending, where it is watched; true when the loop goes on.
abbrev pub send_event : Machine → Event → Server → Bool × Server
send_event m ev s =
    if s.watching
    then elim (m.encode_event ev) [
      | err e ↦ (false, stop_poll m (sentinel unavailable) s)
      | ok raw ↦ elim (m.send (data_frame kind_watch s.watch_stream raw)) [
        | some e ↦ (false, stop_poll m (sentinel closed) s)
        | none ↦ (true, record s { sent = s.sent ++ data_frame kind_watch s.watch_stream raw ∷ [] })
      ]
    ]
    else (true, s)

-- The loop over the events, and `s.snap = next` after it.
unfoldable pub diff_loop : Machine → Scan → List Event → Server → Server
diff_loop m next [] s = record s { snap = next }
diff_loop m next (ev ∷ rest) s =
    let (stored, log) = append ev s.log in
    let (goes_on, s') = send_event m stored (record s { log = log }) in
    let after = diff_loop m next rest s' in if goes_on then after else s'

abbrev pub polled : Machine → Server → List Event → Server
polled m s events =
    if ltb watch_buffer (length events)
    then record (invalidate_watch m (sentinel lagged) s) {
      log = reset m.epoch (invalidate_watch m (sentinel lagged) s).log;
      snap = m.scan;
    }
    else diff_loop m m.scan events s

unfoldable pub diff_once : Machine → Server → Server
diff_once m s = if s.polling then polled m s (diff_snap s.snap m.scan) else s
