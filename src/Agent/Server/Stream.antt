-- ===== src/Agent/Server/Stream.antt =====
-- What an observer of the home directory gets from a poll.
use execenv.Base.{ℕ, ◌≡◌, true, none, List, ◌++◌, map, Bytes}
use execenv.Errors.{ok}
use execenv.Paths.{Event}
use execenv.Watchlog.Replay.{append_all}
use execenv.Mux.{Frame, kind_watch}
use execenv.Agent.{Scan}
use execenv.Agent.Server.{Server, Machine, data_frame}

module _ (m : Machine) (encode : Event → Bytes) where
  -- Every frame can be sent, and every event has an encoding.
  abbrev Works : Type 0
  Works = ((e : Event) → m.encode_event e ≡ ok (encode e)) × ((f : Frame) → m.send f ≡ none)

  abbrev pub event_frame : ℕ → Event → Frame
  event_frame stream e = data_frame kind_watch stream (encode e)

  -- The server after a poll that an observer was sent.
  pub record Streams (s s' : Server) (next : Scan) (es : List Event) : Type 0 where
    pub snap : s'.snap ≡ next
    pub log : s'.log ≡ (append_all es s.log).1
    pub sent : s'.sent ≡ s.sent ++ map (event_frame s.watch_stream) (append_all es s.log).0
    pub watching : s'.watching ≡ true
