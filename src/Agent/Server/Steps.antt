-- ===== src/Agent/Server/Steps.antt =====
-- agent/server.go: the goroutines of a session. Serve's loop handles one frame after another, each
-- shell has its copyPty, and a ticker polls; a step is what one of them does under the lock, with
-- the frames that it sends.
use execenv.Base.{
  ℕ, Bool, true, false, not, ◌||◌, ◌&&◌, Option, none, some, List, [], ◌∷◌, Bytes, ltb, ◌==◌,
  nat_eq, bytes_eq, if◌then◌else◌,
}
use execenv.Errors.{Error, sentinel, other, op_error, frozen, eof, is}
use execenv.Errors.Status.{status_of}
use execenv.Memory.State.{store}
use execenv.Mux.{Frame, kind_pty}
use execenv.Agent.Server.{Server, Machine, data_frame, status_frame, post}
use execenv.Agent.Server.Poll.{diff_once}
use execenv.Agent.Server.Handle.{handle}

abbrev pub is_term : Option ℕ → ℕ → Bool
is_term o t = elim o [ none ↦ false | some u ↦ u == t ]

-- err == io.EOF compares the values, without errors.Is; hung_up is isPtyHangup(err).
abbrev pub is_eof : Error → Bool
is_eof e = elim e [
  | sentinel x ↦ is (sentinel x) eof
  | other msg ↦ false
  | op_error op inner ↦ false
]

unfoldable pub pty_end_status : Bool → Bool → Option Error → Bytes
pty_end_status frozen_now hung_up o =
    if frozen_now
    then status_of (some (sentinel frozen))
    else elim o [ none ↦ [] | some e ↦ if is_eof e || hung_up then [] else status_of (some e) ]

-- copyPty's loop for what Read returned
abbrev pub pty_read : Machine → ℕ → Bytes → Server → Server
pty_read m t bytes s =
    if bytes == [] then s else post m (data_frame kind_pty (s.shells.cell t).stream bytes) s

-- The end of the loop, at an error
abbrev pub pty_end : Machine → ℕ → Bool → Error → Server → Server
pty_end m t hung_up e s =
    let ended : Server = record s {
      shells = store s.shells t (record (s.shells.cell t) { copying = false });
    } in
    post m
      (status_frame kind_pty (s.shells.cell t).stream (pty_end_status s.frozen hung_up (some e)))
      (if is_term s.term t then record ended { term = none; term_stream = 0 } else ended)

-- The shell that the octets of a frame are written to, if any
unfoldable pub write_pty : Frame → Server → Option ℕ
write_pty f s = elim s.term [
  | none ↦ none
  | some t ↦ if s.frozen || not (s.term_stream == f.stream) then none else some t
]

pub data Step : Type 0 where
  request : Frame → Step
  polls : Step
  reads : ℕ → Bytes → Step
  ends : ℕ → Bool → Error → Step
  exits : ℕ → Step

abbrev pub is_copying : Server → ℕ → Bool
is_copying s t = ltb t s.shells.next && (s.shells.cell t).copying

unfoldable pub step : Machine → Server → Step → Server
step m s (request f) = handle m f s
step m s polls = diff_once m s
step m s (reads t bytes) = if is_copying s t then pty_read m t bytes s else s
step m s (ends t hung_up e) = if is_copying s t then pty_end m t hung_up e s else s
step m s (exits t) = record s {
  shells = store s.shells t (record (s.shells.cell t) { exited = true });
}

-- The machine may answer otherwise at each step.
unfoldable pub run : Server → List (Machine × Step) → Server
run s [] = s
run s ((m, x) ∷ rest) = run (step m s x) rest
