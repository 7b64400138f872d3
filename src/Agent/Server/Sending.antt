-- ===== src/Agent/Server/Sending.antt =====
-- What the parts of a handler send to the host: frames of the observation only.
use execenv.Base.{
  ℕ, ◌≡◌, refl, sym, ◌∙◌, ap, false, Option, none, some, List, [], ◌∷◌, ◌++◌, append_assoc,
  append-nil, Bytes, arith, All, nat_eq, bytes_eq, if-either, Option-cases, inl, inr,
}
use execenv.Errors.{Error, Result-cases}
use execenv.Paths.{Event}
use execenv.Mux.{Frame, kind_watch}
use execenv.Agent.Server.{
  Server, Machine, data_frame, post, stop_poll, invalidate_watch, kill_shell,
}
use execenv.Agent.Server.Handle.{send_replay, replayed}

abbrev pub IsWatch : Frame → Type 0
IsWatch f = f.kind ≡ kind_watch

-- From s to s' only frames of the observation were sent.
pub record Watches (s s' : Server) : Type 0 where
  pub frames : List Frame
  pub on_watch : All IsWatch frames
  pub sent : s'.sent ≡ s.sent ++ frames

pub quiet : (s s' : Server) → s'.sent ≡ s.sent → Watches s s'
quiet s s' e = record { frames = []; on_watch = tt; sent = e ∙ sym (append-nil s.sent) }

pub more :
    (s s' s'' : Server) (f : Frame)
    → Watches s s'
    → IsWatch f
    → s''.sent ≡ s'.sent ++ f ∷ []
    → Watches s s''
more s s' s'' f w k e = record {
  frames = w.frames ++ f ∷ [];
  on_watch = both w.frames w.on_watch;
  sent = e ∙ ap (λ sent. sent ++ f ∷ []) w.sent ∙ append_assoc s.sent w.frames (f ∷ []);
}
  where
    both : (fs : List Frame) → All IsWatch fs → All IsWatch (fs ++ f ∷ [])
    both [] all = (k, tt)
    both (g ∷ gs) (h, all) = (h, both gs all)

pub post-Watches :
    (m : Machine) (f : Frame) (s s' : Server) → IsWatch f → Watches s s' → Watches s (post m f s')
unfolding post
post-Watches m f s s' k w = elim (Option-cases (m.send f)) [
  | inl gone_out ↦ rw (gone_out, post) (more s s' _ f w k refl)
  | inr (e, failed) ↦ rw (failed, post) w
]

pub invalidate_watch-Watches :
    (m : Machine) (e : Error) (s s' : Server) → Watches s s' → Watches s (invalidate_watch m e s')
unfolding invalidate_watch
invalidate_watch-Watches m e s s' w =
    if-either (Watches s) s'.watching
      (λ _.
        post-Watches m _ s _ refl
          (record { frames = w.frames; on_watch = w.on_watch; sent = w.sent }))
      (λ _. w)

pub stop_poll-Watches :
    (m : Machine) (e : Error) (s s' : Server) → Watches s s' → Watches s (stop_poll m e s')
unfolding stop_poll
stop_poll-Watches m e s s' w =
    let stopped : Server = record s' {
      watching = false;
      watch_stream = 0;
      watch_err = some e;
      polling = false;
    } in
    let w' : Watches s stopped = record {
      frames = w.frames;
      on_watch = w.on_watch;
      sent = w.sent;
    } in
    if-either (Watches s) s'.watching (λ _. post-Watches m _ s stopped refl w') (λ _. w')

pub kill_shell-sent : (s : Server) → (kill_shell s).sent ≡ s.sent
unfolding kill_shell
kill_shell-sent s = ground (arith, Option-cases s.term)

pub send_replay-Watches :
    (m : Machine) (stream : ℕ) (es : List Event) (s s' : Server)
    → Watches s s'
    → Watches s (send_replay m stream es s').1
unfolding send_replay
send_replay-Watches m stream [] s s' w = w
send_replay-Watches m stream (e ∷ es) s s' w =
    let w' : Watches s (record s' { watching = false }) = record {
      frames = w.frames;
      on_watch = w.on_watch;
      sent = w.sent;
    } in
    elim (Result-cases (m.encode_event e)) [
      | inr (x, failed) ↦ rw (failed, send_replay) w'
      | inl (raw, made) ↦ elim (Option-cases (m.send (data_frame kind_watch stream raw))) [
        | inr (x, failed) ↦ rw (made, send_replay) (rw failed w')
        | inl gone_out ↦
            rw (made, send_replay)
              (rw gone_out (
                send_replay-Watches m stream es s _
                  (more s s' _ (data_frame kind_watch stream raw) w refl refl)))
      ]
    ]

pub replayed-Watches :
    (m : Machine) (cursor : Bytes) (o : Option Error) (s s' : Server)
    → Watches s s'
    → Watches s (replayed m cursor (o, s')).1
replayed-Watches m cursor none s s' w = w
replayed-Watches m cursor (some e) s s' w = w
