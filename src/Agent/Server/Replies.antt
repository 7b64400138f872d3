-- ===== src/Agent/Server/Replies.antt =====
-- What a request's handling sends to the host.
use execenv.Base.{
  ℕ, ◌≡◌, refl, ◌∙◌, ap, true, not, Option, none, some, List, [], ◌∷◌, ◌++◌, append_assoc, arith,
  All, ◌==◌, nat_eq, bytes_eq, if-either, Option-cases,
}
use execenv.Errors.{Error, sentinel, frozen, busy, lagged}
use execenv.Paths.{validate_path}
use execenv.Snapshot.{replace, apply}
use execenv.Mux.{Frame, kind_response}
use execenv.Watchlog.{since}
use execenv.Agent.Server.{Server, Machine, post, reset_snap, is_done}
use execenv.Agent.Server.Handle.{
  replace_request, apply_request, open_request, send_replay, watched, watch_request,
  unwatch_request, started, attach_request, detach_request, resize_request, freeze_request,
  thaw_request, answer, response, handle,
}
use execenv.Agent.Server.Rules.{
  with_ctx-rule, guarded-rule, unless_failed-rule, decoded-rule, with_stream-rule, checked-rule,
  if-rule, answer-rule,
}
use execenv.Agent.Server.Sending.{
  IsWatch, Watches, quiet, invalidate_watch-Watches, stop_poll-Watches, kill_shell-sent,
  send_replay-Watches, replayed-Watches,
}

module _ (m : Machine) (f : Frame) (s : Server) where
  abbrev P : Server → Type 0
  P = Watches s

  unchanged : P s
  unchanged = quiet s s refl

  replace-Watches : P (replace_request m f s).1
  unfolding replace_request reset_snap
  replace-Watches = with_ctx-rule P m s unchanged _ (
      decoded-rule P m s unchanged (m.decode_replace f.extra) _ (λ tree.
        guarded-rule P m s unchanged _ (λ live.
          checked-rule P m s unchanged (replace s.projected tree) _ (λ next.
            unless_failed-rule P m s unchanged (m.rewrite_home next) _ (
              let w =
                invalidate_watch-Watches m (sentinel lagged) s (record s { projected = next })
                  (quiet s _ refl) in
              record { frames = w.frames; on_watch = w.on_watch; sent = w.sent })))))

  apply-Watches : P (apply_request m f s).1
  unfolding apply_request reset_snap
  apply-Watches = with_ctx-rule P m s unchanged _ (
      decoded-rule P m s unchanged (m.decode_apply f.extra) _ (λ batch.
        guarded-rule P m s unchanged _ (λ live.
          checked-rule P m s unchanged (apply s.projected batch) _
            (λ next. unless_failed-rule P m s unchanged (m.apply_home batch) _ (quiet s _ refl)))))

  open-Watches : P (open_request m f s).1
  unfolding open_request
  open-Watches = with_ctx-rule P m s unchanged _ (
      decoded-rule P m s unchanged (m.decode_open f.extra) _ (λ path.
        checked-rule P m s unchanged (validate_path path) _ (λ done.
          guarded-rule P m s unchanged _
            (λ live. checked-rule P m s unchanged (m.open_home path) _ (λ body. unchanged)))))

  watched-sent : (stream : ℕ) → (watched m stream s).sent ≡ s.sent
  unfolding reset_snap
  watched-sent stream = ground arith

  watch-Watches : P (watch_request m f s).1
  unfolding watch_request
  watch-Watches = with_ctx-rule P m s unchanged _ (
      decoded-rule P m s unchanged (m.decode_watch f.extra) _ (λ (after, stream).
        with_stream-rule P m s unchanged stream _ (λ given. guarded-rule P m s unchanged _ (λ live.
          if-rule P m s unchanged s.watching (sentinel busy) _ (λ idle.
            checked-rule P m s unchanged (since s.log after) _ (λ (cursor, replay).
              let r = send_replay m stream replay (watched m stream s) in
              replayed-Watches m cursor r.0 s r.1
                (send_replay-Watches m stream replay s _ (quiet s _ (watched-sent stream)))))))))

  unwatch-Watches : P (unwatch_request m f s).1
  unfolding unwatch_request
  unwatch-Watches = decoded-rule P m s unchanged (m.decode_stream f.extra) _ (λ stream.
      with_stream-rule P m s unchanged stream _
        (λ given. if-either P (s.watch_stream == stream) (λ _. quiet s _ refl) (λ _. unchanged)))

  started-Watches : (stream : ℕ) (o : Option Error) → P (started stream s o).1
  started-Watches stream none = quiet s _ refl
  started-Watches stream (some e) = unchanged

  attach-Watches : P (attach_request m f s).1
  unfolding attach_request
  attach-Watches = with_ctx-rule P m s unchanged _ (
      decoded-rule P m s unchanged (m.decode_window f.extra) _ (λ (win, stream).
        with_stream-rule P m s unchanged stream _ (λ given. guarded-rule P m s unchanged _ (λ live.
          if-rule P m s unchanged (not (is_done s)) (sentinel busy) _
            (λ free. started-Watches stream m.start_shell)))))

  detach-Watches : P (detach_request m f s).1
  unfolding detach_request
  detach-Watches = decoded-rule P m s unchanged (m.decode_stream f.extra) _ (λ stream.
      with_stream-rule P m s unchanged stream _ (λ given.
        if-either P (s.term_stream == stream) (λ _. quiet s _ (kill_shell-sent s))
          (λ _. unchanged)))

  resize-Watches : P (resize_request m f s).1
  unfolding resize_request
  resize-Watches = with_ctx-rule P m s unchanged _ (
      decoded-rule P m s unchanged (m.decode_window f.extra) _ (λ (win, stream).
        with_stream-rule P m s unchanged stream _ (λ given.
          guarded-rule P m s unchanged _
            (λ live. quiet s _ (ground (arith, Option-cases s.term))))))

  freeze-Watches : P (freeze_request m s).1
  unfolding freeze_request
  freeze-Watches = with_ctx-rule P m s unchanged _ (
      stop_poll-Watches m (sentinel frozen) s _
        (quiet s _ (kill_shell-sent (record s { frozen = true }))))

  thaw-Watches : P (thaw_request m s).1
  unfolding thaw_request
  thaw-Watches = with_ctx-rule P m s unchanged _ (quiet s _ refl)

  answer-Watches : P (answer m f s).1
  answer-Watches =
      answer-rule (λ a. P a.1) m f s (λ _. replace-Watches) (λ _. apply-Watches) (λ _. open-Watches)
        (λ _. watch-Watches) (λ _. unwatch-Watches) (λ _. attach-Watches) (λ _. detach-Watches)
        (λ _. resize-Watches) (λ _. freeze-Watches) (λ _. thaw-Watches) unchanged

posted :
    (m : Machine) (f : Frame) (s : Server) → m.send f ≡ none → (post m f s).sent ≡ s.sent ++ f ∷ []
unfolding post
posted m f s gone_out = ground (arith, gone_out)

-- From s to s' the request was answered, once and last.
pub record Replied (f : Frame) (s s' : Server) : Type 0 where
  pub before : List Frame
  pub reply : Frame
  pub on_watch : All IsWatch before
  pub sent : s'.sent ≡ s.sent ++ (before ++ reply ∷ [])
  pub same_seq : reply.seq ≡ f.seq
  pub same_method : reply.method ≡ f.method
  pub is_response : reply.kind ≡ kind_response

-- Every request, of any method known or not, in any state, refused or not: when the session can
-- send its response, the request is answered by exactly one response, with the request's sequence
-- number and method; before it go only frames of the observation.
pub handle-Replied :
    (m : Machine) (f : Frame) (s : Server)
    → m.send (response f (answer m f s).0) ≡ none
    → Replied f s (handle m f s)
unfolding handle
handle-Replied m f s gone_out =
    let w = answer-Watches m f s in
    let reply = response f (answer m f s).0 in
    record {
      before = w.frames;
      reply = reply;
      on_watch = w.on_watch;
      sent =
          posted m reply (answer m f s).1 gone_out
          ∙ ap (λ sent. sent ++ reply ∷ []) w.sent
          ∙ append_assoc s.sent w.frames (reply ∷ []);
      same_seq = refl;
      same_method = refl;
      is_response = refl;
    }
