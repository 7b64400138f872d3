-- ===== src/Agent/Server/Requests.antt =====
-- Every request and every poll keeps the agent's session well formed.
use execenv.Base.{
  ℕ, ◌≡◌, ◌∙◌, Bool, true, false, not, Option, none, some, List, [], ◌∷◌, Bytes, length, arith, ltb,
  ◌==◌, nat_eq, bytes_eq, if-either, Option-cases, inl, inr,
}
use execenv.Errors.{Error, sentinel, Result-cases, frozen, closed, lagged, unavailable, busy}
use execenv.Paths.{Event, validate_path}
use execenv.Snapshot.{Snapshot, replace, apply}
use execenv.Mux.{Frame, kind_watch}
use execenv.Watchlog.{Log, append, since, reset}
use execenv.Agent.{Scan, diff_snap}
use execenv.Agent.Server.{
  Server, Machine, data_frame, post, reset_snap, stop_poll, invalidate_watch, kill_shell, is_done,
}
use execenv.Agent.Server.Poll.{watch_buffer, send_event, diff_loop, diff_once}
use execenv.Agent.Server.Handle.{
  replace_request, apply_request, open_request, send_replay, watched, replayed, watch_request,
  unwatch_request, started, attach_request, detach_request, resize_request, freeze_request,
  thaw_request, answer, response, handle,
}
use execenv.Agent.Server.Rules.{
  with_ctx-rule, guarded-rule, unless_failed-rule, decoded-rule, with_stream-rule, checked-rule,
  if-rule, answer-rule,
}
use execenv.Agent.Server.Frozen.{
  Inv, post-Inv, unwatched-Inv, invalidate_watch-Inv, stop_poll-Inv, kill_shell-Inv, watched-Inv,
  attached-Inv,
}

-- A change of what the invariant does not speak of
rest-Inv :
    (s : Server) (projected : Snapshot) (snap : Scan) (log : Log) (sent : List Frame)
    → Inv s
    → Inv (record s { projected = projected; snap = snap; log = log; sent = sent })
rest-Inv s projected snap log sent i = record {
  still = i.still;
  polled = i.polled;
  held = i.held;
  usable = i.usable;
}

send_replay-Inv :
    (m : Machine) (stream : ℕ) (es : List Event) (s : Server)
    → Inv s
    → Inv (send_replay m stream es s).1
unfolding send_replay
send_replay-Inv m stream [] s i = i
send_replay-Inv m stream (e ∷ es) s i = elim (Result-cases (m.encode_event e)) [
  | inr (x, failed) ↦ rw (failed, send_replay) (unwatched-Inv s i s.watch_stream s.watch_err)
  | inl (raw, made) ↦ elim (Option-cases (m.send (data_frame kind_watch stream raw))) [
    | inr (x, failed) ↦
        rw (made, send_replay) (rw failed (unwatched-Inv s i s.watch_stream s.watch_err))
    | inl gone_out ↦
        rw (made, send_replay)
          (rw gone_out (send_replay-Inv m stream es _ (rest-Inv s s.projected s.snap s.log _ i)))
  ]
]

replayed-Inv :
    (m : Machine) (cursor : Bytes) (o : Option Error) (s : Server)
    → Inv s
    → Inv (replayed m cursor (o, s)).1
replayed-Inv m cursor none s i = i
replayed-Inv m cursor (some e) s i = i

send_event-Inv : (m : Machine) (e : Event) (s : Server) → Inv s → Inv (send_event m e s).1
send_event-Inv m e s i =
    if-either (λ (r : Bool × Server). Inv r.1) s.watching
      (λ _. elim (Result-cases (m.encode_event e)) [
        | inr (x, failed) ↦ rw failed (stop_poll-Inv s i m (sentinel unavailable))
        | inl (raw, made) ↦
            elim (Option-cases (m.send (data_frame kind_watch s.watch_stream raw))) [
              | inr (x, failed) ↦ rw made (rw failed (stop_poll-Inv s i m (sentinel closed)))
              | inl gone_out ↦ rw made (rw gone_out (rest-Inv s s.projected s.snap s.log _ i))
            ]
      ])
      (λ _. i)

diff_loop-Inv :
    (m : Machine) (next : Scan) (es : List Event) (s : Server) → Inv s → Inv (diff_loop m next es s)
unfolding diff_loop
diff_loop-Inv m next [] s i = rest-Inv s s.projected next s.log s.sent i
diff_loop-Inv m next (e ∷ es) s i =
    let log = (append e s.log).1 in
    let r = send_event m (append e s.log).0 (record s { log = log }) in
    let i' = send_event-Inv m (append e s.log).0 _ (rest-Inv s s.projected s.snap log s.sent i) in
    if-either Inv r.0 (λ _. diff_loop-Inv m next es r.1 i') (λ _. i')

-- Freeze, with the flag set last
freeze-last :
    (m : Machine) (e : Error) (s : Server)
    → stop_poll m e (kill_shell (record s { frozen = true }))
      ≡ record (stop_poll m e (kill_shell s)) { frozen = true }
unfolding stop_poll kill_shell post
freeze-last m e s = ground (arith, Option-cases s.term)

stop_poll-still :
    (m : Machine) (e : Error) (s : Server)
    → ((stop_poll m e s).term ≡ s.term)
      × ((stop_poll m e s).watching ≡ false)
      × ((stop_poll m e s).polling ≡ false)
unfolding stop_poll post
stop_poll-still m e s = ground arith

kill_shell-none : (s : Server) → (kill_shell s).term ≡ none
unfolding kill_shell
kill_shell-none s = ground (arith, Option-cases s.term)

module _ (m : Machine) (s : Server) (i : Inv s) where
  pub diff_once-Inv : Inv (diff_once m s)
  unfolding diff_once
  diff_once-Inv =
      if-either Inv s.polling
        (λ _.
          if-either Inv (ltb watch_buffer (length (diff_snap s.snap m.scan)))
            (λ _.
              let s' = invalidate_watch m (sentinel lagged) s in
              rest-Inv s' s'.projected m.scan (reset m.epoch s'.log) s'.sent
                (invalidate_watch-Inv s i m (sentinel lagged)))
            (λ _. diff_loop-Inv m m.scan (diff_snap s.snap m.scan) s i))
        (λ _. i)

  started-Inv :
      (stream : ℕ)
      → s.frozen ≡ false
      → (stream == 0) ≡ false
      → is_done s ≡ true
      → (o : Option Error) → Inv (started stream s o).1
  started-Inv stream live given free none = attached-Inv s i stream live given free
  started-Inv stream live given free (some e) = i

  module _ (f : Frame) where
    replace-Inv : Inv (replace_request m f s).1
    unfolding replace_request reset_snap
    replace-Inv = with_ctx-rule Inv m s i _ (
        decoded-rule Inv m s i (m.decode_replace f.extra) _ (λ tree.
          guarded-rule Inv m s i _ (λ live.
            checked-rule Inv m s i (replace s.projected tree) _ (λ next.
              unless_failed-rule Inv m s i (m.rewrite_home next) _ (
                rest-Inv _ _ m.scan _ _ (
                  invalidate_watch-Inv (record s { projected = next })
                    (rest-Inv s next s.snap s.log s.sent i) m (sentinel lagged)))))))

    apply-Inv : Inv (apply_request m f s).1
    unfolding apply_request reset_snap
    apply-Inv = with_ctx-rule Inv m s i _ (
        decoded-rule Inv m s i (m.decode_apply f.extra) _ (λ batch.
          guarded-rule Inv m s i _ (λ live.
            checked-rule Inv m s i (apply s.projected batch) _ (λ next.
              unless_failed-rule Inv m s i (m.apply_home batch) _
                (rest-Inv s next m.scan s.log s.sent i)))))

    open-Inv : Inv (open_request m f s).1
    unfolding open_request
    open-Inv = with_ctx-rule Inv m s i _ (
        decoded-rule Inv m s i (m.decode_open f.extra) _ (λ path.
          checked-rule Inv m s i (validate_path path) _ (λ done.
            guarded-rule Inv m s i _
              (λ live. checked-rule Inv m s i (m.open_home path) _ (λ body. i)))))

    watch-Inv : Inv (watch_request m f s).1
    unfolding watch_request
    watch-Inv = with_ctx-rule Inv m s i _ (
        decoded-rule Inv m s i (m.decode_watch f.extra) _ (λ (after, stream).
          with_stream-rule Inv m s i stream _ (λ given. guarded-rule Inv m s i _ (λ live.
            if-rule Inv m s i s.watching (sentinel busy) _ (λ idle.
              checked-rule Inv m s i (since s.log after) _ (λ (cursor, replay).
                let r = send_replay m stream replay (watched m stream s) in
                replayed-Inv m cursor r.0 r.1
                  (send_replay-Inv m stream replay _ (watched-Inv s i m stream live given))))))))

    unwatch-Inv : Inv (unwatch_request m f s).1
    unfolding unwatch_request
    unwatch-Inv = decoded-rule Inv m s i (m.decode_stream f.extra) _ (λ stream.
        with_stream-rule Inv m s i stream _
          (λ given. if-either Inv (s.watch_stream == stream) (λ _. unwatched-Inv s i 0 _) (λ _. i)))

    attach-Inv : Inv (attach_request m f s).1
    unfolding attach_request
    attach-Inv = with_ctx-rule Inv m s i _ (
        decoded-rule Inv m s i (m.decode_window f.extra) _ (λ (win, stream).
          with_stream-rule Inv m s i stream _ (λ given. guarded-rule Inv m s i _ (λ live.
            if-rule Inv m s i (not (is_done s)) (sentinel busy) _
              (λ free. started-Inv stream live given (ground (arith, free)) m.start_shell)))))

    detach-Inv : Inv (detach_request m f s).1
    unfolding detach_request
    detach-Inv = decoded-rule Inv m s i (m.decode_stream f.extra) _ (λ stream.
        with_stream-rule Inv m s i stream _
          (λ given. if-either Inv (s.term_stream == stream) (λ _. kill_shell-Inv s i) (λ _. i)))

    resize-Inv : Inv (resize_request m f s).1
    unfolding resize_request
    resize-Inv = with_ctx-rule Inv m s i _ (
        decoded-rule Inv m s i (m.decode_window f.extra) _ (λ (win, stream).
          with_stream-rule Inv m s i stream _
            (λ given. guarded-rule Inv m s i _ (λ live. ground (arith, i, Option-cases s.term)))))

    freeze-Inv : Inv (freeze_request m s).1
    unfolding freeze_request
    freeze-Inv =
        let ended = stop_poll-Inv (kill_shell s) (kill_shell-Inv s i) m (sentinel frozen) in
        let (same_term, unwatched, unpolled) = stop_poll-still m (sentinel frozen) (kill_shell s) in
        with_ctx-rule Inv m s i _ (
          rw (freeze-last m (sentinel frozen) s) (record {
            still = λ g. (same_term ∙ kill_shell-none s, unwatched, unpolled);
            polled = ended.polled;
            held = ended.held;
            usable = ended.usable;
          }))

    thaw-Inv : Inv (thaw_request m s).1
    unfolding thaw_request
    thaw-Inv = with_ctx-rule Inv m s i _ (record {
      still = λ g. ground (arith, g);
      polled = i.polled;
      held = i.held;
      usable = i.usable;
    })

    answer-Inv : Inv (answer m f s).1
    answer-Inv =
        answer-rule (λ a. Inv a.1) m f s (λ _. replace-Inv) (λ _. apply-Inv) (λ _. open-Inv)
          (λ _. watch-Inv) (λ _. unwatch-Inv) (λ _. attach-Inv) (λ _. detach-Inv) (λ _. resize-Inv)
          (λ _. freeze-Inv) (λ _. thaw-Inv) i

    pub handle-Inv : Inv (handle m f s)
    unfolding handle
    handle-Inv = post-Inv m (response f (answer m f s).0) (answer m f s).1 answer-Inv
