-- ===== src/Remote/Conn/Keeps.antt =====
-- What a handler may do to a connection: it changes the host's world and the entries of its own
-- grant. A predicate that these changes keep is kept by every handler.
use execenv.Base.{
  ℕ, ◌≡◌, subst, false, not, Option, none, some, Bytes, insert, delete, lookup, arith, ◌==◌, nat_eq,
  bytes_eq, bytes_beq_iff, if-either,
}
use execenv.Errors.{Result, ok, err}
use execenv.Mux.{Frame}
use execenv.Memory.State.{Ctx, Window}
use execenv.Remote.Conn.{InnerHost, Codec, Conn}
use execenv.Remote.Conn.Handle.{
  Answer, no_extra, stream_or_zero, drop_term, drop_obs, from_result, ensured, attached,
  closed_term, resized, watched, closed_obs, ready_request, ensure_request, revoke_request,
  attach_request, detach_request, resize_request, freeze_request, thaw_request, replace_request,
  apply_request, watch_request, unwatch_request, open_request, answer, close_term_at, close_obs_at,
}
use execenv.Remote.Conn.Rules.{
  decoded-rule, with_stream-rule, with_env-rule, no_extra-rule, answer-rule,
}

pub record Keeps {W : Type 0} (P : Conn W → Type 0) (id : Bytes) : Type 0 where
  pub world : (c : Conn W) (w : W) → P c → P (record c { world = w })
  pub granted : (c : Conn W) (r : ℕ) → P c → P (record c { envs = insert id r c.envs })
  pub revoked : (c : Conn W) → P c → P (record c { envs = delete id c.envs })
  pub term_dropped : (c : Conn W) → P c → P (drop_term id c)
  pub obs_dropped : (c : Conn W) → P c → P (drop_obs id c)
  pub term_held :
      (c : Conn W) (t s : ℕ)
      → c.closed ≡ false
      → (s == 0) ≡ false
      → P c
      → P (record c { terms = insert id t c.terms; term_streams = insert id s c.term_streams })
  pub obs_held :
      (c : Conn W) (o s : ℕ)
      → c.closed ≡ false
      → (s == 0) ≡ false
      → P c
      → P (record c { obs = insert id o c.obs; obs_streams = insert id s c.obs_streams })

module _ {W : Type 0} (P : Conn W → Type 0) (h : InnerHost W) (x : Codec) (ctx : Ctx) (f : Frame)
    (c : Conn W) (p : P c) (k : Keeps P f.grant) where
  abbrev Holds : Answer W → Type 0
  Holds a = P a.1

  on_world : (r : Result (Unit {0}) × W) → P (no_extra c r).1
  on_world r = no_extra-rule P c p r (λ w. k.world c w p)

  result-Holds :
      {A : Type 0} (encode : A → Result Bytes) (r : Result A)
      → Holds (from_result h x ctx f c encode r)
  result-Holds encode (ok a) = p
  result-Holds encode (err e) = p

  ensured-Holds : (r : Result ℕ × W) → Holds (ensured h x ctx f c f.grant r)
  ensured-Holds (err e, w) = k.world c w p
  ensured-Holds (ok r, w) =
      if-either Holds c.closed (λ _. k.world c w p)
        (λ _. k.granted (record c { world = w }) r (k.world c w p))

  ensure-Holds : Holds (ensure_request h x ctx f c)
  unfolding ensure_request
  ensure-Holds = decoded-rule P c p (x.decode_ensure f.extra) _ (λ spec.
      if-either Holds (not (spec.id == f.grant)) (λ _. p)
        (λ same.
          let own : f.grant ≡ spec.id = ground (arith, same, bytes_beq_iff spec.id f.grant) in
          subst (λ (id : Bytes). Holds (ensured h x ctx f c id (h.ensure c.world ctx spec))) own
            (ensured-Holds (h.ensure c.world ctx spec))))

  attached-Holds :
      (stream : ℕ) (r : Result ℕ × W)
      → (stream == 0) ≡ false
      → Holds (attached h x ctx f c stream r)
  attached-Holds stream (err e, w) given = k.world c w p
  attached-Holds stream (ok t, w) given =
      if-either Holds c.closed (λ _. k.world c (h.close_term w t).1 p)
        (λ live. k.term_held (record c { world = w }) t stream live given (k.world c w p))

  attach-Holds : Holds (attach_request h x ctx f c)
  unfolding attach_request
  attach-Holds = decoded-rule P c p (x.decode_attach f.extra) _ (λ (win, stream).
      with_stream-rule P c p stream _ (λ given.
        with_env-rule P c p (lookup f.grant c.envs) _
          (λ r. attached-Holds stream (h.attach c.world ctx r win) given)))

  watched-Holds :
      (stream : ℕ) (r : Result ℕ × W) → (stream == 0) ≡ false → Holds (watched h x ctx f c stream r)
  watched-Holds stream (err e, w) given = k.world c w p
  watched-Holds stream (ok o, w) given =
      if-either Holds c.closed (λ _. k.world c (h.close_obs w o).1 p)
        (λ live. k.obs_held (record c { world = w }) o stream live given (k.world c w p))

  watch-Holds : Holds (watch_request h x ctx f c)
  unfolding watch_request
  watch-Holds = decoded-rule P c p (x.decode_watch f.extra) _ (λ (after, stream).
      with_stream-rule P c p stream _ (λ given.
        with_env-rule P c p (lookup f.grant c.envs) _
          (λ r. watched-Holds stream (h.watch c.world ctx r after) given)))

  closed_term-Holds : (d : Conn W) (o : Option ℕ) → P d → Holds (closed_term h x ctx f c d o)
  closed_term-Holds d none q = q
  closed_term-Holds d (some t) q = no_extra-rule P d q (h.close_term d.world t) (λ w. k.world d w q)

  closed_obs-Holds : (d : Conn W) (o : Option ℕ) → P d → Holds (closed_obs h x ctx f c d o)
  closed_obs-Holds d none q = q
  closed_obs-Holds d (some o) q = no_extra-rule P d q (h.close_obs d.world o) (λ w. k.world d w q)

  detach-Holds : Holds (detach_request h x ctx f c)
  unfolding detach_request
  detach-Holds = decoded-rule P c p (x.decode_stream f.extra) _ (λ stream.
      with_stream-rule P c p stream _ (λ given.
        if-either Holds (stream_or_zero (lookup f.grant c.term_streams) == stream)
          (λ _.
            closed_term-Holds (drop_term f.grant c) (lookup f.grant c.terms) (k.term_dropped c p))
          (λ _. p)))

  unwatch-Holds : Holds (unwatch_request h x ctx f c)
  unfolding unwatch_request
  unwatch-Holds = decoded-rule P c p (x.decode_stream f.extra) _ (λ stream.
      with_stream-rule P c p stream _ (λ given.
        if-either Holds (stream_or_zero (lookup f.grant c.obs_streams) == stream)
          (λ _. closed_obs-Holds (drop_obs f.grant c) (lookup f.grant c.obs) (k.obs_dropped c p))
          (λ _. p)))

  resized-Holds :
      (win : Window) (stream : ℕ) (o : Option ℕ) → Holds (resized h x ctx f c win stream o)
  resized-Holds win stream none = p
  resized-Holds win stream (some t) =
      if-either Holds (not (stream_or_zero (lookup f.grant c.term_streams) == stream)) (λ _. p)
        (λ _. on_world (h.resize c.world ctx t win))

  resize-Holds : Holds (resize_request h x ctx f c)
  unfolding resize_request
  resize-Holds = decoded-rule P c p (x.decode_attach f.extra) _ (λ (win, stream).
      with_stream-rule P c p stream _ (λ given. resized-Holds win stream (lookup f.grant c.terms)))

  revoke-Holds : Holds (revoke_request h x ctx f c)
  unfolding revoke_request
  revoke-Holds =
      let w =
        close_obs_at h (lookup f.grant c.obs) (close_term_at h (lookup f.grant c.terms) c.world) in
      let c1 : Conn W = record c { world = w } in
      let c2 : Conn W = record c1 { envs = delete f.grant c1.envs } in
      let p2 = k.revoked c1 (k.world c w p) in
      let c3 = drop_term f.grant c2 in
      let p3 = k.term_dropped c2 p2 in
      let p4 = k.obs_dropped c3 p3 in
      no_extra-rule P (drop_obs f.grant c3) p4 (h.revoke w ctx f.grant) (λ v. k.world _ v p4)

  -- Every handler keeps it.
  pub answer-Holds : P (answer h x ctx f c).1
  unfolding ready_request freeze_request thaw_request replace_request apply_request open_request
  answer-Holds =
      answer-rule Holds h x ctx f c (λ _. result-Holds x.encode_report (h.ready c.world ctx))
        (λ _. ensure-Holds) (λ _. revoke-Holds) (λ _. attach-Holds) (λ _. detach-Holds)
        (λ _. resize-Holds)
        (λ _.
          with_env-rule P c p (lookup f.grant c.envs) _ (λ r. on_world (h.freeze c.world ctx r)))
        (λ _. with_env-rule P c p (lookup f.grant c.envs) _ (λ r. on_world (h.thaw c.world ctx r)))
        (λ _. decoded-rule P c p (x.decode_replace f.extra) _ (λ tree.
          with_env-rule P c p (lookup f.grant c.envs) _
            (λ r. on_world (h.replace_tree c.world ctx r tree))))
        (λ _. decoded-rule P c p (x.decode_apply f.extra) _ (λ batch.
          with_env-rule P c p (lookup f.grant c.envs) _
            (λ r. on_world (h.apply c.world ctx r batch))))
        (λ _. watch-Holds) (λ _. unwatch-Holds)
        (λ _. decoded-rule P c p (x.decode_open f.extra) _ (λ path.
          with_env-rule P c p (lookup f.grant c.envs) _
            (λ r. result-Holds _ (h.open_file c.world ctx r path))))
        p
