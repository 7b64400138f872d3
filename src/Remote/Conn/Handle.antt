-- ===== src/Remote/Conn/Handle.antt =====
-- remote/server.go: the handlers of a connection, its copies of terminals and observations, and its
-- end. The context that a handler gives to the host is `ctx`.
use execenv.Base.{
  ℕ, ◌+◌, Bool, false, not, ◌&&◌, Option, none, some, [], ◌∷◌, ◌++◌, Bytes, codes, length, take,
  lookup, insert, delete, ltb, ◌==◌, nat_eq, bytes_eq, if◌then◌else◌,
}
use execenv.Errors.{
  Error, sentinel, Result, ok, err, invalid, revoked, closed, connection, too_large,
}
use execenv.Errors.Status.{status_of}
use execenv.Paths.{max_file_bytes}
use execenv.Mux.{Frame, kind_response}
use execenv.Memory.State.{Window, Ctx}
use execenv.Remote.Conn.{InnerHost, Codec, Conn}

-- The deadline of a request: the connection's own, or the frame's where that is earlier and positive
-- as an int64.
unfoldable pub operation_deadline : ℕ → ℕ → ℕ → ℕ
operation_deadline now timeout requested =
    if not (requested == 0) && ltb requested 9223372036854775808 && ltb requested (now + timeout)
    then requested
    else now + timeout

-- The value of a Go map at a key that it may not have: the zero value
abbrev pub stream_or_zero : Option ℕ → ℕ
stream_or_zero none = 0
stream_or_zero (some s) = s

abbrev pub is_at : ℕ → Option ℕ → Bool
is_at t none = false
is_at t (some u) = u == t

-- A handler's (extra, error), and the connection after it
abbrev pub Answer : Type 0 → Type 0
Answer W = Result Bytes × Conn W

module _ {W : Type 0} where
  abbrev pub refuse : Conn W → Error → Answer W
  refuse c e = (err e, c)

  -- A handler that has an error only
  abbrev pub no_extra : Conn W → Result (Unit {0}) × W → Answer W
  no_extra c (ok done, w) = (ok [], record c { world = w })
  no_extra c (err e, w) = (err e, record c { world = w })

  abbrev pub decoded : {A : Type 0} → Conn W → Option A → (A → Answer W) → Answer W
  decoded c none k = refuse c (sentinel invalid)
  decoded c (some args) k = k args

  abbrev pub with_stream : Conn W → ℕ → Answer W → Answer W
  with_stream c stream k = if stream == 0 then refuse c (sentinel invalid) else k

  -- serverConn.env
  abbrev pub with_env : Conn W → Option ℕ → (ℕ → Answer W) → Answer W
  with_env c none k = refuse c (sentinel revoked)
  with_env c (some r) k = k r

  -- Both tables of a grant's terminal, and of its observation
  abbrev pub drop_term : Bytes → Conn W → Conn W
  drop_term id c = record c { terms = delete id c.terms; term_streams = delete id c.term_streams }

  abbrev pub drop_obs : Bytes → Conn W → Conn W
  drop_obs id c = record c { obs = delete id c.obs; obs_streams = delete id c.obs_streams }

  module _ (h : InnerHost W) where
    abbrev pub close_term_at : Option ℕ → W → W
    close_term_at none w = w
    close_term_at (some t) w = (h.close_term w t).1

    abbrev pub close_obs_at : Option ℕ → W → W
    close_obs_at none w = w
    close_obs_at (some o) w = (h.close_obs w o).1

    module _ (x : Codec) (ctx : Ctx) (f : Frame) (c : Conn W) where
      abbrev pub from_result : {A : Type 0} → (A → Result Bytes) → Result A → Answer W
      from_result encode (err e) = refuse c e
      from_result encode (ok a) = (encode a, c)

      unfoldable pub ready_request : Answer W
      ready_request = from_result x.encode_report (h.ready c.world ctx)

      abbrev pub ensured : Bytes → Result ℕ × W → Answer W
      ensured id (err e, w) = (err e, record c { world = w })
      ensured id (ok r, w) =
          if c.closed
          then (err (sentinel connection), record c { world = w })
          else (ok [], record c { world = w; envs = insert id r c.envs })

      unfoldable pub ensure_request : Answer W
      ensure_request = decoded c (x.decode_ensure f.extra) (λ spec.
          if not (spec.id == f.grant)
          then refuse c (sentinel invalid)
          else ensured spec.id (h.ensure c.world ctx spec))

      unfoldable pub revoke_request : Answer W
      revoke_request =
          let c' : Conn W = drop_obs f.grant (
            drop_term f.grant (record c {
              envs = delete f.grant c.envs;
              world =
                  close_obs_at (lookup f.grant c.obs)
                    (close_term_at (lookup f.grant c.terms) c.world);
            })) in
          no_extra c' (h.revoke c'.world ctx f.grant)

      abbrev pub attached : ℕ → Result ℕ × W → Answer W
      attached stream (err e, w) = (err e, record c { world = w })
      attached stream (ok t, w) =
          if c.closed
          then (err (sentinel connection), record c { world = (h.close_term w t).1 })
          else (
            ok [],
            record c {
              world = w;
              terms = insert f.grant t c.terms;
              term_streams = insert f.grant stream c.term_streams;
            },
          )

      unfoldable pub attach_request : Answer W
      attach_request = decoded c (x.decode_attach f.extra) (λ (win, stream).
          with_stream c stream (
            with_env c (lookup f.grant c.envs) (λ r. attached stream (h.attach c.world ctx r win))))

      abbrev pub closed_term : Conn W → Option ℕ → Answer W
      closed_term d none = (ok [], d)
      closed_term d (some t) = no_extra d (h.close_term d.world t)

      unfoldable pub detach_request : Answer W
      detach_request = decoded c (x.decode_stream f.extra) (λ stream. with_stream c stream (
          if stream_or_zero (lookup f.grant c.term_streams) == stream
          then closed_term (drop_term f.grant c) (lookup f.grant c.terms)
          else (ok [], c)))

      abbrev pub resized : Window → ℕ → Option ℕ → Answer W
      resized win stream none = refuse c (sentinel closed)
      resized win stream (some t) =
          if not (stream_or_zero (lookup f.grant c.term_streams) == stream)
          then refuse c (sentinel closed)
          else no_extra c (h.resize c.world ctx t win)

      unfoldable pub resize_request : Answer W
      resize_request =
          decoded c (x.decode_attach f.extra)
            (λ (win, stream). with_stream c stream (resized win stream (lookup f.grant c.terms)))

      unfoldable pub freeze_request : Answer W
      freeze_request = with_env c (lookup f.grant c.envs) (λ r. no_extra c (h.freeze c.world ctx r))

      unfoldable pub thaw_request : Answer W
      thaw_request = with_env c (lookup f.grant c.envs) (λ r. no_extra c (h.thaw c.world ctx r))

      unfoldable pub replace_request : Answer W
      replace_request = decoded c (x.decode_replace f.extra) (λ tree.
          with_env c (lookup f.grant c.envs) (λ r. no_extra c (h.replace_tree c.world ctx r tree)))

      unfoldable pub apply_request : Answer W
      apply_request = decoded c (x.decode_apply f.extra) (λ batch.
          with_env c (lookup f.grant c.envs) (λ r. no_extra c (h.apply c.world ctx r batch)))

      abbrev pub watched : ℕ → Result ℕ × W → Answer W
      watched stream (err e, w) = (err e, record c { world = w })
      watched stream (ok o, w) =
          if c.closed
          then (err (sentinel connection), record c { world = (h.close_obs w o).1 })
          else (
            x.encode_cursor (h.cursor w o),
            record c {
              world = w;
              obs = insert f.grant o c.obs;
              obs_streams = insert f.grant stream c.obs_streams;
            },
          )

      unfoldable pub watch_request : Answer W
      watch_request = decoded c (x.decode_watch f.extra) (λ (after, stream).
          with_stream c stream (
            with_env c (lookup f.grant c.envs) (λ r. watched stream (h.watch c.world ctx r after))))

      abbrev pub closed_obs : Conn W → Option ℕ → Answer W
      closed_obs d none = (ok [], d)
      closed_obs d (some o) = no_extra d (h.close_obs d.world o)

      unfoldable pub unwatch_request : Answer W
      unwatch_request = decoded c (x.decode_stream f.extra) (λ stream. with_stream c stream (
          if stream_or_zero (lookup f.grant c.obs_streams) == stream
          then closed_obs (drop_obs f.grant c) (lookup f.grant c.obs)
          else (ok [], c)))

      -- The body, cut off one byte past the limit, as it is sent
      abbrev pub bounded_body : Bytes → Result Bytes
      bounded_body body =
          if ltb max_file_bytes (length (take (max_file_bytes + 1) body))
          then err (sentinel too_large)
          else x.encode_body (take (max_file_bytes + 1) body)

      unfoldable pub open_request : Answer W
      open_request = decoded c (x.decode_open f.extra) (λ path.
          with_env c (lookup f.grant c.envs)
            (λ r. from_result bounded_body (h.open_file c.world ctx r path)))

      unfoldable pub answer : Answer W
      answer =
          if f.method == codes "ready"
          then ready_request
          else if f.method == codes "ensure"
          then ensure_request
          else if f.method == codes "revoke"
          then revoke_request
          else if f.method == codes "attach"
          then attach_request
          else if f.method == codes "detach"
          then detach_request
          else if f.method == codes "resize"
          then resize_request
          else if f.method == codes "freeze"
          then freeze_request
          else if f.method == codes "thaw"
          then thaw_request
          else if f.method == codes "replace"
          then replace_request
          else if f.method == codes "apply"
          then apply_request
          else if f.method == codes "watch"
          then watch_request
          else if f.method == codes "unwatch"
          then unwatch_request
          else if f.method == codes "open"
          then open_request
          else refuse c (sentinel invalid)

    abbrev pub error_of : Result Bytes → Option Error
    error_of (ok extra) = none
    error_of (err e) = some e

    abbrev pub extra_of : Result Bytes → Bytes
    extra_of (ok extra) = extra
    extra_of (err e) = []

    abbrev pub response : Frame → Result Bytes → Frame
    response f r = record {
      seq = f.seq;
      kind = kind_response;
      method = f.method;
      grant = f.grant;
      stream = 0;
      status = status_of (error_of r);
      extra = extra_of r;
      deadline = 0;
    }

    -- A frame that is sent where the session can
    abbrev pub post : (Frame → Option Error) → Frame → Conn W → Conn W
    post send f c = elim (send f) [ none ↦ record c { sent = c.sent ++ f ∷ [] } | some e ↦ c ]

    -- serverConn.handle, with reply
    unfoldable pub handle : Codec → (Frame → Option Error) → Ctx → Frame → Conn W → Conn W
    handle x send ctx f c = let (r, c') = answer x ctx f c in post send (response f r) c'
