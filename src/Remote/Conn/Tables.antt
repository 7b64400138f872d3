-- ===== src/Remote/Conn/Tables.antt =====
-- The tables of a connection agree, and are empty once it has closed.
use execenv.Base.{
  ℕ, ◌≡◌, ◌≢◌, refl, true, Option, none, some, List, [], ◌∷◌, Bytes, lookup, GoMap, lookup-insert,
  lookup-delete, arith, ◌==◌, nat_eq, nat_beq_iff, bytes_eq, if-either, Option-cases, inl, inr,
}
use execenv.Errors.{Error}
use execenv.Agent.{is_some}
use execenv.Mux.{Frame}
use execenv.Memory.State.{Ctx}
use execenv.Remote.Conn.{InnerHost, Codec, Conn, new_conn}
use execenv.Remote.Conn.Handle.{is_at, stream_or_zero, drop_term, drop_obs, post, handle}
use execenv.Remote.Conn.Ends.{close, write_pty, term_ended, obs_ended}
use execenv.Remote.Conn.Keeps.{Keeps, answer-Holds}

pub record Inv {W : Type 0} (c : Conn W) : Type 0 where
  -- A grant has a terminal exactly when it has a stream for it, which is not 0.
  pub term_paired : (id : Bytes) → is_some (lookup id c.terms) ≡ is_some (lookup id c.term_streams)
  pub term_stream : (id : Bytes) → lookup id c.term_streams ≢ some 0
  pub obs_paired : (id : Bytes) → is_some (lookup id c.obs) ≡ is_some (lookup id c.obs_streams)
  pub obs_stream : (id : Bytes) → lookup id c.obs_streams ≢ some 0
  pub empty : c.closed ≡ true → (id : Bytes) → (lookup id c.terms ≡ none) × (lookup id c.obs ≡ none)

module _ {W : Type 0} where
  rest-Inv :
      (c : Conn W) (i : Inv c) (w : W) (envs : GoMap Bytes ℕ) (sent : List Frame)
      → Inv (record c { world = w; envs = envs; sent = sent })
  rest-Inv c i w envs sent = record {
    term_paired = i.term_paired;
    term_stream = i.term_stream;
    obs_paired = i.obs_paired;
    obs_stream = i.obs_stream;
    empty = i.empty;
  }

  term_dropped-Inv : (id : Bytes) (c : Conn W) → Inv c → Inv (drop_term id c)
  term_dropped-Inv id c i = record {
    term_paired = λ q.
        ground
          (arith, lookup-delete id q c.terms, lookup-delete id q c.term_streams, i.term_paired q);
    term_stream = λ q e. ground (arith, lookup-delete id q c.term_streams, i.term_stream q, e);
    obs_paired = i.obs_paired;
    obs_stream = i.obs_stream;
    empty = λ over q. ground (arith, lookup-delete id q c.terms, i.empty over q);
  }

  obs_dropped-Inv : (id : Bytes) (c : Conn W) → Inv c → Inv (drop_obs id c)
  obs_dropped-Inv id c i = record {
    term_paired = i.term_paired;
    term_stream = i.term_stream;
    obs_paired = λ q.
        ground (arith, lookup-delete id q c.obs, lookup-delete id q c.obs_streams, i.obs_paired q);
    obs_stream = λ q e. ground (arith, lookup-delete id q c.obs_streams, i.obs_stream q, e);
    empty = λ over q. ground (arith, lookup-delete id q c.obs, i.empty over q);
  }

  Inv-Keeps : (id : Bytes) → Keeps {W = W} Inv id
  Inv-Keeps id = record {
    world = λ c w i. rest-Inv c i w c.envs c.sent;
    granted = λ c r i. rest-Inv c i c.world _ c.sent;
    revoked = λ c i. rest-Inv c i c.world _ c.sent;
    term_dropped = term_dropped-Inv id;
    obs_dropped = obs_dropped-Inv id;
    term_held = λ c t s live given i. record {
      term_paired = λ q. ground (
        arith,
        lookup-insert id q t c.terms,
        lookup-insert id q s c.term_streams,
        i.term_paired q,
      );
      term_stream = λ q e.
          ground (
            arith,
            lookup-insert id q s c.term_streams,
            i.term_stream q,
            nat_beq_iff s 0,
            given,
            e,
          );
      obs_paired = i.obs_paired;
      obs_stream = i.obs_stream;
      empty = λ over q. absurd (ground (arith, live, over));
    };
    obs_held = λ c o s live given i. record {
      term_paired = i.term_paired;
      term_stream = i.term_stream;
      obs_paired = λ q.
          ground
            (arith, lookup-insert id q o c.obs, lookup-insert id q s c.obs_streams, i.obs_paired q);
      obs_stream = λ q e.
          ground
            (arith, lookup-insert id q s c.obs_streams, i.obs_stream q, nat_beq_iff s 0, given, e);
      empty = λ over q. absurd (ground (arith, live, over));
    };
  }

  module _ (h : InnerHost W) (c : Conn W) (i : Inv c) where
    post-Inv : (send : Frame → Option Error) (f : Frame) → Inv (post h send f c)
    post-Inv send f = elim (Option-cases (send f)) [
      | inl gone_out ↦ rw (gone_out, post) (rest-Inv c i c.world c.envs _)
      | inr (e, failed) ↦ rw (failed, post) i
    ]

    close-Inv : Inv (close h c)
    unfolding close lookup
    close-Inv =
        if-either Inv c.closed (λ _. i)
          (λ _. record {
            term_paired = λ q. refl;
            term_stream = λ q e. ground (arith, e);
            obs_paired = λ q. refl;
            obs_stream = λ q e. ground (arith, e);
            empty = λ over q. (refl, refl);
          })

    write_pty-Inv : (f : Frame) → Inv (write_pty h f c)
    unfolding write_pty
    write_pty-Inv f = elim (Option-cases (lookup f.grant c.terms)) [
      | inl nothing ↦ rw (nothing, write_pty) i
      | inr (t, there) ↦
          rw (there, write_pty)
            (if-either Inv (stream_or_zero (lookup f.grant c.term_streams) == f.stream)
              (λ _. rest-Inv c i _ c.envs c.sent) (λ _. i))
    ]

    term_ended-Inv : (id : Bytes) (t : ℕ) → Inv (term_ended h id t c)
    unfolding term_ended
    term_ended-Inv id t =
        if-either Inv (is_at t (lookup id c.terms)) (λ _. term_dropped-Inv id c i) (λ _. i)

    obs_ended-Inv : (id : Bytes) (o : ℕ) → Inv (obs_ended h id o c)
    unfolding obs_ended
    obs_ended-Inv id o =
        let c' : Conn W = record c { world = (h.close_obs c.world o).1 } in
        let i' = rest-Inv c i (h.close_obs c.world o).1 c.envs c.sent in
        if-either Inv (is_at o (lookup id c'.obs)) (λ _. obs_dropped-Inv id c' i') (λ _. i')

-- What happens on a connection. copies is a frame that copyPty or copyWatch sends; the world changes
-- by itself too, for other connections use the same host.
pub data Step (W : Type 0) : Type 0 where
  request : Ctx → Frame → Step W
  octets : Frame → Step W
  copies : Frame → Step W
  term_ends : Bytes → ℕ → Step W
  obs_ends : Bytes → ℕ → Step W
  moves : W → Step W
  closes : Step W

module _ {W : Type 0} (h : InnerHost W) (x : Codec) (send : Frame → Option Error) where
  unfoldable pub step : Conn W → Step W → Conn W
  step c (request ctx f) = handle h x send ctx f c
  step c (octets f) = write_pty h f c
  step c (copies f) = post h send f c
  step c (term_ends id t) = term_ended h id t c
  step c (obs_ends id o) = obs_ended h id o c
  step c (moves w) = record c { world = w }
  step c closes = close h c

  unfoldable pub run : Conn W → List (Step W) → Conn W
  run c [] = c
  run c (s ∷ rest) = run (step c s) rest

  step-Inv : (c : Conn W) (s : Step W) → Inv c → Inv (step c s)
  unfolding step handle
  step-Inv c (request ctx f) i =
      post-Inv h _ (answer-Holds Inv h x ctx f c i (Inv-Keeps f.grant)) send _
  step-Inv c (octets f) i = write_pty-Inv h c i f
  step-Inv c (copies f) i = post-Inv h c i send f
  step-Inv c (term_ends id t) i = term_ended-Inv h c i id t
  step-Inv c (obs_ends id o) i = obs_ended-Inv h c i id o
  step-Inv c (moves w) i = rest-Inv c i w c.envs c.sent
  step-Inv c closes i = close-Inv h c i

  run-Inv : (c : Conn W) (ss : List (Step W)) → Inv c → Inv (run c ss)
  unfolding run
  run-Inv c [] i = i
  run-Inv c (s ∷ rest) i = run-Inv (step c s) rest (step-Inv c s i)

  new_conn-Inv : (w : W) → Inv (new_conn w)
  unfolding lookup
  new_conn-Inv w = record {
    term_paired = λ q. refl;
    term_stream = λ q e. ground (arith, e);
    obs_paired = λ q. refl;
    obs_stream = λ q e. ground (arith, e);
    empty = λ over q. (refl, refl);
  }

  -- Over any host, whatever requests, octets and ends of streams come in whatever order and however
  -- the host's world changes by itself: a grant has a terminal in the connection's tables exactly
  -- when it has a stream for it, and that is not 0; the same of its observation; and a closed
  -- connection holds neither terminals nor observations, also those of requests that were under way
  -- when it closed.
  pub run-new_conn-Inv : (w : W) (ss : List (Step W)) → Inv (run (new_conn w) ss)
  run-new_conn-Inv w ss = run-Inv (new_conn w) ss (new_conn-Inv w)
