-- ===== src/Remote/Conn/Others.antt =====
-- Requests of one grant, and the tables of the others.
use execenv.Base.{
  ◌≡◌, ◌≢◌, refl, sym, subst, Bytes, lookup, lookup-insert, lookup-delete, arith, bytes_eq,
  bytes_beq_iff,
}
use execenv.Mux.{Frame}
use execenv.Memory.State.{Ctx}
use execenv.Remote.Conn.{InnerHost, Codec, Conn}
use execenv.Remote.Conn.Handle.{answer}
use execenv.Remote.Conn.Keeps.{Keeps, answer-Holds}

-- The entries of the grant are the same in both.
pub record SameOf {W : Type 0} (id : Bytes) (c c' : Conn W) : Type 0 where
  pub env : lookup id c'.envs ≡ lookup id c.envs
  pub term : lookup id c'.terms ≡ lookup id c.terms
  pub term_stream : lookup id c'.term_streams ≡ lookup id c.term_streams
  pub obs : lookup id c'.obs ≡ lookup id c.obs
  pub obs_stream : lookup id c'.obs_streams ≡ lookup id c.obs_streams

module _ {W : Type 0} (q id : Bytes) (other : q ≢ id) (c : Conn W) where
  SameOf-Keeps : Keeps {W = W} (SameOf q c) id
  SameOf-Keeps = record {
    world = λ d w s. record {
      env = s.env;
      term = s.term;
      term_stream = s.term_stream;
      obs = s.obs;
      obs_stream = s.obs_stream;
    };
    granted = λ d r s. record {
      env = ground (arith, lookup-insert id q r d.envs, bytes_beq_iff id q, other, s.env);
      term = s.term;
      term_stream = s.term_stream;
      obs = s.obs;
      obs_stream = s.obs_stream;
    };
    revoked = λ d s. record {
      env = ground (arith, lookup-delete id q d.envs, bytes_beq_iff id q, other, s.env);
      term = s.term;
      term_stream = s.term_stream;
      obs = s.obs;
      obs_stream = s.obs_stream;
    };
    term_dropped = λ d s. record {
      env = s.env;
      term = ground (arith, lookup-delete id q d.terms, bytes_beq_iff id q, other, s.term);
      term_stream =
          ground
            (arith, lookup-delete id q d.term_streams, bytes_beq_iff id q, other, s.term_stream);
      obs = s.obs;
      obs_stream = s.obs_stream;
    };
    obs_dropped = λ d s. record {
      env = s.env;
      term = s.term;
      term_stream = s.term_stream;
      obs = ground (arith, lookup-delete id q d.obs, bytes_beq_iff id q, other, s.obs);
      obs_stream =
          ground (arith, lookup-delete id q d.obs_streams, bytes_beq_iff id q, other, s.obs_stream);
    };
    term_held = λ d t n live given s. record {
      env = s.env;
      term = ground (arith, lookup-insert id q t d.terms, bytes_beq_iff id q, other, s.term);
      term_stream =
          ground
            (arith, lookup-insert id q n d.term_streams, bytes_beq_iff id q, other, s.term_stream);
      obs = s.obs;
      obs_stream = s.obs_stream;
    };
    obs_held = λ d o n live given s. record {
      env = s.env;
      term = s.term;
      term_stream = s.term_stream;
      obs = ground (arith, lookup-insert id q o d.obs, bytes_beq_iff id q, other, s.obs);
      obs_stream =
          ground
            (arith, lookup-insert id q n d.obs_streams, bytes_beq_iff id q, other, s.obs_stream);
    };
  }

  -- Over any host, a request of any method, accepted or refused, leaves every other grant's
  -- environment, terminal, observation and streams in the connection's tables as they were.
  pub answer-SameOf :
      (h : InnerHost W) (x : Codec) (ctx : Ctx) (f : Frame)
      → f.grant ≡ id
      → SameOf q c (answer h x ctx f c).1
  answer-SameOf h x ctx f own =
      answer-Holds (SameOf q c) h x ctx f c
        (record { env = refl; term = refl; term_stream = refl; obs = refl; obs_stream = refl })
        (subst (Keeps (SameOf q c)) (sym own) SameOf-Keeps)
