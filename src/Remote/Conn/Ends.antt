-- ===== src/Remote/Conn/Ends.antt =====
-- remote/server.go: the end of a connection, of a terminal's copy and of an observation's, and the
-- octets that a client types.
use execenv.Base.{
  ℕ, true, none, some, [], ◌∷◌, Bytes, GoMap, lookup, ◌==◌, nat_eq, bytes_eq, if◌then◌else◌,
}
use execenv.Mux.{Frame}
use execenv.Remote.Conn.{InnerHost, Conn}
use execenv.Remote.Conn.Handle.{stream_or_zero, is_at, drop_term, drop_obs}

module _ {W : Type 0} (h : InnerHost W) where
  abbrev pub close_terms : GoMap Bytes ℕ → W → W
  close_terms [] w = w
  close_terms ((id, t) ∷ rest) w = close_terms rest (h.close_term w t).1

  abbrev pub close_all_obs : GoMap Bytes ℕ → W → W
  close_all_obs [] w = w
  close_all_obs ((id, o) ∷ rest) w = close_all_obs rest (h.close_obs w o).1

  -- serverConn.close
  unfoldable pub close : Conn W → Conn W
  close c = if c.closed then c else record c {
    closed = true;
    terms = [];
    term_streams = [];
    obs = [];
    obs_streams = [];
    world = close_all_obs c.obs (close_terms c.terms c.world);
  }

  -- writePty
  unfoldable pub write_pty : Frame → Conn W → Conn W
  write_pty f c = elim (lookup f.grant c.terms) [
    | none ↦ c
    | some t ↦
        if stream_or_zero (lookup f.grant c.term_streams) == f.stream
        then record c { world = h.write c.world t f.extra }
        else c
  ]

  -- The deferred functions of copyPty and copyWatch, at the end of a terminal or an observation
  unfoldable pub term_ended : Bytes → ℕ → Conn W → Conn W
  term_ended id t c = if is_at t (lookup id c.terms) then drop_term id c else c

  unfoldable pub obs_ended : Bytes → ℕ → Conn W → Conn W
  obs_ended id o c =
      let c' : Conn W = record c { world = (h.close_obs c.world o).1 } in
      if is_at o (lookup id c'.obs) then drop_obs id c' else c'
