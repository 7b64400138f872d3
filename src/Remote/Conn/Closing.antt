-- ===== src/Remote/Conn/Closing.antt =====
-- The end of a connection, over a host that keeps what is closed closed.
use execenv.Base.{
  ℕ, ◌≡◌, Bool, true, false, some, [], ◌∷◌, Bytes, GoMap, lookup, arith, ◌==◌, nat_eq, bytes_eq,
  Bool-cases, inl, inr,
}
use execenv.Remote.Conn.{InnerHost, Conn}
use execenv.Remote.Conn.Ends.{close, close_terms, close_all_obs}

-- Close ends a terminal, or an observation, whatever it answers; no Close brings one back.
pub record ClosesWell {W : Type 0} (h : InnerHost W) (term_closed obs_closed : W → ℕ → Bool)
    : Type 0 where
  pub closes_term : (w : W) (t : ℕ) → term_closed (h.close_term w t).1 t ≡ true
  pub closes_obs : (w : W) (o : ℕ) → obs_closed (h.close_obs w o).1 o ≡ true
  pub term_stays :
      (w : W) (t u : ℕ) → term_closed w t ≡ true → term_closed (h.close_term w u).1 t ≡ true
  pub term_stays_obs :
      (w : W) (t o : ℕ) → term_closed w t ≡ true → term_closed (h.close_obs w o).1 t ≡ true
  pub obs_stays :
      (w : W) (o p : ℕ) → obs_closed w o ≡ true → obs_closed (h.close_obs w p).1 o ≡ true

module _ {W : Type 0} (h : InnerHost W) (term_closed obs_closed : W → ℕ → Bool)
    (l : ClosesWell h term_closed obs_closed) where
  close_terms-stays :
      (m : GoMap Bytes ℕ) (w : W) (t : ℕ)
      → term_closed w t ≡ true
      → term_closed (close_terms h m w) t ≡ true
  close_terms-stays [] w t e = e
  close_terms-stays ((id, u) ∷ rest) w t e =
      close_terms-stays rest (h.close_term w u).1 t (l.term_stays w t u e)

  close_terms-closed :
      (m : GoMap Bytes ℕ) (w : W) (id : Bytes) (t : ℕ)
      → lookup id m ≡ some t
      → term_closed (close_terms h m w) t ≡ true
  unfolding lookup
  close_terms-closed [] w id t e = absurd (ground (arith, e))
  close_terms-closed ((key, u) ∷ rest) w id t e = elim (Bool-cases (key == id)) [
    | inl here ↦
        let same : t ≡ u = ground (arith, e, here) in
        close_terms-stays rest (h.close_term w u).1 t (rw same (l.closes_term w u))
    | inr there ↦ close_terms-closed rest (h.close_term w u).1 id t (ground (arith, e, there))
  ]

  close_all_obs-stays :
      (m : GoMap Bytes ℕ) (w : W) (o : ℕ)
      → obs_closed w o ≡ true
      → obs_closed (close_all_obs h m w) o ≡ true
  close_all_obs-stays [] w o e = e
  close_all_obs-stays ((id, p) ∷ rest) w o e =
      close_all_obs-stays rest (h.close_obs w p).1 o (l.obs_stays w o p e)

  close_all_obs-closed :
      (m : GoMap Bytes ℕ) (w : W) (id : Bytes) (o : ℕ)
      → lookup id m ≡ some o
      → obs_closed (close_all_obs h m w) o ≡ true
  unfolding lookup
  close_all_obs-closed [] w id o e = absurd (ground (arith, e))
  close_all_obs-closed ((key, p) ∷ rest) w id o e = elim (Bool-cases (key == id)) [
    | inl here ↦
        let same : o ≡ p = ground (arith, e, here) in
        close_all_obs-stays rest (h.close_obs w p).1 o (rw same (l.closes_obs w p))
    | inr there ↦ close_all_obs-closed rest (h.close_obs w p).1 id o (ground (arith, e, there))
  ]

  close_all_obs-terms :
      (m : GoMap Bytes ℕ) (w : W) (t : ℕ)
      → term_closed w t ≡ true
      → term_closed (close_all_obs h m w) t ≡ true
  close_all_obs-terms [] w t e = e
  close_all_obs-terms ((id, o) ∷ rest) w t e =
      close_all_obs-terms rest (h.close_obs w o).1 t (l.term_stays_obs w t o e)

  -- Over a host whose Close ends what it is called on for good: the end of a connection closes every
  -- terminal and every observation that its tables hold, of whatever grants.
  pub close-closed :
      (c : Conn W)
      → c.closed ≡ false
      → ((id : Bytes) (t : ℕ) → lookup id c.terms ≡ some t → term_closed (close h c).world t ≡ true)
        × ((id : Bytes) (o : ℕ) → lookup id c.obs ≡ some o → obs_closed (close h c).world o ≡ true)
  unfolding close
  close-closed c live = rw live (
    λ id t e.
        close_all_obs-terms c.obs (close_terms h c.terms c.world) t
          (close_terms-closed c.terms c.world id t e),
    λ id o e. close_all_obs-closed c.obs (close_terms h c.terms c.world) id o e,
  )
