-- ===== src/Memory/Frames.antt =====
-- What the two shared effects of memory's environment change: dropping its terminal, and failing
-- its observation. Everything else of the world stays.
use execenv.Base.{ℕ, ◌≡◌, none, arith, ◌==◌, nat_eq, nat_beq_iff, if◌then◌else◌}
use execenv.Errors.{Error}
use execenv.Memory.State.{World, env_at, term_at, obs_at}
use execenv.Memory.Terminal.{kill}
use execenv.Memory.Observe.{fail_obs}
use execenv.Memory.Env.{drop_term, fail_watch, is_current}

-- The rest of the world.
pub record SameRest (w w' : World) : Type 0 where
  pub images : w'.images ≡ w.images
  pub slots : w'.slots ≡ w.slots
  pub unusable : w'.unusable ≡ w.unusable
  pub grants : w'.grants ≡ w.grants
  pub envs : w'.envs.next ≡ w.envs.next
  pub terms : w'.terms.next ≡ w.terms.next
  pub observations : w'.observations.next ≡ w.observations.next

module _ (reason : Error) (r : ℕ) (w : World) where
  pub env_at-drop_term :
      (q : ℕ)
      → env_at (drop_term reason r w) q
        ≡ (if q == r then record (env_at w r) { term = none } else env_at w q)
  unfolding drop_term
  env_at-drop_term q = ground (arith, nat_beq_iff q r)

  pub env_at-fail_watch :
      (q : ℕ)
      → env_at (fail_watch reason r w) q
        ≡ (if q == r then record (env_at w r) { obs = none } else env_at w q)
  unfolding fail_watch
  env_at-fail_watch q = ground (arith, nat_beq_iff q r)

  pub term_at-drop_term :
      (t : ℕ)
      → term_at (drop_term reason r w) t
        ≡ (if is_current t (env_at w r).term then kill reason (term_at w t) else term_at w t)
  unfolding drop_term
  term_at-drop_term t = ground (arith, nat_beq_iff t)

  pub term_at-fail_watch : (t : ℕ) → term_at (fail_watch reason r w) t ≡ term_at w t
  unfolding fail_watch
  term_at-fail_watch t = ground arith

  pub obs_at-drop_term : (o : ℕ) → obs_at (drop_term reason r w) o ≡ obs_at w o
  unfolding drop_term
  obs_at-drop_term o = ground arith

  pub obs_at-fail_watch :
      (o : ℕ)
      → obs_at (fail_watch reason r w) o
        ≡ (if is_current o (env_at w r).obs then fail_obs reason (obs_at w o) else obs_at w o)
  unfolding fail_watch
  obs_at-fail_watch o = ground arith

  pub SameRest-drop_term : SameRest w (drop_term reason r w)
  unfolding drop_term
  SameRest-drop_term = ground arith

  pub SameRest-fail_watch : SameRest w (fail_watch reason r w)
  unfolding fail_watch
  SameRest-fail_watch = ground arith
