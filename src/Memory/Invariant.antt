-- ===== src/Memory/Invariant.antt =====
-- The well-formedness of a world of memory's objects.
use execenv.Base.{
  ℕ, ◌≤◌, ◌<◌, ◌≡◌, false, none, some, Bytes, bytes_eq, length, lookup, IsDistinct, arith, ◌==◌,
  nat_eq, Option-cases, Bool-cases, inl, inr,
}
use execenv.Errors.{Error}
use execenv.Snapshot.Invariant.{IsProjection}
use execenv.Memory.State.{
  Environment, Terminal, Observation, World, env_at, term_at, obs_at, set_env, set_term, set_obs,
}
use execenv.Memory.Terminal.{kill, finished}
use execenv.Memory.Observe.{fail_obs}
use execenv.Memory.Env.{drop_term, fail_watch}

pub record Inv (w : World) : Type 0 where
  -- One grant for an id, no more grants than slots.
  pub distinct : IsDistinct w.grants
  pub bounded : length w.grants ≤ w.slots
  -- A grant's environment exists, has the grant's id, and is not revoked.
  pub named :
      (id : Bytes) (r : ℕ)
      → lookup id w.grants ≡ some r
      → (r < w.envs.next) × ((env_at w r).id ≡ id) × ((env_at w r).revoked ≡ false)
  pub projected : (q : ℕ) → IsProjection (env_at w q).files
  -- An environment's terminal exists, is its own, and was not killed; and a terminal that can
  -- still be used is the one its environment holds, so an environment has one at most.
  pub term_held :
      (q t : ℕ)
      → (env_at w q).term ≡ some t
      → (t < w.terms.next) × ((term_at w t).env ≡ q) × ((term_at w t).dead ≡ none)
  pub term_live :
      (t : ℕ)
      → t < w.terms.next
      → finished (term_at w t) ≡ false
      → (env_at w (term_at w t).env).term ≡ some t
  -- The same of observations.
  pub obs_held :
      (q o : ℕ)
      → (env_at w q).obs ≡ some o
      → (o < w.observations.next)
        × ((obs_at w o).env ≡ q)
        × ((obs_at w o).spent ≡ false)
        × ((obs_at w o).failed ≡ none)
  pub obs_live :
      (o : ℕ)
      → o < w.observations.next
      → (obs_at w o).spent ≡ false
      → (env_at w (obs_at w o).env).obs ≡ some o
  -- No environment that is still to be made has a handle.
  pub unmade : (q : ℕ) → w.envs.next ≤ q → ((env_at w q).term ≡ none) × ((env_at w q).obs ≡ none)

projected-update :
    (w : World) (i : Inv w) (r : ℕ) (e : Environment)
    → IsProjection e.files
    → (q : ℕ) → IsProjection (env_at (set_env w r e) q).files
projected-update w i r e p q = elim (Bool-cases (q == r)) [
  | inl hit ↦ rw hit p
  | inr miss ↦ rw miss (i.projected q)
]

module _ (w : World) (i : Inv w) (reason : Error) (r : ℕ) where
  killed-Inv :
      (held : ℕ)
      → (env_at w r).term ≡ some held
      → Inv (
          set_env
            (set_term w held (kill reason (term_at w held)))
            r
            (record (env_at w r) { term = none }))
  unfolding finished kill
  killed-Inv held e = record {
    distinct = i.distinct;
    bounded = i.bounded;
    named = λ id q h. ground (arith, i.named id q h);
    projected = λ q. projected-update w i r (record (env_at w r) { term = none }) (i.projected r) q;
    term_held = λ q t h. ground (arith, i.term_held q t, i.term_held r held);
    term_live = λ t lt h. ground (arith, i.term_live t, e);
    obs_held = λ q o h. ground (arith, i.obs_held q o);
    obs_live = λ o lt h. ground (arith, i.obs_live o);
    unmade = λ q le. ground (arith, i.unmade q);
  }

  pub drop_term-Inv : Inv (drop_term reason r w)
  unfolding drop_term
  drop_term-Inv = elim (Option-cases (env_at w r).term) [
    | inl e ↦ rw (e, drop_term) i
    | inr (held, e) ↦ rw (e, drop_term) (killed-Inv held e)
  ]

  failed-Inv :
      (held : ℕ)
      → (env_at w r).obs ≡ some held
      → Inv (
          set_env
            (set_obs w held (fail_obs reason (obs_at w held)))
            r
            (record (env_at w r) { obs = none }))
  unfolding fail_obs
  failed-Inv held e = record {
    distinct = i.distinct;
    bounded = i.bounded;
    named = λ id q h. ground (arith, i.named id q h);
    projected = λ q. projected-update w i r (record (env_at w r) { obs = none }) (i.projected r) q;
    term_held = λ q t h. ground (arith, i.term_held q t);
    term_live = λ t lt h. ground (arith, i.term_live t);
    obs_held = λ q o h. ground (arith, i.obs_held q o, i.obs_held r held);
    obs_live = λ o lt h. ground (arith, i.obs_live o, e);
    unmade = λ q le. ground (arith, i.unmade q);
  }

  pub fail_watch-Inv : Inv (fail_watch reason r w)
  unfolding fail_watch
  fail_watch-Inv = elim (Option-cases (env_at w r).obs) [
    | inl e ↦ rw (e, fail_watch) i
    | inr (held, e) ↦ rw (e, fail_watch) (failed-Inv held e)
  ]

-- A change of an environment that leaves its identity and its handles, and does not revoke a
-- granted one.
pub set_env-Inv :
    (w : World) (r : ℕ) (e : Environment)
    → Inv w
    → e.id ≡ (env_at w r).id
    → e.term ≡ (env_at w r).term
    → e.obs ≡ (env_at w r).obs
    → IsProjection e.files
    → ((id : Bytes) → lookup id w.grants ≡ some r → e.revoked ≡ false)
    → Inv (set_env w r e)
set_env-Inv w r e i same_id same_term same_obs projection alive = record {
  distinct = i.distinct;
  bounded = i.bounded;
  named = λ id q h. ground (arith, i.named id q h, alive id);
  projected = λ q. projected-update w i r e projection q;
  term_held = λ q t h. ground (arith, i.term_held q t);
  term_live = λ t lt h. ground (arith, i.term_live t);
  obs_held = λ q o h. ground (arith, i.obs_held q o);
  obs_live = λ o lt h. ground (arith, i.obs_live o);
  unmade = λ q le. ground (arith, i.unmade q);
}

-- A change of a terminal that leaves its owner and its death, and does not reopen it.
pub set_term-Inv :
    (w : World) (t : ℕ) (x : Terminal)
    → Inv w
    → x.env ≡ (term_at w t).env
    → x.dead ≡ (term_at w t).dead
    → (finished x ≡ false → finished (term_at w t) ≡ false)
    → Inv (set_term w t x)
set_term-Inv w t x i same_env same_dead shut = record {
  distinct = i.distinct;
  bounded = i.bounded;
  named = i.named;
  projected = i.projected;
  term_held = λ q s h. ground (arith, i.term_held q s);
  term_live = λ s lt h. ground (arith, i.term_live s, shut);
  obs_held = i.obs_held;
  obs_live = i.obs_live;
  unmade = λ q le. ground (arith, i.unmade q);
}

-- A change of an observation that leaves its owner and whether it has failed.
pub set_obs-Inv :
    (w : World) (o : ℕ) (x : Observation)
    → Inv w
    → x.env ≡ (obs_at w o).env
    → x.spent ≡ (obs_at w o).spent
    → x.failed ≡ (obs_at w o).failed
    → Inv (set_obs w o x)
set_obs-Inv w o x i same_env same_spent same_failed = record {
  distinct = i.distinct;
  bounded = i.bounded;
  named = i.named;
  projected = i.projected;
  term_held = i.term_held;
  term_live = i.term_live;
  obs_held = λ q p h. ground (arith, i.obs_held q p);
  obs_live = λ p lt h. ground (arith, i.obs_live p);
  unmade = λ q le. ground (arith, i.unmade q);
}
