-- ===== src/Memory/Keeps.antt =====
-- Every method of memory's environment keeps the world well formed.
use execenv.Base.{
  ℕ, ◌<◌, ◌≡◌, ◌≢◌, refl, true, false, none, some, List, Bytes, bytes_eq, lookup, arith, ◌==◌,
  nat_eq, Option-cases, Bool-cases, inl, inr,
}
use execenv.Errors.{sentinel, frozen, revoked, busy, lagged, Result-cases}
use execenv.Paths.{Event}
use execenv.Snapshot.{Tree, Mutation, Snapshot, replace, apply}
use execenv.Snapshot.Invariant.{IsProjection, replace-IsProjection, apply-IsProjection}
use execenv.Watchlog.{Log, append, since}
use execenv.Memory.State.{Window, World, Ctx, env_at, term_at, obs_at, set_env, set_obs, fresh}
use execenv.Memory.Terminal.{new_terminal, finished}
use execenv.Memory.Observe.{offer}
use execenv.Memory.Env.{
  attach_op, freeze_op, thaw_op, watch_op, attach, freeze, thaw, revoke_env, replace_tree,
  apply_batch, watch, emit, apply_batch_op, replace_tree_op, new_observation,
}
use execenv.Memory.Invariant.{Inv, drop_term-Inv, fail_watch-Inv, set_env-Inv, set_obs-Inv}
use execenv.Memory.Rules.{with_ctx-rule, guarded-rule, if-rule}

module _ (w : World) (i : Inv w) (r : ℕ) where
  attached-Inv :
      (win : Window)
      → r < w.envs.next
      → ((t : ℕ) → (env_at w r).term ≡ some t → finished (term_at w t) ≡ true)
      → Inv (
          set_env
            (record w { terms = fresh w.terms (new_terminal r win) })
            r
            (record (env_at w r) { term = some w.terms.next }))
  unfolding finished new_terminal
  attached-Inv win made free = record {
    distinct = i.distinct;
    bounded = i.bounded;
    named = λ id q h. ground (arith, i.named id q h);
    projected = λ q. elim (Bool-cases (q == r)) [
      | inl hit ↦ rw hit (i.projected r)
      | inr miss ↦ rw miss (i.projected q)
    ];
    term_held = λ q t h. ground (arith, i.term_held q t);
    term_live = λ t lt h. ground (arith, i.term_live t, free t);
    obs_held = λ q o h. ground (arith, i.obs_held q o);
    obs_live = λ o lt h. ground (arith, i.obs_live o);
    unmade = λ q le. ground (arith, i.unmade q, made);
  }

  pub attach-Inv : (ctx : Ctx) (win : Window) → r < w.envs.next → Inv (attach w ctx r win).1
  unfolding attach
  attach-Inv ctx win made = with_ctx-rule Inv w attach_op _ i ctx (λ _.
      guarded-rule Inv w attach_op _ i (env_at w r) (λ _ _.
        if-rule Inv w attach_op _ i _ (sentinel busy)
          (λ free. attached-Inv win made (λ t e. ground arith))))

  pub thaw-Inv : (ctx : Ctx) → Inv (thaw w ctx r).1
  unfolding thaw
  thaw-Inv ctx = with_ctx-rule Inv w thaw_op _ i ctx (λ _.
      if-rule Inv w thaw_op _ i (env_at w r).revoked (sentinel revoked) (λ live.
        set_env-Inv w r (record (env_at w r) { frozen = false }) i refl refl refl (i.projected r)
          (λ id h. live)))

  pub freeze-Inv : (ctx : Ctx) → Inv (freeze w ctx r).1
  unfolding freeze
  freeze-Inv ctx = with_ctx-rule Inv w freeze_op _ i ctx (λ _.
      if-rule Inv w freeze_op _ i (env_at w r).revoked (sentinel revoked) (λ live.
        fail_watch-Inv _
          (drop_term-Inv _
            (set_env-Inv w r (record (env_at w r) { frozen = true }) i refl refl refl
              (i.projected r) (λ id h. live))
            (sentinel frozen) r)
          (sentinel frozen) r))

  -- Only an environment that has left the grants is revoked.
  pub revoke_env-Inv : ((id : Bytes) → lookup id w.grants ≢ some r) → Inv (revoke_env r w)
  unfolding revoke_env
  revoke_env-Inv detached =
      fail_watch-Inv _
        (drop_term-Inv _
          (set_env-Inv w r (record (env_at w r) { revoked = true; frozen = false }) i refl refl refl
            (i.projected r) (λ id h. absurd (detached id h)))
          (sentinel revoked) r)
        (sentinel revoked) r

  alive : (id : Bytes) → lookup id w.grants ≡ some r → (env_at w r).revoked ≡ false
  alive id h = (i.named id r h).2

  -- A change of the files or the log only.
  pub set_files-Inv :
      (files : Snapshot)
      → IsProjection files
      → Inv (set_env w r (record (env_at w r) { files = files }))
  set_files-Inv files p =
      set_env-Inv w r (record (env_at w r) { files = files }) i refl refl refl p alive

  pub set_log-Inv : (log : Log) → Inv (set_env w r (record (env_at w r) { log = log }))
  set_log-Inv log =
      set_env-Inv w r (record (env_at w r) { log = log }) i refl refl refl (i.projected r) alive

  pub apply_batch-Inv : (ctx : Ctx) (batch : List Mutation) → Inv (apply_batch w ctx r batch).1
  unfolding apply_batch
  apply_batch-Inv ctx batch = with_ctx-rule Inv w apply_batch_op _ i ctx (λ _.
      guarded-rule Inv w apply_batch_op _ i (env_at w r) (λ _ _.
        elim (Result-cases (apply (env_at w r).files batch)) [
          | inl (next, e) ↦ rw e (
              set_files-Inv next
                (apply-IsProjection (env_at w r).files batch next e (i.projected r)))
          | inr (x, e) ↦ rw e i
        ]))

  watched-Inv :
      (cursor : Bytes) (replay : List Event)
      → r < w.envs.next
      → (env_at w r).obs ≡ none
      → Inv (
          set_env
            (record w { observations = fresh w.observations (new_observation r cursor replay) })
            r
            (record (env_at w r) { obs = some w.observations.next }))
  watched-Inv cursor replay made free = record {
    distinct = i.distinct;
    bounded = i.bounded;
    named = λ id q h. ground (arith, i.named id q h);
    projected = λ q. elim (Bool-cases (q == r)) [
      | inl hit ↦ rw hit (i.projected r)
      | inr miss ↦ rw miss (i.projected q)
    ];
    term_held = λ q t h. ground (arith, i.term_held q t);
    term_live = λ t lt h. ground (arith, i.term_live t);
    obs_held = λ q o h. ground (arith, i.obs_held q o);
    obs_live = λ o lt h. ground (arith, i.obs_live o);
    unmade = λ q le. ground (arith, i.unmade q, made);
  }

  pub watch-Inv : (ctx : Ctx) (after : Bytes) → r < w.envs.next → Inv (watch w ctx r after).1
  unfolding watch
  watch-Inv ctx after made = with_ctx-rule Inv w watch_op _ i ctx (λ _.
      guarded-rule Inv w watch_op _ i (env_at w r) (λ _ _. elim (Option-cases (env_at w r).obs) [
        | inr (o, e) ↦ rw e i
        | inl free ↦ elim (Result-cases (since (env_at w r).log after)) [
          | inl ((cursor, replay), e) ↦ rw (free, e) (watched-Inv cursor replay made free)
          | inr (x, e) ↦ rw (free, e) i
        ]
      ]))

offered-Inv :
    (w : World) (i : Inv w) (event : Event) (o : ℕ) → Inv (set_obs w o (offer event (obs_at w o)).1)
unfolding offer
offered-Inv w i event o =
    set_obs-Inv w o (offer event (obs_at w o)).1 i (ground arith) (ground arith) (ground arith)

pub emit-Inv : (event : Event) (r : ℕ) (w : World) → Inv w → Inv (emit event r w)
unfolding emit
emit-Inv event r w i = elim (Option-cases (env_at w r).obs) [
  | inl none_held ↦ rw (none_held, emit) logged
  | inr (o, held) ↦ elim (Bool-cases (offer (append event (env_at w r).log).0 (obs_at w o)).0) [
    | inl sent ↦
        rw (held, emit) (rw sent (offered-Inv _ logged (append event (env_at w r).log).0 o))
    | inr full ↦ rw (held, emit) (rw full (fail_watch-Inv _ logged (sentinel lagged) r))
  ]
]
  where
    logged : Inv (set_env w r (record (env_at w r) { log = (append event (env_at w r).log).1 }))
    logged = set_log-Inv w i r (append event (env_at w r).log).1

pub replace_tree-Inv :
    (w : World) (i : Inv w) (r : ℕ) (ctx : Ctx) (tree : Tree) (epoch : Bytes)
    → Inv (replace_tree w ctx r tree epoch).1
unfolding replace_tree
replace_tree-Inv w i r ctx tree epoch = with_ctx-rule Inv w replace_tree_op _ i ctx (λ _.
    guarded-rule Inv w replace_tree_op _ i (env_at w r) (λ _ _.
      elim (Result-cases (replace (env_at w r).files tree)) [
        | inl (next, e) ↦ rw e (
            set_log-Inv _
              (fail_watch-Inv _
                (set_files-Inv w i r next (replace-IsProjection (env_at w r).files tree next e))
                (sentinel lagged) r)
              r _)
        | inr (x, e) ↦ rw e i
      ]))
