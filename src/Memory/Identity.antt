-- ===== src/Memory/Identity.antt =====
-- No method of memory's environment but revoke changes the grants, or any environment's id or
-- whether it is revoked.
use execenv.Base.{
  ℕ, ◌≡◌, refl, ◌∙◌, true, false, Option, none, some, List, Bytes, bytes_eq, insert, delete, lookup,
  ◌==◌, nat_eq, nat_beq_iff, Option-cases, Bool-cases, inl, inr,
}
use execenv.Errors.{Error, Result-cases, sentinel, frozen, revoked, lagged, closed, busy}
use execenv.Paths.{Event}
use execenv.Snapshot.{Tree, Mutation, Node, Snapshot, replace, apply}
use execenv.Watchlog.{append, since}
use execenv.Memory.State.{
  Heap, Terminal, Observation, fresh, update, Window, Environment, World, Ctx, env_at, obs_at,
  set_env, set_term, set_obs,
}
use execenv.Memory.Terminal.{new_terminal}
use execenv.Memory.Observe.{offer}
use execenv.Memory.Env.{
  attach_op, freeze_op, thaw_op, watch_op, apply_batch_op, replace_tree_op, guest_op, attach,
  freeze, thaw, replace_tree, apply_batch, watch, emit, drop_term, fail_watch, write_guest_env,
  remove_guest_env, move_guest_env, move_guest_node, close_observation, exists, is_current,
  guest_node, new_observation, revoke_env,
}
use execenv.Memory.Rules.{with_ctx-rule, guarded-rule, if-rule}

pub record SameIdentity (w w' : World) : Type 0 where
  pub grants : w'.grants ≡ w.grants
  pub envs : w'.envs.next ≡ w.envs.next
  pub ids : (q : ℕ) → (env_at w' q).id ≡ (env_at w q).id
  pub lives : (q : ℕ) → (env_at w' q).revoked ≡ (env_at w q).revoked

same : {w : World} → SameIdentity w w
same = record { grants = refl; envs = refl; ids = λ q. refl; lives = λ q. refl }

pub then_same : {u v w : World} → SameIdentity u v → SameIdentity v w → SameIdentity u w
then_same a b = record {
  grants = b.grants ∙ a.grants;
  envs = b.envs ∙ a.envs;
  ids = λ q. b.ids q ∙ a.ids q;
  lives = λ q. b.lives q ∙ a.lives q;
}

pub same-set_term : (w : World) (t : ℕ) (x : Terminal) → SameIdentity w (set_term w t x)
same-set_term w t x = record { grants = refl; envs = refl; ids = λ q. refl; lives = λ q. refl }

pub same-set_obs : (w : World) (o : ℕ) (x : Observation) → SameIdentity w (set_obs w o x)
same-set_obs w o x = record { grants = refl; envs = refl; ids = λ q. refl; lives = λ q. refl }

same-update :
    {B : Type 0} (f : Environment → B) (h : ℕ → Environment) (r : ℕ) (e : Environment)
    → f e ≡ f (h r)
    → (q : ℕ) → f (update h r e q) ≡ f (h q)
same-update f h r e p q = elim (Bool-cases (q == r)) [
  | inl hit ↦ rw (hit, p, (nat_beq_iff q r).0 hit)
  | inr miss ↦ rw miss
]

module _ (w : World) (r : ℕ) where
  same-set_env :
      (e : Environment)
      → e.id ≡ (env_at w r).id
      → e.revoked ≡ (env_at w r).revoked
      → SameIdentity w (set_env w r e)
  same-set_env e p q = record {
    grants = refl;
    envs = refl;
    ids = same-update (λ e. e.id) w.envs.cell r e p;
    lives = same-update (λ e. e.revoked) w.envs.cell r e q;
  }

  same-set_handle :
      (e : Environment) (terms : Heap Terminal) (observations : Heap Observation)
      → e.id ≡ (env_at w r).id
      → e.revoked ≡ (env_at w r).revoked
      → SameIdentity w (set_env (record w { terms = terms; observations = observations }) r e)
  same-set_handle e terms observations p q = record {
    grants = refl;
    envs = refl;
    ids = same-update (λ e. e.id) w.envs.cell r e p;
    lives = same-update (λ e. e.revoked) w.envs.cell r e q;
  }

  same-drop_term : (reason : Error) → SameIdentity w (drop_term reason r w)
  unfolding drop_term
  same-drop_term reason = elim (Option-cases (env_at w r).term) [
    | inl e ↦ rw (e, drop_term) same
    | inr (t, e) ↦
        rw (e, drop_term)
          (same-set_handle (record (env_at w r) { term = none }) _ w.observations refl refl)
  ]

  same-fail_watch : (reason : Error) → SameIdentity w (fail_watch reason r w)
  unfolding fail_watch
  same-fail_watch reason = elim (Option-cases (env_at w r).obs) [
    | inl e ↦ rw (e, fail_watch) same
    | inr (o, e) ↦
        rw (e, fail_watch)
          (same-set_handle (record (env_at w r) { obs = none }) w.terms _ refl refl)
  ]

  pub same-attach : (ctx : Ctx) (win : Window) → SameIdentity w (attach w ctx r win).1
  unfolding attach
  same-attach ctx win = with_ctx-rule (SameIdentity w) w attach_op _ same ctx (λ _.
      guarded-rule (SameIdentity w) w attach_op _ same (env_at w r) (λ _ _.
        if-rule (SameIdentity w) w attach_op _ same _ (sentinel busy) (λ _.
          same-set_handle (record (env_at w r) { term = some w.terms.next })
            (fresh w.terms (new_terminal r win)) w.observations refl refl)))

  pub same-thaw : (ctx : Ctx) → SameIdentity w (thaw w ctx r).1
  unfolding thaw
  same-thaw ctx = with_ctx-rule (SameIdentity w) w thaw_op _ same ctx (λ _.
      if-rule (SameIdentity w) w thaw_op _ same (env_at w r).revoked (sentinel revoked)
        (λ _. same-set_env (record (env_at w r) { frozen = false }) refl refl))

  pub same-apply_batch :
      (ctx : Ctx) (batch : List Mutation) → SameIdentity w (apply_batch w ctx r batch).1
  unfolding apply_batch
  same-apply_batch ctx batch = with_ctx-rule (SameIdentity w) w apply_batch_op _ same ctx (λ _.
      guarded-rule (SameIdentity w) w apply_batch_op _ same (env_at w r) (λ _ _.
        elim (Result-cases (apply (env_at w r).files batch)) [
          | inl (next, e) ↦ rw e (same-set_env (record (env_at w r) { files = next }) refl refl)
          | inr (x, e) ↦ rw e same
        ]))

  pub same-watch : (ctx : Ctx) (after : Bytes) → SameIdentity w (watch w ctx r after).1
  unfolding watch
  same-watch ctx after = with_ctx-rule (SameIdentity w) w watch_op _ same ctx (λ _.
      guarded-rule (SameIdentity w) w watch_op _ same (env_at w r) (λ _ _.
        elim (Option-cases (env_at w r).obs) [
          | inr (o, e) ↦ rw e same
          | inl free ↦ elim (Result-cases (since (env_at w r).log after)) [
            | inr (x, e) ↦ rw (free, e) same
            | inl ((cursor, replay), e) ↦
                rw (free, e)
                  (same-set_handle (record (env_at w r) { obs = some w.observations.next }) w.terms
                    (fresh w.observations (new_observation r cursor replay)) refl refl)
          ]
        ]))

pub same-freeze : (w : World) (r : ℕ) (ctx : Ctx) → SameIdentity w (freeze w ctx r).1
unfolding freeze
same-freeze w r ctx = with_ctx-rule (SameIdentity w) w freeze_op _ same ctx (λ _.
    if-rule (SameIdentity w) w freeze_op _ same (env_at w r).revoked (sentinel revoked) (λ _.
      then_same
        (then_same (same-set_env w r (record (env_at w r) { frozen = true }) refl refl)
          (same-drop_term _ r (sentinel frozen)))
        (same-fail_watch _ r (sentinel frozen))))

pub same-emit : (w : World) (r : ℕ) (event : Event) → SameIdentity w (emit event r w)
unfolding emit
same-emit w r event = elim (Option-cases (env_at w r).obs) [
  | inl none_held ↦ rw (none_held, emit) logged
  | inr (o, held) ↦ elim (Bool-cases (offer (append event (env_at w r).log).0 (obs_at w o)).0) [
    | inl sent ↦ rw (held, emit) (rw sent (then_same logged (same-set_obs _ o _)))
    | inr full ↦
        rw (held, emit) (rw full (then_same logged (same-fail_watch _ r (sentinel lagged))))
  ]
]
  where
    logged :
        SameIdentity w
          (set_env w r (record (env_at w r) { log = (append event (env_at w r).log).1 }))
    logged = same-set_env w r _ refl refl

pub same-replace_tree :
    (w : World) (r : ℕ) (ctx : Ctx) (tree : Tree) (epoch : Bytes)
    → SameIdentity w (replace_tree w ctx r tree epoch).1
unfolding replace_tree
same-replace_tree w r ctx tree epoch =
    with_ctx-rule (SameIdentity w) w replace_tree_op _ same ctx (λ _.
      guarded-rule (SameIdentity w) w replace_tree_op _ same (env_at w r) (λ _ _.
        elim (Result-cases (replace (env_at w r).files tree)) [
          | inr (x, e) ↦ rw e same
          | inl (next, e) ↦ rw e (
              then_same
                (then_same (same-set_env w r (record (env_at w r) { files = next }) refl refl)
                  (same-fail_watch _ r (sentinel lagged)))
                (same-set_env _ r _ refl refl))
        ]))

module _ (w : World) (r : ℕ) where
  changed :
      (files : Snapshot) (event : Event)
      → SameIdentity w (emit event r (set_env w r (record (env_at w r) { files = files })))
  changed files event = then_same (same-set_env w r _ refl refl) (same-emit _ r event)

  pub same-write_guest_env : (path body : Bytes) → SameIdentity w (write_guest_env w r path body).1
  unfolding write_guest_env
  same-write_guest_env path body =
      guarded-rule (SameIdentity w) w guest_op _ same (env_at w r)
        (λ _ _. changed (insert path (guest_node body) (env_at w r).files) _)

  pub same-remove_guest_env : (path : Bytes) → SameIdentity w (remove_guest_env w r path).1
  unfolding remove_guest_env
  same-remove_guest_env path = guarded-rule (SameIdentity w) w guest_op _ same (env_at w r) (λ _ _.
      elim (Bool-cases (exists (lookup path (env_at w r).files))) [
        | inl there ↦ rw there (changed (delete path (env_at w r).files) _)
        | inr absent ↦ rw absent same
      ])

  same-move_guest_node :
      (from to : Bytes) (o : Option Node) → SameIdentity w (move_guest_node w r from to o).1
  same-move_guest_node from to none = same
  same-move_guest_node from to (some ent) =
      elim (Bool-cases (exists (lookup to (env_at w r).files))) [
        | inl taken ↦ rw taken same
        | inr free ↦ rw free (changed (insert to ent (delete from (env_at w r).files)) _)
      ]

  pub same-move_guest_env : (from to : Bytes) → SameIdentity w (move_guest_env w r from to).1
  unfolding move_guest_env
  same-move_guest_env from to =
      guarded-rule (SameIdentity w) w guest_op _ same (env_at w r)
        (λ _ _. same-move_guest_node from to (lookup from (env_at w r).files))

pub same-close_observation : (o : ℕ) (w : World) → SameIdentity w (close_observation o w)
unfolding close_observation
same-close_observation o w = elim (Bool-cases (is_current o (env_at w (obs_at w o).env).obs)) [
  | inl current ↦ rw (current, close_observation) (same-fail_watch w _ (sentinel closed))
  | inr stale ↦ rw (stale, close_observation) same
]

-- Revoking changes nothing else of that either.
pub same-revoke_env :
    (r : ℕ) (w : World)
    → SameIdentity
        (set_env w r (record (env_at w r) { revoked = true; frozen = false }))
        (revoke_env r w)
unfolding revoke_env
same-revoke_env r w =
    then_same (same-drop_term _ r (sentinel revoked)) (same-fail_watch _ r (sentinel revoked))
