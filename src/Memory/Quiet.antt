-- ===== src/Memory/Quiet.antt =====
-- A frozen or revoked environment has neither a terminal nor an observation.
pub mod Run
use execenv.Base.{
  ℕ, ◌≡◌, refl, sym, ◌∙◌, subst, Bool, false, true, not, ◌||◌, Option, some, none, List, [], ◌∷◌,
  Bytes, bytes_eq, lookup, insert, delete, length, ltb, leb, arith, ◌==◌, nat_eq, nat_beq_iff,
  if◌then◌else◌, inl, inr, Option-cases, Bool-cases,
}
use execenv.Errors.{
  Error, Result, ok, err, Result-cases, sentinel, frozen, revoked, lagged, closed, busy,
  unavailable, capacity, unknown_image,
}
use execenv.Names.{Spec, validate_spec}
use execenv.Paths.{Event}
use execenv.Snapshot.{Mutation, Tree, Node, Snapshot, replace, apply}
use execenv.Watchlog.{append, since}
use execenv.Memory.State.{
  Ctx, Window, Environment, World, env_at, term_at, obs_at, set_env, set_term, set_obs, fresh,
}
use execenv.Memory.Terminal.{new_terminal}
use execenv.Memory.Observe.{offer}
use execenv.Memory.Env.{
  drop_term, fail_watch, revoke_env, emit, attach, attach_op, freeze, freeze_op, thaw, thaw_op,
  watch, watch_op, replace_tree, replace_tree_op, apply_batch, apply_batch_op, write_guest_env,
  remove_guest_env, move_guest_env, move_guest_node, close_observation, exists, guest_node,
  guest_op, is_current,
}
use execenv.Memory.Host.{
  ensure, ensure_locked, ensure_op, ensure_new, ensure_existing, new_environment, has_image, detach,
}
use execenv.Memory.Frames.{env_at-drop_term, env_at-fail_watch}
use execenv.Memory.Rules.{with_ctx-rule, guarded-rule, if-rule}
use execenv.Memory.System.{
  System, Call, call_ensure, call_detach, call_finish, call_attach, call_freeze, call_thaw,
  call_replace, call_apply, call_watch, call_write_guest, call_remove_guest, call_move_guest,
  call_read, call_write, call_resize, call_close, call_next, call_close_watch, step, run,
  is_pending, guest_write_ok, guest_move_ok, detached,
}

-- Nobody uses a stopped environment.
abbrev pub IsIdle : Environment → Type 0
IsIdle e = e.frozen || e.revoked ≡ true → (e.term ≡ none) × (e.obs ≡ none)

abbrev pub Quiet : World → Type 0
Quiet w = (q : ℕ) → IsIdle (env_at w q)

set_env-Quiet : (w : World) (r : ℕ) (e : Environment) → Quiet w → IsIdle e → Quiet (set_env w r e)
set_env-Quiet w r e h idle q = elim (Bool-cases (q == r)) [
  | inl hit ↦ rw hit idle
  | inr miss ↦ rw miss (h q)
]

module _ (reason : Error) (r : ℕ) (w : World) (h : Quiet w) where
  fail_watch-Quiet : Quiet (fail_watch reason r w)
  fail_watch-Quiet q =
      rw (env_at-fail_watch reason r w q)
        (set_env-Quiet w r (record (env_at w r) { obs = none }) h (λ s. ((h r s).0, refl)) q)

  -- Whatever becomes of the environment itself, it is idle once both its handles are dropped.
  silenced-Quiet :
      (reason' : Error) (e : Environment)
      → Quiet (fail_watch reason r (drop_term reason' r (set_env w r e)))
  silenced-Quiet reason' e q = elim (Bool-cases (q == r)) [
    | inl hit ↦
        rw
          (
            env_at-fail_watch reason r (drop_term reason' r (set_env w r e)) q,
            hit,
            env_at-drop_term reason' r (set_env w r e) r,
            (nat_beq_iff r r).1 refl,
          )
          (λ s. (refl, refl))
    | inr miss ↦
        rw
          (
            env_at-fail_watch reason r (drop_term reason' r (set_env w r e)) q,
            miss,
            env_at-drop_term reason' r (set_env w r e) q,
            miss,
          )
          (h q)
  ]

module _ (w : World) (r : ℕ) (h : Quiet w) where
  -- A change that leaves the environment's flags and handles.
  same_handles-Quiet :
      (e : Environment)
      → e.frozen ≡ (env_at w r).frozen
      → e.revoked ≡ (env_at w r).revoked
      → e.term ≡ (env_at w r).term
      → e.obs ≡ (env_at w r).obs
      → Quiet (set_env w r e)
  same_handles-Quiet e f g t o = set_env-Quiet w r e h (rw (f, g, t, o) (h r))

  attach-Quiet : (ctx : Ctx) (win : Window) → Quiet (attach w ctx r win).1
  unfolding attach
  attach-Quiet ctx win = with_ctx-rule Quiet w attach_op _ h ctx (λ _.
      guarded-rule Quiet w attach_op _ h (env_at w r) (λ live warm.
        if-rule Quiet w attach_op
          (
            ok w.terms.next,
            set_env (record w { terms = fresh w.terms (new_terminal r win) }) r
                (record (env_at w r) { term = some w.terms.next }),
          )
          h _ (sentinel busy)
          (λ _.
            set_env-Quiet w r (record (env_at w r) { term = some w.terms.next }) h
              (λ s. ground (arith, live, warm, s)))))

  watch-Quiet : (ctx : Ctx) (after : Bytes) → Quiet (watch w ctx r after).1
  unfolding watch
  watch-Quiet ctx after = with_ctx-rule Quiet w watch_op _ h ctx (λ _.
      guarded-rule Quiet w watch_op _ h (env_at w r) (λ live warm.
        elim (Option-cases (env_at w r).obs) [
          | inr (o, e) ↦ rw e h
          | inl free ↦ elim (Result-cases (since (env_at w r).log after)) [
            | inr (x, e) ↦ rw (free, e) h
            | inl ((cursor, replay), e) ↦
                rw (free, e)
                  (set_env-Quiet w r (record (env_at w r) { obs = some w.observations.next }) h
                    (λ s. ground (arith, live, warm, s)))
          ]
        ]))

  freeze-Quiet : (ctx : Ctx) → Quiet (freeze w ctx r).1
  unfolding freeze
  freeze-Quiet ctx = with_ctx-rule Quiet w freeze_op _ h ctx (λ _.
      if-rule Quiet w freeze_op _ h (env_at w r).revoked (sentinel revoked) (λ _.
        silenced-Quiet (sentinel frozen) r w h (sentinel frozen)
          (record (env_at w r) { frozen = true })))

  revoke_env-Quiet : Quiet (revoke_env r w)
  unfolding revoke_env
  revoke_env-Quiet =
      silenced-Quiet (sentinel revoked) r w h (sentinel revoked)
        (record (env_at w r) { revoked = true; frozen = false })

  thaw-Quiet : (ctx : Ctx) → Quiet (thaw w ctx r).1
  unfolding thaw
  thaw-Quiet ctx = with_ctx-rule Quiet w thaw_op _ h ctx (λ _.
      if-rule Quiet w thaw_op _ h (env_at w r).revoked (sentinel revoked) (λ live.
        set_env-Quiet w r (record (env_at w r) { frozen = false }) h
          (λ s. ground (arith, live, s))))

  apply_batch-Quiet : (ctx : Ctx) (batch : List Mutation) → Quiet (apply_batch w ctx r batch).1
  unfolding apply_batch
  apply_batch-Quiet ctx batch = with_ctx-rule Quiet w apply_batch_op _ h ctx (λ _.
      guarded-rule Quiet w apply_batch_op _ h (env_at w r) (λ _ _.
        elim (Result-cases (apply (env_at w r).files batch)) [
          | inl (next, e) ↦
              rw e (same_handles-Quiet (record (env_at w r) { files = next }) refl refl refl refl)
          | inr (x, e) ↦ rw e h
        ]))
