-- ===== src/Memory/Quiet/Run.antt =====
-- No call makes a frozen or revoked environment hold a terminal or an observation.
use execenv.Base.{
  ◌<◌, ℕ, ◌≡◌, refl, Bool, false, true, not, Option, some, none, List, [], ◌∷◌, Bytes, bytes_eq,
  lookup, insert, delete, length, ltb, leb, arith, nat_eq, if◌then◌else◌, inl, inr, Option-cases,
  Bool-cases,
}
use execenv.Errors.{Result-cases, sentinel, lagged, closed, unavailable, capacity, unknown_image}
use execenv.Names.{Spec, validate_spec}
use execenv.Paths.{Event}
use execenv.Snapshot.{Tree, Node, Snapshot, replace}
use execenv.Watchlog.{append}
use execenv.Memory.State.{Ctx, World, env_at, term_at, obs_at, set_env}
use execenv.Memory.Observe.{offer}
use execenv.Memory.Env.{
  fail_watch, emit, replace_tree, replace_tree_op, write_guest_env, remove_guest_env,
  move_guest_env, move_guest_node, close_observation, exists, guest_node, guest_op, is_current,
}
use execenv.Memory.Host.{
  new_host, ensure, ensure_locked, ensure_op, ensure_new, new_environment, has_image, detach,
}
use execenv.Memory.Rules.{with_ctx-rule, guarded-rule, if-rule}
use execenv.Memory.System.{
  System, Call, call_ensure, call_detach, call_finish, call_attach, call_freeze, call_thaw,
  call_replace, call_apply, call_watch, call_write_guest, call_remove_guest, call_move_guest,
  call_read, call_write, call_resize, call_close, call_next, call_close_watch, step, run,
  is_pending, guest_write_ok, guest_move_ok, detached,
}
use execenv.Memory.Reach.{start, run-start-Safe}
use execenv.Memory.Terminal.{finished}
use execenv.Memory.Quiet.{
  Quiet, same_handles-Quiet, set_env-Quiet, fail_watch-Quiet, attach-Quiet, watch-Quiet,
  freeze-Quiet, thaw-Quiet, revoke_env-Quiet, apply_batch-Quiet,
}

emit-Quiet : (event : Event) (r : ℕ) (w : World) → Quiet w → Quiet (emit event r w)
unfolding emit
emit-Quiet event r w h = elim (Option-cases (env_at w r).obs) [
  | inl none_held ↦ rw (none_held, emit) logged
  | inr (o, held) ↦ elim (Bool-cases (offer (append event (env_at w r).log).0 (obs_at w o)).0) [
    | inl sent ↦ rw (held, emit) (rw sent logged)
    | inr full ↦ rw (held, emit) (rw full (fail_watch-Quiet (sentinel lagged) r _ logged))
  ]
]
  where
    logged : Quiet (set_env w r (record (env_at w r) { log = (append event (env_at w r).log).1 }))
    logged = same_handles-Quiet w r h _ refl refl refl refl

module _ (w : World) (r : ℕ) (h : Quiet w) where
  changed-Quiet :
      (files : Snapshot) (event : Event)
      → Quiet (emit event r (set_env w r (record (env_at w r) { files = files })))
  changed-Quiet files event =
      emit-Quiet event r _
        (same_handles-Quiet w r h (record (env_at w r) { files = files }) refl refl refl refl)

  write_guest_env-Quiet : (path body : Bytes) → Quiet (write_guest_env w r path body).1
  unfolding write_guest_env
  write_guest_env-Quiet path body =
      guarded-rule Quiet w guest_op _ h (env_at w r)
        (λ _ _. changed-Quiet (insert path (guest_node body) (env_at w r).files) _)

  remove_guest_env-Quiet : (path : Bytes) → Quiet (remove_guest_env w r path).1
  unfolding remove_guest_env
  remove_guest_env-Quiet path = guarded-rule Quiet w guest_op _ h (env_at w r) (λ _ _.
      elim (Bool-cases (exists (lookup path (env_at w r).files))) [
        | inl there ↦ rw there (changed-Quiet (delete path (env_at w r).files) _)
        | inr absent ↦ rw absent h
      ])

  move_guest_node-Quiet :
      (from to : Bytes) (o : Option Node) → Quiet (move_guest_node w r from to o).1
  move_guest_node-Quiet from to none = h
  move_guest_node-Quiet from to (some ent) =
      elim (Bool-cases (exists (lookup to (env_at w r).files))) [
        | inl taken ↦ rw taken h
        | inr free ↦ rw free (changed-Quiet (insert to ent (delete from (env_at w r).files)) _)
      ]

  move_guest_env-Quiet : (from to : Bytes) → Quiet (move_guest_env w r from to).1
  unfolding move_guest_env
  move_guest_env-Quiet from to =
      guarded-rule Quiet w guest_op _ h (env_at w r)
        (λ _ _. move_guest_node-Quiet from to (lookup from (env_at w r).files))

  replace_tree-Quiet :
      (ctx : Ctx) (tree : Tree) (epoch : Bytes) → Quiet (replace_tree w ctx r tree epoch).1
  unfolding replace_tree
  replace_tree-Quiet ctx tree epoch = with_ctx-rule Quiet w replace_tree_op _ h ctx (λ _.
      guarded-rule Quiet w replace_tree_op _ h (env_at w r) (λ _ _.
        elim (Result-cases (replace (env_at w r).files tree)) [
          | inr (x, e) ↦ rw e h
          | inl (next, e) ↦ rw e (
              same_handles-Quiet
                (fail_watch (sentinel lagged) r
                  (set_env w r (record (env_at w r) { files = next })))
                r
                (fail_watch-Quiet (sentinel lagged) r
                  (set_env w r (record (env_at w r) { files = next }))
                  (same_handles-Quiet w r h (record (env_at w r) { files = next }) refl refl refl
                    refl))
                _ refl refl refl refl)
        ]))

module _ (w : World) (h : Quiet w) where
  close_observation-Quiet : (o : ℕ) → Quiet (close_observation o w)
  unfolding close_observation
  close_observation-Quiet o = elim (Bool-cases (is_current o (env_at w (obs_at w o).env).obs)) [
    | inl current ↦ rw (current, close_observation) (fail_watch-Quiet (sentinel closed) _ w h)
    | inr stale ↦ rw (stale, close_observation) h
  ]

  ensure_new-Quiet : (spec : Spec) (epoch : Bytes) → Quiet (ensure_new w spec epoch).1
  unfolding has_image
  ensure_new-Quiet spec epoch =
      if-rule Quiet w ensure_op _ h (not (has_image spec.image w.images)) (sentinel unknown_image)
        (λ _.
          if-rule Quiet w ensure_op _ h (leb w.slots (length w.grants)) (sentinel capacity) (λ room.
            set_env-Quiet w w.envs.next (new_environment spec epoch) h (λ s. (refl, refl))))

  ensure-Quiet : (ctx : Ctx) (spec : Spec) (epoch : Bytes) → Quiet (ensure w ctx spec epoch).1
  unfolding ensure ensure_locked
  ensure-Quiet ctx spec epoch = with_ctx-rule Quiet w ensure_op _ h ctx (λ _.
      elim (Result-cases (validate_spec spec)) [
        | inr (x, e) ↦ rw e h
        | inl (u, e) ↦ rw e (
            if-rule Quiet w ensure_op _ h w.unusable (sentinel unavailable) (λ _.
              elim (Option-cases (lookup spec.id w.grants)) [
                | inr (r, held) ↦ rw held (ground (arith, h))
                | inl absent ↦ rw absent (ensure_new-Quiet spec epoch)
              ]))
      ])

new_host-Quiet :
    (images : List Bytes) (slots : ℕ) (unusable : Bool) → Quiet (start images slots unusable).world
unfolding new_host
new_host-Quiet images slots unusable q s = (refl, refl)

detached-Quiet :
    (s : System) (id : Bytes) → Quiet s.world → Quiet (detached s (detach id s.world)).world
unfolding detach
detached-Quiet s id h = elim (Option-cases (lookup id s.world.grants)) [
  | inl absent ↦ rw (absent, detach) h
  | inr (r, held) ↦ rw (held, detach) h
]

-- `c` or nothing
guarded_step-Quiet :
    (b : Bool) (s s' : System) → Quiet s.world → Quiet s'.world → Quiet (if b then s' else s).world
guarded_step-Quiet true s s' h h' = h'
guarded_step-Quiet false s s' h h' = h

step-Quiet : (s : System) (c : Call) → Quiet s.world → Quiet (step s c).world
unfolding step
step-Quiet s (call_ensure ctx spec epoch) h = ensure-Quiet s.world h ctx spec epoch
step-Quiet s (call_detach id) h = detached-Quiet s id h
step-Quiet s (call_finish r) h =
    guarded_step-Quiet (is_pending r s.pending) s _ h (revoke_env-Quiet s.world r h)
step-Quiet s (call_attach ctx r win) h =
    guarded_step-Quiet (ltb r s.world.envs.next) s _ h (attach-Quiet s.world r h ctx win)
step-Quiet s (call_freeze ctx r) h = freeze-Quiet s.world r h ctx
step-Quiet s (call_thaw ctx r) h = thaw-Quiet s.world r h ctx
step-Quiet s (call_replace ctx r tree epoch) h = replace_tree-Quiet s.world r h ctx tree epoch
step-Quiet s (call_apply ctx r batch) h = apply_batch-Quiet s.world r h ctx batch
step-Quiet s (call_watch ctx r cursor) h =
    guarded_step-Quiet (ltb r s.world.envs.next) s _ h (watch-Quiet s.world r h ctx cursor)
step-Quiet s (call_write_guest r path body) h =
    guarded_step-Quiet (guest_write_ok path body) s _ h
      (write_guest_env-Quiet s.world r h path body)
step-Quiet s (call_remove_guest r path) h = remove_guest_env-Quiet s.world r h path
step-Quiet s (call_move_guest r from to) h =
    guarded_step-Quiet (guest_move_ok to) s _ h (move_guest_env-Quiet s.world r h from to)
step-Quiet s (call_read t n) h = h
step-Quiet s (call_write t p) h = h
step-Quiet s (call_resize ctx t win) h = h
step-Quiet s (call_close t) h = h
step-Quiet s (call_next ctx chosen o) h = h
step-Quiet s (call_close_watch o) h = close_observation-Quiet s.world h o

run-Quiet : (s : System) (cs : List Call) → Quiet s.world → Quiet (run s cs).world
unfolding run
run-Quiet s [] h = h
run-Quiet s (c ∷ cs) h = run-Quiet (step s c) cs (step-Quiet s c h)

module _ (images : List Bytes) (slots : ℕ) (unusable : Bool) (cs : List Call) where
  start-Quiet : Quiet (run (start images slots unusable) cs).world
  start-Quiet = run-Quiet (start images slots unusable) cs (new_host-Quiet images slots unusable)

  -- In every state reached from New, the environment of a terminal that is still usable is neither
  -- frozen nor revoked, and nor is that of an observation that has not failed.
  pub usable_when_running :
      let w = (run (start images slots unusable) cs).world in
      ((t : ℕ)
        → t < w.terms.next
        → finished (term_at w t) ≡ false
        → ((env_at w (term_at w t).env).frozen ≡ false)
          × ((env_at w (term_at w t).env).revoked ≡ false))
      × ((o : ℕ)
          → o < w.observations.next
          → (obs_at w o).spent ≡ false
          → ((env_at w (obs_at w o).env).frozen ≡ false)
            × ((env_at w (obs_at w o).env).revoked ≡ false))
  usable_when_running =
      let w = (run (start images slots unusable) cs).world in
      let i = (run-start-Safe images slots unusable cs).inv in
      (
        λ t lt live. ground (arith, i.term_live t lt live, start-Quiet (term_at w t).env),
        λ o lt live. ground (arith, i.obs_live o lt live, start-Quiet (obs_at w o).env),
      )
