-- ===== src/Memory/Guest.antt =====
-- The guest's writes, the terminal's and the observation's methods, and the host's own methods
-- keep the world well formed.
use execenv.Base.{
  not, ℕ, ◌≤◌, ◌≡◌, refl, Bool, false, Option, none, some, Bytes, bytes_eq, bytes_beq_iff, length,
  leb, lookup, insert, delete, lookup-insert, lookup-delete, insert-IsDistinct, delete-IsDistinct,
  length-insert_absent, length-delete-le, arith, ◌==◌, nat_eq, Option-cases, Bool-cases, inl, inr,
}
use execenv.Errors.{Result-cases, unknown_image, capacity, unavailable, ok, sentinel, closed}
use execenv.Names.{validate_spec, Spec}
use execenv.Paths.{Event, validate_path, max_file_bytes}
use execenv.Snapshot.{Node, Snapshot}
use execenv.Snapshot.Invariant.{
  IsProjection, IsProjection-empty, IsProjection-insert, IsProjection-delete,
}
use execenv.Memory.State.{
  Window, World, Ctx, env_at, term_at, obs_at, set_env, set_term, set_obs, fresh,
}
use execenv.Memory.Terminal.{finished, read, write, resize, close}
use execenv.Memory.Observe.{next_event}
use execenv.Memory.Env.{
  guest_op, write_guest_env, remove_guest_env, move_guest_env, move_guest_node, guest_node, exists,
  emit, close_observation, is_current,
}
use execenv.Memory.Host.{
  new_environment, has_image, ensure, ensure_locked, ensure_op, ensure_new, ensure_existing,
}
use execenv.Memory.Invariant.{Inv, set_term-Inv, set_obs-Inv, fail_watch-Inv}
use execenv.Memory.Keeps.{set_files-Inv, emit-Inv}
use execenv.Memory.Rules.{with_ctx-rule, guarded-rule, if-rule}

module _ (w : World) (i : Inv w) (r : ℕ) where
  -- A change of the files, and its event.
  changed-Inv :
      (files : Snapshot) (event : Event)
      → IsProjection files
      → Inv (emit event r (set_env w r (record (env_at w r) { files = files })))
  changed-Inv files event p = emit-Inv event r _ (set_files-Inv w i r files p)

  pub write_guest_env-Inv :
      (path body : Bytes)
      → validate_path path ≡ ok tt
      → length body ≤ max_file_bytes
      → Inv (write_guest_env w r path body).1
  unfolding write_guest_env
  write_guest_env-Inv path body valid small = guarded-rule Inv w guest_op _ i (env_at w r) (λ _ _.
      changed-Inv (insert path (guest_node body) (env_at w r).files) _ (
        IsProjection-insert (env_at w r).files path (guest_node body) (i.projected r)
          (record { valid = valid; fits = small })))

  pub remove_guest_env-Inv : (path : Bytes) → Inv (remove_guest_env w r path).1
  unfolding remove_guest_env
  remove_guest_env-Inv path = guarded-rule Inv w guest_op _ i (env_at w r) (λ _ _.
      elim (Bool-cases (exists (lookup path (env_at w r).files))) [
        | inl there ↦ rw there (
            changed-Inv (delete path (env_at w r).files) _
              (IsProjection-delete (env_at w r).files path (i.projected r)))
        | inr absent ↦ rw absent i
      ])

  move_guest_node-Inv :
      (from to : Bytes) (o : Option Node)
      → lookup from (env_at w r).files ≡ o
      → validate_path to ≡ ok tt
      → Inv (move_guest_node w r from to o).1
  move_guest_node-Inv from to none e valid = i
  move_guest_node-Inv from to (some ent) e valid =
      elim (Bool-cases (exists (lookup to (env_at w r).files))) [
        | inl taken ↦ rw taken i
        | inr free ↦ rw free (
            changed-Inv (insert to ent (delete from (env_at w r).files)) _ (
              IsProjection-insert (delete from (env_at w r).files) to ent
                (IsProjection-delete (env_at w r).files from (i.projected r))
                (record { valid = valid; fits = ((i.projected r).at_path from ent e).fits })))
      ]

  pub move_guest_env-Inv :
      (from to : Bytes) → validate_path to ≡ ok tt → Inv (move_guest_env w r from to).1
  unfolding move_guest_env
  move_guest_env-Inv from to valid =
      guarded-rule Inv w guest_op _ i (env_at w r)
        (λ _ _. move_guest_node-Inv from to (lookup from (env_at w r).files) refl valid)

module _ (w : World) (i : Inv w) (t : ℕ) where
  pub read-Inv : (n : ℕ) → Inv (set_term w t (read (term_at w t) n).1)
  unfolding read finished
  read-Inv n = set_term-Inv w t _ i (ground arith) (ground arith) (ground arith)

  pub write-Inv : (p : Bytes) → Inv (set_term w t (write (term_at w t) p).1)
  unfolding write finished
  write-Inv p = set_term-Inv w t _ i (ground arith) (ground arith) (ground arith)

  pub resize-Inv : (ctx : Ctx) (win : Window) → Inv (set_term w t (resize (term_at w t) ctx win).1)
  unfolding resize finished
  resize-Inv ctx win = set_term-Inv w t _ i (ground arith) (ground arith) (ground arith)

  pub close-Inv : Inv (set_term w t (close (term_at w t)))
  unfolding close finished
  close-Inv = set_term-Inv w t _ i refl refl (λ h. cc h)

module _ (w : World) (i : Inv w) (o : ℕ) where
  pub next_event-Inv :
      (ctx : Ctx) (chosen : Bool) → Inv (set_obs w o (next_event ctx chosen (obs_at w o)).1)
  unfolding next_event
  next_event-Inv ctx chosen = set_obs-Inv w o _ i (ground arith) (ground arith) (ground arith)

  pub close_observation-Inv : Inv (close_observation o w)
  unfolding close_observation
  close_observation-Inv = elim (Bool-cases (is_current o (env_at w (obs_at w o).env).obs)) [
    | inl current ↦ rw (current, close_observation) (fail_watch-Inv w i (sentinel closed) _)
    | inr stale ↦ rw (stale, close_observation) i
  ]

module _ (w : World) (i : Inv w) where
  pub granted-Inv :
      (spec : Spec) (epoch : Bytes)
      → lookup spec.id w.grants ≡ none
      → leb w.slots (length w.grants) ≡ false
      → Inv (record w {
        grants = insert spec.id w.envs.next w.grants;
        envs = fresh w.envs (new_environment spec epoch);
      })
  granted-Inv spec epoch absent room = record {
    distinct = insert-IsDistinct spec.id w.envs.next w.grants i.distinct;
    bounded = ground (arith, length-insert_absent spec.id w.envs.next w.grants absent, room);
    named = λ id q h. ground (
      arith,
      lookup-insert spec.id id w.envs.next w.grants,
      bytes_beq_iff spec.id id,
      i.named id q,
    );
    projected = λ q. elim (Bool-cases (q == w.envs.next)) [
      | inl hit ↦ rw hit IsProjection-empty
      | inr miss ↦ rw miss (i.projected q)
    ];
    term_held = λ q t h. ground (arith, i.term_held q t);
    term_live = λ t lt h. ground (arith, i.term_live t, i.unmade w.envs.next);
    obs_held = λ q o h. ground (arith, i.obs_held q o);
    obs_live = λ o lt h. ground (arith, i.obs_live o, i.unmade w.envs.next);
    unmade = λ q le. ground (arith, i.unmade q);
  }

  pub found-Inv :
      (id : Bytes) (r : ℕ)
      → lookup id w.grants ≡ some r
      → Inv (record w { grants = delete id w.grants })
  found-Inv id r e = record {
    distinct = delete-IsDistinct id w.grants i.distinct;
    bounded = ground (arith, length-delete-le id w.grants, i.bounded);
    named = λ other q h. ground (arith, lookup-delete id other w.grants, i.named other q);
    projected = i.projected;
    term_held = i.term_held;
    term_live = i.term_live;
    obs_held = i.obs_held;
    obs_live = i.obs_live;
    unmade = i.unmade;
  }

  ensure_new-Inv :
      (spec : Spec) (epoch : Bytes)
      → lookup spec.id w.grants ≡ none
      → Inv (ensure_new w spec epoch).1
  unfolding has_image
  ensure_new-Inv spec epoch absent =
      if-rule Inv w ensure_op _ i (not (has_image spec.image w.images)) (sentinel unknown_image)
        (λ _.
          if-rule Inv w ensure_op _ i (leb w.slots (length w.grants)) (sentinel capacity)
            (λ room. granted-Inv spec epoch absent room))

  ensure_existing-Inv : (spec : Spec) (r : ℕ) → Inv (ensure_existing w spec r).1
  ensure_existing-Inv spec r = ground (arith, i)

  pub ensure-Inv : (ctx : Ctx) (spec : Spec) (epoch : Bytes) → Inv (ensure w ctx spec epoch).1
  unfolding ensure ensure_locked
  ensure-Inv ctx spec epoch = with_ctx-rule Inv w ensure_op _ i ctx (λ _.
      elim (Result-cases (validate_spec spec)) [
        | inr (x, e) ↦ rw e i
        | inl (u, e) ↦ rw e (
            if-rule Inv w ensure_op _ i w.unusable (sentinel unavailable) (λ _.
              elim (Option-cases (lookup spec.id w.grants)) [
                | inr (r, held) ↦ rw held (ensure_existing-Inv spec r)
                | inl absent ↦ rw absent (ensure_new-Inv spec epoch absent)
              ]))
      ])
