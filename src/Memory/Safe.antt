-- ===== src/Memory/Safe.antt =====
-- What holds of memory's Host after any calls, in any interleaving.
pub mod Run
use mathlib.Core.Bool.{true≢false}
use execenv.Base.{
  not, ℕ, ◌≤◌, ◌<◌, ◌≡◌, ◌≢◌, sym, ◌∙◌, true, false, none, some, List, [], ◌∷◌, Bytes, bytes_eq,
  bytes_beq_iff, length, ltb, leb, lookup, insert, delete, lookup-insert, lookup-delete, arith,
  ◌==◌, nat_eq, nat_beq_iff, if◌then◌else◌, Option-cases, Bool-cases, inl, inr, ◌⊎◌,
}
use execenv.Errors.{sentinel, unavailable, unknown_image, capacity, ok, Result-cases}
use execenv.Names.{validate_spec, Spec}
use execenv.Paths.{validate_path, max_file_bytes}
use execenv.Memory.State.{fresh, World, Ctx, env_at}
use execenv.Memory.Env.{revoke_env}
use execenv.Memory.Host.{
  ensure, detach, new_environment, has_image, ensure_locked, ensure_op, ensure_new, ensure_existing,
}
use execenv.Memory.Invariant.{Inv}
use execenv.Memory.Keeps.{
  attach-Inv, freeze-Inv, thaw-Inv, replace_tree-Inv, apply_batch-Inv, watch-Inv, revoke_env-Inv,
}
use execenv.Memory.Guest.{
  write_guest_env-Inv, remove_guest_env-Inv, move_guest_env-Inv, read-Inv, write-Inv, resize-Inv,
  close-Inv, next_event-Inv, close_observation-Inv, found-Inv, granted-Inv,
}
use execenv.Memory.Identity.{
  SameIdentity, same-attach, same-freeze, same-thaw, same-replace_tree, same-apply_batch,
  same-watch, same-write_guest_env, same-remove_guest_env, same-move_guest_env,
  same-close_observation, same-set_term, same-set_obs, same-revoke_env,
}
use execenv.Memory.Rules.{with_ctx-rule, if-rule}
use execenv.Memory.System.{
  System, Call, call_ensure, call_detach, call_finish, call_attach, call_freeze, call_thaw,
  call_replace, call_apply, call_watch, call_write_guest, call_remove_guest, call_move_guest,
  call_read, call_write, call_resize, call_close, call_next, call_close_watch, step, run,
  is_pending, forget, guest_write_ok, guest_move_ok, detached,
}

pub record Safe (s : System) : Type 0 where
  pub inv : Inv s.world
  -- What Revoke has yet to revoke is an environment, and no grant leads to it.
  pub waiting :
      (r : ℕ)
      → is_pending r s.pending ≡ true
      → (r < s.world.envs.next) × ((id : Bytes) → lookup id s.world.grants ≢ some r)
  -- No environment is lost: it is granted, about to be revoked, or revoked.
  pub tracked :
      (r : ℕ)
      → r < s.world.envs.next
      → (env_at s.world r).revoked ≡ false
      → (lookup (env_at s.world r).id s.world.grants ≡ some r) ⊎ (is_pending r s.pending ≡ true)

abbrev Fits : System → World → Type 0
Fits s w = Safe (record s { world = w })

kept-Safe :
    (s : System) (w : World)
    → Safe s
    → Inv w
    → SameIdentity s.world w
    → Safe (record s { world = w })
kept-Safe s w safe i k = record {
  inv = i;
  waiting = λ r h. rw (k.grants, k.envs) (safe.waiting r h);
  tracked = λ r lt live.
      rw (k.grants, k.ids r) (safe.tracked r (rw (← k.envs) lt) (rw (← k.lives r) live));
}

forget-is_pending :
    (r q : ℕ) (rs : List ℕ) → is_pending q (forget r rs) ≡ true → is_pending q rs ≡ true
unfolding is_pending forget
forget-is_pending r q [] h = h
forget-is_pending r q (p ∷ rs) h = ground (arith, forget-is_pending r q rs)

forget-other :
    (r q : ℕ) (rs : List ℕ)
    → (q == r) ≡ false
    → is_pending q rs ≡ true
    → is_pending q (forget r rs) ≡ true
unfolding is_pending forget
forget-other r q [] miss h = h
forget-other r q (p ∷ rs) miss h = ground (arith, forget-other r q rs)

revoked-at :
    (w : World) (r q : ℕ)
    → (env_at (revoke_env r w) q).revoked ≡ (if q == r then true else (env_at w q).revoked)
revoked-at w r q = elim (Bool-cases (q == r)) [
  | inl hit ↦ (same-revoke_env r w).lives q ∙ rw hit
  | inr miss ↦ (same-revoke_env r w).lives q ∙ rw miss
]

id-at : (w : World) (r q : ℕ) → (env_at (revoke_env r w) q).id ≡ (env_at w q).id
id-at w r q = elim (Bool-cases (q == r)) [
  | inl hit ↦ (same-revoke_env r w).ids q ∙ rw (hit, (nat_beq_iff q r).0 hit)
  | inr miss ↦ (same-revoke_env r w).ids q ∙ rw miss
]

guest_write-path :
    (path body : Bytes) → guest_write_ok path body ≡ true → validate_path path ≡ ok tt
guest_write-path path body good = ground arith

guest_write-size :
    (path body : Bytes) → guest_write_ok path body ≡ true → length body ≤ max_file_bytes
guest_write-size path body good = ground arith

guest_move-path : (to : Bytes) → guest_move_ok to ≡ true → validate_path to ≡ ok tt
guest_move-path to good = ground arith

module _ (s : System) (safe : Safe s) where
  call_finish-Safe :
      (r : ℕ)
      → is_pending r s.pending ≡ true
      → Safe (record { world = revoke_env r s.world; pending = forget r s.pending })
  call_finish-Safe r h = record {
    inv = revoke_env-Inv s.world safe.inv r (safe.waiting r h).1;
    waiting = λ q p.
        rw ((same-revoke_env r s.world).grants, (same-revoke_env r s.world).envs)
          (safe.waiting q (forget-is_pending r q s.pending p));
    tracked = λ q lt live.
        rw (id-at s.world r q, (same-revoke_env r s.world).grants)
          (elim (Bool-cases (q == r)) [
            | inl hit ↦ absurd (true≢false (sym (revoked-at s.world r q ∙ rw hit) ∙ live))
            | inr miss ↦
                elim (safe.tracked q (rw (← (same-revoke_env r s.world).envs) lt)
                  (sym (revoked-at s.world r q ∙ rw miss) ∙ live)) [
                    | inl granted ↦ inl granted
                    | inr pending ↦ inr (forget-other r q s.pending miss pending)
                  ]
          ]);
  }

  unreachable :
      (q : ℕ) (id : Bytes) → is_pending q s.pending ≡ true → lookup id s.world.grants ≢ some q
  unreachable q id p = (safe.waiting q p).1 id

  found-Safe :
      (id : Bytes) (r : ℕ)
      → lookup id s.world.grants ≡ some r
      → Safe (record {
        world = record s.world { grants = delete id s.world.grants };
        pending = r ∷ s.pending;
      })
  unfolding is_pending
  found-Safe id r found = record {
    inv = found-Inv s.world safe.inv id r found;
    waiting = λ q p. (
      ground (arith, safe.waiting q, safe.inv.named id r found),
      λ other h. ground (
        arith,
        lookup-delete id other s.world.grants,
        bytes_beq_iff id other,
        safe.waiting q,
        unreachable q other,
        safe.inv.named id r found,
        safe.inv.named other q,
      ),
    );
    tracked = λ q lt live. ground (
      arith,
      safe.tracked q lt live,
      lookup-delete id (env_at s.world q).id s.world.grants,
      bytes_beq_iff id (env_at s.world q).id,
    );
  }

  call_detach-Safe : (id : Bytes) → Safe (detached s (detach id s.world))
  unfolding detach
  call_detach-Safe id = elim (Option-cases (lookup id s.world.grants)) [
    | inl absent ↦ rw (absent, detach) safe
    | inr (r, found) ↦ rw (found, detach) (found-Safe id r found)
  ]

  granted-Safe :
      (spec : Spec) (epoch : Bytes)
      → lookup spec.id s.world.grants ≡ none
      → Inv (record s.world {
        grants = insert spec.id s.world.envs.next s.world.grants;
        envs = fresh s.world.envs (new_environment spec epoch);
      })
      → Safe (record s {
        world = record s.world {
          grants = insert spec.id s.world.envs.next s.world.grants;
          envs = fresh s.world.envs (new_environment spec epoch);
        };
      })
  granted-Safe spec epoch absent i = record {
    inv = i;
    waiting = λ q p. (
      ground (arith, safe.waiting q p),
      λ id h. ground (
        arith,
        lookup-insert spec.id id s.world.envs.next s.world.grants,
        safe.waiting q p,
        (safe.waiting q p).1 id,
      ),
    );
    tracked = λ q lt live. ground (
      arith,
      safe.tracked q,
      lookup-insert spec.id (env_at s.world q).id s.world.envs.next s.world.grants,
      lookup-insert spec.id spec.id s.world.envs.next s.world.grants,
      bytes_beq_iff spec.id spec.id,
      bytes_beq_iff spec.id (env_at s.world q).id,
    );
  }

  ensure_new-Safe :
      (spec : Spec) (epoch : Bytes)
      → lookup spec.id s.world.grants ≡ none
      → Fits s (ensure_new s.world spec epoch).1
  unfolding has_image
  ensure_new-Safe spec epoch absent =
      if-rule (Fits s) s.world ensure_op _ safe (not (has_image spec.image s.world.images))
        (sentinel unknown_image)
        (λ _.
          if-rule (Fits s) s.world ensure_op _ safe (leb s.world.slots (length s.world.grants))
            (sentinel capacity)
            (λ room.
              granted-Safe spec epoch absent (granted-Inv s.world safe.inv spec epoch absent room)))

  ensure_existing-Safe : (spec : Spec) (r : ℕ) → Fits s (ensure_existing s.world spec r).1
  ensure_existing-Safe spec r = ground (arith, safe)

  call_ensure-Safe :
      (ctx : Ctx) (spec : Spec) (epoch : Bytes)
      → Safe (record s { world = (ensure s.world ctx spec epoch).1 })
  unfolding ensure ensure_locked
  call_ensure-Safe ctx spec epoch = with_ctx-rule (Fits s) s.world ensure_op _ safe ctx (λ _.
      elim (Result-cases (validate_spec spec)) [
        | inr (x, e) ↦ rw e safe
        | inl (u, e) ↦ rw e (
            if-rule (Fits s) s.world ensure_op _ safe s.world.unusable (sentinel unavailable) (λ _.
              elim (Option-cases (lookup spec.id s.world.grants)) [
                | inr (r, held) ↦ rw held (ensure_existing-Safe spec r)
                | inl absent ↦ rw absent (ensure_new-Safe spec epoch absent)
              ]))
      ])
