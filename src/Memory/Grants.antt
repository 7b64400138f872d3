-- ===== src/Memory/Grants.antt =====
-- What callers of memory's Host can rely on when they ensure and revoke.
use execenv.Base.{
  ℕ, suc, ◌≡◌, ◌≢◌, ◌-◌, refl, ◌∙◌, Bool, false, true, some, none, Bytes, bytes_eq, bytes_beq_iff,
  bytes_beq_self, length, lookup, delete, lookup-insert, lookup-delete, length-delete_held, arith,
  ◌==◌, nat_eq, nat_beq_iff,
}
use execenv.Errors.{Error, Result, ok, err}
use execenv.Names.{Spec}
use execenv.Memory.State.{World, Ctx, env_at}
use execenv.Memory.Env.{revoke_env}
use execenv.Memory.Invariant.{Inv}
use execenv.Memory.Identity.{same-revoke_env}
use execenv.Memory.Frames.{
  env_at-drop_term, env_at-fail_watch, SameRest-drop_term, SameRest-fail_watch,
}
use execenv.Memory.Host.{
  ensure, ensure_locked, has_image, network_rank, revoke, revoke_handle, detach,
}

abbrev pub is_ok : {A : Type 0} → Result A → Bool
is_ok (ok a) = true
is_ok (err e) = false

module _ (w : World) (spec : Spec) (epoch : Bytes) where
  -- An Ensure that fails leaves the host as it was, whatever the reason.
  pub ensure-err :
      (ctx : Ctx) (e : Error) (w' : World) → ensure w ctx spec epoch ≡ (err e, w') → w' ≡ w
  unfolding ensure ensure_locked has_image
  ensure-err ctx e w' h = ground arith

  -- Ensure is idempotent: after an Ensure that returns an environment, an Ensure of the same spec
  -- returns the same environment and changes nothing.
  pub ensure-ensure :
      (ctx : Ctx) (later : Bytes) (r : ℕ) (w' : World)
      → ensure w ctx spec epoch ≡ (ok r, w')
      → ensure w' none spec later ≡ (ok r, w')
  unfolding ensure ensure_locked
  ensure-ensure ctx later r w' h = ground (
    arith,
    lookup-insert spec.id spec.id w.envs.next w.grants,
    bytes_beq_self spec.id,
    bytes_beq_self spec.image,
    nat_beq_iff (network_rank spec.network) (network_rank spec.network),
  )

revoked_at : (r : ℕ) (w : World) → (env_at (revoke_env r w) r).revoked ≡ true
revoked_at r w = (same-revoke_env r w).lives r ∙ rw ((nat_beq_iff r r).1 refl)

slots-revoke_env : (r : ℕ) (w : World) → (revoke_env r w).slots ≡ w.slots
unfolding revoke_env
slots-revoke_env r w = (SameRest-fail_watch _ r _).slots ∙ (SameRest-drop_term _ r _).slots

untouched : (r q : ℕ) (w : World) → r ≢ q → env_at (revoke_env r w) q ≡ env_at w q
unfolding revoke_env
untouched r q w other =
    let miss : (q == r) ≡ false = ground (arith, other) in
    env_at-fail_watch _ r _ q ∙ rw miss (env_at-drop_term _ r _ q ∙ rw miss)

module _ (w : World) (id : Bytes) (r : ℕ) (held : lookup id w.grants ≡ some r) where
  pub revoke_held :
      revoke w none id ≡ (ok tt, revoke_env r (record w { grants = delete id w.grants }))
  unfolding revoke detach
  revoke_held = ground (arith, held)

-- Revoking a granted id, in a well-formed world: the id is no longer granted, every other id leads
-- where it did, its environment is revoked, and one more slot is free.
pub revoke-frees :
    (w : World) (id : Bytes) (r : ℕ)
    → Inv w
    → lookup id w.grants ≡ some r
    → let w' = (revoke w none id).1 in
      (lookup id w'.grants ≡ none)
      × ((other : Bytes) → other ≢ id → lookup other w'.grants ≡ lookup other w.grants)
      × ((env_at w' r).revoked ≡ true)
      × (w'.slots - length w'.grants ≡ suc (w.slots - length w.grants))
revoke-frees w id r i held = rw (revoke_held w id r held) (
  rw (same-revoke_env r _).grants (lookup-delete id id w.grants ∙ rw (bytes_beq_self id)),
  λ other miss.
      rw (same-revoke_env r _).grants
        (ground (arith, lookup-delete id other w.grants, bytes_beq_iff id other, miss)),
  revoked_at r _,
  rw ((same-revoke_env r _).grants, slots-revoke_env r _)
      (ground (arith, i.bounded, length-delete_held id w.grants r i.distinct held)),
)

-- A handle kept after its grant was revoked and its id granted anew: its Revoke revokes the
-- environment of the new grant, and leaves the handle's own environment as it was.
pub revoke_handle-stale :
    (w : World) (r q : ℕ)
    → lookup (env_at w r).id w.grants ≡ some q
    → q ≢ r
    → let w' = (revoke_handle w none r).1 in
      ((env_at w' q).revoked ≡ true) × (env_at w' r ≡ env_at w r)
unfolding revoke_handle
revoke_handle-stale w r q held other =
    rw (revoke_held w (env_at w r).id q held) (revoked_at q _, untouched q r _ other)
