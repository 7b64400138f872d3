-- ===== src/Memory/Forever.antt =====
-- Revocation is final.
use execenv.Base.{
  ℕ, ◌<◌, ◌≡◌, ◌∙◌, Bool, true, false, List, [], ◌∷◌, Bytes, bytes_eq, ltb, lookup, arith, nat_eq,
  if◌then◌else◌, Option-cases, inl, inr,
}
use execenv.Errors.{revoked, sentinel}
use execenv.Names.{Spec}
use execenv.Memory.State.{World, Ctx, env_at}
use execenv.Memory.Env.{revoke_env}
use execenv.Memory.Host.{ensure, detach, has_image, ensure_locked}
use execenv.Memory.Identity.{
  SameIdentity, same-attach, same-freeze, same-thaw, same-replace_tree, same-apply_batch,
  same-watch, same-write_guest_env, same-remove_guest_env, same-move_guest_env,
  same-close_observation, same-revoke_env,
}
use execenv.Memory.System.{
  System, Call, call_ensure, call_detach, call_finish, call_attach, call_freeze, call_thaw,
  call_replace, call_apply, call_watch, call_write_guest, call_remove_guest, call_move_guest,
  call_read, call_write, call_resize, call_close, call_next, call_close_watch, step, run,
  is_pending, guest_write_ok, guest_move_ok, detached,
}
use execenv.Memory.Handles.{RefusesAll, revoked-RefusesAll}

-- The environment at r was made, and is revoked.
abbrev IsGone : ℕ → World → Type 0
IsGone r w = (r < w.envs.next) × ((env_at w r).revoked ≡ true)

same-IsGone : (r : ℕ) (w w' : World) → SameIdentity w w' → IsGone r w → IsGone r w'
same-IsGone r w w' k gone = (rw k.envs gone.0, k.lives r ∙ gone.1)

revoke_env-IsGone : (r q : ℕ) (w : World) → IsGone r w → IsGone r (revoke_env q w)
revoke_env-IsGone r q w gone =
    same-IsGone r _ _ (same-revoke_env q w) (gone.0, ground (arith, gone.1))

ensure-IsGone :
    (r : ℕ) (w : World) (ctx : Ctx) (spec : Spec) (epoch : Bytes)
    → IsGone r w
    → IsGone r (ensure w ctx spec epoch).1
unfolding ensure ensure_locked has_image
ensure-IsGone r w ctx spec epoch gone = ground (arith, gone)

detach-IsGone :
    (r : ℕ) (s : System) (id : Bytes)
    → IsGone r s.world
    → IsGone r (detached s (detach id s.world)).world
unfolding detach
detach-IsGone r s id gone = elim (Option-cases (lookup id s.world.grants)) [
  | inl absent ↦ rw (absent, detach) gone
  | inr (q, held) ↦ rw (held, detach) gone
]

guarded_step-IsGone :
    (r : ℕ) (b : Bool) (s s' : System)
    → IsGone r s.world
    → (IsGone r s.world → IsGone r s'.world)
    → IsGone r (if b then s' else s).world
guarded_step-IsGone r true s s' gone f = f gone
guarded_step-IsGone r false s s' gone f = gone

module _ (q : ℕ) where
  step-IsGone : (s : System) (c : Call) → IsGone q s.world → IsGone q (step s c).world
  unfolding step
  step-IsGone s (call_ensure ctx spec epoch) gone = ensure-IsGone q s.world ctx spec epoch gone
  step-IsGone s (call_detach id) gone = detach-IsGone q s id gone
  step-IsGone s (call_finish r) gone =
      guarded_step-IsGone q (is_pending r s.pending) s _ gone (revoke_env-IsGone q r s.world)
  step-IsGone s (call_attach ctx r win) gone =
      guarded_step-IsGone q (ltb r s.world.envs.next) s _ gone
        (same-IsGone q _ _ (same-attach s.world r ctx win))
  step-IsGone s (call_freeze ctx r) gone = same-IsGone q _ _ (same-freeze s.world r ctx) gone
  step-IsGone s (call_thaw ctx r) gone = same-IsGone q _ _ (same-thaw s.world r ctx) gone
  step-IsGone s (call_replace ctx r tree epoch) gone =
      same-IsGone q _ _ (same-replace_tree s.world r ctx tree epoch) gone
  step-IsGone s (call_apply ctx r batch) gone =
      same-IsGone q _ _ (same-apply_batch s.world r ctx batch) gone
  step-IsGone s (call_watch ctx r cursor) gone =
      guarded_step-IsGone q (ltb r s.world.envs.next) s _ gone
        (same-IsGone q _ _ (same-watch s.world r ctx cursor))
  step-IsGone s (call_write_guest r path body) gone =
      guarded_step-IsGone q (guest_write_ok path body) s _ gone
        (same-IsGone q _ _ (same-write_guest_env s.world r path body))
  step-IsGone s (call_remove_guest r path) gone =
      same-IsGone q _ _ (same-remove_guest_env s.world r path) gone
  step-IsGone s (call_move_guest r from to) gone =
      guarded_step-IsGone q (guest_move_ok to) s _ gone
        (same-IsGone q _ _ (same-move_guest_env s.world r from to))
  step-IsGone s (call_read t n) gone = gone
  step-IsGone s (call_write t p) gone = gone
  step-IsGone s (call_resize ctx t win) gone = gone
  step-IsGone s (call_close t) gone = gone
  step-IsGone s (call_next ctx chosen o) gone = gone
  step-IsGone s (call_close_watch o) gone =
      same-IsGone q _ _ (same-close_observation o s.world) gone

  run-IsGone : (s : System) (cs : List Call) → IsGone q s.world → IsGone q (run s cs).world
  unfolding run
  run-IsGone s [] gone = gone
  run-IsGone s (c ∷ cs) gone = run-IsGone (step s c) cs (step-IsGone s c gone)

-- Once an environment is revoked, whatever calls follow, of any goroutines and in any order, its
-- operations fail with ErrRevoked and change nothing: no Thaw and no new Ensure brings it back.
pub run-RefusesAll :
    (s : System) (cs : List Call) (r : ℕ)
    → r < s.world.envs.next
    → (env_at s.world r).revoked ≡ true
    → RefusesAll (run s cs).world r (sentinel revoked)
run-RefusesAll s cs r made gone =
    (revoked-RefusesAll (run s cs).world r (run-IsGone r s cs (made, gone)).1).0
