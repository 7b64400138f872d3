-- ===== src/Memory/System.antt =====
-- The calls that goroutines make on one memory Host, interleaved at its locks. A call that holds a
-- lock throughout is one step; Host.Revoke is two, for it removes the grant under the host's lock
-- and revokes the environment under the environment's, and other calls may come between.
use execenv.Base.{
  ℕ, Bool, true, false, ◌||◌, Option, none, some, List, [], ◌∷◌, Bytes, ltb, leb, length, bytes_eq,
  ◌==◌, nat_eq, if◌then◌else◌,
}
use execenv.Errors.{Result, ok, err}
use execenv.Names.{Spec}
use execenv.Paths.{validate_path, max_file_bytes}
use execenv.Snapshot.{Tree, Mutation}
use execenv.Memory.State.{Window, World, Ctx, term_at, obs_at, set_term, set_obs}
use execenv.Memory.Terminal.{read, write, resize, close}
use execenv.Memory.Observe.{next_event}
use execenv.Memory.Env.{
  attach, freeze, thaw, revoke_env, replace_tree, apply_batch, watch, write_guest_env,
  remove_guest_env, move_guest_env, close_observation,
}
use execenv.Memory.Host.{ensure, detach}

-- Addresses are those of the handles the caller holds.
pub data Call : Type 0 where
  call_ensure : Ctx → Spec → Bytes → Call
  call_detach : Bytes → Call
  call_finish : ℕ → Call
  call_attach : Ctx → ℕ → Window → Call
  call_freeze : Ctx → ℕ → Call
  call_thaw : Ctx → ℕ → Call
  call_replace : Ctx → ℕ → Tree → Bytes → Call
  call_apply : Ctx → ℕ → List Mutation → Call
  call_watch : Ctx → ℕ → Bytes → Call
  call_write_guest : ℕ → Bytes → Bytes → Call
  call_remove_guest : ℕ → Bytes → Call
  call_move_guest : ℕ → Bytes → Bytes → Call
  call_read : ℕ → ℕ → Call
  call_write : ℕ → Bytes → Call
  call_resize : Ctx → ℕ → Window → Call
  call_close : ℕ → Call
  call_next : Ctx → Bool → ℕ → Call
  call_close_watch : ℕ → Call

-- pending: what Host.Revoke has removed and not revoked yet
pub record System : Type 0 where
  pub world : World
  pub pending : List ℕ

unfoldable pub is_pending : ℕ → List ℕ → Bool
is_pending r [] = false
is_pending r (q ∷ rest) = q == r || is_pending r rest

unfoldable pub forget : ℕ → List ℕ → List ℕ
forget r [] = []
forget r (q ∷ rest) = if q == r then forget r rest else q ∷ forget r rest

abbrev pub after : {A : Type 0} → System → Result A × World → System
after s outcome = record s { world = outcome.1 }

-- The host and the environment check a guest path before they look for the environment.
abbrev pub guest_write_ok : Bytes → Bytes → Bool
guest_write_ok path body = elim (validate_path path) [
  | err e ↦ false
  | ok u ↦ leb (length body) max_file_bytes
]

abbrev pub guest_move_ok : Bytes → Bool
guest_move_ok to = elim (validate_path to) [ err e ↦ false | ok u ↦ true ]

abbrev pub detached : System → Option ℕ × World → System
detached s (none, w) = record { world = w; pending = s.pending }
detached s (some r, w) = record { world = w; pending = r ∷ s.pending }

-- One call, on a handle that there is.
unfoldable pub step : System → Call → System
step s (call_ensure ctx spec epoch) = after s (ensure s.world ctx spec epoch)
step s (call_detach id) = detached s (detach id s.world)
step s (call_finish r) =
    if is_pending r s.pending
    then record { world = revoke_env r s.world; pending = forget r s.pending }
    else s
step s (call_attach ctx r win) =
    if ltb r s.world.envs.next then after s (attach s.world ctx r win) else s
step s (call_freeze ctx r) = after s (freeze s.world ctx r)
step s (call_thaw ctx r) = after s (thaw s.world ctx r)
step s (call_replace ctx r tree epoch) = after s (replace_tree s.world ctx r tree epoch)
step s (call_apply ctx r batch) = after s (apply_batch s.world ctx r batch)
step s (call_watch ctx r cursor) =
    if ltb r s.world.envs.next then after s (watch s.world ctx r cursor) else s
step s (call_write_guest r path body) =
    if guest_write_ok path body then after s (write_guest_env s.world r path body) else s
step s (call_remove_guest r path) = after s (remove_guest_env s.world r path)
step s (call_move_guest r from to) =
    if guest_move_ok to then after s (move_guest_env s.world r from to) else s
step s (call_read t n) = record s { world = set_term s.world t (read (term_at s.world t) n).1 }
step s (call_write t p) = record s { world = set_term s.world t (write (term_at s.world t) p).1 }
step s (call_resize ctx t win) = record s {
  world = set_term s.world t (resize (term_at s.world t) ctx win).1;
}
step s (call_close t) = record s { world = set_term s.world t (close (term_at s.world t)) }
step s (call_next ctx chosen o) = record s {
  world = set_obs s.world o (next_event ctx chosen (obs_at s.world o)).1;
}
step s (call_close_watch o) = record s { world = close_observation o s.world }

-- Everything that the calls `cs` do, in their order.
unfoldable pub run : System → List Call → System
unfolding step
run s [] = s
run s (c ∷ rest) = run (step s c) rest
