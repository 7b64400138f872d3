-- ===== src/Memory/Safe/Run.antt =====
-- Every call keeps memory's Host well formed, and so do any calls in any interleaving.
use execenv.Base.{List, [], ◌∷◌, bytes_eq, ltb, arith, nat_eq, Bool-cases, inl, inr}
use execenv.Memory.Keeps.{
  attach-Inv, freeze-Inv, thaw-Inv, replace_tree-Inv, apply_batch-Inv, watch-Inv,
}
use execenv.Memory.Guest.{
  write_guest_env-Inv, remove_guest_env-Inv, move_guest_env-Inv, read-Inv, write-Inv, resize-Inv,
  close-Inv, next_event-Inv, close_observation-Inv,
}
use execenv.Memory.Identity.{
  same-attach, same-freeze, same-thaw, same-replace_tree, same-apply_batch, same-watch,
  same-write_guest_env, same-remove_guest_env, same-move_guest_env, same-close_observation,
  same-set_term, same-set_obs,
}
use execenv.Memory.System.{
  System, Call, call_ensure, call_detach, call_finish, call_attach, call_freeze, call_thaw,
  call_replace, call_apply, call_watch, call_write_guest, call_remove_guest, call_move_guest,
  call_read, call_write, call_resize, call_close, call_next, call_close_watch, step, run,
  is_pending, guest_write_ok, guest_move_ok,
}
use execenv.Memory.Safe.{
  Safe, kept-Safe, call_ensure-Safe, call_detach-Safe, call_finish-Safe, guest_write-path,
  guest_write-size, guest_move-path,
}

pub step-Safe : (s : System) (c : Call) → Safe s → Safe (step s c)
unfolding step
step-Safe s (call_ensure ctx spec epoch) safe = call_ensure-Safe s safe ctx spec epoch
step-Safe s (call_detach id) safe = call_detach-Safe s safe id
step-Safe s (call_finish r) safe = elim (Bool-cases (is_pending r s.pending)) [
  | inl due ↦ rw due (call_finish-Safe s safe r due)
  | inr idle ↦ rw idle safe
]
step-Safe s (call_attach ctx r win) safe = elim (Bool-cases (ltb r s.world.envs.next)) [
  | inl made ↦ rw made (
      kept-Safe s _ safe (attach-Inv s.world safe.inv r ctx win (ground (arith, made)))
        (same-attach s.world r ctx win))
  | inr unmade ↦ rw unmade safe
]
step-Safe s (call_freeze ctx r) safe =
    kept-Safe s _ safe (freeze-Inv s.world safe.inv r ctx) (same-freeze s.world r ctx)
step-Safe s (call_thaw ctx r) safe =
    kept-Safe s _ safe (thaw-Inv s.world safe.inv r ctx) (same-thaw s.world r ctx)
step-Safe s (call_replace ctx r tree epoch) safe =
    kept-Safe s _ safe (replace_tree-Inv s.world safe.inv r ctx tree epoch)
      (same-replace_tree s.world r ctx tree epoch)
step-Safe s (call_apply ctx r batch) safe =
    kept-Safe s _ safe (apply_batch-Inv s.world safe.inv r ctx batch)
      (same-apply_batch s.world r ctx batch)
step-Safe s (call_watch ctx r cursor) safe = elim (Bool-cases (ltb r s.world.envs.next)) [
  | inl made ↦ rw made (
      kept-Safe s _ safe (watch-Inv s.world safe.inv r ctx cursor (ground (arith, made)))
        (same-watch s.world r ctx cursor))
  | inr unmade ↦ rw unmade safe
]
step-Safe s (call_write_guest r path body) safe = elim (Bool-cases (guest_write_ok path body)) [
  | inr bad ↦ rw bad safe
  | inl good ↦ rw good (
      kept-Safe s _ safe
        (write_guest_env-Inv s.world safe.inv r path body (guest_write-path path body good)
          (guest_write-size path body good))
        (same-write_guest_env s.world r path body))
]
step-Safe s (call_remove_guest r path) safe =
    kept-Safe s _ safe (remove_guest_env-Inv s.world safe.inv r path)
      (same-remove_guest_env s.world r path)
step-Safe s (call_move_guest r from to) safe = elim (Bool-cases (guest_move_ok to)) [
  | inr bad ↦ rw bad safe
  | inl good ↦ rw good (
      kept-Safe s _ safe (move_guest_env-Inv s.world safe.inv r from to (guest_move-path to good))
        (same-move_guest_env s.world r from to))
]
step-Safe s (call_read t n) safe =
    kept-Safe s _ safe (read-Inv s.world safe.inv t n) (same-set_term s.world t _)
step-Safe s (call_write t p) safe =
    kept-Safe s _ safe (write-Inv s.world safe.inv t p) (same-set_term s.world t _)
step-Safe s (call_resize ctx t win) safe =
    kept-Safe s _ safe (resize-Inv s.world safe.inv t ctx win) (same-set_term s.world t _)
step-Safe s (call_close t) safe =
    kept-Safe s _ safe (close-Inv s.world safe.inv t) (same-set_term s.world t _)
step-Safe s (call_next ctx chosen o) safe =
    kept-Safe s _ safe (next_event-Inv s.world safe.inv o ctx chosen) (same-set_obs s.world o _)
step-Safe s (call_close_watch o) safe =
    kept-Safe s _ safe (close_observation-Inv s.world safe.inv o) (same-close_observation o s.world)

pub run-Safe : (s : System) (cs : List Call) → Safe s → Safe (run s cs)
unfolding run
run-Safe s [] safe = safe
run-Safe s (c ∷ cs) safe = run-Safe (step s c) cs (step-Safe s c safe)
