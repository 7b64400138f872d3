-- ===== src/Memory/Handles.antt =====
-- What the holder of an environment's, a terminal's or an observation's handle can rely on.
use execenv.Base.{ℕ, ◌≡◌, false, true, none, List, Bytes, bytes_eq, arith, nat_eq}
use execenv.Errors.{Error, ok, sentinel, revoked, busy}
use execenv.Paths.{validate_path}
use execenv.Snapshot.{Tree, Mutation}
use execenv.Memory.State.{Window, World, Ctx, env_at, term_at, set_term}
use execenv.Memory.Terminal.{finished, close, new_terminal}
use execenv.Memory.Env.{
  refuse, attach_op, freeze_op, thaw_op, replace_tree_op, apply_batch_op, watch_op, open_op,
  guest_op, attach, freeze, thaw, replace_tree, apply_batch, watch, open_file, write_guest_env,
  remove_guest_env, move_guest_env, drop_term, fail_watch,
}

-- Every operation refuses a call with `reason`, under its own name, and changes nothing.
abbrev pub RefusesAll : World → ℕ → Error → Type 0
RefusesAll w r reason =
    ((win : Window) → attach w none r win ≡ refuse w attach_op reason)
    × ((tree : Tree) (epoch : Bytes)
        → replace_tree w none r tree epoch ≡ refuse w replace_tree_op reason)
    × ((batch : List Mutation) → apply_batch w none r batch ≡ refuse w apply_batch_op reason)
    × ((after : Bytes) → watch w none r after ≡ refuse w watch_op reason)
    × ((path : Bytes)
        → validate_path path ≡ ok tt
        → open_file w none r path ≡ refuse w open_op reason)
    × ((path body : Bytes) → write_guest_env w r path body ≡ refuse w guest_op reason)
    × ((path : Bytes) → remove_guest_env w r path ≡ refuse w guest_op reason)
    × ((from to : Bytes) → move_guest_env w r from to ≡ refuse w guest_op reason)

module _ (w : World) (r : ℕ) where
  -- On a revoked environment every operation fails with ErrRevoked and changes nothing: attaching,
  -- replacing and applying a tree, watching, opening a valid path, the guest's writes, and freezing
  -- and thawing too.
  pub revoked-RefusesAll :
      (env_at w r).revoked ≡ true
      → RefusesAll w r (sentinel revoked)
        × (freeze w none r ≡ refuse w freeze_op (sentinel revoked))
        × (thaw w none r ≡ refuse w thaw_op (sentinel revoked))
  unfolding attach replace_tree apply_batch watch open_file write_guest_env remove_guest_env
      move_guest_env freeze thaw
  revoked-RefusesAll gone = (
    (
      λ win. rw gone,
      λ tree epoch. rw gone,
      λ batch. rw gone,
      λ after. rw gone,
      λ path valid. rw (valid, gone),
      λ path body. rw gone,
      λ path. rw gone,
      λ from to. rw gone,
    ),
    rw gone,
    rw gone,
  )

module _ (w : World) (r : ℕ) where
  -- After a freeze and a thaw of an environment that is not revoked, an Attach succeeds: what the
  -- caller gets is a new terminal of that environment, usable and empty.
  pub freeze-thaw-attach :
      (win : Window)
      → (env_at w r).revoked ≡ false
      → let w' = (thaw (freeze w none r).1 none r).1 in
        let (result, w'') = attach w' none r win in
        (result ≡ ok w'.terms.next) × (term_at w'' w'.terms.next ≡ new_terminal r win)
  unfolding freeze thaw attach drop_term fail_watch
  freeze-thaw-attach win live = ground (arith, live)

  -- An Attach that succeeds makes every Attach fail with ErrBusy, until the terminal is closed; and
  -- then the next one succeeds.
  pub attach-attach :
      (ctx : Ctx) (win win' : Window) (t : ℕ) (w' : World)
      → attach w ctx r win ≡ (ok t, w')
      → (attach w' none r win' ≡ refuse w' attach_op (sentinel busy))
        × ((attach (set_term w' t (close (term_at w' t))) none r win').0 ≡ ok w'.terms.next)
  unfolding attach finished new_terminal close
  attach-attach ctx win win' t w' h = ground arith
