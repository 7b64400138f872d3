-- ===== src/Memory/Visible.antt =====
-- A guest's write is seen: by Open, and by the observer.
use execenv.Base.{
  ℕ, ◌≡◌, false, some, none, [], ◌∷◌, ◌++◌, Bytes, bytes_eq, lookup, insert, lookup-insert,
  bytes_beq_self, length, ltb, arith, nat_eq, if◌then◌else◌,
}
use execenv.Errors.{ok, sentinel, lagged}
use execenv.Paths.{Event, op_create, op_replace, validate_path}
use execenv.Watchlog.{append, current}
use execenv.Memory.State.{World, env_at, obs_at}
use execenv.Memory.Observe.{offer, fail_obs}
use execenv.Memory.Env.{open_file, write_guest_env, emit, fail_watch, guest_node, exists}

module _ (w : World) (r : ℕ) (path body : Bytes) (live : (env_at w r).revoked ≡ false)
    (warm : (env_at w r).frozen ≡ false) where
  revoked-write : (env_at (write_guest_env w r path body).1 r).revoked ≡ false
  unfolding write_guest_env emit fail_watch
  revoked-write = ground (arith, live, warm)

  frozen-write : (env_at (write_guest_env w r path body).1 r).frozen ≡ false
  unfolding write_guest_env emit fail_watch
  frozen-write = ground (arith, live, warm)

  files-write :
      (env_at (write_guest_env w r path body).1 r).files
      ≡ insert path (guest_node body) (env_at w r).files
  unfolding write_guest_env emit fail_watch
  files-write = ground (arith, live, warm)

  lookup-write :
      lookup path (env_at (write_guest_env w r path body).1 r).files ≡ some (guest_node body)
  lookup-write = rw (
    files-write,
    lookup-insert path path (guest_node body) (env_at w r).files,
    bytes_beq_self path,
  )

  -- After a guest's write to a valid path of an environment that is neither frozen nor revoked, Open
  -- reads the body that the guest wrote, and changes nothing.
  pub open_file-write_guest_env :
      validate_path path ≡ ok tt
      → let w' = (write_guest_env w r path body).1 in open_file w' none r path ≡ (ok body, w')
  unfolding open_file
  open_file-write_guest_env valid = rw (valid, revoked-write, frozen-write, lookup-write)

  -- The event of the write, as it is stored.
  abbrev pub guest_event : Event
  guest_event = record {
    cursor = current (env_at (write_guest_env w r path body).1 r).log;
    op = if exists (lookup path (env_at w r).files) then op_replace else op_create;
    path = path;
    from = [];
  }

  -- The event of a guest's write goes to the environment's live observation: at the end of its
  -- queue, with the log's new cursor, if the channel has room; and if it has none, the observation
  -- fails with ErrLagged and the environment has no observation any more.
  pub queue-write_guest_env :
      (o : ℕ)
      → (env_at w r).obs ≡ some o
      → (obs_at w o).spent ≡ false
      → let w' = (write_guest_env w r path body).1 in
        if ltb (length (obs_at w o).queue) (obs_at w o).room
        then ((obs_at w' o).queue ≡ (obs_at w o).queue ++ guest_event ∷ [])
        else (((obs_at w' o).failed ≡ some (sentinel lagged)) × ((env_at w' r).obs ≡ none))
  unfolding write_guest_env emit fail_watch offer fail_obs append current
  queue-write_guest_env o held unspent = ground (arith, live, warm, held, unspent)
