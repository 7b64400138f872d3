-- ===== src/Memory/Env.antt =====
-- The methods of memory's environment: memory/memory.go (Attach, Freeze, Thaw, revoke) and
-- memory/tree.go (ReplaceTree, Apply, Watch, Open, the guest's writes, Observation.Close). Each
-- runs under the environment's lock, so it is one step on the world; `r` is the receiver.
use Prim.Native.Nat.{max}
use execenv.Base.{
  ℕ, Bool, true, false, not, Option, none, some, List, [], Bytes, codes, length, lookup, insert,
  delete, bytes_eq, ◌==◌, nat_eq, if◌then◌else◌,
}
use execenv.Errors.{
  Error, sentinel, op_error, closed, lagged, revoked, frozen, busy, not_found, conflict, ok, err,
}
use execenv.Paths.{Event, op_create, op_replace, op_delete, op_move, validate_path}
use execenv.Snapshot.{Node, Tree, Mutation, kind_file, is_file, replace, apply}
use execenv.Watchlog.{append, reset, since}
use execenv.Memory.State.{
  Window, Observation, Environment, World, Ctx, Outcome, fresh, env_at, term_at, obs_at, set_env,
  set_term, set_obs,
}
use execenv.Memory.Terminal.{new_terminal, finished, kill}
use execenv.Memory.Observe.{fail_obs, offer}

-- The operation names that the errors are annotated with.
abbrev pub attach_op : Bytes
attach_op = codes "attach"

abbrev pub freeze_op : Bytes
freeze_op = codes "freeze"

abbrev pub thaw_op : Bytes
thaw_op = codes "thaw"

abbrev pub replace_tree_op : Bytes
replace_tree_op = codes "replace"

abbrev pub apply_batch_op : Bytes
apply_batch_op = codes "apply"

abbrev pub watch_op : Bytes
watch_op = codes "watch"

abbrev pub open_op : Bytes
open_op = codes "open"

abbrev pub guest_op : Bytes
guest_op = codes "guest"

-- execenv.Error(op, sentinel), with the world as it was
abbrev pub refuse : {A : Type 0} → World → Bytes → Error → Outcome A
refuse w op e = (err (op_error op e), w)

-- if err := ctx.Err(); err != nil { return execenv.Error(op, err) }
abbrev pub with_ctx : {A : Type 0} → World → Bytes → Ctx → Outcome A → Outcome A
with_ctx w op none k = k
with_ctx w op (some e) k = refuse w op e

-- environment.guard
abbrev pub guarded : {A : Type 0} → World → Bytes → Environment → Outcome A → Outcome A
guarded w op e k =
    if e.revoked
    then refuse w op (sentinel revoked)
    else if e.frozen
    then refuse w op (sentinel frozen)
    else k

-- if e.term != nil { e.term.kill(reason); e.term = nil }
unfoldable pub drop_term : Error → ℕ → World → World
drop_term reason r w = elim (env_at w r).term [
  | none ↦ w
  | some t ↦
      set_env (set_term w t (kill reason (term_at w t))) r (record (env_at w r) { term = none })
]

-- environment.failWatch
unfoldable pub fail_watch : Error → ℕ → World → World
fail_watch reason r w = elim (env_at w r).obs [
  | none ↦ w
  | some o ↦
      set_env (set_obs w o (fail_obs reason (obs_at w o))) r (record (env_at w r) { obs = none })
]

-- environment.Attach: the new terminal's address
unfoldable pub attach : World → Ctx → ℕ → Window → Outcome ℕ
attach w ctx r win = with_ctx w attach_op ctx (
    guarded w attach_op (env_at w r) (
      if elim (env_at w r).term [ none ↦ false | some t ↦ not (finished (term_at w t)) ]
      then refuse w attach_op (sentinel busy)
      else (
        ok w.terms.next,
        set_env (record w { terms = fresh w.terms (new_terminal r win) }) r
            (record (env_at w r) { term = some w.terms.next }),
      )))

abbrev pub unless_revoked : {A : Type 0} → World → Bytes → ℕ → Outcome A → Outcome A
unless_revoked w op r k = if (env_at w r).revoked then refuse w op (sentinel revoked) else k

-- environment.Freeze
unfoldable pub freeze : World → Ctx → ℕ → Outcome (Unit {0})
freeze w ctx r = with_ctx w freeze_op ctx (
    unless_revoked w freeze_op r (
      ok tt,
      fail_watch (sentinel frozen) r
          (drop_term (sentinel frozen) r (set_env w r (record (env_at w r) { frozen = true }))),
    ))

-- environment.Thaw
unfoldable pub thaw : World → Ctx → ℕ → Outcome (Unit {0})
thaw w ctx r =
    with_ctx w thaw_op ctx
      (unless_revoked w thaw_op r (ok tt, set_env w r (record (env_at w r) { frozen = false })))

-- environment.revoke, under the environment's lock
unfoldable pub revoke_env : ℕ → World → World
revoke_env r w = fail_watch (sentinel revoked) r (
    drop_term (sentinel revoked) r
      (set_env w r (record (env_at w r) { revoked = true; frozen = false })))

-- environment.ReplaceTree; `epoch` is the log's new generation
unfoldable pub replace_tree : World → Ctx → ℕ → Tree → Bytes → Outcome (Unit {0})
replace_tree w ctx r tree epoch = with_ctx w replace_tree_op ctx (
    guarded w replace_tree_op (env_at w r) (elim (replace (env_at w r).files tree) [
      | err e ↦ refuse w replace_tree_op e
      | ok next ↦
          let w' =
            fail_watch (sentinel lagged) r (set_env w r (record (env_at w r) { files = next })) in
          (ok tt, set_env w' r (record (env_at w' r) { log = reset epoch (env_at w' r).log }))
    ]))

-- environment.Apply
unfoldable pub apply_batch : World → Ctx → ℕ → List Mutation → Outcome (Unit {0})
apply_batch w ctx r batch = with_ctx w apply_batch_op ctx (
    guarded w apply_batch_op (env_at w r) (elim (apply (env_at w r).files batch) [
      | err e ↦ refuse w apply_batch_op e
      | ok next ↦ (ok tt, set_env w r (record (env_at w r) { files = next }))
    ]))

abbrev pub watch_buffer : ℕ
watch_buffer = 32

abbrev pub new_observation : ℕ → Bytes → List Event → Observation
new_observation r cursor replay = record {
  env = r;
  cursor = cursor;
  queue = replay;
  room = max watch_buffer (length replay);
  failed = none;
  spent = false;
}

-- environment.Watch: the new observation's address
unfoldable pub watch : World → Ctx → ℕ → Bytes → Outcome ℕ
watch w ctx r after = with_ctx w watch_op ctx (
    guarded w watch_op (env_at w r) (elim (env_at w r).obs [
      | some o ↦ refuse w watch_op (sentinel busy)
      | none ↦ elim (since (env_at w r).log after) [
        | err e ↦ refuse w watch_op e
        | ok (cursor, replay) ↦ (
          ok w.observations.next,
          set_env
              (record w { observations = fresh w.observations (new_observation r cursor replay) }) r
              (record (env_at w r) { obs = some w.observations.next }),
        )
      ]
    ]))

abbrev pub body_at : World → Option Node → Outcome Bytes
body_at w none = refuse w open_op (sentinel not_found)
body_at w (some n) =
    if not (is_file n.kind) then refuse w open_op (sentinel not_found) else (ok n.body, w)

-- environment.Open: the body that the reader will return
unfoldable pub open_file : World → Ctx → ℕ → Bytes → Outcome Bytes
open_file w ctx r path = with_ctx w open_op ctx (elim (validate_path path) [
  | err e ↦ refuse w open_op e
  | ok u ↦ guarded w open_op (env_at w r) (body_at w (lookup path (env_at w r).files))
])

-- environment.emit
unfoldable pub emit : Event → ℕ → World → World
emit event r w =
    let (stored, log') = append event (env_at w r).log in
    let w' = set_env w r (record (env_at w r) { log = log' }) in
    elim (env_at w r).obs [
      | none ↦ w'
      | some o ↦
          let (sent, o') = offer stored (obs_at w' o) in
          if sent then set_obs w' o o' else fail_watch (sentinel lagged) r w'
    ]

abbrev pub guest_node : Bytes → Node
guest_node body = record { kind = kind_file; version = codes "guest"; body = body }

abbrev pub exists : Option Node → Bool
exists none = false
exists (some n) = true

-- environment.writeGuest
unfoldable pub write_guest_env : World → ℕ → Bytes → Bytes → Outcome (Unit {0})
write_guest_env w r path body = guarded w guest_op (env_at w r) (
    let e = env_at w r in
    let op = if exists (lookup path e.files) then op_replace else op_create in
    (
      ok tt,
      emit (record { cursor = []; op = op; path = path; from = [] }) r
          (set_env w r (record e { files = insert path (guest_node body) e.files })),
    ))

-- environment.removeGuest
unfoldable pub remove_guest_env : World → ℕ → Bytes → Outcome (Unit {0})
remove_guest_env w r path = guarded w guest_op (env_at w r) (
    let e = env_at w r in
    if not (exists (lookup path e.files)) then refuse w guest_op (sentinel not_found) else (
      ok tt,
      emit (record { cursor = []; op = op_delete; path = path; from = [] }) r
          (set_env w r (record e { files = delete path e.files })),
    ))

abbrev pub move_guest_node : World → ℕ → Bytes → Bytes → Option Node → Outcome (Unit {0})
move_guest_node w r from to none = refuse w guest_op (sentinel not_found)
move_guest_node w r from to (some ent) =
    let e = env_at w r in
    if exists (lookup to e.files) then refuse w guest_op (sentinel conflict) else (
      ok tt,
      emit (record { cursor = []; op = op_move; path = to; from = from }) r
          (set_env w r (record e { files = insert to ent (delete from e.files) })),
    )

-- environment.moveGuest
unfoldable pub move_guest_env : World → ℕ → Bytes → Bytes → Outcome (Unit {0})
move_guest_env w r from to =
    guarded w guest_op (env_at w r) (move_guest_node w r from to (lookup from (env_at w r).files))

abbrev pub is_current : ℕ → Option ℕ → Bool
is_current o none = false
is_current o (some p) = p == o

-- observation.Close
unfoldable pub close_observation : ℕ → World → World
close_observation o w =
    let r = (obs_at w o).env in
    if is_current o (env_at w r).obs then fail_watch (sentinel closed) r w else w
