-- ===== src/Memory/Host.antt =====
-- The methods of memory's Host: New, Capabilities, Ready, Ensure, Revoke and the guest hooks.
use execenv.Base.{
  ℕ, ◌-◌, Bool, true, false, not, ◌||◌, Option, none, some, List, [], ◌∷◌, Bytes, codes, length,
  leb, ltb, lookup, insert, delete, bytes_eq, ◌==◌, nat_eq, if◌then◌else◌,
}
use execenv.Errors.{
  sentinel, op_error, unavailable, conflict, unknown_image, capacity, revoked, too_large, Result,
  ok, err,
}
use execenv.Names.{Spec, Network, network_none, network_allowlist, network_unknown, validate_spec}
use execenv.Paths.{validate_path, max_file_bytes}
use execenv.Watchlog.{new_log, default_capacity}
use execenv.Memory.State.{Environment, World, Ctx, Outcome, fresh, env_at, Terminal, Observation}
use execenv.Memory.Env.{
  refuse, with_ctx, guest_op, revoke_env, write_guest_env, remove_guest_env, move_guest_env,
}

abbrev pub network_rank : Network → ℕ
network_rank network_none = 0
network_rank network_allowlist = 1
network_rank (network_unknown n) = n

-- Two values of Go's `uint8`; ValidateSpec leaves only the two named ones.
abbrev pub network_beq : Network → Network → Bool
network_beq a b = network_rank a == network_rank b

abbrev pub blank_environment : Environment
blank_environment = record {
  id = [];
  image = [];
  network = network_none;
  frozen = false;
  revoked = false;
  term = none;
  files = [];
  obs = none;
  log = record { epoch = []; next = 0; capacity = 0; events = [] };
}

abbrev pub blank_terminal : Terminal
blank_terminal = record {
  env = 0;
  buf = [];
  win = record { cols = 0; rows = 0 };
  closed = true;
  dead = none;
}

abbrev pub blank_observation : Observation
blank_observation = record {
  env = 0;
  cursor = [];
  queue = [];
  room = 0;
  failed = none;
  spent = true;
}

-- memory.New; no slots, or fewer, means one
unfoldable pub new_host : List Bytes → ℕ → Bool → World
new_host images slots unusable = record {
  images = images;
  slots = if slots == 0 then 1 else slots;
  unusable = unusable;
  grants = [];
  envs = record { next = 0; cell = λ r. blank_environment };
  terms = record { next = 0; cell = λ t. blank_terminal };
  observations = record { next = 0; cell = λ o. blank_observation };
}

pub record Report : Type 0 where
  pub usable : Bool
  pub images : List Bytes
  pub networks : List Network
  pub slots : ℕ

-- Host.Ready, without the process stamp
unfoldable pub ready : World → Ctx → Result Report
ready w (some e) = err (op_error (codes "ready") e)
ready w none = ok (record {
  usable = not w.unusable;
  images = w.images;
  networks = network_none ∷ network_allowlist ∷ [];
  slots = w.slots - length w.grants;
})

-- Host.hasImage
unfoldable pub has_image : Bytes → List Bytes → Bool
has_image want [] = false
has_image want (i ∷ rest) = i == want || has_image want rest

abbrev pub ensure_op : Bytes
ensure_op = codes "ensure"

abbrev pub new_environment : Spec → Bytes → Environment
new_environment spec epoch = record {
  id = spec.id;
  image = spec.image;
  network = spec.network;
  frozen = false;
  revoked = false;
  term = none;
  files = [];
  obs = none;
  log = new_log epoch default_capacity;
}

-- Ensure where the id has no grant
abbrev pub ensure_new : World → Spec → Bytes → Outcome ℕ
ensure_new w spec epoch =
    if not (has_image spec.image w.images)
    then refuse w ensure_op (sentinel unknown_image)
    else if leb w.slots (length w.grants)
    then refuse w ensure_op (sentinel capacity)
    else (
      ok w.envs.next,
      record w {
        grants = insert spec.id w.envs.next w.grants;
        envs = fresh w.envs (new_environment spec epoch);
      },
    )

abbrev pub ensure_existing : World → Spec → ℕ → Outcome ℕ
ensure_existing w spec r =
    if not ((env_at w r).image == spec.image) || not (network_beq (env_at w r).network spec.network)
    then refuse w ensure_op (sentinel conflict)
    else (ok r, w)

-- Ensure under the host's lock
unfoldable pub ensure_locked : World → Spec → Bytes → Outcome ℕ
unfolding has_image
ensure_locked w spec epoch =
    if w.unusable
    then refuse w ensure_op (sentinel unavailable)
    else elim (lookup spec.id w.grants) [
      | some r ↦ ensure_existing w spec r
      | none ↦ ensure_new w spec epoch
    ]

-- Host.Ensure: the environment's address; `epoch` is the new log's generation
unfoldable pub ensure : World → Ctx → Spec → Bytes → Outcome ℕ
ensure w ctx spec epoch =
    with_ctx w ensure_op ctx (elim (validate_spec spec) [
      | err e ↦ refuse w ensure_op e
      | ok u ↦ ensure_locked w spec epoch
    ])

-- Host.Revoke under the host's lock: what it removed
unfoldable pub detach : Bytes → World → Option ℕ × World
detach id w = elim (lookup id w.grants) [
  | none ↦ (none, w)
  | some r ↦ (some r, record w { grants = delete id w.grants })
]

-- Host.Revoke, with nothing between its two critical sections
unfoldable pub revoke : World → Ctx → Bytes → Outcome (Unit {0})
unfolding detach
revoke w ctx id = with_ctx w (codes "revoke") ctx (
    let (found, w') = detach id w in
    elim found [ none ↦ (ok tt, w') | some r ↦ (ok tt, revoke_env r w') ])

-- environment.Revoke: by the id, not by the object
unfoldable pub revoke_handle : World → Ctx → ℕ → Outcome (Unit {0})
unfolding revoke
revoke_handle w ctx r = with_ctx w (codes "revoke") ctx (revoke w none (env_at w r).id)

-- Host.grant, and the call on the environment it finds
abbrev pub on_grant : World → Bytes → (ℕ → Outcome (Unit {0})) → Outcome (Unit {0})
on_grant w id k = elim (lookup id w.grants) [
  | none ↦ refuse w guest_op (sentinel revoked)
  | some r ↦ k r
]

abbrev pub with_path : World → Bytes → Outcome (Unit {0}) → Outcome (Unit {0})
with_path w path k = elim (validate_path path) [ err e ↦ refuse w guest_op e | ok u ↦ k ]

-- Host.WriteGuest
unfoldable pub write_guest : World → Ctx → Bytes → Bytes → Bytes → Outcome (Unit {0})
write_guest w ctx id path body = with_ctx w guest_op ctx (
    with_path w path (
      if ltb max_file_bytes (length body)
      then refuse w guest_op (sentinel too_large)
      else on_grant w id (λ r. write_guest_env w r path body)))

-- Host.RemoveGuest
unfoldable pub remove_guest : World → Ctx → Bytes → Bytes → Outcome (Unit {0})
remove_guest w ctx id path =
    with_ctx w guest_op ctx (with_path w path (on_grant w id (λ r. remove_guest_env w r path)))

-- Host.MoveGuest
unfoldable pub move_guest : World → Ctx → Bytes → Bytes → Bytes → Outcome (Unit {0})
move_guest w ctx id from to =
    with_ctx w guest_op ctx
      (with_path w from (with_path w to (on_grant w id (λ r. move_guest_env w r from to))))
