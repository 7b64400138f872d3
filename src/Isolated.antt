-- ===== src/Isolated.antt =====
-- isolated/isolated.go: grants that take time to start. Ensure reserves a slot by an entry of
-- `pending`, starts the grant without the host's lock, and completes under it again; each function
-- here is what happens under the lock once. What the probe, the catalog's files, the directory and
-- the start-up answer are arguments.
pub mod Invariant
pub mod Run
pub mod Waiters
mod Examples
use execenv.Base.{
  ℕ, ◌+◌, ◌-◌, Bool, true, false, not, ◌||◌, ◌&&◌, Option, none, some, List, Bytes, GoMap, bytes_eq,
  lookup, insert, delete, length, leb, contains_byte, ◌==◌, nat_eq, if◌then◌else◌,
}
use execenv.Errors.{
  Error, Result, ok, err, sentinel, op_error, conflict, unavailable, unknown_image, network,
  capacity,
}
use execenv.Names.{Network, network_allowlist, Spec, validate_spec}
use execenv.Memory.State.{Heap, Ctx, fresh, store}
use execenv.Memory.Host.{has_image, network_beq, ensure_op}

pub record Guest : Type 0 where
  pub image : Bytes
  pub network : Network

-- ensureCall; done is the channel, closed or not
pub record EnsureCall : Type 0 where
  pub spec : Spec
  pub done : Bool
  pub cancelled : Bool
  pub result : Result ℕ

pub record IsolatedHost : Type 0 where
  pub images : List Bytes
  pub slots : ℕ
  pub allows : Bool
  pub grants : GoMap Bytes ℕ
  pub pending : GoMap Bytes ℕ
  pub envs : Heap Guest
  pub calls : Heap EnsureCall

pub data Look : Type 0 where
  answers : Result ℕ → Look
  waits_for : ℕ → Look
  goes_on : Look
  reserved : ℕ → Look

abbrev pub refusal : Error → Look
refusal e = answers (err (op_error ensure_op e))

-- The grant or the call that has the id, where there is one; `k` where there is none.
abbrev pub unless_occupied : IsolatedHost → Spec → Look × IsolatedHost → Look × IsolatedHost
unless_occupied h spec k = elim (lookup spec.id h.grants) [
  | some r ↦
      if not ((h.envs.cell r).image == spec.image)
        || not (network_beq (h.envs.cell r).network spec.network)
      then (refusal (sentinel conflict), h)
      else (answers (ok r), h)
  | none ↦ elim (lookup spec.id h.pending) [
    | some c ↦
        if not ((h.calls.cell c).spec.image == spec.image)
          || not (network_beq (h.calls.cell c).spec.network spec.network)
        then (refusal (sentinel conflict), h)
        else (waits_for c, h)
    | none ↦ k
  ]
]

-- Ensure up to its first unlock; `probed` is the probe's answer
unfoldable pub look : IsolatedHost → Ctx → Spec → Option Error → Look × IsolatedHost
look h (some e) spec probed = (refusal e, h)
look h none spec probed = elim (validate_spec spec) [
  | err e ↦ (refusal e, h)
  | ok u ↦ elim probed [
    | some e ↦ (refusal (sentinel unavailable), h)
    | none ↦ unless_occupied h spec (
        if not (has_image spec.image h.images)
        then (refusal (sentinel unknown_image), h)
        else (goes_on, h))
  ]
]

abbrev pub new_call : Spec → EnsureCall
new_call spec = record {
  spec = spec;
  done = false;
  cancelled = false;
  result = err (sentinel unavailable);
}

-- MkdirAll under the lock, after the reservation
abbrev pub with_directory : IsolatedHost → Spec → ℕ → Option Error → Look × IsolatedHost
with_directory h spec c none = (reserved c, h)
with_directory h spec c (some e) = (
  refusal e,
  record h {
    pending = delete spec.id h.pending;
    calls = store h.calls c (record (h.calls.cell c) { cancelled = true });
  },
)

-- Ensure from the catalog's answer to its second unlock
unfoldable pub reserve : IsolatedHost → Spec → Bool → Option Error → Look × IsolatedHost
reserve h spec verified made =
    if not verified
    then (refusal (sentinel unknown_image), h)
    else unless_occupied h spec (
        if network_beq spec.network network_allowlist && not h.allows
        then (refusal (sentinel network), h)
        else if leb h.slots (length h.grants + length h.pending)
        then (refusal (sentinel capacity), h)
        else with_directory
            (record h {
              pending = insert spec.id h.calls.next h.pending;
              calls = fresh h.calls (new_call spec);
            })
            spec h.calls.next made)

abbrev pub close_call : IsolatedHost → ℕ → Result ℕ → IsolatedHost
close_call h c result = record h {
  pending = delete (h.calls.cell c).spec.id h.pending;
  calls =
      store h.calls c (record (h.calls.cell c) { done = true; cancelled = true; result = result });
}

-- completeEnsure: what the owner's Ensure returns
unfoldable pub complete : IsolatedHost → ℕ → Result Guest → Result ℕ × IsolatedHost
complete h c (err e) = (err e, close_call h c (err e))
complete h c (ok guest) = (
  ok h.envs.next,
  record (close_call h c (ok h.envs.next)) {
    grants = insert (h.calls.cell c).spec.id h.envs.next h.grants;
    envs = fresh h.envs guest;
  },
)

-- waitEnsure; `none` while neither the context nor the call has ended. Where both have, `select`
-- may take either: `chosen` says whether it took the context's.
unfoldable pub wait_ensure : IsolatedHost → Ctx → Bool → ℕ → Option (Result ℕ)
wait_ensure h none chosen c = if (h.calls.cell c).done then some (h.calls.cell c).result else none
wait_ensure h (some e) chosen c =
    if (h.calls.cell c).done && not chosen
    then some (h.calls.cell c).result
    else some (err (op_error ensure_op e))

pub data Removed : Type 0 where
  must_wait : ℕ → Removed
  removed : ℕ → Removed
  nothing : Removed

-- Host.Revoke: one round of its loop
unfoldable pub revoke_round : IsolatedHost → Bytes → Removed × IsolatedHost
revoke_round h id = elim (lookup id h.pending) [
  | some c ↦ (
    must_wait c,
    record h { calls = store h.calls c (record (h.calls.cell c) { cancelled = true }) },
  )
  | none ↦ elim (lookup id h.grants) [
    | some r ↦ (removed r, record h { grants = delete id h.grants })
    | none ↦ (nothing, h)
  ]
]

-- Host.Ready's free slots
unfoldable pub free_slots : IsolatedHost → ℕ
free_slots h = h.slots - length h.grants - length h.pending
